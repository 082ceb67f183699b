-- ===== src/FieldRef/Typed/Writes.antt =====
-- What is written through a reference does not change the type of the root message.
use redis_protobuf.Base.{◌≡◌, refl, ◌∙◌, Option, none, some, List, ℕ, zero, suc, ◌+◌, ◌-◌}
use redis_protobuf.Exec.{modify}
use redis_protobuf.Exec.Keeps.{keeps_rules}
use redis_protobuf.Protobuf.{Protobuf, MapKey, CppType, ValueOf, message}
use redis_protobuf.FieldRef.{Ref, Step, change}
use redis_protobuf.FieldRef.Access.{
  get_value, set_value, get_repeated_value, set_repeated_value, add_value, set_mapped_value, size,
  clear, bubble, del_array_element, del, merge,
}
use redis_protobuf.FieldRef.Typed.{TypeLaws, IsTyped, change-Typed, lookup_key-Typed}

module _ {P : Protobuf} (laws : TypeLaws P) where
  open P use {Msg, Field}

  -- The writes to the message that a pointer points to.
  module _ (l : List (Step Field)) where
    put-Typed :
        (t : CppType) (f : Field) (v : ValueOf P t)
        → IsTyped laws (modify (change P l (λ m. P.set t m f v)))
    put-Typed t f v = change-Typed laws l _ (λ m. laws.descriptor-set t m f v)

    put_at-Typed :
        (t : CppType) (f : Field) (i : ℕ) (v : ValueOf P t)
        → IsTyped laws (modify (change P l (λ m. P.set_repeated t m f i v)))
    put_at-Typed t f i v = change-Typed laws l _ (λ m. laws.descriptor-set_repeated t m f i v)

    put_last-Typed :
        (t : CppType) (f : Field) (v : ValueOf P t)
        → IsTyped laws (modify (change P l (λ m. P.add t m f v)))
    put_last-Typed t f v = change-Typed laws l _ (λ m. laws.descriptor-add t m f v)

    put_entry-Typed :
        (t : CppType) (f : Field) (k : MapKey) (v : ValueOf P t)
        → IsTyped laws (modify (change P l (λ m. P.map_set t m f k v)))
    put_entry-Typed t f k v = change-Typed laws l _ (λ m. laws.descriptor-map_set t m f k v)

    merge_into-Typed :
        (f : Field) (other : Msg)
        → IsTyped laws
            (modify (change P l (λ m. P.set message m f (P.merge_from (P.get message m f) other))))
    merge_into-Typed f other = change-Typed laws l _ (λ m. laws.descriptor-set message m f _)

    clear_msg-Typed : IsTyped laws (modify (change P l P.clear))
    clear_msg-Typed = change-Typed laws l P.clear laws.descriptor-clear

    clear_one-Typed : (f : Field) → IsTyped laws (modify (change P l (λ m. P.clear_field m f)))
    clear_one-Typed f = change-Typed laws l _ (λ m. laws.descriptor-clear_field m f)

  descriptor-bubble :
      (n : ℕ) (f : Field) (i : ℕ) (m : Msg) → P.descriptor (bubble P n f i m) ≡ P.descriptor m
  unfolding bubble
  descriptor-bubble zero f i m = refl
  descriptor-bubble (suc n) f i m =
      descriptor-bubble n f (i + 1) (P.swap_elements m f i (i + 1))
      ∙ laws.descriptor-swap m f i (i + 1)

  descriptor-del :
      (f : Field) (i : ℕ) (m : Msg) → P.descriptor (del_array_element P f i m) ≡ P.descriptor m
  unfolding del_array_element
  descriptor-del f i m =
      laws.descriptor-remove_last (bubble P (P.field_size m f - 1 - i) f i m) f
      ∙ descriptor-bubble (P.field_size m f - 1 - i) f i m

  remove-Typed :
      (l : List (Step Field)) (f : Field) (i : ℕ)
      → IsTyped laws (modify (change P l (del_array_element P f i)))
  remove-Typed l f i = change-Typed laws l (del_array_element P f i) (descriptor-del f i)

  -- The members of the class.
  pub get_value-Typed : (t : CppType) (r : Ref P) → IsTyped laws (get_value P t r)
  get_value-Typed t r = unfold get_value in search keeps_rules

  pub set_value-Typed :
      (t : CppType) (r : Ref P) (v : ValueOf P t) → IsTyped laws (set_value P t r v)
  set_value-Typed t r v = unfold set_value in search (keeps_rules, put-Typed)

  pub get_repeated_value-Typed : (t : CppType) (r : Ref P) → IsTyped laws (get_repeated_value P t r)
  get_repeated_value-Typed t r = unfold get_repeated_value in search keeps_rules

  pub set_repeated_value-Typed :
      (t : CppType) (r : Ref P) (v : ValueOf P t) → IsTyped laws (set_repeated_value P t r v)
  set_repeated_value-Typed t r v =
      unfold set_repeated_value in search (keeps_rules, put_at-Typed) depth 7

  pub add_value-Typed :
      (t : CppType) (r : Ref P) (v : ValueOf P t) → IsTyped laws (add_value P t r v)
  add_value-Typed t r v = unfold add_value in search (keeps_rules, put_last-Typed)

  pub set_mapped_value-Typed :
      (t : CppType) (r : Ref P) (v : ValueOf P t) → IsTyped laws (set_mapped_value P t r v)
  set_mapped_value-Typed t r v =
      unfold set_mapped_value in
      search (keeps_rules, put_entry-Typed, lookup_key-Typed laws) depth 7

  pub size-Typed : (r : Ref P) → IsTyped laws (size P r)
  size-Typed r = unfold size in search keeps_rules

  pub clear-Typed :
      (l : List (Step Field)) (o : Option Field) (i : Option ℕ) (k : Option MapKey)
      → IsTyped laws (clear P (record { loc = l; field_desc = o; arr_idx = i; map_key = k }))
  clear-Typed l none i k = unfold clear in search (keeps_rules, clear_msg-Typed)
  clear-Typed l (some f) i k = unfold clear in search (keeps_rules, clear_one-Typed)

  pub del-Typed :
      (l : List (Step Field)) (o : Option Field) (i : Option ℕ) (k : Option MapKey)
      → IsTyped laws (del P (record { loc = l; field_desc = o; arr_idx = i; map_key = k }))
  del-Typed l o none k = unfold del in search keeps_rules
  del-Typed l o (some i) k = unfold del in search (keeps_rules, remove-Typed)

  pub merge-Typed : (r : Ref P) (other : Msg) → IsTyped laws (merge P r other)
  merge-Typed r other = unfold merge in search (keeps_rules, merge_into-Typed) depth 7
