-- ===== src/FieldRef/Typed.antt =====
-- Making a reference does not change the type of the root message.
pub mod Writes
use redis_protobuf.Base.{
  ◌≡◌, refl, ap, ◌∙◌, Bool, true, false, Option, none, some, List, [], ◌∷◌, Bytes, ℕ, zero, suc,
  ◌+◌, arith,
}
use redis_protobuf.Exec.{Exec, gets, modify}
use redis_protobuf.Exec.Keeps.{Keeps, keeps_rules, Keeps-bind, Keeps-lift, Keeps-pure}
use redis_protobuf.Path.{FieldPath}
use redis_protobuf.Protobuf.{Protobuf, MapKey, CppType, ValueOf, type_name}
use redis_protobuf.FieldRef.{
  Mode, const_ref, mutable_ref, Ref, Step, sub, elem, entry, read, write, change, find_field, found,
  find_key, parse_map_key, get_sub_msg, get_sub_repeated_msg, get_map_msg, lookup_key, descend,
  descend_index, select, advance, walk, construct,
}
use redis_protobuf.FieldRef.Access.{
  get_value, set_value, get_repeated_value, set_repeated_value, add_value, set_mapped_value, size,
  clear, bubble, del_array_element, del, merge,
}

-- What protobuf documents of a message's descriptor: it is that of the type, whatever is written to the
-- message, and the pool gives a type under its name.
pub record TypeLaws (P : Protobuf) : Type 0 where
  pub descriptor-set :
      (t : CppType) (m : P.Msg) (f : P.Field) (v : ValueOf P t)
      → P.descriptor (P.set t m f v) ≡ P.descriptor m
  pub descriptor-set_repeated :
      (t : CppType) (m : P.Msg) (f : P.Field) (i : ℕ) (v : ValueOf P t)
      → P.descriptor (P.set_repeated t m f i v) ≡ P.descriptor m
  pub descriptor-add :
      (t : CppType) (m : P.Msg) (f : P.Field) (v : ValueOf P t)
      → P.descriptor (P.add t m f v) ≡ P.descriptor m
  pub descriptor-swap :
      (m : P.Msg) (f : P.Field) (i k : ℕ) → P.descriptor (P.swap_elements m f i k) ≡ P.descriptor m
  pub descriptor-remove_last :
      (m : P.Msg) (f : P.Field) → P.descriptor (P.remove_last m f) ≡ P.descriptor m
  pub descriptor-map_set :
      (t : CppType) (m : P.Msg) (f : P.Field) (k : MapKey) (v : ValueOf P t)
      → P.descriptor (P.map_set t m f k v) ≡ P.descriptor m
  pub descriptor-insert :
      (m : P.Msg) (f : P.Field) (k : MapKey)
      → P.descriptor (P.insert_or_lookup m f k) ≡ P.descriptor m
  pub descriptor-clear_field :
      (m : P.Msg) (f : P.Field) → P.descriptor (P.clear_field m f) ≡ P.descriptor m
  pub descriptor-clear : (m : P.Msg) → P.descriptor (P.clear m) ≡ P.descriptor m
  pub descriptor-merge : (m other : P.Msg) → P.descriptor (P.merge_from m other) ≡ P.descriptor m
  pub descriptor-parse :
      (m : P.Msg) (s : Bytes) {m' : P.Msg}
      → P.parse_from_array m s ≡ some m'
      → P.descriptor m' ≡ P.descriptor m
  pub descriptor-from_json :
      (m : P.Msg) (s : Bytes) {m' : P.Msg}
      → P.from_json m s ≡ some m'
      → P.descriptor m' ≡ P.descriptor m
  pub type_name-new :
      (type : Bytes) {d : P.Descriptor}
      → P.find_message_type type ≡ some d
      → type_name P (P.new_message d) ≡ type

module _ {P : Protobuf} (laws : TypeLaws P) where
  open P use {Msg, Field}

  -- The code keeps the type of the root message, whether it returns or throws.
  abbrev pub IsTyped : {A : Type 0} → Exec Msg A → Type 0
  IsTyped m = Keeps P.descriptor m

  descriptor-write :
      (l : List (Step Field)) (root m : Msg)
      → P.descriptor m ≡ P.descriptor (read P l root)
      → P.descriptor (write P l root m) ≡ P.descriptor root
  unfolding read write
  descriptor-write [] root m h = h
  descriptor-write (sub f ∷ l) root m h =
      descriptor-write l root _ (laws.descriptor-set CppType.message (read P l root) f m)
  descriptor-write (elem f i ∷ l) root m h =
      descriptor-write l root _ (laws.descriptor-set_repeated CppType.message (read P l root) f i m)
  descriptor-write (entry f k ∷ l) root m h =
      descriptor-write l root _ (laws.descriptor-map_set CppType.message (read P l root) f k m)

  change-Typed :
      (l : List (Step Field)) (g : Msg → Msg)
      → ((m : Msg) → P.descriptor (g m) ≡ P.descriptor m)
      → IsTyped (modify (change P l g))
  unfolding change
  change-Typed l g h = record { at = λ root. descriptor-write l root _ (h (read P l root)) }

  -- The constructor, in both instances.
  found-Typed :
      (name : Bytes) (r : Ref P) (l : List (Step Field)) (o : Option Field)
      → IsTyped (found P name r l o)
  found-Typed name r l none = search keeps_rules
  found-Typed name r l (some f) = search keeps_rules

  find_field-Typed :
      (name : Bytes) (r : Ref P) (l : List (Step Field)) → IsTyped (find_field P name r l)
  unfolding find_field
  find_field-Typed name r l = search (keeps_rules, found-Typed)

  find_key-Typed :
      (mode : Mode) (l : List (Step Field)) (f : Field) (name : Bytes) (k : MapKey)
      → IsTyped (find_key P mode l f name k)
  unfolding find_key
  find_key-Typed const_ref l f name k = search keeps_rules
  find_key-Typed mutable_ref l f name k = search keeps_rules

  parse_map_key-Typed :
      (mode : Mode) (l : List (Step Field)) (f : Field) (name : Bytes)
      → IsTyped (parse_map_key P mode l f name)
  parse_map_key-Typed mode l f name = unfold parse_map_key in search (keeps_rules, find_key-Typed)

  -- the message becomes present
  present-Typed :
      (l : List (Step Field)) (f : Field)
      → IsTyped (modify (change P l (λ m. P.set CppType.message m f (P.get CppType.message m f))))
  present-Typed l f =
      change-Typed l (λ m. P.set CppType.message m f (P.get CppType.message m f))
        (λ m. laws.descriptor-set CppType.message m f (P.get CppType.message m f))

  get_sub_msg-Typed :
      (mode : Mode) (l : List (Step Field)) (f : Field) → IsTyped (get_sub_msg P mode l f)
  unfolding get_sub_msg
  get_sub_msg-Typed const_ref l f = search keeps_rules
  get_sub_msg-Typed mutable_ref l f = search (keeps_rules, present-Typed)

  lookup_key-Typed :
      (mode : Mode) (l : List (Step Field)) (f : Field) (k : MapKey)
      → IsTyped (lookup_key P mode l f k)
  unfolding lookup_key
  lookup_key-Typed const_ref l f k = search keeps_rules
  lookup_key-Typed mutable_ref l f k =
      change-Typed l (λ m. P.insert_or_lookup m f k) (λ m. laws.descriptor-insert m f k)

  get_map_msg-Typed :
      (mode : Mode) (l : List (Step Field)) (f : Field) (k : MapKey)
      → IsTyped (get_map_msg P mode l f k)
  get_map_msg-Typed mode l f k = unfold get_map_msg in search (keeps_rules, lookup_key-Typed)

  descend_index-Typed :
      (mode : Mode) (r : Ref P) (i : Option ℕ) → IsTyped (descend_index P mode r i)
  unfolding descend_index
  descend_index-Typed mode r none = search keeps_rules
  descend_index-Typed mode r (some i) = search keeps_rules

  descend-Typed : (mode : Mode) (r : Ref P) (k : Option MapKey) → IsTyped (descend P mode r k)
  descend-Typed mode r none = unfold descend in search (keeps_rules, descend_index-Typed)
  descend-Typed mode r (some k) = unfold descend in search (keeps_rules, get_map_msg-Typed)

  select-Typed :
      (mode : Mode) (r : Ref P) (name : Bytes) (o : Option Field) → IsTyped (select P mode r name o)
  select-Typed mode r name none = unfold select in search (keeps_rules, find_field-Typed)
  select-Typed mode r name (some f) =
      unfold select in
      search (keeps_rules, find_field-Typed, parse_map_key-Typed, get_sub_msg-Typed) depth 8

  advance-Typed : (mode : Mode) (r : Ref P) (name : Bytes) → IsTyped (advance P mode r name)
  advance-Typed mode r name = unfold advance in search (keeps_rules, descend-Typed, select-Typed)

  walk-Typed : (mode : Mode) (r : Ref P) (names : List Bytes) → IsTyped (walk P mode r names)
  unfolding walk
  walk-Typed mode r [] = search keeps_rules
  walk-Typed mode r (name ∷ names) =
      Keeps-bind (advance P mode r name) (λ r'. walk P mode r' names) (advance-Typed mode r name)
        (λ r'. walk-Typed mode r' names)

  pub construct-Typed : (mode : Mode) (path : FieldPath) → IsTyped (construct P mode path)
  construct-Typed mode path = unfold construct in search (keeps_rules, walk-Typed)
