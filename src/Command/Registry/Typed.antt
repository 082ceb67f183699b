-- ===== src/Command/Registry/Typed.antt =====
-- commands.cpp: what a command does to the type of a message, at its key and in the message.
pub mod Stable
pub mod Deleted
use redis_protobuf.Base.{
  ◌≡◌, refl, sym, ap, ◌∙◌, Bool, true, false, Bool-cases, inl, inr, Option, none, some,
  Option-cases, List, [], ◌∷◌, Bytes, ℕ, beq, beq→eq, arith, if◌then◌else◌,
}
use redis_protobuf.Errors.{Outcome, ok, err, abort, >>=-ok}
use redis_protobuf.Exec.{Exec, modify}
use redis_protobuf.Exec.Keeps.{Keeps, Keeps-bind, Keeps-if, keeps_rules}
use redis_protobuf.Path.{FieldPath, is_root}
use redis_protobuf.Protobuf.{Protobuf, CppType, type_name}
use redis_protobuf.ProtoFactory.{create, create_from, parse_into, is_json}
use redis_protobuf.ModuleApi.{Redis}
use redis_protobuf.FieldRef.{Ref, mutable_ref}
use redis_protobuf.FieldRef.Access as Access
use redis_protobuf.FieldRef.Typed.{TypeLaws, IsTyped, construct-Typed}
use redis_protobuf.FieldRef.Typed.Writes.{
  get_value-Typed, set_value-Typed, get_repeated_value-Typed, set_repeated_value-Typed,
  add_value-Typed, set_mapped_value-Typed, size-Typed, clear-Typed, del-Typed, merge-Typed,
}
use redis_protobuf.Command.Set
use redis_protobuf.Command.Set.Field as SetField
use redis_protobuf.Command.Append
use redis_protobuf.Command.Del
use redis_protobuf.Command.Clear
use redis_protobuf.Command.Merge

module _ {P : Protobuf} (laws : TypeLaws P) where
  -- A message that the factory makes has the type that was asked for.
  type_name-create : (type : Bytes) {m : P.Msg} → create P type ≡ ok m → type_name P m ≡ type
  unfolding create
  type_name-create type {m} h = elim (Option-cases (P.find_message_type type)) [
    | inl e ↦ cc (rw (create, e) at h)
    | inr (d, e) ↦
        let p : P.new_message d ≡ m = cc (rw (create, e) at h) in
        ap (type_name P) (sym p) ∙ laws.type_name-new type e
  ]

  type_name-parse :
      (type sv : Bytes) (m : P.Msg) {m' : P.Msg}
      → parse_into P type sv m ≡ ok m'
      → type_name P m' ≡ type_name P m
  unfolding parse_into
  type_name-parse type sv m {m'} h = elim (Bool-cases (is_json sv)) [
    | inl b ↦ elim (Option-cases (P.from_json m sv)) [
      | inl e ↦ cc (rw (parse_into, b, e) at h)
      | inr (n, e) ↦
          ap P.full_name
            (laws.descriptor-from_json m sv (e ∙ ap some (same n (rw (parse_into, b, e) at h))))
    ]
    | inr b ↦ elim (Option-cases (P.parse_from_array m sv)) [
      | inl e ↦ cc (rw (parse_into, b, e) at h)
      | inr (n, e) ↦
          ap P.full_name
            (laws.descriptor-parse m sv (e ∙ ap some (same n (rw (parse_into, b, e) at h))))
    ]
  ]
    where
      same : (n : P.Msg) → ok n ≡ ok m' → n ≡ m'
      same n k = cc k

  pub type_name-create_from :
      (type sv : Bytes) {m : P.Msg} → create_from P type sv ≡ ok m → type_name P m ≡ type
  unfolding create_from
  type_name-create_from type sv h =
      let (n, e, k) = >>=-ok (create P type) (parse_into P type sv) h in
      type_name-parse type sv n k ∙ type_name-create type e

  -- The changes of a message keep its type.
  scalar-Typed : (r : Ref P) (val : Bytes) → IsTyped laws (SetField.set_scalar_field P r val)
  scalar-Typed r val =
      unfold SetField.set_scalar_field in search (keeps_rules, set_value-Typed laws)

  map_element-Typed : (r : Ref P) (val : Bytes) → IsTyped laws (SetField.set_map_element P r val)
  map_element-Typed r val =
      unfold SetField.set_map_element in search (keeps_rules, set_mapped_value-Typed laws) depth 7

  array_element-Typed :
      (r : Ref P) (val : Bytes) → IsTyped laws (SetField.set_array_element P r val)
  array_element-Typed r val =
      unfold SetField.set_array_element in search (keeps_rules, set_repeated_value-Typed laws)

  set_field-Typed : (r : Ref P) (val : Bytes) → IsTyped laws (SetField.set_field P r val)
  set_field-Typed r val =
      unfold SetField.set_field in
      search (keeps_rules, scalar-Typed, map_element-Typed, array_element-Typed) depth 7

  pub set_at-Typed :
      (R : Redis P.Msg) (path : FieldPath) (val : Bytes) → IsTyped laws (Set.set_at P R path val)
  set_at-Typed R path val =
      unfold Set.set_at in search (keeps_rules, construct-Typed laws, set_field-Typed)

  append_arr-Typed : (r : Ref P) (val : Bytes) → IsTyped laws (Append.append_arr P r val)
  append_arr-Typed r val = unfold Append.append_arr in search (keeps_rules, add_value-Typed laws)

  append_all-Typed :
      (r : Ref P) (elements : List Bytes) → IsTyped laws (Append.append_all P r elements)
  unfolding Append.append_all
  append_all-Typed r [] = search keeps_rules
  append_all-Typed r (a ∷ rest) =
      Keeps-bind (Append.append_arr P r a) (λ _. Append.append_all P r rest) (append_arr-Typed r a)
        (λ _. append_all-Typed r rest)

  append_str-Typed :
      (r : Ref P) (elements : List Bytes) → IsTyped laws (Append.append_str P r elements)
  append_str-Typed r elements =
      unfold Append.append_str in
      search
        (
          keeps_rules,
          get_value-Typed laws,
          set_value-Typed laws,
          get_repeated_value-Typed laws,
          set_repeated_value-Typed laws,
        )
        depth 7

  append_other-Typed :
      (r : Ref P) (elements : List Bytes) (t : CppType)
      → IsTyped laws (Append.append_other P r elements t)
  append_other-Typed r elements t =
      unfold Append.append_other in search (keeps_rules, append_str-Typed)

  append-Typed : (r : Ref P) (elements : List Bytes) → IsTyped laws (Append.append P r elements)
  append-Typed r elements =
      unfold Append.append in
      search (keeps_rules, append_all-Typed, append_other-Typed, size-Typed laws)

  pub append_at-Typed :
      (path : FieldPath) (elements : List Bytes) → IsTyped laws (Append.append_at P path elements)
  append_at-Typed path elements =
      unfold Append.append_at in search (keeps_rules, construct-Typed laws, append-Typed)

  del_one-Typed : (r : Ref P) → IsTyped laws (Access.del P r)
  del_one-Typed r = del-Typed laws r.loc r.field_desc r.arr_idx r.map_key

  del_ref-Typed : (r : Ref P) → IsTyped laws (Del.del_ref P r)
  del_ref-Typed r = unfold Del.del_ref in search (keeps_rules, del_one-Typed)

  pub del_at-Typed : (path : FieldPath) → IsTyped laws (Del.del_at P path)
  del_at-Typed path = unfold Del.del_at in search (keeps_rules, construct-Typed laws, del_ref-Typed)

  clear_ref-Typed : (r : Ref P) → IsTyped laws (Access.clear P r)
  clear_ref-Typed r = clear-Typed laws r.loc r.field_desc r.arr_idx r.map_key

  clear_all-Typed : IsTyped laws (modify P.clear)
  clear_all-Typed = record { at = laws.descriptor-clear }

  pub clear_at-Typed : (path : FieldPath) → IsTyped laws (Clear.clear_at P path)
  clear_at-Typed path =
      unfold Clear.clear_at in
      search (keeps_rules, construct-Typed laws, clear_ref-Typed, clear_all-Typed)

  merge_all-Typed : (other : P.Msg) → IsTyped laws (modify (λ m. P.merge_from m other))
  merge_all-Typed other = record { at = λ m. laws.descriptor-merge m other }

  merge_msg-Typed : (type val : Bytes) → IsTyped laws (Merge.merge_msg P type val)
  unfolding Merge.merge_msg
  merge_msg-Typed type val = record { at = λ m. go m (beq type (type_name P m)) }
    where
      merged : IsTyped laws (
          redis_protobuf.Exec.◌>>=◌
            (redis_protobuf.Exec.lift (create_from P type val))
            (λ other. modify (λ m. P.merge_from m other)))
      merged = search (keeps_rules, merge_all-Typed)

      go :
          (m : P.Msg) (b : Bool)
          → P.descriptor
              ((if b
                then redis_protobuf.Exec.◌>>=◌
                    (redis_protobuf.Exec.lift (create_from P type val))
                    (λ other. modify (λ n. P.merge_from n other))
                    m
                else redis_protobuf.Exec.throw redis_protobuf.Errors.type_mismatch m)).1
            ≡ P.descriptor m
      go m true = merged.at m
      go m false = refl

  merge_sub-Typed : (path : FieldPath) (val : Bytes) → IsTyped laws (Merge.merge_sub_msg P path val)
  merge_sub-Typed path val =
      unfold Merge.merge_sub_msg in
      search (keeps_rules, construct-Typed laws, merge-Typed laws) depth 7

  pub merge_at-Typed : (path : FieldPath) (val : Bytes) → IsTyped laws (Merge.merge_at P path val)
  merge_at-Typed path val =
      unfold Merge.merge_at in search (keeps_rules, merge_msg-Typed, merge_sub-Typed)
