-- ===== src/Command/Append/Text.antt =====
-- append_command.cpp: what PB.APPEND adds to a text.
use redis_protobuf.Base.{
  ◌≡◌, refl, ap, ◌∙◌, false, some, none, List, [], ◌∷◌, ◌++◌, Bytes, beq_refl, length,
}
use redis_protobuf.Errors.{ok}
use redis_protobuf.Protobuf.{Protobuf, string, same_type_refl, type_name}
use redis_protobuf.FieldRef.{
  Ref, read, write, change, expect, construct, walk, advance, descend, descend_index, select,
  find_field,
}
use redis_protobuf.FieldRef.Access.{get_value, set_value}
use redis_protobuf.FieldRef.RoundTrip.{AccessLaws}
use redis_protobuf.Command.Append.{concat, append_str, append, append_at}

module _ (P : Protobuf) (f : P.Field) where
  -- The reference to the field in the root message.
  abbrev text_ref : Ref P
  text_ref = record { loc = []; field_desc = some f; arr_idx = none; map_key = none }

  append_str_lem :
      (root : P.Msg) (elements : List Bytes)
      → P.is_repeated f ≡ false
      → P.cpp_type f ≡ string
      → append_str P text_ref elements root ≡ (
        ok (length (P.get string root f ++ concat elements)),
        P.set string root f (P.get string root f ++ concat elements),
      )
  unfolding append_str get_value set_value read write change expect
  append_str_lem root elements single text =
      let e : expect P false string f ≡ ok tt = rw (single, text, same_type_refl string) refl in
      rw (e, e) refl

  append_at_lem :
      (root : P.Msg) (name : Bytes) (elements : List Bytes)
      → P.is_repeated f ≡ false
      → P.cpp_type f ≡ string
      → P.find_field_by_name (P.descriptor root) name ≡ some f
      → append_at P (record { type = type_name P root; fields = name ∷ [] }) elements root ≡ (
        ok (length (P.get string root f ++ concat elements)),
        P.set string root f (P.get string root f ++ concat elements),
      )
  unfolding append_at append construct walk advance descend descend_index select find_field read
  append_at_lem root name elements single text at =
      rw (beq_refl, at, single, text, same_type_refl string)
        (append_str_lem root elements single text)

  -- If a Get reads what a Set wrote, PB.APPEND to a text field of the root message makes the text the old
  -- one with the elements behind it in their order, and returns the length of the new text.
  pub append_at_text :
      AccessLaws P
      → (root : P.Msg) (name : Bytes) (elements : List Bytes) → P.is_repeated f ≡ false
      → P.cpp_type f ≡ string
      → P.find_field_by_name (P.descriptor root) name ≡ some f
      → ((append_at P (record { type = type_name P root; fields = name ∷ [] }) elements root).0
          ≡ ok (length (P.get string root f ++ concat elements)))
        × (P.get string
              (append_at P (record { type = type_name P root; fields = name ∷ [] }) elements root).1
              f
            ≡ P.get string root f ++ concat elements)
  append_at_text laws root name elements single text at =
      let e = append_at_lem root name elements single text at in
      (ap (λ r. r.0) e, ap (λ r. P.get string r.1 f) e ∙ laws.get-set string root f _ single text)
