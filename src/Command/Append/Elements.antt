-- ===== src/Command/Append/Elements.antt =====
-- What PB.APPEND of append_command.cpp adds to a repeated field.
use redis_protobuf.Base.{
  ◌+◌, ◌≡◌, refl, ap, ◌∙◌, true, false, some, none, List, [], ◌∷◌, Bytes, beq_refl, length, arith,
}
use redis_protobuf.Errors.{Outcome, ok, ◌>>=◌, map_ok, >>=-ok, map_ok-ok}
use redis_protobuf.Protobuf.{Protobuf, same_type_refl, type_name, ValueOf}
use redis_protobuf.FieldRef.{
  Ref, read, write, change, expect, construct, walk, advance, descend, descend_index, select,
  find_field,
}
use redis_protobuf.FieldRef.Access.{msg_type, add_value, size}
use redis_protobuf.Command.Convert.{convert}
use redis_protobuf.Command.Append.{append_arr, append_all, append, append_at}

module _ (P : Protobuf) (f : P.Field) where
  abbrev Added : Type 0
  Added = ValueOf P (P.cpp_type f)

  -- The reference to the field in the root message.
  abbrev field_ref : Ref P
  field_ref = record { loc = []; field_desc = some f; arr_idx = none; map_key = none }

  -- The values that the arguments spell, the first error if one spells none.
  abbrev pub convert_all : List Bytes → Outcome (List Added)
  convert_all [] = ok []
  convert_all (a ∷ rest) = convert P (P.cpp_type f) (msg_type P field_ref) a >>= λ v.
      map_ok (λ vs. v ∷ vs) (convert_all rest)

  -- The message with the values added in order.
  abbrev pub add_all : P.Msg → List Added → P.Msg
  add_all m [] = m
  add_all m (v ∷ vs) = add_all (P.add (P.cpp_type f) m f v) vs

  module _ (repeated : P.is_repeated f ≡ true) where
    append_arr_lem :
        (a : Bytes) (m : P.Msg) (v : Added)
        → convert P (P.cpp_type f) (msg_type P field_ref) a ≡ ok v
        → append_arr P field_ref a m ≡ (ok tt, P.add (P.cpp_type f) m f v)
    unfolding append_arr add_value expect read write change
    append_arr_lem a m v h = rw (h, repeated, same_type_refl (P.cpp_type f)) refl

    append_all_lem :
        (elements : List Bytes) (m : P.Msg) (vs : List Added)
        → convert_all elements ≡ ok vs
        → append_all P field_ref elements m ≡ (ok tt, add_all m vs)
    unfolding append_all
    append_all_lem [] m vs h = let e : [] ≡ vs = cc h in ap (λ us. (ok tt, add_all m us)) e
    append_all_lem (a ∷ rest) m vs h =
        let (v, e, k) = >>=-ok _ _ h in
        let (us, d, i) = map_ok-ok _ _ k in
        rw (append_arr_lem a m v e) (
          append_all_lem rest (P.add (P.cpp_type f) m f v) us d
          ∙ ap (λ us. (ok tt, add_all m us)) i)

    size-add_all :
        ((m : P.Msg) (v : Added)
          → P.field_size (P.add (P.cpp_type f) m f v) f ≡ P.field_size m f + 1)
        → (m : P.Msg) (vs : List Added)
        → P.field_size (add_all m vs) f ≡ P.field_size m f + length vs
    size-add_all law m [] = omega arith
    size-add_all law m (v ∷ vs) =
        omega (arith, law m v, size-add_all law (P.add (P.cpp_type f) m f v) vs)

    -- PB.APPEND to a repeated field of the root message that is no map, with elements that all spell
    -- values of the field's type, adds these values in their order, and returns the size that the field
    -- then has: the old one and the number of values. (An add makes a field one element longer.)
    pub append_at-add_all :
        (root : P.Msg) (name : Bytes) (elements : List Bytes) (vs : List Added)
        → ((m : P.Msg) (v : Added)
            → P.field_size (P.add (P.cpp_type f) m f v) f ≡ P.field_size m f + 1)
        → P.is_map f ≡ false
        → P.find_field_by_name (P.descriptor root) name ≡ some f
        → convert_all elements ≡ ok vs
        → append_at P (record { type = type_name P root; fields = name ∷ [] }) elements root
          ≡ (ok (P.field_size root f + length vs), add_all root vs)
    unfolding append_at append construct walk advance descend descend_index select find_field read
        size
    append_at-add_all root name elements vs law n at h =
        rw (beq_refl, at, n, repeated, append_all_lem elements root vs h, size-add_all law root vs)
          refl
