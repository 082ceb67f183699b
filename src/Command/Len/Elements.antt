-- ===== src/Command/Len/Elements.antt =====
-- len_command.cpp: PB.LEN of one key of a map, and of one element of an array.
use redis_protobuf.Base.{ℕ, ◌≡◌, refl, true, false, some, [], ◌∷◌, Bytes, beq_refl}
use redis_protobuf.Errors.{ok, err, not_array_or_map}
use redis_protobuf.Protobuf.{Protobuf, CppType, type_name, MapKey}
use redis_protobuf.FieldRef.{
  map_key_type, parse_key, construct, walk, advance, descend, descend_index, select, find_field,
  parse_map_key, find_key, read, parse_index,
}
use redis_protobuf.FieldRef.Access.{size}
use redis_protobuf.Command.Len.{len_at, len_ref}

module _ (P : Protobuf) where
  -- PB.LEN of one key of a map that has this key returns the number of entries of the whole map.
  pub len_at_map_key :
      (root : P.Msg) (a b : Bytes) (f : P.Field) (kt : CppType) (k : MapKey)
      → P.find_field_by_name (P.descriptor root) a ≡ some f
      → P.is_map f ≡ true
      → P.is_repeated f ≡ true
      → map_key_type P f ≡ ok kt
      → parse_key kt b ≡ ok k
      → P.map_contains root f k ≡ true
      → len_at P (record { type = type_name P root; fields = a ∷ b ∷ [] }) root
        ≡ (ok (P.field_size root f), root)
  unfolding len_at len_ref construct walk advance descend descend_index select find_field
      parse_map_key find_key read size
  len_at_map_key root a b f kt k at m rep ek ep has = rw (beq_refl, at, m, ek, ep, has, rep, m) refl

  -- PB.LEN of an element of an array, at an index in range, is an error and nothing else, also where the
  -- element is a string or a message.
  pub len_at_element :
      (root : P.Msg) (a b : Bytes) (f : P.Field) (i : ℕ)
      → P.find_field_by_name (P.descriptor root) a ≡ some f
      → P.is_map f ≡ false
      → P.is_repeated f ≡ true
      → parse_index b (P.field_size root f) ≡ ok i
      → len_at P (record { type = type_name P root; fields = a ∷ b ∷ [] }) root
        ≡ (err not_array_or_map, root)
  unfolding len_at len_ref construct walk advance descend descend_index select find_field read size
  len_at_element root a b f i at m rep e = rw (beq_refl, at, m, rep, e, m, rep) refl
