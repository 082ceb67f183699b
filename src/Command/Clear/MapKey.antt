-- ===== src/Command/Clear/MapKey.antt =====
-- PB.CLEAR of one key of a map.
use redis_protobuf.Base.{◌≡◌, refl, true, some, [], ◌∷◌, Bytes, beq_refl}
use redis_protobuf.Errors.{ok}
use redis_protobuf.Protobuf.{Protobuf, CppType, type_name, MapKey}
use redis_protobuf.FieldRef.{
  map_key_type, parse_key, construct, walk, advance, descend, descend_index, select, find_field,
  parse_map_key, find_key, read, write, change,
}
use redis_protobuf.FieldRef.Access.{clear}
use redis_protobuf.Command.Clear.{clear_at}

module _ (P : Protobuf) where
  -- PB.CLEAR of one key of a map clears the whole map, whether the key is in it or not.
  pub clear_at_map_key :
      (root : P.Msg) (a b : Bytes) (f : P.Field) (kt : CppType) (k : MapKey)
      → P.find_field_by_name (P.descriptor root) a ≡ some f
      → P.is_map f ≡ true
      → map_key_type P f ≡ ok kt
      → parse_key kt b ≡ ok k
      → clear_at P (record { type = type_name P root; fields = a ∷ b ∷ [] }) root
        ≡ (ok tt, P.clear_field root f)
  unfolding clear_at construct walk advance descend descend_index select find_field parse_map_key
      find_key read write change clear
  clear_at_map_key root a b f kt k at m ek ep = rw (beq_refl, at, m, ek, ep) refl
