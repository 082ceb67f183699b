-- ===== src/Command/RoundTrip.antt =====
-- PB.SET of a field, and PB.GET of this field and the others of the message that it leaves.
use redis_protobuf.Base.{◌≡◌, false, some, none, [], ◌∷◌, Bytes}
use redis_protobuf.Path.{FieldPath}
use redis_protobuf.Protobuf.{Protobuf, type_name}
use redis_protobuf.FieldRef.{Ref}
use redis_protobuf.FieldRef.Frame.{fields}
use redis_protobuf.ModuleApi.{Redis}

module _ (P : Protobuf) (R : Redis P.Msg) (root : P.Msg) (name : Bytes) (f : P.Field)
    (at : P.find_field_by_name (P.descriptor root) name ≡ some f) (single : P.is_repeated f ≡ false)
    (plain : P.is_map f ≡ false) where
  abbrev field_path : FieldPath
  field_path = record { type = type_name P root; fields = name ∷ [] }

  abbrev to_field : Ref P
  to_field = record { loc = []; field_desc = some f; arr_idx = none; map_key = none }
