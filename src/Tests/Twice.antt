-- ===== src/Tests/Twice.antt =====
-- A message of the sample whose map field was given one key twice.
use redis_protobuf.Base.{
  ◌≡◌, refl, Bool, true, some, false, List, [], ◌∷◌, Bytes, codes, beq, if◌then◌else◌, pos, ℤ,
}
use redis_protobuf.Errors.{ok}
use redis_protobuf.Protobuf.{Protobuf, MapKey, string_key}
use redis_protobuf.FieldRef.{read, map_value_type}
use redis_protobuf.FieldRef.Access.{size}
use redis_protobuf.Command.Answers.{owed}
use redis_protobuf.Command.Get.Args.{unset}
use redis_protobuf.Command.Get.Field as GetField
use redis_protobuf.Command.Get.Field.{get_field}
use redis_protobuf.Command.Get.Short.{whole, get_field-owes}
use redis_protobuf.Sample.{Node, NodeField, node, table, absent, nil, sample}

abbrev has : Bytes → List (Bytes × ℤ) → Bool
has k [] = false
has k ((j, v) ∷ m) = if beq j k then true else has k m

-- the keys that an iteration over the map meets
abbrev keys_once : List (Bytes × ℤ) → List MapKey
keys_once [] = []
keys_once ((k, v) ∷ m) = if has k m then keys_once m else string_key k ∷ keys_once m

abbrev once : Node → NodeField → List MapKey
once (node w s xs ws c ks m) table = keys_once m
once n f = []

abbrev twice_sample : Protobuf
twice_sample = record sample { map_keys = once }

abbrev twice : Node
twice = node 0 [] [] [] absent nil ((codes "k", pos 1) ∷ (codes "k", pos 2) ∷ [])

twice-ok : (get_field twice_sample unset twice (whole twice_sample [] table) []).0 ≡ ok tt
unfolding get_field GetField.get_field_with GetField.get_map GetField.reply_entries
    GetField.get_map_kv GetField.or_error_reply GetField.reply_value size read map_value_type
twice-ok = refl

-- Two entries are announced and one is sent.
get_field-owes_example :
    owed 1 (get_field twice_sample unset twice (whole twice_sample [] table) []).1 ≡ some 1
get_field-owes_example =
    get_field-owes twice_sample unset twice [] table 1 refl (unfold read in refl) twice-ok
