-- ===== src/Sample/Serial.antt =====
-- The sample instance meets what is assumed of map fields and of serialization.
use redis_protobuf.Base.{
  ◌≡◌, refl, sym, ap, suc, true, List, [], ◌∷◌, Bytes, length, map, codes, some, arith, ℤ,
}
use redis_protobuf.Protobuf.{string_key}
use redis_protobuf.Command.Get.Complete.{IsSized}
use redis_protobuf.FieldRef.{read}
use redis_protobuf.Persistence.Rdb.{SerialLaws}
use redis_protobuf.Sample.{Node, node, NodeField, table, mapped, absent, nil, sample}

length-map : (m : List (Bytes × ℤ)) → length m ≡ length (map (λ e. string_key e.0) m)
length-map [] = refl
length-map (e ∷ m) = ap suc (length-map m)

size_lem :
    (m : Node) (f : NodeField)
    → mapped f ≡ true
    → sample.field_size m f ≡ length (sample.map_keys m f)
size_lem (node w s xs ws c ks m) table e = length-map m
size_lem m _ e = ground arith

pub node-IsSized : (n : Node) → IsSized sample n
node-IsSized n l f e = size_lem (read sample l n) f e

-- A message that its text determines.
abbrev pub plain_node : Node
plain_node = node 0 (codes "hi") [] [] absent nil []

pub plain-SerialLaws : SerialLaws sample plain_node
plain-SerialLaws = record { find-descriptor = refl; parse-serialize = λ s e. parsed s e }
  where
    parsed :
        (s : Bytes)
        → some (codes "hi") ≡ some s
        → some (node 0 s [] [] absent nil []) ≡ some plain_node
    parsed s e =
        let d : codes "hi" ≡ s = cc e in ap (λ t. some (node 0 t [] [] absent nil [])) (sym d)
