-- ===== src/Persistence/Rdb.antt =====
-- A message that is saved to an RDB file and loaded from it.
use redis_protobuf.Base.{◌≡◌, refl, some, List, ◌++◌, Bytes}
use redis_protobuf.Errors.{ok}
use redis_protobuf.Protobuf.{Protobuf, type_name}
use redis_protobuf.ProtoFactory.{create}
use redis_protobuf.Persistence.{
  encoding_version, rdb_save, rdb_load, rdb_load_value, rdb_load_string, rdb_save-ok, parsed,
}

-- What protobuf documents of one message: its type is in the pool by its full name, and a new message
-- of the type parses what the message serializes to.
pub record SerialLaws (P : Protobuf) (m : P.Msg) : Type 0 where
  pub find-descriptor : P.find_message_type (type_name P m) ≡ some (P.descriptor m)
  pub parse-serialize :
      (s : Bytes)
      → P.serialize m ≡ some s
      → P.parse_from_array (P.new_message (P.descriptor m)) s ≡ some m

module _ (P : Protobuf) where
  -- What rdb_save writes for a message, rdb_load reads back as the same message, and it leaves what
  -- stands behind it in the file. The message's type is in the pool, and a new message of the type
  -- parses what the message serializes to.
  pub rdb_load-rdb_save :
      (m : P.Msg) (saved rest : List Bytes)
      → SerialLaws P m
      → rdb_save P (some m) ≡ ok saved
      → rdb_load P encoding_version (saved ++ rest) ≡ (ok m, rest)
  unfolding rdb_load rdb_load_value rdb_load_string create parsed
  rdb_load-rdb_save m saved rest laws h =
      let (s, e, k) = rdb_save-ok P m h in
      rw (k, create, laws.find-descriptor, parsed, laws.parse-serialize s e) refl
