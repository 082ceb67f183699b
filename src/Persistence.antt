-- ===== src/Persistence.antt =====
-- redis_protobuf.cpp: how a message is saved and loaded. The strings that SaveStringBuffer and EmitAOF
-- are given are the result; what LoadStringBuffer still has to give is the state, and at its end it
-- gives null. A warning in the log is the error that it tells of.
pub mod Rdb
pub mod Aof
use redis_protobuf.Base.{
  ℕ, ◌≡◌, refl, Bool, true, false, Option, Option-cases, inl, inr, none, some, List, [], ◌∷◌, Bytes,
  codes, ◌==◌, if◌then◌else◌,
}
use redis_protobuf.Errors.{
  Outcome, ok, err, abort, bad_encoding, load_string_failed, serialize_failed, null_value, null_key,
  unknown_type, binary_failed,
}
use redis_protobuf.Errors
use redis_protobuf.Exec.{Exec, pure, throw, lift, ◌>>=◌, ◌>>◌}
use redis_protobuf.Protobuf.{Protobuf, type_name}
use redis_protobuf.ProtoFactory.{create}

-- _ENCODING_VERSION
abbrev pub encoding_version : ℕ
encoding_version = 0

-- rdb_load_string
unfoldable pub rdb_load_string : Exec (List Bytes) Bytes
rdb_load_string [] = (err load_string_failed, [])
rdb_load_string (s ∷ rdb) = (ok s, rdb)

-- rdb_load_value
unfoldable pub rdb_load_value : Exec (List Bytes) (Bytes × Bytes)
unfolding rdb_load_string
rdb_load_value = do type ← rdb_load_string; data' ← rdb_load_string; pure (type, data')

module _ (P : Protobuf) where
  open P use {Msg, serialize, parse_from_array}

  -- serialize_message; a null pointer is `none`
  unfoldable pub serialize_message : Option Msg → Outcome (Bytes × Bytes)
  serialize_message none = err null_value
  serialize_message (some msg) = elim (serialize msg) [
    | none ↦ err serialize_failed
    | some buf ↦ ok (type_name P msg, buf)
  ]

  -- ParseFromArray into the new message
  unfoldable pub parsed : Bytes → Bytes → Msg → Outcome Msg
  parsed type s msg = elim (parse_from_array msg s) [
    | none ↦ err (binary_failed type)
    | some m ↦ ok m
  ]

  -- RedisProtobuf::_rdb_load
  unfoldable pub rdb_load : ℕ → Exec (List Bytes) Msg
  unfolding rdb_load_value parsed
  rdb_load encver =
      if encver == encoding_version
      then (do v ← rdb_load_value; msg ← lift (create P v.0); lift (parsed v.0 v.1 msg))
      else throw (bad_encoding encver)

  -- RedisProtobuf::_rdb_save: the strings saved
  unfoldable pub rdb_save : Option Msg → Outcome (List Bytes)
  unfolding serialize_message
  rdb_save value = Errors.map_ok (λ v. v.0 ∷ v.1 ∷ []) (serialize_message value)

  -- RedisProtobuf::_aof_rewrite: the command emitted
  unfoldable pub aof_rewrite : Option Bytes → Option Msg → Outcome (List Bytes)
  unfolding serialize_message
  aof_rewrite none value = err null_key
  aof_rewrite (some key) value =
      Errors.map_ok (λ v. codes "PB.SET" ∷ key ∷ v.0 ∷ v.1 ∷ []) (serialize_message value)

  -- What is saved of a message.
  pub rdb_save-ok :
      (msg : Msg) {saved : List Bytes}
      → rdb_save (some msg) ≡ ok saved
      → (s : Bytes) × (serialize msg ≡ some s) × (saved ≡ type_name P msg ∷ s ∷ [])
  unfolding rdb_save serialize_message
  rdb_save-ok msg h = elim (Option-cases (serialize msg)) [
    | inl e ↦ cc (rw (serialize_message, e) at h)
    | inr (s, e) ↦ (s, e, cc (rw (serialize_message, e) at h))
  ]

  -- What is emitted for a message.
  pub aof_rewrite-ok :
      (key : Bytes) (msg : Msg) {command : List Bytes}
      → aof_rewrite (some key) (some msg) ≡ ok command
      → (s : Bytes) × (serialize msg ≡ some s)
        × (command ≡ codes "PB.SET" ∷ key ∷ type_name P msg ∷ s ∷ [])
  unfolding aof_rewrite serialize_message
  aof_rewrite-ok key msg h = elim (Option-cases (serialize msg)) [
    | inl e ↦ cc (rw (serialize_message, e) at h)
    | inr (s, e) ↦ (s, e, cc (rw (serialize_message, e) at h))
  ]
