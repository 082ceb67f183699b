-- ===== src/Persistence/Aof.antt =====
-- The command that a rewrite of the append-only file emits, run again.
use redis_protobuf.Base.{codes, ◌≡◌, refl, false, some, List, Bytes}
use redis_protobuf.Errors.{ok}
use redis_protobuf.Protobuf.{Protobuf, type_name}
use redis_protobuf.ProtoFactory.{create, create_from, parse_into, is_json}
use redis_protobuf.ModuleApi.{Redis, World, missing, open_existing, catch_errors}
use redis_protobuf.Command.Set.Args.{parse_args, parse_opts, parse_rest}
use redis_protobuf.Command.Set.{run, run_set, run_on, create_msg, new_msg, set_value, expire_key}
use redis_protobuf.Utils.{str_case_equal}
use redis_protobuf.Persistence.{aof_rewrite, aof_rewrite-ok}
use redis_protobuf.Persistence.Rdb.{SerialLaws}

-- no text of an option
abbrev pub IsNoOption : Bytes → Type 0
IsNoOption s =
    (str_case_equal s (codes "--NX") ≡ false)
    × (str_case_equal s (codes "--XX") ≡ false)
    × (str_case_equal s (codes "--EX") ≡ false)
    × (str_case_equal s (codes "--PX") ≡ false)

module _ (P : Protobuf) (R : Redis P.Msg) where
  -- The command that a rewrite emits for a key, run where the key is missing, stores the same
  -- message under the key, if Redis takes it, the name of the type is no option of PB.SET and the
  -- serialized message does not look like JSON. The message's type is in the pool, and a new message
  -- of the type parses what the message serializes to.
  pub run-aof_rewrite :
      (key : Bytes) (m : P.Msg) (command : List Bytes) (w : World R.Keys) (keys : R.Keys)
      → SerialLaws P m
      → IsNoOption (type_name P m)
      → ((s : Bytes) → P.serialize m ≡ some s → is_json s ≡ false)
      → aof_rewrite P (some key) (some m) ≡ ok command
      → R.key_kind w.keys key ≡ missing
      → R.set_value w.keys key m ≡ some keys
      → (run P R command w).1.keys ≡ keys
  unfolding parse_args parse_opts parse_rest catch_errors create create_from parse_into run run_set
      run_on open_existing create_msg new_msg set_value expire_key
  run-aof_rewrite key m command w keys laws (a, b, c, d) text h k e =
      let (s, p, q) = aof_rewrite-ok P key m h in
      rw
        (
          q,
          a,
          b,
          c,
          d,
          k,
          create_msg,
          create_from,
          create,
          laws.find-descriptor,
          parse_into,
          text s p,
          laws.parse-serialize s p,
          set_value,
          e,
        )
        refl
