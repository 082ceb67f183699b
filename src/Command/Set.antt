-- ===== src/Command/Set.antt =====
-- set_command.cpp: PB.SET key [--NX|--XX] [--EX seconds | --PX milliseconds] type [path] value
pub mod Args
pub mod Field
pub mod Atomic
pub mod Keys
use redis_protobuf.Base.{
  ℕ, ◌≡◌, Bool, true, false, Option, none, some, List, [], ◌∷◌, Bytes, beq, if◌then◌else◌, ℤ, pos,
  negsuc,
}
use redis_protobuf.Errors.{Outcome, ok, err, abort, type_mismatch, set_failed}
use redis_protobuf.Exec.{Exec, pure, throw, lift, gets, modify, ◌>>=◌, ◌>>◌}
use redis_protobuf.Path.{FieldPath, is_root}
use redis_protobuf.Protobuf.{Protobuf, type_name}
use redis_protobuf.FieldRef.{mutable_ref, construct}
use redis_protobuf.ProtoFactory.{create, create_from}
use redis_protobuf.ModuleApi.{
  Redis, World, long_long, reply, replicate_verbatim, catch_errors, write_only, open_existing,
  get_msg_by_key, on_msg,
}
use Args.{SetArgs, Opt, nx, xx, any, parse_args, is_positive}
use Field.{set_field}

abbrev pub is_nx : Opt → Bool
is_nx nx = true
is_nx _ = false

abbrev pub is_xx : Opt → Bool
is_xx xx = true
is_xx _ = false

module _ (P : Protobuf) (R : Redis P.Msg) where
  open P use {Msg}

  -- MutableFieldRef field(msg, path); _set_field(field, val);
  unfoldable pub set_at : FieldPath → Bytes → Exec Msg (Unit {0})
  set_at path val = do r ← construct P mutable_ref path; set_field P r val

  -- the message that _create_msg makes
  unfoldable pub new_msg : FieldPath → Bytes → Outcome Msg
  unfolding set_at
  new_msg path val =
      if is_root path then create_from P path.type val else elim (create P path.type) [
        | err e ↦ err e
        | abort ↦ abort
        | ok m ↦ elim (set_at path val m).0 [
          | ok u ↦ ok (set_at path val m).1
          | err e ↦ err e
          | abort ↦ abort
        ]
      ]

  -- RedisModule_ModuleTypeSetValue and the test of its result
  unfoldable pub set_value : Bytes → Msg → Exec (World R.Keys) (Unit {0})
  set_value key m w = elim (R.set_value w.keys key m) [
    | none ↦ (err set_failed, w)
    | some keys ↦ (ok tt, record w { keys = keys })
  ]

  unfoldable pub create_msg : Bytes → FieldPath → Bytes → Exec (World R.Keys) (Unit {0})
  unfolding new_msg set_value
  create_msg key path val = do m ← lift (new_msg path val); set_value key m

  -- the whole message of a key is replaced by a new one of its type
  unfoldable pub replace_msg : Bytes → FieldPath → Bytes → Msg → Exec (World R.Keys) (Unit {0})
  unfolding set_value
  replace_msg key path val msg =
      if beq (type_name P msg) path.type
      then (do m ← lift (create_from P path.type val); set_value key m)
      else throw type_mismatch

  unfoldable pub set_msg : Bytes → FieldPath → Bytes → Exec (World R.Keys) (Unit {0})
  unfolding replace_msg set_at
  set_msg key path val = do
    msg ← get_msg_by_key R key
    if is_root path then replace_msg key path val msg else on_msg R key msg (set_at path val)

  -- The key gets a time to live. When it ends the key is deleted, at a time of its own:
  -- Registry.Typed.Deleted has that as an event between the commands.
  unfoldable pub expire_key : Bytes → ℤ → Exec (World R.Keys) (Unit {0})
  expire_key key ms =
      if is_positive ms
      then modify (λ w. record w { keys = R.set_expire w.keys key ms })
      else pure tt

  -- the branch of _run on the key
  unfoldable pub run_on : SetArgs → Bool → Exec (World R.Keys) ℤ
  unfolding create_msg set_msg expire_key
  run_on args false = if is_xx args.opt then pure (pos 0) else (do
    create_msg args.key_name args.path args.val
    expire_key args.key_name args.expire
    pure (pos 1))
  run_on args true = if is_nx args.opt then pure (pos 0) else (do
    set_msg args.key_name args.path args.val
    expire_key args.key_name args.expire
    pure (pos 1))

  -- SetCommand::_run
  unfoldable pub run_set : List Bytes → Exec (World R.Keys) ℤ
  unfolding run_on
  run_set argv = do
    args ← lift (parse_args argv)
    exists ← open_existing R write_only args.key_name
    run_on args exists

  -- SetCommand::run
  unfoldable pub run : List Bytes → Exec (World R.Keys) (Unit {0})
  unfolding run_set
  run argv = catch_errors (do n ← run_set argv; reply (long_long n); replicate_verbatim)
