-- ===== src/Command/Clear.antt =====
-- clear_command.cpp: PB.CLEAR key type [path]
pub mod MapKey
use redis_protobuf.Base.{◌≡◌, Bool, true, false, List, Bytes, beq, if◌then◌else◌, pos}
use redis_protobuf.Errors.{Outcome, ok, err, type_mismatch}
use redis_protobuf.Exec.{Exec, pure, throw, lift, gets, modify, ◌>>=◌, ◌>>◌}
use redis_protobuf.Path.{FieldPath, is_root}
use redis_protobuf.Protobuf.{Protobuf, type_name}
use redis_protobuf.FieldRef.{mutable_ref, construct}
use redis_protobuf.FieldRef.Access.{clear}
use redis_protobuf.ModuleApi.{
  Redis, World, long_long, reply, replicate_verbatim, catch_errors, read_only, open_existing,
  get_msg_by_key, on_msg,
}
use redis_protobuf.Command.Args.{KeyPath, parse_key_path}

module _ (P : Protobuf) where
  -- _clear
  unfoldable pub clear_at : FieldPath → Exec P.Msg (Unit {0})
  clear_at path =
      if is_root path then modify P.clear else (do r ← construct P mutable_ref path; clear P r)

module _ (P : Protobuf) (R : Redis P.Msg) where
  unfoldable pub clear_existing : KeyPath → P.Msg → Exec (World R.Keys) (Unit {0})
  unfolding clear_at
  clear_existing args msg =
      if beq (type_name P msg) args.path.type
      then on_msg R args.key_name msg (clear_at P args.path)
      else throw type_mismatch

  unfoldable pub run_on : KeyPath → Bool → Exec (World R.Keys) (Unit {0})
  unfolding clear_existing
  run_on args false = reply (long_long (pos 0))
  run_on args true = do
    msg ← get_msg_by_key R args.key_name
    clear_existing args msg
    reply (long_long (pos 1))

  -- ClearCommand::run
  unfoldable pub run : List Bytes → Exec (World R.Keys) (Unit {0})
  unfolding run_on
  run argv = catch_errors (do
    args ← lift (parse_key_path argv)
    exists ← open_existing R read_only args.key_name
    run_on args exists
    replicate_verbatim)
