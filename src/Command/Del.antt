-- ===== src/Command/Del.antt =====
-- del_command.cpp: PB.DEL key type [path]
use redis_protobuf.Base.{Bool, true, false, List, Bytes, beq, if◌then◌else◌, pos}
use redis_protobuf.Errors.{type_mismatch, not_array_or_map}
use redis_protobuf.Exec.{Exec, throw, lift, modify, ◌>>=◌, ◌>>◌}
use redis_protobuf.Path.{FieldPath, is_root}
use redis_protobuf.Protobuf.{Protobuf, type_name}
use redis_protobuf.FieldRef.{Ref, mutable_ref, construct}
use redis_protobuf.FieldRef.Access.{is_array_element, del}
use redis_protobuf.ModuleApi.{
  Redis, World, long_long, reply, replicate_verbatim, catch_errors, write_only, open_existing,
  get_msg_by_key, on_msg,
}
use redis_protobuf.Command.Args.{KeyPath, parse_key_path}

module _ (P : Protobuf) where
  unfoldable pub del_ref : Ref P → Exec P.Msg (Unit {0})
  del_ref r = if is_array_element P r then del P r else throw not_array_or_map

  -- _del
  unfoldable pub del_at : FieldPath → Exec P.Msg (Unit {0})
  unfolding del_ref
  del_at path = do r ← construct P mutable_ref path; del_ref r

module _ (P : Protobuf) (R : Redis P.Msg) where
  unfoldable pub del_key : Bytes → Exec (World R.Keys) (Unit {0})
  del_key key = modify (λ w. record w { keys = R.delete_key w.keys key })

  unfoldable pub del_existing : KeyPath → P.Msg → Exec (World R.Keys) (Unit {0})
  unfolding del_key del_at
  del_existing args msg =
      if beq (type_name P msg) args.path.type
      then if is_root args.path
        then del_key args.key_name
        else on_msg R args.key_name msg (del_at P args.path)
      else throw type_mismatch

  unfoldable pub run_on : KeyPath → Bool → Exec (World R.Keys) (Unit {0})
  unfolding del_existing
  run_on args false = reply (long_long (pos 0))
  run_on args true = do
    msg ← get_msg_by_key R args.key_name
    del_existing args msg
    reply (long_long (pos 1))

  -- DelCommand::run
  unfoldable pub run : List Bytes → Exec (World R.Keys) (Unit {0})
  unfolding run_on
  run argv = catch_errors (do
    args ← lift (parse_key_path argv)
    exists ← open_existing R write_only args.key_name
    run_on args exists
    replicate_verbatim)
