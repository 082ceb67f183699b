-- ===== src/Command/Get.antt =====
-- get_command.cpp: PB.GET key [--FORMAT BINARY|JSON] type [path]
pub mod Args
pub mod Field
pub mod Complete
pub mod Short
use redis_protobuf.Base.{◌≡◌, Bool, true, false, List, [], ◌∷◌, ◌++◌, Bytes, beq, if◌then◌else◌}
use redis_protobuf.Errors.{Outcome, ok, err, abort, type_mismatch}
use redis_protobuf.Exec.{Exec, pure, throw, lift, gets, modify, ◌>>=◌, ◌>>◌}
use redis_protobuf.Path.{FieldPath, is_root}
use redis_protobuf.Protobuf.{Protobuf, type_name}
use redis_protobuf.FieldRef.{const_ref, construct}
use redis_protobuf.ModuleApi.{
  Redis, World, Reply, null, reply, catch_errors, read_only, open_existing, get_msg_by_key,
}
use Args.{GetArgs, parse_args}
use Field.{get_msg, get_field}

module _ (P : Protobuf) where
  open P use {Msg}

  -- _reply_with_msg. Its message is const: the code writes it to no key, and the walk of a ConstFieldRef
  -- leaves it as it was (FieldRef.ReadOnly), so that the message after the walk is not kept.
  unfoldable pub reply_with_msg : GetArgs → Msg → Exec (List Reply) (Unit {0})
  reply_with_msg args msg =
      if beq (type_name P msg) args.path.type
      then if is_root args.path
        then get_msg P args.format msg
        else (do r ← lift (construct P const_ref args.path msg).0; get_field P args.format msg r)
      else throw type_mismatch

module _ (P : Protobuf) (R : Redis P.Msg) where
  -- the replies that `m` sends
  abbrev pub replying : Exec (List Reply) (Unit {0}) → Exec (World R.Keys) (Unit {0})
  replying m w = ((m w.replies).0, record w { replies = (m w.replies).1 })

  unfoldable pub run_on : GetArgs → Bool → Exec (World R.Keys) (Unit {0})
  run_on args false = reply null
  run_on args true = do msg ← get_msg_by_key R args.key_name; replying (reply_with_msg P args msg)

  -- GetCommand::run
  unfoldable pub run : List Bytes → Exec (World R.Keys) (Unit {0})
  unfolding run_on
  run argv = catch_errors (do
    args ← lift (parse_args argv)
    exists ← open_existing R read_only args.key_name
    run_on args exists)
