-- ===== src/Command/Len.antt =====
-- len_command.cpp: PB.LEN key type [path]
pub mod Elements
use redis_protobuf.Base.{ℕ, Bool, true, false, ◌||◌, List, Bytes, beq, length, if◌then◌else◌, pos}
use redis_protobuf.Errors.{ok, type_mismatch, no_length}
use redis_protobuf.Exec.{Exec, pure, throw, lift, ◌>>=◌}
use redis_protobuf.Path.{FieldPath, is_root}
use redis_protobuf.Protobuf.{Protobuf, CppType, message, string, type_name}
use redis_protobuf.FieldRef.{Ref, type_of, const_ref, construct}
use redis_protobuf.FieldRef.Access.{is_array, is_map_field, size, get_value}
use redis_protobuf.ModuleApi.{
  Redis, World, long_long, reply, catch_errors, read_only, open_existing, get_msg_by_key,
}
use redis_protobuf.Command.Args.{KeyPath, parse_key_path}

module _ (P : Protobuf) where
  open P use {Msg, byte_size}

  -- the switch of _len(field)
  len_scalar : Ref P → CppType → Exec Msg ℕ
  len_scalar r message = do m ← get_value P message r; pure (byte_size m)
  len_scalar r string = do s ← get_value P string r; pure (length s)
  len_scalar r _ = throw no_length

  -- _len(field)
  unfoldable pub len_ref : Ref P → Exec Msg ℕ
  unfolding len_scalar
  len_ref r =
      if is_map_field P r || is_array P r
      then size P r
      else (do t ← lift (type_of P r.field_desc); len_scalar r t)

  -- _len(msg, path)
  unfoldable pub len_at : FieldPath → Exec Msg ℕ
  unfolding len_ref
  len_at path msg =
      if beq (type_name P msg) path.type
      then if is_root path
        then (ok (byte_size msg), msg)
        else (do r ← construct P const_ref path; len_ref r) msg
      else throw type_mismatch msg

module _ (P : Protobuf) (R : Redis P.Msg) where
  unfoldable pub run_on : KeyPath → Bool → Exec (World R.Keys) (Unit {0})
  unfolding len_at
  run_on args false = reply (long_long (pos 0))
  run_on args true = do
    msg ← get_msg_by_key R args.key_name
    n ← lift (len_at P args.path msg).0
    reply (long_long (pos n))

  -- LenCommand::run
  unfoldable pub run : List Bytes → Exec (World R.Keys) (Unit {0})
  unfolding run_on
  run argv = catch_errors (do
    args ← lift (parse_key_path argv)
    exists ← open_existing R read_only args.key_name
    run_on args exists)
