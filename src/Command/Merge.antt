-- ===== src/Command/Merge.antt =====
-- merge_command.cpp: PB.MERGE key type [path] value
pub mod Missing
use redis_protobuf.Base.{◌≡◌, Bool, true, false, List, [], ◌∷◌, Bytes, beq, if◌then◌else◌, pos}
use redis_protobuf.Errors.{Outcome, ok, err, wrong_arity, type_mismatch}
use redis_protobuf.Errors
use redis_protobuf.Exec.{Exec, pure, throw, lift, gets, modify, ◌>>=◌, ◌>>◌}
use redis_protobuf.Path.{FieldPath, is_root, of_path, of_type}
use redis_protobuf.Protobuf.{Protobuf, type_name}
use redis_protobuf.FieldRef.{mutable_ref, construct}
use redis_protobuf.FieldRef.Access.{msg_type, merge}
use redis_protobuf.ProtoFactory.{create_from}
use redis_protobuf.ModuleApi.{
  Redis, World, long_long, reply, replicate_verbatim, catch_errors, write_only, open_existing,
  get_msg_by_key, on_msg,
}
use redis_protobuf.Command.Set.{run_set}

-- struct Args
pub record MergeArgs : Type 0 where
  pub key_name : Bytes
  pub path : FieldPath
  pub val : Bytes

-- _parse_args
unfoldable pub parse_args : List Bytes → Outcome MergeArgs
parse_args (name ∷ key ∷ type ∷ val ∷ []) =
    ok (record { key_name = key; path = of_type type; val = val })
parse_args (name ∷ key ∷ type ∷ path ∷ val ∷ []) =
    Errors.◌>>=◌ (of_path type path) (λ p. ok (record { key_name = key; path = p; val = val }))
parse_args _ = err wrong_arity

module _ (P : Protobuf) where
  open P use {Msg, merge_from}

  -- _merge_msg
  unfoldable pub merge_msg : Bytes → Bytes → Exec Msg (Unit {0})
  merge_msg type val msg =
      if beq type (type_name P msg)
      then (do other ← lift (create_from P type val); modify (λ m. merge_from m other)) msg
      else throw type_mismatch msg

  -- _merge_sub_msg
  unfoldable pub merge_sub_msg : FieldPath → Bytes → Exec Msg (Unit {0})
  merge_sub_msg path val = do
    r ← construct P mutable_ref path
    type ← lift (msg_type P r)
    sub_msg ← lift (create_from P type val)
    merge P r sub_msg

  -- _merge
  unfoldable pub merge_at : FieldPath → Bytes → Exec Msg (Unit {0})
  unfolding merge_msg merge_sub_msg
  merge_at path val = if is_root path then merge_msg path.type val else merge_sub_msg path val

module _ (P : Protobuf) (R : Redis P.Msg) where
  -- A missing key is set by SetCommand::_run, and the call returns before ReplicateVerbatim.
  unfoldable pub run_on : List Bytes → MergeArgs → Bool → Exec (World R.Keys) (Unit {0})
  unfolding merge_at
  run_on argv args false = do run_set P R argv; reply (long_long (pos 0))
  run_on argv args true = do
    msg ← get_msg_by_key R args.key_name
    on_msg R args.key_name msg (merge_at P args.path args.val)
    reply (long_long (pos 1))
    replicate_verbatim

  -- MergeCommand::run
  unfoldable pub run : List Bytes → Exec (World R.Keys) (Unit {0})
  unfolding run_on
  run argv = catch_errors (do
    args ← lift (parse_args argv)
    exists ← open_existing R write_only args.key_name
    run_on argv args exists)
