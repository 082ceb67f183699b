-- ===== src/Command/Append.antt =====
-- append_command.cpp: PB.APPEND key type path element [element …]
pub mod Elements
pub mod Text
use redis_protobuf.Base.{
  ℕ, ◌≡◌, Bool, true, false, ◌&&◌, not, Option, none, some, List, [], ◌∷◌, ◌++◌, Bytes, beq, length,
  if◌then◌else◌, ℤ, pos,
}
use redis_protobuf.Errors.{
  Outcome, ok, err, abort, wrong_arity, type_mismatch, append_whole, not_array_or_string,
}
use redis_protobuf.Errors
use redis_protobuf.Exec.{Exec, pure, throw, lift, gets, modify, ◌>>=◌, ◌>>◌}
use redis_protobuf.Path.{FieldPath, is_root, of_path}
use redis_protobuf.Protobuf.{Protobuf, CppType, string, same_type, type_name}
use redis_protobuf.FieldRef.{Ref, type_of, mutable_ref, construct}
use redis_protobuf.FieldRef.Access.{
  is_array, is_array_element, get_value, set_value, get_repeated_value, set_repeated_value,
  add_value, size, msg_type,
}
use redis_protobuf.ProtoFactory.{create}
use redis_protobuf.ModuleApi.{
  Redis, World, long_long, reply, replicate_verbatim, catch_errors, write_only, open_existing,
  get_msg_by_key, on_msg,
}
use redis_protobuf.Command.Convert.{convert}
use redis_protobuf.Command.Set.{set_value as set_key}

-- struct Args
pub record AppendArgs : Type 0 where
  pub key_name : Bytes
  pub path : FieldPath
  pub elements : List Bytes

-- _parse_args
unfoldable pub parse_args : List Bytes → Outcome AppendArgs
parse_args (name ∷ key ∷ type ∷ path ∷ a ∷ rest) =
    Errors.◌>>=◌ (of_path type path)
      (λ p. ok (record { key_name = key; path = p; elements = a ∷ rest }))
parse_args _ = err wrong_arity

-- the text that the elements spell together
abbrev pub concat : List Bytes → Bytes
concat [] = []
concat (a ∷ rest) = a ++ concat rest

module _ (P : Protobuf) where
  open P use {Msg}

  -- _append_arr and _add_msg
  unfoldable pub append_arr : Ref P → Bytes → Exec Msg (Unit {0})
  append_arr r val = do
    t ← lift (type_of P r.field_desc)
    v ← lift (convert P t (msg_type P r) val)
    add_value P t r v

  -- the loop of _append
  unfoldable pub append_all : Ref P → List Bytes → Exec Msg (Unit {0})
  unfolding append_arr
  append_all r [] = pure tt
  append_all r (a ∷ rest) = do append_arr r a; append_all r rest

  -- _append_str; the size of the new text is returned
  unfoldable pub append_str : Ref P → List Bytes → Exec Msg ℕ
  append_str r elements =
      if is_array_element P r
      then (do
        old ← get_repeated_value P string r
        set_repeated_value P string r (old ++ concat elements)
        pure (length (old ++ concat elements)))
      else (do
        old ← get_value P string r
        set_value P string r (old ++ concat elements)
        pure (length (old ++ concat elements)))

  unfoldable pub append_other : Ref P → List Bytes → CppType → Exec Msg ℕ
  unfolding append_str
  append_other r elements t =
      if same_type t string then append_str r elements else throw not_array_or_string

  -- _append
  unfoldable pub append : Ref P → List Bytes → Exec Msg ℕ
  unfolding append_all append_other
  append r elements =
      if is_array P r && not (is_array_element P r)
      then (do append_all r elements; size P r)
      else (do t ← lift (type_of P r.field_desc); append_other r elements t)

  -- MutableFieldRef field(msg, path); len = _append(field, args.elements);
  unfoldable pub append_at : FieldPath → List Bytes → Exec Msg ℕ
  unfolding append
  append_at path elements = do r ← construct P mutable_ref path; append r elements

  -- the new message of a missing key, and the length
  unfoldable pub new_msg : FieldPath → List Bytes → Outcome (ℕ × Msg)
  unfolding append_at
  new_msg path elements = elim (create P path.type) [
    | err e ↦ err e
    | abort ↦ abort
    | ok m ↦
        if beq (type_name P m) path.type
        then elim (append_at path elements m).0 [
          | ok n ↦ ok (n, (append_at path elements m).1)
          | err e ↦ err e
          | abort ↦ abort
        ]
        else err type_mismatch
  ]

module _ (P : Protobuf) (R : Redis P.Msg) where
  unfoldable pub run_on : AppendArgs → Bool → Exec (World R.Keys) ℕ
  unfolding new_msg append_at
  run_on args false = do
    made ← lift (new_msg P args.path args.elements)
    set_key P R args.key_name made.1
    pure made.0
  run_on args true = do
    msg ← get_msg_by_key R args.key_name
    on_msg R args.key_name msg (append_at P args.path args.elements)

  unfoldable pub reject_root : FieldPath → Exec (World R.Keys) (Unit {0})
  reject_root path = if is_root path then throw append_whole else pure tt

  -- AppendCommand::run
  unfoldable pub run : List Bytes → Exec (World R.Keys) (Unit {0})
  unfolding run_on reject_root
  run argv = catch_errors (do
    args ← lift (parse_args argv)
    reject_root args.path
    exists ← open_existing R write_only args.key_name
    n ← run_on args exists
    reply (long_long (pos n))
    replicate_verbatim)
