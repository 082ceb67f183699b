-- ===== src/Command/Registry/Keyspace.antt =====
-- commands.cpp: the commands that work on the whole message of a key, against a map from keys to messages.
pub mod Worlds
pub mod RestWorlds
pub mod Own
pub mod OwnRest
pub mod Refines
use redis_protobuf.Base.{
  Bool-cases, Option-cases, inl, inr, ℕ, pos, ◌++◌, ◌≡◌, ◌≢◌, refl, sym, ap, ◌∙◌, Bool, true, false,
  Bool-cases, Option, none, some, inl, inr, List, [], ◌∷◌, Bytes, codes, beq, beq→eq, beq_refl,
  beq_false→ne, if◌then◌else◌,
}
use redis_protobuf.Errors.{serialize_failed, Error, type_mismatch, Outcome, ok, err, abort}
use redis_protobuf.Protobuf.{Protobuf, type_name}
use redis_protobuf.ProtoFactory.{create_from}
use redis_protobuf.ModuleApi.{
  simple_string, bulk_string, Reply, long_long, null, error_answer, Redis, World, KeyKind, missing,
  ours, open_existing, get_msg_by_key, catch_errors,
}
use redis_protobuf.Command.Args.{parse_key_path}
use redis_protobuf.Command.Set
use redis_protobuf.Command.Set.Args.{parse_args, parse_opts, parse_rest}
use redis_protobuf.Command.Del
use redis_protobuf.Command.Get
use redis_protobuf.Command.Get.Args as GetArgs
use redis_protobuf.Command.Get.Field as GetField
use redis_protobuf.Utils.{str_case_equal, same_upper}
use redis_protobuf.Command.Registry.{
  pb_get, Name, pb_set, pb_del, pb_clear, pb_merge, pb_len, pb_type, run_command,
}
use redis_protobuf.Command.TypeName.{format_type}
use redis_protobuf.Command.Registry.Local.{FrameLaws, seen, run_command-seen}
use redis_protobuf.Persistence.Aof.{IsNoOption}

-- What Redis documents of the calls for a key, beside FrameLaws.
pub record KeyspaceLaws {Msg : Type 0} (R : Redis Msg) : Type 0 where
  pub frame : FrameLaws R
  pub set_value-succeeds :
      (ks : R.Keys) (key : Bytes) (m : Msg) → (ks' : R.Keys) × (R.set_value ks key m ≡ some ks')
  pub seen-set_self :
      (ks ks' : R.Keys) (key : Bytes) (m : Msg)
      → R.set_value ks key m ≡ some ks'
      → seen R ks' key ≡ (ours, some m)
  pub seen-store_self :
      (ks : R.Keys) (key : Bytes) (m : Msg)
      → R.key_kind ks key ≡ ours
      → seen R (R.store ks key m) key ≡ (ours, some m)
  pub seen-delete_self :
      (ks : R.Keys) (key : Bytes) → seen R (R.delete_key ks key) key ≡ (missing, none)

-- PB.SET key type val, PB.DEL key type, PB.GET key --FORMAT BINARY type, PB.CLEAR key type,
-- PB.MERGE key type val, PB.LEN key type, and PB.TYPE key
pub data Op : Type 0 where
  set merge : Bytes → Bytes → Bytes → Op
  del get clear len : Bytes → Bytes → Op
  type_of : Bytes → Op

abbrev pub key_of : Op → Bytes
key_of (set key type val) = key
key_of (merge key type val) = key
key_of (del key type) = key
key_of (get key type) = key
key_of (clear key type) = key
key_of (len key type) = key
key_of (type_of key) = key

-- the command, its name and the arguments behind the key
abbrev pub command_of : Op → Name × Bytes × List Bytes
command_of (set key type val) = (pb_set, codes "PB.SET", type ∷ val ∷ [])
command_of (merge key type val) = (pb_merge, codes "PB.MERGE", type ∷ val ∷ [])
command_of (del key type) = (pb_del, codes "PB.DEL", type ∷ [])
command_of (get key type) = (pb_get, codes "PB.GET", codes "--FORMAT" ∷ codes "BINARY" ∷ type ∷ [])
command_of (clear key type) = (pb_clear, codes "PB.CLEAR", type ∷ [])
command_of (len key type) = (pb_len, codes "PB.LEN", type ∷ [])
command_of (type_of key) = (pb_type, codes "PB.TYPE", [])

module _ (P : Protobuf) (R : Redis P.Msg) where
  unfoldable pub run_op : Op → World R.Keys → World R.Keys
  run_op op w =
      (run_command P R (command_of op).0 ((command_of op).1 ∷ key_of op ∷ (command_of op).2) w).1

module _ (P : Protobuf) where
  abbrev pub Store : Type 0
  Store = Bytes → Option P.Msg

  abbrev pub update : Store → Bytes → Option P.Msg → Store
  update f key v j = if beq j key then v else f j

  abbrev pub accepts : Bytes → Option P.Msg → Bool
  accepts type none = true
  accepts type (some m) = beq (type_name P m) type

  -- a message that was made of the text, if one could be made
  abbrev pub replaced : Store → Bytes → Outcome P.Msg → Store
  replaced f key (ok m) = update f key (some m)
  replaced f key _ = f

  abbrev pub merged_with : Option P.Msg → P.Msg → P.Msg
  merged_with none m = m
  merged_with (some old) m = P.merge_from old m

  abbrev pub merged : Store → Bytes → Outcome P.Msg → Store
  merged f key (ok m) = update f key (some (merged_with (f key) m))
  merged f key _ = f

  abbrev pub cleared : Option P.Msg → Option P.Msg
  cleared none = none
  cleared (some m) = some (P.clear m)

  -- A message can be set where there is none or one of its type; only by its type can it be merged into,
  -- deleted or cleared.
  abbrev pub step : Op → Store → Store
  step (set key type val) f =
      if accepts type (f key) then replaced f key (create_from P type val) else f
  step (merge key type val) f =
      if accepts type (f key) then merged f key (create_from P type val) else f
  step (del key type) f = if accepts type (f key) then update f key none else f
  step (clear key type) f = if accepts type (f key) then update f key (cleared (f key)) else f
  step (get key type) f = f
  step (len key type) f = f
  step (type_of key) f = f

  -- what a client is told of a message that was made, `n` if there is one
  abbrev pub made_answer : ℕ → Outcome P.Msg → Reply
  made_answer n (ok m) = long_long (pos n)
  made_answer n (err e) = error_answer e
  made_answer n abort = null

  -- where there is no message, and where there is one
  abbrev pub asked_answer : Reply → (P.Msg → Reply) → Bytes → Option P.Msg → Reply
  asked_answer a g type none = a
  asked_answer a g type (some m) =
      if beq (type_name P m) type then g m else error_answer type_mismatch

  abbrev pub text_answer : Option Bytes → Reply
  text_answer none = error_answer serialize_failed
  text_answer (some s) = bulk_string s

  abbrev pub name_answer : Option P.Msg → Reply
  name_answer none = null
  name_answer (some m) = simple_string (format_type (type_name P m))

  abbrev pub merge_answer : Option P.Msg → ℕ
  merge_answer none = 0
  merge_answer (some m) = 1

  abbrev pub answer : Op → Store → Reply
  answer (set key type val) f =
      if accepts type (f key)
      then made_answer 1 (create_from P type val)
      else error_answer type_mismatch
  answer (merge key type val) f =
      if accepts type (f key)
      then made_answer (merge_answer (f key)) (create_from P type val)
      else error_answer type_mismatch
  answer (del key type) f = asked_answer (long_long (pos 0)) (λ m. long_long (pos 1)) type (f key)
  answer (clear key type) f = asked_answer (long_long (pos 0)) (λ m. long_long (pos 1)) type (f key)
  answer (get key type) f = asked_answer null (λ m. text_answer (P.serialize m)) type (f key)
  answer (len key type) f =
      asked_answer (long_long (pos 0)) (λ m. long_long (pos (P.byte_size m))) type (f key)
  answer (type_of key) f = name_answer (f key)
