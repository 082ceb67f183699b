-- ===== src/ModuleApi.antt =====
-- module_api.cpp, module_api.h: the module's view of a Redis key, and the replies to a client. Redis is
-- a parameter: a keyspace with the calls of redismodule.h that the commands make.
use redis_protobuf.Base.{ℕ, Bool, true, false, Option, none, some, List, [], ◌∷◌, ◌++◌, Bytes, ℤ}
use redis_protobuf.Errors.{
  Error, Outcome, ok, err, abort, wrong_arity, wrong_type, no_message, null_name,
}
use redis_protobuf.Exec.{Exec, pure, throw, lift, modify, ◌>>◌}

-- RedisModule_KeyType with RedisModule_ModuleTypeGetType: no key, a key of the module's type, a key
-- of another type
pub data KeyKind : Type 0 where
  missing ours other : KeyKind

pub record Redis (Msg : Type 0) : Type 1 where
  pub Keys : Type 0
  pub key_kind : Keys → Bytes → KeyKind
  -- ModuleTypeGetValue, and a write through the pointer that it returned
  pub value : Keys → Bytes → Option Msg
  pub store : Keys → Bytes → Msg → Keys
  -- ModuleTypeSetValue (`none` is not REDISMODULE_OK), DeleteKey, SetExpire
  pub set_value : Keys → Bytes → Msg → Option Keys
  pub delete_key : Keys → Bytes → Keys
  pub set_expire : Keys → Bytes → ℤ → Keys

-- RedisModule_ReplyWith*, and RedisModule_WrongArity
pub data Reply : Type 0 where
  long_long : ℤ → Reply
  simple_string bulk_string : Bytes → Reply
  array : ℕ → Reply
  null wrong_arity_reply : Reply
  error_reply : Error → Reply

-- enum class KeyMode
pub data KeyMode : Type 0 where
  read_only write_only read_write : KeyMode

-- REDISMODULE_READ is bit 0, REDISMODULE_WRITE is bit 1.
abbrev pub mode_bits : KeyMode → ℕ
mode_bits read_only = 1
mode_bits write_only = 2
mode_bits read_write = 3

-- What a command reads and changes: the keyspace, the replies sent so far, whether ReplicateVerbatim has
-- been called, and the calls of OpenKey, the last one first, with their modes. Redis looks at the
-- mode when the key is closed, at the end of the command: it then tells the clients that watch
-- the key, if it was opened with REDISMODULE_WRITE.
pub record World (Keys : Type 0) : Type 0 where
  pub keys : Keys
  pub replies : List Reply
  pub replicated : Bool
  pub opened : List (Bytes × ℕ)

abbrev pub emit : Reply → Exec (List Reply) (Unit {0})
emit a = modify (λ replies. replies ++ a ∷ [])

-- the handlers of a `run`, and reply_with_error
abbrev pub error_answer : Error → Reply
error_answer wrong_arity = wrong_arity_reply
error_answer e = error_reply e

module _ {Keys : Type 0} where
  abbrev pub reply : Reply → Exec (World Keys) (Unit {0})
  reply a = modify (λ w. record w { replies = w.replies ++ a ∷ [] })

  abbrev pub replicate_verbatim : Exec (World Keys) (Unit {0})
  replicate_verbatim = modify (λ w. record w { replicated = true })

  -- The try block of a `run`: an error becomes a reply, and what was changed before it stays changed.
  abbrev pub answered : Outcome (Unit {0}) → Exec (World Keys) (Unit {0})
  answered (ok u) = pure u
  answered (err e) = reply (error_answer e)
  answered abort = lift abort

  unfoldable pub catch_errors : Exec (World Keys) (Unit {0}) → Exec (World Keys) (Unit {0})
  catch_errors m w = answered (m w).0 (m w).1

module _ {Msg : Type 0} (R : Redis Msg) where
  open R use {Keys, key_kind, value, store}

  abbrev exists_of : KeyKind → Outcome Bool
  exists_of missing = ok false
  exists_of ours = ok true
  exists_of other = err wrong_type

  -- key_exists
  unfoldable pub key_exists : Bytes → Exec (World Keys) Bool
  key_exists key w = (exists_of (key_kind w.keys key), w)

  abbrev stored : Option Msg → Outcome Msg
  stored none = err no_message
  stored (some m) = ok m

  -- get_msg_by_key
  unfoldable pub get_msg_by_key : Bytes → Exec (World Keys) Msg
  get_msg_by_key key w = (stored (value w.keys key), w)

  -- open_key; the handle is closed when it goes out of scope
  unfoldable pub open_key : KeyMode → Option Bytes → Exec (World Keys) (Unit {0})
  open_key mode none = throw null_name
  open_key mode (some key) = modify (λ w. record w { opened = (key, mode_bits mode) ∷ w.opened })

  -- the two calls with which a command begins to look at its key
  unfoldable pub open_existing : KeyMode → Bytes → Exec (World Keys) Bool
  unfolding open_key key_exists
  open_existing mode key = open_key mode (some key) >> key_exists key

  -- Code that changes the message of a key through the pointer to it.
  module _ {A : Type 0} where
    unfoldable pub on_msg : Bytes → Msg → Exec Msg A → Exec (World Keys) A
    on_msg key msg m w = ((m msg).0, record w { keys = store w.keys key (m msg).1 })
