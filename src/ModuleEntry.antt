-- ===== src/ModuleEntry.antt =====
-- redis_protobuf.cpp and module_entry.cpp: how Redis loads the module. What Redis does with a registration
-- is a parameter.
pub mod Loaded
use redis_protobuf.Base.{ℕ, Option, none, some, List, Bytes, codes}
use redis_protobuf.Errors.{Error, Outcome, ok, err, abort, init_failed, create_type_failed, ◌>>=◌}
use redis_protobuf.Options
use redis_protobuf.Utils.Io.{FileSystem}
use redis_protobuf.Persistence.{encoding_version}
use redis_protobuf.ProtoFactory.Loader.{Importer, Loader}
use redis_protobuf.ProtoFactory.Factory.{create_factory}
use redis_protobuf.Command.Server.{Command, create_commands}

-- RedisModule_Init, RedisModule_CreateDataType and RedisModule_CreateCommand; `none` is an error.
pub record Host : Type 1 where
  pub State : Type 0
  pub init : State → Bytes → ℕ → Option State
  pub create_type : State → Bytes → ℕ → Option State
  pub create_command : State → Bytes → Command → Bytes → ℕ → ℕ → ℕ → Option State

-- _MODULE_NAME, _MODULE_VERSION, _TYPE_NAME
abbrev pub module_name : Bytes
module_name = codes "PB"

abbrev pub module_version : ℕ
module_version = 1

abbrev pub type_name : Bytes
type_name = codes "PROTOC-SW"

-- a call, or the error that is thrown if it fails
abbrev pub checked : {A : Type 0} → Error → Option A → Outcome A
checked e none = err e
checked e (some a) = ok a

-- REDISMODULE_OK, with what Redis and the module then have, or REDISMODULE_ERR, with the error of the
-- warning in the log
pub data Status (State Disk : Type 0) : Type 0 where
  loaded : State → Loader Disk → Status State Disk
  refused : Error → Status State Disk

module _ (H : Host) (I : Importer) (look : I.Disk → FileSystem) where
  open H use {State, init, create_type, create_command}
  open I use {Disk}

  -- RedisProtobuf::load, on a stack with room for `depth` calls of list_dir
  unfoldable pub load : ℕ → List Bytes → State → Disk → Outcome (State × Loader Disk)
  load depth argv s d = do
    s₁ ← checked init_failed (init s module_name module_version)
    dir ← Options.load argv
    s₂ ← checked create_type_failed (create_type s₁ type_name encoding_version)
    factory ← create_factory I look depth dir d
    s₃ ← create_commands create_command s₂
    ok (s₃, factory)

  abbrev pub entry_status : Outcome (State × Loader Disk) → Outcome (Status State Disk)
  entry_status (ok (s, factory)) = ok (loaded s factory)
  entry_status (err e) = ok (refused e)
  entry_status abort = abort

  -- RedisModule_OnLoad
  unfoldable pub on_load : ℕ → List Bytes → State → Disk → Outcome (Status State Disk)
  unfolding load
  on_load depth argv s d = entry_status (load depth argv s d)
