-- ===== src/Command/Server.antt =====
-- commands.cpp: create_commands, with the commands of the factory beside those of keys and types.
pub mod Laws
pub mod Replicates
pub mod Replica
use redis_protobuf.Base.{ℕ, List, [], ◌∷◌, Bytes, codes, Option, none, some}
use redis_protobuf.Errors.{Outcome, ok, err, create_command_failed}
use redis_protobuf.Exec.{Exec}
use redis_protobuf.Protobuf.{Protobuf}
use redis_protobuf.ModuleApi.{Redis}
use redis_protobuf.ProtoFactory.Loader.{Importer}
use redis_protobuf.Command.Registry.{
  Name, pb_type, pb_set, pb_get, pb_clear, pb_len, pb_append, pb_del, pb_schema, pb_merge,
  registered_name, run_command,
}
use redis_protobuf.Command.Import.{Server, on_world, run_import, run_last_import}

pub data Command : Type 0 where
  on_key : Name → Command
  pb_import pb_last_import : Command

abbrev pub command_name : Command → Bytes
command_name (on_key name) = registered_name name
command_name pb_import = codes "PB.IMPORT"
command_name pb_last_import = codes "PB.LASTIMPORT"

-- the flags that are registered
abbrev pub flags : Command → Bytes
flags (on_key pb_type) = codes "readonly"
flags (on_key pb_set) = codes "write deny-oom"
flags (on_key pb_get) = codes "readonly"
flags (on_key pb_clear) = codes "write deny-oom"
flags (on_key pb_len) = codes "readonly"
flags (on_key pb_append) = codes "write deny-oom"
flags (on_key pb_del) = codes "write deny-oom"
flags (on_key pb_schema) = codes "readonly getkeys-api"
flags (on_key pb_merge) = codes "write deny-oom"
flags pb_import = codes "write deny-oom"
flags pb_last_import = codes "readonly"

-- the commands, in the order in which they are created
abbrev pub commands : List Command
commands =
    on_key pb_type
    ∷ on_key pb_set
    ∷ on_key pb_get
    ∷ on_key pb_clear
    ∷ on_key pb_len
    ∷ on_key pb_append
    ∷ on_key pb_del
    ∷ on_key pb_schema
    ∷ on_key pb_merge
    ∷ pb_import
    ∷ pb_last_import
    ∷ []

-- the handler of a command
unfoldable pub serve :
    (P : Protobuf) (R : Redis P.Msg) (I : Importer)
    → Command
    → List Bytes
    → Exec (Server R.Keys I.Disk) (Unit {0})
serve P R I (on_key name) argv = on_world (run_command P R name argv)
serve P R I pb_import argv = run_import I argv
serve P R I pb_last_import argv = run_last_import I argv

-- RedisModule_CreateCommand with a name, the handler, the flags, and the first key, the last key and
-- the step of the keys; `none` is REDISMODULE_ERR.
module _ {State : Type 0}
    (create_command : State → Bytes → Command → Bytes → ℕ → ℕ → ℕ → Option State) where
  abbrev pub created : Command → Option State → Outcome State
  created c none = err (create_command_failed (command_name c))
  created c (some s) = ok s

  -- one of the calls of create_commands
  abbrev pub create : Command → State → Outcome State
  create c s = created c (create_command s (command_name c) c (flags c) 1 1 1)

  unfoldable pub create_all : List Command → State → Outcome State
  create_all [] s = ok s
  create_all (c ∷ cs) s = redis_protobuf.Errors.◌>>=◌ (create c s) (create_all cs)

  -- create_commands
  unfoldable pub create_commands : State → Outcome State
  unfolding create_all
  create_commands s = create_all commands s
