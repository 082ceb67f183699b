-- ===== src/Command/Registry.antt =====
-- commands.cpp: the commands that work on keys and types, by the names under which create_commands
-- registers them.
pub mod Complete
pub mod ReadOnly
pub mod Local
pub mod Typed
pub mod Keyspace
pub mod Opened
use redis_protobuf.Base.{List, [], ◌∷◌, Bytes, codes, Bool, true, false}
use redis_protobuf.Exec.{Exec}
use redis_protobuf.Protobuf.{Protobuf}
use redis_protobuf.ModuleApi.{Redis, World}
use redis_protobuf.Command.Set
use redis_protobuf.Command.Get
use redis_protobuf.Command.Append
use redis_protobuf.Command.Del
use redis_protobuf.Command.Clear
use redis_protobuf.Command.Merge
use redis_protobuf.Command.Len
use redis_protobuf.Command.TypeName

pub data Name : Type 0 where
  pb_type pb_set pb_get pb_clear pb_len pb_append pb_del pb_schema pb_merge : Name

-- the name that is registered
abbrev pub registered_name : Name → Bytes
registered_name pb_type = codes "PB.TYPE"
registered_name pb_set = codes "PB.SET"
registered_name pb_get = codes "PB.GET"
registered_name pb_clear = codes "PB.CLEAR"
registered_name pb_len = codes "PB.LEN"
registered_name pb_append = codes "PB.APPEND"
registered_name pb_del = codes "PB.DEL"
registered_name pb_schema = codes "PB.SCHEMA"
registered_name pb_merge = codes "PB.MERGE"

-- the flag "write", which the others have not: they are "readonly"
abbrev pub is_write : Name → Bool
is_write pb_set = true
is_write pb_clear = true
is_write pb_append = true
is_write pb_del = true
is_write pb_merge = true
is_write _ = false

-- the handler
unfoldable pub run_command :
    (P : Protobuf) (R : Redis P.Msg) → Name → List Bytes → Exec (World R.Keys) (Unit {0})
run_command P R pb_type = TypeName.run_type P R
run_command P R pb_set = Set.run P R
run_command P R pb_get = Get.run P R
run_command P R pb_clear = Clear.run P R
run_command P R pb_len = Len.run P R
run_command P R pb_append = Append.run P R
run_command P R pb_del = Del.run P R
run_command P R pb_schema = TypeName.run_schema P R
run_command P R pb_merge = Merge.run P R
