-- ===== src/Command/Server/Laws.antt =====
-- commands.cpp: what holds of every command that is registered.
use redis_protobuf.Base.{◌≡◌, ◌≢◌, refl, some, List, [], ◌∷◌, Bytes, codes}
use redis_protobuf.Errors.{ok}
use redis_protobuf.Protobuf.{Protobuf}
use redis_protobuf.ModuleApi.{Redis}
use redis_protobuf.ProtoFactory.Loader.{Importer}
use redis_protobuf.Command.Answers.{owed}
use redis_protobuf.Command.Get.Complete.{AllSized}
use redis_protobuf.Command.Registry.{
  pb_type, pb_set, pb_get, pb_clear, pb_len, pb_append, pb_del, pb_schema, pb_merge,
}
use redis_protobuf.Command.Registry.Complete.{run_command_complete}
use redis_protobuf.Command.Registry.ReadOnly.{run_command-ReadOnly}
use redis_protobuf.Command.Import.{Server, parse_args, try_import, run_import}
use redis_protobuf.Command.Import.Reports.{last_import_lem, run_last_import_complete}
use redis_protobuf.Command.Server.{Command, on_key, pb_import, pb_last_import, flags, serve}

module _ (P : Protobuf) (R : Redis P.Msg) (I : Importer) where
  import_complete :
      (argv : List Bytes) (s : Server R.Keys I.Disk)
      → s.world.replies ≡ []
      → owed 1 (run_import I argv s).1.world.replies ≡ some 0
  unfolding run_import try_import parse_args
  import_complete [] s e = rw e refl
  import_complete (a ∷ []) s e = rw e refl
  import_complete (a ∷ b ∷ []) s e = rw e refl
  import_complete (a ∷ b ∷ c ∷ []) s e = rw e refl
  import_complete (a ∷ b ∷ c ∷ d ∷ argv) s e = rw e refl

  -- Let every map field of every stored message, at every place in it, have as many elements as keys
  -- (protobuf counts a key twice that PB.APPEND added twice). Then every registered command that
  -- returns to Redis, with no reply sent before it, has sent one complete reply: an integer, a string,
  -- a null, an array with its items, or one error, also where an error strikes halfway.
  pub serve_complete :
      (c : Command) (argv : List Bytes) (s : Server R.Keys I.Disk)
      → AllSized P R s.world.keys
      → s.world.replies ≡ []
      → (serve P R I c argv s).0 ≡ ok tt
      → owed 1 (serve P R I c argv s).1.world.replies ≡ some 0
  unfolding serve
  serve_complete (on_key name) argv s laws e h = run_command_complete P R name argv s.world laws e h
  serve_complete pb_import argv s laws e h = import_complete argv s e
  serve_complete pb_last_import argv s laws e h = (run_last_import_complete I argv s e).1.0

  -- A command that is not registered with the flags "write deny-oom" leaves the keyspace as it is and does
  -- not replicate itself, on every path, errors included.
  pub serve-ReadOnly :
      (c : Command) (argv : List Bytes) (s : Server R.Keys I.Disk)
      → flags c ≢ codes "write deny-oom"
      → ((serve P R I c argv s).1.world.keys ≡ s.world.keys)
        × ((serve P R I c argv s).1.world.replicated ≡ s.world.replicated)
  unfolding serve
  serve-ReadOnly (on_key pb_type) argv s h = run_command-ReadOnly P R pb_type argv s.world refl
  serve-ReadOnly (on_key pb_get) argv s h = run_command-ReadOnly P R pb_get argv s.world refl
  serve-ReadOnly (on_key pb_len) argv s h = run_command-ReadOnly P R pb_len argv s.world refl
  serve-ReadOnly (on_key pb_schema) argv s h = run_command-ReadOnly P R pb_schema argv s.world refl
  serve-ReadOnly (on_key pb_set) argv s h = absurd (h refl)
  serve-ReadOnly (on_key pb_clear) argv s h = absurd (h refl)
  serve-ReadOnly (on_key pb_append) argv s h = absurd (h refl)
  serve-ReadOnly (on_key pb_del) argv s h = absurd (h refl)
  serve-ReadOnly (on_key pb_merge) argv s h = absurd (h refl)
  serve-ReadOnly pb_import argv s h = absurd (h refl)
  serve-ReadOnly pb_last_import argv s h = rw (last_import_lem I argv s) (refl, refl)
