-- ===== src/Tests/Serving.antt =====
-- The commands of a server with a keyspace and a factory.
use mathlib.Core.Path.{subst}
use redis_protobuf.Base.{
  pos, none, beq_refl, ◌≡◌, ◌≢◌, refl, true, false, some, inl, inr, Bool-cases, List, [], ◌∷◌,
  Bytes, codes, beq, beq→eq, beq_false→ne,
}
use redis_protobuf.Errors.{ok, type_mismatch}
use redis_protobuf.Command.TypeName.{format_type}
use redis_protobuf.ModuleApi.{error_answer, bulk_string, null, long_long, ours, simple_string}
use redis_protobuf.Command.Answers.{owed}
use redis_protobuf.Command.Registry.{pb_get, pb_del, run_command}
use redis_protobuf.ProtoFactory.{create_from, create, parse_into, is_json}
use redis_protobuf.Utils.{str_case_equal, same_upper}
use redis_protobuf.Persistence.Aof.{IsNoOption}
use redis_protobuf.Command.Registry.Keyspace.{
  get, clear, len, type_of, merge, KeyspaceLaws, Op, set, del,
}
use redis_protobuf.Command.Registry.Keyspace.Refines.{Agrees, run_ops, replay, run_ops-Agrees}
use redis_protobuf.Command.Registry.Local.{FrameLaws, seen, run_command-seen}
use redis_protobuf.Command.Import.{Server, run_import, run_last_import}
use redis_protobuf.Command.Import.Reports.{IsReported, later, import-IsReported}
use redis_protobuf.Command.Server.{on_key, pb_import, serve}
use redis_protobuf.Command.Server.Laws.{serve_complete, serve-ReadOnly}
use redis_protobuf.Command.Server.Replicates.{IsReplicated, serve-IsReplicated}
use redis_protobuf.Path.{of_path, parse_fields, cut}
use redis_protobuf.FieldRef.{
  construct, walk, advance, descend, descend_index, select, find_field, read, map_value_type,
}
use redis_protobuf.FieldRef.Access.{size}
use redis_protobuf.Command.Get
use redis_protobuf.Command.Get.Args as GetArgs
use redis_protobuf.Command.Get.Field as GetField
use redis_protobuf.ModuleApi.{catch_errors, open_existing, get_msg_by_key}
use redis_protobuf.Sample.{sample, sample_redis, SampleKeys, one_key, empty_world}
use redis_protobuf.Sample.Serial.{node-IsSized}
use redis_protobuf.Tests.Loading.{importer, idle}

apart : (j key : Bytes) → j ≢ key → beq j key ≡ false
apart j key ne = elim (Bool-cases (beq j key)) [ inl e ↦ absurd (ne (beq→eq j key e)) | inr e ↦ e ]

sample-FrameLaws : FrameLaws sample_redis
sample-FrameLaws = record {
  seen-store = λ ks key m j ne. rw (apart j key ne) refl;
  seen-set_value = λ ks ks' key m j e ne.
      let p : sample_redis.store ks key m ≡ ks' = cc e in
      subst (λ x. seen sample_redis x j ≡ seen sample_redis ks j) p (rw (apart j key ne) refl);
  seen-delete_key = λ ks key j ne. rw (apart j key ne) refl;
  seen-set_expire = λ ks key ms j ne. refl;
}

-- PB.DEL a Node /nums
run_command-seen_example :
    seen sample_redis
      (run_command sample sample_redis pb_del
        (codes "PB.DEL" ∷ codes "a" ∷ codes "Node" ∷ [])
        one_key).1.keys
      (codes "b")
    ≡ seen sample_redis one_key.keys (codes "b")
run_command-seen_example =
    run_command-seen sample sample_redis sample-FrameLaws pb_del (codes "PB.DEL") (codes "a")
      (codes "Node" ∷ []) one_key (codes "b") (beq_false→ne (codes "b") (codes "a") refl)

abbrev server : Server SampleKeys (List (Bytes × Bytes))
server = record {
  world = empty_world;
  loader = record idle { last_loaded = (codes "a.proto", ok tt) ∷ [] };
}

abbrev a_proto : List Bytes
a_proto = codes "PB.IMPORT" ∷ codes "a.proto" ∷ codes "message A {}" ∷ []

import-IsReported_example :
    ((run_import importer a_proto server).0 ≡ ok tt)
    × (((run_import importer a_proto server).1.world
          ≡ record empty_world { replies = simple_string (codes "OK") ∷ []; replicated = true })
        × (IsReported
              (codes "a.proto")
              (run_last_import importer []
                (later importer (run_import importer a_proto server).1)).1.world.replies
            × ((run_last_import importer []
                  (later importer (run_import importer a_proto server).1)).1.world.keys
                ≡ empty_world.keys)))
import-IsReported_example =
    import-IsReported importer (codes "PB.IMPORT") (codes "a.proto") (codes "message A {}") []
      server refl

-- PB.GET a Node /table
abbrev get_table : List Bytes
get_table = codes "PB.GET" ∷ codes "a" ∷ codes "Node" ∷ codes "/table" ∷ []

abbrev stored : Server SampleKeys (List (Bytes × Bytes))
stored = record server { world = one_key }

get_table-ok : (serve sample sample_redis importer (on_key pb_get) get_table stored).0 ≡ ok tt
unfolding serve run_command Get.run Get.run_on Get.reply_with_msg get_msg_by_key GetArgs.parse_args
    GetArgs.parse_opts GetArgs.parse_rest GetArgs.parse_format catch_errors open_existing
    str_case_equal same_upper of_path parse_fields cut construct walk advance descend descend_index
    select find_field read GetField.get_field GetField.get_field_with GetField.get_map
    GetField.reply_entries GetField.get_map_kv GetField.or_error_reply map_value_type size
    GetField.reply_value
get_table-ok = refl

serve_complete_example :
    owed 1 (serve sample sample_redis importer (on_key pb_get) get_table stored).1.world.replies
    ≡ some 0
serve_complete_example =
    serve_complete sample sample_redis importer (on_key pb_get) get_table stored
      (λ key m e. node-IsSized m) refl get_table-ok

serve-ReadOnly_example :
    ((serve sample sample_redis importer
        (on_key pb_get)
        (codes "PB.GET" ∷ codes "a" ∷ codes "Node" ∷ [])
        server).1.world.keys
      ≡ server.world.keys)
    × ((serve sample sample_redis importer
          (on_key pb_get)
          (codes "PB.GET" ∷ codes "a" ∷ codes "Node" ∷ [])
          server).1.world.replicated
        ≡ false)
serve-ReadOnly_example =
    serve-ReadOnly sample sample_redis importer (on_key pb_get)
      (codes "PB.GET" ∷ codes "a" ∷ codes "Node" ∷ []) server
      (beq_false→ne (codes "readonly") (codes "write deny-oom") refl)

import-ok : (serve sample sample_redis importer pb_import a_proto server).0 ≡ ok tt
unfolding serve run_import redis_protobuf.Command.Import.try_import
    redis_protobuf.Command.Import.parse_args
import-ok = refl

serve-IsReplicated_example :
    IsReplicated (serve sample sample_redis importer pb_import a_proto server).1.world
serve-IsReplicated_example =
    serve-IsReplicated sample sample_redis importer pb_import a_proto server refl (λ e. cc e)
      import-ok

pub sample-KeyspaceLaws : KeyspaceLaws sample_redis
sample-KeyspaceLaws = record {
  frame = sample-FrameLaws;
  set_value-succeeds = λ ks key m. (sample_redis.store ks key m, refl);
  seen-set_self = λ ks ks' key m e.
      let p : sample_redis.store ks key m ≡ ks' = cc e in
      subst (λ x. seen sample_redis x key ≡ (ours, some m)) p (rw (beq_refl key) refl);
  seen-store_self = λ ks key m k. rw (beq_refl key) refl;
  seen-delete_self = λ ks key. rw (beq_refl key) refl;
}

-- a and b are set, a is deleted and merged again, b is cleared, and both are read
abbrev ops : List Op
ops =
    set (codes "a") (codes "Node") (codes "hi")
    ∷ set (codes "b") (codes "Node") (codes "x")
    ∷ del (codes "a") (codes "Node")
    ∷ get (codes "b") (codes "Node")
    ∷ get (codes "a") (codes "Node")
    ∷ merge (codes "a") (codes "Node") (codes "y")
    ∷ type_of (codes "a")
    ∷ clear (codes "b") (codes "Other")
    ∷ clear (codes "b") (codes "Node")
    ∷ len (codes "b") (codes "Node")
    ∷ []

node_free : IsNoOption (codes "Node")
unfolding str_case_equal same_upper
node_free = (refl, refl, refl, refl)

plain_name : str_case_equal (codes "Node") (codes "--FORMAT") ≡ false
unfolding str_case_equal same_upper
plain_name = refl

run_ops-Agrees_example :
    Agrees sample sample_redis sample-KeyspaceLaws
      (run_ops sample sample_redis sample-KeyspaceLaws ops empty_world).keys
      (replay sample sample_redis sample-KeyspaceLaws ops (λ j. none))
    × ((run_ops sample sample_redis sample-KeyspaceLaws ops empty_world).replies
        ≡ long_long (pos 1)
          ∷ long_long (pos 1)
          ∷ long_long (pos 1)
          ∷ bulk_string (codes "x")
          ∷ null
          ∷ long_long (pos 0)
          ∷ simple_string (codes "Node")
          ∷ error_answer type_mismatch
          ∷ long_long (pos 1)
          ∷ long_long (pos 0)
          ∷ [])
unfolding create_from create parse_into is_json format_type
run_ops-Agrees_example =
    run_ops-Agrees sample sample_redis sample-KeyspaceLaws ops empty_world (λ j. none)
      (
        node_free,
        (node_free, (tt, (plain_name, (plain_name, (node_free, (tt, (tt, (tt, (tt, tt))))))))),
      )
      (λ j. refl)
