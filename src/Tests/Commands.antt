-- ===== src/Tests/Commands.antt =====
-- Commands run in a keyspace with messages of the sample type.
use redis_protobuf.Base.{
  inl, ◌≡◌, refl, sym, ap, beq, if◌then◌else◌, codes, List, [], ◌∷◌, Bytes, some, true, false, pos,
}
use redis_protobuf.Errors.{ok, err, unknown_type}
use redis_protobuf.Utils.{str_case_equal, same_upper}
use redis_protobuf.Path.{FieldPath, of_path, parse_fields, cut}
use redis_protobuf.Protobuf.{string, string_key, same_type}
use redis_protobuf.FieldRef.{
  map_key_type, parse_key, construct, walk, advance, descend, descend_index, select, find_field,
  read, expect,
}
use redis_protobuf.FieldRef.Access.{size, get_repeated_value}
use redis_protobuf.ProtoFactory.{create, create_from, is_json, parse_into}
use redis_protobuf.ModuleApi.{mode_bits, write_only, open_existing, get_msg_by_key, catch_errors}
use redis_protobuf.Command.Registry.{pb_get, run_command}
use redis_protobuf.Command.Get
use redis_protobuf.Command.Get.Args as GetArgs
use redis_protobuf.Command.Get.Field as GetField
use redis_protobuf.Command.Set
use redis_protobuf.Command.Set.Args
use redis_protobuf.Command.Set.Atomic.{run_set_unchanged}
use redis_protobuf.Command.Merge
use redis_protobuf.Command.Merge.Missing.{merge_missing}
use redis_protobuf.Command.Append.{append_at}
use redis_protobuf.Command.Append.Elements.{append_at-add_all, add_all}
use redis_protobuf.Command.Convert.{convert}
use redis_protobuf.Command.Append.Text.{append_at_text}
use redis_protobuf.Command.Len.{len_at}
use redis_protobuf.Command.Len.Elements.{len_at_map_key}
use redis_protobuf.Command.Clear.{clear_at}
use redis_protobuf.Command.Clear.MapKey.{clear_at_map_key}
use redis_protobuf.Persistence.{
  rdb_save, rdb_load, aof_rewrite, encoding_version, serialize_message,
}
use redis_protobuf.Persistence.Rdb.{rdb_load-rdb_save}
use redis_protobuf.Persistence.Aof.{run-aof_rewrite}
use redis_protobuf.Sample.{text, sample, sample_redis, SampleKeys, words, table, some_node, one_key}
use redis_protobuf.Sample.Laws.{size-add_word, sample-AccessLaws}
use redis_protobuf.Sample.Serial.{plain_node, plain-SerialLaws}

-- PB.GET a Node /nums
abbrev get_nums : List Bytes
get_nums = codes "PB.GET" ∷ codes "a" ∷ codes "Node" ∷ codes "/nums" ∷ []

get_nums-ok : (run_command sample sample_redis pb_get get_nums one_key).0 ≡ ok tt
unfolding run_command Get.run Get.run_on Get.reply_with_msg get_msg_by_key GetArgs.parse_args
    GetArgs.parse_opts GetArgs.parse_rest GetArgs.parse_format catch_errors open_existing
    str_case_equal same_upper of_path parse_fields cut construct walk advance descend descend_index
    select find_field read GetField.get_field GetField.get_field_with GetField.get_array
    GetField.reply_elements size get_repeated_value expect same_type GetField.reply_value
get_nums-ok = refl

append_at-add_all_example :
    append_at sample
      (record { type = codes "Node"; fields = codes "words" ∷ [] })
      (codes "b" ∷ codes "c" ∷ [])
      plain_node
    ≡ (ok 2, add_all sample words plain_node (codes "b" ∷ codes "c" ∷ []))
unfolding convert
append_at-add_all_example =
    append_at-add_all sample words refl plain_node (codes "words") (codes "b" ∷ codes "c" ∷ [])
      (codes "b" ∷ codes "c" ∷ []) size-add_word refl refl refl

clear_at_map_key_example :
    clear_at sample
      (record { type = codes "Node"; fields = codes "table" ∷ codes "k" ∷ [] })
      some_node
    ≡ (ok tt, sample.clear_field some_node table)
unfolding map_key_type parse_key
clear_at_map_key_example =
    clear_at_map_key sample some_node (codes "table") (codes "k") table string
      (string_key (codes "k")) refl refl refl refl

abbrev saved_node : List Bytes
saved_node = codes "Node" ∷ codes "hi" ∷ []

rdb_load-rdb_save_example :
    rdb_load sample encoding_version (codes "Node" ∷ codes "hi" ∷ codes "next" ∷ [])
    ≡ (ok plain_node, codes "next" ∷ [])
unfolding rdb_save serialize_message
rdb_load-rdb_save_example =
    rdb_load-rdb_save sample plain_node saved_node (codes "next" ∷ []) plain-SerialLaws refl

-- PB.SET z, of a type and with the value hi
abbrev set_z : Bytes → List Bytes
set_z type = codes "PB.SET" ∷ codes "z" ∷ type ∷ codes "hi" ∷ []

abbrev args_z : Bytes → Set.Args.SetArgs
args_z type = record {
  key_name = codes "z";
  opt = Set.Args.any;
  expire = pos 0;
  path = record { type = type; fields = [] };
  val = codes "hi";
}

parse_other : Set.Args.parse_args (set_z (codes "Other")) ≡ ok (args_z (codes "Other"))
unfolding Set.Args.parse_args Set.Args.parse_opts Set.Args.parse_rest str_case_equal same_upper
parse_other = refl

set_other_fails :
    (Set.run_set sample sample_redis (set_z (codes "Other")) one_key).0
    ≡ err (unknown_type (codes "Other"))
unfolding Set.run_set Set.run_on Set.create_msg Set.new_msg create_from create open_existing
    Set.Args.parse_args Set.Args.parse_opts Set.Args.parse_rest str_case_equal same_upper
set_other_fails = refl

run_set_unchanged_example :
    (Set.run_set sample sample_redis (set_z (codes "Other")) one_key).1
    ≡ record one_key { opened = (codes "z", mode_bits write_only) ∷ [] }
run_set_unchanged_example =
    run_set_unchanged sample sample_redis (set_z (codes "Other")) (args_z (codes "Other")) one_key
      parse_other (inl refl) set_other_fails

set_node_succeeds : (Set.run_set sample sample_redis (set_z (codes "Node")) one_key).0 ≡ ok (pos 1)
unfolding Set.run_set Set.run_on Set.create_msg Set.set_value Set.expire_key Set.new_msg create_from
    create parse_into is_json open_existing Set.Args.parse_args Set.Args.parse_opts
    Set.Args.parse_rest str_case_equal same_upper
set_node_succeeds = refl

abbrev merge_z : Merge.MergeArgs
merge_z = record {
  key_name = codes "z";
  path = record { type = codes "Node"; fields = [] };
  val = codes "hi";
}

parse_merge : Merge.parse_args (set_z (codes "Node")) ≡ ok merge_z
unfolding Merge.parse_args
parse_merge = refl

merge_missing_example :
    ((Merge.run sample sample_redis (set_z (codes "Node")) one_key).1.keys
      ≡ (Set.run sample sample_redis (set_z (codes "Node")) one_key).1.keys)
    × ((Merge.run sample sample_redis (set_z (codes "Node")) one_key).1.replicated ≡ false)
    × ((Set.run sample sample_redis (set_z (codes "Node")) one_key).1.replicated ≡ true)
merge_missing_example =
    merge_missing sample sample_redis (set_z (codes "Node")) merge_z one_key parse_merge refl
      set_node_succeeds

abbrev stored_z : SampleKeys
stored_z = record one_key.keys {
  messages = λ j. if beq j (codes "z") then some plain_node else one_key.keys.messages j;
}

run-aof_rewrite_example :
    (Set.run sample sample_redis (set_z (codes "Node")) one_key).1.keys ≡ stored_z
unfolding aof_rewrite serialize_message str_case_equal same_upper is_json
run-aof_rewrite_example =
    run-aof_rewrite sample sample_redis (codes "z") plain_node (set_z (codes "Node")) one_key
      stored_z plain-SerialLaws (refl, refl, refl, refl) plain_text refl refl refl
  where
    plain_text : (s : Bytes) → some (codes "hi") ≡ some s → is_json s ≡ false
    plain_text s e = let d : codes "hi" ≡ s = cc e in ap is_json (sym d)

-- /wide of a Node
abbrev wide_path : FieldPath
wide_path = record { type = codes "Node"; fields = codes "wide" ∷ [] }

abbrev text_path : FieldPath
text_path = record { type = codes "Node"; fields = codes "text" ∷ [] }

-- PB.APPEND z Node /text a bc
text_appended :
    ((append_at sample
        (record { type = codes "Node"; fields = codes "text" ∷ [] })
        (codes "a" ∷ codes "bc" ∷ [])
        some_node).0
      ≡ ok 5)
    × (sample.get string
          (append_at sample
            (record { type = codes "Node"; fields = codes "text" ∷ [] })
            (codes "a" ∷ codes "bc" ∷ [])
            some_node).1
          text
        ≡ codes "hiabc")
text_appended =
    append_at_text sample text sample-AccessLaws some_node (codes "text")
      (codes "a" ∷ codes "bc" ∷ []) refl refl refl

map_key_counted :
    len_at sample
      (record { type = codes "Node"; fields = codes "table" ∷ codes "k" ∷ [] })
      some_node
    ≡ (ok 2, some_node)
unfolding map_key_type parse_key
map_key_counted =
    len_at_map_key sample some_node (codes "table") (codes "k") table string
      (string_key (codes "k")) refl refl refl refl refl refl
