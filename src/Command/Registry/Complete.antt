-- ===== src/Command/Registry/Complete.antt =====
-- Every command sends one complete reply.
use redis_protobuf.Base.{
  ◌≡◌, refl, Bool, true, false, Option, none, some, List, [], Bytes, arith, ℤ, pos,
}
use redis_protobuf.Errors.{ok}
use redis_protobuf.Path.{FieldPath}
use redis_protobuf.Protobuf.{Protobuf}
use redis_protobuf.ModuleApi.{
  Redis, World, long_long, simple_string, bulk_string, null, reply, get_msg_by_key,
}
use redis_protobuf.Command.Args.{KeyPath}
use redis_protobuf.Command.Answers.{
  Answers, Silent, Answers-reply, Answers-bind, owed, answer_rules, catch_errors_complete,
}
use redis_protobuf.Command.Set
use redis_protobuf.Command.Set.Args.{SetArgs}
use redis_protobuf.Command.Get.Complete.{AllSized, run_complete}
use redis_protobuf.Command.Append
use redis_protobuf.Command.Del
use redis_protobuf.Command.Clear
use redis_protobuf.Command.Merge
use redis_protobuf.Command.Len
use redis_protobuf.Command.TypeName
use redis_protobuf.Command.Registry.{
  Name, pb_type, pb_set, pb_get, pb_clear, pb_len, pb_append, pb_del, pb_schema, pb_merge,
  run_command,
}

module _ (P : Protobuf) (R : Redis P.Msg) where
  reply_int-Answers : (z : ℤ) → Answers {Keys = R.Keys} (reply (long_long z))
  reply_int-Answers z = Answers-reply (long_long z) refl

  reply_null-Answers : Answers {Keys = R.Keys} (reply null)
  reply_null-Answers = Answers-reply null refl

  set_value-Silent : (key : Bytes) (m : P.Msg) → Silent (Set.set_value P R key m)
  unfolding Set.set_value
  set_value-Silent key m = record { at = λ w. ground arith }

  expire_key-Silent : (key : Bytes) (ms : ℤ) → Silent (Set.expire_key P R key ms)
  unfolding Set.expire_key
  expire_key-Silent key ms = record { at = λ w. ground arith }

  create_msg-Silent :
      (key : Bytes) (path : FieldPath) (val : Bytes) → Silent (Set.create_msg P R key path val)
  unfolding Set.create_msg
  create_msg-Silent key path val = search (answer_rules, set_value-Silent)

  replace_msg-Silent :
      (key : Bytes) (path : FieldPath) (val : Bytes) (m : P.Msg)
      → Silent (Set.replace_msg P R key path val m)
  replace_msg-Silent key path val m =
      unfold Set.replace_msg in search (answer_rules, set_value-Silent)

  set_msg-Silent :
      (key : Bytes) (path : FieldPath) (val : Bytes) → Silent (Set.set_msg P R key path val)
  set_msg-Silent key path val = unfold Set.set_msg in search (answer_rules, replace_msg-Silent)

  set_on-Silent : (args : SetArgs) (found : Bool) → Silent (Set.run_on P R args found)
  set_on-Silent args false =
      unfold Set.run_on in search (answer_rules, create_msg-Silent, expire_key-Silent) depth 7
  set_on-Silent args true =
      unfold Set.run_on in search (answer_rules, set_msg-Silent, expire_key-Silent) depth 7

  run_set-Silent : (argv : List Bytes) → Silent (Set.run_set P R argv)
  run_set-Silent argv = unfold Set.run_set in search (answer_rules, set_on-Silent)

  append_on-Silent :
      (args : Append.AppendArgs) (found : Bool) → Silent (Append.run_on P R args found)
  append_on-Silent args false = unfold Append.run_on in search (answer_rules, set_value-Silent)
  append_on-Silent args true = unfold Append.run_on in search (answer_rules)

  reject_root-Silent : (path : FieldPath) → Silent (Append.reject_root P R path)
  reject_root-Silent path = unfold Append.reject_root in search answer_rules

  del_key-Silent : (key : Bytes) → Silent (Del.del_key P R key)
  unfolding Del.del_key
  del_key-Silent key = record { at = λ w. refl }

  del_existing-Silent : (args : KeyPath) (m : P.Msg) → Silent (Del.del_existing P R args m)
  del_existing-Silent args m = unfold Del.del_existing in search (answer_rules, del_key-Silent)

  del_on-Answers : (args : KeyPath) (found : Bool) → Answers (Del.run_on P R args found)
  unfolding Del.run_on
  del_on-Answers args false = reply_int-Answers (pos 0)
  del_on-Answers args true = search (answer_rules, del_existing-Silent, reply_int-Answers)

  clear_existing-Silent : (args : KeyPath) (m : P.Msg) → Silent (Clear.clear_existing P R args m)
  clear_existing-Silent args m = unfold Clear.clear_existing in search answer_rules

  clear_on-Answers : (args : KeyPath) (found : Bool) → Answers (Clear.run_on P R args found)
  unfolding Clear.run_on
  clear_on-Answers args false = reply_int-Answers (pos 0)
  clear_on-Answers args true = search (answer_rules, clear_existing-Silent, reply_int-Answers)

  merge_on-Answers :
      (argv : List Bytes) (args : Merge.MergeArgs) (found : Bool)
      → Answers (Merge.run_on P R argv args found)
  unfolding Merge.run_on
  merge_on-Answers argv args false = search (answer_rules, run_set-Silent, reply_int-Answers)
  merge_on-Answers argv args true = search (answer_rules, reply_int-Answers)

  len_on-Answers : (args : KeyPath) (found : Bool) → Answers (Len.run_on P R args found)
  unfolding Len.run_on
  len_on-Answers args false = reply_int-Answers (pos 0)
  len_on-Answers args true = search (answer_rules, reply_int-Answers)

  type_on-Answers : (key : Bytes) (found : Bool) → Answers (TypeName.run_on P R key found)
  unfolding TypeName.run_on
  type_on-Answers key false = reply_null-Answers
  type_on-Answers key true =
      Answers-bind (get_msg_by_key R key) _ (record { at = λ w. unfold get_msg_by_key in refl })
        (λ msg. Answers-reply (simple_string _) refl)

  schema-Answers : (o : Option P.Descriptor) → Answers (TypeName.schema_of P R o)
  unfolding TypeName.schema_of
  schema-Answers none = reply_null-Answers
  schema-Answers (some desc) = Answers-reply (bulk_string (P.debug_string desc)) refl

  -- If the map fields of the stored messages, at every place of a message, have as many elements as keys, every command that returns to Redis, with no reply
  -- sent before it, has sent one complete reply: an integer, a string, a null, an array with its
  -- items, or one error, also where an error strikes halfway.
  pub run_command_complete :
      (name : Name) (argv : List Bytes) (w : World R.Keys)
      → AllSized P R w.keys
      → w.replies ≡ []
      → (run_command P R name argv w).0 ≡ ok tt
      → owed 1 (run_command P R name argv w).1.replies ≡ some 0
  unfolding run_command
  run_command_complete pb_get argv w laws = run_complete P R argv w laws
  run_command_complete pb_type argv w laws =
      unfold TypeName.run_type in catch_errors_complete _ w (search (answer_rules, type_on-Answers))
  run_command_complete pb_set argv w laws =
      unfold Set.run in
      catch_errors_complete _ w (search (answer_rules, run_set-Silent, reply_int-Answers))
  run_command_complete pb_clear argv w laws =
      unfold Clear.run in
      catch_errors_complete _ w (search (answer_rules, clear_on-Answers) depth 7)
  run_command_complete pb_len argv w laws =
      unfold Len.run in catch_errors_complete _ w (search (answer_rules, len_on-Answers))
  run_command_complete pb_append argv w laws =
      unfold Append.run in
      catch_errors_complete _ w
        (search (answer_rules, reject_root-Silent, append_on-Silent, reply_int-Answers) depth 9)
  run_command_complete pb_del argv w laws =
      unfold Del.run in catch_errors_complete _ w (search (answer_rules, del_on-Answers) depth 7)
  run_command_complete pb_schema argv w laws =
      unfold TypeName.run_schema in
      catch_errors_complete _ w (search (answer_rules, schema-Answers))
  run_command_complete pb_merge argv w laws =
      unfold Merge.run in catch_errors_complete _ w (search (answer_rules, merge_on-Answers))
