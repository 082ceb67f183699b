-- ===== src/Command/Registry/Opened/Commands.antt =====
-- *_command.cpp: the handles that each command opens.
use redis_protobuf.Base.{List, Bytes, ℕ}
use redis_protobuf.Exec.Preserves.{Preserves-bind}
use redis_protobuf.Protobuf.{Protobuf}
use redis_protobuf.ModuleApi.{Redis, KeyMode, read_only, write_only}
use redis_protobuf.Command.Args.{parse_key_path}
use redis_protobuf.Command.Set
use redis_protobuf.Command.Append
use redis_protobuf.Command.Del
use redis_protobuf.Command.Clear
use redis_protobuf.Command.Merge
use redis_protobuf.Command.Get
use redis_protobuf.Command.Get.Args.{parse_args}
use redis_protobuf.Command.Len
use redis_protobuf.Command.TypeName
use redis_protobuf.Command.Registry.{
  Name, pb_type, pb_set, pb_get, pb_clear, pb_len, pb_append, pb_del, pb_schema, pb_merge,
  run_command,
}
use redis_protobuf.Command.Registry.Opened.{
  Grows, Opens, append_on-Opens, catch-Opens, clear_on-Opens, del_on-Opens, get_on-Opens, handled,
  len_on-Opens, merge_on-Opens, opening-Opens, reject_root-Opens, replicate-Opens, reply-Opens,
  run_set-Opens, schema-Opens, type_on-Opens,
}

-- the mode of the open_key of a handler (PB.SCHEMA has none)
abbrev pub opening_mode : Name → KeyMode
opening_mode pb_set = write_only
opening_mode pb_append = write_only
opening_mode pb_del = write_only
opening_mode pb_merge = write_only
opening_mode _ = read_only

module _ (P : Protobuf) (R : Redis P.Msg) (Q : List (Bytes × ℕ) → Type 0) where
  pub run_command-Opens :
      (name : Name) (argv : List Bytes)
      → Grows P R Q (opening_mode name)
      → Opens P R Q (run_command P R name argv)
  unfolding run_command
  run_command-Opens pb_set argv grow =
      unfold Set.run in
      catch-Opens P R Q _ (
        Preserves-bind _ _ (run_set-Opens P R Q grow argv)
          (λ n. Preserves-bind _ _ (reply-Opens P R Q _) (λ _. replicate-Opens P R Q)))
  run_command-Opens pb_append argv grow =
      unfold Append.run in
      handled P R Q (Append.parse_args argv) _ (λ args.
        Preserves-bind _ _ (reject_root-Opens P R Q args.path) (λ _.
          opening-Opens P R Q write_only args.key_name grow _ (λ found.
            Preserves-bind _ _ (append_on-Opens P R Q args found)
              (λ n. Preserves-bind _ _ (reply-Opens P R Q _) (λ _. replicate-Opens P R Q)))))
  run_command-Opens pb_del argv grow =
      unfold Del.run in
      handled P R Q (parse_key_path argv) _ (λ args.
        opening-Opens P R Q write_only args.key_name grow _ (λ found.
          Preserves-bind _ _ (del_on-Opens P R Q args found) (λ _. replicate-Opens P R Q)))
  run_command-Opens pb_clear argv grow =
      unfold Clear.run in
      handled P R Q (parse_key_path argv) _ (λ args.
        opening-Opens P R Q read_only args.key_name grow _ (λ found.
          Preserves-bind _ _ (clear_on-Opens P R Q args found) (λ _. replicate-Opens P R Q)))
  run_command-Opens pb_merge argv grow =
      unfold Merge.run in
      handled P R Q (Merge.parse_args argv) _ (λ args.
        opening-Opens P R Q write_only args.key_name grow _ (merge_on-Opens P R Q grow argv args))
  run_command-Opens pb_get argv grow =
      unfold Get.run in
      handled P R Q (parse_args argv) _
        (λ args. opening-Opens P R Q read_only args.key_name grow _ (get_on-Opens P R Q args))
  run_command-Opens pb_len argv grow =
      unfold Len.run in
      handled P R Q (parse_key_path argv) _
        (λ args. opening-Opens P R Q read_only args.key_name grow _ (len_on-Opens P R Q args))
  run_command-Opens pb_type argv grow =
      unfold TypeName.run_type in
      handled P R Q (TypeName.parse_one argv) _
        (λ key. opening-Opens P R Q read_only key grow _ (type_on-Opens P R Q key))
  run_command-Opens pb_schema argv grow =
      unfold TypeName.run_schema in
      handled P R Q (TypeName.parse_one argv) _
        (λ type. schema-Opens P R Q (P.find_message_type type))
