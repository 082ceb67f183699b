-- ===== src/Command/Merge/Missing.antt =====
-- PB.MERGE of a key that is missing.
use redis_protobuf.Base.{◌≡◌, ◌∙◌, ◌∷◌, refl, Bool, true, false, List, Bytes, arith, ℤ}
use redis_protobuf.Errors.{ok}
use redis_protobuf.Exec.{Exec}
use redis_protobuf.Exec.Keeps.{Keeps, keeps_rules}
use redis_protobuf.Path.{FieldPath}
use redis_protobuf.Protobuf.{Protobuf}
use redis_protobuf.ModuleApi.{
  Redis, World, missing, catch_errors, KeyMode, open_existing, get_msg_by_key, on_msg,
}
use redis_protobuf.Command.Set.{run_set}
use redis_protobuf.Command.Set
use redis_protobuf.Command.Set.Keys.{run_set-InKeys}
use redis_protobuf.Command.Set.Args.{SetArgs}
use redis_protobuf.Command.Merge.{MergeArgs, parse_args, run_on, run}

module _ (P : Protobuf) (R : Redis P.Msg) where
  abbrev IsUnreplicated : {A : Type 0} → Exec (World R.Keys) A → Type 0
  IsUnreplicated m = Keeps (λ w. w.replicated) m

  open_existing-Unreplicated :
      (mode : KeyMode) (key : Bytes) → IsUnreplicated (open_existing R mode key)
  unfolding open_existing
  open_existing-Unreplicated mode key = record { at = λ w. refl }

  get_msg-Unreplicated : (key : Bytes) → IsUnreplicated (get_msg_by_key R key)
  unfolding get_msg_by_key
  get_msg-Unreplicated key = record { at = λ w. refl }

  on_msg-Unreplicated :
      {A : Type 0} (key : Bytes) (msg : P.Msg) (m : Exec P.Msg A)
      → IsUnreplicated (on_msg R key msg m)
  unfolding on_msg
  on_msg-Unreplicated key msg m = record { at = λ w. refl }

  set_value-Unreplicated : (key : Bytes) (m : P.Msg) → IsUnreplicated (Set.set_value P R key m)
  unfolding Set.set_value
  set_value-Unreplicated key m = record { at = λ w. ground arith }

  expire_key-Unreplicated : (key : Bytes) (ms : ℤ) → IsUnreplicated (Set.expire_key P R key ms)
  unfolding Set.expire_key
  expire_key-Unreplicated key ms = record { at = λ w. ground arith }

  ruleset unreplicated = (
    keeps_rules, open_existing-Unreplicated, get_msg-Unreplicated, on_msg-Unreplicated,
    set_value-Unreplicated, expire_key-Unreplicated,
  )

  create_msg-Unreplicated :
      (key : Bytes) (path : FieldPath) (val : Bytes)
      → IsUnreplicated (Set.create_msg P R key path val)
  create_msg-Unreplicated key path val = unfold Set.create_msg in search unreplicated

  replace_msg-Unreplicated :
      (key : Bytes) (path : FieldPath) (val : Bytes) (m : P.Msg)
      → IsUnreplicated (Set.replace_msg P R key path val m)
  replace_msg-Unreplicated key path val m = unfold Set.replace_msg in search unreplicated

  set_msg-Unreplicated :
      (key : Bytes) (path : FieldPath) (val : Bytes) → IsUnreplicated (Set.set_msg P R key path val)
  set_msg-Unreplicated key path val =
      unfold Set.set_msg in search (unreplicated, replace_msg-Unreplicated)

  set_on-Unreplicated : (args : SetArgs) (found : Bool) → IsUnreplicated (Set.run_on P R args found)
  set_on-Unreplicated args false =
      unfold Set.run_on in search (unreplicated, create_msg-Unreplicated) depth 7
  set_on-Unreplicated args true =
      unfold Set.run_on in search (unreplicated, set_msg-Unreplicated) depth 7

  -- SetCommand::_run does not replicate: its caller does, or does not.
  run_set-Unreplicated : (argv : List Bytes) → IsUnreplicated (Set.run_set P R argv)
  run_set-Unreplicated argv = unfold Set.run_set in search (unreplicated, set_on-Unreplicated)

  -- If PB.MERGE's arguments are valid, its key is missing and the handler of PB.SET succeeds with the
  -- same arguments, then PB.MERGE leaves the keyspace that PB.SET leaves, but PB.SET replicates the
  -- command and PB.MERGE does not.
  pub merge_missing :
      (argv : List Bytes) (args : MergeArgs) (w : World R.Keys) {n : ℤ}
      → parse_args argv ≡ ok args
      → R.key_kind w.keys args.key_name ≡ missing
      → (run_set P R argv w).0 ≡ ok n
      → ((run P R argv w).1.keys ≡ (Set.run P R argv w).1.keys)
        × ((run P R argv w).1.replicated ≡ w.replicated)
        × ((Set.run P R argv w).1.replicated ≡ true)
  merge_missing argv args w {n} e k h =
      let v : World R.Keys = record w { opened = (args.key_name, 2) ∷ w.opened } in
      let (same, keys) = (run_set-InKeys P R argv).at v w refl in
      let o : (run_set P R argv v).0 ≡ ok n = same ∙ h in
      (
        unfold run run_on catch_errors open_existing Set.run in rw (e, k, h, o) keys,
        unfold run run_on catch_errors open_existing in
            rw (e, k, o) ((run_set-Unreplicated argv).at v),
        unfold catch_errors Set.run in rw h,
      )
