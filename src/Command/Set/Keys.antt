-- ===== src/Command/Set/Keys.antt =====
-- set_command.cpp: what SetCommand::_run returns and leaves in the keyspace is a matter of the keyspace alone.
use redis_protobuf.Base.{refl, ap, Bool, true, false, Option-cases, inl, inr, List, Bytes, ℤ}
use redis_protobuf.Exec.{Exec, modify}
use redis_protobuf.Exec.Keeps.{Within, within_rules}
use redis_protobuf.Path.{FieldPath}
use redis_protobuf.Protobuf.{Protobuf}
use redis_protobuf.ModuleApi.{Redis, World, KeyMode, open_existing, get_msg_by_key, on_msg}
use redis_protobuf.Command.Set
use redis_protobuf.Command.Set.Args.{SetArgs}

module _ (P : Protobuf) (R : Redis P.Msg) where
  abbrev InKeys : {A : Type 0} → Exec (World R.Keys) A → Type 0
  InKeys m = Within (λ w. w.keys) m

  open_existing-InKeys : (mode : KeyMode) (key : Bytes) → InKeys (open_existing R mode key)
  unfolding open_existing
  open_existing-InKeys mode key = record { at = λ v w h. rw h (refl, refl) }

  get_msg-InKeys : (key : Bytes) → InKeys (get_msg_by_key R key)
  unfolding get_msg_by_key
  get_msg-InKeys key = record { at = λ v w h. rw h (refl, refl) }

  on_msg-InKeys :
      {A : Type 0} (key : Bytes) (msg : P.Msg) (m : Exec P.Msg A) → InKeys (on_msg R key msg m)
  unfolding on_msg
  on_msg-InKeys key msg m = record { at = λ v w h. rw h (refl, refl) }

  set_value-InKeys : (key : Bytes) (m : P.Msg) → InKeys (Set.set_value P R key m)
  unfolding Set.set_value
  set_value-InKeys key m = record {
    at = λ v w h. elim (Option-cases (R.set_value w.keys key m)) [
      | inl e ↦ rw (h, Set.set_value, e) (refl, h)
      | inr (ks, e) ↦ rw (h, Set.set_value, e) (refl, refl)
    ];
  }

  set_expire-InKeys :
      (key : Bytes) (ms : ℤ) → InKeys (modify (λ w. record w { keys = R.set_expire w.keys key ms }))
  set_expire-InKeys key ms = record { at = λ v w h. (refl, ap (λ ks. R.set_expire ks key ms) h) }

  expire_key-InKeys : (key : Bytes) (ms : ℤ) → InKeys (Set.expire_key P R key ms)
  unfolding Set.expire_key
  expire_key-InKeys key ms = search (within_rules, set_expire-InKeys)

  ruleset in_keys = (
    within_rules, open_existing-InKeys, get_msg-InKeys, on_msg-InKeys, set_value-InKeys,
    expire_key-InKeys,
  )

  create_msg-InKeys :
      (key : Bytes) (path : FieldPath) (val : Bytes) → InKeys (Set.create_msg P R key path val)
  create_msg-InKeys key path val = unfold Set.create_msg in search in_keys

  replace_msg-InKeys :
      (key : Bytes) (path : FieldPath) (val : Bytes) (m : P.Msg)
      → InKeys (Set.replace_msg P R key path val m)
  replace_msg-InKeys key path val m = unfold Set.replace_msg in search in_keys

  set_msg-InKeys :
      (key : Bytes) (path : FieldPath) (val : Bytes) → InKeys (Set.set_msg P R key path val)
  set_msg-InKeys key path val = unfold Set.set_msg in search (in_keys, replace_msg-InKeys)

  set_on-InKeys : (args : SetArgs) (found : Bool) → InKeys (Set.run_on P R args found)
  set_on-InKeys args false = unfold Set.run_on in search (in_keys, create_msg-InKeys) depth 7
  set_on-InKeys args true = unfold Set.run_on in search (in_keys, set_msg-InKeys) depth 7

  pub run_set-InKeys : (argv : List Bytes) → InKeys (Set.run_set P R argv)
  run_set-InKeys argv = unfold Set.run_set in search (in_keys, set_on-InKeys)
