-- ===== src/Command/Registry/Opened.antt =====
-- module_api.cpp, *_command.cpp: the modes with which the commands open their keys. A property of the
-- opened handles that another handle of the command's mode keeps, the whole command keeps.
pub mod Commands
pub mod Signals
use redis_protobuf.Base.{
  ◌≡◌, refl, Bool, true, false, Option, none, some, List, ◌∷◌, Bytes, ℕ, ℤ, arith,
}
use redis_protobuf.Errors.{Outcome, ok, err, abort}
use redis_protobuf.Exec.{Exec, ◌>>=◌, lift, modify}
use redis_protobuf.Exec.Preserves.{
  Preserves, Preserves-pure, Preserves-throw, Preserves-if, Preserves-bind,
}
use redis_protobuf.Path.{FieldPath}
use redis_protobuf.Protobuf.{Protobuf}
use redis_protobuf.ModuleApi.{
  Reply, Redis, World, KeyMode, read_only, write_only, mode_bits, reply, replicate_verbatim,
  answered, catch_errors, open_existing, get_msg_by_key, on_msg,
}
use redis_protobuf.Command.Args.{KeyPath, parse_key_path}
use redis_protobuf.Command.Set
use redis_protobuf.Command.Set.Args.{SetArgs}
use redis_protobuf.Command.Append
use redis_protobuf.Command.Del
use redis_protobuf.Command.Clear
use redis_protobuf.Command.Merge
use redis_protobuf.Command.Get
use redis_protobuf.Command.Get.Args.{GetArgs, parse_args}
use redis_protobuf.Command.Len
use redis_protobuf.Command.TypeName
use redis_protobuf.Command.Registry.{
  Name, pb_type, pb_set, pb_get, pb_clear, pb_len, pb_append, pb_del, pb_schema, pb_merge,
  run_command,
}

module _ (P : Protobuf) (R : Redis P.Msg) (Q : List (Bytes × ℕ) → Type 0) where
  abbrev pub Opens : {A : Type 0} → Exec (World R.Keys) A → Type 0
  Opens m = Preserves (λ w. Q w.opened) m

  abbrev pub Grows : KeyMode → Type 0
  Grows mode = (key : Bytes) (o : List (Bytes × ℕ)) → Q o → Q ((key, mode_bits mode) ∷ o)

  open_existing-Opens :
      (mode : KeyMode) (key : Bytes) → Grows mode → Opens (open_existing R mode key)
  unfolding open_existing
  open_existing-Opens mode key grow = record { at = λ w q. grow key w.opened q }

  pub reply-Opens : (a : Reply) → Opens (reply a)
  reply-Opens a = record { at = λ w q. q }

  pub replicate-Opens : Opens replicate_verbatim
  replicate-Opens = record { at = λ w q. q }

  replying-Opens : (m : Exec (List Reply) (Unit {0})) → Opens (Get.replying P R m)
  replying-Opens m = record { at = λ w q. q }

  lift-Opens : {A : Type 0} (r : Outcome A) → Opens (lift {S = World R.Keys} r)
  lift-Opens r = record { at = λ w q. q }

  pub catch-Opens : (m : Exec (World R.Keys) (Unit {0})) → Opens m → Opens (catch_errors m)
  unfolding catch_errors
  catch-Opens m k = record { at = λ w q. go (m w).0 (m w).1 (k.at w q) }
    where
      go : (o : Outcome (Unit {0})) (v : World R.Keys) → Q v.opened → Q (answered o v).1.opened
      go (ok u) v q = q
      go (err e) v q = q
      go abort v q = q

  get_msg-Opens : (key : Bytes) → Opens (get_msg_by_key R key)
  unfolding get_msg_by_key
  get_msg-Opens key = record { at = λ w q. q }

  on_msg-Opens :
      {A : Type 0} (key : Bytes) (msg : P.Msg) (m : Exec P.Msg A) → Opens (on_msg R key msg m)
  unfolding on_msg
  on_msg-Opens key msg m = record { at = λ w q. q }

  set_value-Opens : (key : Bytes) (m : P.Msg) → Opens (Set.set_value P R key m)
  unfolding Set.set_value
  set_value-Opens key m = record { at = λ w q. go w (R.set_value w.keys key m) refl q }
    where
      go :
          (w : World R.Keys) (o : Option R.Keys)
          → R.set_value w.keys key m ≡ o
          → Q w.opened
          → Q (Set.set_value P R key m w).1.opened
      go w none e q = rw (Set.set_value, e) q
      go w (some ks) e q = rw (Set.set_value, e) q

  set_expire-Opens :
      (key : Bytes) (ms : ℤ) → Opens (modify (λ w. record w { keys = R.set_expire w.keys key ms }))
  set_expire-Opens key ms = record { at = λ w q. q }

  del_key-Opens : (key : Bytes) → Opens (Del.del_key P R key)
  unfolding Del.del_key
  del_key-Opens key = record { at = λ w q. q }

  ruleset opens_rules = (
    Preserves-pure, Preserves-throw, Preserves-if, Preserves-bind, open_existing-Opens, reply-Opens,
    replicate-Opens, replying-Opens, lift-Opens, catch-Opens, get_msg-Opens, on_msg-Opens,
    set_value-Opens, set_expire-Opens, del_key-Opens,
  )

  expire_key-Opens : (key : Bytes) (ms : ℤ) → Opens (Set.expire_key P R key ms)
  expire_key-Opens key ms = unfold Set.expire_key in search opens_rules

  create_msg-Opens :
      (key : Bytes) (path : FieldPath) (val : Bytes) → Opens (Set.create_msg P R key path val)
  create_msg-Opens key path val = unfold Set.create_msg in search opens_rules

  replace_msg-Opens :
      (key : Bytes) (path : FieldPath) (val : Bytes) (m : P.Msg)
      → Opens (Set.replace_msg P R key path val m)
  replace_msg-Opens key path val m = unfold Set.replace_msg in search opens_rules

  set_msg-Opens :
      (key : Bytes) (path : FieldPath) (val : Bytes) → Opens (Set.set_msg P R key path val)
  set_msg-Opens key path val = unfold Set.set_msg in search (opens_rules, replace_msg-Opens)

  -- The branches of the handlers on the key.
  pub set_on-Opens : (args : SetArgs) (found : Bool) → Opens (Set.run_on P R args found)
  set_on-Opens args false =
      unfold Set.run_on in search (opens_rules, create_msg-Opens, expire_key-Opens) depth 7
  set_on-Opens args true =
      unfold Set.run_on in search (opens_rules, set_msg-Opens, expire_key-Opens) depth 7

  pub append_on-Opens :
      (args : Append.AppendArgs) (found : Bool) → Opens (Append.run_on P R args found)
  append_on-Opens args false = unfold Append.run_on in search opens_rules
  append_on-Opens args true = unfold Append.run_on in search opens_rules

  pub reject_root-Opens : (path : FieldPath) → Opens (Append.reject_root P R path)
  reject_root-Opens path = unfold Append.reject_root in search opens_rules

  pub del_on-Opens : (args : KeyPath) (found : Bool) → Opens (Del.run_on P R args found)
  del_on-Opens args false = unfold Del.run_on in search opens_rules
  del_on-Opens args true = unfold Del.run_on Del.del_existing in search opens_rules depth 7

  pub clear_on-Opens : (args : KeyPath) (found : Bool) → Opens (Clear.run_on P R args found)
  clear_on-Opens args false = unfold Clear.run_on in search opens_rules
  clear_on-Opens args true = unfold Clear.run_on Clear.clear_existing in search opens_rules depth 7

  pub get_on-Opens : (args : GetArgs) (found : Bool) → Opens (Get.run_on P R args found)
  get_on-Opens args false = unfold Get.run_on in search opens_rules
  get_on-Opens args true = unfold Get.run_on in search opens_rules

  pub len_on-Opens : (args : KeyPath) (found : Bool) → Opens (Len.run_on P R args found)
  len_on-Opens args false = unfold Len.run_on in search opens_rules
  len_on-Opens args true = unfold Len.run_on in search opens_rules

  pub type_on-Opens : (key : Bytes) (found : Bool) → Opens (TypeName.run_on P R key found)
  type_on-Opens key false = unfold TypeName.run_on in search opens_rules
  type_on-Opens key true = unfold TypeName.run_on in search opens_rules

  pub schema-Opens : (o : Option P.Descriptor) → Opens (TypeName.schema_of P R o)
  schema-Opens none = unfold TypeName.schema_of in search opens_rules
  schema-Opens (some desc) = unfold TypeName.schema_of in search opens_rules

  module _ (grow : Grows write_only) where
    pub run_set-Opens : (argv : List Bytes) → Opens (Set.run_set P R argv)
    run_set-Opens argv = unfold Set.run_set in search (opens_rules, set_on-Opens, grow)

    pub merge_on-Opens :
        (argv : List Bytes) (args : Merge.MergeArgs) (found : Bool)
        → Opens (Merge.run_on P R argv args found)
    merge_on-Opens argv args false = unfold Merge.run_on in search (opens_rules, run_set-Opens)
    merge_on-Opens argv args true = unfold Merge.run_on in search opens_rules depth 7

  -- A handler behind the parser, and behind the opening of its key.
  pub handled :
      {A : Type 0} (o : Outcome A) (f : A → Exec (World R.Keys) (Unit {0}))
      → ((a : A) → Opens (f a))
      → Opens (catch_errors (lift o >>= f))
  handled o f k = catch-Opens _ (Preserves-bind _ _ (lift-Opens o) k)

  pub opening-Opens :
      {A : Type 0} (mode : KeyMode) (key : Bytes)
      → Grows mode
      → (f : Bool → Exec (World R.Keys) A) → ((found : Bool) → Opens (f found))
      → Opens (open_existing R mode key >>= f)
  opening-Opens mode key grow f k = Preserves-bind _ _ (open_existing-Opens mode key grow) k
