-- ===== src/Command/Registry/Local.antt =====
-- What a command does to the keys that it does not name.
pub mod Keys
use redis_protobuf.Command.Registry.Local.Keys.{
  set_args-key, append_args-key, key_path-key, merge_args-key,
}
use redis_protobuf.Base.{
  ◌≡◌, ◌≢◌, refl, sym, ap, ◌∙◌, Bool, true, false, Option, Option-cases, none, some, inl, inr, List,
  [], ◌∷◌, Bytes, ℤ, arith,
}
use redis_protobuf.Errors.{Outcome, ok, err, abort, >>=-ok}
use redis_protobuf.Exec.{Exec, lift, ◌>>=◌, continue}
use redis_protobuf.Exec.Keeps.{Keeps, keeps_rules, Keeps-bind}
use redis_protobuf.Path.{FieldPath}
use redis_protobuf.Protobuf.{Protobuf}
use redis_protobuf.ModuleApi.{
  Redis, World, KeyKind, Reply, reply, replicate_verbatim, answered, catch_errors, KeyMode,
  write_only, open_existing, get_msg_by_key, on_msg,
}
use redis_protobuf.Command.Args.{KeyPath, parse_key_path}
use redis_protobuf.Command.Set
use redis_protobuf.Command.Set.Args as SetArgs
use redis_protobuf.Command.Append
use redis_protobuf.Command.Del
use redis_protobuf.Command.Clear
use redis_protobuf.Command.Merge
use redis_protobuf.Command.Registry.{
  Name, pb_type, pb_set, pb_get, pb_clear, pb_len, pb_append, pb_del, pb_schema, pb_merge, is_write,
  run_command,
}
use redis_protobuf.Command.Registry.ReadOnly.{run_command-ReadOnly}

-- What a client sees of a key.
abbrev pub seen : {Msg : Type 0} (R : Redis Msg) → R.Keys → Bytes → KeyKind × Option Msg
seen R ks j = (R.key_kind ks j, R.value ks j)

-- What Redis documents of the calls that change the keyspace: they change no other key.
pub record FrameLaws {Msg : Type 0} (R : Redis Msg) : Type 0 where
  pub seen-store :
      (ks : R.Keys) (key : Bytes) (m : Msg) (j : Bytes)
      → j ≢ key
      → seen R (R.store ks key m) j ≡ seen R ks j
  pub seen-set_value :
      (ks ks' : R.Keys) (key : Bytes) (m : Msg) (j : Bytes)
      → R.set_value ks key m ≡ some ks'
      → j ≢ key
      → seen R ks' j ≡ seen R ks j
  pub seen-delete_key :
      (ks : R.Keys) (key j : Bytes) → j ≢ key → seen R (R.delete_key ks key) j ≡ seen R ks j
  pub seen-set_expire :
      (ks : R.Keys) (key : Bytes) (ms : ℤ) (j : Bytes)
      → j ≢ key
      → seen R (R.set_expire ks key ms) j ≡ seen R ks j

module _ (P : Protobuf) (R : Redis P.Msg) (laws : FrameLaws R) (j : Bytes) where
  -- Code that leaves `j` as it is.
  abbrev Spares : {A : Type 0} → Exec (World R.Keys) A → Type 0
  Spares m = Keeps (λ w. seen R w.keys j) m

  -- What the arguments say is known behind the parser.
  Spares-parse :
      {A B : Type 0} (o : Outcome A) (f : A → Exec (World R.Keys) B)
      → ((a : A) → o ≡ ok a → Spares (f a))
      → Spares (lift o >>= f)
  Spares-parse (ok a) f k = record { at = λ w. (k a refl).at w }
  Spares-parse (err e) f k = record { at = λ w. refl }
  Spares-parse abort f k = record { at = λ w. refl }

  Spares-catch : (m : Exec (World R.Keys) (Unit {0})) → Spares m → Spares (catch_errors m)
  unfolding catch_errors
  Spares-catch m k = record { at = λ w. go (m w).0 (m w).1 ∙ k.at w }
    where
      go :
          (o : Outcome (Unit {0})) (v : World R.Keys)
          → seen R (answered o v).1.keys j ≡ seen R v.keys j
      go (ok u) v = refl
      go (err e) v = refl
      go abort v = refl

  Spares-reply : (a : Reply) → Spares (reply a)
  Spares-reply a = record { at = λ w. refl }

  Spares-replicate : Spares replicate_verbatim
  Spares-replicate = record { at = λ w. refl }

  open_existing-Spares : (mode : KeyMode) (key : Bytes) → Spares (open_existing R mode key)
  unfolding open_existing
  open_existing-Spares mode key = record { at = λ w. refl }

  get_msg-Spares : (key : Bytes) → Spares (get_msg_by_key R key)
  unfolding get_msg_by_key
  get_msg-Spares key = record { at = λ w. refl }

  on_msg-Spares :
      {A : Type 0} (key : Bytes) (msg : P.Msg) (m : Exec P.Msg A)
      → j ≢ key
      → Spares (on_msg R key msg m)
  unfolding on_msg
  on_msg-Spares key msg m ne = record { at = λ w. laws.seen-store w.keys key (m msg).1 j ne }

  set_value-Spares : (key : Bytes) (m : P.Msg) → j ≢ key → Spares (Set.set_value P R key m)
  unfolding Set.set_value
  set_value-Spares key m ne = record { at = λ w. go w (R.set_value w.keys key m) refl }
    where
      go :
          (w : World R.Keys) (o : Option R.Keys)
          → R.set_value w.keys key m ≡ o
          → seen R (Set.set_value P R key m w).1.keys j ≡ seen R w.keys j
      go w none e = rw (Set.set_value, e) refl
      go w (some ks) e = rw (Set.set_value, e) (laws.seen-set_value w.keys ks key m j e ne)

  expire_key-Spares : (key : Bytes) (ms : ℤ) → j ≢ key → Spares (Set.expire_key P R key ms)
  unfolding Set.expire_key
  expire_key-Spares key ms ne = record {
    at = λ w. ground (arith, laws.seen-set_expire w.keys key ms j ne);
  }

  del_key-Spares : (key : Bytes) → j ≢ key → Spares (Del.del_key P R key)
  unfolding Del.del_key
  del_key-Spares key ne = record { at = λ w. laws.seen-delete_key w.keys key j ne }

  ruleset spares = (
    keeps_rules, Spares-reply, Spares-replicate, open_existing-Spares, get_msg-Spares,
    on_msg-Spares, set_value-Spares, expire_key-Spares, del_key-Spares,
  )

  module _ (key : Bytes) (ne : j ≢ key) where
    create_msg-Spares : (path : FieldPath) (val : Bytes) → Spares (Set.create_msg P R key path val)
    create_msg-Spares path val = unfold Set.create_msg in search spares

    replace_msg-Spares :
        (path : FieldPath) (val : Bytes) (m : P.Msg) → Spares (Set.replace_msg P R key path val m)
    replace_msg-Spares path val m = unfold Set.replace_msg in search spares

    set_msg-Spares : (path : FieldPath) (val : Bytes) → Spares (Set.set_msg P R key path val)
    set_msg-Spares path val = unfold Set.set_msg in search (spares, replace_msg-Spares)

  set_on-Spares :
      (args : SetArgs.SetArgs) (found : Bool)
      → j ≢ args.key_name
      → Spares (Set.run_on P R args found)
  set_on-Spares args false ne = unfold Set.run_on in search (spares, create_msg-Spares) depth 7
  set_on-Spares args true ne = unfold Set.run_on in search (spares, set_msg-Spares) depth 7

  append_on-Spares :
      (args : Append.AppendArgs) (found : Bool)
      → j ≢ args.key_name
      → Spares (Append.run_on P R args found)
  append_on-Spares args false ne = unfold Append.run_on in search spares
  append_on-Spares args true ne = unfold Append.run_on in search spares

  del_on-Spares :
      (args : KeyPath) (found : Bool) → j ≢ args.key_name → Spares (Del.run_on P R args found)
  del_on-Spares args false ne = unfold Del.run_on in search spares
  del_on-Spares args true ne = unfold Del.run_on in unfold Del.del_existing in search spares depth 7

  clear_on-Spares :
      (args : KeyPath) (found : Bool) → j ≢ args.key_name → Spares (Clear.run_on P R args found)
  clear_on-Spares args false ne = unfold Clear.run_on in search spares
  clear_on-Spares args true ne =
      unfold Clear.run_on in unfold Clear.clear_existing in search spares depth 7

  reject_root-Spares : (path : FieldPath) → Spares (Append.reject_root P R path)
  reject_root-Spares path = unfold Append.reject_root in search spares

  module _ (cmd key : Bytes) (rest : List Bytes) (ne : j ≢ key) where
    apart : {k : Bytes} → k ≡ key → j ≢ k
    apart e q = ne (q ∙ e)

    run_set-Spares : Spares (Set.run_set P R (cmd ∷ key ∷ rest))
    run_set-Spares =
        unfold Set.run_set in
        Spares-parse (SetArgs.parse_args (cmd ∷ key ∷ rest)) _ (λ args e.
          Keeps-bind _ _ (open_existing-Spares write_only args.key_name)
            (λ found. set_on-Spares args found (apart (set_args-key cmd key rest e))))

    set-Spares : Spares (Set.run P R (cmd ∷ key ∷ rest))
    set-Spares = unfold Set.run in Spares-catch _ (search (spares, run_set-Spares))

    append-Spares : Spares (Append.run P R (cmd ∷ key ∷ rest))
    append-Spares =
        unfold Append.run in
        Spares-catch _ (
          Spares-parse (Append.parse_args (cmd ∷ key ∷ rest)) _ (λ args e.
            let away : j ≢ args.key_name = apart (append_args-key cmd key rest e) in
            search (spares, append_on-Spares, reject_root-Spares) depth 9))

    del-Spares : Spares (Del.run P R (cmd ∷ key ∷ rest))
    del-Spares =
        unfold Del.run in
        Spares-catch _ (
          Spares-parse (parse_key_path (cmd ∷ key ∷ rest)) _ (λ args e.
            let away : j ≢ args.key_name = apart (key_path-key cmd key rest e) in
            search (spares, del_on-Spares) depth 7))

    clear-Spares : Spares (Clear.run P R (cmd ∷ key ∷ rest))
    clear-Spares =
        unfold Clear.run in
        Spares-catch _ (
          Spares-parse (parse_key_path (cmd ∷ key ∷ rest)) _ (λ args e.
            let away : j ≢ args.key_name = apart (key_path-key cmd key rest e) in
            search (spares, clear_on-Spares) depth 7))

    merge_on-Spares :
        (args : Merge.MergeArgs) (found : Bool)
        → j ≢ args.key_name
        → Spares (Merge.run_on P R (cmd ∷ key ∷ rest) args found)
    merge_on-Spares args false away = unfold Merge.run_on in search (spares, run_set-Spares)
    merge_on-Spares args true away = unfold Merge.run_on in search spares depth 7

    merge-Spares : Spares (Merge.run P R (cmd ∷ key ∷ rest))
    merge-Spares =
        unfold Merge.run in
        Spares-catch _ (
          Spares-parse (Merge.parse_args (cmd ∷ key ∷ rest)) _ (λ args e.
            let away : j ≢ args.key_name = apart (merge_args-key cmd key rest e) in
            search (spares, merge_on-Spares) depth 7))

    reads-Spares :
        (name : Name) → is_write name ≡ false → Spares (run_command P R name (cmd ∷ key ∷ rest))
    reads-Spares name e = record {
      at = λ w. ap (λ ks. seen R ks j) (run_command-ReadOnly P R name (cmd ∷ key ∷ rest) w e).0;
    }

    command-Spares : (name : Name) → Spares (run_command P R name (cmd ∷ key ∷ rest))
    command-Spares pb_set = unfold run_command in set-Spares
    command-Spares pb_append = unfold run_command in append-Spares
    command-Spares pb_del = unfold run_command in del-Spares
    command-Spares pb_clear = unfold run_command in clear-Spares
    command-Spares pb_merge = unfold run_command in merge-Spares
    command-Spares pb_type = reads-Spares pb_type refl
    command-Spares pb_get = reads-Spares pb_get refl
    command-Spares pb_len = reads-Spares pb_len refl
    command-Spares pb_schema = reads-Spares pb_schema refl

-- A command changes at most the key that stands behind its name: every other key has the same type and
-- the same message afterwards, also where an error strikes halfway. (Redis changes only the key of a
-- call.)
pub run_command-seen :
    (P : Protobuf) (R : Redis P.Msg)
    → FrameLaws R
    → (name : Name) (cmd key : Bytes) (rest : List Bytes) (w : World R.Keys) (j : Bytes) → j ≢ key
    → seen R (run_command P R name (cmd ∷ key ∷ rest) w).1.keys j ≡ seen R w.keys j
run_command-seen P R laws name cmd key rest w j ne =
    (command-Spares P R laws j cmd key rest ne name).at w
