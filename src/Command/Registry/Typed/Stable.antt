-- ===== src/Command/Registry/Typed/Stable.antt =====
-- commands.cpp: the type of the message of a key is the same until the key is deleted.
use mathlib.Core.Path.{subst}
use redis_protobuf.Base.{
  ◌≡◌, refl, sym, ap, ◌∙◌, inl, inr, Bool, true, Bool-cases, Option, none, some, List, ◌∷◌, Bytes,
  ℤ, pos, beq, beq→eq,
}
use redis_protobuf.Errors.{Outcome, ok, err, abort}
use redis_protobuf.Exec.{◌>>=◌, ◌>>◌, Exec, modify}
use redis_protobuf.Exec.Preserves.{
  Preserves, Preserves-pure, Preserves-throw, Preserves-if, Preserves-bind, Preserves-lift,
}
use redis_protobuf.Path.{FieldPath}
use redis_protobuf.Protobuf.{Protobuf, type_name}
use redis_protobuf.ProtoFactory.{create_from}
use redis_protobuf.ModuleApi.{
  long_long, Reply, Redis, World, ours, answered, reply, replicate_verbatim, catch_errors, KeyMode,
  mode_bits, read_only, write_only, open_existing, get_msg_by_key, on_msg,
}
use redis_protobuf.FieldRef.Typed.{TypeLaws, IsTyped}
use redis_protobuf.Command.Args.{KeyPath, parse_key_path}
use redis_protobuf.Command.Set
use redis_protobuf.Command.Set.Args as SetArgs
use redis_protobuf.Command.Append
use redis_protobuf.Command.Clear
use redis_protobuf.Command.Merge
use redis_protobuf.Command.Registry.Local.{seen}
use redis_protobuf.Command.Registry.Local.Keys.{
  set_args-key, key_path-key, append_args-key, merge_args-key,
}
use redis_protobuf.Command.Registry.Keyspace.{KeyspaceLaws}
use redis_protobuf.Command.Registry.Typed.{
  type_name-create_from, set_at-Typed, append_at-Typed, clear_at-Typed, merge_at-Typed,
}

-- What Redis documents of SetExpire, beside KeyspaceLaws: the call sets a time, and the value stays. When the
-- time is over, Redis deletes the key; this is no part of the call, but an Event of its own.
pub record ExpireLaws {Msg : Type 0} (R : Redis Msg) : Type 0 where
  pub keyspace : KeyspaceLaws R
  pub seen-expire_self :
      (ks : R.Keys) (key : Bytes) (ms : ℤ) → seen R (R.set_expire ks key ms) key ≡ seen R ks key

module _ {P : Protobuf} {R : Redis P.Msg} (types : TypeLaws P) (laws : ExpireLaws R) where
  -- The key has a message of this type.
  abbrev pub Holds : Bytes → Bytes → R.Keys → Type 0
  Holds key type ks = (m : P.Msg) × (seen R ks key ≡ (ours, some m)) × (type_name P m ≡ type)

  module _ (Q : R.Keys → Type 0) where
    -- Code that keeps a property of the keyspace.
    abbrev pub Stays : {A : Type 0} → Exec (World R.Keys) A → Type 0
    Stays m = Preserves (λ w. Q w.keys) m

    pub reply-Stays : (a : Reply) → Stays (reply a)
    reply-Stays a = record { at = λ w q. q }

    pub replicate-Stays : Stays replicate_verbatim
    replicate-Stays = record { at = λ w q. q }

    pub catch-Stays : (m : Exec (World R.Keys) (Unit {0})) → Stays m → Stays (catch_errors m)
    unfolding catch_errors
    catch-Stays m k = record { at = λ w q. go (m w).0 (m w).1 (k.at w q) }
      where
        go : (o : Outcome (Unit {0})) (v : World R.Keys) → Q v.keys → Q (answered o v).1.keys
        go (ok u) v q = q
        go (err e) v q = q
        go abort v q = q

    -- the reply and the replication behind the work
    reported-Stays : (a : Reply) → Stays (◌>>◌ (reply a) replicate_verbatim)
    reported-Stays a = Preserves-bind _ _ (reply-Stays a) (λ _. replicate-Stays)

  module _ (key type : Bytes) where
    set_value-Stays :
        (m : P.Msg) → type_name P m ≡ type → Stays (Holds key type) (Set.set_value P R key m)
    unfolding Set.set_value
    set_value-Stays m t = record { at = λ w q. go w (R.set_value w.keys key m) refl q }
      where
        go :
            (w : World R.Keys) (o : Option R.Keys)
            → R.set_value w.keys key m ≡ o
            → Holds key type w.keys
            → Holds key type (Set.set_value P R key m w).1.keys
        go w none e q = rw (Set.set_value, e) q
        go w (some ks) e q =
            rw (Set.set_value, e) (m, laws.keyspace.seen-set_self w.keys ks key m e, t)

    set_expire-Stays :
        (ms : ℤ)
        → Stays (Holds key type) (modify (λ w. record w { keys = R.set_expire w.keys key ms }))
    set_expire-Stays ms = record {
      at = λ w q. (q.0, laws.seen-expire_self w.keys key ms ∙ q.1, q.2);
    }

    expire-Stays : (ms : ℤ) → Stays (Holds key type) (Set.expire_key P R key ms)
    unfolding Set.expire_key
    expire-Stays ms = search (Preserves-if, Preserves-pure, set_expire-Stays)

    pub on_msg-Stays :
        {A : Type 0} (m : P.Msg) (x : Exec P.Msg A)
        → type_name P m ≡ type
        → IsTyped types x
        → Stays (Holds key type) (on_msg R key m x)
    unfolding on_msg
    on_msg-Stays m x t k = record {
      at = λ w q. (
        (x m).1,
        laws.keyspace.seen-store_self w.keys key (x m).1 (ap (λ s. s.0) q.1),
        ap P.full_name (k.at m) ∙ t,
      );
    }

    -- What stands behind the read of the message.
    with_msg :
        {A : Type 0} (f : P.Msg → Exec (World R.Keys) A)
        → ((m : P.Msg) → type_name P m ≡ type → Stays (Holds key type) (f m))
        → Stays (Holds key type) (◌>>=◌ (get_msg_by_key R key) f)
    unfolding get_msg_by_key
    with_msg f k = record { at = λ w q. rw (ap (λ s. s.1) q.1) ((k q.0 q.2).at w q) }

    -- the world behind open_key
    abbrev pub opened_as : KeyMode → World R.Keys → World R.Keys
    opened_as mode w = record w { opened = (key, mode_bits mode) ∷ w.opened }

    -- Where there is a message, the branch for an existing key is taken.
    on_existing :
        {A : Type 0} (mode : KeyMode) (f : Bool → Exec (World R.Keys) A)
        → Stays (Holds key type) (f true)
        → Stays (Holds key type) (◌>>=◌ (open_existing R mode key) f)
    unfolding open_existing
    on_existing mode f k = record { at = λ w q. rw (ap (λ s. s.0) q.1) (k.at (opened_as mode w) q) }

    replace_msg-Stays :
        (path : FieldPath) (val : Bytes) (m : P.Msg)
        → type_name P m ≡ type
        → Stays (Holds key type) (Set.replace_msg P R key path val m)
    unfolding Set.replace_msg
    replace_msg-Stays path val m t = elim (Bool-cases (beq (type_name P m) path.type)) [
      | inl e ↦ rw e (
          Preserves-lift (create_from P path.type val) _ (λ n h. set_value-Stays n (
            type_name-create_from types path.type val h
            ∙ sym (beq→eq (type_name P m) path.type e)
            ∙ t)))
      | inr e ↦ rw e (Preserves-throw _)
    ]

    set_msg-Stays :
        (path : FieldPath) (val : Bytes) → Stays (Holds key type) (Set.set_msg P R key path val)
    unfolding Set.set_msg
    set_msg-Stays path val = with_msg _ (λ m t.
        Preserves-if _ _ _ (replace_msg-Stays path val m t)
          (on_msg-Stays m (Set.set_at P R path val) t (set_at-Typed types R path val)))

  module _ (type : Bytes) where
    -- The branches of the handlers for an existing key.
    set_on-Stays :
        (args : SetArgs.SetArgs) → Stays (Holds args.key_name type) (Set.run_on P R args true)
    unfolding Set.run_on
    set_on-Stays args = Preserves-if _ _ _ (Preserves-pure _) (
        Preserves-bind _ _ (set_msg-Stays args.key_name type args.path args.val) (λ _.
          Preserves-bind _ _ (expire-Stays args.key_name type args.expire) (λ _. Preserves-pure _)))

    append_on-Stays :
        (args : Append.AppendArgs) → Stays (Holds args.key_name type) (Append.run_on P R args true)
    unfolding Append.run_on
    append_on-Stays args = with_msg args.key_name type _ (λ m t.
        on_msg-Stays args.key_name type m (Append.append_at P args.path args.elements) t
          (append_at-Typed types args.path args.elements))

    clear_on-Stays :
        (args : KeyPath) → Stays (Holds args.key_name type) (Clear.run_on P R args true)
    unfolding Clear.run_on Clear.clear_existing
    clear_on-Stays args = with_msg args.key_name type _ (λ m t.
        Preserves-bind _ _
          (Preserves-if _ _ _
            (on_msg-Stays args.key_name type m (Clear.clear_at P args.path) t
              (clear_at-Typed types args.path))
            (Preserves-throw _))
          (λ _. reply-Stays (Holds args.key_name type) _))

    merge_on-Stays :
        (argv : List Bytes) (args : Merge.MergeArgs)
        → Stays (Holds args.key_name type) (Merge.run_on P R argv args true)
    unfolding Merge.run_on
    merge_on-Stays argv args = with_msg args.key_name type _ (λ m t.
        Preserves-bind _ _
          (on_msg-Stays args.key_name type m (Merge.merge_at P args.path args.val) t
            (merge_at-Typed types args.path args.val))
          (λ _.
            Preserves-bind _ _ (reply-Stays (Holds args.key_name type) _)
              (λ _. replicate-Stays (Holds args.key_name type))))

    -- The key that the arguments name is this one.
    at_key :
        {A : Type 0} (mode : KeyMode) (k key : Bytes) (f : Bool → Exec (World R.Keys) A)
        → k ≡ key
        → Stays (Holds k type) (f true)
        → Stays (Holds key type) (◌>>=◌ (open_existing R mode k) f)
    at_key mode k key f e h =
        subst (λ j. Stays (Holds j type) (◌>>=◌ (open_existing R mode k) f)) e
          (on_existing k type mode f h)

    reject_root-Stays :
        (Q : R.Keys → Type 0) (path : FieldPath) → Stays Q (Append.reject_root P R path)
    unfolding Append.reject_root
    reject_root-Stays Q path = search (Preserves-if, Preserves-pure, Preserves-throw)

    module _ (cmd key : Bytes) (rest : List Bytes) where
      run_set-Stays : Stays (Holds key type) (Set.run_set P R (cmd ∷ key ∷ rest))
      unfolding Set.run_set
      run_set-Stays = Preserves-lift (SetArgs.parse_args (cmd ∷ key ∷ rest)) _ (λ args e.
          at_key write_only args.key_name key (Set.run_on P R args) (set_args-key cmd key rest e)
            (set_on-Stays args))

      pub set-Stays : Stays (Holds key type) (Set.run P R (cmd ∷ key ∷ rest))
      unfolding Set.run
      set-Stays =
          catch-Stays (Holds key type) _
            (Preserves-bind _ _ run_set-Stays (λ n. reported-Stays (Holds key type) (long_long n)))

      pub append-Stays : Stays (Holds key type) (Append.run P R (cmd ∷ key ∷ rest))
      unfolding Append.run
      append-Stays = catch-Stays (Holds key type) _ (
          Preserves-lift (Append.parse_args (cmd ∷ key ∷ rest)) _ (λ args e.
            Preserves-bind _ _ (reject_root-Stays (Holds key type) args.path) (λ _.
              at_key write_only args.key_name key
                (λ found. do
                  n ← Append.run_on P R args found
                  reply (long_long (pos n))
                  replicate_verbatim)
                (append_args-key cmd key rest e)
                (Preserves-bind _ _ (append_on-Stays args)
                  (λ n. reported-Stays (Holds args.key_name type) (long_long (pos n)))))))

      pub clear-Stays : Stays (Holds key type) (Clear.run P R (cmd ∷ key ∷ rest))
      unfolding Clear.run
      clear-Stays = catch-Stays (Holds key type) _ (
          Preserves-lift (parse_key_path (cmd ∷ key ∷ rest)) _ (λ args e.
            at_key read_only args.key_name key
              (λ found. Clear.run_on P R args found >> replicate_verbatim)
              (key_path-key cmd key rest e)
              (Preserves-bind _ _ (clear_on-Stays args)
                (λ _. replicate-Stays (Holds args.key_name type)))))

      pub merge-Stays : Stays (Holds key type) (Merge.run P R (cmd ∷ key ∷ rest))
      unfolding Merge.run
      merge-Stays = catch-Stays (Holds key type) _ (
          Preserves-lift (Merge.parse_args (cmd ∷ key ∷ rest)) _ (λ args e.
            at_key write_only args.key_name key (Merge.run_on P R (cmd ∷ key ∷ rest) args)
              (merge_args-key cmd key rest e) (merge_on-Stays (cmd ∷ key ∷ rest) args)))
