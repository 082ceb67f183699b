-- ===== src/Command/Registry/Opened/Signals.antt =====
-- module_api.cpp, *_command.cpp: whether Redis learns from a command that it may have changed its key. Redis
-- tells the clients that watch a key when a handle to it that was opened with
-- REDISMODULE_WRITE is closed.
use mathlib.Core.List.{Mem, mem-cons_self, mem-cons_of_mem}
use mathlib.Core.Path.{subst}
use redis_protobuf.Base.{
  ◌≡◌, ◌≢◌, refl, sym, ap, ◌⊎◌, inl, inr, Bool, Bool-cases, some, true, false, List, [], ◌∷◌, All,
  Bytes, codes, beq, ℕ,
}
use redis_protobuf.Errors.{Outcome, ok, err, abort}
use redis_protobuf.Exec.{Exec, ◌>>=◌, ◌>>◌}
use redis_protobuf.Exec.Preserves.{
  Preserves, Preserves-if, Preserves-pure, Preserves-throw, Preserves-bind, Preserves-from,
  Preserves-lift,
}
use redis_protobuf.Path.{FieldPath}
use redis_protobuf.Protobuf.{Protobuf, type_name}
use redis_protobuf.ModuleApi.{
  Reply, Redis, World, ours, KeyMode, read_only, write_only, mode_bits, long_long, reply,
  replicate_verbatim, answered, catch_errors, open_existing,
}
use redis_protobuf.Command.Args.{parse_key_path}
use redis_protobuf.Command.Set
use redis_protobuf.Command.Set.Args as SetArgs
use redis_protobuf.Command.Append
use redis_protobuf.Command.Del
use redis_protobuf.Command.Merge
use redis_protobuf.Command.Registry.{
  Name, pb_type, pb_set, pb_get, pb_clear, pb_len, pb_append, pb_del, pb_schema, pb_merge, is_write,
  run_command,
}
use redis_protobuf.Command.Registry.ReadOnly.{run_command-ReadOnly}
use redis_protobuf.Command.Registry.Local.Keys.{
  set_args-key, key_path-key, append_args-key, merge_args-key,
}
use redis_protobuf.Command.Registry.Opened.{
  Opens, Grows, set_on-Opens, append_on-Opens, del_on-Opens, merge_on-Opens,
}
use redis_protobuf.Command.Registry.Opened.Commands.{opening_mode, run_command-Opens}
use redis_protobuf.Command.Registry.Keyspace.RestWorlds.{clear_ours}

-- the key was opened with REDISMODULE_WRITE
abbrev pub IsSignalled : Bytes → List (Bytes × ℕ) → Type 0
IsSignalled key opened = Mem (key, mode_bits write_only) opened

module _ (P : Protobuf) (R : Redis P.Msg) (key : Bytes) where
  IsSignalled-Grows : (mode : KeyMode) → Grows P R (IsSignalled key) mode
  IsSignalled-Grows mode k o h = mem-cons_of_mem (k, mode_bits mode) h

  module _ (before : R.Keys) where
    -- Until the key is opened the keyspace is as before.
    abbrev Tells : {A : Type 0} → Exec (World R.Keys) A → Type 0
    Tells m = Preserves (λ w. (w.keys ≡ before) ⊎ IsSignalled key w.opened) m

    reply-Tells : (a : Reply) → Tells (reply a)
    reply-Tells a = record { at = λ w q. q }

    catch-Tells : (m : Exec (World R.Keys) (Unit {0})) → Tells m → Tells (catch_errors m)
    unfolding catch_errors
    catch-Tells m k = record { at = λ w q. go (m w).0 (m w).1 (k.at w q) }
      where
        go :
            (o : Outcome (Unit {0})) (v : World R.Keys)
            → (v.keys ≡ before) ⊎ IsSignalled key v.opened
            → ((answered o v).1.keys ≡ before) ⊎ IsSignalled key (answered o v).1.opened
        go (ok u) v q = q
        go (err e) v q = q
        go abort v q = q

    reported-Tells : (a : Reply) → Tells (reply a >> replicate_verbatim)
    reported-Tells a = record { at = λ w q. q }

    -- Behind the opening for writing any change is told.
    opening-Tells :
        {A : Type 0} (k : Bytes) (f : Bool → Exec (World R.Keys) A)
        → k ≡ key
        → ((found : Bool) → Opens P R (IsSignalled key) (f found))
        → Tells (open_existing R write_only k >>= f)
    unfolding open_existing
    opening-Tells k f e h = record {
      at = λ w q. inr (
          Preserves-from {Q = λ v. IsSignalled key v.opened} (open_existing R write_only k) f w
            (subst (λ j. Mem (key, 2) ((j, 2) ∷ w.opened)) (sym e) mem-cons_self) h);
    }

    reject_root-Tells : (path : FieldPath) → Tells (Append.reject_root P R path)
    unfolding Append.reject_root
    reject_root-Tells path = search (Preserves-if, Preserves-pure, Preserves-throw)

    module _ (cmd : Bytes) (rest : List Bytes) where
      run_set-Tells : Tells (Set.run_set P R (cmd ∷ key ∷ rest))
      unfolding Set.run_set
      run_set-Tells = Preserves-lift (SetArgs.parse_args (cmd ∷ key ∷ rest)) _ (λ args e.
          opening-Tells args.key_name _ (set_args-key cmd key rest e)
            (set_on-Opens P R (IsSignalled key) args))

      writes-Tells :
          (name : Name)
          → name ≢ pb_clear
          → is_write name ≡ true
          → Tells (run_command P R name (cmd ∷ key ∷ rest))
      unfolding run_command Set.run Append.run Del.run Merge.run
      writes-Tells pb_set n e =
          catch-Tells _ (Preserves-bind _ _ run_set-Tells (λ m. reported-Tells (long_long m)))
      writes-Tells pb_append n e = catch-Tells _ (
          Preserves-lift (Append.parse_args (cmd ∷ key ∷ rest)) _ (λ args e.
            Preserves-bind _ _ (reject_root-Tells args.path) (λ _.
              opening-Tells args.key_name _ (append_args-key cmd key rest e) (λ found.
                Preserves-bind _ _ (append_on-Opens P R (IsSignalled key) args found)
                  (λ m. record { at = λ w q. q })))))
      writes-Tells pb_del n e = catch-Tells _ (
          Preserves-lift (parse_key_path (cmd ∷ key ∷ rest)) _ (λ args e.
            opening-Tells args.key_name _ (key_path-key cmd key rest e) (λ found.
              Preserves-bind _ _ (del_on-Opens P R (IsSignalled key) args found)
                (λ _. record { at = λ w q. q }))))
      writes-Tells pb_merge n e = catch-Tells _ (
          Preserves-lift (Merge.parse_args (cmd ∷ key ∷ rest)) _ (λ args e.
            opening-Tells args.key_name _ (merge_args-key cmd key rest e) (
              merge_on-Opens P R (IsSignalled key) (IsSignalled-Grows write_only) (cmd ∷ key ∷ rest)
                args)))
      writes-Tells pb_clear n e = absurd (n refl)
      writes-Tells pb_type n e = cc e
      writes-Tells pb_get n e = cc e
      writes-Tells pb_len n e = cc e
      writes-Tells pb_schema n e = cc e

module _ (P : Protobuf) (R : Redis P.Msg) where
  -- A command other than PB.CLEAR either leaves the keyspace as it was, or it has opened its key for
  -- writing, so that Redis tells the clients that watch the key: on every path, errors that
  -- strike halfway included. And all the handles that a command not registered as "write"
  -- opens are for reading.
  pub run_command-IsSignalled :
      (name : Name) (cmd key : Bytes) (rest : List Bytes) (w : World R.Keys)
      → name ≢ pb_clear
      → (((run_command P R name (cmd ∷ key ∷ rest) w).1.keys ≡ w.keys)
          ⊎ IsSignalled key (run_command P R name (cmd ∷ key ∷ rest) w).1.opened)
        × (is_write name ≡ false
            → All (λ o. o.1 ≡ mode_bits read_only) w.opened
            → All
                (λ o. o.1 ≡ mode_bits read_only)
                (run_command P R name (cmd ∷ key ∷ rest) w).1.opened)
  run_command-IsSignalled name cmd key rest w n = (
    elim (Bool-cases (is_write name)) [
      | inl e ↦ (writes-Tells P R key w.keys cmd rest name n e).at w (inl refl)
      | inr e ↦ inl (run_command-ReadOnly P R name (cmd ∷ key ∷ rest) w e).0
    ],
    λ e h.
        (run_command-Opens P R (All (λ o. o.1 ≡ mode_bits read_only)) name (cmd ∷ key ∷ rest)
            (grows name e)).at
          w h,
  )
    where
      grows :
          (m : Name)
          → is_write m ≡ false
          → Grows P R (All (λ o. o.1 ≡ mode_bits read_only)) (opening_mode m)
      grows pb_type e = λ k o h. (refl, h)
      grows pb_get e = λ k o h. (refl, h)
      grows pb_len e = λ k o h. (refl, h)
      grows pb_schema e = λ k o h. (refl, h)
      grows _ e = cc e

  -- PB.CLEAR changes its key and Redis is not told. If all the handles opened so far are for reading and
  -- the key has a message of this type, then behind a PB.CLEAR, whatever its arguments are, all
  -- handles are still for reading; and the PB.CLEAR of this key and type stores the cleared
  -- message.
  pub clear_opens :
      (key type : Bytes) (argv : List Bytes) (w : World R.Keys) (m : P.Msg)
      → All (λ o. o.1 ≡ mode_bits read_only) w.opened
      → R.key_kind w.keys key ≡ ours
      → R.value w.keys key ≡ some m
      → beq (type_name P m) type ≡ true
      → All (λ o. o.1 ≡ mode_bits read_only) (run_command P R pb_clear argv w).1.opened
        × ((run_command P R pb_clear (codes "PB.CLEAR" ∷ key ∷ type ∷ []) w).1.keys
            ≡ R.store w.keys key (P.clear m))
  clear_opens key type argv w m h k s t = (
    (run_command-Opens P R (All (λ o. o.1 ≡ mode_bits read_only)) pb_clear argv
          (λ j o q. (refl, q))).at
        w h,
    unfold run_command in ap (λ u. u.keys) (clear_ours P R key type w m k s t),
  )
