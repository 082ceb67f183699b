-- ===== src/Command/Registry/Typed/Deleted.antt =====
-- commands.cpp: over time the type of the message of a key is the same until the key is deleted.
use redis_protobuf.Base.{
  All, ◌≡◌, ◌≢◌, refl, sym, ap, ◌∙◌, ◌⊎◌, inl, inr, true, false, Bool-cases, none, some, List, [],
  ◌∷◌, Bytes, beq, beq→eq, beq_false→ne, pos,
}
use mathlib.Core.Path.{subst}
use redis_protobuf.Exec.{◌>>=◌, ◌>>◌, Exec}
use redis_protobuf.Exec.Preserves.{Preserves-from, Preserves-lift}
use redis_protobuf.Path.{is_root}
use redis_protobuf.Protobuf.{Protobuf, type_name}
use redis_protobuf.ModuleApi.{
  Redis, World, missing, ours, long_long, reply, replicate_verbatim, write_only, open_existing,
  get_msg_by_key,
}
use redis_protobuf.FieldRef.Typed.{TypeLaws}
use redis_protobuf.Command.Args.{KeyPath, parse_key_path}
use redis_protobuf.Command.Del
use redis_protobuf.Command.Registry.{
  Name, pb_type, pb_set, pb_get, pb_clear, pb_len, pb_append, pb_del, pb_schema, pb_merge, is_write,
  run_command,
}
use redis_protobuf.Command.Registry.ReadOnly.{run_command-ReadOnly}
use redis_protobuf.Command.Registry.Local.{seen, run_command-seen}
use redis_protobuf.Command.Registry.Local.Keys.{key_path-key}
use redis_protobuf.Command.Registry.Typed.{del_at-Typed}
use redis_protobuf.Command.Registry.Typed.Stable.{
  ExpireLaws, Holds, Stays, reply-Stays, replicate-Stays, catch-Stays, on_msg-Stays, set-Stays,
  append-Stays, clear-Stays, merge-Stays,
}

-- A command of a client with its name as it was sent, the key, and the arguments behind the key.
pub record Call : Type 0 where
  pub name : Name
  pub command : Bytes
  pub key : Bytes
  pub arguments : List Bytes

-- What happens to a keyspace over time: a command of a client, or the end of the time to live of a key, which
-- Redis then deletes.
pub data Event : Type 0 where
  command : Call → Event
  expiry : Bytes → Event

-- a PB.DEL of the key
abbrev pub Deletes : Bytes → Call → Type 0
Deletes j c = (c.name ≡ pb_del) × (c.key ≡ j)

-- a PB.DEL of the key, or the end of its time to live
abbrev pub Ends : Bytes → Event → Type 0
Ends j (command c) = Deletes j c
Ends j (expiry k) = k ≡ j

module _ {P : Protobuf} {R : Redis P.Msg} (types : TypeLaws P) (laws : ExpireLaws R) where
  -- The key has a message of this type, or it is missing.
  abbrev pub Rests : Bytes → Bytes → R.Keys → Type 0
  Rests key type ks = Holds types laws key type ks ⊎ (seen R ks key ≡ (missing, none))

  module _ (type : Bytes) where
    del_existing-Rests :
        (args : KeyPath) (m : P.Msg) (w : World R.Keys)
        → type_name P m ≡ type
        → Holds types laws args.key_name type w.keys
        → Rests args.key_name type (Del.del_existing P R args m w).1.keys
    unfolding Del.del_existing Del.del_key
    del_existing-Rests args m w t h = elim (Bool-cases (beq (type_name P m) args.path.type)) [
      | inr e ↦ rw e (inl h)
      | inl e ↦ elim (Bool-cases (is_root args.path)) [
        | inl b ↦ rw (e, b) (inr (laws.keyspace.seen-delete_self w.keys args.key_name))
        | inr b ↦
            rw (e, b)
              (inl (
                (on_msg-Stays types laws args.key_name type m (Del.del_at P args.path) t
                    (del_at-Typed types args.path)).at
                  w h))
      ]
    ]

    del_on-Rests :
        (args : KeyPath) (w : World R.Keys)
        → Holds types laws args.key_name type w.keys
        → Rests args.key_name type (Del.run_on P R args true w).1.keys
    unfolding Del.run_on get_msg_by_key
    del_on-Rests args w h = rw (ap (λ s. s.1) h.1) (
        Preserves-from (Del.del_existing P R args h.0) (λ _. reply (long_long (pos 1))) w
          (del_existing-Rests args h.0 w h.2 h)
          (λ _. reply-Stays types laws (Rests args.key_name type) (long_long (pos 1))))

    -- behind the parser
    abbrev rest_of_run : KeyPath → Exec (World R.Keys) (Unit {0})
    rest_of_run args = do
      found ← open_existing R write_only args.key_name
      Del.run_on P R args found
      replicate_verbatim

    rest_of_run-Rests :
        (args : KeyPath) → Stays types laws (Rests args.key_name type) (rest_of_run args)
    unfolding open_existing Del.run_on
    rest_of_run-Rests args = record { at = λ w q. go w q }
      where
        go :
            (w : World R.Keys)
            → Rests args.key_name type w.keys
            → Rests args.key_name type (rest_of_run args w).1.keys
        go w (inl h) =
            let v : World R.Keys = record w { opened = (args.key_name, 2) ∷ w.opened } in
            rw (ap (λ s. s.0) h.1) (
              Preserves-from (Del.run_on P R args true) (λ _. replicate_verbatim) v
                (del_on-Rests args v h)
                (λ _. replicate-Stays types laws (Rests args.key_name type)))
        go w (inr h) = rw (ap (λ s. s.0) h) (inr h)

    del-Rests :
        (cmd key : Bytes) (rest : List Bytes)
        → Stays types laws (Rests key type) (Del.run P R (cmd ∷ key ∷ rest))
    unfolding Del.run
    del-Rests cmd key rest = catch-Stays types laws (Rests key type) _ (
        Preserves-lift (parse_key_path (cmd ∷ key ∷ rest)) rest_of_run (λ args e.
          subst (λ k. Stays types laws (Rests k type) (rest_of_run args))
            (key_path-key cmd key rest e) (rest_of_run-Rests args)))

  reads-Stays :
      (Q : R.Keys → Type 0) (name : Name) (argv : List Bytes)
      → is_write name ≡ false
      → Stays types laws Q (run_command P R name argv)
  reads-Stays Q name argv e = record {
    at = λ w q. subst Q (sym (run_command-ReadOnly P R name argv w e).0) q;
  }

  command-Holds :
      (type : Bytes) (name : Name) (cmd key : Bytes) (rest : List Bytes)
      → name ≢ pb_del
      → Stays types laws (Holds types laws key type) (run_command P R name (cmd ∷ key ∷ rest))
  command-Holds type pb_set cmd key rest n =
      unfold run_command in set-Stays types laws type cmd key rest
  command-Holds type pb_append cmd key rest n =
      unfold run_command in append-Stays types laws type cmd key rest
  command-Holds type pb_clear cmd key rest n =
      unfold run_command in clear-Stays types laws type cmd key rest
  command-Holds type pb_merge cmd key rest n =
      unfold run_command in merge-Stays types laws type cmd key rest
  command-Holds type pb_del cmd key rest n = absurd (n refl)
  command-Holds type pb_type cmd key rest n = reads-Stays _ pb_type (cmd ∷ key ∷ rest) refl
  command-Holds type pb_get cmd key rest n = reads-Stays _ pb_get (cmd ∷ key ∷ rest) refl
  command-Holds type pb_len cmd key rest n = reads-Stays _ pb_len (cmd ∷ key ∷ rest) refl
  command-Holds type pb_schema cmd key rest n = reads-Stays _ pb_schema (cmd ∷ key ∷ rest) refl

  Name-cases : (name : Name) → (name ≡ pb_del) ⊎ (name ≢ pb_del)
  Name-cases pb_del = inl refl
  Name-cases pb_set = inr (λ e. cc e)
  Name-cases _ = inr (λ e. cc e)

  -- A command of a client.
  abbrev pub run_call : Call → World R.Keys → World R.Keys
  run_call c w = (run_command P R c.name (c.command ∷ c.key ∷ c.arguments) w).1

  abbrev pub run_event : Event → World R.Keys → World R.Keys
  run_event (command c) w = run_call c w
  run_event (expiry key) w = record w { keys = R.delete_key w.keys key }

  unfoldable pub run_events : List Event → World R.Keys → World R.Keys
  run_events [] w = w
  run_events (e ∷ events) w = run_events events (run_event e w)

  del_call-Rests :
      (type cmd key : Bytes) (rest : List Bytes)
      → Stays types laws (Rests key type) (run_command P R pb_del (cmd ∷ key ∷ rest))
  unfolding run_command
  del_call-Rests = del-Rests

  -- At the key of the command.
  own_call-Rests :
      (c : Call) (w : World R.Keys) (type : Bytes)
      → Holds types laws c.key type w.keys
      → Rests c.key type (run_call c w).keys
        × (c.name ≢ pb_del → Holds types laws c.key type (run_call c w).keys)
  own_call-Rests c w type h = elim (Name-cases c.name) [
    | inl d ↦ (
      subst (λ n. Rests c.key type (run_command P R n (c.command ∷ c.key ∷ c.arguments) w).1.keys)
          (sym d) ((del_call-Rests type c.command c.key c.arguments).at w (inl h)),
      λ n. absurd (n d),
    )
    | inr n ↦
        let k : Holds types laws c.key type (run_call c w).keys =
          (command-Holds type c.name c.command c.key c.arguments n).at w h in
        (inl k, λ _. k)
  ]

  call-Rests :
      (c : Call) (w : World R.Keys) (j type : Bytes)
      → Holds types laws j type w.keys
      → Rests j type (run_call c w).keys
        × ((¬ Deletes j c) → Holds types laws j type (run_call c w).keys)
  call-Rests c w j type (m, s, t) = elim (Bool-cases (beq j c.key)) [
    | inr e ↦
        let same : seen R (run_call c w).keys j ≡ (ours, some m) =
          run_command-seen P R laws.keyspace.frame c.name c.command c.key c.arguments w j
            (beq_false→ne j c.key e)
          ∙ s in
        (inl (m, same, t), λ _. (m, same, t))
    | inl e ↦
        subst
          (λ x.
            Holds types laws x type w.keys
            → Rests x type (run_call c w).keys
              × ((¬ Deletes x c) → Holds types laws x type (run_call c w).keys))
          (sym (beq→eq j c.key e))
          (λ h. let (a, b) = own_call-Rests c w type h in (a, λ d. b (λ n. d (n, refl)))) (m, s, t)
  ]

  event-Rests :
      (e : Event) (w : World R.Keys) (j type : Bytes)
      → Holds types laws j type w.keys
      → Rests j type (run_event e w).keys
        × ((¬ Ends j e) → Holds types laws j type (run_event e w).keys)
  event-Rests (command c) w j type h = call-Rests c w j type h
  event-Rests (expiry k) w j type (m, s, t) = elim (Bool-cases (beq j k)) [
    | inl e ↦
        let same = beq→eq j k e in
        (
          subst (λ x. Rests j type (R.delete_key w.keys x)) same
              (inr (laws.keyspace.seen-delete_self w.keys j)),
          λ n. absurd (n (sym same)),
        )
    | inr e ↦
        let kept : Holds types laws j type (R.delete_key w.keys k) =
          (m, laws.keyspace.frame.seen-delete_key w.keys k j (beq_false→ne j k e) ∙ s, t) in
        (inl kept, λ _. kept)
  ]

  events-Holds :
      (events : List Event) (w : World R.Keys) (j type : Bytes)
      → Holds types laws j type w.keys
      → All (λ e. ¬ Ends j e) events
      → Holds types laws j type (run_events events w).keys
  unfolding run_events
  events-Holds [] w j type h kept = h
  events-Holds (e ∷ events) w j type h (k, kept) =
      events-Holds events (run_event e w) j type ((event-Rests e w j type h).1 k) kept

  -- The type of a message is settled when its key is created. Whatever happens after a key has a message,
  -- commands of clients and keys whose time to live ends, as long as it is neither a PB.DEL of this key
  -- nor the end of its time to live, the key has a message of the same type; and whatever happens
  -- next, it still has such a message, or it is missing. Writes of fields, replacements, merges and
  -- commands that fail halfway are among the commands. (Protobuf never changes a message's
  -- descriptor. Redis changes only the key of a call, gives back what was set, and deletes a key with
  -- a time to live at its end and not in the call that sets the time.)
  pub run_events-Holds :
      (events : List Event) (w : World R.Keys) (j : Bytes) (m : P.Msg)
      → seen R w.keys j ≡ (ours, some m)
      → All (λ e. ¬ Ends j e) events
      → Holds types laws j (type_name P m) (run_events events w).keys
        × ((e : Event) → Rests j (type_name P m) (run_event e (run_events events w)).keys)
  run_events-Holds events w j m s kept =
      let h = events-Holds events w j (type_name P m) (m, s, refl) kept in
      (h, λ e. (event-Rests e (run_events events w) j (type_name P m) h).0)
