-- ===== src/Command/Registry/Keyspace/Refines.antt =====
-- commands.cpp: under commands on whole messages the keyspace is a map.
use mathlib.Core.Path.{subst}
use redis_protobuf.Base.{
  ◌++◌, append-nil, append_assoc, All, ◌≡◌, refl, sym, ap, ◌∙◌, Bool, true, false, Bool-cases, none,
  inl, inr, List, [], ◌∷◌, Bytes, codes, beq, beq→eq, beq_false→ne, if◌then◌else◌,
}
use redis_protobuf.Errors.{Outcome, ok, err, abort}
use redis_protobuf.Utils.{str_case_equal}
use redis_protobuf.Protobuf.{Protobuf}
use redis_protobuf.ProtoFactory.{create_from}
use redis_protobuf.ModuleApi.{Reply, Redis, World}
use redis_protobuf.Command.Registry.Local.{seen, run_command-seen}
use redis_protobuf.Command.Registry.Keyspace.{
  get, clear, len, type_of, merge, answer, KeyspaceLaws, Op, set, del, key_of, command_of, run_op,
  Store, update, replaced, merged, cleared, accepts, step,
}
use redis_protobuf.Persistence.Aof.{IsNoOption}
use redis_protobuf.Command.Registry.Keyspace.Own.{Own, get-Own, shown, set-Own, del-Own}
use redis_protobuf.Command.Registry.Keyspace.OwnRest.{len-Own, type-Own, clear-Own, merge-Own}

module _ (P : Protobuf) where
  -- No other key changes on the map.
  if_other : (g f : Store P) (b : Bool) (j : Bytes) → g j ≡ f j → (if b then g else f) j ≡ f j
  if_other g f true j h = h
  if_other g f false j h = refl

  replaced_other :
      (f : Store P) (key : Bytes) (c : Outcome P.Msg) (j : Bytes)
      → beq j key ≡ false
      → replaced P f key c j ≡ f j
  replaced_other f key (ok m) j h = rw h refl
  replaced_other f key (err e) j h = refl
  replaced_other f key abort j h = refl

  merged_other :
      (f : Store P) (key : Bytes) (c : Outcome P.Msg) (j : Bytes)
      → beq j key ≡ false
      → merged P f key c j ≡ f j
  merged_other f key (ok m) j h = rw h refl
  merged_other f key (err e) j h = refl
  merged_other f key abort j h = refl

  step_other : (op : Op) (f : Store P) (j : Bytes) → beq j (key_of op) ≡ false → step P op f j ≡ f j
  step_other (set key type val) f j h =
      if_other (replaced P f key (create_from P type val)) f (accepts P type (f key)) j
        (replaced_other f key (create_from P type val) j h)
  step_other (merge key type val) f j h =
      if_other (merged P f key (create_from P type val)) f (accepts P type (f key)) j
        (merged_other f key (create_from P type val) j h)
  step_other (del key type) f j h =
      if_other (update P f key none) f (accepts P type (f key)) j (rw h refl)
  step_other (clear key type) f j h =
      if_other (update P f key (cleared P (f key))) f (accepts P type (f key)) j (rw h refl)
  step_other (get key type) f j h = refl
  step_other (len key type) f j h = refl
  step_other (type_of key) f j h = refl

module _ (P : Protobuf) (R : Redis P.Msg) (laws : KeyspaceLaws R) where
  -- The keys hold what the map says, and nothing of another type.
  abbrev pub Agrees : R.Keys → Store P → Type 0
  Agrees ks f = (j : Bytes) → seen R ks j ≡ shown P (f j)

  -- The name of the type in a command is no option of the command.
  abbrev pub IsPlain : Op → Type 0
  IsPlain (set key type val) = IsNoOption type
  IsPlain (merge key type val) = IsNoOption type
  IsPlain (get key type) = str_case_equal type (codes "--FORMAT") ≡ false
  IsPlain _ = Unit

  op-Own :
      (op : Op) (w : World R.Keys) (f : Store P)
      → IsPlain op
      → seen R w.keys (key_of op) ≡ shown P (f (key_of op))
      → Own P R laws (key_of op) w (run_op P R op w) (step P op f) (answer P op f)
  op-Own (set key type val) w f free h =
      set-Own P R laws key type val w f (f key) (create_from P type val) free h refl refl
  op-Own (merge key type val) w f free h =
      merge-Own P R laws key type val w f (f key) (create_from P type val) free h refl refl
  op-Own (del key type) w f free h = del-Own P R laws key type w f (f key) h refl
  op-Own (get key type) w f free h = get-Own P R laws key type w f (f key) free h refl
  op-Own (clear key type) w f free h = clear-Own P R laws key type w f (f key) h refl
  op-Own (len key type) w f free h = len-Own P R laws key type w f (f key) h refl
  op-Own (type_of key) w f free h = type-Own P R laws key w f (f key) h refl

  run_op-other :
      (op : Op) (w : World R.Keys) (j : Bytes)
      → beq j (key_of op) ≡ false
      → seen R (run_op P R op w).keys j ≡ seen R w.keys j
  unfolding run_op
  run_op-other op w j e =
      run_command-seen P R laws.frame (command_of op).0 (command_of op).1 (key_of op)
        (command_of op).2 w j (beq_false→ne j (key_of op) e)

  run_op-Agrees :
      (op : Op) (w : World R.Keys) (f : Store P)
      → IsPlain op
      → Agrees w.keys f
      → Agrees (run_op P R op w).keys (step P op f)
  run_op-Agrees op w f free h j = elim (Bool-cases (beq j (key_of op))) [
    | inl e ↦
        subst (λ x. seen R (run_op P R op w).keys x ≡ shown P (step P op f x))
          (sym (beq→eq j (key_of op) e)) (op-Own op w f free (h (key_of op))).0
    | inr e ↦ run_op-other op w j e ∙ h j ∙ ap (shown P) (sym (step_other P op f j e))
  ]

  -- the commands in a row
  unfoldable pub run_ops : List Op → World R.Keys → World R.Keys
  run_ops [] w = w
  run_ops (op ∷ ops) w = run_ops ops (run_op P R op w)

  -- the same on the map
  abbrev pub replay : List Op → Store P → Store P
  replay [] f = f
  replay (op ∷ ops) f = replay ops (step P op f)

  -- what the clients are told
  abbrev pub answers : List Op → Store P → List Reply
  answers [] f = []
  answers (op ∷ ops) f = answer P op f ∷ answers ops (step P op f)

  -- Let Redis change only the key that it is given, take every message, and give back what was set or
  -- written. From a keyspace that a map describes, without keys of other modules' types, any sequence of
  -- PB.SET, PB.MERGE, PB.DEL, PB.CLEAR, PB.GET, PB.LEN and PB.TYPE of whole messages, under names of
  -- types that are no option of the command, does to the keyspace what it does to a map, and answers
  -- as the map does. A set puts the message that the text makes, where there is none or one of its
  -- type, and answers 1. A merge merges it into one of its type and answers 1, or puts it where there
  -- is none and answers 0. A delete by the type removes the message, a clear by the type clears it,
  -- and both answer 1, or 0 where there is none. By the type a get answers with the serialized
  -- message, or null where there is none, and a length with its size in bytes, or 0. PB.TYPE answers
  -- with the spelling of its type, or null. Any other of these commands changes nothing and
  -- answers with one error.
  pub run_ops-Agrees :
      (ops : List Op) (w : World R.Keys) (f : Store P)
      → All IsPlain ops
      → Agrees w.keys f
      → Agrees (run_ops ops w).keys (replay ops f)
        × ((run_ops ops w).replies ≡ w.replies ++ answers ops f)
  unfolding run_ops
  run_ops-Agrees [] w f free h = (h, sym (append-nil w.replies))
  run_ops-Agrees (op ∷ ops) w f (free, rest) h =
      let (a, r) =
        run_ops-Agrees ops (run_op P R op w) (step P op f) rest (run_op-Agrees op w f free h) in
      (
        a,
        r
            ∙ ap (λ x. x ++ answers ops (step P op f)) ((op-Own op w f free (h (key_of op))).1)
            ∙ append_assoc w.replies (answer P op f ∷ []) (answers ops (step P op f)),
      )
