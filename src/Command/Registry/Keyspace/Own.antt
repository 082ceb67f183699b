-- ===== src/Command/Registry/Keyspace/Own.antt =====
-- set_command.cpp, get_command.cpp, del_command.cpp: what PB.SET, PB.GET and PB.DEL of a whole message do to the key, and answer.
use redis_protobuf.Base.{
  false, true, codes, Option-cases, pos, ◌++◌, ◌≢◌, ◌≡◌, refl, sym, ap, ◌∙◌, Bool-cases, Option,
  none, some, inl, inr, [], ◌∷◌, Bytes, beq, beq_refl, if◌then◌else◌,
}
use redis_protobuf.Errors.{type_mismatch, Outcome, ok, err, abort}
use redis_protobuf.Utils.{str_case_equal}
use redis_protobuf.Protobuf.{Protobuf, type_name}
use redis_protobuf.ProtoFactory.{create_from, create, parse_into, is_json}
use redis_protobuf.ModuleApi.{
  Reply, long_long, null, error_answer, Redis, World, KeyKind, missing, ours,
}
use redis_protobuf.Command.Registry.{run_command}
use redis_protobuf.Command.Registry.Local.{seen}
use redis_protobuf.Command.Registry.Keyspace.{
  get, KeyspaceLaws, set, del, run_op, Store, update, replaced, accepts, made_answer, asked_answer,
  text_answer,
}
use redis_protobuf.Command.Registry.Keyspace.Worlds.{
  get_missing, get_ours, set_missing, set_missing-refused, set_ours, set_ours-refused,
  set_ours-other, del_missing, del_ours, del_ours-other,
}
use redis_protobuf.Persistence.Aof.{IsNoOption}

module _ (P : Protobuf) where
  -- what a client sees of a key with this message
  abbrev pub shown : Option P.Msg → KeyKind × Option P.Msg
  shown none = (missing, none)
  shown (some m) = (ours, some m)

  pub update_self : (f : Store P) (key : Bytes) (v : Option P.Msg) → update P f key v key ≡ v
  update_self f key v = rw (beq_refl key) refl

  -- Making a message ends with the message or an error.
  pub create_from-Returns : (type val : Bytes) → create_from P type val ≢ abort
  unfolding create_from create parse_into
  create_from-Returns type val = elim (Option-cases (P.find_message_type type)) [
    | inl e ↦ rw (create_from, create, e) (λ p. cc p)
    | inr (desc, e) ↦ elim (Bool-cases (is_json val)) [
      | inl b ↦ elim (Option-cases (P.from_json (P.new_message desc) val)) [
        | inl n ↦ rw (create_from, create, e, parse_into, b, n) (λ p. cc p)
        | inr (m, n) ↦ rw (create_from, create, e, parse_into, b, n) (λ p. cc p)
      ]
      | inr b ↦ elim (Option-cases (P.parse_from_array (P.new_message desc) val)) [
        | inl n ↦ rw (create_from, create, e, parse_into, b, n) (λ p. cc p)
        | inr (m, n) ↦ rw (create_from, create, e, parse_into, b, n) (λ p. cc p)
      ]
    ]
  ]

module _ (P : Protobuf) (R : Redis P.Msg) (laws : KeyspaceLaws R) where
  -- At the key of the command, and what the client is told.
  abbrev pub Own : Bytes → World R.Keys → World R.Keys → Store P → Reply → Type 0
  Own key w t g a = (seen R t.keys key ≡ shown P (g key)) × (t.replies ≡ w.replies ++ a ∷ [])

  -- Where it is known what the world behind the command is.
  pub Own-at :
      (key : Bytes) (w : World R.Keys) {t u : World R.Keys} (g : Store P) (v : Option P.Msg)
      (a : Reply)
      → t ≡ u
      → seen R u.keys key ≡ shown P v
      → g key ≡ v
      → u.replies ≡ w.replies ++ a ∷ []
      → Own key w t g a
  Own-at key w g v a p k e q =
      (ap (λ x. seen R x.keys key) p ∙ k ∙ ap (shown P) (sym e), ap (λ x. x.replies) p ∙ q)

  pub set-Own :
      (key type val : Bytes) (w : World R.Keys) (f : Store P) (o : Option P.Msg) (c : Outcome P.Msg)
      → IsNoOption type
      → seen R w.keys key ≡ shown P o
      → f key ≡ o
      → create_from P type val ≡ c
      → Own key w
          (run_op P R (set key type val) w)
          (if accepts P type o then replaced P f key c else f)
          (if accepts P type o then made_answer P 1 c else error_answer type_mismatch)
  unfolding run_op run_command
  set-Own key type val w f o abort free s e h = absurd (create_from-Returns P type val h)
  set-Own key type val w f none (ok m) free s e h =
      let (ks, k) = laws.set_value-succeeds w.keys key m in
      Own-at key w (update P f key (some m)) (some m) (long_long (pos 1))
        (set_missing P R key type val w free m ks (ap (λ x. x.0) s) h k)
        (laws.seen-set_self w.keys ks key m k) (update_self P f key (some m)) refl
  set-Own key type val w f none (err x) free s e h =
      Own-at key w f none (error_answer x)
        (set_missing-refused P R key type val w free x (ap (λ x. x.0) s) h) s e refl
  set-Own key type val w f (some old) c free s e h =
      elim (Bool-cases (beq (type_name P old) type)) [
        | inl t ↦ rw t (accepted-Own c t h)
        | inr t ↦ rw t (
            Own-at key w f (some old) (error_answer type_mismatch)
              (set_ours-other P R key type val w free old (ap (λ x. x.0) s) (ap (λ x. x.1) s) t) s e
              refl)
      ]
    where
      accepted-Own :
          (c : Outcome P.Msg)
          → beq (type_name P old) type ≡ true
          → create_from P type val ≡ c
          → Own key w (run_op P R (set key type val) w) (replaced P f key c) (made_answer P 1 c)
      accepted-Own (ok m) t h =
          let (ks, k) = laws.set_value-succeeds w.keys key m in
          Own-at key w (update P f key (some m)) (some m) (long_long (pos 1))
            (set_ours P R key type val w free old (ap (λ x. x.0) s) (ap (λ x. x.1) s) m ks t h k)
            (laws.seen-set_self w.keys ks key m k) (update_self P f key (some m)) refl
      accepted-Own (err x) t h =
          Own-at key w f (some old) (error_answer x)
            (set_ours-refused P R key type val w free old (ap (λ x. x.0) s) (ap (λ x. x.1) s) x t h)
            s e refl
      accepted-Own abort t h = absurd (create_from-Returns P type val h)

  pub del-Own :
      (key type : Bytes) (w : World R.Keys) (f : Store P) (o : Option P.Msg)
      → seen R w.keys key ≡ shown P o
      → f key ≡ o
      → Own key w
          (run_op P R (del key type) w)
          (if accepts P type o then update P f key none else f)
          (asked_answer P (long_long (pos 0)) (λ m. long_long (pos 1)) type o)
  unfolding run_op run_command
  del-Own key type w f none s e =
      Own-at key w (update P f key none) none (long_long (pos 0))
        (del_missing P R key type w (ap (λ x. x.0) s)) s (update_self P f key none) refl
  del-Own key type w f (some old) s e = elim (Bool-cases (beq (type_name P old) type)) [
    | inl t ↦ rw t (
        Own-at key w (update P f key none) none (long_long (pos 1))
          (del_ours P R key type w old (ap (λ x. x.0) s) (ap (λ x. x.1) s) t)
          (laws.seen-delete_self w.keys key) (update_self P f key none) refl)
    | inr t ↦ rw t (
        Own-at key w f (some old) (error_answer type_mismatch)
          (del_ours-other P R key type w old (ap (λ x. x.0) s) (ap (λ x. x.1) s) t) s e refl)
  ]

  pub get-Own :
      (key type : Bytes) (w : World R.Keys) (f : Store P) (o : Option P.Msg)
      → str_case_equal type (codes "--FORMAT") ≡ false
      → seen R w.keys key ≡ shown P o
      → f key ≡ o
      → Own key w
          (run_op P R (get key type) w)
          f
          (asked_answer P null (λ m. text_answer P (P.serialize m)) type o)
  unfolding run_op run_command
  get-Own key type w f none free s e =
      Own-at key w f none null (get_missing P R key type w free (ap (λ x. x.0) s)) s e refl
  get-Own key type w f (some m) free s e =
      Own-at key w f (some m) _ (get_ours P R key type w free m (ap (λ x. x.0) s) (ap (λ x. x.1) s))
        s e refl
