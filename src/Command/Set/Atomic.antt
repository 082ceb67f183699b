-- ===== src/Command/Set/Atomic.antt =====
-- What a PB.SET that fails leaves behind.
use redis_protobuf.Base.{
  ◌≡◌, sym, ◌∙◌, ◌⊎◌, true, beq, Option-cases, refl, Bool-cases, inl, inr, false, List, ◌∷◌, Bytes,
  arith, ℤ, pos,
}
use redis_protobuf.Errors.{Error, Outcome, ok, err, abort}
use redis_protobuf.Exec.{pure, ◌>>◌, continue}
use redis_protobuf.Protobuf.{Protobuf, type_name}
use redis_protobuf.ProtoFactory.{create_from}
use redis_protobuf.Path.{FieldPath, is_root}
use redis_protobuf.ModuleApi.{
  Redis, World, KeyKind, missing, ours, other, get_msg_by_key, mode_bits, write_only, open_existing,
}
use redis_protobuf.Command.Set.{
  is_nx, is_xx, replace_msg, set_msg, new_msg, create_msg, set_value, expire_key, run_on, run_set,
}
use redis_protobuf.Command.Set.Args.{SetArgs, parse_args}

KeyKind-cases : (k : KeyKind) → (k ≡ missing) ⊎ ((k ≡ ours) ⊎ (k ≡ other))
KeyKind-cases missing = inl refl
KeyKind-cases ours = inr (inl refl)
KeyKind-cases other = inr (inr refl)

module _ (P : Protobuf) (R : Redis P.Msg) where
  stored-unchanged :
      (key : Bytes) (o : Outcome P.Msg) (w : World R.Keys) {e : Error}
      → (continue o (set_value P R key) w).0 ≡ err e
      → (continue o (set_value P R key) w).1 ≡ w
  unfolding set_value
  stored-unchanged key (ok m) w h = ground arith
  stored-unchanged key (err _) w h = refl
  stored-unchanged key abort w h = refl

  expire_key_ok : (key : Bytes) (ms : ℤ) (w : World R.Keys) → (expire_key P R key ms w).0 ≡ ok tt
  unfolding expire_key
  expire_key_ok key ms w = ground arith

  -- Behind the creation nothing throws.
  then-unchanged :
      (key : Bytes) (ms : ℤ) (o : Outcome (Unit {0})) (v w : World R.Keys) {e : Error}
      → ((e : Error) → o ≡ err e → v ≡ w)
      → (continue o (λ u. expire_key P R key ms >> pure (pos 1)) v).0 ≡ err e
      → (continue o (λ u. expire_key P R key ms >> pure (pos 1)) v).1 ≡ w
  then-unchanged key ms (ok u) v w {e} g h = cc (rw (expire_key_ok key ms v) at h)
  then-unchanged key ms (err d) v w g h = g d refl
  then-unchanged key ms abort v w g h = cc h

  run_on-missing :
      (args : SetArgs) (w : World R.Keys) {e : Error}
      → (run_on P R args false w).0 ≡ err e
      → (run_on P R args false w).1 ≡ w
  unfolding run_on create_msg
  run_on-missing args w h = elim (Bool-cases (is_xx args.opt)) [
    | inl x ↦ rw x refl
    | inr x ↦ rw x (
        then-unchanged args.key_name args.expire _ _ w
          (λ d. stored-unchanged args.key_name (new_msg P R args.path args.val) w) (rw x at h))
  ]

  replace_msg-unchanged :
      (key : Bytes) (path : FieldPath) (val : Bytes) (msg : P.Msg) (w : World R.Keys) {e : Error}
      → (replace_msg P R key path val msg w).0 ≡ err e
      → (replace_msg P R key path val msg w).1 ≡ w
  unfolding replace_msg
  replace_msg-unchanged key path val msg w h = elim (Bool-cases (beq (type_name P msg) path.type)) [
    | inl t ↦ rw t (stored-unchanged key (create_from P path.type val) w (rw t at h))
    | inr t ↦ rw t refl
  ]

  set_msg-unchanged :
      (key : Bytes) (path : FieldPath) (val : Bytes) (w : World R.Keys) {e : Error}
      → is_root path ≡ true
      → (set_msg P R key path val w).0 ≡ err e
      → (set_msg P R key path val w).1 ≡ w
  unfolding set_msg get_msg_by_key
  set_msg-unchanged key path val w r h = elim (Option-cases (R.value w.keys key)) [
    | inl v ↦ rw v refl
    | inr (m, v) ↦ rw (v, r) (replace_msg-unchanged key path val m w (rw (v, r) at h))
  ]

  run_on-root :
      (args : SetArgs) (w : World R.Keys) {e : Error}
      → is_root args.path ≡ true
      → (run_on P R args true w).0 ≡ err e
      → (run_on P R args true w).1 ≡ w
  unfolding run_on
  run_on-root args w r h = elim (Bool-cases (is_nx args.opt)) [
    | inl x ↦ rw x refl
    | inr x ↦ rw x (
        then-unchanged args.key_name args.expire _ _ w
          (λ d. set_msg-unchanged args.key_name args.path args.val w r) (rw x at h))
  ]

  -- If the handler of PB.SET throws for a key that is missing, or for a whole message, nothing has changed
  -- but that the key was opened for writing: neither the keyspace nor the replies.
  pub run_set_unchanged :
      (argv : List Bytes) (args : SetArgs) (w : World R.Keys) {e : Error}
      → parse_args argv ≡ ok args
      → (R.key_kind w.keys args.key_name ≡ missing) ⊎ (is_root args.path ≡ true)
      → (run_set P R argv w).0 ≡ err e
      → (run_set P R argv w).1
        ≡ record w { opened = (args.key_name, mode_bits write_only) ∷ w.opened }
  unfolding run_set open_existing
  run_set_unchanged argv args w p c h =
      let v : World R.Keys = record w { opened = (args.key_name, 2) ∷ w.opened } in
      elim (KeyKind-cases (R.key_kind w.keys args.key_name)) [
        | inl k ↦ rw (p, k) (run_on-missing args v (rw (p, k) at h))
        | inr (inl k) ↦ elim c [
          | inl k' ↦ cc (sym k ∙ k')
          | inr r ↦ rw (p, k) (run_on-root args v r (rw (p, k) at h))
        ]
        | inr (inr k) ↦ rw (p, k) refl
      ]
