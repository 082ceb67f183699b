-- ===== src/Command/Registry/Keyspace/OwnRest.antt =====
-- len_command.cpp, type_command.cpp, clear_command.cpp, merge_command.cpp: what PB.LEN, PB.TYPE, PB.CLEAR and
-- PB.MERGE of a whole message do to the key, and answer.
use redis_protobuf.Base.{
  ◌≡◌, refl, ap, ◌∙◌, true, Bool-cases, Option, none, some, inl, inr, Bytes, beq, pos,
  if◌then◌else◌,
}
use redis_protobuf.Errors.{type_mismatch, Outcome, ok, err, abort}
use redis_protobuf.Protobuf.{Protobuf, type_name}
use redis_protobuf.ProtoFactory.{create_from}
use redis_protobuf.ModuleApi.{long_long, null, error_answer, Redis, World}
use redis_protobuf.Command.Registry.{run_command}
use redis_protobuf.Command.Registry.Local.{seen}
use redis_protobuf.Command.Registry.Keyspace.{
  clear, len, type_of, merge, KeyspaceLaws, run_op, Store, update, accepts, cleared, merged,
  merged_with, merge_answer, made_answer, asked_answer, name_answer,
}
use redis_protobuf.Command.Registry.Keyspace.RestWorlds.{
  len_missing, len_ours, clear_missing, clear_ours, clear_ours-other, type_missing, type_ours,
  merge_missing, merge_missing-refused, merge_ours, merge_ours-refused, merge_ours-other,
}
use redis_protobuf.Command.Registry.Keyspace.Own.{
  shown, Own, Own-at, update_self, create_from-Returns,
}
use redis_protobuf.Persistence.Aof.{IsNoOption}

module _ (P : Protobuf) (R : Redis P.Msg) (laws : KeyspaceLaws R) where
  pub len-Own :
      (key type : Bytes) (w : World R.Keys) (f : Store P) (o : Option P.Msg)
      → seen R w.keys key ≡ shown P o
      → f key ≡ o
      → Own P R laws key w
          (run_op P R (len key type) w)
          f
          (asked_answer P (long_long (pos 0)) (λ m. long_long (pos (P.byte_size m))) type o)
  unfolding run_op run_command
  len-Own key type w f none s e =
      Own-at P R laws key w f none _ (len_missing P R key type w (ap (λ x. x.0) s)) s e refl
  len-Own key type w f (some m) s e =
      Own-at P R laws key w f (some m) _
        (len_ours P R key type w m (ap (λ x. x.0) s) (ap (λ x. x.1) s)) s e refl

  pub type-Own :
      (key : Bytes) (w : World R.Keys) (f : Store P) (o : Option P.Msg)
      → seen R w.keys key ≡ shown P o
      → f key ≡ o
      → Own P R laws key w (run_op P R (type_of key) w) f (name_answer P o)
  unfolding run_op run_command
  type-Own key w f none s e =
      Own-at P R laws key w f none null (type_missing P R key w (ap (λ x. x.0) s)) s e refl
  type-Own key w f (some m) s e =
      Own-at P R laws key w f (some m) _ (type_ours P R key w m (ap (λ x. x.0) s) (ap (λ x. x.1) s))
        s e refl

  pub clear-Own :
      (key type : Bytes) (w : World R.Keys) (f : Store P) (o : Option P.Msg)
      → seen R w.keys key ≡ shown P o
      → f key ≡ o
      → Own P R laws key w
          (run_op P R (clear key type) w)
          (if accepts P type o then update P f key (cleared P o) else f)
          (asked_answer P (long_long (pos 0)) (λ m. long_long (pos 1)) type o)
  unfolding run_op run_command
  clear-Own key type w f none s e =
      Own-at P R laws key w (update P f key none) none _
        (clear_missing P R key type w (ap (λ x. x.0) s)) s (update_self P f key none) refl
  clear-Own key type w f (some old) s e = elim (Bool-cases (beq (type_name P old) type)) [
    | inl t ↦ rw t (
        Own-at P R laws key w (update P f key (some (P.clear old))) (some (P.clear old))
          (long_long (pos 1)) (clear_ours P R key type w old (ap (λ x. x.0) s) (ap (λ x. x.1) s) t)
          (laws.seen-store_self w.keys key (P.clear old) (ap (λ x. x.0) s))
          (update_self P f key (some (P.clear old))) refl)
    | inr t ↦ rw t (
        Own-at P R laws key w f (some old) (error_answer type_mismatch)
          (clear_ours-other P R key type w old (ap (λ x. x.0) s) (ap (λ x. x.1) s) t) s e refl)
  ]

  pub merge-Own :
      (key type val : Bytes) (w : World R.Keys) (f : Store P) (o : Option P.Msg) (c : Outcome P.Msg)
      → IsNoOption type
      → seen R w.keys key ≡ shown P o
      → f key ≡ o
      → create_from P type val ≡ c
      → Own P R laws key w
          (run_op P R (merge key type val) w)
          (if accepts P type o then merged P f key c else f)
          (if accepts P type o
            then made_answer P (merge_answer P o) c
            else error_answer type_mismatch)
  unfolding run_op run_command
  merge-Own key type val w f o abort free s e h = absurd (create_from-Returns P type val h)
  merge-Own key type val w f none (ok m) free s e h =
      let (ks, k) = laws.set_value-succeeds w.keys key m in
      Own-at P R laws key w (merged P f key (ok m)) (some m) (long_long (pos 0))
        (merge_missing P R key type val w free m ks (ap (λ x. x.0) s) h k)
        (laws.seen-set_self w.keys ks key m k)
        (update_self P f key (some (merged_with P (f key) m))
          ∙ ap (λ x. some (merged_with P x m)) e)
        refl
  merge-Own key type val w f none (err x) free s e h =
      Own-at P R laws key w f none (error_answer x)
        (merge_missing-refused P R key type val w free x (ap (λ x. x.0) s) h) s e refl
  merge-Own key type val w f (some old) c free s e h =
      elim (Bool-cases (beq (type_name P old) type)) [
        | inl t ↦ rw t (accepted-Own c t h)
        | inr t ↦ rw t (
            Own-at P R laws key w f (some old) (error_answer type_mismatch)
              (merge_ours-other P R key type val w old (ap (λ x. x.0) s) (ap (λ x. x.1) s) t)
              (laws.seen-store_self w.keys key old (ap (λ x. x.0) s)) e refl)
      ]
    where
      accepted-Own :
          (c : Outcome P.Msg)
          → beq (type_name P old) type ≡ true
          → create_from P type val ≡ c
          → Own P R laws key w
              (run_op P R (merge key type val) w)
              (merged P f key c)
              (made_answer P 1 c)
      accepted-Own (ok m) t h =
          Own-at P R laws key w (merged P f key (ok m)) (some (P.merge_from old m))
            (long_long (pos 1))
            (merge_ours P R key type val w old (ap (λ x. x.0) s) (ap (λ x. x.1) s) m t h)
            (laws.seen-store_self w.keys key (P.merge_from old m) (ap (λ x. x.0) s))
            (update_self P f key (some (merged_with P (f key) m))
              ∙ ap (λ x. some (merged_with P x m)) e)
            refl
      accepted-Own (err x) t h =
          Own-at P R laws key w f (some old) (error_answer x)
            (merge_ours-refused P R key type val w old (ap (λ x. x.0) s) (ap (λ x. x.1) s) x t h)
            (laws.seen-store_self w.keys key old (ap (λ x. x.0) s)) e refl
      accepted-Own abort t h = absurd (create_from-Returns P type val h)
