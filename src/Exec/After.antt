-- ===== src/Exec/After.antt =====
-- What holds when the code returns.
use mathlib.Core.Path.{subst}
use redis_protobuf.Base.{◌≡◌}
use redis_protobuf.Errors.{Outcome, ok, err, abort}
use redis_protobuf.Exec.{Exec, continue, ◌>>=◌}

-- `post` holds of the result and the state if the code returns; of a throw nothing is said.
abbrev pub After {ℓ κ} : {S A : Type ℓ} → (A → S → Type κ) → Outcome A → S → Type κ
After post (ok a) s = post a s
After post (err e) s = Unit
After post abort s = Unit

module _ {ℓ} {S A : Type ℓ} where
  pub After-Unit : (o : Outcome A) (s : S) → After (λ _ _. Unit {0}) o s
  After-Unit (ok a) s = tt
  After-Unit (err e) s = tt
  After-Unit abort s = tt

  pub After-ok {κ} :
      (post : A → S → Type κ) (o : Outcome A) (s : S) {a : A} → After post o s → o ≡ ok a → post a s
  After-ok post (ok b) s {a} h e = let p : b ≡ a = cc e in subst (λ x. post x s) p h
  After-ok post (err _) s h e = cc e
  After-ok post abort s h e = cc e

module _ {ℓ κ} {S A B : Type ℓ} where
  pub After->>= :
      (mid : A → S → Type κ) (post : B → S → Type κ) (m : Exec S A) (f : A → Exec S B) (s : S)
      → After mid (m s).0 (m s).1
      → ((a : A) (t : S) → mid a t → After post (f a t).0 (f a t).1)
      → After post ((m >>= f) s).0 ((m >>= f) s).1
  After->>= mid post m f s h k = go (m s).0 (m s).1 h
    where
      go :
          (o : Outcome A) (t : S) → After mid o t → After post (continue o f t).0 (continue o f t).1
      go (ok a) t h = k a t h
      go (err e) t h = tt
      go abort t h = tt
