-- ===== src/Exec/Preserves.antt =====
-- Code that keeps a property of the state.
use redis_protobuf.Base.{◌≡◌, refl, Bool, true, false, if◌then◌else◌}
use redis_protobuf.Errors.{Error, Outcome, ok, err, abort}
use redis_protobuf.Exec.{Exec, pure, throw, lift, continue, ◌>>=◌}

-- The code keeps a property of the state, whether it returns or throws.
pub record Preserves {ℓ κ} {S A : Type ℓ} (Q : S → Type κ) (m : Exec S A) : Type (ℓ ⊔ κ) where
  pub at : (s : S) → Q s → Q (m s).1

module _ {ℓ κ} {S A : Type ℓ} {Q : S → Type κ} where
  pub Preserves-pure : (a : A) → Preserves Q (pure a)
  Preserves-pure a = record { at = λ s q. q }

  pub Preserves-throw : (e : Error) → Preserves Q (throw {A = A} e)
  Preserves-throw e = record { at = λ s q. q }

  pub Preserves-if :
      (b : Bool) (m n : Exec S A) → Preserves Q m → Preserves Q n → Preserves Q (if b then m else n)
  Preserves-if true m n km kn = km
  Preserves-if false m n km kn = kn

module _ {ℓ κ} {S A B : Type ℓ} {Q : S → Type κ} where
  -- The rest may use what the first part returned, and the property behind it.
  pub Preserves-from :
      (m : Exec S A) (f : A → Exec S B) (s : S)
      → Q (m s).1
      → ((a : A) → Preserves Q (f a))
      → Q ((m >>= f) s).1
  Preserves-from m f s q k = go (m s).0 (m s).1 q
    where
      go : (o : Outcome A) (t : S) → Q t → Q (continue o f t).1
      go (ok a) t q = (k a).at t q
      go (err e) t q = q
      go abort t q = q

  pub Preserves-bind :
      (m : Exec S A) (f : A → Exec S B)
      → Preserves Q m
      → ((a : A) → Preserves Q (f a))
      → Preserves Q (m >>= f)
  Preserves-bind m f km kf = record { at = λ s q. Preserves-from m f s (km.at s q) kf }

  pub Preserves-lift :
      (o : Outcome A) (f : A → Exec S B)
      → ((a : A) → o ≡ ok a → Preserves Q (f a))
      → Preserves Q (lift o >>= f)
  Preserves-lift (ok a) f k = record { at = (k a refl).at }
  Preserves-lift (err e) f k = record { at = λ s q. q }
  Preserves-lift abort f k = record { at = λ s q. q }
