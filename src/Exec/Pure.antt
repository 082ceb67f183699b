-- ===== src/Exec/Pure.antt =====
-- Code that leaves the state alone.
use redis_protobuf.Base.{◌≡◌, refl, ◌∙◌, Bool, true, false, if◌then◌else◌}
use redis_protobuf.Errors.{Error, Outcome, ok, err, abort}
use redis_protobuf.Exec.{Exec, pure, throw, lift, gets, continue, ◌>>=◌}

module _ {ℓ} {S A : Type ℓ} where
  -- The code leaves the state alone, whether it returns or throws.
  pub record Pure (m : Exec S A) : Type ℓ where
    pub at : (s : S) → (m s).1 ≡ s

  pub Pure-pure : (a : A) → Pure (pure a)
  Pure-pure a = record { at = λ s. refl }

  pub Pure-throw : (e : Error) → Pure (throw {A = A} e)
  Pure-throw e = record { at = λ s. refl }

  pub Pure-lift : (r : Outcome A) → Pure (lift r)
  Pure-lift r = record { at = λ s. refl }

  pub Pure-gets : (f : S → A) → Pure (gets f)
  Pure-gets f = record { at = λ s. refl }

  pub Pure-if : (b : Bool) (m n : Exec S A) → Pure m → Pure n → Pure (if b then m else n)
  Pure-if true m n km kn = km
  Pure-if false m n km kn = kn

module _ {ℓ} {S A B : Type ℓ} where
  pub Pure-bind :
      (m : Exec S A) (f : A → Exec S B) → Pure m → ((a : A) → Pure (f a)) → Pure (m >>= f)
  Pure-bind m f km kf = record { at = λ s. go s (m s).0 ∙ km.at s }
    where
      go : (s : S) (o : Outcome A) → (continue o f (m s).1).1 ≡ (m s).1
      go s (ok a) = (kf a).at (m s).1
      go s (err e) = refl
      go s abort = refl

pub ruleset pure_rules = (Pure-pure, Pure-throw, Pure-lift, Pure-gets, Pure-if, Pure-bind)
