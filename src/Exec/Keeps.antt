-- ===== src/Exec/Keeps.antt =====
-- Code that leaves a part of the state alone, and code that sees only a part of it.
use mathlib.Core.Path.{subst}
use redis_protobuf.Base.{◌≡◌, refl, ◌∙◌, Bool, true, false, if◌then◌else◌}
use redis_protobuf.Errors.{Error, Outcome, ok, err, abort}
use redis_protobuf.Exec.{Exec, pure, throw, lift, gets, continue, ◌>>=◌}

-- The code leaves what `view` shows of the state alone.
pub record Keeps {ℓ κ} {S A : Type ℓ} {V : Type κ} (view : S → V) (m : Exec S A)
    : Type (ℓ ⊔ κ) where
  pub at : (s : S) → view (m s).1 ≡ view s

module _ {ℓ κ} {S A : Type ℓ} {V : Type κ} {view : S → V} where
  pub Keeps-pure : (a : A) → Keeps view (pure a)
  Keeps-pure a = record { at = λ s. refl }

  pub Keeps-throw : (e : Error) → Keeps view (throw {A = A} e)
  Keeps-throw e = record { at = λ s. refl }

  pub Keeps-lift : (r : Outcome A) → Keeps view (lift r)
  Keeps-lift r = record { at = λ s. refl }

  pub Keeps-gets : (f : S → A) → Keeps view (gets f)
  Keeps-gets f = record { at = λ s. refl }

  pub Keeps-if :
      (b : Bool) (m n : Exec S A) → Keeps view m → Keeps view n → Keeps view (if b then m else n)
  Keeps-if true m n km kn = km
  Keeps-if false m n km kn = kn

module _ {ℓ κ} {S A B : Type ℓ} {V : Type κ} {view : S → V} where
  pub Keeps-bind :
      (m : Exec S A) (f : A → Exec S B)
      → Keeps view m
      → ((a : A) → Keeps view (f a))
      → Keeps view (m >>= f)
  Keeps-bind m f km kf = record { at = λ s. go s (m s).0 ∙ km.at s }
    where
      go : (s : S) (o : Outcome A) → view (continue o f (m s).1).1 ≡ view (m s).1
      go s (ok a) = (kf a).at (m s).1
      go s (err e) = refl
      go s abort = refl

pub ruleset keeps_rules = (Keeps-pure, Keeps-throw, Keeps-lift, Keeps-gets, Keeps-if, Keeps-bind)

-- What the code returns, and what `view` shows behind it, depend only on what `view` showed before.
pub record Within {ℓ κ} {S A : Type ℓ} {V : Type κ} (view : S → V) (m : Exec S A)
    : Type (ℓ ⊔ κ) where
  pub at : (s t : S) → view s ≡ view t → ((m s).0 ≡ (m t).0) × (view (m s).1 ≡ view (m t).1)

module _ {ℓ κ} {S A : Type ℓ} {V : Type κ} {view : S → V} where
  pub Within-lift : (r : Outcome A) → Within view (lift r)
  Within-lift r = record { at = λ s t h. (refl, h) }

  pub Within-pure : (a : A) → Within view (pure a)
  Within-pure a = record { at = λ s t h. (refl, h) }

  pub Within-throw : (e : Error) → Within view (throw {A = A} e)
  Within-throw e = record { at = λ s t h. (refl, h) }

  pub Within-if :
      (b : Bool) (m n : Exec S A) → Within view m → Within view n → Within view (if b then m else n)
  Within-if true m n km kn = km
  Within-if false m n km kn = kn

module _ {ℓ κ} {S A B : Type ℓ} {V : Type κ} {view : S → V} where
  pub Within-bind :
      (m : Exec S A) (f : A → Exec S B)
      → Within view m
      → ((a : A) → Within view (f a))
      → Within view (m >>= f)
  Within-bind m f km kf = record {
    at = λ s t h.
        let (a, b) = km.at s t h in
        subst
          (λ o.
            (((m >>= f) s).0 ≡ (continue o f (m t).1).0)
            × (view ((m >>= f) s).1 ≡ view (continue o f (m t).1).1))
          a (go (m s).0 (m s).1 (m t).1 b);
  }
    where
      go :
          (o : Outcome A) (s t : S)
          → view s ≡ view t
          → ((continue o f s).0 ≡ (continue o f t).0)
            × (view (continue o f s).1 ≡ view (continue o f t).1)
      go (ok a) s t h = (kf a).at s t h
      go (err e) s t h = (refl, h)
      go abort s t h = (refl, h)

pub ruleset within_rules = (Within-pure, Within-throw, Within-lift, Within-if, Within-bind)
