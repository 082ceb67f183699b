-- ===== src/Base/Lists.antt =====
-- Lists measured and indexed by native numbers, and lists of bytes.
use Prim.Native.Nat.{ℕ, zero, suc, ◌+◌}
use Prim.Native.Char.{code}
use Prim.Native.String.{String}
use mathlib.Core.Path.{◌≡◌, refl, sym, ap, ◌∙◌}
use mathlib.Core.Bool.{Bool, true, false, ◌&&◌, ◌||◌}
use mathlib.Core.List.{List, [], ◌∷◌, ◌++◌}
use mathlib.Core.Option.{Option, none, some}
use native.Mathlib.Omega.{arith}
use redis_protobuf.Base.Tests.{◌==◌, if◌then◌else◌}

abbrev pub Bytes : Type 0
Bytes = List ℕ

-- The bytes of an ASCII literal.
abbrev pub codes : String → Bytes
codes String.[] = []
codes (String.◌∷◌ c s) = code c ∷ codes s

-- std::string::operator==
abbrev pub beq : Bytes → Bytes → Bool
beq [] [] = true
beq [] (_ ∷ _) = false
beq (_ ∷ _) [] = false
beq (a ∷ s) (b ∷ t) = (a == b) && beq s t

pub beq_refl : (s : Bytes) → beq s s ≡ true
beq_refl [] = refl
beq_refl (a ∷ s) = ground (arith, beq_refl s)

pub beq→eq : (s t : Bytes) → beq s t ≡ true → s ≡ t
beq→eq [] [] h = refl
beq→eq [] (_ ∷ _) h = cc
beq→eq (_ ∷ _) [] h = cc
beq→eq (a ∷ s) (b ∷ t) h = ground (arith, beq→eq s t)

pub beq_false→ne : (s t : Bytes) → beq s t ≡ false → ¬ (s ≡ t)
beq_false→ne s t h p = let e : false ≡ true = sym h ∙ ap (λ x. beq x t) p ∙ beq_refl t in cc e

-- whether a container of strings has this one
abbrev pub elem : Bytes → List Bytes → Bool
elem f [] = false
elem f (g ∷ fs) = if beq g f then true else elem f fs

pub elem-append : (f : Bytes) (s t : List Bytes) → elem f (s ++ t) ≡ (elem f s || elem f t)
elem-append f [] t = refl
elem-append f (g ∷ s) t = ground (arith, elem-append f s t)

module _ {ℓ} {A : Type ℓ} where
  -- std::string::substr(i), for an `i` that is not beyond the end
  abbrev pub substr : List A → ℕ → List A
  substr [] i = []
  substr (x ∷ xs) zero = x ∷ xs
  substr (x ∷ xs) (suc i) = substr xs i

  abbrev pub is_empty : List A → Bool
  is_empty [] = true
  is_empty (_ ∷ _) = false

  abbrev pub length : List A → ℕ
  length [] = 0
  length (x ∷ xs) = suc (length xs)

  abbrev pub get_elem? : List A → ℕ → Option A
  get_elem? [] i = none
  get_elem? (x ∷ xs) zero = some x
  get_elem? (x ∷ xs) (suc i) = get_elem? xs i

  pub length-append : (xs ys : List A) → length (xs ++ ys) ≡ length xs + length ys
  length-append [] ys = omega arith
  length-append (x ∷ xs) ys = omega (arith, length-append xs ys)

module _ {ℓ κ} {A : Type ℓ} (P : A → Type κ) where
  abbrev pub All : List A → Type κ
  All [] = Unit
  All (x ∷ xs) = P x × All xs

  pub All-append : (xs ys : List A) → All xs → All ys → All (xs ++ ys)
  All-append [] ys _ hy = hy
  All-append (x ∷ xs) ys (px, hx) hy = (px, All-append xs ys hx hy)
