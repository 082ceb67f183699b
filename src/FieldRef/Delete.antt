-- ===== src/FieldRef/Delete.antt =====
-- The loop of _del_array_element: what PB.DEL leaves of a repeated field.
use native.Mathlib.Decide.{ℕ_discrete, dec_lt}
use redis_protobuf.Base.{
  List, [], ◌∷◌, ap, ℕ, zero, suc, ◌+◌, ◌-◌, ◌<◌, ◌≤◌, ◌≡◌, ◌≢◌, refl, ◌∙◌, arith, ltb, lt→ltb,
  not_lt→ltb, if◌then◌else◌,
}
use redis_protobuf.Protobuf.{Protobuf, CppType, ValueOf}
use redis_protobuf.FieldRef.Access.{bubble, del_array_element}

-- What protobuf documents of SwapElements and RemoveLast: how they change the size and the elements
-- of a repeated field.
pub record RepeatedLaws (P : Protobuf) (t : CppType) (f : P.Field) : Type 0 where
  pub size-swap :
      (m : P.Msg) (i j : ℕ)
      → i < P.field_size m f
      → j < P.field_size m f
      → P.field_size (P.swap_elements m f i j) f ≡ P.field_size m f
  pub get-swap_left :
      (m : P.Msg) (i j : ℕ)
      → i < P.field_size m f
      → j < P.field_size m f
      → P.get_repeated t (P.swap_elements m f i j) f i ≡ P.get_repeated t m f j
  pub get-swap_right :
      (m : P.Msg) (i j : ℕ)
      → i < P.field_size m f
      → j < P.field_size m f
      → P.get_repeated t (P.swap_elements m f i j) f j ≡ P.get_repeated t m f i
  pub get-swap_other :
      (m : P.Msg) (i j k : ℕ)
      → i < P.field_size m f
      → j < P.field_size m f
      → k ≢ i
      → k ≢ j
      → P.get_repeated t (P.swap_elements m f i j) f k ≡ P.get_repeated t m f k
  pub size-remove_last :
      (m : P.Msg) → 0 < P.field_size m f → P.field_size (P.remove_last m f) f ≡ P.field_size m f - 1
  pub get-remove_last :
      (m : P.Msg) (k : ℕ)
      → k < P.field_size m f - 1
      → P.get_repeated t (P.remove_last m f) f k ≡ P.get_repeated t m f k

-- the values of a function below `n`
abbrev pub list_of {ℓ} : {A : Type ℓ} → ℕ → (ℕ → A) → List A
list_of zero g = []
list_of (suc n) g = g 0 ∷ list_of n (λ k. g (suc k))

-- The list without its element at an index.
abbrev pub remove_at {ℓ} : {A : Type ℓ} → ℕ → List A → List A
remove_at i [] = []
remove_at zero (x ∷ xs) = xs
remove_at (suc i) (x ∷ xs) = x ∷ remove_at i xs

list_of-cong {ℓ} :
    {A : Type ℓ} (n : ℕ) (g h : ℕ → A) → ((k : ℕ) → k < n → h k ≡ g k) → list_of n h ≡ list_of n g
list_of-cong zero g h e = refl
list_of-cong (suc n) g h e =
    ap (λ x. x ∷ list_of n (λ k. h (suc k))) (e 0 (omega arith))
    ∙ ap (λ l. g 0 ∷ l)
        (list_of-cong n (λ k. g (suc k)) (λ k. h (suc k)) (λ k lt. e (suc k) (omega (arith, lt))))

shifted : (k : ℕ) → (if ltb k 0 then k else k + 1) ≡ suc k
shifted k = ground arith

first : (i : ℕ) → (if ltb 0 (suc i) then 0 else 0 + 1) ≡ 0
first i = ground arith

moved :
    (k i : ℕ)
    → (if ltb (suc k) (suc i) then suc k else suc k + 1) ≡ suc (if ltb k i then k else k + 1)
moved k i = ground arith

list_of-remove_at {ℓ} :
    {A : Type ℓ} (n i : ℕ) (g h : ℕ → A)
    → i ≤ n
    → ((k : ℕ) → k < n → h k ≡ g (if ltb k i then k else k + 1))
    → list_of n h ≡ remove_at i (list_of (suc n) g)
list_of-remove_at n zero g h le e =
    list_of-cong n (λ k. g (suc k)) h (λ k below. e k below ∙ ap g (shifted k))
list_of-remove_at zero (suc i) g h le e = absurd (omega arith)
list_of-remove_at (suc n) (suc i) g h le e =
    ap (λ x. x ∷ list_of n (λ k. h (suc k))) (e 0 (omega arith) ∙ ap g (first i))
    ∙ ap (λ l. g 0 ∷ l)
        (list_of-remove_at n i (λ k. g (suc k)) (λ k. h (suc k)) (omega arith)
          (λ k below. e (suc k) (omega (arith, below)) ∙ ap g (moved k i)))

-- The elements of a repeated field.
abbrev pub elements : (P : Protobuf) (t : CppType) (f : P.Field) → P.Msg → List (ValueOf P t)
elements P t f m = list_of (P.field_size m f) (P.get_repeated t m f)

module _ {P : Protobuf} {t : CppType} {f : P.Field} (laws : RepeatedLaws P t f) where
  open P use {Msg, field_size, get_repeated, swap_elements}
  open laws use {
    size-swap, get-swap_left, get-swap_right, get-swap_other, size-remove_last, get-remove_last,
  }

  -- the elements behind the loop: those from `i` on are moved down by one, up to the last
  size-bubble :
      (rounds i : ℕ) (m : Msg)
      → i + rounds < field_size m f
      → field_size (bubble P rounds f i m) f ≡ field_size m f
  unfolding bubble
  size-bubble zero i m h = refl
  size-bubble (suc rounds) i m h =
      let s = size-swap m i (i + 1) (omega arith) (omega arith) in
      size-bubble rounds (i + 1) (swap_elements m f i (i + 1)) (omega (arith, s)) ∙ s

  get-bubble_below :
      (rounds i k : ℕ) (m : Msg)
      → i + rounds < field_size m f
      → k < i
      → get_repeated t (bubble P rounds f i m) f k ≡ get_repeated t m f k
  unfolding bubble
  get-bubble_below zero i k m h lt = refl
  get-bubble_below (suc rounds) i k m h lt =
      let s = size-swap m i (i + 1) (omega arith) (omega arith) in
      get-bubble_below rounds (i + 1) k (swap_elements m f i (i + 1)) (omega (arith, s))
        (omega arith)
      ∙ get-swap_other m i (i + 1) k (omega arith) (omega arith) (omega arith) (omega arith)

  get-bubble_above :
      (rounds i k : ℕ) (m : Msg)
      → i + rounds < field_size m f
      → i ≤ k
      → k < i + rounds
      → get_repeated t (bubble P rounds f i m) f k ≡ get_repeated t m f (k + 1)
  unfolding bubble
  get-bubble_above zero i k m h le lt = absurd (omega arith)
  get-bubble_above (suc rounds) i k m h le lt =
      let s = size-swap m i (i + 1) (omega arith) (omega arith) in
      let m' = swap_elements m f i (i + 1) in
      elim (ℕ_discrete k i) [
        | yes e ↦
            get-bubble_below rounds (i + 1) k m' (omega (arith, s)) (omega arith)
            ∙ rw e (get-swap_left m i (i + 1) (omega arith) (omega arith))
        | no ne ↦
            get-bubble_above rounds (i + 1) k m' (omega (arith, s)) (omega arith) (omega arith)
            ∙ get-swap_other m i (i + 1) (k + 1) (omega arith) (omega arith) (omega arith)
                (omega arith)
      ]

  -- One element less is left.
  size-del :
      (i : ℕ) (m : Msg)
      → i < field_size m f
      → field_size (del_array_element P f i m) f ≡ field_size m f - 1
  unfolding del_array_element
  size-del i m h =
      let rounds = field_size m f - 1 - i in
      let s = size-bubble rounds i m (omega arith) in
      let last = size-remove_last (bubble P rounds f i m) (omega (arith, s)) in
      omega (arith, s, last)

  -- The others are left in their order.
  get-del :
      (i k : ℕ) (m : Msg)
      → i < field_size m f
      → k < field_size m f - 1
      → get_repeated t (del_array_element P f i m) f k
        ≡ get_repeated t m f (if ltb k i then k else k + 1)
  unfolding del_array_element
  get-del i k m h lt =
      let rounds = field_size m f - 1 - i in
      let s = size-bubble rounds i m (omega arith) in
      get-remove_last (bubble P rounds f i m) k (omega (arith, s)) ∙ elim (dec_lt k i) [
        | yes below ↦ rw (lt→ltb k i below) (get-bubble_below rounds i k m (omega arith) below)
        | no above ↦
            rw (not_lt→ltb k i above)
              (get-bubble_above rounds i k m (omega arith) (omega arith) (omega arith))
      ]

  -- Where SwapElements and RemoveLast do what protobuf documents, deleting the element at `i` in range of a
  -- repeated field leaves the list of the other elements, in their order: the list of all its elements
  -- is the list before without the element at `i`, so one element less.
  pub del-removes :
      (i : ℕ) (m : Msg)
      → i < field_size m f
      → elements P t f (del_array_element P f i m) ≡ remove_at i (elements P t f m)
  del-removes i m h =
      let after = get_repeated t (del_array_element P f i m) f in
      ap (λ n. list_of n after) (size-del i m h)
      ∙ list_of-remove_at (field_size m f - 1) i (get_repeated t m f) after (omega arith)
          (λ k lt. get-del i k m h lt)
      ∙ ap (λ n. remove_at i (list_of n (get_repeated t m f))) {x = suc (field_size m f - 1)}
          (omega arith)
