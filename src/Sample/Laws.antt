-- ===== src/Sample/Laws.antt =====
-- The sample instance meets what the development assumes of protobuf.
use native.Mathlib.Decide.{ℕ_discrete}
use redis_protobuf.Base.{
  ℕ, zero, suc, ◌+◌, ◌-◌, ◌<◌, ◌≡◌, ◌≢◌, refl, sym, ap, ◌∙◌, true, false, List, [], ◌∷◌, Bytes,
  beq_refl, length, length-append, arith, ℤ, pos,
}
use redis_protobuf.Errors.{ok}
use redis_protobuf.Protobuf.{CppType, int32, uint64, string, message, MapKey}
use redis_protobuf.FieldRef.{map_value_type}
use redis_protobuf.FieldRef.Delete.{RepeatedLaws}
use redis_protobuf.FieldRef.RoundTrip.{AccessLaws}
use redis_protobuf.Sample.{
  Node, node, Kids, nil, cons, NodeField, wide, text, nums, words, child, kids, table, NodeValue,
  sample, at, put, drop_last, swap, field_type, repeated, mapped, at_key, has_key, put_key, kid,
  put_kid, count_kids, key_text,
}

module _ {A : Type 0} where
  at-put_self : (d : A) (xs : List A) (i : ℕ) (v : A) → i < length xs → at d (put xs i v) i ≡ v
  at-put_self d [] i v h = absurd (omega arith)
  at-put_self d (x ∷ xs) zero v h = refl
  at-put_self d (x ∷ xs) (suc i) v h = at-put_self d xs i v (omega arith)

  pub at-put_ne : (d : A) (xs : List A) (i j : ℕ) (v : A) → i ≢ j → at d (put xs i v) j ≡ at d xs j
  at-put_ne d [] i j v h = refl
  at-put_ne d (x ∷ xs) zero zero v h = absurd (h refl)
  at-put_ne d (x ∷ xs) zero (suc j) v h = refl
  at-put_ne d (x ∷ xs) (suc i) zero v h = refl
  at-put_ne d (x ∷ xs) (suc i) (suc j) v h = at-put_ne d xs i j v (λ e. h (ap suc e))

  length-put : (xs : List A) (i : ℕ) (v : A) → length (put xs i v) ≡ length xs
  length-put [] i v = refl
  length-put (x ∷ xs) zero v = refl
  length-put (x ∷ xs) (suc i) v = ap suc (length-put xs i v)

  length-drop_last : (xs : List A) → length (drop_last xs) ≡ length xs - 1
  length-drop_last [] = omega arith
  length-drop_last (x ∷ []) = omega arith
  length-drop_last (x ∷ y ∷ xs) = omega (arith, length-drop_last (y ∷ xs))

  at-drop_last :
      (d : A) (xs : List A) (k : ℕ) → k < length xs - 1 → at d (drop_last xs) k ≡ at d xs k
  at-drop_last d [] k h = absurd (omega arith)
  at-drop_last d (x ∷ []) k h = absurd (omega arith)
  at-drop_last d (x ∷ y ∷ xs) zero h = refl
  at-drop_last d (x ∷ y ∷ xs) (suc k) h = at-drop_last d (y ∷ xs) k (omega arith)

  module _ (d : A) (xs : List A) (i j : ℕ) (hi : i < length xs) (hj : j < length xs) where
    length-swap : length (swap d xs i j) ≡ length xs
    length-swap = length-put (put xs i (at d xs j)) j (at d xs i) ∙ length-put xs i (at d xs j)

    at-swap_right : at d (swap d xs i j) j ≡ at d xs i
    at-swap_right =
        at-put_self d (put xs i (at d xs j)) j (at d xs i)
          (omega (arith, length-put xs i (at d xs j)))

    at-swap_left : at d (swap d xs i j) i ≡ at d xs j
    at-swap_left = elim (ℕ_discrete j i) [
      | yes e ↦ ap (at d (swap d xs i j)) (sym e) ∙ at-swap_right ∙ ap (at d xs) (sym e)
      | no ne ↦
          at-put_ne d (put xs i (at d xs j)) j i (at d xs i) ne ∙ at-put_self d xs i (at d xs j) hi
    ]

    at-swap_other : (k : ℕ) → k ≢ i → k ≢ j → at d (swap d xs i j) k ≡ at d xs k
    at-swap_other k ni nj =
        at-put_ne d (put xs i (at d xs j)) j k (at d xs i) (λ e. nj (sym e))
        ∙ at-put_ne d xs i k (at d xs j) (λ e. ni (sym e))

-- The numbers are a repeated field.
pub nums-RepeatedLaws : RepeatedLaws sample int32 nums
nums-RepeatedLaws = record {
  size-swap = size_lem;
  get-swap_left = left;
  get-swap_right = right;
  get-swap_other = other;
  size-remove_last = size_last;
  get-remove_last = last;
}
  where
    size_lem :
        (m : Node) (i j : ℕ)
        → i < sample.field_size m nums
        → j < sample.field_size m nums
        → sample.field_size (sample.swap_elements m nums i j) nums ≡ sample.field_size m nums
    size_lem (node w s xs ws c ks m) i j hi hj = length-swap (pos 0) xs i j hi hj

    left :
        (m : Node) (i j : ℕ)
        → i < sample.field_size m nums
        → j < sample.field_size m nums
        → sample.get_repeated int32 (sample.swap_elements m nums i j) nums i
          ≡ sample.get_repeated int32 m nums j
    left (node w s xs ws c ks m) i j hi hj = at-swap_left (pos 0) xs i j hi hj

    right :
        (m : Node) (i j : ℕ)
        → i < sample.field_size m nums
        → j < sample.field_size m nums
        → sample.get_repeated int32 (sample.swap_elements m nums i j) nums j
          ≡ sample.get_repeated int32 m nums i
    right (node w s xs ws c ks m) i j hi hj = at-swap_right (pos 0) xs i j hi hj

    other :
        (m : Node) (i j k : ℕ)
        → i < sample.field_size m nums
        → j < sample.field_size m nums
        → k ≢ i
        → k ≢ j
        → sample.get_repeated int32 (sample.swap_elements m nums i j) nums k
          ≡ sample.get_repeated int32 m nums k
    other (node w s xs ws c ks m) i j k hi hj = at-swap_other (pos 0) xs i j hi hj k

    size_last :
        (m : Node)
        → 0 < sample.field_size m nums
        → sample.field_size (sample.remove_last m nums) nums ≡ sample.field_size m nums - 1
    size_last (node w s xs ws c ks m) h = length-drop_last xs

    last :
        (m : Node) (k : ℕ)
        → k < sample.field_size m nums - 1
        → sample.get_repeated int32 (sample.remove_last m nums) nums k
          ≡ sample.get_repeated int32 m nums k
    last (node w s xs ws c ks m) k h = at-drop_last (pos 0) xs k h

get-set_lem :
    (t : CppType) (m : Node) (f : NodeField) (v : NodeValue t)
    → repeated f ≡ false
    → field_type f ≡ t
    → sample.get t (sample.set t m f v) f ≡ v
get-set_lem uint64 (node w s xs ws c ks m) wide v a e = refl
get-set_lem string (node w s xs ws c ks m) text v a e = refl
get-set_lem message (node w s xs ws c ks m) child v a e = refl
get-set_lem _ (node w s xs ws c ks m) f v a e = ground arith

kid-put_self : (ks : Kids) (i : ℕ) (v : Node) → i < count_kids ks → kid (put_kid ks i v) i ≡ v
kid-put_self nil i v h = absurd (omega arith)
kid-put_self (cons n ks) zero v h = refl
kid-put_self (cons n ks) (suc i) v h = kid-put_self ks i v (omega arith)

count-put_kid : (ks : Kids) (i : ℕ) (v : Node) → count_kids (put_kid ks i v) ≡ count_kids ks
count-put_kid nil i v = refl
count-put_kid (cons n ks) zero v = refl
count-put_kid (cons n ks) (suc i) v = ap suc (count-put_kid ks i v)

size-set_lem :
    (t : CppType) (m : Node) (f : NodeField) (i : ℕ) (v : NodeValue t)
    → sample.field_size (sample.set_repeated t m f i v) f ≡ sample.field_size m f
size-set_lem int32 (node w s xs ws c ks m) nums i v = length-put xs i v
size-set_lem string (node w s xs ws c ks m) words i v = length-put ws i v
size-set_lem message (node w s xs ws c ks m) kids i v = count-put_kid ks i v
size-set_lem _ (node w s xs ws c ks m) f i v = ground arith

get-set_repeated_lem :
    (t : CppType) (m : Node) (f : NodeField) (i : ℕ) (v : NodeValue t)
    → repeated f ≡ true
    → mapped f ≡ false
    → field_type f ≡ t
    → i < sample.field_size m f
    → sample.get_repeated t (sample.set_repeated t m f i v) f i ≡ v
get-set_repeated_lem int32 (node w s xs ws c ks m) nums i v a n e h = at-put_self (pos 0) xs i v h
get-set_repeated_lem string (node w s xs ws c ks m) words i v a n e h = at-put_self [] ws i v h
get-set_repeated_lem message (node w s xs ws c ks m) kids i v a n e h = kid-put_self ks i v h
get-set_repeated_lem _ (node w s xs ws c ks m) f i v a n e h = ground arith

has-put_key : (k : Bytes) (v : ℤ) (m : List (Bytes × ℤ)) → has_key k (put_key k v m) ≡ true
has-put_key k v [] = ground (arith, beq_refl k)
has-put_key k v ((j, u) ∷ m) = ground (arith, has-put_key k v m)

at-put_key : (k : Bytes) (v : ℤ) (m : List (Bytes × ℤ)) → at_key k (put_key k v m) ≡ v
at-put_key k v [] = ground (arith, beq_refl k)
at-put_key k v ((j, u) ∷ m) = ground (arith, at-put_key k v m)

module _ (k : MapKey) where
  contains-map_set_lem :
      (t : CppType) (m : Node) (f : NodeField) (v : NodeValue t)
      → mapped f ≡ true
      → map_value_type sample f ≡ ok t
      → sample.map_contains (sample.map_set t m f k v) f k ≡ true
  unfolding map_value_type
  contains-map_set_lem int32 (node w s xs ws c ks m) table v a e = has-put_key (key_text k) v m
  contains-map_set_lem _ (node w s xs ws c ks m) f v a e = ground arith

  get-map_set_lem :
      (t : CppType) (m : Node) (f : NodeField) (v : NodeValue t)
      → mapped f ≡ true
      → map_value_type sample f ≡ ok t
      → sample.map_get t (sample.map_set t m f k v) f k ≡ v
  unfolding map_value_type
  get-map_set_lem int32 (node w s xs ws c ks m) table v a e = at-put_key (key_text k) v m
  get-map_set_lem _ (node w s xs ws c ks m) f v a e = ground arith

pub sample-AccessLaws : AccessLaws sample
sample-AccessLaws = record {
  get-set = get-set_lem;
  size-set_repeated = λ t m f i v a n e lt. size-set_lem t m f i v;
  get-set_repeated = get-set_repeated_lem;
  contains-map_set = λ t m f k v. contains-map_set_lem k t m f v;
  get-map_set = λ t m f k v. get-map_set_lem k t m f v;
}

-- An add makes the list of words one longer.
pub size-add_word :
    (m : Node) (v : Bytes)
    → sample.field_size (sample.add string m words v) words ≡ sample.field_size m words + 1
size-add_word (node w s xs ws c ks m) v = omega (arith, length-append ws (v ∷ []))
