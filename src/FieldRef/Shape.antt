-- ===== src/FieldRef/Shape.antt =====
-- What holds of every reference that the constructor of FieldRef returns.
use redis_protobuf.Base.{
  ℕ, ◌<◌, ◌≡◌, ◌≢◌, refl, true, false, Option, none, some, List, [], ◌∷◌, Bytes, arith, Bool-cases,
  inl, inr, ◌⊎◌, ℤ, pos, negsuc, beq,
}
use redis_protobuf.Errors.{ok}
use redis_protobuf.Exec.{pure, lift, ◌>>=◌}
use redis_protobuf.Exec.After.{After, After-Unit, After-ok, After->>=}
use redis_protobuf.Utils.{stoi}
use redis_protobuf.Path.{FieldPath}
use redis_protobuf.Protobuf.{Protobuf, MapKey, message, same_type, type_name}
use redis_protobuf.FieldRef.{
  Mode, deref, Ref, parse_index, Step, found, parsed_index, read, find_field, parse_map_key,
  get_sub_msg, get_sub_repeated_msg, get_map_msg, descend, descend_index, select, advance, walk,
  start, construct,
}

parsed_index-lt :
    {S : Type 0} (name : Bytes) (size : S → ℕ) (z : Option ℤ) (s : S)
    → After (λ i t. i < size t) (parsed_index name (size s) z) s
parsed_index-lt name size none s = tt
parsed_index-lt name size (some (pos n)) s = ground arith
parsed_index-lt name size (some (negsuc n)) s = tt

module _ (P : Protobuf) where
  open P use {Msg, Field, is_repeated, is_map, field_size, cpp_type}

  -- The field, index and key of a reference to a field of `m`: an index belongs to a repeated field
  -- that is no map, and is in range; a key belongs to a map; there is never both.
  abbrev pub Fits : Msg → Option Field → Option ℕ → Option MapKey → Type 0
  Fits m none i k = ⊥
  Fits m (some f) none none = Unit
  Fits m (some f) (some i) none = (is_repeated f ≡ true) × (is_map f ≡ false) × (i < field_size m f)
  Fits m (some f) none (some k) = is_map f ≡ true
  Fits m (some f) (some i) (some k) = ⊥

  abbrev pub IsWellFormed : Ref P → Msg → Type 0
  IsWellFormed r root = Fits (read P r.loc root) r.field_desc r.arr_idx r.map_key

  -- no element is selected
  abbrev IsPlain : Ref P → Msg → Type 0
  IsPlain r root = (r.arr_idx ≡ none) × (r.map_key ≡ none)

  found-WellFormed :
      (name : Bytes) (r : Ref P) (l : List (Step Field)) (o : Option Field) (root : Msg)
      → IsPlain r root
      → After IsWellFormed (found P name r l o root).0 (found P name r l o root).1
  found-WellFormed name r l none root (hi, hk) = tt
  found-WellFormed name r l (some f) root (hi, hk) = rw (hi, hk) tt

  find_field-WellFormed :
      (name : Bytes) (r : Ref P) (l : List (Step Field)) (root : Msg)
      → IsPlain r root
      → After IsWellFormed (find_field P name r l root).0 (find_field P name r l root).1
  unfolding find_field
  find_field-WellFormed name r l root h = found-WellFormed name r l _ root h

  select-WellFormed :
      (mode : Mode) (r : Ref P) (name : Bytes) (o : Option Field) (root : Msg)
      → IsPlain r root
      → r.field_desc ≡ o
      → After IsWellFormed (select P mode r name o root).0 (select P mode r name o root).1
  unfolding select parse_index
  select-WellFormed mode r name none root h e = find_field-WellFormed name r r.loc root h
  select-WellFormed mode r name (some f) root h e = elim (Bool-cases (is_map f)) [
    | inl m ↦ rw m (
        After->>= (λ _ _. Unit) IsWellFormed (parse_map_key P mode r.loc f name)
          (λ k. pure (record r { map_key = some k })) root (After-Unit _ _)
          (λ k s _. rw (e, h.0) m))
    | inr m ↦ elim (Bool-cases (is_repeated f)) [
      | inl a ↦
          rw (m, a)
            (After->>= (λ i s. i < field_size (read P r.loc s) f) IsWellFormed
              (lift (parse_index name (field_size (read P r.loc root) f)))
              (λ i. pure (record r { arr_idx = some i })) root
              (parsed_index-lt name (λ s. field_size (read P r.loc s) f) (stoi name) root)
              (λ i s lt. rw (e, h.1) (a, m, lt)))
      | inr a ↦ elim (Bool-cases (same_type (cpp_type f) message)) [
        | inl t ↦
            rw (m, a, t)
              (After->>= (λ _ _. Unit) IsWellFormed (get_sub_msg P mode r.loc f)
                (λ l. find_field P name r l) root (After-Unit _ _)
                (λ l s _. find_field-WellFormed name r l s h))
        | inr t ↦ rw (m, a, t) tt
      ]
    ]
  ]

  -- an index and a key are never selected together
  abbrev IsExclusive : Ref P → Type 0
  IsExclusive r = (r.arr_idx ≡ none) ⊎ (r.map_key ≡ none)

  Fits-exclusive :
      (m : Msg) (f : Option Field) (i : Option ℕ) (k : Option MapKey)
      → Fits m f i k
      → (i ≡ none) ⊎ (k ≡ none)
  Fits-exclusive m none i k h = absurd h
  Fits-exclusive m (some f) none k h = inl refl
  Fits-exclusive m (some f) (some i) none h = inr refl
  Fits-exclusive m (some f) (some i) (some k) h = absurd h

  descend_index-Plain :
      (mode : Mode) (r : Ref P) (i : Option ℕ) (root : Msg)
      → r.map_key ≡ none
      → r.arr_idx ≡ i
      → After IsPlain (descend_index P mode r i root).0 (descend_index P mode r i root).1
  unfolding descend_index
  descend_index-Plain mode r none root ek ei = (ei, ek)
  descend_index-Plain mode r (some i) root ek ei =
      After->>= (λ _ _. Unit) IsPlain (lift (deref P r.field_desc))
        (λ f. get_sub_repeated_msg P mode r.loc f i >>= λ l.
          pure (record { loc = l; field_desc = none; arr_idx = none; map_key = r.map_key }))
        root (After-Unit _ _)
        (λ f s _.
          After->>= (λ _ _. Unit) IsPlain (get_sub_repeated_msg P mode r.loc f i)
            (λ l. pure (record { loc = l; field_desc = none; arr_idx = none; map_key = r.map_key }))
            s (After-Unit _ _) (λ l s _. (refl, ek)))

  key-index-none : (r : Ref P) (k : MapKey) → IsExclusive r → r.map_key ≡ some k → r.arr_idx ≡ none
  key-index-none r k (inl h) e = h
  key-index-none r k (inr h) e = cc

  descend-Plain :
      (mode : Mode) (r : Ref P) (k : Option MapKey) (root : Msg)
      → IsExclusive r
      → r.map_key ≡ k
      → After IsPlain (descend P mode r k root).0 (descend P mode r k root).1
  unfolding descend
  descend-Plain mode r none root x ek = descend_index-Plain mode r r.arr_idx root ek refl
  descend-Plain mode r (some k) root x ek =
      After->>= (λ _ _. Unit) IsPlain (lift (deref P r.field_desc))
        (λ f. get_map_msg P mode r.loc f k >>= λ l.
          pure (record { loc = l; field_desc = none; arr_idx = r.arr_idx; map_key = none }))
        root (After-Unit _ _)
        (λ f s _.
          After->>= (λ _ _. Unit) IsPlain (get_map_msg P mode r.loc f k)
            (λ l. pure (record { loc = l; field_desc = none; arr_idx = r.arr_idx; map_key = none }))
            s (After-Unit _ _) (λ l s _. (key-index-none r k x ek, refl)))

  advance-WellFormed :
      (mode : Mode) (r : Ref P) (name : Bytes) (root : Msg)
      → IsExclusive r
      → After IsWellFormed (advance P mode r name root).0 (advance P mode r name root).1
  advance-WellFormed mode r name root x =
      unfold advance in
      After->>= IsPlain IsWellFormed (descend P mode r r.map_key)
        (λ r'. select P mode r' name r'.field_desc) root
        (descend-Plain mode r r.map_key root x refl)
        (λ r' s h. select-WellFormed mode r' name r'.field_desc s h refl)

  walk-WellFormed :
      (mode : Mode) (r : Ref P) (names : List Bytes) (root : Msg)
      → IsWellFormed r root
      → After IsWellFormed (walk P mode r names root).0 (walk P mode r names root).1
  unfolding walk
  walk-WellFormed mode r [] root h = h
  walk-WellFormed mode r (name ∷ names) root h =
      After->>= IsWellFormed IsWellFormed (advance P mode r name) (λ r'. walk P mode r' names) root
        (advance-WellFormed mode r name root (Fits-exclusive _ _ _ _ h))
        (λ r' s h'. walk-WellFormed mode r' names s h')

  walk-start-WellFormed :
      (mode : Mode) (names : List Bytes) (root : Msg)
      → names ≢ []
      → After IsWellFormed (walk P mode (start P) names root).0 (walk P mode (start P) names root).1
  unfolding walk
  walk-start-WellFormed mode [] root ne = absurd (ne refl)
  walk-start-WellFormed mode (name ∷ names) root ne =
      After->>= IsWellFormed IsWellFormed (advance P mode (start P) name)
        (λ r'. walk P mode r' names) root (advance-WellFormed mode (start P) name root (inl refl))
        (λ r' s h'. walk-WellFormed mode r' names s h')

  construct-After :
      (mode : Mode) (path : FieldPath) (root : Msg)
      → path.fields ≢ []
      → After IsWellFormed (construct P mode path root).0 (construct P mode path root).1
  unfolding read
  construct-After mode path root ne = elim (Bool-cases (beq (type_name P root) path.type)) [
    | inl e ↦ unfold construct in rw (read, e) (walk-start-WellFormed mode path.fields root ne)
    | inr e ↦ unfold construct in rw (read, e) tt
  ]

  -- A reference that the constructor returns for a path with a field names a field of the message that
  -- it points to, in the root as the constructor left it. If it selects an index, the field is
  -- repeated, is no map, and has an element there; if it selects a key, the field is a map; it never
  -- selects both.
  pub construct-WellFormed :
      (mode : Mode) (path : FieldPath) (root : Msg) {r : Ref P}
      → path.fields ≢ []
      → (construct P mode path root).0 ≡ ok r
      → IsWellFormed r (construct P mode path root).1
  construct-WellFormed mode path root ne e =
      After-ok IsWellFormed _ _ (construct-After mode path root ne) e
