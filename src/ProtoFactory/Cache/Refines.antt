-- ===== src/ProtoFactory/Cache/Refines.antt =====
-- proto_factory.cpp: the cache of descriptors cannot be told from the pool.
use redis_protobuf.Base.{
  ◌⊎◌, ◌≡◌, refl, sym, ◌∙◌, ap, Bool-cases, inl, inr, Option, none, some, Option-cases, List, [],
  ◌∷◌, Bytes, beq, beq→eq,
}
use redis_protobuf.ProtoFactory.Cache.{find_cached, emplace, looked_up, descriptor}

-- A call of descriptor, or an import, which leaves another pool.
pub data Event (Pool : Type 0) : Type 0 where
  lookup : Bytes → Event Pool
  import_types : Pool → Event Pool

module _ {Pool Desc : Type 0} (find : Pool → Bytes → Option Desc) where
  -- the answers of descriptor
  unfoldable pub run : List (Event Pool) → Pool → List (Bytes × Desc) → List (Option Desc)
  run [] pool cache = []
  run (lookup type ∷ events) pool cache =
      let r = descriptor find pool type cache in r.0 ∷ run events pool r.1
  run (import_types new ∷ events) pool cache = run events new cache

  -- the answers of the pool
  abbrev pub replay : List (Event Pool) → Pool → List (Option Desc)
  replay [] pool = []
  replay (lookup type ∷ events) pool = find pool type ∷ replay events pool
  replay (import_types new ∷ events) pool = replay events new

  -- The pool has the types that it had.
  abbrev pub Grows : Pool → Pool → Type 0
  Grows old new =
      (type : Bytes) (desc : Desc) → find old type ≡ some desc → find new type ≡ some desc

  abbrev pub AllGrow : List (Event Pool) → Pool → Type 0
  AllGrow [] pool = Unit
  AllGrow (lookup type ∷ events) pool = AllGrow events pool
  AllGrow (import_types new ∷ events) pool = Grows pool new × AllGrow events new

  -- What the cache has is what the pool has.
  abbrev IsFresh : Pool → List (Bytes × Desc) → Type 0
  IsFresh pool cache =
      (type : Bytes) (desc : Desc) → find_cached type cache ≡ some desc → find pool type ≡ some desc

  find_cached-emplace :
      (type t : Bytes) (desc d : Desc) (cache : List (Bytes × Desc))
      → find_cached t (emplace type desc cache) ≡ some d
      → (find_cached t cache ≡ some d) ⊎ ((type ≡ t) × (desc ≡ d))
  unfolding find_cached emplace
  find_cached-emplace type t desc d [] h = elim (Bool-cases (beq type t)) [
    | inl e ↦ inr (beq→eq type t e, cc (rw e at h))
    | inr e ↦ cc (rw e at h)
  ]
  find_cached-emplace type t desc d ((u, v) ∷ cache) h = elim (Bool-cases (beq u type)) [
    | inl e ↦ inl (rw e at h)
    | inr e ↦ elim (Bool-cases (beq u t)) [
      | inl i ↦ inl (rw i (rw (e, i) at h))
      | inr i ↦ rw i (find_cached-emplace type t desc d cache (rw (e, i) at h))
    ]
  ]

  -- A lookup answers as the pool does, and leaves the cache fresh.
  looked_up-IsFresh :
      (pool : Pool) (type : Bytes) (cache : List (Bytes × Desc)) (o : Option Desc)
      → find_cached type cache ≡ o
      → IsFresh pool cache
      → ((looked_up find pool type cache o).0 ≡ find pool type)
        × IsFresh pool (looked_up find pool type cache o).1
  looked_up-IsFresh pool type cache (some d) e fresh = (sym (fresh type d e), fresh)
  looked_up-IsFresh pool type cache none e fresh = elim (Option-cases (find pool type)) [
    | inl n ↦ rw n (refl, fresh)
    | inr (d, s) ↦ rw s (
      refl,
      λ t v h. elim (find_cached-emplace type t d v cache h) [
        | inl k ↦ fresh t v k
        | inr (p, q) ↦ cc
      ],
    )
  ]

  run-IsFresh :
      (events : List (Event Pool)) (pool : Pool) (cache : List (Bytes × Desc))
      → AllGrow events pool
      → IsFresh pool cache
      → run events pool cache ≡ replay events pool
  unfolding run descriptor
  run-IsFresh [] pool cache g fresh = refl
  run-IsFresh (lookup type ∷ events) pool cache g fresh =
      let (e, fresh') = looked_up-IsFresh pool type cache (find_cached type cache) refl fresh in
      ap (λ x. x ∷ run events pool (descriptor find pool type cache).1) e
      ∙ ap (λ xs. find pool type ∷ xs) (run-IsFresh events pool _ g fresh')
  run-IsFresh (import_types new ∷ events) pool cache (g, gs) fresh =
      run-IsFresh events new cache gs (λ t d h. g t d (fresh t d h))

  -- If no import takes a type from the pool or changes it, then over any sequence of lookups and
  -- imports, from an empty cache, descriptor answers as the pool does at that moment: the cache
  -- never hides a type that was imported later.
  pub descriptor-Refines :
      (events : List (Event Pool)) (pool : Pool)
      → AllGrow events pool
      → run events pool [] ≡ replay events pool
  unfolding find_cached
  descriptor-Refines events pool g = run-IsFresh events pool [] g (λ t d h. cc h)
