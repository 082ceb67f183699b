-- ===== src/ProtoFactory/Cache.antt =====
-- proto_factory.cpp: descriptor, which remembers in `_descriptor_cache` what it found in the pool of the
-- importer. The pool is a parameter.
pub mod Refines
use redis_protobuf.Base.{
  ◌≡◌, refl, Bool, true, false, Option, none, some, List, [], ◌∷◌, Bytes, beq, if◌then◌else◌,
}

module _ {Desc : Type 0} where
  -- find
  unfoldable pub find_cached : Bytes → List (Bytes × Desc) → Option Desc
  find_cached type [] = none
  find_cached type ((t, d) ∷ cache) = if beq t type then some d else find_cached type cache

  -- emplace, which does not replace an entry
  unfoldable pub emplace : Bytes → Desc → List (Bytes × Desc) → List (Bytes × Desc)
  emplace type desc [] = (type, desc) ∷ []
  emplace type desc ((t, d) ∷ cache) =
      if beq t type then (t, d) ∷ cache else (t, d) ∷ emplace type desc cache

-- `find` is FindMessageTypeByName of a pool.
module _ {Pool Desc : Type 0} (find : Pool → Bytes → Option Desc) where
  abbrev pub remembered :
      Bytes → List (Bytes × Desc) → Option Desc → Option Desc × List (Bytes × Desc)
  remembered type cache none = (none, cache)
  remembered type cache (some desc) = (some desc, emplace type desc cache)

  abbrev pub looked_up :
      Pool → Bytes → List (Bytes × Desc) → Option Desc → Option Desc × List (Bytes × Desc)
  looked_up pool type cache (some desc) = (some desc, cache)
  looked_up pool type cache none = remembered type cache (find pool type)

  -- descriptor
  unfoldable pub descriptor : Pool → Bytes → List (Bytes × Desc) → Option Desc × List (Bytes × Desc)
  descriptor pool type cache = looked_up pool type cache (find_cached type cache)
