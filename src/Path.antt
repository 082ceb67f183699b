-- ===== src/Path.antt =====
-- path.cpp, path.h: the type and the fields that a command addresses, `/field/field`.
pub mod RoundTrip
use redis_protobuf.Base.{
  ℕ, ◌≡◌, refl, Bool, List, [], ◌∷◌, ◌++◌, Bytes, codes, is_empty, ◌==◌, if◌then◌else◌,
}
use redis_protobuf.Errors.{Outcome, ok, err, empty_path, no_leading_slash, empty_field, ◌>>=◌}

abbrev pub slash : ℕ
slash = b'/'

-- class Path
pub record FieldPath : Type 0 where
  pub type : Bytes
  pub fields : List Bytes

-- Path::empty
abbrev pub is_root : FieldPath → Bool
is_root p = is_empty p.fields

-- The loop of _parse_fields: the bytes between `start` and `idx` are `cur`, so `idx <= start` says
-- that `cur` is empty.
unfoldable pub cut : Bytes → List Bytes → Bytes → Outcome (List Bytes)
cut [] fields cur = if is_empty cur then err empty_field else ok (fields ++ cur ∷ [])
cut (c ∷ s) fields cur =
    let next = cut s (fields ++ cur ∷ []) [] in
    let more = cut s fields (cur ++ c ∷ []) in
    if c == slash then if is_empty cur then err empty_field else next else more

-- Path::_parse_fields
unfoldable pub parse_fields : Bytes → Outcome (List Bytes)
unfolding cut
parse_fields [] = err empty_path
parse_fields (c ∷ []) = err empty_path
parse_fields (c ∷ d ∷ s) = if c == slash then cut (d ∷ s) [] [] else err no_leading_slash

-- The constructor of a type and a path.
unfoldable pub of_path : Bytes → Bytes → Outcome FieldPath
of_path type path = parse_fields path >>= λ fields. ok (record { type = type; fields = fields })

-- The constructor of a type alone.
abbrev pub of_type : Bytes → FieldPath
of_type type = record { type = type; fields = [] }
