-- ===== src/Path/RoundTrip.antt =====
-- Path::_parse_fields accepts exactly the texts `/field/…/field` and returns their fields.
use mathlib.Core.List.{concat-ne-nil, cons-ne-nil}
use redis_protobuf.Base.{
  ◌≡◌, ◌≢◌, refl, List, [], ◌∷◌, ◌++◌, append_assoc, append-nil, Bytes, ◌==◌, All, All-append,
  arith, Bool-cases, ==_iff, inl, inr,
}
use redis_protobuf.Errors.{ok}
use redis_protobuf.Path.{slash, cut, parse_fields}

-- A field of a path: it has a byte, and none of its bytes is a slash.
abbrev pub IsField : Bytes → Type 0
IsField f = (f ≢ []) × All (λ c. c ≢ slash) f

-- The path of these fields.
abbrev pub print : List Bytes → Bytes
print [] = []
print (f ∷ fs) = slash ∷ f ++ print fs

print-append : (fs gs : List Bytes) → print (fs ++ gs) ≡ print fs ++ print gs
print-append [] gs = refl
print-append (f ∷ fs) gs = simp (print-append fs gs, append_assoc)

cut_bytes :
    (f rest : Bytes) (fields : List Bytes) (cur : Bytes)
    → All (λ c. c ≢ slash) f
    → cut (f ++ rest) fields cur ≡ cut rest fields (cur ++ f)
unfolding cut
cut_bytes [] rest fields cur h = rw append-nil
cut_bytes (c ∷ f) rest fields cur (hc, hf) =
    ground (arith, cut_bytes f rest fields (cur ++ c ∷ []) hf, append_assoc cur (c ∷ []) f)

cut-print :
    (fs fields : List Bytes) (cur : Bytes)
    → cur ≢ []
    → All IsField fs
    → cut (print fs) fields cur ≡ ok (fields ++ cur ∷ fs)
unfolding cut
cut-print fs fields [] ne h = absurd (ne refl)
cut-print [] fields (c ∷ cur) ne h = refl
cut-print (f ∷ fs) fields (c ∷ cur) ne ((fne, fh), hs) = ground (
  arith,
  cut_bytes f (print fs) (fields ++ (c ∷ cur) ∷ []) [] fh,
  cut-print fs (fields ++ (c ∷ cur) ∷ []) f fne hs,
  append_assoc fields ((c ∷ cur) ∷ []) (f ∷ fs),
)

-- The path that names the given fields is read back as these fields, if there is one and each is
-- non-empty and has no slash.
pub parse_fields-print :
    (fs : List Bytes) → fs ≢ [] → All IsField fs → parse_fields (print fs) ≡ ok fs
unfolding parse_fields
parse_fields-print [] ne h = absurd (ne refl)
parse_fields-print ([] ∷ fs) ne h = absurd (h.0.0 refl)
parse_fields-print ((c ∷ f) ∷ fs) ne ((fne, fh), hs) =
    ground (arith, cut_bytes (c ∷ f) (print fs) [] [] fh, cut-print fs [] (c ∷ f) fne hs)

-- What a round of `cut` that ends a field knows.
module _ (fields : List Bytes) (cur : Bytes) (ne : cur ≢ []) (hf : All IsField fields)
    (hc : All (λ c. c ≢ slash) cur) where
  ended-IsField : All IsField (fields ++ cur ∷ [])
  ended-IsField = All-append IsField fields (cur ∷ []) hf ((ne, hc), tt)

  print-ended : (s : Bytes) → print (fields ++ cur ∷ []) ++ s ≡ print fields ++ slash ∷ (cur ++ s)
  print-ended s = simp (print-append fields (cur ∷ []), append_assoc)

cut_sound :
    (s : Bytes) (fields : List Bytes) (cur : Bytes) {fs : List Bytes}
    → All IsField fields
    → All (λ c. c ≢ slash) cur
    → cut s fields cur ≡ ok fs
    → (fs ≢ []) × All IsField fs × (print fs ≡ print fields ++ slash ∷ (cur ++ s))
unfolding cut
cut_sound [] fields [] hf hc h = cc
cut_sound [] fields (a ∷ cur) {fs} hf hc h =
    let e : fields ++ (a ∷ cur) ∷ [] ≡ fs = cc in
    rw (← e) (
      concat-ne-nil (a ∷ cur) fields,
      ended-IsField fields (a ∷ cur) (cons-ne-nil a cur) hf hc,
      print-append fields ((a ∷ cur) ∷ []),
    )
cut_sound (c ∷ s) fields [] hf hc h = elim (Bool-cases (c == slash)) [
  | inl e ↦ ground arith
  | inr e ↦ cut_sound s fields (c ∷ []) hf ((λ p. ground arith), tt) (ground arith)
]
cut_sound (c ∷ s) fields (a ∷ cur) {fs} hf hc h = elim (Bool-cases (c == slash)) [
  | inl e ↦
      let ne = cons-ne-nil a cur in
      let (some_field, all_fields, printed) =
        cut_sound s (fields ++ (a ∷ cur) ∷ []) [] {fs = fs}
          (ended-IsField fields (a ∷ cur) ne hf hc) tt (ground arith) in
      (
        some_field,
        all_fields,
        rw printed (
            ground
              (arith, print-ended fields (a ∷ cur) ne hf hc (slash ∷ s), (==_iff c slash).0 e)),
      )
  | inr e ↦
      let grown = All-append (λ c. c ≢ slash) (a ∷ cur) (c ∷ []) hc ((λ p. ground arith), tt) in
      let (some_field, all_fields, printed) =
        cut_sound s fields ((a ∷ cur) ++ c ∷ []) {fs = fs} hf grown (ground arith) in
      (some_field, all_fields, rw printed (simp append_assoc))
]

-- An accepted path is the print of the fields that it is read as: there is at least one, and each is
-- non-empty and has no slash.
pub parse_fields_sound :
    (s : Bytes) {fs : List Bytes}
    → parse_fields s ≡ ok fs
    → (fs ≢ []) × All IsField fs × (print fs ≡ s)
unfolding parse_fields
parse_fields_sound [] h = cc
parse_fields_sound (c ∷ []) h = cc
parse_fields_sound (c ∷ d ∷ s) {fs} h = elim (Bool-cases (c == slash)) [
  | inl e ↦
      let (some_field, all_fields, printed) =
        cut_sound (d ∷ s) [] [] {fs = fs} tt tt (ground arith) in
      (some_field, all_fields, rw printed (ground (arith, (==_iff c slash).0 e)))
  | inr e ↦ ground arith
]
