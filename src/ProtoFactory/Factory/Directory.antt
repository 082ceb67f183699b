-- ===== src/ProtoFactory/Factory/Directory.antt =====
-- proto_factory.cpp: the name of the proto directory, without the slashes at its end.
use mathlib.Core.Path.{subst}
use redis_protobuf.Base.{
  ℕ, zero, suc, ◌≤◌, ◌≡◌, refl, sym, ◌∙◌, ap, true, false, Bool-cases, inl, inr, [], ◌∷◌, ◌++◌,
  append-nil, append_assoc, Bytes, length, arith, All, All-append, ◌⊎◌, ◌≢◌,
}
use redis_protobuf.Errors.{ok, err, invalid_proto_dir}
use redis_protobuf.ProtoFactory.{ends_with}
use redis_protobuf.ProtoFactory.Factory.{drop_last, strip_slashes, not_empty, canonicalize_path}

ends_with-drop_last : (b : ℕ) (s : Bytes) → ends_with b s ≡ true → s ≡ drop_last s ++ b ∷ []
ends_with-drop_last b [] h = cc h
ends_with-drop_last b (c ∷ []) h = ground arith
ends_with-drop_last b (c ∷ d ∷ s) h = ap (λ t. c ∷ t) (ends_with-drop_last b (d ∷ s) h)

length-drop_last :
    (b : ℕ) (s : Bytes) → ends_with b s ≡ true → suc (length (drop_last s)) ≡ length s
length-drop_last b [] h = cc h
length-drop_last b (c ∷ []) h = refl
length-drop_last b (c ∷ d ∷ s) h = ap suc (length-drop_last b (d ∷ s) h)

-- The path is `dir` with slashes behind it, and `dir` has none at its end.
abbrev pub IsStripped : Bytes → Bytes → Type 0
IsStripped path dir =
    (ends_with b'/' dir ≡ false)
    × ((slashes : Bytes) × (path ≡ dir ++ slashes) × All (λ c. c ≡ b'/') slashes)

strip_slashes-IsStripped :
    (rounds : ℕ) (path : Bytes) → length path ≤ rounds → IsStripped path (strip_slashes rounds path)
unfolding strip_slashes
strip_slashes-IsStripped zero [] h = (refl, ([], refl, tt))
strip_slashes-IsStripped zero (c ∷ s) h = absurd (omega (arith, h))
strip_slashes-IsStripped (suc rounds) path h = elim (Bool-cases (ends_with b'/' path)) [
  | inr e ↦ rw e (e, ([], sym (append-nil path), tt))
  | inl e ↦
      let dir' = strip_slashes rounds (drop_last path) in
      let shorter = length-drop_last b'/' path e in
      let (k, (slashes, p, all)) =
        strip_slashes-IsStripped rounds (drop_last path) (omega (arith, shorter, h)) in
      rw e (
        k,
        (
          slashes ++ b'/' ∷ [],
          ends_with-drop_last b'/' path e
              ∙ ap (λ t. t ++ b'/' ∷ []) p
              ∙ append_assoc dir' slashes (b'/' ∷ []),
          All-append (λ c. c ≡ b'/') slashes (b'/' ∷ []) all (refl, tt),
        ),
      )
]

not_empty-cases :
    (path dir : Bytes)
    → IsStripped path dir
    → ((not_empty dir ≡ err invalid_proto_dir) × All (λ c. c ≡ b'/') path)
      ⊎ ((d : Bytes) × (not_empty dir ≡ ok d) × ((d ≢ []) × IsStripped path d))
not_empty-cases path [] (k, (slashes, p, all)) = inl (refl, subst (All (λ c. c ≡ b'/')) (sym p) all)
not_empty-cases path (b ∷ dir) k = inr (b ∷ dir, refl, (λ e. cc e, k))

-- The name of the proto directory is the path of the option without the slashes at its end; a path of
-- nothing else, and only such a path, is an error.
pub canonicalize_path-IsStripped :
    (path : Bytes)
    → ((canonicalize_path path ≡ err invalid_proto_dir) × All (λ c. c ≡ b'/') path)
      ⊎ ((dir : Bytes) × (canonicalize_path path ≡ ok dir) × ((dir ≢ []) × IsStripped path dir))
unfolding canonicalize_path
canonicalize_path-IsStripped path =
    not_empty-cases path (strip_slashes (length path) path)
      (strip_slashes-IsStripped (length path) path (omega arith))
