-- ===== src/Command/TypeName/Format.antt =====
-- What _format_type of type_command.cpp spells.
use redis_protobuf.Base.{
  ◌≡◌, refl, sym, ◌∙◌, ap, [], ◌∷◌, ◌++◌, append_assoc, append-nil, Bytes, arith,
}
use redis_protobuf.Command.TypeName.{before_dot, from_dot, spell, copy, format_type}

-- The text with `::` in place of every dot.
abbrev pub respelled : Bytes → Bytes
respelled [] = []
respelled (c ∷ s) = spell c ++ respelled s

copy-respelled : (s out : Bytes) → copy s out ≡ out ++ respelled s
unfolding copy
copy-respelled [] out = sym (append-nil out)
copy-respelled (c ∷ s) out =
    copy-respelled s (out ++ spell c) ∙ append_assoc out (spell c) (respelled s)

before_dot-from_dot : (s : Bytes) → before_dot s ++ respelled (from_dot s) ≡ respelled s
unfolding before_dot from_dot
before_dot-from_dot [] = refl
before_dot-from_dot (c ∷ s) = ground (arith, before_dot-from_dot s)

before_dot_whole : (s : Bytes) → from_dot s ≡ [] → before_dot s ≡ s
unfolding before_dot from_dot
before_dot_whole [] h = refl
before_dot_whole (c ∷ s) h = ground (arith, before_dot_whole s)

-- format_type writes `::` for every dot of the type's name and keeps every other byte.
pub format_type-respelled : (s : Bytes) → format_type s ≡ respelled s
unfolding format_type
format_type-respelled s = by_rest (from_dot s) refl
  where
    by_rest : (t : Bytes) → from_dot s ≡ t → format_type s ≡ respelled s
    by_rest [] h =
        rw (format_type, h)
          (sym (before_dot_whole s h)
            ∙ sym (append-nil _)
            ∙ ap (λ t. before_dot s ++ respelled t) (sym h)
            ∙ before_dot-from_dot s)
    by_rest (c ∷ t) h =
        rw (format_type, h)
          (copy-respelled (c ∷ t) (before_dot s)
            ∙ ap (λ t. before_dot s ++ respelled t) (sym h)
            ∙ before_dot-from_dot s)
