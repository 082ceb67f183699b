-- ===== src/ProtoFactory/Collector/Digits.antt =====
-- proto_factory.cpp: the numbers in the text of an error.
use redis_protobuf.Base.{
  ◌≤◌, ℕ, zero, suc, ◌+◌, ◌-◌, ◌*◌, ◌/◌, ◌%◌, ◌<◌, ◌≡◌, ap, ◌∙◌, Bool-cases, inl, inr, [], ◌∷◌,
  Bytes, ltb, arith,
}
use redis_protobuf.ProtoFactory.Collector.{digits}

-- The number that a text of digits spells behind `n`.
abbrev value : ℕ → Bytes → ℕ
value n [] = n
value n (c ∷ s) = value (n * 10 + (c - b'0')) s

-- More rounds than the number write all its digits, in front of what is there.
pub value-digits :
    (rounds n : ℕ) (out : Bytes) → n < rounds → value 0 (digits rounds n out) ≡ value n out
unfolding digits
value-digits zero n out h = absurd (omega (arith, h))
value-digits (suc rounds) n out h = elim (Bool-cases (ltb n 10)) [
  | inl e ↦ let p : 0 * 10 + ((b'0' + n) - b'0') ≡ n = omega arith in rw e (ap (λ k. value k out) p)
  | inr e ↦
      let big : 10 ≤ n = ground (arith, e) in
      let p : n / 10 * 10 + ((b'0' + n % 10) - b'0') ≡ n = omega arith in
      rw e (
        value-digits rounds (n / 10) ((b'0' + n % 10) ∷ out) (omega (arith, big, h))
        ∙ ap (λ k. value k out) p)
]
