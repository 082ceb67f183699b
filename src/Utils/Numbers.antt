-- ===== src/Utils/Numbers.antt =====
-- What sv_to_* of utils.cpp accept, and the integers that they return.
use redis_protobuf.Base.{
  ℕ, zero, suc, ◌+◌, ◌-◌, ◌*◌, ◌≡◌, ◌≢◌, refl, ◌%◌, ◌^◌, ◌<◌, ◌≤◌, Bytes, [], ◌∷◌, ◌++◌, All, arith,
  ℤ, pos, signed, InRange, none, some, Option, Bool, true, false,
}
use redis_protobuf.Errors.{ok}
use redis_protobuf.Utils.{
  half32, half64, starts_with_digit, scan_digits, checked, parse_number, stoi, stoll, stoull,
  wrapped, sv_to_int32, sv_to_int64, sv_to_uint32, sv_to_uint64,
}

checked-InRange :
    (half : ℕ) (r : Option (Bool × ℕ)) {z : ℤ} → 0 < half → checked half r ≡ some z → InRange half z
unfolding checked
checked-InRange half none pos_half h = cc
checked-InRange half (some (false, n)) pos_half h = ground arith
checked-InRange half (some (true, zero)) pos_half h = ground arith
checked-InRange half (some (true, suc n)) pos_half h = ground arith

-- A text that sv_to_int32 accepts stands for an integer of 32 bits.
pub sv_to_int32-InRange : (s : Bytes) {z : ℤ} → sv_to_int32 s ≡ ok z → InRange half32 z
unfolding sv_to_int32 stoi
sv_to_int32-InRange s {z} h = checked-InRange half32 (parse_number s) (omega arith) (ground arith)

-- A text that sv_to_int64 accepts stands for an integer of 64 bits.
pub sv_to_int64-InRange : (s : Bytes) {z : ℤ} → sv_to_int64 s ≡ ok z → InRange half64 z
unfolding sv_to_int64 stoll
sv_to_int64-InRange s {z} h = checked-InRange half64 (parse_number s) (omega arith) (ground arith)

-- A decimal digit.
abbrev pub IsDigit : ℕ → Type 0
IsDigit c = (b'0' ≤ c) × (c ≤ b'9')

-- The number that digits spell behind `n`, with no bound.
abbrev pub spelled : ℕ → Bytes → ℕ
spelled n [] = n
spelled n (c ∷ s) = spelled (n * 10 + (c - b'0')) s

scan_digits-spelled :
    (n : ℕ) (ds rest : Bytes)
    → All IsDigit ds
    → starts_with_digit rest ≡ false
    → scan_digits n (ds ++ rest) ≡ spelled n ds
unfolding scan_digits
scan_digits-spelled n [] [] h e = refl
scan_digits-spelled n [] (c ∷ rest) h e = ground arith
scan_digits-spelled n (d ∷ ds) rest (hd, hds) e =
    ground (arith, scan_digits-spelled (n * 10 + (d - b'0')) ds rest hds e)

-- digits, then something that is no digit
parse_number-digits :
    (ds rest : Bytes)
    → ds ≢ []
    → All IsDigit ds
    → starts_with_digit rest ≡ false
    → parse_number (ds ++ rest) ≡ some (false, spelled 0 ds)
unfolding parse_number
parse_number-digits [] rest ne h e = absurd (ne refl)
parse_number-digits (d ∷ ds) rest ne h e =
    ground (arith, scan_digits-spelled 0 (d ∷ ds) rest h e, h.0)

parse_number-minus :
    (ds rest : Bytes)
    → ds ≢ []
    → All IsDigit ds
    → starts_with_digit rest ≡ false
    → parse_number (b'-' ∷ ds ++ rest) ≡ some (true, spelled 0 ds)
unfolding parse_number
parse_number-minus [] rest ne h e = absurd (ne refl)
parse_number-minus (d ∷ ds) rest ne h e =
    ground (arith, scan_digits-spelled 0 (d ∷ ds) rest h e, h.0)

module _ (ds rest : Bytes) (ne : ds ≢ []) (digits : All IsDigit ds)
    (stop : starts_with_digit rest ≡ false) where
  -- Digits that spell a number below 2^31 are read by sv_to_int32 as that number, whatever follows
  -- the last digit: a text such as `12abc` is no error. (There is a digit, and what follows the last
  -- one is no digit.)
  pub sv_to_int32-digits :
      spelled 0 ds < half32 → sv_to_int32 (ds ++ rest) ≡ ok (pos (spelled 0 ds))
  unfolding sv_to_int32 stoi checked
  sv_to_int32-digits fits = ground (arith, parse_number-digits ds rest ne digits stop)

  -- A minus sign and digits that spell at most 2^31 are read by sv_to_int32 as the negative number,
  -- whatever follows the last digit. (There is a digit, and what follows the last one is no digit.)
  pub sv_to_int32-minus :
      spelled 0 ds ≤ half32 → sv_to_int32 (b'-' ∷ ds ++ rest) ≡ ok (signed true (spelled 0 ds))
  unfolding sv_to_int32 stoi checked
  sv_to_int32-minus fits = ground (arith, parse_number-minus ds rest ne digits stop)

  -- sv_to_uint32 reads digits that spell a number below 2^64 as its low 32 bits: a number that a
  -- uint32_t cannot hold is no error, it wraps around. (There is a digit, and what follows the last
  -- one is no digit.)
  pub sv_to_uint32-digits :
      spelled 0 ds < 2 ^ 64 → sv_to_uint32 (ds ++ rest) ≡ ok (spelled 0 ds % 2 ^ 32)
  unfolding sv_to_uint32 stoull wrapped
  sv_to_uint32-digits fits = ground (arith, parse_number-digits ds rest ne digits stop)

  -- sv_to_uint64 reads a minus sign and digits that spell a number below 2^64 as its negation modulo
  -- 2^64. (There is a digit, and what follows the last one is no digit.)
  pub sv_to_uint64-minus :
      spelled 0 ds < 2 ^ 64
      → sv_to_uint64 (b'-' ∷ ds ++ rest) ≡ ok ((2 ^ 64 - spelled 0 ds) % 2 ^ 64)
  unfolding sv_to_uint64 stoull wrapped
  sv_to_uint64-minus fits = ground (arith, parse_number-minus ds rest ne digits stop)
