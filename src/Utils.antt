-- ===== src/Utils.antt =====
-- utils.cpp: conversions of the text of an argument. The std::sto* functions are those of the
-- language's standard library on a 64-bit platform, where `long` has 64 bits.
pub mod Numbers
pub mod Case
pub mod Io
use redis_protobuf.Base.{
  ℕ, zero, suc, ◌+◌, ◌-◌, ◌*◌, ◌^◌, ◌%◌, ◌≡◌, refl, Bool, true, false, ◌&&◌, ◌||◌, not, Option,
  none, some, List, [], ◌∷◌, Bytes, codes, beq, length, ltb, leb, ◌==◌, if◌then◌else◌, ℤ, pos,
  negsuc, signed,
}
use redis_protobuf.Errors.{Outcome, ok, err, not_int32, not_int64, not_uint32, not_uint64, not_bool}

-- isspace and isdigit in the C locale
abbrev pub is_space : ℕ → Bool
is_space c = (c == 32) || (leb 9 c && leb c 13)

abbrev pub is_digit : ℕ → Bool
is_digit c = leb b'0' c && leb c b'9'

unfoldable pub skip_spaces : Bytes → Bytes
skip_spaces [] = []
skip_spaces (c ∷ s) = if is_space c then skip_spaces s else c ∷ s

-- The digits at the front, read behind the number `n`; what follows them is ignored.
unfoldable pub scan_digits : ℕ → Bytes → ℕ
scan_digits n [] = n
scan_digits n (c ∷ s) = if is_digit c then scan_digits (n * 10 + (c - b'0')) s else n

abbrev pub starts_with_digit : Bytes → Bool
starts_with_digit [] = false
starts_with_digit (c ∷ s) = is_digit c

-- An optional sign and at least one digit: strtol and its kin, before their range checks. The first
-- part is `true` for a minus; `none` is std::invalid_argument.
unfoldable pub unsigned_part : Bool → Bytes → Option (Bool × ℕ)
unfolding scan_digits
unsigned_part minus s = if starts_with_digit s then some (minus, scan_digits 0 s) else none

unfoldable pub sign_part : Bytes → Option (Bool × ℕ)
unfolding unsigned_part
sign_part [] = none
sign_part (c ∷ s) =
    if c == b'-'
    then unsigned_part true s
    else if c == b'+'
    then unsigned_part false s
    else unsigned_part false (c ∷ s)

unfoldable pub parse_number : Bytes → Option (Bool × ℕ)
unfolding skip_spaces sign_part
parse_number s = sign_part (skip_spaces s)

-- Whether the number fits the signed type whose sign bit weighs `half`.
abbrev pub fits : ℕ → Bool × ℕ → Bool
fits half (true, n) = leb n half
fits half (false, n) = ltb n half

-- std::stoi and std::stoll, by the weight of the sign bit: `none` is std::out_of_range too.
unfoldable pub checked : ℕ → Option (Bool × ℕ) → Option ℤ
checked half none = none
checked half (some (minus, n)) = if fits half (minus, n) then some (signed minus n) else none

abbrev pub half32 : ℕ
half32 = 2 ^ 31

abbrev pub half64 : ℕ
half64 = 2 ^ 63

unfoldable pub stoi : Bytes → Option ℤ
stoi s = checked half32 (parse_number s)

unfoldable pub stoll : Bytes → Option ℤ
stoll s = checked half64 (parse_number s)

-- std::stoul and std::stoull: a minus sign negates modulo 2^64.
unfoldable pub wrapped : Option (Bool × ℕ) → Option ℕ
wrapped none = none
wrapped (some (minus, n)) =
    if ltb n (2 ^ 64) then some ((if minus then 2 ^ 64 - n else n) % 2 ^ 64) else none

unfoldable pub stoull : Bytes → Option ℕ
stoull s = wrapped (parse_number s)

unfoldable pub sv_to_int32 : Bytes → Outcome ℤ
sv_to_int32 s = elim (stoi s) [ none ↦ err not_int32 | some z ↦ ok z ]

unfoldable pub sv_to_int64 : Bytes → Outcome ℤ
sv_to_int64 s = elim (stoll s) [ none ↦ err not_int64 | some z ↦ ok z ]

-- The unsigned long of std::stoul is returned as a uint32_t.
unfoldable pub sv_to_uint32 : Bytes → Outcome ℕ
sv_to_uint32 s = elim (stoull s) [ none ↦ err not_uint32 | some n ↦ ok (n % 2 ^ 32) ]

unfoldable pub sv_to_uint64 : Bytes → Outcome ℕ
sv_to_uint64 s = elim (stoull s) [ none ↦ err not_uint64 | some n ↦ ok n ]

abbrev pub nonzero : ℤ → Bool
nonzero (pos zero) = false
nonzero (pos (suc n)) = true
nonzero (negsuc n) = true

unfoldable pub sv_to_bool : Bytes → Outcome Bool
sv_to_bool s =
    if beq s (codes "true")
    then ok true
    else if beq s (codes "false")
    then ok false
    else elim (stoi s) [ none ↦ err not_bool | some z ↦ ok (nonzero z) ]

-- std::toupper in the C locale
abbrev pub toupper : ℕ → ℕ
toupper c = if leb b'a' c && leb c b'z' then c - 32 else c

-- The loop of str_case_equal, over texts of one length.
unfoldable pub same_upper : Bytes → Bytes → Bool
same_upper [] t = true
same_upper (a ∷ s) [] = false
same_upper (a ∷ s) (b ∷ t) = (toupper a == toupper b) && same_upper s t

unfoldable pub str_case_equal : Bytes → Bytes → Bool
unfolding same_upper
str_case_equal s t = if length s == length t then same_upper s t else false
