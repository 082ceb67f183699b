-- ===== src/ProtoFactory/Collector.antt =====
-- proto_factory.h, proto_factory.cpp: FactoryErrorCollector, what the importer reports of a file.
pub mod Digits
use redis_protobuf.Base.{
  ℕ, zero, suc, ◌+◌, ◌/◌, ◌%◌, Bool, List, [], ◌∷◌, ◌++◌, map, Bytes, codes, is_empty, ltb,
  if◌then◌else◌, ℤ, pos, negsuc, not,
}

-- std::to_string of an int
unfoldable pub digits : ℕ → ℕ → Bytes → Bytes
digits zero n out = out
digits (suc rounds) n out =
    let rest = digits rounds (n / 10) ((b'0' + n % 10) ∷ out) in
    if ltb n 10 then (b'0' + n) ∷ out else rest

unfoldable pub to_string : ℤ → Bytes
unfolding digits
to_string (pos n) = digits (suc n) n []
to_string (negsuc n) = b'-' ∷ digits (suc (suc n)) (suc n) []

pub data Severity : Type 0 where
  error warning : Severity

-- A call of AddError or AddWarning.
pub record Issue : Type 0 where
  pub severity : Severity
  pub file_name : Bytes
  pub line : ℤ
  pub column : ℤ
  pub message : Bytes

abbrev label : Severity → Bytes
label error = codes "error"
label warning = codes "warning"

-- _add_error: the text that is added to `_errors`
unfoldable pub add_error : Issue → Bytes
add_error i =
    label i.severity
    ++ codes ":"
    ++ i.file_name
    ++ codes ":"
    ++ to_string i.line
    ++ codes ":"
    ++ to_string i.column
    ++ codes ":"
    ++ i.message

-- `_errors` behind the calls
abbrev pub errors : List Issue → List Bytes
errors issues = map add_error issues

-- has_error: a warning counts too
abbrev pub has_error : List Issue → Bool
has_error issues = not (is_empty (errors issues))

-- The loop of last_errors.
unfoldable pub join_errors : List Bytes → Bytes → Bytes
join_errors [] out = out
join_errors (e ∷ es) out = join_errors es ((if is_empty out then out else out ++ codes "\n") ++ e)

-- last_errors
unfoldable pub last_errors : List Issue → Bytes
unfolding join_errors
last_errors issues = join_errors (errors issues) []
