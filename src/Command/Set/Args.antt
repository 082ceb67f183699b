-- ===== src/Command/Set/Args.antt =====
-- set_command.cpp: the arguments of PB.SET.
use redis_protobuf.Base.{
  zero, suc, ◌-◌, ◌*◌, Bool, true, false, List, [], ◌∷◌, Bytes, codes, ltb, leb, if◌then◌else◌, ℤ,
  pos, negsuc,
}
use redis_protobuf.Errors.{
  Outcome, ok, err, abort, wrong_arity, syntax_error, expire_not_positive, ◌>>=◌,
}
use redis_protobuf.Utils.{sv_to_int64, str_case_equal, half64}
use redis_protobuf.Path.{FieldPath, of_path, of_type}

-- Args::Opt; `any` is NONE
pub data Opt : Type 0 where
  nx xx any : Opt

abbrev pub is_any : Opt → Bool
is_any any = true
is_any _ = false

-- struct Args, without the key name the part that the options fill
pub record SetArgs : Type 0 where
  pub key_name : Bytes
  pub opt : Opt
  pub expire : ℤ
  pub path : FieldPath
  pub val : Bytes

pub record Options : Type 0 where
  pub opt : Opt
  pub expire : ℤ

abbrev pub is_zero : ℤ → Bool
is_zero (pos zero) = true
is_zero _ = false

abbrev pub is_positive : ℤ → Bool
is_positive (pos (suc n)) = true
is_positive _ = false

-- std::chrono::seconds to std::chrono::milliseconds, a product in a signed 64-bit integer. C++ leaves
-- its overflow undefined, which is `abort`: nothing is said of the call then.
abbrev pub to_milliseconds : ℤ → Outcome ℤ
to_milliseconds (pos n) = if ltb (n * 1000) half64 then ok (pos (n * 1000)) else abort
to_milliseconds (negsuc n) =
    if leb (suc n * 1000) half64 then ok (negsuc (suc n * 1000 - 1)) else abort

abbrev positive : ℤ → Outcome ℤ
positive z = if is_positive z then ok z else err expire_not_positive

-- _parse_expire
unfoldable pub parse_expire : Bytes → Outcome ℤ
parse_expire s = sv_to_int64 s >>= positive

-- The loop of _parse_opts, on the arguments from `idx` on. It returns those from the first that is
-- no option, so `idx` is `argc` less their number.
unfoldable pub parse_opts : List Bytes → Options → Outcome (Options × List Bytes)
unfolding parse_expire
parse_opts [] o = ok (o, [])
parse_opts (a ∷ []) o =
    if str_case_equal a (codes "--NX")
    then if is_any o.opt then ok (record o { opt = nx }, []) else err syntax_error
    else if str_case_equal a (codes "--XX")
    then if is_any o.opt then ok (record o { opt = xx }, []) else err syntax_error
    else if str_case_equal a (codes "--EX")
    then err syntax_error
    else if str_case_equal a (codes "--PX")
    then err syntax_error
    else ok (o, a ∷ [])
parse_opts (a ∷ b ∷ rest) o =
    let with_nx = parse_opts (b ∷ rest) (record o { opt = nx }) in
    let with_xx = parse_opts (b ∷ rest) (record o { opt = xx }) in
    if str_case_equal a (codes "--NX")
    then if is_any o.opt then with_nx else err syntax_error
    else if str_case_equal a (codes "--XX")
    then if is_any o.opt then with_xx else err syntax_error
    else if str_case_equal a (codes "--EX")
    then if is_zero o.expire
      then (parse_expire b >>= λ t.
          to_milliseconds t >>= λ ms. parse_opts rest (record o { expire = ms }))
      else err syntax_error
    else if str_case_equal a (codes "--PX")
    then if is_zero o.expire
      then (parse_expire b >>= λ t. parse_opts rest (record o { expire = t }))
      else err syntax_error
    else ok (o, a ∷ b ∷ rest)

abbrev pub no_options : Options
no_options = record { opt = any; expire = pos 0 }

-- What follows the options: `type value` or `type path value`.
unfoldable pub parse_rest : Bytes → Options → List Bytes → Outcome SetArgs
parse_rest key o (type ∷ val ∷ []) =
    ok (record { key_name = key; opt = o.opt; expire = o.expire; path = of_type type; val = val })
parse_rest key o (type ∷ path ∷ val ∷ []) = of_path type path >>= λ p.
    ok (record { key_name = key; opt = o.opt; expire = o.expire; path = p; val = val })
parse_rest key o _ = err wrong_arity

-- _parse_args
unfoldable pub parse_args : List Bytes → Outcome SetArgs
unfolding parse_opts parse_rest
parse_args (name ∷ key ∷ a ∷ b ∷ rest) =
    parse_opts (a ∷ b ∷ rest) no_options >>= λ r. parse_rest key r.0 r.1
parse_args _ = err wrong_arity
