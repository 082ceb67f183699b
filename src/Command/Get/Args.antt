-- ===== src/Command/Get/Args.antt =====
-- get_command.cpp: the arguments of PB.GET.
use redis_protobuf.Base.{List, [], ◌∷◌, Bytes, codes, if◌then◌else◌}
use redis_protobuf.Errors.{Outcome, ok, err, wrong_arity, syntax_error, unknown_format, ◌>>=◌}
use redis_protobuf.Utils.{str_case_equal}
use redis_protobuf.Path.{FieldPath, of_path, of_type}

-- Args::Format; `unset` is NONE
pub data Format : Type 0 where
  binary json unset : Format

-- struct Args
pub record GetArgs : Type 0 where
  pub key_name : Bytes
  pub format : Format
  pub path : FieldPath

-- _parse_format
unfoldable pub parse_format : Bytes → Outcome Format
parse_format s =
    if str_case_equal s (codes "BINARY")
    then ok binary
    else if str_case_equal s (codes "JSON")
    then ok json
    else err unknown_format

-- _parse_opts, on the arguments from `idx` on: the format, and the arguments behind the options
unfoldable pub parse_opts : List Bytes → Format → Outcome (Format × List Bytes)
unfolding parse_format
parse_opts [] format = ok (format, [])
parse_opts (a ∷ []) format =
    if str_case_equal a (codes "--FORMAT") then err syntax_error else ok (format, a ∷ [])
parse_opts (a ∷ b ∷ rest) format =
    if str_case_equal a (codes "--FORMAT")
    then (parse_format b >>= parse_opts rest)
    else ok (format, a ∷ b ∷ rest)

-- What follows the options: `type` or `type path`.
unfoldable pub parse_rest : Bytes → Format → List Bytes → Outcome GetArgs
parse_rest key format (type ∷ []) =
    ok (record { key_name = key; format = format; path = of_type type })
parse_rest key format (type ∷ path ∷ []) =
    of_path type path >>= λ p. ok (record { key_name = key; format = format; path = p })
parse_rest key format _ = err wrong_arity

-- _parse_args
unfoldable pub parse_args : List Bytes → Outcome GetArgs
unfolding parse_opts parse_rest
parse_args (name ∷ key ∷ a ∷ rest) = parse_opts (a ∷ rest) unset >>= λ r. parse_rest key r.0 r.1
parse_args _ = err wrong_arity
