-- ===== src/Command/Args.antt =====
-- The arguments `key type [path]` of PB.DEL, PB.CLEAR and PB.LEN.
use redis_protobuf.Base.{List, [], ◌∷◌, Bytes}
use redis_protobuf.Errors.{Outcome, ok, err, wrong_arity, ◌>>=◌}
use redis_protobuf.Path.{FieldPath, of_path, of_type}

-- struct Args of the three commands
pub record KeyPath : Type 0 where
  pub key_name : Bytes
  pub path : FieldPath

-- _parse_args of del_command.cpp, clear_command.cpp and len_command.cpp
unfoldable pub parse_key_path : List Bytes → Outcome KeyPath
parse_key_path (name ∷ key ∷ type ∷ []) = ok (record { key_name = key; path = of_type type })
parse_key_path (name ∷ key ∷ type ∷ path ∷ []) =
    of_path type path >>= λ p. ok (record { key_name = key; path = p })
parse_key_path _ = err wrong_arity
