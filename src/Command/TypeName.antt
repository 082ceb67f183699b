-- ===== src/Command/TypeName.antt =====
-- type_command.cpp and schema_command.cpp: PB.TYPE key, PB.SCHEMA type
pub mod Format
use redis_protobuf.Base.{
  ℕ, ◌≡◌, refl, Bool, true, false, Option, none, some, List, [], ◌∷◌, ◌++◌, append_assoc,
  append-nil, Bytes, codes, ◌==◌, if◌then◌else◌, arith,
}
use redis_protobuf.Errors.{Outcome, ok, err, wrong_arity}
use redis_protobuf.Exec.{Exec, pure, throw, lift, gets, modify, ◌>>=◌, ◌>>◌}
use redis_protobuf.Protobuf.{Protobuf, type_name}
use redis_protobuf.ModuleApi.{
  Redis, World, simple_string, bulk_string, null, reply, catch_errors, read_only, open_existing,
  get_msg_by_key,
}

abbrev pub dot : ℕ
dot = b'.'

-- The text before the first dot and the text from it on, as `find` and `substr` give them.
unfoldable pub before_dot : Bytes → Bytes
before_dot [] = []
before_dot (c ∷ s) = if c == dot then [] else c ∷ before_dot s

unfoldable pub from_dot : Bytes → Bytes
from_dot [] = []
from_dot (c ∷ s) = if c == dot then c ∷ s else from_dot s

-- what the loop of _format_type appends for a byte
abbrev pub spell : ℕ → Bytes
spell c = if c == dot then codes "::" else c ∷ []

unfoldable pub copy : Bytes → Bytes → Bytes
copy [] out = out
copy (c ∷ s) out = copy s (out ++ spell c)

-- _format_type
unfoldable pub format_type : Bytes → Bytes
unfolding before_dot from_dot copy
format_type type = elim (from_dot type) [ [] ↦ type | c ∷ s ↦ copy (c ∷ s) (before_dot type) ]

-- _parse_args of both commands: the one argument
unfoldable pub parse_one : List Bytes → Outcome Bytes
parse_one (name ∷ a ∷ []) = ok a
parse_one _ = err wrong_arity

module _ (P : Protobuf) (R : Redis P.Msg) where
  unfoldable pub run_on : Bytes → Bool → Exec (World R.Keys) (Unit {0})
  unfolding format_type
  run_on key false = reply null
  run_on key true = do
    msg ← get_msg_by_key R key
    reply (simple_string (format_type (type_name P msg)))

  -- TypeCommand::run
  unfoldable pub run_type : List Bytes → Exec (World R.Keys) (Unit {0})
  unfolding run_on
  run_type argv =
      catch_errors
        (do key ← lift (parse_one argv); exists ← open_existing R read_only key; run_on key exists)

  unfoldable pub schema_of : Option P.Descriptor → Exec (World R.Keys) (Unit {0})
  schema_of none = reply null
  schema_of (some desc) = reply (bulk_string (P.debug_string desc))

  -- SchemaCommand::run
  unfoldable pub run_schema : List Bytes → Exec (World R.Keys) (Unit {0})
  unfolding schema_of
  run_schema argv =
      catch_errors (do type ← lift (parse_one argv); schema_of (P.find_message_type type))
