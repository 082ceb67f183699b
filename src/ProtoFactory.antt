-- ===== src/ProtoFactory.antt =====
-- proto_factory.cpp: messages made from a type name and the text of a client.
pub mod Collector
pub mod Loader
pub mod Thread
pub mod Factory
pub mod Cache
use redis_protobuf.Base.{ℕ, Bool, false, ◌&&◌, none, some, [], ◌∷◌, Bytes, ◌==◌, if◌then◌else◌}
use redis_protobuf.Errors.{Outcome, ok, err, unknown_type, json_failed, binary_failed, ◌>>=◌}
use redis_protobuf.Protobuf.{Protobuf}

abbrev pub ends_with : ℕ → Bytes → Bool
ends_with b [] = false
ends_with b (c ∷ []) = c == b
ends_with b (c ∷ d ∷ s) = ends_with b (d ∷ s)

-- `len >= 2 && ptr[0] == '{' && ptr[len - 1] == '}'`
unfoldable pub is_json : Bytes → Bool
is_json [] = false
is_json (c ∷ []) = false
is_json (c ∷ d ∷ s) = (c == b'{') && ends_with b'}' (d ∷ s)

module _ (P : Protobuf) where
  open P use {Msg, parse_from_array, from_json, find_message_type, new_message}

  -- create(type)
  unfoldable pub create : Bytes → Outcome Msg
  create type = elim (find_message_type type) [
    | none ↦ err (unknown_type type)
    | some desc ↦ ok (new_message desc)
  ]

  -- The parse into the new message `m`: JSON by its braces, binary otherwise.
  unfoldable pub parse_into : Bytes → Bytes → Msg → Outcome Msg
  parse_into type sv m =
      if is_json sv
      then elim (from_json m sv) [ none ↦ err (json_failed type) | some m' ↦ ok m' ]
      else elim (parse_from_array m sv) [ none ↦ err (binary_failed type) | some m' ↦ ok m' ]

  -- create(type, sv)
  unfoldable pub create_from : Bytes → Bytes → Outcome Msg
  unfolding create parse_into
  create_from type sv = create type >>= parse_into type sv
