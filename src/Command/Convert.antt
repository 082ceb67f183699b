-- ===== src/Command/Convert.antt =====
-- The values that PB.SET and PB.APPEND make of a client's text, one clause for each case of their
-- switches on the C++ type.
use redis_protobuf.Base.{none, some, Bytes}
use redis_protobuf.Errors.{Outcome, ok, err, not_double, not_float, ◌>>=◌}
use redis_protobuf.Utils.{sv_to_int32, sv_to_int64, sv_to_uint32, sv_to_uint64, sv_to_bool}
use redis_protobuf.Protobuf.{
  Protobuf, CppType, int32, int64, uint32, uint64, double, float, bool, enum, string, message,
  ValueOf,
}
use redis_protobuf.ProtoFactory.{create_from}

module _ (P : Protobuf) where
  -- sv_to_double and sv_to_float
  sv_to_double : Bytes → Outcome P.Double
  sv_to_double s = elim (P.stod s) [ none ↦ err not_double | some x ↦ ok x ]

  sv_to_float : Bytes → Outcome P.Float
  sv_to_float s = elim (P.stof s) [ none ↦ err not_float | some x ↦ ok x ]

  -- The second argument is the name of the message type, which only a message asks for.
  unfoldable pub convert : (t : CppType) → Outcome Bytes → Bytes → Outcome (ValueOf P t)
  unfolding sv_to_double sv_to_float
  convert int32 name s = sv_to_int32 s
  convert int64 name s = sv_to_int64 s
  convert uint32 name s = sv_to_uint32 s
  convert uint64 name s = sv_to_uint64 s
  convert double name s = sv_to_double s
  convert float name s = sv_to_float s
  convert bool name s = sv_to_bool s
  convert enum name s = sv_to_int32 s
  convert string name s = ok s
  convert message name s = name >>= λ type. create_from P type s
