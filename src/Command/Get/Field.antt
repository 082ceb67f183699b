-- ===== src/Command/Get/Field.antt =====
-- get_command.cpp: the replies to PB.GET of a message, a field, an element, an array and a map. The
-- state is the list of replies; the message and the reference to it are constant.
use redis_protobuf.Base.{
  ℕ, zero, suc, ◌+◌, Bool, true, false, Option, none, some, List, [], ◌∷◌, Bytes, if◌then◌else◌, ℤ,
  pos, negsuc, ltb, ◌-◌, ◌^◌,
}
use redis_protobuf.Utils.{half64}
use redis_protobuf.Errors.{
  Error, Outcome, ok, err, abort, serialize_failed, to_json_failed, no_format,
}
use redis_protobuf.Exec.{Exec, pure, lift, ◌>>=◌, ◌>>◌}
use redis_protobuf.Protobuf.{
  Protobuf, CppType, int32, int64, uint32, uint64, double, float, bool, enum, string, message,
  MapKey, int32_key, int64_key, uint32_key, uint64_key, bool_key, string_key, ValueOf,
}
use redis_protobuf.FieldRef.{Ref, read, deref, type_of, map_value_type}
use redis_protobuf.FieldRef.Access.{
  is_array, is_map_field, is_array_element, is_map_element, get_value, get_repeated_value,
  get_mapped_value, size, get_array_element,
}
use redis_protobuf.ModuleApi.{
  Reply, long_long, simple_string, bulk_string, array, error_reply, emit,
}
use redis_protobuf.Command.Get.Args.{Format, binary, json, unset}

-- a uint64_t as the int64_t of the same bits
abbrev of_word : ℕ → ℤ
of_word n = if ltb n half64 then pos n else negsuc (2 ^ 64 - 1 - n)

abbrev of_bool : Bool → ℤ
of_bool true = pos 1
of_bool false = pos 0

abbrev pub Replies : Type 0
Replies = List Reply

-- the handler of the loops in _get_array and _get_map: an error is a reply
abbrev pub handled : Outcome (Unit {0}) → Exec Replies (Unit {0})
handled (ok u) = pure u
handled (err e) = emit (error_reply e)
handled abort = lift abort

unfoldable pub or_error_reply : Exec Replies (Unit {0}) → Exec Replies (Unit {0})
or_error_reply m s = handled (m s).0 (m s).1

-- the first switch of _get_map_kv
unfoldable pub reply_key : MapKey → Reply
reply_key (int32_key n) = long_long n
reply_key (int64_key n) = long_long n
reply_key (uint32_key n) = long_long (pos n)
reply_key (uint64_key n) = long_long (of_word n)
reply_key (bool_key b) = long_long (of_bool b)
reply_key (string_key s) = bulk_string s

abbrev text : Error → Option Bytes → Outcome Bytes
text e none = err e
text e (some s) = ok s

-- util::msg_to_json
abbrev pub msg_to_json : (P : Protobuf) → P.Msg → Outcome Bytes
msg_to_json P m = text to_json_failed (P.to_json m)

-- the switch of _get_msg
abbrev pub encoded : (P : Protobuf) → Format → P.Msg → Outcome Bytes
encoded P binary m = text serialize_failed (P.serialize m)
encoded P json m = msg_to_json P m
encoded P unset m = err no_format

module _ (P : Protobuf) (format : Format) where
  open P use {Msg, double_to_string, float_to_string, map_keys, map_get}

  -- _get_msg
  unfoldable pub get_msg : Msg → Exec Replies (Unit {0})
  get_msg m = do s ← lift (encoded P format m); emit (bulk_string s)

  -- The reply to a value, the same in the four switches on the C++ type. A uint64_t becomes the
  -- `long long` of its 64 bits.
  unfoldable pub reply_value : (t : CppType) → ValueOf P t → Exec Replies (Unit {0})
  unfolding get_msg
  reply_value int32 v = emit (long_long v)
  reply_value int64 v = emit (long_long v)
  reply_value uint32 v = emit (long_long (pos v))
  reply_value uint64 v = emit (long_long (of_word v))
  reply_value double v = emit (simple_string (double_to_string v))
  reply_value float v = emit (simple_string (float_to_string v))
  reply_value bool v = emit (long_long (of_bool v))
  reply_value enum v = emit (long_long v)
  reply_value string v = emit (bulk_string v)
  reply_value message v = get_msg v

  module _ (root : Msg) where
    unfoldable pub get_scalar_field : Ref P → Exec Replies (Unit {0})
    get_scalar_field r = do
      t ← lift (type_of P r.field_desc)
      v ← lift (get_value P t r root).0
      reply_value t v

    -- _get_array_element
    unfoldable pub reply_element : Ref P → Exec Replies (Unit {0})
    reply_element r = do
      t ← lift (type_of P r.field_desc)
      v ← lift (get_repeated_value P t r root).0
      reply_value t v

    unfoldable pub get_map_element : Ref P → Exec Replies (Unit {0})
    get_map_element r = do
      f ← lift (deref P r.field_desc)
      t ← lift (map_value_type P f)
      v ← lift (get_mapped_value P t r root).0
      reply_value t v

    unfoldable pub get_map_kv : Ref P → MapKey → Exec Replies (Unit {0})
    get_map_kv r k = do
      emit (array 2)
      emit (reply_key k)
      f ← lift (deref P r.field_desc)
      t ← lift (map_value_type P f)
      reply_value t (map_get t (read P r.loc root) f k)

    -- the loop of _get_map over the range
    unfoldable pub reply_entries : Ref P → List MapKey → Exec Replies (Unit {0})
    unfolding get_map_kv or_error_reply
    reply_entries r [] = pure tt
    reply_entries r (k ∷ ks) = do or_error_reply (get_map_kv r k); reply_entries r ks

    unfoldable pub get_map : Ref P → Exec Replies (Unit {0})
    unfolding reply_entries
    get_map r = do
      n ← lift (size P r root).0
      emit (array n)
      f ← lift (deref P r.field_desc)
      reply_entries r (map_keys (read P r.loc root) f)

    -- _get_field, with what it does of a whole array as an argument
    unfoldable pub get_field_with :
        (Ref P → Exec Replies (Unit {0})) → Ref P → Exec Replies (Unit {0})
    unfolding get_map_element get_map reply_element get_scalar_field
    get_field_with whole r =
        if is_map_element P r
        then get_map_element r
        else if is_map_field P r
        then get_map r
        else if is_array_element P r
        then reply_element r
        else if is_array P r
        then whole r
        else get_scalar_field r

    -- The loop of _get_array, by the elements left. It calls _get_field of an element, which is
    -- never a whole array.
    unfoldable pub reply_elements : ℕ → ℕ → Ref P → Exec Replies (Unit {0})
    unfolding get_field_with or_error_reply
    reply_elements zero i r = pure tt
    reply_elements (suc left) i r = do
      or_error_reply (get_field_with (λ _. lift abort) (get_array_element P r i))
      reply_elements left (i + 1) r

    unfoldable pub get_array : Ref P → Exec Replies (Unit {0})
    unfolding reply_elements
    get_array r = do n ← lift (size P r root).0; emit (array n); reply_elements n 0 r

    -- _get_field
    unfoldable pub get_field : Ref P → Exec Replies (Unit {0})
    unfolding get_field_with get_array
    get_field r = get_field_with get_array r
