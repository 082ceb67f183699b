-- ===== src/FieldRef/Faults.antt =====
-- Paths on which the constructor of FieldRef ends the process, or changes the message and then throws.
use redis_protobuf.Base.{ℕ, ◌≡◌, refl, true, false, some, List, ◌∷◌, Bytes, beq_refl}
use redis_protobuf.Errors.{ok, err, abort, map_value_not_message}
use redis_protobuf.Protobuf.{Protobuf, CppType, message, same_type, type_name, MapKey}
use redis_protobuf.FieldRef.{
  Mode, mutable_ref, parse_index, parse_key, map_key_type, map_value_type, expect, construct, read,
  change, write, find_field,
}
use redis_protobuf.Path.{FieldPath}

module _ (P : Protobuf) where
  open P use {Field, descriptor, find_field_by_name, is_map, is_repeated, field_size, cpp_type}

  module _ (root : P.Msg) (a b c : Bytes) (rest : List Bytes) (f : Field)
      (at : find_field_by_name (descriptor root) a ≡ some f) where
    abbrev deep_path : FieldPath
    deep_path = record { type = type_name P root; fields = a ∷ b ∷ c ∷ rest }

    -- A path from the root message that goes on behind an element in range of a repeated field of
    -- scalars, as `/numbers/0/x`, ends the process: the constructor asks Reflection for the element as a
    -- message without a look at the field's type.
    pub construct-abort :
        (mode : Mode) (i : ℕ)
        → is_map f ≡ false
        → is_repeated f ≡ true
        → parse_index b (field_size root f) ≡ ok i
        → same_type (cpp_type f) message ≡ false
        → (construct P mode deep_path root).0 ≡ abort
    unfolding construct read find_field expect
    construct-abort mode i m r e t = rw (beq_refl, at, m, r, e, t, r) refl

    -- A path from the root message that goes on behind a key of a map of scalars is an error, but a
    -- mutable reference has inserted the key before it is thrown: the failed command has changed the
    -- message.
    pub construct_inserts :
        (k : MapKey) (kt vt : CppType)
        → is_map f ≡ true
        → map_key_type P f ≡ ok kt
        → parse_key kt b ≡ ok k
        → map_value_type P f ≡ ok vt
        → same_type vt message ≡ false
        → construct P mutable_ref deep_path root
          ≡ (err map_value_not_message, P.insert_or_lookup root f k)
    unfolding construct read write change find_field
    construct_inserts k kt vt m ek ep ev t = rw (beq_refl, at, m, ek, ep, ev, t) refl
