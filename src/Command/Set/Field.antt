-- ===== src/Command/Set/Field.antt =====
-- set_command.cpp: _set_field and the functions for a scalar, a map element and an array element.
use redis_protobuf.Base.{Bytes, if◌then◌else◌}
use redis_protobuf.Errors.{whole_map, whole_array}
use redis_protobuf.Exec.{Exec, throw, lift, ◌>>=◌}
use redis_protobuf.Protobuf.{CppType, Protobuf}
use redis_protobuf.FieldRef.{Ref, deref, type_of, map_value_type}
use redis_protobuf.FieldRef.Access.{
  is_array, is_map_field, is_array_element, is_map_element, set_value, set_repeated_value,
  set_mapped_value, msg_type, mapped_msg_type,
}
use redis_protobuf.Command.Convert.{convert}

module _ (P : Protobuf) where
  open P use {Msg}

  -- _set_int32 to _set_msg
  abbrev pub assign : CppType → Ref P → Bytes → Exec Msg (Unit {0})
  assign t r val = do v ← lift (convert P t (msg_type P r) val); set_value P t r v

  -- _set_repeated_int32 to _set_repeated_msg
  abbrev pub assign_repeated : CppType → Ref P → Bytes → Exec Msg (Unit {0})
  assign_repeated t r val = do v ← lift (convert P t (msg_type P r) val); set_repeated_value P t r v

  -- _set_mapped_int32 to _set_mapped_msg
  abbrev pub assign_mapped : CppType → Ref P → Bytes → Exec Msg (Unit {0})
  assign_mapped t r val = do
    v ← lift (convert P t (mapped_msg_type P r) val)
    set_mapped_value P t r v

  unfoldable pub set_scalar_field : Ref P → Bytes → Exec Msg (Unit {0})
  set_scalar_field r val = do t ← lift (type_of P r.field_desc); assign t r val

  unfoldable pub set_map_element : Ref P → Bytes → Exec Msg (Unit {0})
  set_map_element r val = do
    f ← lift (deref P r.field_desc)
    t ← lift (map_value_type P f)
    assign_mapped t r val

  unfoldable pub set_array_element : Ref P → Bytes → Exec Msg (Unit {0})
  set_array_element r val = do t ← lift (type_of P r.field_desc); assign_repeated t r val

  -- _set_field
  unfoldable pub set_field : Ref P → Bytes → Exec Msg (Unit {0})
  unfolding set_scalar_field set_map_element set_array_element
  set_field r val =
      if is_map_element P r
      then set_map_element r val
      else if is_map_field P r
      then throw whole_map
      else if is_array_element P r
      then set_array_element r val
      else if is_array P r
      then throw whole_array
      else set_scalar_field r val
