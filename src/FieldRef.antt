-- ===== src/FieldRef.antt =====
-- field_ref.h: the reference to a field that a path leads to. A pointer `_msg` into the root message
-- is the steps that lead to it, the innermost first, and the root message is the state. The two
-- instances of the template are the two modes, and the overloads on std::is_const are clauses.
pub mod Access
pub mod Shape
pub mod Faults
pub mod RoundTrip
pub mod Delete
pub mod Frame
pub mod ReadOnly
pub mod Typed
use redis_protobuf.Base.{
  ℕ, ◌≡◌, refl, Bool, true, false, ◌&&◌, ◌||◌, not, Option, none, some, List, [], ◌∷◌, Bytes, codes,
  beq, leb, ◌==◌, if◌then◌else◌, ℤ, pos, negsuc,
}
use redis_protobuf.Errors.{
  Outcome, ok, err, abort, map_ok, null_field, type_mismatch, not_nested, invalid_map_key_type,
  map_value_not_message, key_not_found, map_key_not_found, field_not_found, invalid_index,
  index_out_of_range, negative_index,
}
use redis_protobuf.Exec.{Exec, pure, throw, lift, gets, modify, ◌>>=◌, ◌>>◌}
use redis_protobuf.Utils.{stoi, sv_to_int32, sv_to_int64, sv_to_uint32, sv_to_uint64, sv_to_bool}
use redis_protobuf.Path.{FieldPath}
use redis_protobuf.Protobuf
use redis_protobuf.Protobuf.{
  Protobuf, CppType, int32, int64, uint32, uint64, bool, string, message, same_type, MapKey,
  int32_key, int64_key, uint32_key, uint64_key, bool_key, string_key, type_name,
}

-- One step of a pointer: to a singular message, to an element of a repeated field, to the value of a
-- map's key.
pub data Step (Field : Type 0) : Type 0 where
  sub : Field → Step Field
  elem : Field → ℕ → Step Field
  entry : Field → MapKey → Step Field

-- class FieldRef: `_msg`, `_field_desc` (null is `none`), `_arr_idx` (-1 is `none`) and `_map_key`
pub record FieldRef (Field : Type 0) : Type 0 where
  pub loc : List (Step Field)
  pub field_desc : Option Field
  pub arr_idx : Option ℕ
  pub map_key : Option MapKey

-- ConstFieldRef and MutableFieldRef
pub data Mode : Type 0 where
  const_ref mutable_ref : Mode

-- `_arr_idx = std::stoi(field)` and the tests behind it
abbrev pub check_index : Bytes → ℕ → ℤ → Outcome ℕ
check_index name size (pos n) = if leb size n then err (index_out_of_range name size) else ok n
check_index name size (negsuc n) = err negative_index

abbrev pub parsed_index : Bytes → ℕ → Option ℤ → Outcome ℕ
parsed_index name size none = err (invalid_index name)
parsed_index name size (some z) = check_index name size z

unfoldable pub parse_index : Bytes → ℕ → Outcome ℕ
parse_index name size = parsed_index name size (stoi name)

-- _parse_map_key_impl(key), by the type of the map's keys
unfoldable pub parse_key : CppType → Bytes → Outcome MapKey
parse_key int32 s = map_ok int32_key (sv_to_int32 s)
parse_key int64 s = map_ok int64_key (sv_to_int64 s)
parse_key uint32 s = map_ok uint32_key (sv_to_uint32 s)
parse_key uint64 s = map_ok uint64_key (sv_to_uint64 s)
parse_key bool s = map_ok bool_key (sv_to_bool s)
parse_key string s = ok (string_key s)
parse_key _ s = err invalid_map_key_type

module _ (P : Protobuf) where
  open P use {
    Msg, Field, descriptor, find_field_by_name, cpp_type, is_repeated, is_map, message_type, get,
    set, field_size, get_repeated, set_repeated, map_contains, map_get, map_set, insert_or_lookup,
  }

  abbrev pub Ref : Type 0
  Ref = FieldRef Field

  -- The message that a pointer points to.
  unfoldable pub read : List (Step Field) → Msg → Msg
  read [] root = root
  read (sub f ∷ l) root = get message (read l root) f
  read (elem f i ∷ l) root = get_repeated message (read l root) f i
  read (entry f k ∷ l) root = map_get message (read l root) f k

  -- The root after the message that the pointer points to became `m`.
  unfoldable pub write : List (Step Field) → Msg → Msg → Msg
  write [] root m = m
  write (sub f ∷ l) root m = write l root (set message (read l root) f m)
  write (elem f i ∷ l) root m = write l root (set_repeated message (read l root) f i m)
  write (entry f k ∷ l) root m = write l root (map_set message (read l root) f k m)

  -- A change of the message that the pointer points to.
  unfoldable pub change : List (Step Field) → (Msg → Msg) → Msg → Msg
  change l g root = write l root (g (read l root))

  -- Reflection ends the process if it is called for a field of another label or another type.
  unfoldable pub expect : Bool → CppType → Field → Outcome (Unit {0})
  expect true t f = if is_repeated f && same_type (cpp_type f) t then ok tt else abort
  expect false t f = if not (is_repeated f) && same_type (cpp_type f) t then ok tt else abort

  -- The field behind `_field_desc`.
  abbrev pub deref : Option Field → Outcome Field
  deref none = abort
  deref (some f) = ok f

  -- FieldRef::type
  abbrev pub type_of : Option Field → Outcome CppType
  type_of none = err null_field
  type_of (some f) = ok (cpp_type f)

  -- _mapped_value_desc
  abbrev pub mapped_value_desc : Field → Outcome Field
  mapped_value_desc f = deref (find_field_by_name (message_type f) (codes "value"))

  -- FieldRef::map_value_type
  unfoldable pub map_value_type : Field → Outcome CppType
  map_value_type f = map_ok cpp_type (mapped_value_desc f)

  unfoldable pub map_key_type : Field → Outcome CppType
  map_key_type f = map_ok cpp_type (deref (find_field_by_name (message_type f) (codes "key")))

  -- _parse_map_key: a const reference wants the key to be there
  unfoldable pub find_key : Mode → List (Step Field) → Field → Bytes → MapKey → Exec Msg MapKey
  find_key mutable_ref l f name k = pure k
  find_key const_ref l f name k = do
    m ← gets (read l)
    if map_contains m f k then pure k else throw (map_key_not_found name)

  unfoldable pub parse_map_key : Mode → List (Step Field) → Field → Bytes → Exec Msg MapKey
  unfolding map_key_type find_key
  parse_map_key mode l f name = do
    t ← lift (map_key_type f)
    k ← lift (parse_key t name)
    find_key mode l f name k

  -- _get_sub_msg: GetMessage or MutableMessage, which makes the message present
  unfoldable pub get_sub_msg : Mode → List (Step Field) → Field → Exec Msg (List (Step Field))
  get_sub_msg const_ref l f = do lift (expect false message f); pure (sub f ∷ l)
  get_sub_msg mutable_ref l f = do
    lift (expect false message f)
    modify (change l (λ m. set message m f (get message m f)))
    pure (sub f ∷ l)

  -- _get_sub_repeated_msg: neither overload changes the message
  unfoldable pub get_sub_repeated_msg :
      Mode → List (Step Field) → Field → ℕ → Exec Msg (List (Step Field))
  get_sub_repeated_msg mode l f i = do lift (expect true message f); pure (elem f i ∷ l)

  -- the lookup of _get_map_msg: _get_map_value_const, or _get_map_value, which inserts the key
  unfoldable pub lookup_key : Mode → List (Step Field) → Field → MapKey → Exec Msg (Unit {0})
  lookup_key const_ref l f k = do
    m ← gets (read l)
    if map_contains m f k then pure tt else throw key_not_found
  lookup_key mutable_ref l f k = modify (change l (λ m. insert_or_lookup m f k))

  -- _get_map_msg: the test on the value's type comes after the lookup
  unfoldable pub get_map_msg :
      Mode → List (Step Field) → Field → MapKey → Exec Msg (List (Step Field))
  unfolding lookup_key
  get_map_msg mode l f k = do
    lookup_key mode l f k
    t ← lift (map_value_type f)
    if same_type t message then pure (entry f k ∷ l) else throw map_value_not_message

  -- The first branch of the constructor's loop: behind a map's key or an array's index, `_msg` moves
  -- to the element and the field is forgotten.
  unfoldable pub descend_index : Mode → Ref → Option ℕ → Exec Msg Ref
  unfolding get_sub_repeated_msg
  descend_index mode r none = pure r
  descend_index mode r (some i) = do
    f ← lift (deref r.field_desc)
    l ← get_sub_repeated_msg mode r.loc f i
    pure (record { loc = l; field_desc = none; arr_idx = none; map_key = r.map_key })

  unfoldable pub descend : Mode → Ref → Option MapKey → Exec Msg Ref
  unfolding get_map_msg descend_index
  descend mode r none = descend_index mode r r.arr_idx
  descend mode r (some k) = do
    f ← lift (deref r.field_desc)
    l ← get_map_msg mode r.loc f k
    pure (record { loc = l; field_desc = none; arr_idx = r.arr_idx; map_key = none })

  -- FindFieldByName in the message at `_msg`
  abbrev pub found : Bytes → Ref → List (Step Field) → Option Field → Exec Msg Ref
  found name r l none = throw (field_not_found name)
  found name r l (some f) = pure (record r { loc = l; field_desc = some f })

  unfoldable pub find_field : Bytes → Ref → List (Step Field) → Exec Msg Ref
  find_field name r l = do
    m ← gets (read l)
    found name r l (find_field_by_name (descriptor m) name)

  -- The second branch: what a component of the path means depends on the field before it.
  unfoldable pub select : Mode → Ref → Bytes → Option Field → Exec Msg Ref
  unfolding find_field parse_map_key get_sub_msg
  select mode r name none = find_field name r r.loc
  select mode r name (some f) =
      if is_map f
      then (do k ← parse_map_key mode r.loc f name; pure (record r { map_key = some k }))
      else if is_repeated f
      then (do
        m ← gets (read r.loc)
        i ← lift (parse_index name (field_size m f))
        pure (record r { arr_idx = some i }))
      else if same_type (cpp_type f) message
      then (do l ← get_sub_msg mode r.loc f; find_field name r l)
      else throw not_nested

  -- One round of the loop.
  unfoldable pub advance : Mode → Ref → Bytes → Exec Msg Ref
  unfolding descend select
  advance mode r name = do r' ← descend mode r r.map_key; select mode r' name r'.field_desc

  unfoldable pub walk : Mode → Ref → List Bytes → Exec Msg Ref
  walk mode r [] = pure r
  walk mode r (name ∷ names) = do r' ← advance mode r name; walk mode r' names

  abbrev pub start : Ref
  start = record { loc = []; field_desc = none; arr_idx = none; map_key = none }

  -- The constructor, with _validate_parameters.
  unfoldable pub construct : Mode → FieldPath → Exec Msg Ref
  unfolding walk advance
  construct mode path = do
    m ← gets (read [])
    if beq (type_name P m) path.type then walk mode start path.fields else throw type_mismatch
