-- ===== src/FieldRef/Access.antt =====
-- field_ref.h: what a reference reads and writes. The members for one C++ type each, as get_int32 and
-- set_repeated_string, are one function of the type.
use redis_protobuf.Base.{
  ℕ, zero, suc, ◌+◌, ◌-◌, Bool, true, false, ◌&&◌, ◌||◌, not, Option, none, some, Bytes, codes,
  if◌then◌else◌,
}
use redis_protobuf.Errors
use redis_protobuf.Errors.{
  Outcome, ok, err, abort, map_ok, not_a_message, not_array_or_map, clear_element,
  delete_non_element, key_not_found,
}
use redis_protobuf.Exec.{Exec, throw, lift, gets, modify, ◌>>=◌, ◌>>◌}
use redis_protobuf.Protobuf.{Protobuf, CppType, message, same_type, MapKey, bool_key, ValueOf}
use redis_protobuf.FieldRef.{
  Ref, const_ref, mutable_ref, lookup_key, read, change, expect, deref, type_of, map_value_type,
}

abbrev pub is_some {ℓ} : {A : Type ℓ} → Option A → Bool
is_some none = false
is_some (some a) = true

-- `_arr_idx` as an index of Reflection, which ends the process at -1
abbrev pub index : Option ℕ → Outcome ℕ
index none = abort
index (some i) = ok i

-- the test on the type in msg_type, mapped_msg_type and merge
abbrev pub require_message : CppType → Outcome (Unit {0})
require_message t = if same_type t message then ok tt else err not_a_message

-- `*_map_key`: the constructor of a reference gives it a value even where there is no key
abbrev pub key_or_false : Option MapKey → MapKey
key_or_false none = bool_key false
key_or_false (some k) = k

module _ (P : Protobuf) where
  open P use {
    Msg, Field, descriptor, full_name, find_field_by_name, cpp_type, is_repeated, is_map,
    message_type, get, set, field_size, get_repeated, set_repeated, add, swap_elements, remove_last,
    map_keys, map_contains, map_get, map_set, insert_or_lookup, clear_field, merge_from,
  }

  -- is_array, is_map (of the field), is_array_element, is_map_element
  abbrev pub is_array : Ref P → Bool
  is_array r = elim r.field_desc [ none ↦ false | some f ↦ is_repeated f ]

  abbrev pub is_map_field : Ref P → Bool
  is_map_field r = elim r.field_desc [ none ↦ false | some f ↦ is_map f ]

  abbrev pub is_array_element : Ref P → Bool
  is_array_element r = is_some r.arr_idx

  abbrev pub is_map_element : Ref P → Bool
  is_map_element r = is_some r.map_key

  -- get_int32 … get_msg
  unfoldable pub get_value : (t : CppType) → Ref P → Exec Msg (ValueOf P t)
  get_value t r = do
    f ← lift (deref P r.field_desc)
    lift (expect P false t f)
    gets (λ root. get t (read P r.loc root) f)

  -- set_int32 … set_msg
  unfoldable pub set_value : (t : CppType) → Ref P → ValueOf P t → Exec Msg (Unit {0})
  set_value t r v = do
    f ← lift (deref P r.field_desc)
    lift (expect P false t f)
    modify (change P r.loc (λ m. set t m f v))

  -- get_repeated_int32 … get_repeated_msg
  unfoldable pub get_repeated_value : (t : CppType) → Ref P → Exec Msg (ValueOf P t)
  get_repeated_value t r = do
    f ← lift (deref P r.field_desc)
    lift (expect P true t f)
    i ← lift (index r.arr_idx)
    gets (λ root. get_repeated t (read P r.loc root) f i)

  -- set_repeated_int32 … set_repeated_msg
  unfoldable pub set_repeated_value : (t : CppType) → Ref P → ValueOf P t → Exec Msg (Unit {0})
  set_repeated_value t r v = do
    f ← lift (deref P r.field_desc)
    lift (expect P true t f)
    i ← lift (index r.arr_idx)
    modify (change P r.loc (λ m. set_repeated t m f i v))

  -- add_int32 … add_msg
  unfoldable pub add_value : (t : CppType) → Ref P → ValueOf P t → Exec Msg (Unit {0})
  add_value t r v = do
    f ← lift (deref P r.field_desc)
    lift (expect P true t f)
    modify (change P r.loc (λ m. add t m f v))

  -- The value of a map's key is of type `t`, or the process ends.
  unfoldable pub expect_mapped : CppType → Field → Outcome (Unit {0})
  expect_mapped t f = elim (map_value_type P f) [
    | ok u ↦ if same_type u t then ok tt else abort
    | err e ↦ err e
    | abort ↦ abort
  ]

  -- get_mapped_int32 … get_mapped_msg, over _get_map_value_const
  unfoldable pub get_mapped_value : (t : CppType) → Ref P → Exec Msg (ValueOf P t)
  unfolding expect_mapped lookup_key
  get_mapped_value t r = do
    f ← lift (deref P r.field_desc)
    let k = key_or_false r.map_key
    lookup_key P const_ref r.loc f k
    lift (expect_mapped t f)
    gets (λ root. map_get t (read P r.loc root) f k)

  -- set_mapped_int32 … set_mapped_msg, over _get_map_value: the key is inserted first
  unfoldable pub set_mapped_value : (t : CppType) → Ref P → ValueOf P t → Exec Msg (Unit {0})
  unfolding expect_mapped lookup_key
  set_mapped_value t r v = do
    f ← lift (deref P r.field_desc)
    let k = key_or_false r.map_key
    lookup_key P mutable_ref r.loc f k
    lift (expect_mapped t f)
    modify (change P r.loc (λ m. map_set t m f k v))

  -- FieldRef::size
  unfoldable pub size : Ref P → Exec Msg ℕ
  size r =
      if (is_map_field r && not (is_map_element r)) || (is_array r && not (is_array_element r))
      then (do f ← lift (deref P r.field_desc); gets (λ root. field_size (read P r.loc root) f))
      else throw not_array_or_map

  -- get_array_element
  abbrev pub get_array_element : Ref P → ℕ → Ref P
  get_array_element r i = record r { arr_idx = some i }

  -- msg_type and mapped_msg_type
  unfoldable pub msg_type : Ref P → Outcome Bytes
  msg_type r = elim (type_of P r.field_desc) [
    | ok t ↦
        Errors.◌>>◌ (require_message t)
          (map_ok (λ f. full_name (message_type f)) (deref P r.field_desc))
    | err e ↦ err e
    | abort ↦ abort
  ]

  abbrev mapped_type : Field → Outcome Bytes
  mapped_type f =
      map_ok (λ v. full_name (message_type v))
        (deref P (find_field_by_name (message_type f) (codes "value")))

  unfoldable pub mapped_msg_type : Ref P → Outcome Bytes
  mapped_msg_type r = elim r.field_desc [
    | none ↦ abort
    | some f ↦ Errors.◌>>◌ (require_message (cpp_type f)) (mapped_type f)
  ]

  -- FieldRef::clear
  unfoldable pub clear : Ref P → Exec Msg (Unit {0})
  clear r = if is_array_element r then throw clear_element else elim r.field_desc [
    | none ↦ modify (change P r.loc P.clear)
    | some f ↦ modify (change P r.loc (λ m. clear_field m f))
  ]

  -- The loop of _del_array_element, by the rounds left: `idx` climbs to `size - 1`.
  unfoldable pub bubble : ℕ → Field → ℕ → Msg → Msg
  bubble zero f i m = m
  bubble (suc rounds) f i m = bubble rounds f (i + 1) (swap_elements m f i (i + 1))

  -- _del_array_element of the element at `i`
  unfoldable pub del_array_element : Field → ℕ → Msg → Msg
  unfolding bubble
  del_array_element f i m = remove_last (bubble (field_size m f - 1 - i) f i m) f

  -- FieldRef::del
  unfoldable pub del : Ref P → Exec Msg (Unit {0})
  del r = elim r.arr_idx [
    | none ↦ throw delete_non_element
    | some i ↦ do f ← lift (deref P r.field_desc); modify (change P r.loc (del_array_element f i))
  ]

  -- FieldRef::merge: MutableMessage ends the process at a repeated field, then MergeFrom
  unfoldable pub merge : Ref P → Msg → Exec Msg (Unit {0})
  merge r other = do
    t ← lift (type_of P r.field_desc)
    lift (require_message t)
    f ← lift (deref P r.field_desc)
    lift (expect P false message f)
    modify (change P r.loc (λ m. set message m f (merge_from (get message m f) other)))
