-- ===== src/Protobuf.antt =====
-- What the module uses of the protobuf library, which it does not implement: the descriptors and the
-- reflection of messages, as a parameter of the development. A message is a value here. A pointer
-- into a message is a place in it (FieldRef), and a write through the pointer is a `set` at each
-- level above.
use redis_protobuf.Base.{ℕ, ◌≡◌, refl, Bool, true, ◌==◌, Option, List, Bytes, ℤ}

-- gp::FieldDescriptor::CppType
pub data CppType : Type 0 where
  int32 int64 uint32 uint64 double float bool enum string message : CppType

abbrev type_tag : CppType → ℕ
type_tag int32 = 1
type_tag int64 = 2
type_tag uint32 = 3
type_tag uint64 = 4
type_tag double = 5
type_tag float = 6
type_tag bool = 7
type_tag enum = 8
type_tag string = 9
type_tag message = 10

-- `==` of the enumeration
unfoldable pub same_type : CppType → CppType → Bool
same_type a b = type_tag a == type_tag b

pub same_type_refl : (t : CppType) → same_type t t ≡ true
unfolding same_type
same_type_refl int32 = refl
same_type_refl _ = refl

-- The C++ type of a field's value; messages and floating point numbers are the library's and the
-- platform's.
abbrev pub Value : Type 0 → Type 0 → Type 0 → CppType → Type 0
Value Msg Double Float int32 = ℤ
Value Msg Double Float int64 = ℤ
Value Msg Double Float uint32 = ℕ
Value Msg Double Float uint64 = ℕ
Value Msg Double Float double = Double
Value Msg Double Float float = Float
Value Msg Double Float bool = Bool
Value Msg Double Float enum = ℤ
Value Msg Double Float string = Bytes
Value Msg Double Float message = Msg

-- gp::MapKey
pub data MapKey : Type 0 where
  int32_key int64_key : ℤ → MapKey
  uint32_key uint64_key : ℕ → MapKey
  bool_key : Bool → MapKey
  string_key : Bytes → MapKey

pub record Protobuf : Type 1 where
  pub Msg : Type 0
  pub Descriptor : Type 0
  pub Field : Type 0
  pub Double : Type 0
  pub Float : Type 0
  -- std::stod, std::stof and std::to_string: `none` is an exception
  pub stod : Bytes → Option Double
  pub stof : Bytes → Option Float
  pub double_to_string : Double → Bytes
  pub float_to_string : Float → Bytes
  -- Descriptor: GetDescriptor, full_name, FindFieldByName, DebugString
  pub descriptor : Msg → Descriptor
  pub full_name : Descriptor → Bytes
  pub find_field_by_name : Descriptor → Bytes → Option Field
  pub debug_string : Descriptor → Bytes
  -- FieldDescriptor: cpp_type, is_repeated (true of a map too), is_map, message_type
  pub cpp_type : Field → CppType
  pub is_repeated : Field → Bool
  pub is_map : Field → Bool
  pub message_type : Field → Descriptor
  -- Reflection of a singular field: Get*, and Set*, which of a message is a write through the
  -- pointer that MutableMessage returns
  pub get : (t : CppType) → Msg → Field → Value Msg Double Float t
  pub set : (t : CppType) → Msg → Field → Value Msg Double Float t → Msg
  -- of a repeated field: FieldSize, GetRepeated*, SetRepeated*, Add*, SwapElements, RemoveLast
  pub field_size : Msg → Field → ℕ
  pub get_repeated : (t : CppType) → Msg → Field → ℕ → Value Msg Double Float t
  pub set_repeated : (t : CppType) → Msg → Field → ℕ → Value Msg Double Float t → Msg
  pub add : (t : CppType) → Msg → Field → Value Msg Double Float t → Msg
  pub swap_elements : Msg → Field → ℕ → ℕ → Msg
  pub remove_last : Msg → Field → Msg
  -- of a map: the keys in the order of iteration, the test of `find`, the value of a key, a write
  -- through its MapValueRef, and InsertOrLookupMapValue
  pub map_keys : Msg → Field → List MapKey
  pub map_contains : Msg → Field → MapKey → Bool
  pub map_get : (t : CppType) → Msg → Field → MapKey → Value Msg Double Float t
  pub map_set : (t : CppType) → Msg → Field → MapKey → Value Msg Double Float t → Msg
  pub insert_or_lookup : Msg → Field → MapKey → Msg
  -- ClearField, Message::Clear, MergeFrom, ByteSizeLong
  pub clear_field : Msg → Field → Msg
  pub clear : Msg → Msg
  pub merge_from : Msg → Msg → Msg
  pub byte_size : Msg → ℕ
  -- SerializeToString, ParseFromArray, MessageToJsonString, JsonStringToMessage
  pub serialize : Msg → Option Bytes
  pub parse_from_array : Msg → Bytes → Option Msg
  pub to_json : Msg → Option Bytes
  pub from_json : Msg → Bytes → Option Msg
  -- FindMessageTypeByName of the pool, and New of the prototype of a descriptor
  pub find_message_type : Bytes → Option Descriptor
  pub new_message : Descriptor → Msg

-- Message::GetTypeName
abbrev pub type_name : (P : Protobuf) → P.Msg → Bytes
type_name P m = P.full_name (P.descriptor m)

abbrev pub ValueOf : Protobuf → CppType → Type 0
ValueOf P t = Value P.Msg P.Double P.Float t
