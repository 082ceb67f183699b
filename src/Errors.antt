-- ===== src/Errors.antt =====
-- errors.h: the exceptions of the module, one constructor for each kind of message, and the result
-- of code that may throw one. The texts of the messages are not modelled, what they quote is.
use redis_protobuf.Base.{◌⊎◌, inl, inr, ℕ, ◌≡◌, refl, Bytes}

pub data Error : Type 0 where
  -- WrongArityError, WrongTypeError, MapKeyNotFoundError
  wrong_arity wrong_type : Error
  map_key_not_found : Bytes → Error
  -- util::sv_to_*
  not_int32 not_int64 not_uint32 not_uint64 not_double not_float not_bool : Error
  -- Path
  empty_path no_leading_slash empty_field : Error
  -- FieldRef
  null_field type_mismatch not_nested invalid_map_key_type map_value_not_message : Error
  not_a_message not_array_or_map negative_index clear_element delete_non_element : Error
  key_not_found : Error
  field_not_found invalid_index : Bytes → Error
  index_out_of_range : Bytes → ℕ → Error
  -- ProtoFactory
  unknown_type json_failed binary_failed open_failed : Bytes → Error
  already_imported : Error
  load_failed : Bytes → Bytes → Error
  invalid_proto_dir : Error
  -- io
  not_a_directory open_dir_failed status_failed : Bytes → Error
  -- the load of the module
  init_failed create_type_failed : Error
  create_command_failed : Bytes → Error
  -- the commands
  syntax_error expire_not_positive set_failed whole_map whole_array : Error
  unknown_format no_format serialize_failed to_json_failed : Error
  append_whole not_array_or_string no_length null_value no_message : Error
  -- Options
  duplicate_dir dir_required : Error
  unknown_option : Bytes → Error
  -- RDB and AOF
  bad_encoding : ℕ → Error
  load_string_failed null_key : Error
  -- api::open_key
  null_name : Error

-- `abort` is the end of the process or what C++ leaves undefined: protobuf's fatal "reflection usage
-- error", a null or wild pointer, or a signed integer that overflows.
pub data Outcome {ℓ} (A : Type ℓ) : Type ℓ where
  ok : A → Outcome A
  err : Error → Outcome A
  abort : Outcome A

infixl 10 ◌>>=◌ ◌>>◌
abbrev pub ◌>>=◌ {ℓ κ} : {A : Type ℓ} {B : Type κ} → Outcome A → (A → Outcome B) → Outcome B
ok a >>= f = f a
err e >>= f = err e
abort >>= f = abort

abbrev pub ◌>>◌ {ℓ} : {B : Type ℓ} → Outcome (Unit {0}) → Outcome B → Outcome B
m >> k = m >>= λ _. k

abbrev pub map_ok {ℓ κ} : {A : Type ℓ} {B : Type κ} → (A → B) → Outcome A → Outcome B
map_ok f (ok a) = ok (f a)
map_ok f (err e) = err e
map_ok f abort = abort

-- A chain that returns: what its first part returned, and what the rest did with it.
pub >>=-ok {ℓ κ} :
    {A : Type ℓ} {B : Type κ} (o : Outcome A) (g : A → Outcome B) {b : B}
    → o >>= g ≡ ok b
    → (a : A) × (o ≡ ok a) × (g a ≡ ok b)
>>=-ok (ok a) g h = (a, refl, h)
>>=-ok (err _) g h = cc h
>>=-ok abort g h = cc h

pub map_ok-ok {ℓ κ} :
    {A : Type ℓ} {B : Type κ} (o : Outcome A) (g : A → B) {b : B}
    → map_ok g o ≡ ok b
    → (a : A) × (o ≡ ok a) × (g a ≡ b)
map_ok-ok (ok a) g h = (a, refl, cc h)
map_ok-ok (err _) g h = cc h
map_ok-ok abort g h = cc h

-- To split on what code returned.
pub Outcome-cases {ℓ} :
    {A : Type ℓ} (o : Outcome A)
    → ((a : A) × (o ≡ ok a)) ⊎ (((e : Error) × (o ≡ err e)) ⊎ (o ≡ abort))
Outcome-cases (ok a) = inl (a, refl)
Outcome-cases (err e) = inr (inl (e, refl))
Outcome-cases abort = inr (inr refl)
