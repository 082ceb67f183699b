-- ===== src/Sample.antt =====
-- A small instance of the parameters: one message type with a field of each kind, and a keyspace that
-- is a function. It shows that the assumptions about protobuf and Redis can hold, and runs the tests.
pub mod Laws
pub mod Apart
pub mod Serial
use redis_protobuf.Base.{
  ℕ, zero, suc, ◌+◌, ◌-◌, ◌≡◌, refl, Bool, true, false, ◌&&◌, Option, none, some, List, [], ◌∷◌,
  ◌++◌, Bytes, codes, beq, length, ◌==◌, if◌then◌else◌, ℤ, pos, map,
}
use redis_protobuf.Errors.{Outcome, ok}
use redis_protobuf.Protobuf.{
  Protobuf, CppType, int32, int64, uint32, uint64, double, float, bool, enum, string, message,
  MapKey, string_key, Value,
}
use redis_protobuf.ModuleApi.{Redis, KeyKind, missing, ours, World}

-- message Node { uint64 wide; string text; repeated int32 nums; repeated string words;
--                Node child; repeated Node kids; map<string, int32> table; }
mutual
  pub data Node : Type 0 where
    node : ℕ → Bytes → List ℤ → List Bytes → Child → Kids → List (Bytes × ℤ) → Node

  pub data Child : Type 0 where
    absent : Child
    present : Node → Child

  pub data Kids : Type 0 where
    nil : Kids
    cons : Node → Kids → Kids

pub data NodeField : Type 0 where
  wide text nums words child kids table : NodeField

pub data NodeDescriptor : Type 0 where
  node_type entry_type : NodeDescriptor

abbrev pub new_node : Node
new_node = node 0 [] [] [] absent nil []

abbrev pub of_child : Child → Node
of_child absent = new_node
of_child (present n) = n

abbrev pub field_type : NodeField → CppType
field_type wide = uint64
field_type text = string
field_type nums = int32
field_type words = string
field_type child = message
field_type kids = message
field_type table = message

abbrev pub repeated : NodeField → Bool
repeated nums = true
repeated words = true
repeated kids = true
repeated table = true
repeated _ = false

abbrev pub mapped : NodeField → Bool
mapped table = true
mapped _ = false

abbrev pub field_message : NodeField → NodeDescriptor
field_message table = entry_type
field_message _ = node_type

abbrev find_node_field : Bytes → Option NodeField
find_node_field s =
    if beq s (codes "wide")
    then some wide
    else if beq s (codes "text")
    then some text
    else if beq s (codes "nums")
    then some nums
    else if beq s (codes "words")
    then some words
    else if beq s (codes "child")
    then some child
    else if beq s (codes "kids")
    then some kids
    else if beq s (codes "table")
    then some table
    else none

-- The key and the value of the map's entries: what is asked of them is the type.
abbrev find_entry_field : Bytes → Option NodeField
find_entry_field s =
    if beq s (codes "key") then some text else if beq s (codes "value") then some nums else none

abbrev find_field : NodeDescriptor → Bytes → Option NodeField
find_field node_type s = find_node_field s
find_field entry_type s = find_entry_field s

abbrev pub NodeValue : CppType → Type 0
NodeValue t = Value Node (Unit {0}) (Unit {0}) t

abbrev default_value : (t : CppType) → NodeValue t
default_value int32 = pos 0
default_value int64 = pos 0
default_value uint32 = 0
default_value uint64 = 0
default_value double = tt
default_value float = tt
default_value bool = false
default_value enum = pos 0
default_value string = []
default_value message = new_node

abbrev get_field : (t : CppType) → Node → NodeField → NodeValue t
get_field uint64 (node w s xs ws c ks m) wide = w
get_field string (node w s xs ws c ks m) text = s
get_field message (node w s xs ws c ks m) child = of_child c
get_field t n f = default_value t

abbrev set_field : (t : CppType) → Node → NodeField → NodeValue t → Node
set_field uint64 (node w s xs ws c ks m) wide v = node v s xs ws c ks m
set_field string (node w s xs ws c ks m) text v = node w v xs ws c ks m
set_field message (node w s xs ws c ks m) child v = node w s xs ws (present v) ks m
set_field t n f v = n

module _ {A : Type 0} where
  abbrev pub at : A → List A → ℕ → A
  at d [] i = d
  at d (x ∷ xs) zero = x
  at d (x ∷ xs) (suc i) = at d xs i

  abbrev pub put : List A → ℕ → A → List A
  put [] i v = []
  put (x ∷ xs) zero v = v ∷ xs
  put (x ∷ xs) (suc i) v = x ∷ put xs i v

  abbrev pub drop_last : List A → List A
  drop_last [] = []
  drop_last (x ∷ []) = []
  drop_last (x ∷ y ∷ xs) = x ∷ drop_last (y ∷ xs)

  abbrev pub swap : A → List A → ℕ → ℕ → List A
  swap d xs i j = put (put xs i (at d xs j)) j (at d xs i)

abbrev kid : Kids → ℕ → Node
kid nil i = new_node
kid (cons n ks) zero = n
kid (cons n ks) (suc i) = kid ks i

abbrev put_kid : Kids → ℕ → Node → Kids
put_kid nil i v = nil
put_kid (cons n ks) zero v = cons v ks
put_kid (cons n ks) (suc i) v = cons n (put_kid ks i v)

abbrev add_kid : Kids → Node → Kids
add_kid nil v = cons v nil
add_kid (cons n ks) v = cons n (add_kid ks v)

abbrev count_kids : Kids → ℕ
count_kids nil = 0
count_kids (cons n ks) = suc (count_kids ks)

abbrev size_of : Node → NodeField → ℕ
size_of (node w s xs ws c ks m) nums = length xs
size_of (node w s xs ws c ks m) words = length ws
size_of (node w s xs ws c ks m) kids = count_kids ks
size_of (node w s xs ws c ks m) table = length m
size_of n f = 0

abbrev get_at : (t : CppType) → Node → NodeField → ℕ → NodeValue t
get_at int32 (node w s xs ws c ks m) nums i = at (pos 0) xs i
get_at string (node w s xs ws c ks m) words i = at [] ws i
get_at message (node w s xs ws c ks m) kids i = kid ks i
get_at t n f i = default_value t

abbrev set_at : (t : CppType) → Node → NodeField → ℕ → NodeValue t → Node
set_at int32 (node w s xs ws c ks m) nums i v = node w s (put xs i v) ws c ks m
set_at string (node w s xs ws c ks m) words i v = node w s xs (put ws i v) c ks m
set_at message (node w s xs ws c ks m) kids i v = node w s xs ws c (put_kid ks i v) m
set_at t n f i v = n

abbrev add_to : (t : CppType) → Node → NodeField → NodeValue t → Node
add_to int32 (node w s xs ws c ks m) nums v = node w s (xs ++ v ∷ []) ws c ks m
add_to string (node w s xs ws c ks m) words v = node w s xs (ws ++ v ∷ []) c ks m
add_to message (node w s xs ws c ks m) kids v = node w s xs ws c (add_kid ks v) m
add_to t n f v = n

abbrev swap_at : Node → NodeField → ℕ → ℕ → Node
swap_at (node w s xs ws c ks m) nums i j = node w s (swap (pos 0) xs i j) ws c ks m
swap_at (node w s xs ws c ks m) words i j = node w s xs (swap [] ws i j) c ks m
swap_at n f i j = n

abbrev remove_at_end : Node → NodeField → Node
remove_at_end (node w s xs ws c ks m) nums = node w s (drop_last xs) ws c ks m
remove_at_end (node w s xs ws c ks m) words = node w s xs (drop_last ws) c ks m
remove_at_end n f = n

abbrev key_text : MapKey → Bytes
key_text (string_key s) = s
key_text k = []

abbrev has_key : Bytes → List (Bytes × ℤ) → Bool
has_key k [] = false
has_key k ((j, v) ∷ m) = if beq j k then true else has_key k m

abbrev at_key : Bytes → List (Bytes × ℤ) → ℤ
at_key k [] = pos 0
at_key k ((j, v) ∷ m) = if beq j k then v else at_key k m

abbrev put_key : Bytes → ℤ → List (Bytes × ℤ) → List (Bytes × ℤ)
put_key k v [] = (k, v) ∷ []
put_key k v ((j, u) ∷ m) = if beq j k then (j, v) ∷ m else (j, u) ∷ put_key k v m

abbrev keys_of : Node → NodeField → List MapKey
keys_of (node w s xs ws c ks m) table = map (λ e. string_key e.0) m
keys_of n f = []

abbrev contains : Node → NodeField → MapKey → Bool
contains (node w s xs ws c ks m) table k = has_key (key_text k) m
contains n f k = false

abbrev map_value : (t : CppType) → Node → NodeField → MapKey → NodeValue t
map_value int32 (node w s xs ws c ks m) table k = at_key (key_text k) m
map_value t n f k = default_value t

abbrev set_map_value : (t : CppType) → Node → NodeField → MapKey → NodeValue t → Node
set_map_value int32 (node w s xs ws c ks m) table k v =
    node w s xs ws c ks (put_key (key_text k) v m)
set_map_value t n f k v = n

abbrev insert_key : Node → NodeField → MapKey → Node
insert_key (node w s xs ws c ks m) table k =
    if has_key (key_text k) m
    then node w s xs ws c ks m
    else node w s xs ws c ks (put_key (key_text k) (pos 0) m)
insert_key n f k = n

abbrev clear_node : Node → NodeField → Node
clear_node (node w s xs ws c ks m) wide = node 0 s xs ws c ks m
clear_node (node w s xs ws c ks m) text = node w [] xs ws c ks m
clear_node (node w s xs ws c ks m) nums = node w s [] ws c ks m
clear_node (node w s xs ws c ks m) words = node w s xs [] c ks m
clear_node (node w s xs ws c ks m) child = node w s xs ws absent ks m
clear_node (node w s xs ws c ks m) kids = node w s xs ws c nil m
clear_node (node w s xs ws c ks m) table = node w s xs ws c ks []

-- The text is what is serialized; a merge takes the other message's text behind this one's.
abbrev text_of : Node → Bytes
text_of (node w s xs ws c ks m) = s

abbrev full_name_of : NodeDescriptor → Bytes
full_name_of node_type = codes "Node"
full_name_of entry_type = codes "Node.TableEntry"

abbrev find_type : Bytes → Option NodeDescriptor
find_type s = if beq s (codes "Node") then some node_type else none

abbrev pub sample : Protobuf
sample = record {
  Msg = Node;
  Descriptor = NodeDescriptor;
  Field = NodeField;
  Double = Unit;
  Float = Unit;
  stod = λ s. none;
  stof = λ s. none;
  double_to_string = λ x. [];
  float_to_string = λ x. [];
  descriptor = λ n. node_type;
  full_name = full_name_of;
  find_field_by_name = find_field;
  debug_string = full_name_of;
  cpp_type = field_type;
  is_repeated = repeated;
  is_map = mapped;
  message_type = field_message;
  get = get_field;
  set = set_field;
  field_size = size_of;
  get_repeated = get_at;
  set_repeated = set_at;
  add = add_to;
  swap_elements = swap_at;
  remove_last = remove_at_end;
  map_keys = keys_of;
  map_contains = contains;
  map_get = map_value;
  map_set = set_map_value;
  insert_or_lookup = insert_key;
  clear_field = clear_node;
  clear = λ n. new_node;
  merge_from = λ a b. set_field string a text (text_of a ++ text_of b);
  byte_size = λ n. length (text_of n);
  serialize = λ n. some (text_of n);
  parse_from_array = λ n s. some (set_field string n text s);
  to_json = λ n. some (text_of n);
  from_json = λ n s. some (set_field string n text s);
  find_message_type = find_type;
  new_message = λ d. new_node;
}

-- The message of each key, and the time to live of each key in milliseconds.
pub record SampleKeys : Type 0 where
  pub messages : Bytes → Option Node
  pub ttl : Bytes → ℤ

abbrev kind_of : Option Node → KeyKind
kind_of none = missing
kind_of (some n) = ours

abbrev put_message : SampleKeys → Bytes → Option Node → SampleKeys
put_message ks k v = record ks { messages = λ j. if beq j k then v else ks.messages j }

abbrev pub sample_redis : Redis Node
sample_redis = record {
  Keys = SampleKeys;
  key_kind = λ ks k. kind_of (ks.messages k);
  value = λ ks k. ks.messages k;
  store = λ ks k n. put_message ks k (some n);
  set_value = λ ks k n. some (put_message ks k (some n));
  delete_key = λ ks k. put_message ks k none;
  set_expire = λ ks k ms. record ks { ttl = λ j. if beq j k then ms else ks.ttl j };
}

abbrev pub empty_world : World SampleKeys
empty_world = record {
  keys = record { messages = λ k. none; ttl = λ k. pos 0 };
  replies = [];
  replicated = false;
  opened = [];
}

-- The key `a` holds this message.
abbrev pub some_node : Node
some_node =
    node 7 (codes "hi") (pos 1 ∷ pos 2 ∷ pos 3 ∷ []) (codes "x" ∷ codes "yz" ∷ []) absent
      (cons new_node nil) ((codes "k", pos 5) ∷ (codes "l", pos 6) ∷ [])

abbrev pub one_key : World SampleKeys
one_key = record empty_world { keys = put_message empty_world.keys (codes "a") (some some_node) }
