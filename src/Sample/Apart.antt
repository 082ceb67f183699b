-- ===== src/Sample/Apart.antt =====
-- The sample instance: a write to one field or element leaves the others.
use redis_protobuf.Base.{Bool, false, ℕ, zero, suc, ◌≡◌, ◌≢◌, refl, ap, pos, []}
use redis_protobuf.Protobuf.{CppType, int32, uint64, string, message}
use redis_protobuf.FieldRef.{Step, sub, elem, entry}
use redis_protobuf.FieldRef.Frame.{field_of, Apart, fields, indices, get_step, set_step, ApartLaws}
use redis_protobuf.Sample.{
  Node, node, Kids, nil, cons, NodeField, wide, text, nums, words, child, kids, table, NodeValue,
  sample, kid, put_kid, of_child, at, at_key, key_text,
}
use redis_protobuf.Sample.Laws.{at-put_ne, sample-AccessLaws}

-- No fields of the sample are of one oneof.
abbrev pub no_oneof : NodeField → NodeField → Bool
no_oneof f g = false

kid-put_ne : (ks : Kids) (i j : ℕ) (v : Node) → i ≢ j → kid (put_kid ks i v) j ≡ kid ks j
kid-put_ne nil i j v h = refl
kid-put_ne (cons n ks) zero zero v h = absurd (h refl)
kid-put_ne (cons n ks) zero (suc j) v h = refl
kid-put_ne (cons n ks) (suc i) zero v h = refl
kid-put_ne (cons n ks) (suc i) (suc j) v h = kid-put_ne ks i j v (λ e. h (ap suc e))

-- Two messages have the same value of a field.
abbrev SamePart : NodeField → Node → Node → Type 0
SamePart wide (node w s xs ws c ks m) (node w' s' xs' ws' c' ks' m') = w ≡ w'
SamePart text (node w s xs ws c ks m) (node w' s' xs' ws' c' ks' m') = s ≡ s'
SamePart nums (node w s xs ws c ks m) (node w' s' xs' ws' c' ks' m') = xs ≡ xs'
SamePart words (node w s xs ws c ks m) (node w' s' xs' ws' c' ks' m') = ws ≡ ws'
SamePart child (node w s xs ws c ks m) (node w' s' xs' ws' c' ks' m') = c ≡ c'
SamePart kids (node w s xs ws c ks m) (node w' s' xs' ws' c' ks' m') = ks ≡ ks'
SamePart table (node w s xs ws c ks m) (node w' s' xs' ws' c' ks' m') = m ≡ m'

SamePart-refl : (f : NodeField) (n : Node) → SamePart f n n
SamePart-refl wide (node w s xs ws c ks m) = refl
SamePart-refl text (node w s xs ws c ks m) = refl
SamePart-refl nums (node w s xs ws c ks m) = refl
SamePart-refl words (node w s xs ws c ks m) = refl
SamePart-refl child (node w s xs ws c ks m) = refl
SamePart-refl kids (node w s xs ws c ks m) = refl
SamePart-refl table (node w s xs ws c ks m) = refl

-- A read at a step sees only its field.
read_part :
    (u : CppType) (x : Step NodeField) (n n' : Node)
    → SamePart (field_of x) n n'
    → get_step sample u x n ≡ get_step sample u x n'
read_part uint64 (sub wide) (node w s xs ws c ks m) (node w' s' xs' ws' c' ks' m') h = h
read_part string (sub text) (node w s xs ws c ks m) (node w' s' xs' ws' c' ks' m') h = h
read_part message (sub child) (node w s xs ws c ks m) (node w' s' xs' ws' c' ks' m') h =
    ap of_child h
read_part int32 (elem nums i) (node w s xs ws c ks m) (node w' s' xs' ws' c' ks' m') h =
    ap (λ l. at (pos 0) l i) h
read_part string (elem words i) (node w s xs ws c ks m) (node w' s' xs' ws' c' ks' m') h =
    ap (λ l. at [] l i) h
read_part message (elem kids i) (node w s xs ws c ks m) (node w' s' xs' ws' c' ks' m') h =
    ap (λ l. kid l i) h
read_part int32 (entry table k) (node w s xs ws c ks m) (node w' s' xs' ws' c' ks' m') h =
    ap (at_key (key_text k)) h
read_part _ (sub wide) (node w s xs ws c ks m) (node w' s' xs' ws' c' ks' m') h = refl
read_part _ (sub text) (node w s xs ws c ks m) (node w' s' xs' ws' c' ks' m') h = refl
read_part uint64 (sub nums) (node w s xs ws c ks m) (node w' s' xs' ws' c' ks' m') h = refl
read_part _ (sub nums) (node w s xs ws c ks m) (node w' s' xs' ws' c' ks' m') h = refl
read_part uint64 (sub words) (node w s xs ws c ks m) (node w' s' xs' ws' c' ks' m') h = refl
read_part _ (sub words) (node w s xs ws c ks m) (node w' s' xs' ws' c' ks' m') h = refl
read_part _ (sub child) (node w s xs ws c ks m) (node w' s' xs' ws' c' ks' m') h = refl
read_part uint64 (sub kids) (node w s xs ws c ks m) (node w' s' xs' ws' c' ks' m') h = refl
read_part _ (sub kids) (node w s xs ws c ks m) (node w' s' xs' ws' c' ks' m') h = refl
read_part uint64 (sub table) (node w s xs ws c ks m) (node w' s' xs' ws' c' ks' m') h = refl
read_part _ (sub table) (node w s xs ws c ks m) (node w' s' xs' ws' c' ks' m') h = refl
read_part uint64 (elem wide i) (node w s xs ws c ks m) (node w' s' xs' ws' c' ks' m') h = refl
read_part _ (elem wide i) (node w s xs ws c ks m) (node w' s' xs' ws' c' ks' m') h = refl
read_part uint64 (elem text i) (node w s xs ws c ks m) (node w' s' xs' ws' c' ks' m') h = refl
read_part _ (elem text i) (node w s xs ws c ks m) (node w' s' xs' ws' c' ks' m') h = refl
read_part _ (elem nums i) (node w s xs ws c ks m) (node w' s' xs' ws' c' ks' m') h = refl
read_part _ (elem words i) (node w s xs ws c ks m) (node w' s' xs' ws' c' ks' m') h = refl
read_part uint64 (elem child i) (node w s xs ws c ks m) (node w' s' xs' ws' c' ks' m') h = refl
read_part _ (elem child i) (node w s xs ws c ks m) (node w' s' xs' ws' c' ks' m') h = refl
read_part _ (elem kids i) (node w s xs ws c ks m) (node w' s' xs' ws' c' ks' m') h = refl
read_part uint64 (elem table i) (node w s xs ws c ks m) (node w' s' xs' ws' c' ks' m') h = refl
read_part _ (elem table i) (node w s xs ws c ks m) (node w' s' xs' ws' c' ks' m') h = refl
read_part uint64 (entry wide k) (node w s xs ws c ks m) (node w' s' xs' ws' c' ks' m') h = refl
read_part _ (entry wide k) (node w s xs ws c ks m) (node w' s' xs' ws' c' ks' m') h = refl
read_part uint64 (entry text k) (node w s xs ws c ks m) (node w' s' xs' ws' c' ks' m') h = refl
read_part _ (entry text k) (node w s xs ws c ks m) (node w' s' xs' ws' c' ks' m') h = refl
read_part uint64 (entry nums k) (node w s xs ws c ks m) (node w' s' xs' ws' c' ks' m') h = refl
read_part _ (entry nums k) (node w s xs ws c ks m) (node w' s' xs' ws' c' ks' m') h = refl
read_part uint64 (entry words k) (node w s xs ws c ks m) (node w' s' xs' ws' c' ks' m') h = refl
read_part _ (entry words k) (node w s xs ws c ks m) (node w' s' xs' ws' c' ks' m') h = refl
read_part uint64 (entry child k) (node w s xs ws c ks m) (node w' s' xs' ws' c' ks' m') h = refl
read_part _ (entry child k) (node w s xs ws c ks m) (node w' s' xs' ws' c' ks' m') h = refl
read_part uint64 (entry kids k) (node w s xs ws c ks m) (node w' s' xs' ws' c' ks' m') h = refl
read_part _ (entry kids k) (node w s xs ws c ks m) (node w' s' xs' ws' c' ks' m') h = refl
read_part _ (entry table k) (node w s xs ws c ks m) (node w' s' xs' ws' c' ks' m') h = refl

-- A write at a step changes only its field.
write_part :
    (t : CppType) (s : Step NodeField) (n : Node) (v : NodeValue t) (g : NodeField)
    → field_of s ≢ g
    → SamePart g (set_step sample t s n v) n
write_part uint64 (sub wide) (node w s xs ws c ks m) v wide h = absurd (h refl)
write_part uint64 (sub wide) (node w s xs ws c ks m) v _ h = refl
write_part string (sub text) (node w s xs ws c ks m) v text h = absurd (h refl)
write_part string (sub text) (node w s xs ws c ks m) v _ h = refl
write_part message (sub child) (node w s xs ws c ks m) v child h = absurd (h refl)
write_part message (sub child) (node w s xs ws c ks m) v _ h = refl
write_part int32 (elem nums i) (node w s xs ws c ks m) v nums h = absurd (h refl)
write_part int32 (elem nums i) (node w s xs ws c ks m) v _ h = refl
write_part string (elem words i) (node w s xs ws c ks m) v words h = absurd (h refl)
write_part string (elem words i) (node w s xs ws c ks m) v _ h = refl
write_part message (elem kids i) (node w s xs ws c ks m) v kids h = absurd (h refl)
write_part message (elem kids i) (node w s xs ws c ks m) v _ h = refl
write_part int32 (entry table k) (node w s xs ws c ks m) v table h = absurd (h refl)
write_part int32 (entry table k) (node w s xs ws c ks m) v _ h = refl
write_part _ (sub wide) (node w s xs ws c ks m) v g h = SamePart-refl g (node w s xs ws c ks m)
write_part _ (sub text) (node w s xs ws c ks m) v g h = SamePart-refl g (node w s xs ws c ks m)
write_part uint64 (sub nums) (node w s xs ws c ks m) v g h = SamePart-refl g (node w s xs ws c ks m)
write_part _ (sub nums) (node w s xs ws c ks m) v g h = SamePart-refl g (node w s xs ws c ks m)
write_part uint64 (sub words) (node w s xs ws c ks m) v g h =
    SamePart-refl g (node w s xs ws c ks m)
write_part _ (sub words) (node w s xs ws c ks m) v g h = SamePart-refl g (node w s xs ws c ks m)
write_part _ (sub child) (node w s xs ws c ks m) v g h = SamePart-refl g (node w s xs ws c ks m)
write_part uint64 (sub kids) (node w s xs ws c ks m) v g h = SamePart-refl g (node w s xs ws c ks m)
write_part _ (sub kids) (node w s xs ws c ks m) v g h = SamePart-refl g (node w s xs ws c ks m)
write_part uint64 (sub table) (node w s xs ws c ks m) v g h =
    SamePart-refl g (node w s xs ws c ks m)
write_part _ (sub table) (node w s xs ws c ks m) v g h = SamePart-refl g (node w s xs ws c ks m)
write_part uint64 (elem wide i) (node w s xs ws c ks m) v g h =
    SamePart-refl g (node w s xs ws c ks m)
write_part _ (elem wide i) (node w s xs ws c ks m) v g h = SamePart-refl g (node w s xs ws c ks m)
write_part uint64 (elem text i) (node w s xs ws c ks m) v g h =
    SamePart-refl g (node w s xs ws c ks m)
write_part _ (elem text i) (node w s xs ws c ks m) v g h = SamePart-refl g (node w s xs ws c ks m)
write_part _ (elem nums i) (node w s xs ws c ks m) v g h = SamePart-refl g (node w s xs ws c ks m)
write_part _ (elem words i) (node w s xs ws c ks m) v g h = SamePart-refl g (node w s xs ws c ks m)
write_part uint64 (elem child i) (node w s xs ws c ks m) v g h =
    SamePart-refl g (node w s xs ws c ks m)
write_part _ (elem child i) (node w s xs ws c ks m) v g h = SamePart-refl g (node w s xs ws c ks m)
write_part _ (elem kids i) (node w s xs ws c ks m) v g h = SamePart-refl g (node w s xs ws c ks m)
write_part uint64 (elem table i) (node w s xs ws c ks m) v g h =
    SamePart-refl g (node w s xs ws c ks m)
write_part _ (elem table i) (node w s xs ws c ks m) v g h = SamePart-refl g (node w s xs ws c ks m)
write_part uint64 (entry wide k) (node w s xs ws c ks m) v g h =
    SamePart-refl g (node w s xs ws c ks m)
write_part _ (entry wide k) (node w s xs ws c ks m) v g h = SamePart-refl g (node w s xs ws c ks m)
write_part uint64 (entry text k) (node w s xs ws c ks m) v g h =
    SamePart-refl g (node w s xs ws c ks m)
write_part _ (entry text k) (node w s xs ws c ks m) v g h = SamePart-refl g (node w s xs ws c ks m)
write_part uint64 (entry nums k) (node w s xs ws c ks m) v g h =
    SamePart-refl g (node w s xs ws c ks m)
write_part _ (entry nums k) (node w s xs ws c ks m) v g h = SamePart-refl g (node w s xs ws c ks m)
write_part uint64 (entry words k) (node w s xs ws c ks m) v g h =
    SamePart-refl g (node w s xs ws c ks m)
write_part _ (entry words k) (node w s xs ws c ks m) v g h = SamePart-refl g (node w s xs ws c ks m)
write_part uint64 (entry child k) (node w s xs ws c ks m) v g h =
    SamePart-refl g (node w s xs ws c ks m)
write_part _ (entry child k) (node w s xs ws c ks m) v g h = SamePart-refl g (node w s xs ws c ks m)
write_part uint64 (entry kids k) (node w s xs ws c ks m) v g h =
    SamePart-refl g (node w s xs ws c ks m)
write_part _ (entry kids k) (node w s xs ws c ks m) v g h = SamePart-refl g (node w s xs ws c ks m)
write_part _ (entry table k) (node w s xs ws c ks m) v g h = SamePart-refl g (node w s xs ws c ks m)

write_index :
    (f : NodeField) (t u : CppType) (i j : ℕ) (n : Node) (v : NodeValue t)
    → i ≢ j
    → sample.get_repeated u (sample.set_repeated t n f i v) f j ≡ sample.get_repeated u n f j
write_index nums int32 int32 i j (node w s xs ws c ks m) v h = at-put_ne (pos 0) xs i j v h
write_index nums int32 _ i j (node w s xs ws c ks m) v h = refl
write_index nums _ u i j (node w s xs ws c ks m) v h = refl
write_index words string string i j (node w s xs ws c ks m) v h = at-put_ne [] ws i j v h
write_index words string _ i j (node w s xs ws c ks m) v h = refl
write_index words _ u i j (node w s xs ws c ks m) v h = refl
write_index kids message message i j (node w s xs ws c ks m) v h = kid-put_ne ks i j v h
write_index kids message _ i j (node w s xs ws c ks m) v h = refl
write_index kids _ u i j (node w s xs ws c ks m) v h = refl
write_index wide uint64 u i j (node w s xs ws c ks m) v h = refl
write_index wide _ u i j (node w s xs ws c ks m) v h = refl
write_index text uint64 u i j (node w s xs ws c ks m) v h = refl
write_index text _ u i j (node w s xs ws c ks m) v h = refl
write_index child uint64 u i j (node w s xs ws c ks m) v h = refl
write_index child _ u i j (node w s xs ws c ks m) v h = refl
write_index table uint64 u i j (node w s xs ws c ks m) v h = refl
write_index table _ u i j (node w s xs ws c ks m) v h = refl

apart_lem :
    (t u : CppType) (s x : Step NodeField) (n : Node) (v : NodeValue t)
    → Apart no_oneof s x
    → get_step sample u x (set_step sample t s n v) ≡ get_step sample u x n
apart_lem t u s x n v (fields h o) =
    read_part u x (set_step sample t s n v) n (write_part t s n v (field_of x) h)
apart_lem t u (elem f i) (elem _ j) n v (indices h) = write_index f t u i j n v h

pub sample-ApartLaws : ApartLaws sample no_oneof
sample-ApartLaws = record {
  access = sample-AccessLaws;
  get-set_apart = λ t u s x n v a f g. apart_lem t u s x n v a;
}
