-- ===== src/FieldRef/Frame.antt =====
-- A write through a reference is not seen through a reference to another place of the message.
use redis_protobuf.Base.{Bool, ℕ, ◌<◌, ◌≡◌, ◌≢◌, refl, sym, ◌∙◌, ap, true, false, some, List, ◌∷◌}
use redis_protobuf.Errors.{ok}
use redis_protobuf.Protobuf.{Protobuf, CppType, message, ValueOf}
use redis_protobuf.FieldRef.{Step, sub, elem, entry, Ref, read, write, change, map_value_type}
use redis_protobuf.FieldRef.Access.{get_value, set_value, get_repeated_value, set_repeated_value}
use redis_protobuf.FieldRef.RoundTrip.{
  AccessLaws, IsPlace, read-write, expect_singular, expect_repeated,
}

abbrev pub field_of : {Field : Type 0} → Step Field → Field
field_of (sub f) = f
field_of (elem f i) = f
field_of (entry f k) = f

-- `one_oneof` says of two fields whether they are members of one oneof, where a Set of the one clears the other.
module _ {Field : Type 0} (one_oneof : Field → Field → Bool) where
  -- Two steps from one message that lead to different places: to different fields that are not of one oneof,
  -- or to different elements of a repeated field.
  pub data Apart : Step Field → Step Field → Type 0 where
    fields :
        {s u : Step Field}
        → field_of s ≢ field_of u
        → one_oneof (field_of s) (field_of u) ≡ false
        → Apart s u
    indices : {f : Field} {i j : ℕ} → i ≢ j → Apart (elem f i) (elem f j)

  -- Two places, each a last step and the steps to its message (the innermost first), that part at a
  -- message which both pass: neither is inside of the other.
  pub data Diverge : Step Field → List (Step Field) → Step Field → List (Step Field) → Type 0 where
    here : {s u : Step Field} {l : List (Step Field)} → Apart s u → Diverge s l u l
    left : {s u x : Step Field} {l k : List (Step Field)} → Diverge s l u k → Diverge x (s ∷ l) u k
    right : {s u x : Step Field} {l k : List (Step Field)} → Diverge s l u k → Diverge s l x (u ∷ k)

module _ (P : Protobuf) where
  open P use {Msg, Field, cpp_type, is_repeated, is_map, field_size}

  -- Get* and Set* at one step of a message
  abbrev pub get_step : (t : CppType) → Step Field → Msg → ValueOf P t
  get_step t (sub f) m = P.get t m f
  get_step t (elem f i) m = P.get_repeated t m f i
  get_step t (entry f k) m = P.map_get t m f k

  abbrev pub set_step : (t : CppType) → Step Field → Msg → ValueOf P t → Msg
  set_step t (sub f) m v = P.set t m f v
  set_step t (elem f i) m v = P.set_repeated t m f i v
  set_step t (entry f k) m v = P.map_set t m f k v

  -- The step is to a value of this type, and an index is in range.
  abbrev pub Fits : CppType → Step Field → Msg → Type 0
  Fits t (sub f) m = (is_repeated f ≡ false) × (cpp_type f ≡ t)
  Fits t (elem f i) m =
      (is_repeated f ≡ true) × (is_map f ≡ false) × (cpp_type f ≡ t) × (i < field_size m f)
  Fits t (entry f k) m = (is_map f ≡ true) × (map_value_type P f ≡ ok t)

  -- What protobuf documents of Reflection: a Set* of a field or an element leaves every other field and
  -- element, but for the members of its oneof.
  pub record ApartLaws (one_oneof : Field → Field → Bool) : Type 0 where
    pub access : AccessLaws P
    pub get-set_apart :
        (t u : CppType) (s x : Step Field) (m : Msg) (v : ValueOf P t)
        → Apart one_oneof s x
        → Fits t s m
        → Fits u x m
        → get_step u x (set_step t s m v) ≡ get_step u x m

  read-step :
      (s : Step Field) (l : List (Step Field)) (root : Msg)
      → read P (s ∷ l) root ≡ get_step message s (read P l root)
  unfolding read
  read-step (sub f) l root = refl
  read-step (elem f i) l root = refl
  read-step (entry f k) l root = refl

  write-step :
      (s : Step Field) (l : List (Step Field)) (root m : Msg)
      → write P (s ∷ l) root m ≡ write P l root (set_step message s (read P l root) m)
  unfolding write
  write-step (sub f) l root m = refl
  write-step (elem f i) l root m = refl
  write-step (entry f k) l root m = refl

  IsPlace-step :
      (s : Step Field) (l : List (Step Field)) (root : Msg)
      → IsPlace P (s ∷ l) root
      → Fits message s (read P l root) × IsPlace P l root
  IsPlace-step (sub f) l root (a, e, h) = ((a, e), h)
  IsPlace-step (elem f i) l root (a, n, e, lt, h) = ((a, n, e, lt), h)
  IsPlace-step (entry f k) l root (a, e, h) = ((a, e), h)

module _ {P : Protobuf} {one_oneof : P.Field → P.Field → Bool} (laws : ApartLaws P one_oneof) where
  open P use {Msg, Field, cpp_type, is_repeated, is_map, field_size}

  -- A write at a place is not seen at a place that parts from it.
  read_apart :
      {s x : Step Field} {l k : List (Step Field)} (t u : CppType) (root : Msg) (v : ValueOf P t)
      → Diverge one_oneof s l x k
      → Fits P t s (read P l root)
      → IsPlace P l root
      → Fits P u x (read P k root)
      → IsPlace P k root
      → get_step P u x (read P k (write P l root (set_step P t s (read P l root) v)))
        ≡ get_step P u x (read P k root)
  read_apart {s} {x} {l} t u root v (here a) f p g q =
      ap (get_step P u x) (read-write laws.access l root (set_step P t s (read P l root) v) p)
      ∙ laws.get-set_apart t u s x (read P l root) v a f g
  read_apart {s} {x} {k = k} t u root v (left {s = s'} {l = l'} d) f p g q =
      let (f', p') = IsPlace-step P s' l' root p in
      let new = set_step P t s (read P (s' ∷ l') root) v in
      ap (λ r. get_step P u x (read P k r)) (write-step P s' l' root new)
      ∙ read_apart message u root new d f' p' g q
  read_apart {s} {x} {l} t u root v (right {u = x'} {k = k'} d) f p g q =
      let (g', q') = IsPlace-step P x' k' root q in
      let after = write P l root (set_step P t s (read P l root) v) in
      ap (get_step P u x) (
        read-step P x' k' after
        ∙ read_apart t message root v d f p g' q'
        ∙ sym (read-step P x' k' root))

  module _ (t u : CppType) (r q : Ref P) (f g : Field) (root : Msg) (v : ValueOf P t)
      (at : r.field_desc ≡ some f) (at' : q.field_desc ≡ some g) (p : IsPlace P r.loc root)
      (p' : IsPlace P q.loc root) where
    -- A value set through a reference to a singular field of its type is not seen through a reference to
    -- another singular field, wherever that stands: in the same message, in one above or below it, or in
    -- another branch. Both references point to messages by steps to messages, at indices in range, and
    -- their places part at a message which both pass, with fields that are not of one oneof. (A Get
    -- returns what was Set, and a Set leaves all other fields and elements but those of its oneof, as
    -- protobuf documents.)
    pub get_value-set_apart :
        is_repeated f ≡ false
        → cpp_type f ≡ t
        → is_repeated g ≡ false
        → cpp_type g ≡ u
        → Diverge one_oneof (sub f) r.loc (sub g) q.loc
        → (get_value P u q (set_value P t r v root).1).0 ≡ (get_value P u q root).0
    unfolding get_value set_value change
    get_value-set_apart a e b h d =
        rw (at, expect_singular P t f a e, at', expect_singular P u g b h)
          (ap ok (read_apart t u root v d (a, e) p (b, h) p'))

    -- The same of elements of repeated fields, of the same field too.
    get_repeated-set_apart :
        (i j : ℕ)
        → r.arr_idx ≡ some i
        → q.arr_idx ≡ some j
        → Fits P t (elem f i) (read P r.loc root)
        → Fits P u (elem g j) (read P q.loc root)
        → Diverge one_oneof (elem f i) r.loc (elem g j) q.loc
        → (get_repeated_value P u q (set_repeated_value P t r v root).1).0
          ≡ (get_repeated_value P u q root).0
    unfolding get_repeated_value set_repeated_value change
    get_repeated-set_apart i j hi hj (a, n, e, lt) (b, m, h, lt') d =
        rw (at, expect_repeated P t f a e, hi, at', expect_repeated P u g b h, hj)
          (ap ok (read_apart t u root v d (a, n, e, lt) p (b, m, h, lt') p'))
