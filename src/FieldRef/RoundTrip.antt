-- ===== src/FieldRef/RoundTrip.antt =====
-- What is written through a reference is read back through it.
use redis_protobuf.Base.{ℕ, ◌<◌, ◌≡◌, refl, ◌∙◌, ap, true, false, some, List, [], ◌∷◌, arith}
use redis_protobuf.Errors.{ok}
use redis_protobuf.Protobuf.{Protobuf, CppType, message, same_type_refl, MapKey, ValueOf}
use redis_protobuf.FieldRef.{
  Step, sub, elem, entry, Ref, read, write, change, expect, map_value_type,
}
use redis_protobuf.FieldRef.Access.{
  expect_mapped, get_value, set_value, get_repeated_value, set_repeated_value, get_mapped_value,
  set_mapped_value,
}

-- What protobuf documents of Reflection: a Get* after the Set* of the same field, element or key
-- returns what was set. An index is in range; a key may be new.
pub record AccessLaws (P : Protobuf) : Type 0 where
  pub get-set :
      (t : CppType) (m : P.Msg) (f : P.Field) (v : ValueOf P t)
      → P.is_repeated f ≡ false
      → P.cpp_type f ≡ t
      → P.get t (P.set t m f v) f ≡ v
  pub size-set_repeated :
      (t : CppType) (m : P.Msg) (f : P.Field) (i : ℕ) (v : ValueOf P t)
      → P.is_repeated f ≡ true
      → P.is_map f ≡ false
      → P.cpp_type f ≡ t
      → i < P.field_size m f
      → P.field_size (P.set_repeated t m f i v) f ≡ P.field_size m f
  pub get-set_repeated :
      (t : CppType) (m : P.Msg) (f : P.Field) (i : ℕ) (v : ValueOf P t)
      → P.is_repeated f ≡ true
      → P.is_map f ≡ false
      → P.cpp_type f ≡ t
      → i < P.field_size m f
      → P.get_repeated t (P.set_repeated t m f i v) f i ≡ v
  pub contains-map_set :
      (t : CppType) (m : P.Msg) (f : P.Field) (k : MapKey) (v : ValueOf P t)
      → P.is_map f ≡ true
      → map_value_type P f ≡ ok t
      → P.map_contains (P.map_set t m f k v) f k ≡ true
  pub get-map_set :
      (t : CppType) (m : P.Msg) (f : P.Field) (k : MapKey) (v : ValueOf P t)
      → P.is_map f ≡ true
      → map_value_type P f ≡ ok t
      → P.map_get t (P.map_set t m f k v) f k ≡ v

module _ (P : Protobuf) where
  open P use {Msg, Field, cpp_type, is_repeated, is_map, field_size}

  -- The steps of a pointer into `root` are to messages, and an index is in range.
  abbrev pub IsPlace : List (Step Field) → Msg → Type 0
  IsPlace [] root = Unit
  IsPlace (sub f ∷ l) root = (is_repeated f ≡ false) × (cpp_type f ≡ message) × IsPlace l root
  IsPlace (elem f i ∷ l) root =
      (is_repeated f ≡ true)
      × (is_map f ≡ false)
      × (cpp_type f ≡ message)
      × (i < field_size (read P l root) f)
      × IsPlace l root
  IsPlace (entry f k ∷ l) root =
      (is_map f ≡ true) × (map_value_type P f ≡ ok message) × IsPlace l root

  pub expect_singular :
      (t : CppType) (f : Field)
      → is_repeated f ≡ false
      → cpp_type f ≡ t
      → expect P false t f ≡ ok tt
  unfolding expect
  expect_singular t f a e = rw (a, e, same_type_refl t)

  pub expect_repeated :
      (t : CppType) (f : Field) → is_repeated f ≡ true → cpp_type f ≡ t → expect P true t f ≡ ok tt
  unfolding expect
  expect_repeated t f a e = rw (a, e, same_type_refl t)

  expect_mapped-ok :
      (t : CppType) (f : Field) → map_value_type P f ≡ ok t → expect_mapped P t f ≡ ok tt
  unfolding expect_mapped
  expect_mapped-ok t f e = ground (arith, same_type_refl t)

module _ {P : Protobuf} (laws : AccessLaws P) where
  open P use {Msg, Field, cpp_type, is_repeated, is_map, field_size, map_contains}
  open laws use {get-set, get-set_repeated, get-map_set, contains-map_set, size-set_repeated}

  -- A write through a pointer into the root is seen through the same pointer.
  pub read-write :
      (l : List (Step Field)) (root m : Msg) → IsPlace P l root → read P l (write P l root m) ≡ m
  unfolding read write
  read-write [] root m h = refl
  read-write (sub f ∷ l) root m (a, t, h) =
      ap (λ x. P.get message x f) (read-write l root (P.set message (read P l root) f m) h)
      ∙ (get-set message (read P l root) f m a t)
  read-write (elem f i ∷ l) root m (a, n, t, lt, h) =
      ap (λ x. P.get_repeated message x f i)
        (read-write l root (P.set_repeated message (read P l root) f i m) h)
      ∙ (get-set_repeated message (read P l root) f i m a n t lt)
  read-write (entry f k ∷ l) root m (a, t, h) =
      ap (λ x. P.map_get message x f k)
        (read-write l root (P.map_set message (read P l root) f k m) h)
      ∙ (get-map_set message (read P l root) f k m a t)

  IsPlace-write :
      (l : List (Step Field)) (root m : Msg) → IsPlace P l root → IsPlace P l (write P l root m)
  unfolding write
  IsPlace-write [] root m h = tt
  IsPlace-write (sub f ∷ l) root m (a, t, h) = (a, t, IsPlace-write l root _ h)
  IsPlace-write (elem f i ∷ l) root m (a, n, t, lt, h) =
      let same =
        ap (λ x. P.field_size x f)
          (read-write l root (P.set_repeated message (read P l root) f i m) h)
        ∙ size-set_repeated message (read P l root) f i m a n t lt in
      (a, n, t, omega (arith, same), IsPlace-write l root _ h)
  IsPlace-write (entry f k ∷ l) root m (a, t, h) = (a, t, IsPlace-write l root _ h)

  module _ (t : CppType) (r : Ref P) (f : Field) (root : Msg) (v : ValueOf P t)
      (at : r.field_desc ≡ some f) (place : IsPlace P r.loc root) where
    -- A value set through a reference to a singular field of its type is set without an error, and
    -- is read back through the reference. The reference points to a message by steps to messages, at
    -- indices in range, and a Get returns what was Set, as protobuf documents.
    pub get_value-set_value :
        is_repeated f ≡ false
        → cpp_type f ≡ t
        → ((set_value P t r v root).0 ≡ ok tt)
          × ((get_value P t r (set_value P t r v root).1).0 ≡ ok v)
    unfolding get_value set_value change
    get_value-set_value a e = (
      rw (at, expect_singular P t f a e),
      rw
          (
            at,
            expect_singular P t f a e,
            read-write r.loc root (P.set t (read P r.loc root) f v) place,
          )
          (ap ok (get-set t (read P r.loc root) f v a e)),
    )

    -- A value set through a reference to an element of a repeated field of its type that is no map,
    -- at an index in range, is set without an error, and is read back through the reference. The
    -- reference points to a message by steps to messages, at indices in range, and a Get returns
    -- what was Set, as protobuf documents.
    pub get_repeated-set_repeated :
        (i : ℕ)
        → r.arr_idx ≡ some i
        → is_repeated f ≡ true
        → is_map f ≡ false
        → cpp_type f ≡ t
        → i < field_size (read P r.loc root) f
        → ((set_repeated_value P t r v root).0 ≡ ok tt)
          × ((get_repeated_value P t r (set_repeated_value P t r v root).1).0 ≡ ok v)
    unfolding get_repeated_value set_repeated_value change
    get_repeated-set_repeated i hi a n e lt = (
      rw (at, expect_repeated P t f a e, hi),
      rw
          (
            at,
            expect_repeated P t f a e,
            hi,
            read-write r.loc root (P.set_repeated t (read P r.loc root) f i v) place,
          )
          (ap ok (get-set_repeated t (read P r.loc root) f i v a n e lt)),
    )

    -- A value set through a reference to a key of a map of values of its type is set without an
    -- error, and is read back through the reference; the map need not hold the key before. The
    -- reference points to a message by steps to messages, at indices in range, and a Get returns
    -- what was Set, as protobuf documents.
    pub get_mapped-set_mapped :
        (k : MapKey)
        → r.map_key ≡ some k
        → is_map f ≡ true
        → map_value_type P f ≡ ok t
        → ((set_mapped_value P t r v root).0 ≡ ok tt)
          × ((get_mapped_value P t r (set_mapped_value P t r v root).1).0 ≡ ok v)
    unfolding get_mapped_value set_mapped_value change
    get_mapped-set_mapped k hk a e =
        let root1 = write P r.loc root (P.insert_or_lookup (read P r.loc root) f k) in
        let place1 = IsPlace-write r.loc root (P.insert_or_lookup (read P r.loc root) f k) place in
        let seen = read-write r.loc root1 (P.map_set t (read P r.loc root1) f k v) place1 in
        (
          rw (at, hk, expect_mapped-ok P t f e),
          rw
              (
                at,
                hk,
                expect_mapped-ok P t f e,
                seen,
                contains-map_set t (read P r.loc root1) f k v a e,
                seen,
              )
              (ap ok (get-map_set t (read P r.loc root1) f k v a e)),
        )
