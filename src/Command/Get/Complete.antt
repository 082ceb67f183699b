-- ===== src/Command/Get/Complete.antt =====
-- The replies of PB.GET are one complete reply of the Redis protocol.
use redis_protobuf.Base.{
  Option-cases, inl, inr, ℕ, zero, suc, ◌+◌, ◌≡◌, refl, ◌∙◌, ap, Bool, true, false, Option, none,
  some, List, [], ◌∷◌, ◌++◌, Bytes, beq, length, arith, if◌then◌else◌,
}
use redis_protobuf.Errors.{Error, type_mismatch, Outcome, ok, err, abort}
use redis_protobuf.Exec.{Exec, throw, lift, ◌>>=◌, ◌>>◌, continue}
use redis_protobuf.Path.{is_root}
use redis_protobuf.Protobuf.{Protobuf, CppType, message, type_name, MapKey, int32_key, ValueOf}
use redis_protobuf.FieldRef.{Step, Ref, read, const_ref, construct}
use redis_protobuf.FieldRef.Access.{
  size, get_array_element, is_array, is_map_field, is_array_element, is_map_element,
}
use redis_protobuf.ModuleApi.{
  Redis, World, Reply, bulk_string, array, null, error_reply, emit, read_only, open_existing,
  get_msg_by_key,
}
use redis_protobuf.Command.Answers as Command
use redis_protobuf.Command.Answers.{
  items, owed, owed-emit, Settled, settled_by, catch_errors_settled,
}
use redis_protobuf.Command.Get.{reply_with_msg, run_on, run}
use redis_protobuf.Command.Get.Args.{Format, GetArgs, parse_args}
use redis_protobuf.Command.Get.Field.{
  Replies, get_msg, encoded, handled, reply_key, reply_value, or_error_reply, get_scalar_field,
  reply_element, get_map_element, get_map_kv, reply_entries, get_map, get_field_with,
  reply_elements, get_array, get_field,
}

-- Code that sends one complete reply, or throws with that reply still to send.
record Answers (m : Exec Replies (Unit {0})) : Type 0 where
  at : (s : Replies) (p : ℕ) → owed 1 s ≡ some (suc p) → Settled p (m s).0 (m s).1

abbrev pub Paid : ℕ → Outcome (Unit {0}) → Replies → Type 0
Paid p (ok u) s = owed 1 s ≡ some p
Paid p (err e) s = ⊥
Paid p abort s = Unit

-- Code that sends `n` complete replies, and throws nothing.
pub record Pays (n : ℕ) (m : Exec Replies (Unit {0})) : Type 0 where
  pub at : (s : Replies) (p : ℕ) → owed 1 s ≡ some (n + p) → Paid p (m s).0 (m s).1

Answers-emit : (a : Reply) → items a ≡ 0 → Answers (emit a)
Answers-emit a e = record { at = λ s p h. ground (arith, owed-emit 1 s a p h) }

Answers-throw : (e : Error) → Answers (throw e)
Answers-throw e = record { at = λ s p h. h }

Answers-lift :
    {A : Type 0} (r : Outcome A) (f : A → Exec Replies (Unit {0}))
    → ((a : A) → Answers (f a))
    → Answers (lift r >>= f)
Answers-lift (ok a) f k = k a
Answers-lift (err e) f k = Answers-throw e
Answers-lift abort f k = record { at = λ s p h. tt }

Answers-if :
    (b : Bool) {m n : Exec Replies (Unit {0})}
    → (b ≡ true → Answers m)
    → (b ≡ false → Answers n)
    → Answers (if b then m else n)
Answers-if true km kn = km refl
Answers-if false km kn = kn refl

Answers-abort : Answers (lift abort)
Answers-abort = record { at = λ s p h. tt }

paid_by_handler :
    (p : ℕ) (o : Outcome (Unit {0})) (s : Replies)
    → Settled p o s
    → Paid p (handled o s).0 (handled o s).1
paid_by_handler p (ok u) s h = h
paid_by_handler p (err e) s h = ground (arith, owed-emit 1 s (error_reply e) p h)
paid_by_handler p abort s h = tt

Pays-or_error_reply : {m : Exec Replies (Unit {0})} → Answers m → Pays 1 (or_error_reply m)
unfolding or_error_reply
Pays-or_error_reply {m} k = record {
  at = λ s p h. paid_by_handler p (m s).0 (m s).1 (k.at s p (h ∙ ap some (omega arith)));
}

paid_then :
    (n p : ℕ) (o : Outcome (Unit {0})) (s : Replies) (next : Exec Replies (Unit {0}))
    → Paid (n + p) o s
    → Pays n next
    → Paid p (continue o (λ _. next) s).0 (continue o (λ _. next) s).1
paid_then n p (ok u) s next h k = k.at s p h
paid_then n p (err e) s next h k = absurd h
paid_then n p abort s next h k = tt

Pays-suc :
    (n : ℕ) {m next : Exec Replies (Unit {0})} → Pays 1 m → Pays n next → Pays (suc n) (m >> next)
Pays-suc n {m} {next} km kn = record {
  at = λ s p h. paid_then n p (m s).0 (m s).1 next (km.at s (n + p) (h ∙ ap some (omega arith))) kn;
}

-- An array of `n` items, and its items.
settled_of_paid : (p : ℕ) (o : Outcome (Unit {0})) (s : Replies) → Paid p o s → Settled p o s
settled_of_paid p (ok u) s h = h
settled_of_paid p (err e) s h = absurd h
settled_of_paid p abort s h = tt

Answers-array : (n : ℕ) {m : Exec Replies (Unit {0})} → Pays n m → Answers (emit (array n) >> m)
Answers-array n {m} k = record {
  at = λ s p h.
      let s' = s ++ array n ∷ [] in
      settled_of_paid p (m s').0 (m s').1
        (k.at s' p (owed-emit 1 s (array n) p h ∙ ap some (omega arith)));
}

reply_key-items : (k : MapKey) → items (reply_key k) ≡ 0
unfolding reply_key
reply_key-items (int32_key n) = refl
reply_key-items _ = refl

-- A key's pair: the array, the key, and a reply or a throw in place of the value.
Answers-pair :
    (k : MapKey) {m : Exec Replies (Unit {0})}
    → Answers m
    → Answers (emit (array 2) >> (emit (reply_key k) >> m))
Answers-pair k {m} km = record {
  at = λ s p h.
      let two = owed-emit 1 s (array 2) p h ∙ ap some (omega arith) in
      let one = owed-emit 1 (s ++ array 2 ∷ []) (reply_key k) (suc p) two in
      km.at ((s ++ array 2 ∷ []) ++ reply_key k ∷ []) p
        (one ∙ ap some (omega (arith, reply_key-items k)));
}

-- The size of a map field is the number of its entries, at every place of the message. It is not so after an
-- Add to the field as a repeated one gave it a key twice.
abbrev pub IsSized : (P : Protobuf) → P.Msg → Type 0
IsSized P root =
    (l : List (Step P.Field)) (f : P.Field)
    → P.is_map f ≡ true
    → P.field_size (read P l root) f ≡ length (P.map_keys (read P l root) f)

-- This holds of every message of a keyspace.
abbrev pub AllSized : (P : Protobuf) (R : Redis P.Msg) → R.Keys → Type 0
AllSized P R ks = (key : Bytes) (m : P.Msg) → R.value ks key ≡ some m → IsSized P m

module _ (P : Protobuf) (format : Format) where
  open P use {Msg}

  get_msg-Answers : (m : Msg) → Answers (get_msg P format m)
  unfolding get_msg
  get_msg-Answers m =
      Answers-lift (encoded P format m) (λ s. emit (bulk_string s))
        (λ s. Answers-emit (bulk_string s) refl)

  reply_value-Answers : (t : CppType) (v : ValueOf P t) → Answers (reply_value P format t v)
  unfolding reply_value
  reply_value-Answers message v = get_msg-Answers v
  reply_value-Answers _ v = Answers-emit _ refl

  module _ (root : Msg) where
    scalar-Answers : (r : Ref P) → Answers (get_scalar_field P format root r)
    unfolding get_scalar_field
    scalar-Answers r = search (Answers-lift, reply_value-Answers)

    element-Answers : (r : Ref P) → Answers (reply_element P format root r)
    unfolding reply_element
    element-Answers r = search (Answers-lift, reply_value-Answers)

    map_element-Answers : (r : Ref P) → Answers (get_map_element P format root r)
    unfolding get_map_element
    map_element-Answers r = search (Answers-lift, reply_value-Answers)

    map_kv-Answers : (r : Ref P) (k : MapKey) → Answers (get_map_kv P format root r k)
    unfolding get_map_kv
    map_kv-Answers r k = search (Answers-pair, Answers-lift, reply_value-Answers) depth 7

    pub entries-Pays :
        (r : Ref P) (ks : List MapKey) → Pays (length ks) (reply_entries P format root r ks)
    unfolding reply_entries
    entries-Pays r [] = record { at = λ s p h. h ∙ ap some (omega arith) }
    entries-Pays r (k ∷ ks) =
        Pays-suc (length ks) (Pays-or_error_reply (map_kv-Answers r k)) (entries-Pays r ks)

    field_with-Answers :
        (whole : Ref P → Exec Replies (Unit {0})) (r : Ref P)
        → (is_map_element P r ≡ false → is_map_field P r ≡ true → Answers (get_map P format root r))
        → (is_map_field P r ≡ false → Answers (whole r))
        → Answers (get_field_with P format root whole r)
    unfolding get_field_with
    field_with-Answers whole r of_map of_whole =
        Answers-if (is_map_element P r) (λ _. map_element-Answers r)
          λ no_key. Answers-if (is_map_field P r) (of_map no_key) λ no_map.
            Answers-if (is_array_element P r) (λ _. element-Answers r)
              λ _. Answers-if (is_array P r) (λ _. of_whole no_map) (λ _. scalar-Answers r)

    elements-Pays :
        (n i : ℕ) (r : Ref P)
        → is_map_field P r ≡ false
        → Pays n (reply_elements P format root n i r)
    unfolding reply_elements
    elements-Pays zero i r h = record { at = λ s p o. o ∙ ap some (omega arith) }
    elements-Pays (suc n) i r h =
        Pays-suc n
          (Pays-or_error_reply (
            field_with-Answers (λ _. lift abort) (get_array_element P r i) (λ _ m. cc)
              (λ _. Answers-abort)))
          (elements-Pays n (i + 1) r h)

    array-Answers : (r : Ref P) → is_map_field P r ≡ false → Answers (get_array P format root r)
    unfolding get_array
    array-Answers r h =
        Answers-lift (size P r root).0 (λ n. emit (array n) >> reply_elements P format root n 0 r)
          (λ n. Answers-array n (elements-Pays n 0 r h))

    module _ (sized_root : IsSized P root) where
      map-Answers :
          (r : Ref P) (o : Option P.Field)
          → r.field_desc ≡ o
          → is_map_element P r ≡ false
          → is_map_field P r ≡ true
          → Answers (get_map P format root r)
      unfolding get_map size
      map-Answers r none e no_key m = cc
      map-Answers r (some f) e no_key m =
          let mapped : P.is_map f ≡ true = cc in
          let n = P.field_size (read P r.loc root) f in
          let ks = P.map_keys (read P r.loc root) f in
          let sized_entries : Pays n (reply_entries P format root r ks) =
            rw (sized_root r.loc f mapped) (entries-Pays r ks) in
          let sized : Answers
              (emit (array n) >> reply_entries P format root r (P.map_keys (read P r.loc root) f)) =
            Answers-array n sized_entries in
          rw (e, no_key, mapped) (rw e at sized)

      field-Answers : (r : Ref P) → Answers (get_field P format root r)
      unfolding get_field
      field-Answers r =
          field_with-Answers (get_array P format root) r (map-Answers r r.field_desc refl)
            (array-Answers r)

-- What _reply_with_msg sends, once the message is at hand.
reply_with_msg-Answers :
    (P : Protobuf) (args : GetArgs) (msg : P.Msg)
    → IsSized P msg
    → Answers (reply_with_msg P args msg)
unfolding reply_with_msg
reply_with_msg-Answers P args msg laws =
    Answers-if (beq (type_name P msg) args.path.type)
      (λ _.
        Answers-if (is_root args.path) (λ _. get_msg-Answers P args.format msg)
          (λ _.
            Answers-lift (construct P const_ref args.path msg).0
              (λ r. get_field P args.format msg r) (λ r. field-Answers P args.format msg laws r)))
      (λ _. Answers-throw type_mismatch)

module _ (P : Protobuf) (R : Redis P.Msg) where
  run_on_settled :
      (args : GetArgs) (found : Bool) (w : World R.Keys) (p : ℕ)
      → owed 1 w.replies ≡ some (suc p)
      → AllSized P R w.keys
      → Settled p (run_on P R args found w).0 (run_on P R args found w).1.replies
  unfolding run_on get_msg_by_key
  run_on_settled args false w p h laws = (Command.Answers-reply null refl).at w p h
  run_on_settled args true w p h laws = elim (Option-cases (R.value w.keys args.key_name)) [
    | inl e ↦ rw e h
    | inr (m, e) ↦
        rw e ((reply_with_msg-Answers P args m (laws args.key_name m e)).at w.replies p h)
  ]

  -- PB.GET sends one complete reply of the protocol, whatever the arguments, the key and the message:
  -- every array has as many items as it announces, also where an item could not be read, and
  -- nothing follows, if the map fields of the stored messages have as many elements as keys. (The call
  -- may instead end the process.)
  pub run_complete :
      (argv : List Bytes) (w : World R.Keys)
      → AllSized P R w.keys
      → w.replies ≡ []
      → (run P R argv w).0 ≡ ok tt
      → owed 1 (run P R argv w).1.replies ≡ some 0
  unfolding run open_existing
  run_complete argv w laws e = catch_errors_settled _ w (
      settled_by (parse_args argv) _ w 0 (ap (owed 1) e) (λ args _.
        let v : World R.Keys = record w { opened = (args.key_name, 1) ∷ w.opened } in
        settled_by (open_existing R read_only args.key_name w).0 (run_on P R args) v 0
          (ap (owed 1) e) (λ found _. run_on_settled args found v 0 (ap (owed 1) e) laws)))
