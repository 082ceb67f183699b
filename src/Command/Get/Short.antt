-- ===== src/Command/Get/Short.antt =====
-- get_command.cpp: the reply to PB.GET of a map field whose elements are more than its keys.
use redis_protobuf.Base.{List, ℕ, ◌+◌, ◌≡◌, ap, true, none, some, [], ◌∷◌, length, arith}
use redis_protobuf.Errors.{Outcome, ok, err, abort}
use redis_protobuf.Protobuf.{Protobuf}
use redis_protobuf.FieldRef.{Step, Ref, read}
use redis_protobuf.FieldRef.Access.{size}
use redis_protobuf.ModuleApi.{array}
use redis_protobuf.Command.Answers.{owed}
use redis_protobuf.Command.Get.Args.{Format}
use redis_protobuf.Command.Get.Field.{Replies, get_map, get_field_with, get_field}
use redis_protobuf.Command.Get.Complete.{Paid, entries-Pays}

still_owed :
    (p : ℕ) (o : Outcome (Unit {0})) (s : Replies) → Paid p o s → o ≡ ok tt → owed 1 s ≡ some p
still_owed p (ok u) s h e = h
still_owed p (err x) s h e = absurd h
still_owed p abort s h e = cc e

-- the reference to a whole field in the message at `loc`
abbrev pub whole : (P : Protobuf) → List (Step P.Field) → P.Field → Ref P
whole P loc f = record { loc = loc; field_desc = some f; arr_idx = none; map_key = none }

module _ (P : Protobuf) (format : Format) (root : P.Msg) (loc : List (Step P.Field)) (f : P.Field)
    (d : ℕ) where
  -- Where a map field has `d` elements more than keys, as it has after PB.APPEND added keys again, PB.GET of
  -- the whole field, at any place of a message, sends `d` replies too few if it returns: the client
  -- still awaits that many.
  pub get_field-owes :
      P.is_map f ≡ true
      → P.field_size (read P loc root) f ≡ length (P.map_keys (read P loc root) f) + d
      → (get_field P format root (whole P loc f) []).0 ≡ ok tt
      → owed 1 (get_field P format root (whole P loc f) []).1 ≡ some d
  unfolding get_field get_field_with get_map size
  get_field-owes mapped more =
      rw (mapped, more)
        (λ h.
          still_owed d _ _
            ((entries-Pays P format root (whole P loc f) (P.map_keys (read P loc root) f)).at
              (array (length (P.map_keys (read P loc root) f) + d) ∷ []) d (ap some (omega arith)))
            h)
