-- ===== src/Command/Registry/Keyspace/Worlds.antt =====
-- set_command.cpp, get_command.cpp, del_command.cpp: the world behind PB.SET, PB.DEL and PB.GET of a whole
-- message, on every branch.
use redis_protobuf.Base.{
  Bool-cases, Option-cases, inl, inr, ℕ, pos, ◌++◌, ◌≡◌, refl, true, false, Bool-cases, some, inl,
  inr, [], ◌∷◌, Bytes, codes, beq,
}
use redis_protobuf.Errors.{Error, type_mismatch, ok, err}
use redis_protobuf.Protobuf.{Protobuf, type_name}
use redis_protobuf.ProtoFactory.{create_from}
use redis_protobuf.ModuleApi.{
  Reply, long_long, null, error_answer, Redis, World, KeyMode, mode_bits, read_only, write_only,
  missing, ours, open_existing, get_msg_by_key, catch_errors,
}
use redis_protobuf.Command.Args.{parse_key_path}
use redis_protobuf.Command.Set
use redis_protobuf.Command.Set.Args.{parse_args, parse_opts, parse_rest}
use redis_protobuf.Command.Del
use redis_protobuf.Command.Get
use redis_protobuf.Command.Get.Args as GetArgs
use redis_protobuf.Command.Get.Field as GetField
use redis_protobuf.Utils.{str_case_equal, same_upper}
use redis_protobuf.Persistence.Aof.{IsNoOption}
use redis_protobuf.Command.Registry.Keyspace.{asked_answer, text_answer}

module _ (P : Protobuf) (R : Redis P.Msg) where
  -- The world behind open_key.
  abbrev pub with_key : KeyMode → Bytes → World R.Keys → World R.Keys
  with_key mode key w = record w { opened = (key, mode_bits mode) ∷ w.opened }

  -- The world behind a command that was done, and behind one that was refused.
  abbrev pub accepted : World R.Keys → R.Keys → ℕ → World R.Keys
  accepted w ks n = record {
    keys = ks;
    replies = w.replies ++ long_long (pos n) ∷ [];
    replicated = true;
    opened = w.opened;
  }

  -- The world behind a command that only answered.
  abbrev pub answered_with : World R.Keys → Reply → World R.Keys
  answered_with w a = record w { replies = w.replies ++ a ∷ [] }

  abbrev pub rejected : World R.Keys → Error → World R.Keys
  rejected w e = record w { replies = w.replies ++ error_answer e ∷ [] }

  module _ (key type val : Bytes) (w : World R.Keys) (free : IsNoOption type) where
    -- PB.SET of a missing key, if a message can be made of the value, and if not.
    pub set_missing :
        (m : P.Msg) (ks : R.Keys)
        → R.key_kind w.keys key ≡ missing
        → create_from P type val ≡ ok m
        → R.set_value w.keys key m ≡ some ks
        → (Set.run P R (codes "PB.SET" ∷ key ∷ type ∷ val ∷ []) w).1
          ≡ accepted (with_key write_only key w) ks 1
    unfolding parse_args parse_opts parse_rest catch_errors Set.run Set.run_set Set.run_on
        open_existing Set.create_msg Set.new_msg Set.set_value Set.expire_key
    set_missing m ks k h e = let (a, b, c, d) = free in rw (a, b, c, d, k, h, Set.set_value, e) refl

    pub set_missing-refused :
        (e : Error)
        → R.key_kind w.keys key ≡ missing
        → create_from P type val ≡ err e
        → (Set.run P R (codes "PB.SET" ∷ key ∷ type ∷ val ∷ []) w).1
          ≡ rejected (with_key write_only key w) e
    unfolding parse_args parse_opts parse_rest catch_errors Set.run Set.run_set Set.run_on
        open_existing Set.create_msg Set.new_msg Set.set_value Set.expire_key
    set_missing-refused e k h = let (a, b, c, d) = free in rw (a, b, c, d, k, h) refl

    -- PB.SET of a key that has a message.
    module _ (old : P.Msg) (k : R.key_kind w.keys key ≡ ours)
        (v : R.value w.keys key ≡ some old) where
      pub set_ours :
          (m : P.Msg) (ks : R.Keys)
          → beq (type_name P old) type ≡ true
          → create_from P type val ≡ ok m
          → R.set_value w.keys key m ≡ some ks
          → (Set.run P R (codes "PB.SET" ∷ key ∷ type ∷ val ∷ []) w).1
            ≡ accepted (with_key write_only key w) ks 1
      unfolding parse_args parse_opts parse_rest catch_errors Set.run Set.run_set Set.run_on
          open_existing Set.set_msg Set.replace_msg Set.set_value Set.expire_key get_msg_by_key
      set_ours m ks t h e =
          let (a, b, c, d) = free in rw (a, b, c, d, k, v, t, h, Set.set_value, e) refl

      pub set_ours-refused :
          (e : Error)
          → beq (type_name P old) type ≡ true
          → create_from P type val ≡ err e
          → (Set.run P R (codes "PB.SET" ∷ key ∷ type ∷ val ∷ []) w).1
            ≡ rejected (with_key write_only key w) e
      unfolding parse_args parse_opts parse_rest catch_errors Set.run Set.run_set Set.run_on
          open_existing Set.set_msg Set.replace_msg Set.set_value Set.expire_key get_msg_by_key
      set_ours-refused e t h = let (a, b, c, d) = free in rw (a, b, c, d, k, v, t, h) refl

      pub set_ours-other :
          beq (type_name P old) type ≡ false
          → (Set.run P R (codes "PB.SET" ∷ key ∷ type ∷ val ∷ []) w).1
            ≡ rejected (with_key write_only key w) type_mismatch
      unfolding parse_args parse_opts parse_rest catch_errors Set.run Set.run_set Set.run_on
          open_existing Set.set_msg Set.replace_msg Set.set_value Set.expire_key get_msg_by_key
      set_ours-other t = let (a, b, c, d) = free in rw (a, b, c, d, k, v, t) refl

  module _ (key type : Bytes) (w : World R.Keys) where
    -- PB.DEL of a missing key.
    pub del_missing :
        R.key_kind w.keys key ≡ missing
        → (Del.run P R (codes "PB.DEL" ∷ key ∷ type ∷ []) w).1
          ≡ accepted (with_key write_only key w) w.keys 0
    unfolding parse_key_path catch_errors Del.run Del.run_on open_existing
    del_missing k = rw k refl

    module _ (old : P.Msg) (k : R.key_kind w.keys key ≡ ours)
        (v : R.value w.keys key ≡ some old) where
      pub del_ours :
          beq (type_name P old) type ≡ true
          → (Del.run P R (codes "PB.DEL" ∷ key ∷ type ∷ []) w).1
            ≡ accepted (with_key write_only key w) (R.delete_key w.keys key) 1
      unfolding parse_key_path catch_errors Del.run Del.run_on Del.del_existing Del.del_key
          open_existing get_msg_by_key
      del_ours t = rw (k, v, t) refl

      pub del_ours-other :
          beq (type_name P old) type ≡ false
          → (Del.run P R (codes "PB.DEL" ∷ key ∷ type ∷ []) w).1
            ≡ rejected (with_key write_only key w) type_mismatch
      unfolding parse_key_path catch_errors Del.run Del.run_on Del.del_existing Del.del_key
          open_existing get_msg_by_key
      del_ours-other t = rw (k, v, t) refl

  module _ (key type : Bytes) (w : World R.Keys)
      (free : str_case_equal type (codes "--FORMAT") ≡ false) where
    pub get_missing :
        R.key_kind w.keys key ≡ missing
        → (Get.run P R (codes "PB.GET" ∷ key ∷ codes "--FORMAT" ∷ codes "BINARY" ∷ type ∷ []) w).1
          ≡ answered_with (with_key read_only key w) null
    unfolding GetArgs.parse_args GetArgs.parse_opts GetArgs.parse_format GetArgs.parse_rest
        catch_errors Get.run Get.run_on open_existing str_case_equal same_upper
    get_missing k = rw (free, k) refl

    pub get_ours :
        (m : P.Msg)
        → R.key_kind w.keys key ≡ ours
        → R.value w.keys key ≡ some m
        → (Get.run P R (codes "PB.GET" ∷ key ∷ codes "--FORMAT" ∷ codes "BINARY" ∷ type ∷ []) w).1
          ≡ answered_with
              (with_key read_only key w)
              (asked_answer P null (λ x. text_answer P (P.serialize x)) type (some m))
    unfolding GetArgs.parse_args GetArgs.parse_opts GetArgs.parse_format GetArgs.parse_rest
        catch_errors Get.run Get.run_on Get.reply_with_msg GetField.get_msg get_msg_by_key
        open_existing str_case_equal same_upper
    get_ours m k v = elim (Bool-cases (beq (type_name P m) type)) [
      | inr t ↦ rw (free, k, v, t) refl
      | inl t ↦ elim (Option-cases (P.serialize m)) [
        | inl e ↦ rw (free, k, v, t, e) refl
        | inr (x, e) ↦ rw (free, k, v, t, e) refl
      ]
    ]
