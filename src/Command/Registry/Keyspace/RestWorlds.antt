-- ===== src/Command/Registry/Keyspace/RestWorlds.antt =====
-- len_command.cpp, type_command.cpp, clear_command.cpp, merge_command.cpp: the world behind PB.LEN, PB.TYPE,
-- PB.CLEAR and PB.MERGE of a whole message, on every branch.
use redis_protobuf.Base.{
  Bool-cases, inl, inr, pos, ◌≡◌, refl, ◌∙◌, true, false, some, [], ◌∷◌, Bytes, codes, beq, arith,
}
use redis_protobuf.Errors.{Error, type_mismatch, ok, err}
use redis_protobuf.Protobuf.{Protobuf, type_name}
use redis_protobuf.ProtoFactory.{create_from}
use redis_protobuf.ModuleApi.{
  long_long, null, Redis, World, missing, ours, read_only, write_only, open_existing,
  get_msg_by_key, catch_errors, on_msg,
}
use redis_protobuf.Command.Args.{parse_key_path}
use redis_protobuf.Command.Set
use redis_protobuf.Command.Set.Args.{parse_args, parse_opts, parse_rest}
use redis_protobuf.Command.Clear
use redis_protobuf.Command.Merge
use redis_protobuf.Command.Len
use redis_protobuf.Command.TypeName
use redis_protobuf.Command.TypeName.{format_type}
use redis_protobuf.Persistence.Aof.{IsNoOption}
use redis_protobuf.Command.Registry.Keyspace.{asked_answer, name_answer}
use redis_protobuf.Command.Registry.Keyspace.Worlds.{with_key, accepted, rejected, answered_with}

pub beq_comm : (s t : Bytes) → beq s t ≡ beq t s
beq_comm [] [] = refl
beq_comm [] (_ ∷ _) = refl
beq_comm (_ ∷ _) [] = refl
beq_comm (a ∷ s) (b ∷ t) = ground (arith, beq_comm s t)

module _ (P : Protobuf) (R : Redis P.Msg) where
  module _ (key type : Bytes) (w : World R.Keys) where
    pub len_missing :
        R.key_kind w.keys key ≡ missing
        → (Len.run P R (codes "PB.LEN" ∷ key ∷ type ∷ []) w).1
          ≡ answered_with P R (with_key P R read_only key w) (long_long (pos 0))
    unfolding parse_key_path catch_errors Len.run Len.run_on open_existing
    len_missing k = rw k refl

    pub clear_missing :
        R.key_kind w.keys key ≡ missing
        → (Clear.run P R (codes "PB.CLEAR" ∷ key ∷ type ∷ []) w).1
          ≡ accepted P R (with_key P R read_only key w) w.keys 0
    unfolding parse_key_path catch_errors Clear.run Clear.run_on open_existing
    clear_missing k = rw k refl

    module _ (m : P.Msg) (k : R.key_kind w.keys key ≡ ours) (v : R.value w.keys key ≡ some m) where
      pub len_ours :
          (Len.run P R (codes "PB.LEN" ∷ key ∷ type ∷ []) w).1
          ≡ answered_with P R (with_key P R read_only key w) (
              asked_answer P
                (long_long (pos 0))
                (λ x. long_long (pos (P.byte_size x)))
                type
                (some m))
      unfolding parse_key_path catch_errors Len.run Len.run_on open_existing get_msg_by_key
          Len.len_at
      len_ours = elim (Bool-cases (beq (type_name P m) type)) [
        | inl t ↦ rw (k, v, t) refl
        | inr t ↦ rw (k, v, t) refl
      ]

      pub clear_ours :
          beq (type_name P m) type ≡ true
          → (Clear.run P R (codes "PB.CLEAR" ∷ key ∷ type ∷ []) w).1
            ≡ accepted P R (with_key P R read_only key w) (R.store w.keys key (P.clear m)) 1
      unfolding parse_key_path catch_errors Clear.run Clear.run_on Clear.clear_existing
          Clear.clear_at on_msg open_existing get_msg_by_key
      clear_ours t = rw (k, v, t) refl

      pub clear_ours-other :
          beq (type_name P m) type ≡ false
          → (Clear.run P R (codes "PB.CLEAR" ∷ key ∷ type ∷ []) w).1
            ≡ rejected P R (with_key P R read_only key w) type_mismatch
      unfolding parse_key_path catch_errors Clear.run Clear.run_on Clear.clear_existing
          Clear.clear_at on_msg open_existing get_msg_by_key
      clear_ours-other t = rw (k, v, t) refl

  module _ (key : Bytes) (w : World R.Keys) where
    pub type_missing :
        R.key_kind w.keys key ≡ missing
        → (TypeName.run_type P R (codes "PB.TYPE" ∷ key ∷ []) w).1
          ≡ answered_with P R (with_key P R read_only key w) null
    unfolding TypeName.parse_one catch_errors TypeName.run_type TypeName.run_on open_existing
    type_missing k = rw k refl

    pub type_ours :
        (m : P.Msg)
        → R.key_kind w.keys key ≡ ours
        → R.value w.keys key ≡ some m
        → (TypeName.run_type P R (codes "PB.TYPE" ∷ key ∷ []) w).1
          ≡ answered_with P R (with_key P R read_only key w) (name_answer P (some m))
    unfolding TypeName.parse_one catch_errors TypeName.run_type TypeName.run_on open_existing
        get_msg_by_key
    type_ours m k v = rw (k, v) refl

  module _ (key type val : Bytes) (w : World R.Keys) where
    -- PB.MERGE of a missing key, which is not replicated.
    pub merge_missing :
        IsNoOption type
        → (m : P.Msg) (ks : R.Keys) → R.key_kind w.keys key ≡ missing
        → create_from P type val ≡ ok m
        → R.set_value w.keys key m ≡ some ks
        → (Merge.run P R (codes "PB.MERGE" ∷ key ∷ type ∷ val ∷ []) w).1
          ≡ record (answered_with P R
              (with_key P R write_only key (with_key P R write_only key w))
              (long_long (pos 0))) { keys = ks }
    unfolding Merge.parse_args parse_args parse_opts parse_rest catch_errors Merge.run Merge.run_on
        Set.run_set Set.run_on open_existing Set.create_msg Set.new_msg Set.set_value Set.expire_key
    merge_missing free m ks k h e =
        let (a, b, c, d) = free in rw (k, a, b, c, d, k, h, Set.set_value, e) refl

    pub merge_missing-refused :
        IsNoOption type
        → (e : Error) → R.key_kind w.keys key ≡ missing
        → create_from P type val ≡ err e
        → (Merge.run P R (codes "PB.MERGE" ∷ key ∷ type ∷ val ∷ []) w).1
          ≡ rejected P R (with_key P R write_only key (with_key P R write_only key w)) e
    unfolding Merge.parse_args parse_args parse_opts parse_rest catch_errors Merge.run Merge.run_on
        Set.run_set Set.run_on open_existing Set.create_msg Set.new_msg Set.set_value Set.expire_key
    merge_missing-refused free e k h = let (a, b, c, d) = free in rw (k, a, b, c, d, k, h) refl

    module _ (old : P.Msg) (k : R.key_kind w.keys key ≡ ours)
        (v : R.value w.keys key ≡ some old) where
      pub merge_ours :
          (m : P.Msg)
          → beq (type_name P old) type ≡ true
          → create_from P type val ≡ ok m
          → (Merge.run P R (codes "PB.MERGE" ∷ key ∷ type ∷ val ∷ []) w).1
            ≡ accepted P R
                (with_key P R write_only key w)
                (R.store w.keys key (P.merge_from old m))
                1
      unfolding Merge.parse_args catch_errors Merge.run Merge.run_on Merge.merge_at Merge.merge_msg
          on_msg open_existing get_msg_by_key
      merge_ours m t h = let s = beq_comm type (type_name P old) ∙ t in rw (k, v, s, h) refl

      -- The message is written back as it was.
      pub merge_ours-refused :
          (e : Error)
          → beq (type_name P old) type ≡ true
          → create_from P type val ≡ err e
          → (Merge.run P R (codes "PB.MERGE" ∷ key ∷ type ∷ val ∷ []) w).1
            ≡ record (rejected P R (with_key P R write_only key w) e) {
              keys = R.store w.keys key old;
            }
      unfolding Merge.parse_args catch_errors Merge.run Merge.run_on Merge.merge_at Merge.merge_msg
          on_msg open_existing get_msg_by_key
      merge_ours-refused e t h = let s = beq_comm type (type_name P old) ∙ t in rw (k, v, s, h) refl

      pub merge_ours-other :
          beq (type_name P old) type ≡ false
          → (Merge.run P R (codes "PB.MERGE" ∷ key ∷ type ∷ val ∷ []) w).1
            ≡ record (rejected P R (with_key P R write_only key w) type_mismatch) {
              keys = R.store w.keys key old;
            }
      unfolding Merge.parse_args catch_errors Merge.run Merge.run_on Merge.merge_at Merge.merge_msg
          on_msg open_existing get_msg_by_key
      merge_ours-other t = let s = beq_comm type (type_name P old) ∙ t in rw (k, v, s) refl
