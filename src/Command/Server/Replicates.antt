-- ===== src/Command/Server/Replicates.antt =====
-- commands.cpp: what reaches the replicas and the append-only file.
use redis_protobuf.Base.{
  beq_false→ne, ◌≡◌, ◌≢◌, ap, refl, List, [], ◌∷◌, ◌++◌, Bytes, codes, ◌⊎◌, inl, inr, true,
}
use redis_protobuf.Errors.{Error, Outcome, ok, err, abort, wrong_arity}
use redis_protobuf.Exec.{Exec, ◌>>=◌, continue}
use redis_protobuf.Exec.After.{After}
use redis_protobuf.Protobuf.{Protobuf}
use redis_protobuf.ModuleApi.{
  Redis, World, Reply, replicate_verbatim, answered, catch_errors, error_answer,
}
use redis_protobuf.ProtoFactory.Loader.{Importer}
use redis_protobuf.Command.Set
use redis_protobuf.Command.Append
use redis_protobuf.Command.Del
use redis_protobuf.Command.Clear
use redis_protobuf.Command.Registry.{
  Name, is_write, pb_set, pb_clear, pb_append, pb_del, pb_merge, run_command,
}
use redis_protobuf.Command.Import.{Server, parse_args, try_import, run_import}
use redis_protobuf.Command.Server.{Command, on_key, pb_import, pb_last_import, flags, serve}

module _ {Keys : Type 0} where
  -- Code that has asked for replication when it returns; of a throw nothing is said.
  record Replicates {A : Type 0} (m : Exec (World Keys) A) : Type 0 where
    at : (w : World Keys) → After (λ _ t. t.replicated ≡ true) (m w).0 (m w).1

  Replicates-verbatim : Replicates (replicate_verbatim {Keys = Keys})
  Replicates-verbatim = record { at = λ w. refl }

  Replicates-bind :
      {A B : Type 0} (m : Exec (World Keys) A) (f : A → Exec (World Keys) B)
      → ((a : A) → Replicates (f a))
      → Replicates (m >>= f)
  Replicates-bind m f k = record { at = λ w. go (m w).0 (m w).1 }
    where
      go :
          (o : Outcome _) (t : World Keys)
          → After (λ _ t. t.replicated ≡ true) (continue o f t).0 (continue o f t).1
      go (ok a) t = (k a).at t
      go (err e) t = tt
      go abort t = tt

  -- Replicated, or refused with an error as the last reply.
  abbrev pub IsReplicated : World Keys → Type 0
  IsReplicated w =
      (w.replicated ≡ true)
      ⊎ ((e : Error) × (before : List Reply) × (w.replies ≡ before ++ error_answer e ∷ []))

  answered-IsReplicated :
      (o : Outcome (Unit {0})) (w : World Keys)
      → After (λ _ t. t.replicated ≡ true) o w
      → (answered o w).0 ≡ ok tt
      → IsReplicated (answered o w).1
  answered-IsReplicated (ok u) w k h = inl k
  answered-IsReplicated (err e) w k h = inr (e, w.replies, refl)
  answered-IsReplicated abort w k h = cc h

  catch-IsReplicated :
      (m : Exec (World Keys) (Unit {0})) (w : World Keys)
      → Replicates m
      → (catch_errors m w).0 ≡ ok tt
      → IsReplicated (catch_errors m w).1
  unfolding catch_errors
  catch-IsReplicated m w k h = answered-IsReplicated (m w).0 (m w).1 (k.at w) h

  ruleset replicates = (Replicates-verbatim, Replicates-bind)

module _ (P : Protobuf) (R : Redis P.Msg) where
  set-IsReplicated :
      (argv : List Bytes) (w : World R.Keys)
      → (Set.run P R argv w).0 ≡ ok tt
      → IsReplicated (Set.run P R argv w).1
  set-IsReplicated argv w = unfold Set.run in catch-IsReplicated _ w (search replicates depth 9)

  append-IsReplicated :
      (argv : List Bytes) (w : World R.Keys)
      → (Append.run P R argv w).0 ≡ ok tt
      → IsReplicated (Append.run P R argv w).1
  append-IsReplicated argv w =
      unfold Append.run in catch-IsReplicated _ w (search replicates depth 9)

  del-IsReplicated :
      (argv : List Bytes) (w : World R.Keys)
      → (Del.run P R argv w).0 ≡ ok tt
      → IsReplicated (Del.run P R argv w).1
  del-IsReplicated argv w = unfold Del.run in catch-IsReplicated _ w (search replicates depth 9)

  clear-IsReplicated :
      (argv : List Bytes) (w : World R.Keys)
      → (Clear.run P R argv w).0 ≡ ok tt
      → IsReplicated (Clear.run P R argv w).1
  clear-IsReplicated argv w = unfold Clear.run in catch-IsReplicated _ w (search replicates depth 9)

  -- A command on keys that is registered as "write", but PB.MERGE.
  pub run_command-IsReplicated :
      (name : Name) (argv : List Bytes) (w : World R.Keys)
      → is_write name ≡ true
      → name ≢ pb_merge
      → (run_command P R name argv w).0 ≡ ok tt
      → IsReplicated (run_command P R name argv w).1
  unfolding run_command
  run_command-IsReplicated pb_set argv w e ne = set-IsReplicated argv w
  run_command-IsReplicated pb_append argv w e ne = append-IsReplicated argv w
  run_command-IsReplicated pb_del argv w e ne = del-IsReplicated argv w
  run_command-IsReplicated pb_clear argv w e ne = clear-IsReplicated argv w
  run_command-IsReplicated pb_merge argv w e ne = absurd (ne refl)
  run_command-IsReplicated _ argv w e ne = absurd (cc e)

flags-is_write : (name : Name) → flags (on_key name) ≡ codes "write deny-oom" → is_write name ≡ true
flags-is_write pb_set e = refl
flags-is_write pb_append e = refl
flags-is_write pb_del e = refl
flags-is_write pb_clear e = refl
flags-is_write pb_merge e = refl
flags-is_write _ e = absurd (beq_false→ne _ _ refl e)

module _ (P : Protobuf) (R : Redis P.Msg) (I : Importer) where
  import-IsReplicated :
      (argv : List Bytes) (s : Server R.Keys I.Disk) → IsReplicated (run_import I argv s).1.world
  unfolding run_import try_import parse_args
  import-IsReplicated [] s = inr (wrong_arity, s.world.replies, refl)
  import-IsReplicated (a ∷ []) s = inr (wrong_arity, s.world.replies, refl)
  import-IsReplicated (a ∷ b ∷ []) s = inr (wrong_arity, s.world.replies, refl)
  import-IsReplicated (a ∷ b ∷ c ∷ []) s = inl refl
  import-IsReplicated (a ∷ b ∷ c ∷ d ∷ argv) s = inr (wrong_arity, s.world.replies, refl)

  -- Every command but PB.MERGE that is registered with "write deny-oom" and returns to Redis has asked Redis to
  -- replicate it, or its last reply is an error.
  pub serve-IsReplicated :
      (c : Command) (argv : List Bytes) (s : Server R.Keys I.Disk)
      → flags c ≡ codes "write deny-oom"
      → c ≢ on_key pb_merge
      → (serve P R I c argv s).0 ≡ ok tt
      → IsReplicated (serve P R I c argv s).1.world
  unfolding serve
  serve-IsReplicated (on_key name) argv s e ne h =
      run_command-IsReplicated P R name argv s.world (flags-is_write name e) (λ q. ne (ap on_key q))
        h
  serve-IsReplicated pb_import argv s e ne h = import-IsReplicated argv s
  serve-IsReplicated pb_last_import argv s e ne h = absurd (beq_false→ne _ _ refl e)
