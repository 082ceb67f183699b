-- ===== src/Command/Server/Replica.antt =====
-- commands.cpp: what a replica makes of the commands for which RedisModule_ReplicateVerbatim was called and
-- which Redis therefore sends on, in the same order.
use mathlib.Core.Path.{subst}
use redis_protobuf.Base.{
  ◌≡◌, ◌≢◌, refl, sym, ap, ◌∙◌, Bool, true, false, Bool-cases, inl, inr, List, [], ◌∷◌, ◌++◌,
  if◌then◌else◌,
}
use redis_protobuf.Errors.{Error, wrong_arity, ok}
use redis_protobuf.Protobuf.{Protobuf}
use redis_protobuf.ModuleApi.{Redis, World, Reply, wrong_arity_reply, error_reply, error_answer}
use redis_protobuf.Command.Set.Args.{SetArgs, parse_args, is_positive}
use redis_protobuf.Command.Registry.{pb_set, pb_merge, is_write, run_command}
use redis_protobuf.Command.Registry.ReadOnly.{run_command-ReadOnly}
use redis_protobuf.Command.Registry.Typed.Deleted.{Call, Event, command, expiry}
use redis_protobuf.Command.Server.Replicates.{run_command-IsReplicated}

-- whether the last reply is an error
abbrev is_error : Reply → Bool
is_error wrong_arity_reply = true
is_error (error_reply e) = true
is_error _ = false

unfoldable pub ends_in_error : List Reply → Bool
ends_in_error [] = false
ends_in_error (a ∷ []) = is_error a
ends_in_error (a ∷ b ∷ rest) = ends_in_error (b ∷ rest)

error_answer-is_error : (e : Error) → is_error (error_answer e) ≡ true
error_answer-is_error wrong_arity = refl
error_answer-is_error _ = refl

ends_in_error-answer :
    (before : List Reply) (e : Error) → ends_in_error (before ++ error_answer e ∷ []) ≡ true
unfolding ends_in_error
ends_in_error-answer [] e = error_answer-is_error e
ends_in_error-answer (a ∷ []) e = error_answer-is_error e
ends_in_error-answer (a ∷ b ∷ rest) e = ends_in_error-answer (b ∷ rest) e

module _ (P : Protobuf) (R : Redis P.Msg) where
  -- the world in which Redis calls the handler of a command
  abbrev fresh : R.Keys → World R.Keys
  fresh ks = record { keys = ks; replies = []; replicated = false; opened = [] }

  unfoldable pub perform : Call → R.Keys → World R.Keys
  perform c ks = (run_command P R c.name (c.command ∷ c.key ∷ c.arguments) (fresh ks)).1

  -- The end of a time to live deletes the key.
  unfoldable pub keys_after : Event → R.Keys → R.Keys
  unfolding perform
  keys_after (command c) ks = (perform c ks).keys
  keys_after (expiry key) ks = R.delete_key ks key

  unfoldable pub keys_after_all : List Event → R.Keys → R.Keys
  unfolding keys_after
  keys_after_all [] ks = ks
  keys_after_all (e ∷ events) ks = keys_after_all events (keys_after e ks)

  -- A command is sent on if it asked for that. For a key whose time is over Redis sends the deletion:
  -- a replica does not expire keys itself.
  unfoldable pub is_sent : Event → R.Keys → Bool
  unfolding perform
  is_sent (command c) ks = (perform c ks).replicated
  is_sent (expiry key) ks = true

  unfoldable pub sent_on : List Event → R.Keys → List Event
  unfolding is_sent keys_after
  sent_on [] ks = []
  sent_on (e ∷ events) ks =
      let rest = sent_on events (keys_after e ks) in if is_sent e ks then e ∷ rest else rest

  -- The command sets no time to live.
  abbrev pub SetsNoTime : Call → Type 0
  SetsNoTime c =
      (args : SetArgs)
      → parse_args (c.command ∷ c.key ∷ c.arguments) ≡ ok args
      → is_positive args.expire ≡ false

  -- A command does not end the process, is no PB.MERGE and no PB.SET with --EX or --PX, and has changed
  -- nothing if it ends in an error.
  abbrev pub IsWholeCall : Call → R.Keys → Type 0
  IsWholeCall c ks =
      (c.name ≢ pb_merge)
      × (c.name ≡ pb_set → SetsNoTime c)
      × ((run_command P R c.name (c.command ∷ c.key ∷ c.arguments) (fresh ks)).0 ≡ ok tt)
      × (ends_in_error (perform c ks).replies ≡ true → (perform c ks).keys ≡ ks)

  abbrev pub IsWholeEvent : Event → R.Keys → Type 0
  IsWholeEvent (command c) ks = IsWholeCall c ks
  IsWholeEvent (expiry key) ks = Unit

  unfoldable pub IsWhole : List Event → R.Keys → Type 0
  IsWhole [] ks = Unit
  IsWhole (e ∷ events) ks = IsWholeEvent e ks × IsWhole events (keys_after e ks)

  -- What is not sent on has changed nothing.
  kept_back :
      (c : Call) (ks : R.Keys)
      → c.name ≢ pb_merge
      → (run_command P R c.name (c.command ∷ c.key ∷ c.arguments) (fresh ks)).0 ≡ ok tt
      → (ends_in_error (perform c ks).replies ≡ true → (perform c ks).keys ≡ ks)
      → (perform c ks).replicated ≡ false
      → (perform c ks).keys ≡ ks
  unfolding perform
  kept_back c ks ne o h f =
      let argv = c.command ∷ c.key ∷ c.arguments in
      elim (Bool-cases (is_write c.name)) [
        | inr e ↦ (run_command-ReadOnly P R c.name argv (fresh ks) e).0
        | inl e ↦ elim (run_command-IsReplicated P R c.name argv (fresh ks) e ne o) [
          | inl r ↦ cc (sym r ∙ f)
          | inr (err, before, r) ↦ h (ap ends_in_error r ∙ ends_in_error-answer before err)
        ]
      ]

  event_kept_back :
      (e : Event) (ks : R.Keys) → IsWholeEvent e ks → is_sent e ks ≡ false → keys_after e ks ≡ ks
  unfolding is_sent keys_after
  event_kept_back (command c) ks (ne, time, o, h) f = kept_back c ks ne o h f
  event_kept_back (expiry key) ks h f = cc f

  -- A replica agrees with its master. Let commands on keys and types be sent and times to live end in any order,
  -- where no command is PB.MERGE, sets a time to live (which would start anew on the replica) or
  -- ends the process, those that end in an error reply have left the keyspace alone, and no PB.IMPORT
  -- changes the types meanwhile. What the master sends on, run on the replica in the same order from
  -- the same keyspace, leads to the keyspace of the master.
  pub keys_after-sent_on :
      (events : List Event) (ks : R.Keys)
      → IsWhole events ks
      → keys_after_all (sent_on events ks) ks ≡ keys_after_all events ks
  unfolding keys_after_all sent_on IsWhole
  keys_after-sent_on [] ks h = refl
  keys_after-sent_on (e ∷ events) ks (h, t) =
      let same = keys_after-sent_on events (keys_after e ks) t in
      elim (Bool-cases (is_sent e ks)) [
        | inl s ↦ rw s same
        | inr s ↦ rw s (
            subst
              (λ k.
                keys_after_all (sent_on events (keys_after e ks)) k
                ≡ keys_after_all events (keys_after e ks))
              (event_kept_back e ks h s) same)
      ]

  -- Of the commands only those registered as "write" are sent on.
  only_writes : (c : Call) (ks : R.Keys) → is_sent (command c) ks ≡ true → is_write c.name ≡ true
  unfolding perform is_sent
  only_writes c ks r = elim (Bool-cases (is_write c.name)) [
    | inl e ↦ e
    | inr e ↦
        cc (
          sym r
          ∙ (run_command-ReadOnly P R c.name (c.command ∷ c.key ∷ c.arguments) (fresh ks) e).1)
  ]
