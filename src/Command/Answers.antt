-- ===== src/Command/Answers.antt =====
-- The replies of a command as the Redis protocol reads them, and code that sends one complete reply.
use redis_protobuf.Base.{
  ℕ, zero, suc, ◌+◌, ◌≡◌, refl, ◌∙◌, ap, Bool, true, false, Option, none, some, List, [], ◌∷◌, ◌++◌,
  Bytes, arith, if◌then◌else◌,
}
use redis_protobuf.Errors.{Error, wrong_arity, Outcome, ok, err, abort}
use redis_protobuf.Exec.{Exec, pure, throw, lift, ◌>>=◌, ◌>>◌, continue}
use redis_protobuf.ModuleApi.{
  Redis, World, Reply, array, reply, replicate_verbatim, error_answer, answered, catch_errors,
  KeyMode, open_existing, get_msg_by_key, on_msg,
}

-- The replies that a reply asks for behind it.
abbrev pub items : Reply → ℕ
items (array n) = n
items _ = 0

-- How many replies a client that awaits `n` still awaits after these, and `none` if there is one too
-- many. An array is complete when its items are.
abbrev pub owed : ℕ → List Reply → Option ℕ
owed n [] = some n
owed zero (a ∷ s) = none
owed (suc n) (a ∷ s) = owed (n + items a) s

pub owed-emit :
    (n : ℕ) (s : List Reply) (a : Reply) (p : ℕ)
    → owed n s ≡ some (suc p)
    → owed n (s ++ a ∷ []) ≡ some (p + items a)
owed-emit zero [] a p h = cc
owed-emit (suc n) [] a p h = ground arith
owed-emit zero (b ∷ s) a p h = cc
owed-emit (suc n) (b ∷ s) a p h = owed-emit (n + items b) s a p h

-- One more reply was sent, or there was a throw and it is still to send.
abbrev pub Settled : ℕ → Outcome (Unit {0}) → List Reply → Type 0
Settled p (ok u) s = owed 1 s ≡ some p
Settled p (err e) s = owed 1 s ≡ some (suc p)
Settled p abort s = Unit

error_answer-items : (e : Error) → items (error_answer e) ≡ 0
error_answer-items wrong_arity = refl
error_answer-items _ = refl

module _ {Keys : Type 0} where
  -- Code that sends one complete reply, or throws with that reply still to send.
  pub record Answers (m : Exec (World Keys) (Unit {0})) : Type 0 where
    pub at :
        (w : World Keys) (p : ℕ)
        → owed 1 w.replies ≡ some (suc p)
        → Settled p (m w).0 (m w).1.replies

  -- Code that sends nothing.
  pub record Silent {A : Type 0} (m : Exec (World Keys) A) : Type 0 where
    pub at : (w : World Keys) → (m w).1.replies ≡ w.replies

  pub Answers-throw : (e : Error) → Answers (throw e)
  Answers-throw e = record { at = λ w p h. h }

  pub Answers-reply : (a : Reply) → items a ≡ 0 → Answers (reply a)
  Answers-reply a e = record { at = λ w p h. ground (arith, owed-emit 1 w.replies a p h) }

  pub Answers-if :
      (b : Bool) (m n : Exec (World Keys) (Unit {0}))
      → Answers m
      → Answers n
      → Answers (if b then m else n)
  Answers-if true m n km kn = km
  Answers-if false m n km kn = kn

  module _ {A : Type 0} where
    pub Silent-pure : (a : A) → Silent (pure a)
    Silent-pure a = record { at = λ w. refl }

    pub Silent-throw : (e : Error) → Silent (throw {A = A} e)
    Silent-throw e = record { at = λ w. refl }

    pub Silent-lift : (r : Outcome A) → Silent (lift r)
    Silent-lift r = record { at = λ w. refl }

    pub Silent-if :
        (b : Bool) (m n : Exec (World Keys) A) → Silent m → Silent n → Silent (if b then m else n)
    Silent-if true m n km kn = km
    Silent-if false m n km kn = kn

  module _ {A B : Type 0} where
    pub Silent-bind :
        (m : Exec (World Keys) A) (f : A → Exec (World Keys) B)
        → Silent m
        → ((a : A) → Silent (f a))
        → Silent (m >>= f)
    Silent-bind m f km kf = record { at = λ w. go w (m w).0 ∙ km.at w }
      where
        go : (w : World Keys) (o : Outcome A) → (continue o f (m w).1).1.replies ≡ (m w).1.replies
        go w (ok a) = (kf a).at (m w).1
        go w (err e) = refl
        go w abort = refl

  module _ {A : Type 0} where
    pub settled_by :
        (o : Outcome A) (f : A → Exec (World Keys) (Unit {0})) (w : World Keys) (p : ℕ)
        → owed 1 w.replies ≡ some (suc p)
        → ((a : A) → o ≡ ok a → Settled p (f a w).0 (f a w).1.replies)
        → Settled p (continue o f w).0 (continue o f w).1.replies
    settled_by (ok a) f w p h k = k a refl
    settled_by (err e) f w p h k = h
    settled_by abort f w p h k = tt

    settled_after :
        (o : Outcome A) (f : A → Exec (World Keys) (Unit {0})) (w : World Keys) (p : ℕ)
        → owed 1 w.replies ≡ some (suc p)
        → ((a : A) → Answers (f a))
        → Settled p (continue o f w).0 (continue o f w).1.replies
    settled_after o f w p h k = settled_by o f w p h (λ a e. (k a).at w p h)

    -- Silent code, then code that answers.
    pub Answers-bind :
        (m : Exec (World Keys) A) (f : A → Exec (World Keys) (Unit {0}))
        → Silent m
        → ((a : A) → Answers (f a))
        → Answers (m >>= f)
    Answers-bind m f km kf = record {
      at = λ w p h. settled_after (m w).0 f (m w).1 p (ap (owed 1) (km.at w) ∙ h) kf;
    }

  settled_before :
      (o : Outcome (Unit {0})) (n : Exec (World Keys) (Unit {0})) (w : World Keys) (p : ℕ)
      → Settled p o w.replies
      → ((v : World Keys) → (n v).0 ≡ ok tt)
      → Silent n
      → Settled p (continue o (λ _. n) w).0 (continue o (λ _. n) w).1.replies
  settled_before (ok u) n w p h returns k = rw (returns w) (ap (owed 1) (k.at w) ∙ h)
  settled_before (err e) n w p h returns k = h
  settled_before abort n w p h returns k = tt

  -- Code that answers, then ReplicateVerbatim.
  pub Answers-replicate :
      (m : Exec (World Keys) (Unit {0})) → Answers m → Answers (m >> replicate_verbatim)
  Answers-replicate m k = record {
    at = λ w p h.
        settled_before (m w).0 replicate_verbatim (m w).1 p (k.at w p h) (λ v. refl)
          (record { at = λ v. refl });
  }

  handled_error :
      (o : Outcome (Unit {0})) (w : World Keys)
      → Settled 0 o w.replies
      → (answered o w).0 ≡ ok tt
      → owed 1 (answered o w).1.replies ≡ some 0
  handled_error (ok u) w h e = h
  handled_error (err x) w h e =
      owed-emit 1 w.replies (error_answer x) 0 h ∙ ap some (omega (arith, error_answer-items x))
  handled_error abort w h e = cc

  -- The same of a `run` in one world.
  pub catch_errors_settled :
      (m : Exec (World Keys) (Unit {0})) (w : World Keys)
      → Settled 0 (m w).0 (m w).1.replies
      → (catch_errors m w).0 ≡ ok tt
      → owed 1 (catch_errors m w).1.replies ≡ some 0
  unfolding catch_errors
  catch_errors_settled m w k h = handled_error (m w).0 (m w).1 k h

  -- A `run` that returns has sent one complete reply: its try block's, or the error.
  pub catch_errors_complete :
      (m : Exec (World Keys) (Unit {0})) (w : World Keys)
      → Answers m
      → w.replies ≡ []
      → (catch_errors m w).0 ≡ ok tt
      → owed 1 (catch_errors m w).1.replies ≡ some 0
  unfolding catch_errors
  catch_errors_complete m w k e h = handled_error (m w).0 (m w).1 (k.at w 0 (ap (owed 1) e)) h

module _ {Msg : Type 0} (R : Redis Msg) where
  pub Silent-open_existing : (mode : KeyMode) (key : Bytes) → Silent (open_existing R mode key)
  unfolding open_existing
  Silent-open_existing mode key = record { at = λ w. refl }

  pub Silent-get_msg : (key : Bytes) → Silent (get_msg_by_key R key)
  unfolding get_msg_by_key
  Silent-get_msg key = record { at = λ w. refl }

  pub Silent-on_msg :
      {A : Type 0} (key : Bytes) (msg : Msg) (m : Exec Msg A) → Silent (on_msg R key msg m)
  unfolding on_msg
  Silent-on_msg key msg m = record { at = λ w. refl }

pub ruleset answer_rules = (
  Answers-throw, Answers-reply, Answers-if, Answers-bind, Answers-replicate, Silent-pure,
  Silent-throw, Silent-lift, Silent-if, Silent-bind, Silent-open_existing, Silent-get_msg,
  Silent-on_msg,
)
