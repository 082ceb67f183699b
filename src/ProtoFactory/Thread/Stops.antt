-- ===== src/ProtoFactory/Thread/Stops.antt =====
-- proto_factory.cpp: ~ProtoFactory, which sets `_stop_loader`, notifies the thread and joins it.
use redis_protobuf.Base.{
  ℕ, zero, suc, ◌≡◌, ◌≢◌, refl, ap, ◌∙◌, true, false, List, [], ◌∷◌, Bytes, length,
}
use redis_protobuf.ProtoFactory.Loader.{Importer, Loader, take_tasks, load_task, publish}
use redis_protobuf.ProtoFactory.Loader.Drain.{load_batch, finish_round}
use redis_protobuf.ProtoFactory.Thread.{
  Phase, testing, acquiring, checking, parking, asleep, working, ended, Thread, started, turn,
  turns, run, notify, stop, Runs, here, next, stop_loader, destroy, woken, work,
}

module _ (I : Importer) where
  open I use {Disk}

  -- What the thread still does after the flag is set: it ends the round it is in. Before the mutex and
  -- at the test of `wait`, it still takes the tasks; at the test of the loop, it takes none.
  abbrev pub last_round : Phase → Loader Disk → Loader Disk
  last_round acquiring s = finish_round I (take_tasks I s)
  last_round checking s = finish_round I (take_tasks I s)
  last_round working s = finish_round I s
  last_round _ s = s

  -- the steps that it takes for this
  abbrev pub steps_left : Phase → Loader Disk → ℕ
  steps_left testing s = 1
  steps_left acquiring s = suc (suc (suc (suc (length s.tasks))))
  steps_left checking s = suc (suc (suc (length s.tasks)))
  steps_left working s = suc (suc (length s.batch))
  steps_left _ s = 0

  -- a thread in a phase
  abbrev at_phase : Phase → Loader Disk → ℕ → Thread Disk
  at_phase p s n = record { loader = s; phase = p; stop = true; pending = n }

  one_more : (s : Loader Disk) (n : ℕ) → turns I 1 (at_phase testing s n) ≡ at_phase ended s n
  unfolding turns turn
  one_more s n = refl

  load_task-batch :
      (f c : Bytes) (rest : List (Bytes × Bytes)) (s : Loader Disk)
      → (load_task I f c rest s).batch ≡ rest
  unfolding load_task
  load_task-batch f c rest s = refl

  turn-working :
      (rest : List (Bytes × Bytes)) (s : Loader Disk) (n : ℕ)
      → s.batch ≡ rest
      → turn I (at_phase working s n) ≡ work I rest (at_phase working s n)
  unfolding turn
  turn-working rest s n b = ap (λ l. work I l (at_phase working s n)) b

  works_off :
      (rest : List (Bytes × Bytes)) (s : Loader Disk) (n : ℕ)
      → s.batch ≡ rest
      → turns I (suc (suc (length rest))) (at_phase working s n)
        ≡ at_phase ended (publish I (load_batch I rest s)) n
  unfolding turns load_batch
  works_off [] s n b = ap (turns I 1) (turn-working [] s n b) ∙ one_more (publish I s) n
  works_off ((f, c) ∷ rest) s n b =
      ap (turns I (suc (suc (length rest)))) (turn-working ((f, c) ∷ rest) s n b)
      ∙ works_off rest (load_task I f c rest s) n (load_task-batch f c rest s)

  woken-ne-parking : (p : Phase) → p ≢ parking → woken p ≢ parking
  woken-ne-parking parking a = a
  woken-ne-parking _ a = λ q. cc q

  woken-ne-asleep : (p : Phase) → woken p ≢ asleep
  woken-ne-asleep asleep = λ q. cc q
  woken-ne-asleep _ = λ q. cc q

  ends :
      (p : Phase) (s : Loader Disk) (n : ℕ)
      → p ≢ parking
      → p ≢ asleep
      → turns I (steps_left p s) (at_phase p s n) ≡ at_phase ended (last_round p s) n
  unfolding turns turn finish_round take_tasks
  ends testing s n a b = refl
  ends acquiring s n a b = works_off s.tasks (take_tasks I s) n refl
  ends checking s n a b = works_off s.tasks (take_tasks I s) n refl
  ends parking s n a b = absurd (a refl)
  ends asleep s n a b = absurd (b refl)
  ends working s n a b = works_off s.batch s n refl
  ends ended s n a b = refl

  -- If the destructor does not strike while the thread stands behind the failed test of `wait` with the mutex in its
  -- hand, the thread ends within so many of its own steps, so that the join returns. It ends its round
  -- first: the files it works on are loaded and their results published, and so are the tasks
  -- that wait, unless it stands at the test of the loop. Tasks that wait then are dropped.
  pub destroy_ends :
      (t : Thread Disk)
      → t.phase ≢ parking
      → turns I (steps_left (woken t.phase) t.loader) (destroy I t)
        ≡ record (destroy I t) { phase = ended; loader = last_round (woken t.phase) t.loader }
  unfolding destroy
  destroy_ends t a =
      ends (woken t.phase) t.loader t.pending (woken-ne-parking t.phase a) (woken-ne-asleep t.phase)

  -- A loader without tasks, whose thread has found none.
  abbrev found_none : Loader Disk → Thread Disk
  found_none s = turns I 3 (started I s)

  abbrev parked : Loader Disk → Thread Disk
  parked s = record { loader = s; phase = parking; stop = false; pending = 0 }

  found-parked : (s : Loader Disk) → s.tasks ≡ [] → found_none s ≡ parked s
  unfolding turns turn
  found-parked s e = rw e refl

  turns-Runs :
      (n : ℕ) {s : Thread Disk} (t : Thread Disk) → Runs I s [] t → Runs I s [] (turns I n t)
  unfolding turns
  turns-Runs zero t r = r
  turns-Runs (suc n) t r = turns-Runs n (turn I t) (next r (run t))

  destroy-Runs : {s : Thread Disk} (t : Thread Disk) → Runs I s [] t → Runs I s [] (destroy I t)
  unfolding destroy
  destroy-Runs t r = next (next r (stop t)) (notify (stop_loader I t) t.pending refl)

  sleeps_on : (n : ℕ) (s : Loader Disk) → turns I n (at_phase asleep s 0) ≡ at_phase asleep s 0
  unfolding turns turn
  sleeps_on zero s = refl
  sleeps_on (suc n) s = sleeps_on n s

  falls_asleep : (s : Loader Disk) → turn I (destroy I (parked s)) ≡ at_phase asleep s 0
  unfolding turn destroy
  falls_asleep s = refl

  -- The flag is set without the mutex, so a wake-up can be lost: the thread of any loader without tasks can
  -- have found none, and before it sleeps the destructor sets the flag and notifies. Then the thread
  -- falls asleep with no notification to come, and however many steps it is given, it sleeps:
  -- the join of the destructor waits until the thread wakes up by itself.
  pub destroy_hangs :
      (s : Loader Disk)
      → s.tasks ≡ []
      → (n : ℕ)
      → Runs I (started I s) [] (destroy I (found_none s))
        × (turns I (suc n) (destroy I (found_none s)) ≡ at_phase asleep s 0)
  unfolding turns
  destroy_hangs s e n = (
    destroy-Runs (found_none s) (turns-Runs 3 (started I s) here),
    ap (λ t. turns I n (turn I (destroy I t))) (found-parked s e)
        ∙ ap (turns I n) (falls_asleep s)
        ∙ sleeps_on n s,
  )
