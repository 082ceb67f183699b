-- ===== src/ProtoFactory/Thread/Wakes.antt =====
-- proto_factory.cpp: load(filename, content) changes the tasks under the mutex, and notifies behind it.
use redis_protobuf.Base.{
  ℕ, zero, suc, ◌<◌, ◌≡◌, ◌≢◌, refl, false, not, ◌||◌, Bool-cases, inl, inr, ◌⊎◌, List, [], ◌∷◌,
  Bytes, is_empty, arith,
}
use redis_protobuf.Errors.{Outcome}
use redis_protobuf.ProtoFactory.Loader.{Importer, Loader, take_tasks, take_results}
use redis_protobuf.ProtoFactory.Thread.{
  Phase, testing, acquiring, checking, parking, asleep, working, ended, Thread, started, turn,
  turns, Step, run, wake, request, notify, fetch, stop, Runs, here, next, request_load, notify_one,
  fetch_results, stop_loader, woken, is_locked, move, work,
}

none_left : (l : List (Bytes × Bytes)) → not (is_empty l) ≡ false → l ≡ []
none_left [] h = refl
none_left (_ ∷ _) h = cc h

module _ (I : Importer) where
  open I use {Disk}

  -- A thread that found no task has the mutex still, and a task that came later is not yet told of.
  abbrev Told : Phase → Thread Disk → Type 0
  Told parking t = t.loader.tasks ≡ []
  Told asleep t = (t.loader.tasks ≡ []) ⊎ (0 < t.pending)
  Told _ t = Unit

  work-Told :
      (rest : List (Bytes × Bytes)) (t : Thread Disk)
      → t.phase ≡ working
      → Told (work I rest t).phase (work I rest t)
  work-Told [] t p = tt
  work-Told ((f, c) ∷ rest) t p = rw p tt

  move-Told :
      (p : Phase) (t : Thread Disk) → t.phase ≡ p → Told p t → Told (move I p t).phase (move I p t)
  move-Told testing t p h = elim (Bool-cases t.stop) [ inl e ↦ rw e tt | inr e ↦ rw e tt ]
  move-Told acquiring t p h = tt
  move-Told checking t p h = elim (Bool-cases (t.stop || not (is_empty t.loader.tasks))) [
    | inl e ↦ rw e tt
    | inr e ↦ rw e (none_left t.loader.tasks (ground arith))
  ]
  move-Told parking t p h = inl h
  move-Told asleep t p h = rw p h
  move-Told working t p h = work-Told t.loader.batch t p
  move-Told ended t p h = rw p tt

  request-Told :
      (f c : Bytes) (p : Phase) (t : Thread Disk)
      → is_locked p ≡ false
      → Told p (request_load I f c t)
  unfolding request_load
  request-Told f c parking t e = cc e
  request-Told f c asleep t e = inr (omega arith)
  request-Told f c _ t e = tt

  fetch-Told : (p : Phase) (t : Thread Disk) → Told p t → Told p (fetch_results I t)
  unfolding fetch_results take_results
  fetch-Told parking t h = h
  fetch-Told asleep t h = h
  fetch-Told _ t h = tt

  notify-Told : (p : Phase) (n : ℕ) (t : Thread Disk) → Told p t → Told (woken p) (notify_one I n t)
  unfolding notify_one
  notify-Told parking n t h = h
  notify-Told asleep n t h = tt
  notify-Told _ n t h = tt

  stop-Told : (p : Phase) (t : Thread Disk) → Told p t → Told p (stop_loader I t)
  unfolding stop_loader
  stop-Told parking t h = h
  stop-Told asleep t h = inr (omega arith)
  stop-Told _ t h = tt

  Step-Told :
      {t u : Thread Disk} {new : List (Bytes × Outcome (Unit {0}))}
      → Step I t new u
      → Told t.phase t
      → Told u.phase u
  unfolding turn request_load notify_one fetch_results stop_loader
  Step-Told (run t) h = move-Told t.phase t refl h
  Step-Told (wake t e) h = tt
  Step-Told (request t f c e) h = request-Told f c t.phase t e
  Step-Told (notify t n e) h = notify-Told t.phase n t h
  Step-Told (fetch t e) h = fetch-Told t.phase t h
  Step-Told (stop t) h = stop-Told t.phase t h

  Runs-Told :
      {s : Loader Disk} {t : Thread Disk} {seen : List (Bytes × Outcome (Unit {0}))}
      → Runs I (started I s) seen t
      → Told t.phase t
  Runs-Told here = tt
  Runs-Told (next r st) = Step-Told st (Runs-Told r)

  positive : (n : ℕ) → 0 < n → (m : ℕ) × (n ≡ suc m)
  positive zero h = elim h [ ]
  positive (suc m) h = (m, refl)

  -- A woken thread takes what is there.
  takes :
      (n : ℕ) (t : Thread Disk)
      → t.phase ≡ asleep
      → t.loader.tasks ≢ []
      → (turns I 2 (notify_one I n t)).loader.batch ≡ t.loader.tasks
  unfolding turns turn notify_one take_tasks
  takes n t p h = elim (Bool-cases (t.stop || not (is_empty t.loader.tasks))) [
    | inl e ↦ rw (p, e) refl
    | inr e ↦ absurd (h (none_left t.loader.tasks (ground arith)))
  ]

  -- No wake-up is lost: whatever the thread, the clients and the destructor do, in which order, if the
  -- thread sleeps while a task waits, then a call of notify_one is still to be made, and behind
  -- it the thread's next two steps take all tasks that wait.
  pub Runs-IsWoken :
      {s : Loader Disk} {t : Thread Disk} {seen : List (Bytes × Outcome (Unit {0}))}
      → Runs I (started I s) seen t
      → t.phase ≡ asleep
      → t.loader.tasks ≢ []
      → (n : ℕ) × (t.pending ≡ suc n)
        × ((turns I 2 (notify_one I n t)).loader.batch ≡ t.loader.tasks)
  Runs-IsWoken {t = t} r p h = elim (rw p at (Runs-Told r)) [
    | inl e ↦ absurd (h e)
    | inr e ↦ let (n, q) = positive t.pending e in (n, q, takes n t p h)
  ]
