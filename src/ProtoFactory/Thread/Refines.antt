-- ===== src/ProtoFactory/Thread/Refines.antt =====
-- proto_factory.cpp: what the thread, the clients and the destructor do to the loader.
use redis_protobuf.Base.{
  ◌≡◌, refl, ◌∙◌, ◌||◌, not, Bool-cases, inl, inr, List, [], ◌∷◌, ◌++◌, append-nil, Bytes, is_empty,
}
use redis_protobuf.Errors.{Outcome}
use redis_protobuf.ProtoFactory.Loader as Loading
use redis_protobuf.ProtoFactory.Loader.{Importer, Loader, take_tasks, load_task, publish}
use redis_protobuf.ProtoFactory.Thread.{
  Phase, testing, acquiring, checking, parking, asleep, working, ended, Thread, started, turn, Step,
  run, wake, request, notify, fetch, stop, Runs, here, next, request_load, notify_one,
  fetch_results, stop_loader, woken, move, work,
}

module _ (I : Importer) where
  open I use {Disk}

  -- Only a thread that works has tasks in its hands or results that are not published.
  abbrev pub HoldsOnly : Phase → Loader Disk → Type 0
  HoldsOnly working s = Unit
  HoldsOnly _ s = (s.batch ≡ []) × (s.status ≡ [])

  woken-HoldsOnly : (p : Phase) (s : Loader Disk) → HoldsOnly p s → HoldsOnly (woken p) s
  woken-HoldsOnly working s h = h
  woken-HoldsOnly _ s h = h

  -- Tasks and results do not matter to it.
  added-HoldsOnly :
      (p : Phase) (s t : Loader Disk)
      → t.batch ≡ s.batch
      → t.status ≡ s.status
      → HoldsOnly p s
      → HoldsOnly p t
  added-HoldsOnly working s t b e h = tt
  added-HoldsOnly _ s t b e (x, y) = (b ∙ x, e ∙ y)

  -- The loader ran on, and the thread holds what its phase allows.
  abbrev Goes : Loader Disk → List (Bytes × Outcome (Unit {0})) → Thread Disk → Type 0
  Goes s seen t = Loading.Runs I s seen t.loader × HoldsOnly t.phase t.loader

  module _ (s : Loader Disk) (seen : List (Bytes × Outcome (Unit {0}))) where
    still : {t : Loader Disk} → Loading.Runs I s seen t → Loading.Runs I s (seen ++ []) t
    still r = rw append-nil r

    -- a step of the loader
    goes :
        {t u : Loader Disk}
        → Loading.Runs I s seen t
        → Loading.Step I t [] u
        → Loading.Runs I s (seen ++ []) u
    goes r st = Loading.next r st

    work-Goes :
        (rest : List (Bytes × Bytes)) (t : Thread Disk)
        → t.loader.batch ≡ rest
        → t.phase ≡ working
        → Loading.Runs I s seen t.loader
        → Goes s (seen ++ []) (work I rest t)
    unfolding publish
    work-Goes [] t b p r = (goes r (Loading.done t.loader b), (b, refl))
    work-Goes ((f, c) ∷ rest) t b p r = (goes r (Loading.load t.loader f c rest b), rw p tt)

    move-Goes :
        (p : Phase) (t : Thread Disk)
        → t.phase ≡ p
        → Loading.Runs I s seen t.loader
        → HoldsOnly p t.loader
        → Goes s (seen ++ []) (move I p t)
    unfolding take_tasks
    move-Goes testing t p r h = elim (Bool-cases t.stop) [
      | inl e ↦ rw e (still r, h)
      | inr e ↦ rw e (still r, h)
    ]
    move-Goes acquiring t p r h = (still r, h)
    move-Goes checking t p r h = elim (Bool-cases (t.stop || not (is_empty t.loader.tasks))) [
      | inl e ↦ rw e (goes r (Loading.take t.loader h.0 h.1), tt)
      | inr e ↦ rw e (still r, h)
    ]
    move-Goes parking t p r h = (still r, h)
    move-Goes asleep t p r h = (still r, rw p h)
    move-Goes working t p r h = work-Goes t.loader.batch t refl p r
    move-Goes ended t p r h = (still r, rw p h)

  Step-Goes :
      (s : Loader Disk) (seen new : List (Bytes × Outcome (Unit {0}))) {t u : Thread Disk}
      → Step I t new u
      → Goes s seen t
      → Goes s (seen ++ new) u
  unfolding turn request_load notify_one fetch_results stop_loader Loading.add_task
      Loading.take_results
  Step-Goes s seen new (run t) (r, h) = move-Goes s seen t.phase t refl r h
  Step-Goes s seen new (wake t e) (r, h) = (still s seen r, (rw e at h))
  Step-Goes s seen new (request t f c e) (r, h) = (
    goes s seen r (Loading.request t.loader f c),
    added-HoldsOnly t.phase t.loader (Loading.add_task I f c t.loader) refl refl h,
  )
  Step-Goes s seen new (notify t n e) (r, h) = (still s seen r, woken-HoldsOnly t.phase t.loader h)
  Step-Goes s seen new (fetch t e) (r, h) = (
    Loading.next r (Loading.report t.loader),
    added-HoldsOnly t.phase t.loader (Loading.take_results I t.loader).1 refl refl h,
  )
  Step-Goes s seen new (stop t) (r, h) = (still s seen r, h)

  -- Every run of the thread, the clients and the destructor, access by access, is a run of the loader in
  -- which each section under the mutex is one step, with the same results for the clients, if it
  -- starts without tasks in the thread's hands and without results that are not published. Only
  -- a thread that works has either of these afterwards.
  pub Runs-Refines :
      {s : Loader Disk} {t : Thread Disk} {seen : List (Bytes × Outcome (Unit {0}))}
      → Runs I (started I s) seen t
      → s.batch ≡ []
      → s.status ≡ []
      → Loading.Runs I s seen t.loader × HoldsOnly t.phase t.loader
  Runs-Refines {s} here b e = (Loading.here s, (b, e))
  Runs-Refines {s} (next {seen = seen} {new = new} r st) b e =
      Step-Goes s seen new st (Runs-Refines r b e)
