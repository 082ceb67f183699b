-- ===== src/ProtoFactory/Loader/Drain.antt =====
-- proto_factory.cpp: the loop of _async_load without another client between its steps.
use redis_protobuf.Base.{◌≡◌, refl, true, List, [], ◌∷◌, Bytes, ◌∙◌, inl, inr}
use redis_protobuf.ProtoFactory.Loader.{
  has, Importer, Loader, take_tasks, load_task, publish, take, load, done, Runs, here, next,
}
use redis_protobuf.ProtoFactory.Loader.Kept.{IsKnown, Survives, Runs-Survives, load_file-IsKept}

module _ (I : Importer) where
  open I use {Disk}

  -- the loop over the tasks of a batch
  unfoldable pub load_batch : List (Bytes × Bytes) → Loader Disk → Loader Disk
  load_batch [] s = s
  load_batch ((f, c) ∷ rest) s = load_batch rest (load_task I f c rest s)

  -- the rest of a round of the loop of _async_load, behind its first section under the mutex
  unfoldable pub finish_round : Loader Disk → Loader Disk
  finish_round s = publish I (load_batch s.batch s)

  -- the rest of this round, and the next round
  unfoldable pub drain : Loader Disk → Loader Disk
  drain s = finish_round (take_tasks I (finish_round s))

  load_batch-Runs :
      (rest : List (Bytes × Bytes)) {s₀ : Loader Disk} (s : Loader Disk)
      → s.batch ≡ rest
      → Runs I s₀ [] s
      → Runs I s₀ [] (load_batch rest s)
  unfolding load_batch load_task
  load_batch-Runs [] s e r = r
  load_batch-Runs ((f, c) ∷ rest) s e r =
      load_batch-Runs rest (load_task I f c rest s) refl (next r (load s f c rest e))

  load_batch-empty :
      (rest : List (Bytes × Bytes)) (s : Loader Disk)
      → s.batch ≡ rest
      → ((load_batch rest s).batch ≡ []) × ((load_batch rest s).tasks ≡ s.tasks)
  unfolding load_batch load_task
  load_batch-empty [] s e = (e, refl)
  load_batch-empty ((f, c) ∷ rest) s e =
      let (b, t) = load_batch-empty rest (load_task I f c rest s) refl in
      (b, t ∙ (load_file-IsKept I f c s).0)

  finish_round-Runs :
      {s₀ : Loader Disk} (s : Loader Disk) → Runs I s₀ [] s → Runs I s₀ [] (finish_round s)
  unfolding finish_round
  finish_round-Runs s r =
      next (load_batch-Runs s.batch s refl r)
        (done (load_batch s.batch s) (load_batch-empty s.batch s refl).0)

  -- The thread is idle: no task is left, and no result is unpublished.
  abbrev pub IsIdle : Loader Disk → Type 0
  IsIdle s = (s.batch ≡ []) × ((s.status ≡ []) × (s.tasks ≡ []))

  finish_round-IsIdle : (s : Loader Disk) → s.tasks ≡ [] → IsIdle (finish_round s)
  unfolding finish_round publish
  finish_round-IsIdle s e = let (b, t) = load_batch-empty s.batch s refl in (b, (refl, t ∙ e))

  drain-Runs : (s : Loader Disk) → Runs I s [] (drain s)
  unfolding drain finish_round publish
  drain-Runs s =
      let r = finish_round-Runs s (here s) in
      finish_round-Runs (take_tasks I (finish_round s))
        (next r (take (finish_round s) (load_batch-empty s.batch s refl).0 refl))

  drain-IsIdle : (s : Loader Disk) → IsIdle (drain s)
  unfolding drain take_tasks
  drain-IsIdle s = finish_round-IsIdle (take_tasks I (finish_round s)) refl

  reported :
      (f : Bytes) (s : Loader Disk) → IsIdle s → Survives I f s [] → has f s.last_loaded ≡ true
  reported f s (b, (e, t)) (inl (inl h)) = cc (rw t at h)
  reported f s (b, (e, t)) (inl (inr (inl h))) = cc (rw b at h)
  reported f s (b, (e, t)) (inl (inr (inr (inl h)))) = cc (rw e at h)
  reported f s (b, (e, t)) (inl (inr (inr (inr h)))) = h
  reported f s i (inr h) = cc h

  -- Two rounds of the thread, from any state of the loader and without a client between them, are
  -- steps of the loader after which the thread is idle, and every file that was requested, was
  -- loaded or waited to be fetched is among the results to fetch.
  pub drain_reports :
      (s : Loader Disk)
      → Runs I s [] (drain s)
        × (IsIdle (drain s) × ((f : Bytes) → IsKnown I f s → has f (drain s).last_loaded ≡ true))
  drain_reports s = (
    drain-Runs s,
    (
      drain-IsIdle s,
      λ f k. reported f (drain s) (drain-IsIdle s) (Runs-Survives I f (drain-Runs s) k),
    ),
  )
