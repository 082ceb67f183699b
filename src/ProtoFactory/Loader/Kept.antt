-- ===== src/ProtoFactory/Loader/Kept.antt =====
-- No task of the loader is lost.
use redis_protobuf.Base.{
  elem, Bool, ◌&&◌, not, ◌≡◌, refl, true, Option, none, some, List, [], ◌∷◌, ◌++◌, Bytes, beq,
  beq_refl, beq→eq, Bool-cases, ap, ◌∙◌, arith, ◌⊎◌, inl, inr,
}
use redis_protobuf.Errors.{Outcome, ok, err, abort}
use redis_protobuf.ProtoFactory.Collector.{Issue, has_error}
use redis_protobuf.ProtoFactory.Loader.{
  has, imported, undone, dumped, load_existing, absolute_path, put, put_all, Importer, Loader,
  add_task, take_tasks, load_file, load_task, publish, take_results, Step, request, take, load,
  done, report, Runs, here, next,
}

module _ {A : Type 0} where
  pub has-put_self : (k : Bytes) (v : A) (m : List (Bytes × A)) → has k (put k v m) ≡ true
  unfolding put
  has-put_self k v [] = ground (arith, beq_refl k)
  has-put_self k v ((j, u) ∷ m) = ground (arith, has-put_self k v m)

  has-put : (f k : Bytes) (v : A) (m : List (Bytes × A)) → has f m ≡ true → has f (put k v m) ≡ true
  unfolding put
  has-put f k v [] h = ground arith
  has-put f k v ((j, u) ∷ m) h = ground (arith, has-put f k v m)

  has-put_all_right :
      (f : Bytes) (s m : List (Bytes × A)) → has f m ≡ true → has f (put_all s m) ≡ true
  unfolding put_all
  has-put_all_right f [] m h = h
  has-put_all_right f ((k, v) ∷ s) m h = has-put_all_right f s (put k v m) (has-put f k v m h)

  has-put_all_left :
      (f : Bytes) (s m : List (Bytes × A)) → has f s ≡ true → has f (put_all s m) ≡ true
  unfolding put_all
  has-put_all_left f [] m h = ground arith
  has-put_all_left f ((k, v) ∷ s) m h = elim (Bool-cases (beq k f)) [
    | inl e ↦
        let same : k ≡ f = beq→eq k f e in
        has-put_all_right f s (put k v m) (ap (λ j. has f (put j v m)) same ∙ has-put_self f v m)
    | inr e ↦ has-put_all_left f s (put k v m) (ground arith)
  ]

  has-append_left : (f : Bytes) (s m : List (Bytes × A)) → has f s ≡ true → has f (s ++ m) ≡ true
  has-append_left f [] m h = cc h
  has-append_left f ((k, v) ∷ s) m h = ground (arith, has-append_left f s m)

  has-append_right : (f : Bytes) (s m : List (Bytes × A)) → has f m ≡ true → has f (s ++ m) ≡ true
  has-append_right f [] m h = h
  has-append_right f ((k, v) ∷ s) m h = ground (arith, has-append_right f s m)

module _ (I : Importer) where
  open I use {Disk}

  -- A file that is to be loaded, or whose result a client has still to fetch.
  abbrev pub IsKnown : Bytes → Loader Disk → Type 0
  IsKnown f s =
      (has f s.tasks ≡ true)
      ⊎ ((has f s.batch ≡ true) ⊎ ((has f s.status ≡ true) ⊎ (has f s.last_loaded ≡ true)))

  -- What the loading of a file leaves to the clients.
  abbrev pub IsKept : Loader Disk → Loader Disk → Type 0
  IsKept s t = (t.tasks ≡ s.tasks) × ((t.last_loaded ≡ s.last_loaded) × (t.status ≡ s.status))

  imported-IsKept :
      (f : Bytes) (s : Loader Disk) (r : Bool × List Issue × Disk) → IsKept s (imported I f s r).1
  imported-IsKept f s r = elim (Bool-cases (r.0 && not (has_error r.1))) [
    | inl e ↦ rw e (refl, (refl, refl))
    | inr e ↦ rw e (refl, (refl, refl))
  ]

  undone-IsKept :
      (f : Bytes) (s : Loader Disk) (r : Outcome (Unit {0}) × Loader Disk)
      → IsKept s r.1
      → IsKept s (undone I f r).1
  undone-IsKept f s (ok u, t) h = h
  undone-IsKept f s (err e, t) h = h
  undone-IsKept f s (abort, t) h = h

  dumped-IsKept : (f : Bytes) (s : Loader Disk) (o : Option Disk) → IsKept s (dumped I f s o).1
  unfolding load_existing
  dumped-IsKept f s none = (refl, (refl, refl))
  dumped-IsKept f s (some d) =
      undone-IsKept f s _ (imported-IsKept f (record s { disk = d }) (I.import_file d f))

  pub load_file-IsKept : (f c : Bytes) (s : Loader Disk) → IsKept s (load_file I f c s).1
  unfolding load_file
  load_file-IsKept f c s = elim (Bool-cases (elem f s.loaded_files)) [
    | inl e ↦ rw e (refl, (refl, refl))
    | inr e ↦ rw e (dumped-IsKept f s (I.dump s.disk (absolute_path I s.proto_dir f) c))
  ]

  -- Known still, or among the results that the step gave to a client.
  abbrev pub Survives : Bytes → Loader Disk → List (Bytes × Outcome (Unit {0})) → Type 0
  Survives f t seen = IsKnown f t ⊎ (has f seen ≡ true)

  load-IsKnown :
      (f g c : Bytes) (rest : List (Bytes × Bytes)) (s : Loader Disk)
      → s.batch ≡ (g, c) ∷ rest
      → IsKnown f s
      → IsKnown f (load_task I g c rest s)
  unfolding load_task
  load-IsKnown f g c rest s b (inl h) = inl (ap (has f) (load_file-IsKept g c s).0 ∙ h)
  load-IsKnown f g c rest s b (inr (inl h)) = elim (Bool-cases (beq g f)) [
    | inl e ↦
        let same : g ≡ f = beq→eq g f e in
        inr (
          inr (
            inl (
              ap (λ j. has f (put j (load_file I g c s).0 s.status)) same
              ∙ has-put_self f _ s.status)))
    | inr e ↦ let h' : has f ((g, c) ∷ rest) ≡ true = rw b at h in inr (inl (ground arith))
  ]
  load-IsKnown f g c rest s b (inr (inr (inl h))) = inr (inr (inl (has-put f g _ s.status h)))
  load-IsKnown f g c rest s b (inr (inr (inr h))) =
      inr (inr (inr (ap (has f) (load_file-IsKept g c s).1.0 ∙ h)))

  Step-Survives :
      (f : Bytes) {s t : Loader Disk} {seen : List (Bytes × Outcome (Unit {0}))}
      → Step I s seen t
      → IsKnown f s
      → Survives f t seen
  unfolding add_task take_tasks publish take_results
  Step-Survives f (request s g c) (inl h) = inl (inl (has-put f g c s.tasks h))
  Step-Survives f (request s g c) (inr h) = inl (inr h)
  Step-Survives f (take s b e) (inl h) = inl (inr (inl h))
  Step-Survives f (take s b e) (inr (inl h)) = cc (rw b at h)
  Step-Survives f (take s b e) (inr (inr (inl h))) = cc (rw e at h)
  Step-Survives f (take s b e) (inr (inr (inr h))) = inl (inr (inr (inr h)))
  Step-Survives f (load s g c rest b) h = inl (load-IsKnown f g c rest s b h)
  Step-Survives f (done s b) (inl h) = inl (inl h)
  Step-Survives f (done s b) (inr (inl h)) = inl (inr (inl h))
  Step-Survives f (done s b) (inr (inr (inl h))) =
      inl (inr (inr (inr (has-put_all_left f s.status s.last_loaded h))))
  Step-Survives f (done s b) (inr (inr (inr h))) =
      inl (inr (inr (inr (has-put_all_right f s.status s.last_loaded h))))
  Step-Survives f (report s) (inl h) = inl (inl h)
  Step-Survives f (report s) (inr (inl h)) = inl (inr (inl h))
  Step-Survives f (report s) (inr (inr (inl h))) = inl (inr (inr (inl h)))
  Step-Survives f (report s) (inr (inr (inr h))) = inr h

  -- Whatever the clients and the thread do next, and in which order, a file that was requested or
  -- whose result is not yet fetched is still in the loader, or its result is among those that the
  -- clients were given.
  pub Runs-Survives :
      (f : Bytes) {s t : Loader Disk} {seen : List (Bytes × Outcome (Unit {0}))}
      → Runs I s seen t
      → IsKnown f s
      → Survives f t seen
  Runs-Survives f (here s) h = inl h
  Runs-Survives f (next {seen = old} {new = new} r st) h = elim (Runs-Survives f r h) [
    | inl k ↦ elim (Step-Survives f st k) [
      | inl k' ↦ inl k'
      | inr e ↦ inr (has-append_right f old new e)
    ]
    | inr e ↦ inr (has-append_left f old new e)
  ]
