-- ===== src/ProtoFactory/Loader/Once.antt =====
-- A file is imported once.
use redis_protobuf.Base.{
  elem, ◌∙◌, List, Bool, ap, ◌&&◌, not, ◌≡◌, refl, true, Option, none, some, Bytes, beq_refl,
  Bool-cases, inl, inr, arith,
}
use redis_protobuf.Errors.{Outcome, ok, err, abort, already_imported}
use redis_protobuf.ProtoFactory.Loader.{
  add_task, take_tasks, load_task, publish, take_results, Step, request, take, load, done, report,
  Runs, here, next, has_error, Issue, Importer, Loader, imported, undone, dumped, load_existing,
  absolute_path, load_file,
}

module _ (I : Importer) where
  open I use {Disk}

  imported_listed :
      (f : Bytes) (s : Loader Disk) (r : Bool × List Issue × Disk)
      → (imported I f s r).0 ≡ ok tt
      → elem f (imported I f s r).1.loaded_files ≡ true
  imported_listed f s r h = elim (Bool-cases (r.0 && not (has_error r.1))) [
    | inl e ↦ rw e (ground (arith, beq_refl f))
    | inr e ↦ cc (rw e at h)
  ]

  undone_ok :
      (f : Bytes) (r : Outcome (Unit {0}) × Loader Disk)
      → (undone I f r).0 ≡ ok tt
      → (r.0 ≡ ok tt) × ((undone I f r).1 ≡ r.1)
  undone_ok f (ok u, s) h = (h, refl)
  undone_ok f (err e, s) h = cc h
  undone_ok f (abort, s) h = cc h

  dumped_listed :
      (f : Bytes) (s : Loader Disk) (o : Option Disk)
      → (dumped I f s o).0 ≡ ok tt
      → elem f (dumped I f s o).1.loaded_files ≡ true
  unfolding load_existing
  dumped_listed f s none h = cc h
  dumped_listed f s (some d) h =
      let t = record s { disk = d } in
      let (e, same) = undone_ok f (imported I f t (I.import_file d f)) h in
      ap (λ x. elem f x.loaded_files) same ∙ imported_listed f t (I.import_file d f) e

  pub load_file_listed :
      (f c : Bytes) (s : Loader Disk)
      → (load_file I f c s).0 ≡ ok tt
      → elem f (load_file I f c s).1.loaded_files ≡ true
  unfolding load_file
  load_file_listed f c s h = elim (Bool-cases (elem f s.loaded_files)) [
    | inl e ↦ cc (rw e at h)
    | inr e ↦ rw e (dumped_listed f s (I.dump s.disk (absolute_path I s.proto_dir f) c) (rw e at h))
  ]

  pub load_again :
      (f d : Bytes) (s : Loader Disk)
      → elem f s.loaded_files ≡ true
      → load_file I f d s ≡ (err already_imported, s)
  unfolding load_file
  load_again f d s e = rw e refl

  -- The list of files only grows.
  imported_kept :
      (f g : Bytes) (s : Loader Disk) (r : Bool × List Issue × Disk)
      → elem f s.loaded_files ≡ true
      → elem f (imported I g s r).1.loaded_files ≡ true
  imported_kept f g s r h = elim (Bool-cases (r.0 && not (has_error r.1))) [
    | inl e ↦ rw e (ground arith)
    | inr e ↦ rw e h
  ]

  undone_kept :
      (f g : Bytes) (r : Outcome (Unit {0}) × Loader Disk)
      → elem f r.1.loaded_files ≡ true
      → elem f (undone I g r).1.loaded_files ≡ true
  undone_kept f g (ok u, s) h = h
  undone_kept f g (err e, s) h = h
  undone_kept f g (abort, s) h = h

  dumped_kept :
      (f g : Bytes) (s : Loader Disk) (o : Option Disk)
      → elem f s.loaded_files ≡ true
      → elem f (dumped I g s o).1.loaded_files ≡ true
  unfolding load_existing
  dumped_kept f g s none h = h
  dumped_kept f g s (some d) h =
      undone_kept f g _ (imported_kept f g (record s { disk = d }) (I.import_file d g) h)

  pub load_file_kept :
      (f g c : Bytes) (s : Loader Disk)
      → elem f s.loaded_files ≡ true
      → elem f (load_file I g c s).1.loaded_files ≡ true
  unfolding load_file
  load_file_kept f g c s h = elim (Bool-cases (elem g s.loaded_files)) [
    | inl e ↦ rw e h
    | inr e ↦ rw e (dumped_kept f g s (I.dump s.disk (absolute_path I s.proto_dir g) c) h)
  ]

  pub step_kept :
      (f : Bytes) {s t : Loader Disk} {new : List (Bytes × Outcome (Unit {0}))}
      → Step I s new t
      → elem f s.loaded_files ≡ true
      → elem f t.loaded_files ≡ true
  unfolding add_task take_tasks load_task publish take_results
  step_kept f (request s g c) h = h
  step_kept f (take s b e) h = h
  step_kept f (load s g c rest b) h = load_file_kept f g c s h
  step_kept f (done s b) h = h
  step_kept f (report s) h = h

  Runs-kept :
      (f : Bytes) {s t : Loader Disk} {seen : List (Bytes × Outcome (Unit {0}))}
      → Runs I s seen t
      → elem f s.loaded_files ≡ true
      → elem f t.loaded_files ≡ true
  Runs-kept f (here s) h = h
  Runs-kept f (next r st) h = step_kept f st (Runs-kept f r h)

  -- A file is loaded once. After it was loaded without an error, and whatever clients and the thread do then,
  -- loads of other files among it, another load of a file of this name, with any content, is an error,
  -- and changes neither the files on disk nor the importer nor anything else.
  pub load_file_once :
      (f c d : Bytes) (s : Loader Disk) {t : Loader Disk} {seen : List (Bytes × Outcome (Unit {0}))}
      → (load_file I f c s).0 ≡ ok tt
      → Runs I (load_file I f c s).1 seen t
      → load_file I f d t ≡ (err already_imported, t)
  load_file_once f c d s {t} h r = load_again f d t (Runs-kept f r (load_file_listed f c s h))
