-- ===== src/ProtoFactory/Loader/Told.antt =====
-- proto_factory.cpp: what it means for a client to be told that a file was loaded.
use mathlib.Core.Path.{subst}
use redis_protobuf.Base.{
  ◌≡◌, sym, true, Bool-cases, inl, inr, List, [], ◌∷◌, Bytes, beq, beq→eq, elem, All, All-append,
}
use redis_protobuf.Errors.{Outcome, ok, err, already_imported}
use redis_protobuf.ProtoFactory.Loader.{
  put, put_all, Importer, Loader, add_task, take_tasks, load_file, load_task, publish, take_results,
  Step, request, take, load, done, report, Runs, here, next,
}
use redis_protobuf.ProtoFactory.Loader.Kept.{load_file-IsKept}
use redis_protobuf.ProtoFactory.Loader.Once.{
  load_again, load_file_listed, load_file_kept, step_kept,
}

-- The files of these results that are OK are in the list.
abbrev AreListed : List Bytes → List (Bytes × Outcome (Unit {0})) → Type 0
AreListed files m = All (λ e. e.1 ≡ ok tt → elem e.0 files ≡ true) m

put-AreListed :
    (files : List Bytes) (k : Bytes) (v : Outcome (Unit {0}))
    (m : List (Bytes × Outcome (Unit {0})))
    → (v ≡ ok tt → elem k files ≡ true)
    → AreListed files m
    → AreListed files (put k v m)
unfolding put
put-AreListed files k v [] h a = (h, tt)
put-AreListed files k v ((j, u) ∷ m) h (hu, a) = elim (Bool-cases (beq j k)) [
  | inl e ↦ rw e (subst (λ x. v ≡ ok tt → elem x files ≡ true) (sym (beq→eq j k e)) h, a)
  | inr e ↦ rw e (hu, put-AreListed files k v m h a)
]

put_all-AreListed :
    (files : List Bytes) (s m : List (Bytes × Outcome (Unit {0})))
    → AreListed files s
    → AreListed files m
    → AreListed files (put_all s m)
unfolding put_all
put_all-AreListed files [] m a b = b
put_all-AreListed files ((k, v) ∷ s) m (h, a) b =
    put_all-AreListed files s (put k v m) a (put-AreListed files k v m h b)

grown :
    (files more : List Bytes) (m : List (Bytes × Outcome (Unit {0})))
    → ((f : Bytes) → elem f files ≡ true → elem f more ≡ true)
    → AreListed files m
    → AreListed more m
grown files more [] g a = tt
grown files more ((k, v) ∷ m) g (h, a) = (λ e. g k (h e), grown files more m g a)

module _ (I : Importer) where
  open I use {Disk}

  -- The results in the loader are OK only of files that it has loaded.
  abbrev pub IsHonest : Loader Disk → Type 0
  IsHonest s = AreListed s.loaded_files s.status × AreListed s.loaded_files s.last_loaded

  Step-IsHonest :
      {s t : Loader Disk} {new : List (Bytes × Outcome (Unit {0}))}
      → Step I s new t
      → IsHonest s
      → IsHonest t × AreListed t.loaded_files new
  unfolding add_task take_tasks load_task publish take_results
  Step-IsHonest (request s f c) h = (h, tt)
  Step-IsHonest (take s b e) h = (h, tt)
  Step-IsHonest (load s f c rest b) (h, l) =
      let (_, (same, _)) = load_file-IsKept I f c s in
      let files = (load_file I f c s).1.loaded_files in
      let more : (g : Bytes) → elem g s.loaded_files ≡ true → elem g files ≡ true =
        λ g e. load_file_kept I g f c s e in
      (
        (
          put-AreListed files f _ s.status (load_file_listed I f c s)
              (grown s.loaded_files files s.status more h),
          subst (AreListed files) (sym same) (grown s.loaded_files files s.last_loaded more l),
        ),
        tt,
      )
  Step-IsHonest (done s b) (h, l) =
      ((tt, put_all-AreListed s.loaded_files s.status s.last_loaded h l), tt)
  Step-IsHonest (report s) (h, l) = ((h, tt), l)

  Runs-IsHonest :
      {s t : Loader Disk} {seen : List (Bytes × Outcome (Unit {0}))}
      → Runs I s seen t
      → IsHonest s
      → IsHonest t × AreListed t.loaded_files seen
  Runs-IsHonest (here s) h = (h, tt)
  Runs-IsHonest (next {t = t} {u = u} {seen = old} {new = new} r st) h =
      let (k, a) = Runs-IsHonest r h in
      let (i, b) = Step-IsHonest st k in
      (
        i,
        All-append (λ e. e.1 ≡ ok tt → elem e.0 u.loaded_files ≡ true) old new
            (grown t.loaded_files u.loaded_files old (λ f e. step_kept I f st e) a) b,
      )

  refused :
      (t : Loader Disk) (m : List (Bytes × Outcome (Unit {0})))
      → AreListed t.loaded_files m
      → All (λ e. e.1 ≡ ok tt → (d : Bytes) → load_file I e.0 d t ≡ (err already_imported, t)) m
  refused t [] a = tt
  refused t ((f, v) ∷ m) (h, a) = (λ e d. load_again I f d t (h e), refused t m a)

  -- OK means that the file is loaded and stays so. Whatever clients and the thread do, from a loader whose
  -- results are OK only of files that it has loaded: for each file that a client was told was OK at
  -- any time, a load of a file of this name is now refused as already imported, and changes nothing;
  -- and the loader's results are still OK only of files that it has loaded.
  pub Runs-IsTold :
      {s t : Loader Disk} {seen : List (Bytes × Outcome (Unit {0}))}
      → Runs I s seen t
      → IsHonest s
      → All (λ e. e.1 ≡ ok tt → (d : Bytes) → load_file I e.0 d t ≡ (err already_imported, t)) seen
        × IsHonest t
  Runs-IsTold {t = t} {seen = seen} r h = let (k, a) = Runs-IsHonest r h in (refused t seen a, k)
