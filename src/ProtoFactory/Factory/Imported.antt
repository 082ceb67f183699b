-- ===== src/ProtoFactory/Factory/Imported.antt =====
-- proto_factory.cpp: which files the constructor of ProtoFactory has imported.
use mathlib.Core.Path.{subst}
use redis_protobuf.Base.{
  ℕ, ◌≡◌, ◌↔◌, refl, sym, ◌∙◌, ap, Bool, true, false, not, ◌&&◌, ◌||◌, Bool-cases, Option, none,
  some, inl, inr, List, [], ◌∷◌, ◌++◌, Bytes, codes, beq, beq_refl, beq→eq, elem, arith,
  if◌then◌else◌,
}
use redis_protobuf.Errors.{Outcome, ok, err, abort, status_failed}
use redis_protobuf.Exec.{Exec, continue}
use redis_protobuf.Utils.Io.{FileSystem, FileType, join, is_regular, file_type, extension, list_dir}
use redis_protobuf.Utils.Io.Listing.{Below}
use redis_protobuf.Utils.Io.Listing.Complete.{list_dir-Below}
use redis_protobuf.ProtoFactory.Collector.{Issue, has_error}
use redis_protobuf.ProtoFactory.Loader.{Importer, Loader, imported, load_existing}
use redis_protobuf.ProtoFactory.Factory.{load_proto, load_all, load_protos, new_loader}
use redis_protobuf.ProtoFactory.Factory.Paths.{
  beq-append, substr-join, long_enough, Below-join, elem-if, same_choice,
}

module _ (I : Importer) (look : I.Disk → FileSystem) where
  open I use {Disk, import_file, map_path}

  -- An import, and the mapping of the directory, leave the files alone.
  abbrev pub ReadsOnly : Type 0
  ReadsOnly =
      ((d : Disk) (file : Bytes) → look (import_file d file).2 ≡ look d)
      × ((d : Disk) (dir : Bytes) → look (map_path d dir) ≡ look d)

  abbrev mode_wanted : Bytes → Option FileType → Bool
  mode_wanted file none = false
  mode_wanted file (some FileType.regular) = beq (extension file) (codes "proto")
  mode_wanted file (some _) = false

  -- A regular file with the extension "proto".
  abbrev pub is_proto : FileSystem → Bytes → Bool
  is_proto F file = mode_wanted file (F.stat file)

  imported_effect :
      (file : Bytes) (s : Loader Disk) (r : Bool × List Issue × Disk)
      → (imported I file s r).0 ≡ ok tt
      → ((imported I file s r).1.loaded_files ≡ file ∷ s.loaded_files)
        × ((imported I file s r).1.disk ≡ r.2)
  imported_effect file s r h = elim (Bool-cases (r.0 && not (has_error r.1))) [
    | inl e ↦ rw e (refl, refl)
    | inr e ↦ cc (rw e at h)
  ]

  -- What the loop does for the file `rel` of the directory, if it does not throw.
  abbrev Effect : Bytes → Bytes → Loader Disk → Loader Disk → Type 0
  Effect dir rel s t =
      (t.loaded_files
        ≡ (if is_proto (look s.disk) (join dir rel) then rel ∷ s.loaded_files else s.loaded_files))
      × (look t.disk ≡ look s.disk)

  -- The body of the loop, by what stat gives.
  abbrev by_mode : Bytes → Bytes → Loader Disk → Option FileType → Outcome (Unit {0}) × Loader Disk
  by_mode file rel s none = (err (status_failed file), s)
  by_mode file rel s (some FileType.regular) =
      if beq (extension file) (codes "proto") then load_existing I rel s else (ok tt, s)
  by_mode file rel s (some _) = (ok tt, s)

  load_proto-by_mode :
      (dir rel : Bytes) (s : Loader Disk) (o : Option FileType)
      → (look s.disk).stat (join dir rel) ≡ o
      → load_proto I look dir (join dir rel) s ≡ by_mode (join dir rel) rel s o
  unfolding load_proto is_regular file_type
  load_proto-by_mode dir rel s none e = rw e refl
  load_proto-by_mode dir rel s (some FileType.regular) e =
      elim (Bool-cases (beq (extension (join dir rel)) (codes "proto"))) [
        | inl k ↦ rw (e, k, long_enough dir rel, substr-join dir rel) refl
        | inr k ↦ rw (e, k) refl
      ]
  load_proto-by_mode dir rel s (some FileType.directory) e = rw e refl
  load_proto-by_mode dir rel s (some FileType.special) e = rw e refl

  by_mode-Effect :
      ReadsOnly
      → (dir rel : Bytes) (s : Loader Disk) (o : Option FileType)
      → (look s.disk).stat (join dir rel) ≡ o
      → (by_mode (join dir rel) rel s o).0 ≡ ok tt
      → Effect dir rel s (by_mode (join dir rel) rel s o).1
  unfolding load_existing
  by_mode-Effect reads dir rel s none e h = cc h
  by_mode-Effect reads dir rel s (some FileType.regular) e h =
      elim (Bool-cases (beq (extension (join dir rel)) (codes "proto"))) [
        | inl k ↦
            let (l, d) = imported_effect rel s (import_file s.disk rel) (rw k at h) in
            rw (e, k) (l, ap look d ∙ reads.0 s.disk rel)
        | inr k ↦ rw (e, k) (refl, refl)
      ]
  by_mode-Effect reads dir rel s (some FileType.directory) e h = rw e (refl, refl)
  by_mode-Effect reads dir rel s (some FileType.special) e h = rw e (refl, refl)

  load_proto-Effect :
      ReadsOnly
      → (dir rel : Bytes) (s : Loader Disk) → (load_proto I look dir (join dir rel) s).0 ≡ ok tt
      → Effect dir rel s (load_proto I look dir (join dir rel) s).1
  load_proto-Effect reads dir rel s h =
      let o = (look s.disk).stat (join dir rel) in
      let e = load_proto-by_mode dir rel s o refl in
      subst (λ r. Effect dir rel s r.1) (sym e)
        (by_mode-Effect reads dir rel s o refl (sym (ap (λ r. r.0) e) ∙ h))

  abbrev AllUnder : Bytes → List Bytes → Type 0
  AllUnder dir files =
      (file : Bytes) → elem file files ≡ true → (rel : Bytes) × (file ≡ join dir rel)

  -- Whether the loop over `files` imports `rel`.
  abbrev chosen : FileSystem → Bytes → List Bytes → Bytes → Bool
  chosen F dir files rel = elem (join dir rel) files && is_proto F (join dir rel)

  continue-ok :
      (o : Outcome (Unit {0})) (f : Exec (Loader Disk) (Unit {0})) (s : Loader Disk)
      → (continue o (λ _. f) s).0 ≡ ok tt
      → (o ≡ ok tt) × (continue o (λ _. f) s ≡ f s)
  continue-ok (ok tt) f s h = (refl, refl)
  continue-ok (err e) f s h = cc h
  continue-ok abort f s h = cc h

  chosen_next :
      (F : FileSystem) (dir g rel : Bytes) (files loaded : List Bytes)
      → (elem rel (if is_proto F (join dir g) then g ∷ loaded else loaded)
          || chosen F dir files rel)
        ≡ (elem rel loaded || chosen F dir (join dir g ∷ files) rel)
  chosen_next F dir g rel files loaded =
      ap (λ x. x || chosen F dir files rel) (elem-if g rel (is_proto F (join dir g)) loaded)
      ∙ same_choice (beq g rel) (is_proto F (join dir g)) (is_proto F (join dir rel))
          (elem rel loaded) (elem (join dir rel) files)
          (λ e. ap (λ x. is_proto F (join dir x)) (beq→eq g rel e))
      ∙ ap
          (λ i.
            elem rel loaded
            || ((if i then true else elem (join dir rel) files) && is_proto F (join dir rel)))
          (sym (beq-append (dir ++ codes "/") g rel))

  -- What the loop imports, if it does not throw.
  abbrev Chooses : Bytes → Bytes → List Bytes → Loader Disk → Type 0
  Chooses dir rel files s =
      (load_all I look dir files s).0 ≡ ok tt
      → elem rel (load_all I look dir files s).1.loaded_files
        ≡ (elem rel s.loaded_files || chosen (look s.disk) dir files rel)

  Chooses-next :
      ReadsOnly
      → (dir rel g : Bytes) (files : List Bytes) (s : Loader Disk)
      → ((t : Loader Disk) → Chooses dir rel files t)
      → Chooses dir rel (join dir g ∷ files) s
  unfolding load_all
  Chooses-next reads dir rel g files s later h =
      let r = load_proto I look dir (join dir g) s in
      let (o, same) = continue-ok r.0 (load_all I look dir files) r.1 h in
      let (l, d) = load_proto-Effect reads dir g s o in
      ap (λ x. elem rel x.1.loaded_files) same
      ∙ later r.1 (sym (ap (λ x. x.0) same) ∙ h)
      ∙ ap (λ x. elem rel x || chosen (look r.1.disk) dir files rel) l
      ∙ ap
          (λ F.
            elem rel
              (if is_proto (look s.disk) (join dir g) then g ∷ s.loaded_files else s.loaded_files)
            || chosen F dir files rel)
          d
      ∙ chosen_next (look s.disk) dir g rel files s.loaded_files

  load_all-Chooses :
      ReadsOnly
      → (dir rel : Bytes) (files : List Bytes) (s : Loader Disk) → AllUnder dir files
      → Chooses dir rel files s
  unfolding load_all
  load_all-Chooses reads dir rel [] s under = λ h. ground arith
  load_all-Chooses reads dir rel (file ∷ files) s under =
      let (g, p) = under file (ground (arith, beq_refl file)) in
      subst (λ f. Chooses dir rel (f ∷ files) s) (sym p)
        (Chooses-next reads dir rel g files s
          (λ t. load_all-Chooses reads dir rel files t (λ f k. under f (ground arith))))

  -- What is imported is the regular files below the directory with the extension "proto", by their names
  -- without the directory.
  abbrev pub HasImported : FileSystem → Bytes → Loader Disk → Type 0
  HasImported F dir s =
      (rel : Bytes)
      → (elem rel s.loaded_files ≡ true)
        ↔ (Below F dir (join dir rel) × (is_proto F (join dir rel) ≡ true))

  imported_iff :
      (a : Bool) {x y : Bool} {B : Type 0}
      → x ≡ (false || (a && y))
      → (a ≡ true) ↔ B
      → (x ≡ true) ↔ (B × (y ≡ true))
  imported_iff true e k = (λ h. (k.0 refl, sym e ∙ h), λ h. e ∙ h.1)
  imported_iff false e k = (λ h. cc (sym e ∙ h), λ h. cc (k.1 h.0))

  listed-HasImported :
      ReadsOnly
      → (depth : ℕ) (dir : Bytes) (s : Loader Disk) (o : Outcome (List Bytes)) → s.loaded_files ≡ []
      → list_dir (look s.disk) depth dir ≡ o
      → (continue o (load_all I look dir) s).0 ≡ ok tt
      → HasImported (look s.disk) dir (continue o (load_all I look dir) s).1
  listed-HasImported reads depth dir s (ok files) e l h rel =
      let below = list_dir-Below (look s.disk) depth dir l in
      let under : AllUnder dir files = λ f k. Below-join (look s.disk) ((below f).0 k) in
      imported_iff (elem (join dir rel) files)
        (load_all-Chooses reads dir rel files s under h
          ∙ ap (λ x. elem rel x || chosen (look s.disk) dir files rel) e)
        (below (join dir rel))
  listed-HasImported reads depth dir s (err _) e l h rel = cc h
  listed-HasImported reads depth dir s abort e l h rel = cc h

  pub load_protos-HasImported :
      ReadsOnly
      → (depth : ℕ) (dir : Bytes) (d : Disk)
      → (load_protos I look depth dir (new_loader I look dir d)).0 ≡ ok tt
      → HasImported (look d) dir (load_protos I look depth dir (new_loader I look dir d)).1
  unfolding load_protos
  load_protos-HasImported reads depth dir d h =
      let s = new_loader I look dir d in
      subst (λ F. HasImported F dir (load_protos I look depth dir s).1) (reads.1 d dir)
        (listed-HasImported reads depth dir s (list_dir (look s.disk) depth dir) refl refl h)
