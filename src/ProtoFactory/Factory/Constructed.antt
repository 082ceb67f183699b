-- ===== src/ProtoFactory/Factory/Constructed.antt =====
-- proto_factory.cpp: what the constructor of ProtoFactory gives.
use mathlib.Core.Path.{subst}
use redis_protobuf.Base.{
  beq, codes, length, ltb, substr, ◌+◌, ℕ, suc, ◌≡◌, ◌≢◌, refl, sym, Bool, true, false, not, ◌&&◌,
  ◌||◌, Bool-cases, Option-cases, inl, inr, ◌⊎◌, List, [], ◌∷◌, Bytes, if◌then◌else◌,
}
use redis_protobuf.Errors.{invalid_proto_dir, Error, Outcome, ok, err, abort, Outcome-cases}
use redis_protobuf.Exec.{lift, Exec, continue, pure}
use redis_protobuf.Exec.Keeps.{Keeps, Keeps-bind, Keeps-lift, Keeps-pure, Keeps-if}
use redis_protobuf.Utils.Io.{FileSystem, extension, is_regular, file_type, list_dir}
use redis_protobuf.Utils.Io.Listing.Returns.{IsLimit, list_dir_returns}
use redis_protobuf.ProtoFactory.Collector.{has_error}
use redis_protobuf.ProtoFactory.Loader.{Importer, Loader, load_existing}
use redis_protobuf.ProtoFactory.Factory.{
  load_chosen, load_proto, load_all, load_protos, create_factory, new_loader,
}
use redis_protobuf.ProtoFactory.Factory.Directory.{IsStripped, canonicalize_path-IsStripped}
use redis_protobuf.ProtoFactory.Factory.Imported.{ReadsOnly, HasImported, load_protos-HasImported}

module _ {S A B : Type 0} where
  continue-Returns :
      (o : Outcome A) (f : A → Exec S B) (s : S)
      → o ≢ abort
      → ((a : A) (t : S) → (f a t).0 ≢ abort)
      → (continue o f s).0 ≢ abort
  continue-Returns (ok a) f s h k = k a s
  continue-Returns (err e) f s h k = λ p. cc p
  continue-Returns abort f s h k = λ _. h refl

if-Returns :
    {S A : Type 0} (b : Bool) (m n : Exec S A) (s : S)
    → (m s).0 ≢ abort
    → (n s).0 ≢ abort
    → ((if b then m else n) s).0 ≢ abort
if-Returns true m n s h k = h
if-Returns false m n s h k = k

module _ (I : Importer) (look : I.Disk → FileSystem) where
  open I use {Disk, map_path}

  load_existing-Returns : (file : Bytes) (s : Loader Disk) → (load_existing I file s).0 ≢ abort
  unfolding load_existing
  load_existing-Returns file s =
      let r = I.import_file s.disk file in
      elim (Bool-cases (r.0 && not (has_error r.1))) [
        | inl e ↦ rw e (λ p. cc p)
        | inr e ↦ rw e (λ p. cc p)
      ]

  is_regular-Returns : (F : FileSystem) (file : Bytes) → is_regular F file ≢ abort
  unfolding is_regular file_type
  is_regular-Returns F file = elim (Option-cases (F.stat file)) [
    | inl e ↦ rw e (λ p. cc p)
    | inr (t, e) ↦ rw e (λ p. cc p)
  ]

  load_chosen-Returns :
      (dir file : Bytes) (r : Bool) (s : Loader Disk) → (load_chosen I look dir file r s).0 ≢ abort
  load_chosen-Returns dir file r s =
      let load = load_existing I (substr file (length dir + 1)) in
      let guarded = if ltb (length file) (length dir + 1) then pure tt else load in
      if-Returns (not r || not (beq (extension file) (codes "proto"))) (pure tt) guarded s
        (λ p. cc p)
        (if-Returns (ltb (length file) (length dir + 1)) (pure tt) load s (λ p. cc p)
          (load_existing-Returns (substr file (length dir + 1)) s))

  load_proto-Returns :
      (dir file : Bytes) (s : Loader Disk) → (load_proto I look dir file s).0 ≢ abort
  unfolding load_proto
  load_proto-Returns dir file s =
      continue-Returns (is_regular (look s.disk) file) (load_chosen I look dir file) s
        (is_regular-Returns (look s.disk) file) (load_chosen-Returns dir file)

  load_all-Returns :
      (dir : Bytes) (files : List Bytes) (s : Loader Disk) → (load_all I look dir files s).0 ≢ abort
  unfolding load_all
  load_all-Returns dir [] s = λ p. cc p
  load_all-Returns dir (file ∷ files) s =
      continue-Returns (load_proto I look dir file s).0 (λ _. load_all I look dir files)
        (load_proto I look dir file s).1 (load_proto-Returns dir file s)
        (λ _. load_all-Returns dir files)

  -- The directory of the factory.
  abbrev dir_of : Loader Disk → Bytes
  dir_of s = s.proto_dir

  load_existing-Keeps : (file : Bytes) → Keeps dir_of (load_existing I file)
  unfolding load_existing
  load_existing-Keeps file = record {
    at = λ s.
        let r = I.import_file s.disk file in
        elim (Bool-cases (r.0 && not (has_error r.1))) [ inl e ↦ rw e refl | inr e ↦ rw e refl ];
  }

  load_proto-Keeps : (dir file : Bytes) → Keeps dir_of (load_proto I look dir file)
  unfolding load_proto
  load_proto-Keeps dir file = record {
    at = λ s.
        (Keeps-bind (lift (is_regular (look s.disk) file)) (load_chosen I look dir file)
            (Keeps-lift _)
            (λ r.
              Keeps-if _ _ _ (Keeps-pure tt)
                (Keeps-if _ _ _ (Keeps-pure tt) (load_existing-Keeps _)))).at
          s;
  }

  load_all-Keeps : (dir : Bytes) (files : List Bytes) → Keeps dir_of (load_all I look dir files)
  unfolding load_all
  load_all-Keeps dir [] = Keeps-pure tt
  load_all-Keeps dir (file ∷ files) =
      Keeps-bind (load_proto I look dir file) (λ _. load_all I look dir files)
        (load_proto-Keeps dir file) (λ _. load_all-Keeps dir files)

  load_protos-Keeps : (depth : ℕ) (dir : Bytes) → Keeps dir_of (load_protos I look depth dir)
  unfolding load_protos
  load_protos-Keeps depth dir = record {
    at = λ s.
        (Keeps-bind (lift (list_dir (look s.disk) depth dir)) (load_all I look dir) (Keeps-lift _)
            (load_all-Keeps dir)).at
          s;
  }

  load_protos-Returns :
      ReadsOnly I look
      → (limit : ℕ) (dir : Bytes) (d : Disk) → IsLimit (look d) limit
      → (load_protos I look (suc limit) dir (new_loader I look dir d)).0 ≢ abort
  unfolding load_protos
  load_protos-Returns reads limit dir d l =
      let s = new_loader I look dir d in
      let l' = subst (λ F. IsLimit F limit) (sym (reads.1 d dir)) l in
      continue-Returns (list_dir (look s.disk) (suc limit) dir) (load_all I look dir) s
        (list_dir_returns (look s.disk) limit dir l') (load_all-Returns dir)

  -- If stat fails for every path of `limit` characters or more, and neither an import nor the
  -- mapping of the directory changes files, the constructor of the factory, on a stack with room for
  -- `limit` nested calls of list_dir, throws an error, or gives a factory whose directory is the path of
  -- the option without the slashes at its end, and which has imported exactly the regular files below
  -- that directory whose extension is "proto", by their names relative to it.
  pub create_factory-HasImported :
      ReadsOnly I look
      → (limit : ℕ) (path : Bytes) (d : Disk) → IsLimit (look d) limit
      → ((e : Error) × (create_factory I look (suc limit) path d ≡ err e))
        ⊎ ((s : Loader Disk) × (create_factory I look (suc limit) path d ≡ ok s)
            × (IsStripped path s.proto_dir × HasImported I look (look d) s.proto_dir s))
  unfolding create_factory
  create_factory-HasImported reads limit path d l = elim (canonicalize_path-IsStripped path) [
    | inl (e, _) ↦ inl (invalid_proto_dir, rw e refl)
    | inr (dir, e, (_, k)) ↦
        let r = load_protos I look (suc limit) dir (new_loader I look dir d) in
        elim (Outcome-cases r.0) [
          | inl (u, o) ↦
              let same : r.1.proto_dir ≡ dir =
                (load_protos-Keeps (suc limit) dir).at (new_loader I look dir d) in
              inr (
                r.1,
                rw (e, o) refl,
                (
                  subst (IsStripped path) (sym same) k,
                  subst (λ x. HasImported I look (look d) x r.1) (sym same)
                      (load_protos-HasImported I look reads (suc limit) dir d o),
                ),
              )
          | inr (inl (x, o)) ↦ inl (x, rw (e, o) refl)
          | inr (inr o) ↦ absurd (load_protos-Returns reads limit dir d l o)
        ]
  ]
