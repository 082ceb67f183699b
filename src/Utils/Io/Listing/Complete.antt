-- ===== src/Utils/Io/Listing/Complete.antt =====
-- utils.cpp: list_dir leaves out no file.
use mathlib.Core.Path.{subst}
use redis_protobuf.Base.{
  ℕ, zero, suc, ◌≡◌, ◌↔◌, refl, Bool, true, false, some, List, [], ◌∷◌, ◌++◌, Bytes, beq, elem,
  elem-append, beq_refl, beq→eq, Bool-cases, inl, inr, arith,
}
use redis_protobuf.Errors.{Outcome, ok, >>=-ok}
use redis_protobuf.Utils.Io.{
  FileSystem, FileType, is_dots, is_dir, join, is_directory, files_of, list_entries, list_checked,
  list_dir,
}
use redis_protobuf.Utils.Io.Listing.{
  HasEntry, Below, here, inside, is_directory_stat, list_dir-AllBelow,
}

module _ (F : FileSystem) where
  open F use {stat, read_dir}

  abbrev IsWithin : List Bytes → List Bytes → Type 0
  IsWithin s t = (f : Bytes) → elem f s ≡ true → elem f t ≡ true

  module _ (list : Bytes → Outcome (List Bytes)) where
    list_entries-IsWithin :
        (path : Bytes) (rest files out : List Bytes)
        → list_entries F list path rest files ≡ ok out
        → IsWithin files out
    unfolding list_entries
    list_entries-IsWithin path [] files out h f k =
        let p : files ≡ out = cc h in subst (λ x. elem f x ≡ true) p k
    list_entries-IsWithin path (n ∷ rest) files out h f k = elim (Bool-cases (is_dots n)) [
      | inl e ↦ list_entries-IsWithin path rest files out (rw (list_entries, e) at h) f k
      | inr e ↦
          let (more, e', g) =
            >>=-ok (files_of F list (join path n)) _ (rw (list_entries, e) at h) in
          list_entries-IsWithin path rest (files ++ more) out g f
            (ground (arith, elem-append f files more))
    ]

    -- What the entry `name` added is in the result.
    abbrev Adds : Bytes → Bytes → List Bytes → Type 0
    Adds path name out =
        (more : List Bytes) × (files_of F list (join path name) ≡ ok more) × IsWithin more out

    list_entries-Adds :
        (path name : Bytes) (rest files out : List Bytes)
        → list_entries F list path rest files ≡ ok out
        → elem name rest ≡ true
        → is_dots name ≡ false
        → Adds path name out
    unfolding list_entries
    list_entries-Adds path name [] files out h m d = cc m
    list_entries-Adds path name (n ∷ rest) files out h m d = elim (Bool-cases (is_dots n)) [
      | inl e ↦
          let apart : beq n name ≡ false = ground (arith, beq→eq n name) in
          list_entries-Adds path name rest files out (rw (list_entries, e) at h) (rw apart at m) d
      | inr e ↦
          let (more, e', g) =
            >>=-ok (files_of F list (join path n)) _ (rw (list_entries, e) at h) in
          elim (Bool-cases (beq n name)) [
            | inl i ↦ (
              more,
              subst (λ x. files_of F list (join path x) ≡ ok more) (beq→eq n name i) e',
              λ f k.
                  list_entries-IsWithin path rest (files ++ more) out g f
                    (ground (arith, elem-append f files more)),
            )
            | inr i ↦ list_entries-Adds path name rest (files ++ more) out g (rw i at m) d
          ]
    ]

    files_of_stat :
        (path : Bytes) {t : FileType}
        → stat path ≡ some t
        → files_of F list path ≡ elim (is_dir F t) [ true ↦ list path | false ↦ ok (path ∷ []) ]
    unfolding files_of
    files_of_stat path e = rw (is_directory_stat F path e) refl

    list_checked-Adds :
        (path name : Bytes) (b c : Bool) (out : List Bytes)
        → list_checked F list path c ≡ ok out
        → HasEntry F path name b
        → Adds path name out
    list_checked-Adds path name b true out h ((names, r, m), (d, _)) =
        list_entries-Adds path name names [] out (rw r at h) m d
    list_checked-Adds path name b false out h e = cc h

    file_Adds :
        (path name : Bytes) {more : List Bytes}
        → HasEntry F path name false
        → files_of F list (join path name) ≡ ok more
        → elem (join path name) more ≡ true
    file_Adds path name {more} (_, (_, (t, s, i))) m =
        let p : ok (join path name ∷ []) ≡ ok more =
          rw (files_of_stat (join path name) s, i) at m in
        let q : join path name ∷ [] ≡ more = cc p in
        subst (λ x. elem (join path name) x ≡ true) q (ground (arith, beq_refl (join path name)))

    directory_Adds :
        (path name : Bytes) {more : List Bytes}
        → HasEntry F path name true
        → files_of F list (join path name) ≡ ok more
        → list (join path name) ≡ ok more
    directory_Adds path name (_, (_, (t, s, i))) m = rw (files_of_stat (join path name) s, i) at m

  list_dir-checked :
      (depth : ℕ) (path : Bytes) {files : List Bytes}
      → list_dir F depth path ≡ ok files
      → (d : ℕ) × (depth ≡ suc d) × (b : Bool) × (list_checked F (list_dir F d) path b ≡ ok files)
  unfolding list_dir
  list_dir-checked zero path h = cc h
  list_dir-checked (suc d) path h =
      let (b, e, g) = >>=-ok (is_directory F path) (list_checked F (list_dir F d) path) h in
      (d, refl, b, g)

  Below-listed :
      (depth : ℕ) {path file : Bytes} {files : List Bytes}
      → list_dir F depth path ≡ ok files
      → Below F path file
      → elem file files ≡ true
  Below-listed depth {path} {files = files} h (here name e) =
      let (d, _, b, g) = list_dir-checked depth path h in
      let (more, m, w) = list_checked-Adds (list_dir F d) path name false b files g e in
      w (join path name) (file_Adds (list_dir F d) path name e m)
  Below-listed depth {path} {file} {files} h (inside name e below) =
      let (d, _, b, g) = list_dir-checked depth path h in
      let (more, m, w) = list_checked-Adds (list_dir F d) path name true b files g e in
      w file (Below-listed d (directory_Adds (list_dir F d) path name e m) below)

  -- The files that list_dir gives, if it returns a list, are those below the directory: the entries
  -- that are no directory, of it and of every directory below it but `.` and `..`.
  pub list_dir-Below :
      (depth : ℕ) (path : Bytes) {files : List Bytes}
      → list_dir F depth path ≡ ok files
      → (file : Bytes) → (elem file files ≡ true) ↔ Below F path file
  list_dir-Below depth path {files} h file =
      (list_dir-AllBelow F depth path files h file, Below-listed depth h)
