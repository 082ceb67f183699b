-- ===== src/Utils/Io/Listing.antt =====
-- utils.cpp: what list_dir lists, against a description of the files below a directory.
use redis_protobuf.Base.{
  ℕ, zero, suc, ◌+◌, ◌≤◌, ◌<◌, ◌≡◌, ◌≢◌, ◌↔◌, refl, sym, ◌∙◌, ap, Bool, true, false, ◌||◌, Option,
  none, some, List, [], ◌∷◌, ◌++◌, Bytes, beq, elem, elem-append, beq_refl, beq→eq, length,
  length-append, Bool-cases, Option-cases, inl, inr, ◌⊎◌, arith,
}
pub mod Complete
pub mod Returns
use mathlib.Core.Path.{subst}
use redis_protobuf.Errors.{not_a_directory, Outcome, ok, err, abort, ◌>>=◌, >>=-ok}
use redis_protobuf.Utils.Io.{
  FileSystem, FileType, directory, regular, special, is_dots, is_dir, join, mode_of, file_type,
  is_directory, files_of, list_entries, opened, list_checked, list_dir,
}

module _ (F : FileSystem) where
  open F use {stat, read_dir}

  -- `name` is an entry of the directory `path`, and whether it is a directory.
  abbrev pub HasEntry : Bytes → Bytes → Bool → Type 0
  HasEntry path name b =
      ((names : List Bytes) × (read_dir path ≡ some names) × (elem name names ≡ true))
      × ((is_dots name ≡ false)
          × ((t : FileType) × (stat (join path name) ≡ some t) × (is_dir F t ≡ b)))

  -- `file` is an entry of the directory that is no directory, or below an entry that is one.
  pub data Below : Bytes → Bytes → Type 0 where
    here : {path : Bytes} (name : Bytes) → HasEntry path name false → Below path (join path name)
    inside :
        {path file : Bytes} (name : Bytes)
        → HasEntry path name true
        → Below (join path name) file
        → Below path file

  pub is_directory-ok :
      (path : Bytes) {b : Bool}
      → is_directory F path ≡ ok b
      → (t : FileType) × (stat path ≡ some t) × (is_dir F t ≡ b)
  unfolding is_directory file_type
  is_directory-ok path h = elim (Option-cases (stat path)) [
    | inl e ↦ cc (rw e at h)
    | inr (t, e) ↦ (t, e, cc (rw e at h))
  ]

  pub is_directory_stat :
      (path : Bytes) {t : FileType} → stat path ≡ some t → is_directory F path ≡ ok (is_dir F t)
  unfolding is_directory file_type
  is_directory_stat path e = rw e refl

  -- All that a list of files holds is below `path`.
  abbrev pub AllBelow : Bytes → List Bytes → Type 0
  AllBelow path files = (f : Bytes) → elem f files ≡ true → Below path f

  elem_one : (f g : Bytes) → elem f (g ∷ []) ≡ true → g ≡ f
  elem_one f g h = elim (Bool-cases (beq g f)) [ inl e ↦ beq→eq g f e | inr e ↦ cc (rw e at h) ]

  one_AllBelow : (path g : Bytes) → Below path g → AllBelow path (g ∷ [])
  one_AllBelow path g b f h = subst (Below path) (elem_one f g h) b

  append-AllBelow :
      (path : Bytes) (s t : List Bytes) → AllBelow path s → AllBelow path t → AllBelow path (s ++ t)
  append-AllBelow path s t hs ht f h = elim (Bool-cases (elem f s)) [
    | inl e ↦ hs f e
    | inr e ↦ ht f (ground (arith, elem-append f s t))
  ]

  module _ (list : Bytes → Outcome (List Bytes)) where
    abbrev IsSound : Type 0
    IsSound = (p : Bytes) (fs : List Bytes) → list p ≡ ok fs → AllBelow p fs

    added :
        (path name : Bytes) (b : Bool) {more : List Bytes}
        → IsSound
        → HasEntry path name b
        → elim b [ true ↦ list (join path name) | false ↦ ok (join path name ∷ []) ] ≡ ok more
        → AllBelow path more
    added path name true {more} sound e h = λ f k. inside name e (sound (join path name) more h f k)
    added path name false {more} sound e h =
        let p : join path name ∷ [] ≡ more = cc h in
        subst (AllBelow path) p (one_AllBelow path _ (here name e))

    files_of-AllBelow :
        (path name : Bytes) {names more : List Bytes}
        → IsSound
        → read_dir path ≡ some names
        → elem name names ≡ true
        → is_dots name ≡ false
        → files_of F list (join path name) ≡ ok more
        → AllBelow path more
    unfolding files_of
    files_of-AllBelow path name {names} sound r m d h =
        let (b, e, g) = >>=-ok (is_directory F (join path name)) _ h in
        added path name b sound ((names, r, m), (d, is_directory-ok (join path name) e)) g

    list_entries-AllBelow :
        (path : Bytes) (rest : List Bytes) (files : List Bytes) {names out : List Bytes}
        → IsSound
        → read_dir path ≡ some names
        → ((n : Bytes) → elem n rest ≡ true → elem n names ≡ true)
        → AllBelow path files
        → list_entries F list path rest files ≡ ok out
        → AllBelow path out
    unfolding list_entries
    list_entries-AllBelow path [] files {out = out} sound r m b h =
        let p : files ≡ out = cc h in subst (AllBelow path) p b
    list_entries-AllBelow path (n ∷ rest) files sound r m b h = elim (Bool-cases (is_dots n)) [
      | inl e ↦
          list_entries-AllBelow path rest files sound r (λ k i. m k (ground arith)) b
            (rw (list_entries, e) at h)
      | inr e ↦
          let (more, e', g) =
            >>=-ok (files_of F list (join path n)) _ (rw (list_entries, e) at h) in
          list_entries-AllBelow path rest (files ++ more) sound r (λ k i. m k (ground arith))
            (append-AllBelow path files more b
              (files_of-AllBelow path n sound r (m n (ground (arith, beq_refl n))) e e'))
            g
    ]

    opened-AllBelow :
        (path : Bytes) (o : Option (List Bytes)) {out : List Bytes}
        → IsSound
        → read_dir path ≡ o
        → opened F list path o ≡ ok out
        → AllBelow path out
    opened-AllBelow path none sound r h = cc h
    opened-AllBelow path (some names) sound r h =
        list_entries-AllBelow path names [] sound r (λ _ m. m) (λ f k. cc k) h

    list_checked-AllBelow :
        (path : Bytes) (b : Bool) {out : List Bytes}
        → IsSound
        → list_checked F list path b ≡ ok out
        → AllBelow path out
    list_checked-AllBelow path true sound h = opened-AllBelow path (read_dir path) sound refl h
    list_checked-AllBelow path false sound h = cc h

  pub list_dir-AllBelow :
      (depth : ℕ) (path : Bytes) (files : List Bytes)
      → list_dir F depth path ≡ ok files
      → AllBelow path files
  unfolding list_dir
  list_dir-AllBelow zero path files h = cc h
  list_dir-AllBelow (suc depth) path files h =
      let (b, e, g) = >>=-ok (is_directory F path) (list_checked F (list_dir F depth) path) h in
      list_checked-AllBelow (list_dir F depth) path b (list_dir-AllBelow depth) g
