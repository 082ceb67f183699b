-- ===== src/Utils/Io/Listing/Returns.antt =====
-- utils.cpp: list_dir returns.
use redis_protobuf.Base.{
  ℕ, zero, suc, ◌+◌, ◌≤◌, ◌≡◌, ◌≢◌, refl, Bool, true, false, none, List, [], ◌∷◌, ◌++◌, Bytes,
  codes, length, length-append, Bool-cases, Option-cases, inl, inr, arith,
}
use redis_protobuf.Errors.{Outcome, ok, err, abort, ◌>>=◌}
use redis_protobuf.Utils.Io.{
  FileSystem, is_dots, join, is_directory, file_type, files_of, list_entries, list_checked,
  list_dir,
}

module _ (F : FileSystem) where
  open F use {stat, read_dir}

  >>=-Returns :
      {A B : Type 0} (o : Outcome A) (g : A → Outcome B)
      → o ≢ abort
      → ((a : A) → o ≡ ok a → g a ≢ abort)
      → o >>= g ≢ abort
  >>=-Returns (ok a) g h k = k a refl
  >>=-Returns (err e) g h k = λ p. cc p
  >>=-Returns abort g h k = λ _. h refl

  is_directory-Returns : (path : Bytes) → is_directory F path ≢ abort
  unfolding is_directory file_type
  is_directory-Returns path = elim (Option-cases (stat path)) [
    | inl e ↦ rw e (λ p. cc p)
    | inr (t, e) ↦ rw e (λ p. cc p)
  ]

  module _ (list : Bytes → Outcome (List Bytes)) (path : Bytes) where
    -- The calls for the entries of the directory return.
    abbrev AllReturn : Type 0
    AllReturn = (name : Bytes) → list (join path name) ≢ abort

    files_of-Returns : (p : Bytes) → list p ≢ abort → files_of F list p ≢ abort
    unfolding files_of
    files_of-Returns p h = >>=-Returns (is_directory F p) _ (is_directory-Returns p) (λ b _. go b)
      where
        go : (b : Bool) → elim b [ true ↦ list p | false ↦ ok (p ∷ []) ] ≢ abort
        go true = h
        go false = λ e. cc e

    list_entries-Returns :
        (names files : List Bytes) → AllReturn → list_entries F list path names files ≢ abort
    unfolding list_entries
    list_entries-Returns [] files h = λ e. cc e
    list_entries-Returns (n ∷ names) files h = elim (Bool-cases (is_dots n)) [
      | inl e ↦ rw (list_entries, e) (list_entries-Returns names files h)
      | inr e ↦
          rw (list_entries, e)
            (>>=-Returns (files_of F list (join path n)) _ (files_of-Returns (join path n) (h n))
              (λ more _. list_entries-Returns names (files ++ more) h))
    ]

    list_checked-Returns : (b : Bool) → AllReturn → list_checked F list path b ≢ abort
    list_checked-Returns true h = elim (Option-cases (read_dir path)) [
      | inl e ↦ rw e (λ p. cc p)
      | inr (names, e) ↦ rw e (list_entries-Returns names [] h)
    ]
    list_checked-Returns false h = λ e. cc e

  -- The path of an entry is longer.
  length-join : (path name : Bytes) → suc (length path) ≤ length (join path name)
  length-join path name =
      let e : length (join path name) ≡ length (path ++ codes "/") + length name =
        length-append (path ++ codes "/") name in
      let e' : length (path ++ codes "/") ≡ length path + 1 = length-append path (codes "/") in
      omega (arith, e, e')

  -- A path has a greatest length: PATH_MAX, which stat refuses.
  abbrev pub IsLimit : ℕ → Type 0
  IsLimit limit = (path : Bytes) → limit ≤ length path → stat path ≡ none

  too_long-Returns :
      (list : Bytes → Outcome (List Bytes)) (path : Bytes)
      → stat path ≡ none
      → is_directory F path >>= list_checked F list path ≢ abort
  unfolding is_directory file_type
  too_long-Returns list path e = rw e (λ p. cc p)

  list_dir-bounded :
      (limit depth : ℕ) (path : Bytes)
      → IsLimit limit
      → limit ≤ depth + length path
      → list_dir F (suc depth) path ≢ abort
  unfolding list_dir
  list_dir-bounded limit zero path l h =
      too_long-Returns (list_dir F zero) path (l path (omega (arith, h)))
  list_dir-bounded limit (suc depth) path l h =
      >>=-Returns (is_directory F path) (list_checked F (list_dir F (suc depth)) path)
        (is_directory-Returns path)
        (λ b _. list_checked-Returns (list_dir F (suc depth)) path b (λ name.
          list_dir-bounded limit depth (join path name) l (omega (arith, length-join path name))))

  -- If stat fails for every path of `limit` characters or more, as it does from PATH_MAX on, then
  -- list_dir ends with a list or an error on every path, links that lead back to a directory above
  -- included, and calls itself at most `limit` deep.
  pub list_dir_returns :
      (limit : ℕ) (path : Bytes) → IsLimit limit → list_dir F (suc limit) path ≢ abort
  list_dir_returns limit path l = list_dir-bounded limit limit path l (omega arith)
