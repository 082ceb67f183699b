-- ===== src/Utils/Io.antt =====
-- utils.cpp: the namespace io, and file_type. The file system is a parameter, at the moment of the call.
pub mod Listing
use redis_protobuf.Base.{
  ℕ, zero, suc, ◌+◌, ◌≡◌, refl, Bool, true, false, ◌||◌, Option, none, some, List, [], ◌∷◌, ◌++◌,
  Bytes, codes, beq, substr, ◌==◌, if◌then◌else◌,
}
use redis_protobuf.Errors.{
  Outcome, ok, err, abort, ◌>>=◌, not_a_directory, open_dir_failed, status_failed,
}

-- st_mode, as S_ISREG and S_ISDIR read it
pub data FileType : Type 0 where
  regular directory special : FileType

-- stat, which follows links, and `none` if it fails; opendir with the entries that readdir gives, and
-- `none` if it does not open.
pub record FileSystem : Type 0 where
  pub stat : Bytes → Option FileType
  pub read_dir : Bytes → Option (List Bytes)

-- std::string::rfind of a character
unfoldable pub rfind : ℕ → Bytes → Option ℕ
rfind b [] = none
rfind b (c ∷ s) = elim (rfind b s) [
  | some i ↦ some (suc i)
  | none ↦ if c == b then some 0 else none
]

abbrev pub behind : Bytes → Option ℕ → Bytes
behind file none = []
behind file (some pos) = substr file (pos + 1)

-- extension
unfoldable pub extension : Bytes → Bytes
unfolding rfind
extension file = behind file (rfind b'.' file)

-- `name == "." || name == ".."`
abbrev pub is_dots : Bytes → Bool
is_dots name = beq name (codes ".") || beq name (codes "..")

-- `path + "/" + name`
abbrev pub join : Bytes → Bytes → Bytes
join path name = path ++ codes "/" ++ name

module _ (F : FileSystem) where
  open F use {stat, read_dir}

  abbrev pub mode_of : Bytes → Option FileType → Outcome FileType
  mode_of file none = err (status_failed file)
  mode_of file (some t) = ok t

  -- file_type
  unfoldable pub file_type : Bytes → Outcome FileType
  file_type file = mode_of file (stat file)

  abbrev pub is_reg : FileType → Bool
  is_reg regular = true
  is_reg _ = false

  abbrev pub is_dir : FileType → Bool
  is_dir directory = true
  is_dir _ = false

  -- is_regular
  unfoldable pub is_regular : Bytes → Outcome Bool
  unfolding file_type
  is_regular file = file_type file >>= λ t. ok (is_reg t)

  -- is_directory
  unfoldable pub is_directory : Bytes → Outcome Bool
  unfolding file_type
  is_directory file = file_type file >>= λ t. ok (is_dir t)

  -- The files that an entry adds; `list` is the call of list_dir for a directory.
  unfoldable pub files_of : (Bytes → Outcome (List Bytes)) → Bytes → Outcome (List Bytes)
  unfolding is_directory
  files_of list file_path =
      is_directory file_path >>= λ d. elim d [ true ↦ list file_path | false ↦ ok (file_path ∷ []) ]

  -- the loop of list_dir over the entries, with the files so far
  unfoldable pub list_entries :
      (Bytes → Outcome (List Bytes)) → Bytes → List Bytes → List Bytes → Outcome (List Bytes)
  list_entries list path [] files = ok files
  list_entries list path (name ∷ names) files = elim (is_dots name) [
    | true ↦ list_entries list path names files
    | false ↦
        files_of list (join path name) >>= λ more. list_entries list path names (files ++ more)
  ]

  abbrev pub opened :
      (Bytes → Outcome (List Bytes)) → Bytes → Option (List Bytes) → Outcome (List Bytes)
  opened list path none = err (open_dir_failed path)
  opened list path (some names) = list_entries list path names []

  -- behind the test of is_directory
  abbrev pub list_checked : (Bytes → Outcome (List Bytes)) → Bytes → Bool → Outcome (List Bytes)
  list_checked list path true = opened list path (read_dir path)
  list_checked list path false = err (not_a_directory path)

  -- list_dir, on a stack that has room for so many calls
  unfoldable pub list_dir : ℕ → Bytes → Outcome (List Bytes)
  unfolding is_directory
  list_dir zero path = abort
  list_dir (suc depth) path = is_directory path >>= list_checked (list_dir depth) path
