-- ===== src/Tests/Directory.antt =====
-- Directories that are listed, the factory of a directory, and the load of the module.
use redis_protobuf.Base.{
  ◌≡◌, ◌≢◌, ◌↔◌, refl, Bool, true, false, none, some, List, [], ◌∷◌, Bytes, codes, beq, elem,
  length, leb, arith, if◌then◌else◌,
}
use redis_protobuf.Errors.{ok, abort}
use redis_protobuf.Utils.Io.{FileSystem, regular, directory, list_dir}
use redis_protobuf.Utils.{str_case_equal, same_upper}
use redis_protobuf.Options.Accepted.{Names}
use redis_protobuf.ProtoFactory.Loader.{Importer}
use redis_protobuf.ProtoFactory.Factory.Imported.{ReadsOnly}
use redis_protobuf.ModuleEntry.{Host, on_load}
use redis_protobuf.ModuleEntry.Loaded.{IsSettled, on_load-IsSettled}
use redis_protobuf.Utils.Io.{list_entries, files_of, is_directory, file_type}
use redis_protobuf.Utils.Io.Listing.{Below}
use redis_protobuf.Utils.Io.Listing.Complete.{list_dir-Below}
use redis_protobuf.Utils.Io.Listing.Returns.{IsLimit, list_dir_returns}

-- A directory "d" with a file and a link to itself; a path has at most 11 bytes.
abbrev ends_in_self : Bytes → Bool
ends_in_self [] = false
ends_in_self (b ∷ s) = if beq (b ∷ s) (codes "self") then true else ends_in_self s

abbrev looping : FileSystem
looping = record {
  stat = λ p.
      if leb 12 (length p)
      then none
      else if beq p (codes "d")
      then some directory
      else if ends_in_self p
      then some directory
      else some regular;
  read_dir = λ p. some (codes "." ∷ codes ".." ∷ codes "a.proto" ∷ codes "self" ∷ []);
}

looping-IsLimit : IsLimit looping 12
looping-IsLimit path h = ground arith

list_dir_returns_example : list_dir looping 13 (codes "d") ≢ abort
list_dir_returns_example = list_dir_returns looping 12 (codes "d") looping-IsLimit

-- "d" with a file and a directory.
abbrev tree : FileSystem
tree = record {
  stat = λ p.
      if leb 30 (length p)
      then none
      else if beq p (codes "d")
      then some directory
      else if beq p (codes "d/sub")
      then some directory
      else some regular;
  read_dir = λ p.
      if beq p (codes "d")
      then some (codes "." ∷ codes ".." ∷ codes "sub" ∷ codes "a.proto" ∷ [])
      else if beq p (codes "d/sub")
      then some (codes ".." ∷ codes "b.proto" ∷ codes "notes" ∷ [])
      else none;
}

abbrev listed : List Bytes
listed = codes "d/sub/b.proto" ∷ codes "d/sub/notes" ∷ codes "d/a.proto" ∷ []

list_dir-tree : list_dir tree 3 (codes "d") ≡ ok listed
unfolding list_dir list_entries files_of is_directory file_type
list_dir-tree = refl

list_dir-Below_example :
    (elem (codes "d/sub/notes") listed ≡ true) ↔ Below tree (codes "d") (codes "d/sub/notes")
list_dir-Below_example = list_dir-Below tree 3 (codes "d") list_dir-tree (codes "d/sub/notes")

-- A file system with the tree, and an importer that accepts every file.
abbrev reader : Importer
reader = record {
  Disk = Unit;
  map_path = λ d p. d;
  dump = λ d f c. none;
  remove_file = λ d f. d;
  import_file = λ d f. (true, [], d);
}

abbrev look : Unit {0} → FileSystem
look d = tree

reader-ReadsOnly : ReadsOnly reader look
reader-ReadsOnly = (λ d file. refl, λ d dir. refl)

tree-IsLimit : IsLimit tree 30
tree-IsLimit path h = ground arith

-- the names of the commands that were created, the last one first
abbrev host : Host
host = record {
  State = List Bytes;
  init = λ s name version. some (name ∷ s);
  create_type = λ s name version. some (name ∷ s);
  create_command = λ s name c flags first last step. some (name ∷ s);
}

abbrev options : List Bytes
options = codes "--dir" ∷ codes "d/" ∷ []

options-Names : Names options (codes "d/")
unfolding str_case_equal same_upper
options-Names = (refl, refl)

on_load-IsSettled_example :
    IsSettled host reader look (codes "d/") [] tt (on_load host reader look 31 options [] tt)
on_load-IsSettled_example =
    on_load-IsSettled host reader look reader-ReadsOnly 30 (codes "d/") options [] tt tree-IsLimit
      (λ e. cc e) options-Names
