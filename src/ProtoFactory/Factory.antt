-- ===== src/ProtoFactory/Factory.antt =====
-- proto_factory.cpp: the constructor of ProtoFactory, which imports the files of the proto directory.
pub mod Directory
pub mod Paths
pub mod Imported
pub mod Constructed
use redis_protobuf.Base.{
  ℕ, zero, suc, ◌+◌, ◌≡◌, refl, Bool, true, false, not, ◌||◌, List, [], ◌∷◌, Bytes, codes, beq,
  is_empty, length, substr, ltb, if◌then◌else◌,
}
use redis_protobuf.Errors
use redis_protobuf.Errors.{Outcome, ok, err, abort, invalid_proto_dir}
use redis_protobuf.Exec.{Exec, pure, continue, ◌>>◌}
use redis_protobuf.Utils.Io.{FileSystem, is_regular, extension, list_dir}
use redis_protobuf.ProtoFactory.{ends_with}
use redis_protobuf.ProtoFactory.Loader.{Importer, Loader, load_existing}

-- `resize(size() - 1)`
abbrev pub drop_last : Bytes → Bytes
drop_last [] = []
drop_last (b ∷ []) = []
drop_last (b ∷ c ∷ s) = b ∷ drop_last (c ∷ s)

-- The loop of _canonicalize_path: no more rounds than bytes.
unfoldable pub strip_slashes : ℕ → Bytes → Bytes
strip_slashes zero dir = dir
strip_slashes (suc rounds) dir =
    let rest = strip_slashes rounds (drop_last dir) in if ends_with b'/' dir then rest else dir

abbrev pub not_empty : Bytes → Outcome Bytes
not_empty [] = err invalid_proto_dir
not_empty (b ∷ dir) = ok (b ∷ dir)

-- _canonicalize_path
unfoldable pub canonicalize_path : Bytes → Outcome Bytes
unfolding strip_slashes
canonicalize_path dir = not_empty (strip_slashes (length dir) dir)

-- `look` is the file system as the calls of io find it.
module _ (I : Importer) (look : I.Disk → FileSystem) where
  open I use {Disk, map_path}

  -- the body of the loop of _load_protos, behind is_regular
  abbrev pub load_chosen : Bytes → Bytes → Bool → Exec (Loader Disk) (Unit {0})
  load_chosen dir file is_reg =
      if not is_reg || not (beq (extension file) (codes "proto"))
      then pure tt
      else if ltb (length file) (length dir + 1)
      then pure tt
      else load_existing I (substr file (length dir + 1))

  -- the body of the loop of _load_protos
  unfoldable pub load_proto : Bytes → Bytes → Exec (Loader Disk) (Unit {0})
  load_proto dir file s = continue (is_regular (look s.disk) file) (load_chosen dir file) s

  unfoldable pub load_all : Bytes → List Bytes → Exec (Loader Disk) (Unit {0})
  load_all dir [] = pure tt
  load_all dir (file ∷ files) = load_proto dir file >> load_all dir files

  -- _load_protos
  unfoldable pub load_protos : ℕ → Bytes → Exec (Loader Disk) (Unit {0})
  load_protos depth dir s = continue (list_dir (look s.disk) depth dir) (load_all dir) s

  abbrev pub new_loader : Bytes → Disk → Loader Disk
  new_loader dir d = record {
    proto_dir = dir;
    tasks = [];
    last_loaded = [];
    loaded_files = [];
    batch = [];
    status = [];
    disk = map_path d dir;
  }

  abbrev pub constructed : Outcome (Unit {0}) × Loader Disk → Outcome (Loader Disk)
  constructed (o, s) = Errors.map_ok (λ _. s) o

  -- the constructor
  unfoldable pub create_factory : ℕ → Bytes → Disk → Outcome (Loader Disk)
  unfolding canonicalize_path load_protos
  create_factory depth proto_dir d =
      Errors.◌>>=◌ (canonicalize_path proto_dir)
        (λ dir. constructed (load_protos depth dir (new_loader dir d)))
