-- ===== src/ProtoFactory/Loader.antt =====
-- proto_factory.cpp: the loader of .proto files. Clients add tasks and take the results of the files that
-- were loaded last; the thread takes the tasks, loads one file after the other, and publishes the results.
-- A section under the mutex is one step. An unordered_map is the list of its entries, in the order in
-- which a loop goes through them.
pub mod Kept
pub mod Once
pub mod Drain
pub mod Told
use redis_protobuf.Base.{
  elem, ◌≡◌, refl, Bool, true, false, ◌&&◌, not, codes, ◌||◌, Option, none, some, List, [], ◌∷◌,
  ◌++◌, Bytes, beq, is_empty, if◌then◌else◌,
}
use redis_protobuf.ProtoFactory.Collector.{Issue, has_error, last_errors}
use redis_protobuf.Errors.{Outcome, ok, err, abort, already_imported, open_failed, load_failed}

module _ {A : Type 0} where
  -- whether an unordered_map has a key
  abbrev pub has : Bytes → List (Bytes × A) → Bool
  has k [] = false
  has k ((j, v) ∷ m) = if beq j k then true else has k m

  -- `m[k] = v`
  unfoldable pub put : Bytes → A → List (Bytes × A) → List (Bytes × A)
  put k v [] = (k, v) ∷ []
  put k v ((j, u) ∷ m) = if beq j k then (j, v) ∷ m else (j, u) ∷ put k v m

  -- the loop that writes the status of each file of a batch
  unfoldable pub put_all : List (Bytes × A) → List (Bytes × A) → List (Bytes × A)
  put_all [] m = m
  put_all ((k, v) ∷ s) m = put_all s (put k v m)

-- The file system and protobuf's importer: a write to a file (`none` if it does not open), a removal, and
-- an import, with whether it gave a descriptor, and what it reported; `_source_tree.MapPath("", dir)`.
pub record Importer : Type 1 where
  pub Disk : Type 0
  pub map_path : Disk → Bytes → Disk
  pub dump : Disk → Bytes → Bytes → Option Disk
  pub remove_file : Disk → Bytes → Disk
  pub import_file : Disk → Bytes → Bool × List Issue × Disk

-- `_tasks`, `_last_loaded_files` and `_loaded_files`, and of the thread the tasks that it has still to load
-- and the results not yet published; `_proto_dir`. The result of a file is "OK" or the error.
pub record Loader (Disk : Type 0) : Type 0 where
  pub proto_dir : Bytes
  pub tasks : List (Bytes × Bytes)
  pub last_loaded : List (Bytes × Outcome (Unit {0}))
  pub loaded_files : List Bytes
  pub batch : List (Bytes × Bytes)
  pub status : List (Bytes × Outcome (Unit {0}))
  pub disk : Disk

module _ (I : Importer) where
  open I use {Disk, dump, remove_file, import_file}

  -- load(filename, content), which PB.IMPORT calls
  unfoldable pub add_task : Bytes → Bytes → Loader Disk → Loader Disk
  add_task f c s = record s { tasks = put f c s.tasks }

  -- `tasks.swap(_tasks)`
  unfoldable pub take_tasks : Loader Disk → Loader Disk
  take_tasks s = record s { tasks = []; batch = s.tasks }

  -- _load(file) behind the import: a warning is an error too
  abbrev pub imported :
      Bytes → Loader Disk → Bool × List Issue × Disk → Outcome (Unit {0}) × Loader Disk
  imported f s (found, issues, d) =
      if found && not (has_error issues)
      then (ok tt, record s { loaded_files = f ∷ s.loaded_files; disk = d })
      else (err (load_failed f (last_errors issues)), record s { disk = d })

  -- _load(file)
  unfoldable pub load_existing : Bytes → Loader Disk → Outcome (Unit {0}) × Loader Disk
  load_existing f s = imported f s (import_file s.disk f)

  -- _absolute_path
  abbrev pub absolute_path : Bytes → Bytes → Bytes
  absolute_path dir path = dir ++ codes "/" ++ path

  -- The handler of _load(filename, content): the file is removed.
  abbrev pub undone : Bytes → Outcome (Unit {0}) × Loader Disk → Outcome (Unit {0}) × Loader Disk
  undone f (ok u, s) = (ok u, s)
  undone f (err e, s) =
      (err e, record s { disk = remove_file s.disk (absolute_path s.proto_dir f) })
  undone f (abort, s) = (abort, s)

  -- behind _dump_to_disk
  abbrev pub dumped : Bytes → Loader Disk → Option Disk → Outcome (Unit {0}) × Loader Disk
  dumped f s none = (err (open_failed (absolute_path s.proto_dir f)), s)
  dumped f s (some d) = undone f (load_existing f (record s { disk = d }))

  -- _load(filename, content)
  unfoldable pub load_file : Bytes → Bytes → Loader Disk → Outcome (Unit {0}) × Loader Disk
  unfolding load_existing
  load_file f c s =
      if elem f s.loaded_files
      then (err already_imported, s)
      else dumped f s (dump s.disk (absolute_path s.proto_dir f) c)

  -- One round of the loop over the tasks of a batch.
  unfoldable pub load_task : Bytes → Bytes → List (Bytes × Bytes) → Loader Disk → Loader Disk
  unfolding load_file
  load_task f c rest s =
      let r = load_file f c s in record r.1 { batch = rest; status = put f r.0 s.status }

  -- the second section under the mutex of _async_load
  unfoldable pub publish : Loader Disk → Loader Disk
  publish s = record s { status = []; last_loaded = put_all s.status s.last_loaded }

  -- last_loaded(), which PB.LASTIMPORT calls: the results, and the state without them
  unfoldable pub take_results : Loader Disk → List (Bytes × Outcome (Unit {0})) × Loader Disk
  take_results s = (s.last_loaded, record s { last_loaded = [] })

  -- The steps of the clients and of the thread; the index is the results that a client is given.
  pub data Step : Loader Disk → List (Bytes × Outcome (Unit {0})) → Loader Disk → Type 0 where
    request : (s : Loader Disk) (f c : Bytes) → Step s [] (add_task f c s)
    take : (s : Loader Disk) → s.batch ≡ [] → s.status ≡ [] → Step s [] (take_tasks s)
    load :
        (s : Loader Disk) (f c : Bytes) (rest : List (Bytes × Bytes))
        → s.batch ≡ (f, c) ∷ rest
        → Step s [] (load_task f c rest s)
    done : (s : Loader Disk) → s.batch ≡ [] → Step s [] (publish s)
    report : (s : Loader Disk) → Step s (take_results s).0 (take_results s).1

  -- Steps in a row, with all the results that clients are given.
  pub data Runs : Loader Disk → List (Bytes × Outcome (Unit {0})) → Loader Disk → Type 0 where
    here : (s : Loader Disk) → Runs s [] s
    next :
        {s t u : Loader Disk} {seen new : List (Bytes × Outcome (Unit {0}))}
        → Runs s seen t
        → Step t new u
        → Runs s (seen ++ new) u
