-- ===== src/Command/Import.antt =====
-- import_command.cpp and last_import_command.cpp: the commands that hand files to the loader of the
-- factory and fetch its results.
pub mod Reports
use redis_protobuf.Base.{ℕ, zero, suc, Option, List, [], ◌∷◌, ◌++◌, Bytes, codes, length}
use redis_protobuf.Errors.{
  Error, Outcome, ok, err, abort, wrong_arity, already_imported, open_failed, load_failed,
}
use redis_protobuf.Exec.{Exec, lift, modify, ◌>>=◌, ◌>>◌}
use redis_protobuf.ModuleApi.{
  World, Reply, simple_string, bulk_string, array, reply, replicate_verbatim, answered,
}
use redis_protobuf.ProtoFactory.Loader.{Importer, Loader, add_task, take_results}

-- The state that the commands share: the keyspace and what Redis is told, and the factory.
pub record Server (Keys Disk : Type 0) : Type 0 where
  pub world : World Keys
  pub loader : Loader Disk

module _ {Keys Disk A : Type 0} where
  abbrev pub on_world : Exec (World Keys) A → Exec (Server Keys Disk) A
  on_world m s = ((m s.world).0, record s { world = (m s.world).1 })

-- ImportCommand::_parse_args
unfoldable pub parse_args : List Bytes → Outcome (Bytes × Bytes)
parse_args (name ∷ filename ∷ content ∷ []) = ok (filename, content)
parse_args _ = err wrong_arity

-- The text of an error, of those that the loader throws.
abbrev pub what : Error → Bytes
what already_imported = codes "already imported"
what (open_failed path) = codes "failed to open proto file for writing: " ++ path
what (load_failed file errors) = codes "failed to load " ++ file ++ codes "\n" ++ errors
what _ = []

-- the result of a file, as the loader publishes it
abbrev pub status_text : Outcome (Unit {0}) → Bytes
status_text (ok u) = codes "OK"
status_text (err e) = codes "ERR " ++ what e
status_text abort = []

module _ {Keys : Type 0} where
  -- the loop of LastImportCommand::run
  abbrev pub reply_results : List (Bytes × Outcome (Unit {0})) → Exec (World Keys) (Unit {0})
  reply_results [] = modify (λ w. w)
  reply_results ((filename, status) ∷ results) =
      reply (array 2)
      >> reply (bulk_string filename)
      >> reply (bulk_string (status_text status))
      >> reply_results results

module _ (I : Importer) {Keys : Type 0} where
  open I use {Disk}

  abbrev pub load : Bytes × Bytes → Exec (Server Keys Disk) (Unit {0})
  load (filename, content) =
      modify (λ s. record s { loader = add_task I filename content s.loader })

  -- the try block of ImportCommand::run
  unfoldable pub try_import : List Bytes → Exec (Server Keys Disk) (Unit {0})
  unfolding parse_args
  try_import argv = lift (parse_args argv) >>= λ args.
      load args >> on_world replicate_verbatim >> on_world (reply (simple_string (codes "OK")))

  -- ImportCommand::run
  unfoldable pub run_import : List Bytes → Exec (Server Keys Disk) (Unit {0})
  unfolding try_import
  run_import argv s = on_world (answered (try_import argv s).0) (try_import argv s).1

  -- LastImportCommand::run
  unfoldable pub run_last_import : List Bytes → Exec (Server Keys Disk) (Unit {0})
  run_last_import argv s =
      let r = take_results I s.loader in
      on_world (reply (array (length r.0)) >> reply_results r.0) (record s { loader = r.1 })
