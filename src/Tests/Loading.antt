-- ===== src/Tests/Loading.antt =====
-- The loader with a directory that is a list, and an importer that accepts every file but the empty one.
use redis_protobuf.Base.{
  All, negsuc, pos, sym, true, inr, ◌∙◌, beq→eq, ap, Bool-cases, Option, ◌++◌, not, ◌≡◌, refl, inl,
  [], ◌∷◌, List, Bytes, codes, none, some, is_empty, beq, if◌then◌else◌,
}
use redis_protobuf.Errors.{Outcome, ok, err, already_imported}
use redis_protobuf.ProtoFactory.Loader.{
  has, put_all, publish, take_results, request, done, report, Importer, Loader, add_task,
  take_tasks, load_file, load_task, put, Runs, here, next, take, load,
}
use redis_protobuf.ProtoFactory.Loader.Kept.{IsKnown, Survives, Runs-Survives}
use redis_protobuf.ProtoFactory.Collector.{add_error, to_string, warning}
use redis_protobuf.ProtoFactory.Loader.Drain.{IsIdle, drain, drain_reports}
use redis_protobuf.ProtoFactory.Cache.Refines.{
  Event, lookup, import_types, run, replay, descriptor-Refines,
}
use redis_protobuf.ProtoFactory.Loader.Told.{IsHonest, Runs-IsTold}
use redis_protobuf.ProtoFactory.Loader.Once.{load_file_once}

abbrev pub content : Bytes → List (Bytes × Bytes) → Bytes
content f [] = []
content f ((g, c) ∷ fs) = if beq g f then c else content f fs

abbrev without : Bytes → List (Bytes × Bytes) → List (Bytes × Bytes)
without f [] = []
without f ((g, c) ∷ fs) = if beq g f then without f fs else (g, c) ∷ without f fs

abbrev pub importer : Importer
importer = record {
  Disk = List (Bytes × Bytes);
  map_path = λ d p. d;
  dump = λ d f c. some ((f, c) ∷ d);
  remove_file = λ d f. without f d;
  import_file = λ d f. (not (is_empty (content (codes "d/" ++ f) d)), [], d);
}

abbrev pub idle : Loader (List (Bytes × Bytes))
idle = record {
  proto_dir = codes "d";
  tasks = [];
  last_loaded = [];
  loaded_files = [];
  batch = [];
  status = [];
  disk = [];
}

abbrev file : Bytes
file = codes "a.proto"

abbrev pub asked : Loader (List (Bytes × Bytes))
asked = add_task importer file (codes "message A {}") idle

asked-IsKnown : IsKnown importer file asked
unfolding add_task put
asked-IsKnown = inl refl

batch_taken : (take_tasks importer asked).batch ≡ (file, codes "message A {}") ∷ []
unfolding add_task put take_tasks
batch_taken = refl

two_steps :
    Runs importer asked []
      (load_task importer file (codes "message A {}") [] (take_tasks importer asked))
unfolding add_task
two_steps =
    next (next (here asked) (take asked refl refl))
      (load (take_tasks importer asked) file (codes "message A {}") [] batch_taken)

Runs-Survives_example :
    Survives importer file
      (load_task importer file (codes "message A {}") [] (take_tasks importer asked))
      []
Runs-Survives_example = Runs-Survives importer file two_steps asked-IsKnown

loads : (load_file importer file (codes "message A {}") idle).0 ≡ ok tt
unfolding load_file
loads = refl

abbrev loaded : Loader (List (Bytes × Bytes))
loaded = (load_file importer file (codes "message A {}") idle).1

load_file_once_example :
    load_file importer file (codes "x") (add_task importer (codes "b.proto") [] loaded)
    ≡ (err already_imported, add_task importer (codes "b.proto") [] loaded)
load_file_once_example =
    load_file_once importer file (codes "message A {}") (codes "x") idle loads
      (next (here loaded) (request loaded (codes "b.proto") []))

-- The text of a warning.
warning_text :
    add_error (record {
      severity = warning;
      file_name = codes "a.proto";
      line = pos 17;
      column = negsuc 0;
      message = codes "m";
    })
    ≡ codes "warning:a.proto:17:-1:m"
unfolding add_error to_string
warning_text = refl

two_rounds_reported :
    Runs importer asked [] (drain importer asked)
    × (IsIdle importer (drain importer asked)
        × ((f : Bytes)
            → IsKnown importer f asked
            → has f (drain importer asked).last_loaded ≡ true))
two_rounds_reported = drain_reports importer asked

-- A pool that is the list of its types.
abbrev find_type : List Bytes → Bytes → Option Bytes
find_type [] type = none
find_type (t ∷ pool) type = if beq t type then some t else find_type pool type

abbrev events : List (Event (List Bytes))
events =
    lookup (codes "B")
    ∷ lookup (codes "A")
    ∷ import_types (codes "B" ∷ codes "A" ∷ [])
    ∷ lookup (codes "B")
    ∷ lookup (codes "A")
    ∷ []

find_type_sound :
    (type desc : Bytes) (pool : List Bytes) → find_type pool type ≡ some desc → type ≡ desc
find_type_sound type desc [] h = cc h
find_type_sound type desc (t ∷ pool) h = elim (Bool-cases (beq t type)) [
  | inl e ↦ let p : t ≡ desc = cc (rw e at h) in sym (beq→eq t type e) ∙ p
  | inr e ↦ find_type_sound type desc pool (rw e at h)
]

find_type-cons :
    (t type desc : Bytes) (pool : List Bytes)
    → find_type pool type ≡ some desc
    → find_type (t ∷ pool) type ≡ some desc
find_type-cons t type desc pool h = elim (Bool-cases (beq t type)) [
  | inl e ↦ rw e (ap some (beq→eq t type e) ∙ ap some (find_type_sound type desc pool h))
  | inr e ↦ rw e h
]

descriptor-Refines_example :
    run find_type events (codes "A" ∷ []) [] ≡ replay find_type events (codes "A" ∷ [])
descriptor-Refines_example =
    descriptor-Refines find_type events (codes "A" ∷ [])
      ((λ type desc h. find_type-cons (codes "B") type desc (codes "A" ∷ []) h), tt)

abbrev published : Loader (List (Bytes × Bytes))
published =
    publish importer (load_task importer file (codes "message A {}") [] (take_tasks importer asked))

-- A file is asked for, loaded and reported.
reported : Runs importer asked ((file, ok tt) ∷ []) (take_results importer published).1
unfolding load_task load_file publish take_results put put_all take_tasks add_task
reported = next (next two_steps (done _ refl)) (report published)

asked-IsHonest : IsHonest importer asked
unfolding add_task
asked-IsHonest = (tt, tt)

Runs-IsTold_example :
    All
      (λ (e : Bytes × Outcome (Unit {0})).
        e.1 ≡ ok tt
        → (d : Bytes)
        → load_file importer e.0 d (take_results importer published).1
          ≡ (err already_imported, (take_results importer published).1))
      ((file, ok tt) ∷ [])
    × IsHonest importer (take_results importer published).1
Runs-IsTold_example = Runs-IsTold importer reported asked-IsHonest
