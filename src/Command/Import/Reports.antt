-- ===== src/Command/Import/Reports.antt =====
-- import_command.cpp and last_import_command.cpp: a file from PB.IMPORT to PB.LASTIMPORT.
use redis_protobuf.Base.{
  ℕ, suc, ◌+◌, ◌≡◌, refl, sym, ◌∙◌, ap, true, false, Bool-cases, inl, inr, some, List, [], ◌∷◌,
  ◌++◌, append_assoc, append-nil, Bytes, codes, length, beq, beq→eq, arith,
}
use redis_protobuf.Errors.{Outcome, ok}
use redis_protobuf.ModuleApi.{World, Reply, simple_string, bulk_string, array}
use redis_protobuf.Command.Answers.{owed}
use redis_protobuf.ProtoFactory.Loader.{Importer, add_task, take_results, has}
use redis_protobuf.ProtoFactory.Loader.Kept.{IsKnown, has-put_self}
use redis_protobuf.ProtoFactory.Loader.Drain.{drain, drain_reports}
use redis_protobuf.Command.Import.{
  Server, status_text, reply_results, run_import, run_last_import, try_import, parse_args,
}

-- What a client is told of the results.
abbrev pub rows : List (Bytes × Outcome (Unit {0})) → List Reply
rows [] = []
rows ((filename, status) ∷ results) =
    array 2 ∷ bulk_string filename ∷ bulk_string (status_text status) ∷ rows results

module _ {Keys : Type 0} where
  reply_results_lem :
      (results : List (Bytes × Outcome (Unit {0}))) (w : World Keys)
      → reply_results results w ≡ (ok tt, record w { replies = w.replies ++ rows results })
  reply_results_lem [] w = sym (ap (λ x. (ok tt, record w { replies = x })) (append-nil w.replies))
  reply_results_lem ((f, o) ∷ results) w =
      let file = bulk_string f in
      let status = bulk_string (status_text o) in
      let sent = w.replies ++ array 2 ∷ [] in
      reply_results_lem results (record w { replies = sent ++ file ∷ [] ++ status ∷ [] })
      ∙ ap (λ x. (ok tt, record w { replies = x }))
          (append_assoc (sent ++ file ∷ []) (status ∷ []) (rows results)
            ∙ append_assoc sent (file ∷ []) (status ∷ rows results)
            ∙ append_assoc w.replies (array 2 ∷ []) (file ∷ status ∷ rows results))

-- The file with its status is among the replies.
abbrev pub IsReported : Bytes → List Reply → Type 0
IsReported f replies =
    (status : Outcome (Unit {0})) × (before : List Reply) × (after : List Reply) × (replies
      ≡ before ++ (array 2 ∷ bulk_string f ∷ bulk_string (status_text status) ∷ after))

has-IsReported :
    (f : Bytes) (results : List (Bytes × Outcome (Unit {0})))
    → has f results ≡ true
    → IsReported f (rows results)
has-IsReported f [] h = cc h
has-IsReported f ((g, o) ∷ results) h = elim (Bool-cases (beq g f)) [
  | inl e ↦ (
    o,
    [],
    rows results,
    ap (λ x. array 2 ∷ bulk_string x ∷ bulk_string (status_text o) ∷ rows results) (beq→eq g f e),
  )
  | inr e ↦
      let (o', before, after, p) = has-IsReported f results (rw e at h) in
      (
        o',
        array 2 ∷ bulk_string g ∷ bulk_string (status_text o) ∷ before,
        after,
        ap (λ x. array 2 ∷ bulk_string g ∷ bulk_string (status_text o) ∷ x) p,
      )
]

table-IsReported :
    (f : Bytes) (results : List (Bytes × Outcome (Unit {0})))
    → has f results ≡ true
    → IsReported f (array (length results) ∷ rows results)
table-IsReported f results h =
    let (o, before, after, p) = has-IsReported f results h in
    (o, array (length results) ∷ before, after, ap (λ x. array (length results) ∷ x) p)

owed_row :
    (n : ℕ) (f g : Bytes) (s : List Reply)
    → owed (suc n) (array 2 ∷ bulk_string f ∷ bulk_string g ∷ s) ≡ owed n s
owed_row n f g s =
    let two : n + 2 ≡ suc (suc n) = omega arith in
    let one : suc n + 0 ≡ suc n = omega arith in
    let none : n + 0 ≡ n = omega arith in
    ap (λ k. owed k (bulk_string f ∷ bulk_string g ∷ s)) two
    ∙ ap (λ k. owed k (bulk_string g ∷ s)) one
    ∙ ap (λ k. owed k s) none

owed-rows :
    (results : List (Bytes × Outcome (Unit {0}))) → owed (length results) (rows results) ≡ some 0
owed-rows [] = refl
owed-rows ((f, o) ∷ results) =
    owed_row (length results) f (status_text o) (rows results) ∙ owed-rows results

owed-table :
    (results : List (Bytes × Outcome (Unit {0})))
    → owed 1 (array (length results) ∷ rows results) ≡ some 0
owed-table results =
    let none : 0 + length results ≡ length results = omega arith in
    ap (λ k. owed k (rows results)) none ∙ owed-rows results

module _ (I : Importer) {Keys : Type 0} where
  pub last_import_lem :
      (argv : List Bytes) (s : Server Keys I.Disk)
      → run_last_import I argv s ≡ (
        ok tt,
        record {
          world = record s.world {
            replies =
                s.world.replies ++ array (length s.loader.last_loaded) ∷ rows s.loader.last_loaded;
          };
          loader = record s.loader { last_loaded = [] };
        },
      )
  unfolding run_last_import take_results
  last_import_lem argv s =
      let results = s.loader.last_loaded in
      let top = array (length results) ∷ [] in
      ap (λ r. (r.0, record { world = r.1; loader = record s.loader { last_loaded = [] } }))
        (reply_results_lem results (record s.world { replies = s.world.replies ++ top })
          ∙ ap (λ x. (ok tt, record s.world { replies = x }))
              (append_assoc s.world.replies top (rows results)))

  -- PB.LASTIMPORT never fails: it sends one complete reply, an array with a pair of a file and its
  -- status for each file whose result the loader has published, and takes these results from the loader.
  pub run_last_import_complete :
      (argv : List Bytes) (s : Server Keys I.Disk)
      → s.world.replies ≡ []
      → ((run_last_import I argv s).0 ≡ ok tt)
        × ((owed 1 (run_last_import I argv s).1.world.replies ≡ some 0)
            × (((f : Bytes)
                  → has f s.loader.last_loaded ≡ true
                  → IsReported f (run_last_import I argv s).1.world.replies)
                × ((run_last_import I argv s).1.loader.last_loaded ≡ [])))
  run_last_import_complete argv s e =
      rw (last_import_lem argv s, e)
        (
          refl,
          (
            owed-table s.loader.last_loaded,
            (λ f h. table-IsReported f s.loader.last_loaded h, refl),
          ),
        )

  import_lem :
      (name filename content : Bytes) (s : Server Keys I.Disk)
      → run_import I (name ∷ filename ∷ content ∷ []) s ≡ (
        ok tt,
        record {
          world = record s.world {
            replies = s.world.replies ++ simple_string (codes "OK") ∷ [];
            replicated = true;
          };
          loader = add_task I filename content s.loader;
        },
      )
  unfolding run_import try_import parse_args
  import_lem name filename content s = refl

  -- The server behind two rounds of the loader's thread, at the start of another command.
  abbrev pub later : Server Keys I.Disk → Server Keys I.Disk
  later s = record {
    world = record s.world { replies = []; replicated = false };
    loader = drain I s.loader;
  }

  -- PB.IMPORT of a file, with no reply sent before it, answers OK and replicates itself before the file
  -- is loaded. Once the loader's thread has ended the round it is in and one more, without another
  -- command in between, PB.LASTIMPORT sends a status of that file, and neither command changes the
  -- keyspace.
  pub import-IsReported :
      (name filename content : Bytes) (argv : List Bytes) (s : Server Keys I.Disk)
      → s.world.replies ≡ []
      → ((run_import I (name ∷ filename ∷ content ∷ []) s).0 ≡ ok tt)
        × (((run_import I (name ∷ filename ∷ content ∷ []) s).1.world
              ≡ record s.world { replies = simple_string (codes "OK") ∷ []; replicated = true })
            × (IsReported filename
                  (run_last_import I argv
                    (later (run_import I (name ∷ filename ∷ content ∷ []) s).1)).1.world.replies
                × ((run_last_import I argv
                      (later (run_import I (name ∷ filename ∷ content ∷ []) s).1)).1.world.keys
                    ≡ s.world.keys)))
  unfolding add_task
  import-IsReported name f c argv s e =
      let t = add_task I f c s.loader in
      let known : IsKnown I f t = inl (has-put_self f c s.loader.tasks) in
      rw (import_lem name f c s, last_import_lem argv)
        (
          refl,
          (
            ap
                (λ x. record s.world {
                  replies = x ++ simple_string (codes "OK") ∷ [];
                  replicated = true;
                })
                e,
            (table-IsReported f (drain I t).last_loaded ((drain_reports I t).1.1 f known), refl),
          ),
        )
