-- ===== src/Tests/Threading.antt =====
-- The loader's thread over the directory of Tests.Loading, from its start to its sleep.
use redis_protobuf.Base.{ℕ, ◌≡◌, ◌≢◌, refl, true, suc, List, [], Bytes, codes}
use redis_protobuf.ProtoFactory.Loader as Loading
use redis_protobuf.ProtoFactory.Thread.{
  Thread, asleep, parking, ended, started, turn, turns, notify_one, request_load, destroy, woken,
  Runs, here, next, run, request,
}
use redis_protobuf.ProtoFactory.Thread.Refines.{HoldsOnly, Runs-Refines}
use redis_protobuf.ProtoFactory.Thread.Wakes.{Runs-IsWoken}
use redis_protobuf.ProtoFactory.Thread.Stops.{last_round, steps_left, destroy_ends, destroy_hangs}
use redis_protobuf.Tests.Loading.{importer, idle}

-- The thread tests, locks, finds nothing, and sleeps.
abbrev sleeping : Thread (List (Bytes × Bytes))
sleeping = turn importer (turn importer (turn importer (turn importer (started importer idle))))

-- Then a file is requested, and its client has not yet called notify_one.
abbrev told_soon : Thread (List (Bytes × Bytes))
told_soon = request_load importer (codes "a.proto") (codes "message A {}") sleeping

sleeping-Runs : Runs importer (started importer idle) [] sleeping
sleeping-Runs = next (next (next (next here (run (started importer idle))) (run _)) (run _)) (run _)

told_soon-Runs : Runs importer (started importer idle) [] told_soon
unfolding turn
told_soon-Runs = next sleeping-Runs (request sleeping (codes "a.proto") (codes "message A {}") refl)

Runs-Refines_example :
    Loading.Runs importer idle [] told_soon.loader
    × HoldsOnly importer told_soon.phase told_soon.loader
Runs-Refines_example = Runs-Refines importer told_soon-Runs refl refl

told_soon-asleep : told_soon.phase ≡ asleep
unfolding turn request_load
told_soon-asleep = refl

told_soon-waits : told_soon.loader.tasks ≢ []
unfolding turn request_load Loading.add_task Loading.put
told_soon-waits p = cc p

Runs-IsWoken_example :
    (n : ℕ) × (told_soon.pending ≡ suc n)
    × ((turns importer 2 (notify_one importer n told_soon)).loader.batch ≡ told_soon.loader.tasks)
Runs-IsWoken_example = Runs-IsWoken importer told_soon-Runs told_soon-asleep told_soon-waits

told_soon-free : told_soon.phase ≢ parking
unfolding turn request_load
told_soon-free p = cc p

destroy_ends_example :
    turns importer
      (steps_left importer (woken told_soon.phase) told_soon.loader)
      (destroy importer told_soon)
    ≡ record (destroy importer told_soon) {
      phase = ended;
      loader = last_round importer (woken told_soon.phase) told_soon.loader;
    }
destroy_ends_example = destroy_ends importer told_soon told_soon-free

destroy_hangs_example :
    Runs importer
      (started importer idle)
      []
      (destroy importer (turn importer (turn importer (turn importer (started importer idle)))))
    × (turns importer 6
          (destroy importer (turn importer (turn importer (turn importer (started importer idle)))))
        ≡ record { loader = idle; phase = asleep; stop = true; pending = 0 })
unfolding turns
destroy_hangs_example = destroy_hangs importer idle refl 5
