-- ===== src/ProtoFactory/Thread.antt =====
-- proto_factory.cpp: the thread of the loader between its accesses to the mutex, the condition variable and
-- the flag `_stop_loader`, what a client does around notify_one, and the destructor of the factory.
-- `_cv.wait(lock, pred)` tests pred under the mutex, and then gives the mutex back and falls asleep in
-- one step.
pub mod Refines
pub mod Wakes
pub mod Stops
use redis_protobuf.Base.{
  ℕ, zero, suc, ◌≡◌, Bool, true, false, not, ◌||◌, List, [], ◌∷◌, ◌++◌, Bytes, is_empty,
  if◌then◌else◌,
}
use redis_protobuf.Errors.{Outcome}
use redis_protobuf.ProtoFactory.Loader.{
  Importer, Loader, add_task, take_tasks, load_task, publish, take_results,
}

-- Where the thread stands: at the test of the loop; before the mutex, also when it was woken; under the
-- mutex at the test of `wait`; under the mutex behind a test that failed; asleep; at the tasks that it has
-- taken; behind the loop.
pub data Phase : Type 0 where
  testing acquiring checking parking asleep working ended : Phase

-- The loader with its thread: `_stop_loader`, and the calls of notify_one that are still to be made.
pub record Thread (Disk : Type 0) : Type 0 where
  pub loader : Loader Disk
  pub phase : Phase
  pub stop : Bool
  pub pending : ℕ

-- whether the thread has the mutex between two of its steps
abbrev pub is_locked : Phase → Bool
is_locked checking = true
is_locked parking = true
is_locked _ = false

abbrev pub woken : Phase → Phase
woken asleep = acquiring
woken testing = testing
woken acquiring = acquiring
woken checking = checking
woken parking = parking
woken working = working
woken ended = ended

module _ (I : Importer) where
  open I use {Disk}

  -- behind the start of the thread in the constructor
  abbrev pub started : Loader Disk → Thread Disk
  started s = record { loader = s; phase = testing; stop = false; pending = 0 }

  -- the next file of the batch, or the results (to publish none changes nothing)
  abbrev work : List (Bytes × Bytes) → Thread Disk → Thread Disk
  work [] t = record t { loader = publish I t.loader; phase = testing }
  work ((f, c) ∷ rest) t = record t { loader = load_task I f c rest t.loader }

  abbrev move : Phase → Thread Disk → Thread Disk
  move testing t = if t.stop then record t { phase = ended } else record t { phase = acquiring }
  move acquiring t = record t { phase = checking }
  move checking t =
      if t.stop || not (is_empty t.loader.tasks)
      then record t { loader = take_tasks I t.loader; phase = working }
      else record t { phase = parking }
  move parking t = record t { phase = asleep }
  move asleep t = t
  move working t = work t.loader.batch t
  move ended t = t

  -- _async_load: the next step of the thread
  unfoldable pub turn : Thread Disk → Thread Disk
  turn t = move t.phase t

  unfoldable pub turns : ℕ → Thread Disk → Thread Disk
  turns zero t = t
  turns (suc n) t = turns n (turn t)

  -- load(filename, content) up to its notify_one
  unfoldable pub request_load : Bytes → Bytes → Thread Disk → Thread Disk
  request_load f c t = record t { loader = add_task I f c t.loader; pending = suc t.pending }

  -- notify_one, where this leaves `n` of them to be made
  unfoldable pub notify_one : ℕ → Thread Disk → Thread Disk
  notify_one n t = record t { phase = woken t.phase; pending = n }

  -- last_loaded()
  unfoldable pub fetch_results : Thread Disk → Thread Disk
  fetch_results t = record t { loader = (take_results I t.loader).1 }

  -- `_stop_loader = true`, which is done without the mutex
  unfoldable pub stop_loader : Thread Disk → Thread Disk
  stop_loader t = record t { stop = true; pending = suc t.pending }

  -- ~ProtoFactory up to the join
  unfoldable pub destroy : Thread Disk → Thread Disk
  unfolding stop_loader notify_one
  destroy t = notify_one t.pending (stop_loader t)

  -- The steps of the thread, of the clients and of the destructor; the index is the results that a
  -- client is given. A thread may also wake up by itself.
  pub data Step : Thread Disk → List (Bytes × Outcome (Unit {0})) → Thread Disk → Type 0 where
    run : (t : Thread Disk) → Step t [] (turn t)
    wake : (t : Thread Disk) → t.phase ≡ asleep → Step t [] (record t { phase = acquiring })
    request :
        (t : Thread Disk) (f c : Bytes) → is_locked t.phase ≡ false → Step t [] (request_load f c t)
    notify : (t : Thread Disk) (n : ℕ) → t.pending ≡ suc n → Step t [] (notify_one n t)
    fetch :
        (t : Thread Disk)
        → is_locked t.phase ≡ false
        → Step t (take_results I t.loader).0 (fetch_results t)
    stop : (t : Thread Disk) → Step t [] (stop_loader t)

  -- Steps in a row, with all the results that clients are given.
  pub data Runs (s : Thread Disk) : List (Bytes × Outcome (Unit {0})) → Thread Disk → Type 0 where
    here : Runs s [] s
    next :
        {t u : Thread Disk} {seen new : List (Bytes × Outcome (Unit {0}))}
        → Runs s seen t
        → Step t new u
        → Runs s (seen ++ new) u
