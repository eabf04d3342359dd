-- ===== src/LocalBroker/Tests.antt =====
-- The inference queue at work: one request is admitted, runs, and leaves.
use sentia_linux.Base.{refl, [], ◌∷◌, arith}
use sentia_linux.LocalBroker.Queue.{
  World, InferenceQueue, Reservation, queued, reserves, acquires, Reach, here, next, reserve,
  acquire, new_queue, user_count,
}
use sentia_linux.LocalBroker.Queue.Bounds.{initial, IsConsistent, Reach_initial-IsConsistent}

abbrev waiting : Reservation
waiting = record { uid = 1000; phase = queued }

abbrev admitted : InferenceQueue
admitted = record {
  permits = 1;
  counts = record { queued = 1; active = 0; by_uid = (1000, 1) ∷ [] };
  global_limit = 4;
  per_uid_limit = 2;
}

abbrev one_waits : World
one_waits = record { queue = admitted; alive = waiting ∷ [] }

abbrev one_runs : World
one_runs = record {
  queue = (acquire admitted waiting).0;
  alive = (acquire admitted waiting).1 ∷ [];
}

runs_one : Reach (initial 1 4 2) one_runs
unfolding reserve user_count new_queue
runs_one =
    next (next here (reserves 1000 1 admitted waiting refl))
      (acquires [] [] waiting refl refl (omega arith))

Reach_initial-IsConsistent_example : IsConsistent 1 4 2 one_runs
Reach_initial-IsConsistent_example = Reach_initial-IsConsistent 1 4 2 runs_one
