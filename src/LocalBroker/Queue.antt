-- ===== src/LocalBroker/Queue.antt =====
-- crates/sentia-local-broker/src/queue.rs: admission of inference requests. The counters sit behind
-- one lock, so each use of them is one step; a semaphore is the number of its free permits.
pub mod Counting
pub mod Bounds
use sentia_linux.Base.{
  ℕ, ◌+◌, ◌-◌, ◌%◌, ◌^◌, ◌<◌, ◌≡◌, Option, none, some, List, [], ◌∷◌, ◌++◌, leb, ◌==◌,
  if◌then◌else◌, lookup, insert, remove, nat_eq, Result, ok, err, ◌>>=◌, ◌>>◌, reject,
}

pub record Counts : Type 0 where
  pub queued : ℕ
  pub active : ℕ
  pub by_uid : List (ℕ × ℕ)

-- The queue, with the free permits of its semaphore.
pub record InferenceQueue : Type 0 where
  pub permits : ℕ
  pub counts : Counts
  pub global_limit : ℕ
  pub per_uid_limit : ℕ

pub data Phase : Type 0 where
  queued active released : Phase

pub record Reservation : Type 0 where
  pub uid : ℕ
  pub phase : Phase

pub data QueueError : Type 0 where
  global_full user_full cancelled : QueueError

unfoldable pub new_queue : (max_active global_limit per_uid_limit : ℕ) → InferenceQueue
new_queue max_active global_limit per_uid_limit = record {
  permits = max_active;
  counts = record { queued = 0; active = 0; by_uid = [] };
  global_limit = global_limit;
  per_uid_limit = per_uid_limit;
}

-- `by_uid.get(&uid).copied().unwrap_or(0)`
abbrev pub or_zero : Option ℕ → ℕ
or_zero none = 0
or_zero (some n) = n

unfoldable pub user_count : ℕ → Counts → ℕ
user_count uid c = or_zero (lookup uid c.by_uid)

-- The queue after a reservation, the reservation, and its position as a u32.
unfoldable pub reserve : InferenceQueue → ℕ → Result QueueError (InferenceQueue × Reservation × ℕ)
unfolding user_count
reserve q uid = do
  reject (leb q.global_limit (q.counts.queued + q.counts.active)) global_full
  reject (leb q.per_uid_limit (user_count uid q.counts)) user_full
  let counts : Counts = record (q.counts) {
    queued = q.counts.queued + 1;
    by_uid = insert uid (user_count uid q.counts + 1) q.counts.by_uid;
  }
  ok (record q { counts = counts }, record { uid = uid; phase = queued }, counts.queued % 2 ^ 32)

-- `acquire` once the semaphore has given a permit; a permit that the reservation held goes back.
pub acquire : InferenceQueue → Reservation → InferenceQueue × Reservation
acquire q r = (
  record q {
    permits = q.permits - 1 + (elim r.phase [ active ↦ 1 | _ ↦ 0 ]);
    counts = record (q.counts) { queued = q.counts.queued - 1; active = q.counts.active + 1 };
  },
  record r { phase = active },
)

-- `by_uid` after one reservation less; an entry that reaches zero is removed.
pub forget : ℕ → List (ℕ × ℕ) → List (ℕ × ℕ)
forget uid by_uid = elim (lookup uid by_uid) [
  | none ↦ by_uid
  | some n ↦ if n - 1 == 0 then remove uid by_uid else insert uid (n - 1) by_uid
]

-- `Drop`: a permit that the reservation held goes back to the semaphore.
pub drop_phase : InferenceQueue → ℕ → Phase → InferenceQueue
unfolding forget
drop_phase q uid released = q
drop_phase q uid active = record q {
  permits = q.permits + 1;
  counts = record (q.counts) { active = q.counts.active - 1; by_uid = forget uid q.counts.by_uid };
}
drop_phase q uid queued = record q {
  counts = record (q.counts) { queued = q.counts.queued - 1; by_uid = forget uid q.counts.by_uid };
}

pub drop_reservation : InferenceQueue → Reservation → InferenceQueue
unfolding drop_phase
drop_reservation q r = drop_phase q r.uid r.phase

-- The queue together with the reservations that are alive, in any order of creation.
pub record World : Type 0 where
  pub queue : InferenceQueue
  pub alive : List Reservation

-- What may happen: a request is admitted or refused, a waiting reservation gets a permit or is
-- cancelled (and stays until it is dropped), and a reservation is dropped.
pub data Step (w : World) : World → Type 0 where
  reserves :
      (uid position : ℕ) (q : InferenceQueue) (r : Reservation)
      → reserve w.queue uid ≡ ok (q, r, position)
      → Step w (record { queue = q; alive = r ∷ w.alive })
  refuses : (uid : ℕ) (e : QueueError) → reserve w.queue uid ≡ err e → Step w w
  acquires :
      (before after : List Reservation) (r : Reservation)
      → w.alive ≡ before ++ r ∷ after
      → r.phase ≡ queued
      → 0 < w.queue.permits
      → Step w (record {
        queue = (acquire w.queue r).0;
        alive = before ++ (acquire w.queue r).1 ∷ after;
      })
  cancels : (r : Reservation) → r.phase ≡ queued → Step w w
  drops :
      (before after : List Reservation) (r : Reservation)
      → w.alive ≡ before ++ r ∷ after
      → Step w (record { queue = drop_reservation w.queue r; alive = before ++ after })

pub data Reach (w : World) : World → Type 0 where
  here : Reach w w
  next : {u v : World} → Reach w u → Step u v → Reach w v
