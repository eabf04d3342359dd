-- ===== src/LocalBroker/Queue/Bounds.antt =====
-- The queue keeps its limits on every path (queue.rs).
use sentia_linux.Base.{
  ℕ, ◌+◌, ◌≤◌, ◌<◌, ◌≡◌, refl, ap, ◌∙◌, Bool, true, false, List, [], ◌∷◌, ◌++◌, arith, nat_eq, ◌==◌,
  if◌then◌else◌, count_if, lookup, ok, ==_iff,
}
use sentia_linux.LocalBroker.Queue.{
  InferenceQueue, queued, active, released, Reservation, new_queue, user_count, or_zero, reserve,
  acquire, drop_reservation, World, Step, reserves, refuses, acquires, cancels, drops, Reach, here,
  next,
}
use sentia_linux.LocalBroker.Queue.Counting.{count_if-middle, or_zero-insert, or_zero-forget}

abbrev pub is_queued : Reservation → Bool
is_queued r = elim r.phase [ queued ↦ true | _ ↦ false ]

abbrev pub is_active : Reservation → Bool
is_active r = elim r.phase [ active ↦ true | _ ↦ false ]

abbrev pub is_released : Reservation → Bool
is_released r = elim r.phase [ released ↦ true | _ ↦ false ]

abbrev pub is_of : ℕ → Reservation → Bool
is_of uid r = r.uid == uid

module _ (max_active global per_uid : ℕ) where
  -- The counters are those of the reservations that are alive, and the limits hold.
  pub record IsConsistent (w : World) : Type 0 where
    pub global_kept : w.queue.global_limit ≡ global
    pub per_uid_kept : w.queue.per_uid_limit ≡ per_uid
    pub queued_counted : w.queue.counts.queued ≡ count_if is_queued w.alive
    pub active_counted : w.queue.counts.active ≡ count_if is_active w.alive
    pub none_released : count_if is_released w.alive ≡ 0
    pub users_counted : (uid : ℕ) → user_count uid w.queue.counts ≡ count_if (is_of uid) w.alive
    pub permits_counted : w.queue.permits + count_if is_active w.alive ≡ max_active
    pub within_global : w.queue.counts.queued + w.queue.counts.active ≤ global
    pub within_user : (uid : ℕ) → user_count uid w.queue.counts ≤ per_uid

  new_queue-IsConsistent :
      IsConsistent (record { queue = new_queue max_active global per_uid; alive = [] })
  unfolding new_queue user_count
  new_queue-IsConsistent = record {
    global_kept = refl;
    per_uid_kept = refl;
    queued_counted = refl;
    active_counted = refl;
    none_released = refl;
    users_counted = λ uid. refl;
    permits_counted = omega arith;
    within_global = omega arith;
    within_user = λ uid. omega arith;
  }

  reserves-IsConsistent :
      (w : World) (uid position : ℕ) (q : InferenceQueue) (r : Reservation)
      → reserve w.queue uid ≡ ok (q, r, position)
      → IsConsistent w
      → IsConsistent (record { queue = q; alive = r ∷ w.alive })
  unfolding reserve user_count
  reserves-IsConsistent w uid position q r h c = record {
    global_kept = ground (arith, c.global_kept);
    per_uid_kept = ground (arith, c.per_uid_kept);
    queued_counted = ground (arith, c.queued_counted);
    active_counted = ground (arith, c.active_counted);
    none_released = ground (arith, c.none_released);
    users_counted = λ j. ground (
      arith,
      c.users_counted j,
      c.users_counted uid,
      ==_iff uid j,
      or_zero-insert uid j (or_zero (lookup uid w.queue.counts.by_uid) + 1) w.queue.counts.by_uid,
    );
    permits_counted = ground (arith, c.permits_counted);
    within_global = ground (arith, c.within_global, c.global_kept);
    within_user = λ j. ground (
      arith,
      c.within_user j,
      c.per_uid_kept,
      or_zero-insert uid j (or_zero (lookup uid w.queue.counts.by_uid) + 1) w.queue.counts.by_uid,
    );
  }

  -- How a test counts the reservations before and after one of them changes or goes.
  module _ (w : World) (before after : List Reservation) (r : Reservation)
      (split : w.alive ≡ before ++ r ∷ after) where
    counted :
        (p : Reservation → Bool)
        → count_if p w.alive ≡ (if p r then 1 else 0) + count_if p (before ++ after)
    counted p = ap (count_if p) split ∙ count_if-middle p before r after

    acquires-IsConsistent :
        r.phase ≡ queued
        → 0 < w.queue.permits
        → IsConsistent w
        → IsConsistent (record {
          queue = (acquire w.queue r).0;
          alive = before ++ (acquire w.queue r).1 ∷ after;
        })
    unfolding acquire user_count
    acquires-IsConsistent waiting free c = record {
      global_kept = c.global_kept;
      per_uid_kept = c.per_uid_kept;
      queued_counted = ground (arith, c.queued_counted, counted is_queued, now is_queued);
      active_counted = ground (arith, c.active_counted, counted is_active, now is_active);
      none_released = ground (arith, c.none_released, counted is_released, now is_released);
      users_counted = λ j. ground (arith, c.users_counted j, counted (is_of j), now (is_of j));
      permits_counted = ground (arith, c.permits_counted, counted is_active, now is_active);
      within_global = ground (arith, c.within_global, c.queued_counted, counted is_queued);
      within_user = c.within_user;
    }
      where
        now :
            (p : Reservation → Bool)
            → count_if p (before ++ record r { phase = active } ∷ after)
              ≡ (if p (record r { phase = active }) then 1 else 0) + count_if p (before ++ after)
        now p = count_if-middle p before (record r { phase = active }) after

    drops-IsConsistent :
        IsConsistent w
        → IsConsistent (record { queue = drop_reservation w.queue r; alive = before ++ after })
    unfolding drop_reservation user_count
    drops-IsConsistent c = record {
      global_kept = ground (arith, c.global_kept);
      per_uid_kept = ground (arith, c.per_uid_kept);
      queued_counted =
          ground (arith, c.queued_counted, counted is_queued, c.none_released, counted is_released);
      active_counted =
          ground (arith, c.active_counted, counted is_active, c.none_released, counted is_released);
      none_released = ground (arith, c.none_released, counted is_released);
      users_counted = λ j. ground (
        arith,
        c.users_counted j,
        c.users_counted r.uid,
        counted (is_of j),
        counted (is_of r.uid),
        c.none_released,
        counted is_released,
        ==_iff r.uid j,
        or_zero-forget r.uid j w.queue.counts.by_uid,
      );
      permits_counted =
          ground
            (arith, c.permits_counted, counted is_active, c.none_released, counted is_released);
      within_global = ground (arith, c.within_global);
      within_user = λ j.
          ground
            (arith, c.within_user j, ==_iff r.uid j, or_zero-forget r.uid j w.queue.counts.by_uid);
    }

  Step-IsConsistent : {w v : World} → Step w v → IsConsistent w → IsConsistent v
  Step-IsConsistent {w} (reserves uid position q r h) c =
      reserves-IsConsistent w uid position q r h c
  Step-IsConsistent (refuses uid e h) c = c
  Step-IsConsistent {w} (acquires before after r split waiting free) c =
      acquires-IsConsistent w before after r split waiting free c
  Step-IsConsistent (cancels r h) c = c
  Step-IsConsistent {w} (drops before after r split) c = drops-IsConsistent w before after r split c

  Reach-IsConsistent : {w v : World} → Reach w v → IsConsistent w → IsConsistent v
  Reach-IsConsistent here c = c
  Reach-IsConsistent (next path step) c = Step-IsConsistent step (Reach-IsConsistent path c)

  abbrev pub initial : World
  initial = record { queue = new_queue max_active global per_uid; alive = [] }

  -- However requests are admitted, granted, cancelled and dropped from an empty queue: the counters
  -- are those of the reservations alive, in total and of each user; at most `max_active` hold a
  -- permit, each of them exactly one; all together stay within the global limit, and those of one
  -- user within the limit per user.
  pub Reach_initial-IsConsistent : {w : World} → Reach initial w → IsConsistent w
  Reach_initial-IsConsistent path = Reach-IsConsistent path new_queue-IsConsistent
