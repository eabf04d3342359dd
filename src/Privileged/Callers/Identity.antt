-- ===== src/Privileged/Callers/Identity.antt =====
-- Who a caller is, and what polkit is asked (service.rs, identify and authorize).
use sentia_linux.Base.{
  ◌≤◌, ◌≡◌, refl, ap, ◌∙◌, true, false, not, some, arith, Text, codes, text_eq, mem, length,
  starts_with, ok, reject, then-eq-ok, ◌↔◌, Option-cases, inl, inr,
}
use sentia_linux.Privileged.Operation.{
  Operation, service, process_kill, apt_install, apt_remove, apt_update, apt_upgrade, start, stop,
  restart, enable, action_id, invalid_action,
}
use sentia_linux.Privileged.Broker.{Caller}
use sentia_linux.Privileged.Callers.{
  Peer, identify, Polkit, unavailable, timed_out, decided, known_actions, authorize, decide,
}

-- What stands behind a caller.
pub record IsIdentified (peer : Peer) (unique_name : Text) (caller : Caller) : Type 0 where
  pub named : caller.unique_name ≡ unique_name
  pub unique : starts_with unique_name (codes ":") ≡ true
  pub short : length unique_name ≤ 255
  pub uid : peer.uid ≡ some caller.uid
  pub pid : peer.pid ≡ some caller.pid
  pub started : peer.started ≡ ok caller.process_start
  pub session : peer.session_path ≡ some caller.session
  pub active : peer.active ≡ some true
  pub local_session : peer.remote ≡ some false
  pub class : peer.class ≡ some (codes "user")
  pub owned : peer.user ≡ some caller.uid
  pub still_pid : peer.still_pid ≡ some caller.pid
  pub started_again : peer.started_again ≡ ok caller.process_start

-- A caller is identified only on a unique bus name, in an active local session of class "user" that
-- belongs to its own user, and only if its process and the start of that process are the same
-- before and after the session was consulted.
pub identify-eq-ok :
    (peer : Peer) (unique_name : Text) (caller : Caller)
    → identify peer unique_name ≡ ok caller
    → IsIdentified peer unique_name caller
unfolding identify
identify-eq-ok peer unique_name caller h = record {
  named = ground arith;
  unique = ground arith;
  short = ground arith;
  uid = ground arith;
  pid = ground arith;
  started = ground arith;
  session = ground arith;
  active = ground arith;
  local_session = ground arith;
  class = elim (Option-cases peer.class) [
    | inl missing ↦ absurd (ground arith)
    | inr (class, e) ↦ e ∙ ap some ((text_eq.beq_iff class (codes "user")).0 (ground arith))
  ];
  owned = ground arith;
  still_pid = ground arith;
  started_again = ground arith;
}

-- The action of every operation is one that `authorize` knows.
pub mem-action_id : (op : Operation) → mem (action_id op) known_actions ≡ true
unfolding action_id known_actions
mem-action_id (service start unit) = refl
mem-action_id (service stop unit) = refl
mem-action_id (service restart unit) = refl
mem-action_id (service enable unit) = refl
mem-action_id (process_kill pid) = refl
mem-action_id (apt_install packages) = refl
mem-action_id (apt_remove packages) = refl
mem-action_id apt_update = refl
mem-action_id apt_upgrade = refl

decide-eq-ok : (p : Polkit) → decide p ≡ ok tt → p ≡ decided true
unfolding decide
decide-eq-ok unavailable h = cc
decide-eq-ok timed_out h = cc
decide-eq-ok (decided true) h = refl
decide-eq-ok (decided false) h = cc

pub authorize-eq-ok :
    (polkit : Caller → Text → Polkit) (caller : Caller) (action : Text)
    → authorize polkit caller action ≡ ok tt
    → polkit caller action ≡ decided true
unfolding authorize
authorize-eq-ok polkit caller action h =
    let (known, asked) =
      then-eq-ok (reject (not (mem action known_actions)) invalid_action)
        (decide (polkit caller action)) h in
    decide-eq-ok (polkit caller action) asked

-- For the action of an operation, authorization succeeds exactly if polkit answered in time that
-- the caller is authorized.
pub authorize_iff :
    (polkit : Caller → Text → Polkit) (caller : Caller) (op : Operation)
    → (authorize polkit caller (action_id op) ≡ ok tt)
      ↔ (polkit caller (action_id op) ≡ decided true)
unfolding authorize decide
authorize_iff polkit caller op =
    (authorize-eq-ok polkit caller (action_id op), λ e. rw (mem-action_id op, e) refl)
