-- ===== src/Privileged/Tests/Plans.antt =====
-- Plans at work: prepared, used once, refused to others.
use sentia_linux.Base.{
  ◌≡◌, ◌≢◌, refl, some, List, [], ◌∷◌, Text, arith, ok, err, text_eq, length, ap, All,
}
use sentia_linux.Privileged.Operation.{
  validate, validate_unit, strip_suffix, action_id, unknown_or_used_plan, caller_changed,
}
use sentia_linux.Privileged.Broker.{
  Caller, CanonicalPlan, PlanStore, prepare, prepare_valid, store_made, drop_expired, pending_of,
  make_plan, consume,
}
use sentia_linux.Privileged.Broker.Invariant.{IsWellFormed}
use sentia_linux.Privileged.Broker.History.{Call, prepares, consumes, run, empty, run-IsWellFormed}
use sentia_linux.Privileged.Broker.Single.{consume_foreign}
use sentia_linux.Privileged.Broker.Spent.{CallAvoids, consume_twice}
use sentia_linux.Privileged.Broker.Lifecycle.{prepare-consume}
use sentia_linux.Privileged.Tests.{
  Flat, sha, digests, alice, mallory, restart_ssh, nonce, state, plan, prepared, store, no_plans,
  other_nonce, other_id,
}

abbrev calls : List (Call Flat)
calls =
    prepares (some nonce) alice restart_ssh state 1000
    ∷ consumes plan.id sha mallory 1001
    ∷ consumes plan.id sha alice 1002
    ∷ []

run-IsWellFormed_example : IsWellFormed digests (run digests (empty digests) calls)
run-IsWellFormed_example = run-IsWellFormed digests calls

-- Another plan is prepared, and the first is asked for again.
abbrev later_calls : List (Call Flat)
later_calls =
    prepares (some other_nonce) alice restart_ssh state 1006 ∷ consumes plan.id sha alice 1007 ∷ []

all_other : All (CallAvoids plan.id) later_calls
all_other = (other_id, (tt, tt))

consume_twice_example :
    (consume
      (run digests (consume store plan.id sha alice 1005).0 later_calls)
      plan.id
      sha
      mallory
      1008).1
    ≡ err unknown_or_used_plan
consume_twice_example =
    consume_twice digests store later_calls plan.id sha sha alice mallory 1005 1008 prepared refl
      refl refl refl all_other

other_uid : alice ≢ mallory
other_uid e = absurd (omega (arith, ap (λ (c : Caller). c.uid) e))

consume_foreign_example : consume store plan.id sha mallory 1005 ≡ (store, err caller_changed)
consume_foreign_example =
    consume_foreign store plan.id sha mallory 1005 prepared refl refl refl other_uid

abbrev after_prepare : PlanStore Flat
after_prepare = (prepare digests (some nonce) no_plans alice restart_ssh state 1000).0

digest_size : (p : CanonicalPlan Flat) (t : Text) → digests.of_plan p ≡ ok t → length t ≡ 64
digest_size p t h = ground arith

prepare-consume_example : (consume after_prepare plan.id sha alice 1119).1 ≡ ok plan
unfolding prepare prepare_valid store_made drop_expired pending_of make_plan validate validate_unit
    strip_suffix action_id
prepare-consume_example =
    prepare-consume digests nonce no_plans alice restart_ssh state 1000 1119 prepared digest_size
      refl refl (omega arith) (omega arith)
