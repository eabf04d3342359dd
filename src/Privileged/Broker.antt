-- ===== src/Privileged/Broker.antt =====
-- crates/sentia-privileged/src/broker.rs: pending plans, and the checks at their use.
-- JSON values (serde_json) are the parameter `Value`, with the equality that the code tests; SHA-256
-- digests of serialized data are the parameter `Digests`; the nonce of the kernel is an argument.
pub mod Invariant
pub mod History
pub mod Single
pub mod Spent
pub mod Lifecycle
use sentia_linux.Base.{
  ℕ, ◌+◌, ◌/◌, ◌%◌, Bool, ◌&&◌, ◌||◌, not, Option, none, some, List, [], ◌∷◌, Text, ltb, leb, ◌==◌,
  if◌then◌else◌, length, retain, count_if, lookup, insert, remove, Eq, nat_eq, text_eq, Result, ok,
  err, ◌>>=◌, ◌>>◌, reject, ok_or,
}
use sentia_linux.Privileged.Operation.{
  Error, Operation, validate, action_id, too_many_pending_plans, entropy_unavailable, invalid_time,
  invalid_plan_reference, unknown_or_used_plan, caller_changed, plan_expired, plan_digest_changed,
  state_changed_prepare_again, plan_changed,
}

pub record Caller : Type 0 where
  pub unique_name : Text
  pub uid : ℕ
  pub pid : ℕ
  pub process_start : ℕ
  pub session : Text

abbrev pub caller_beq : Caller → Caller → Bool
caller_beq a b =
    text_eq.beq a.unique_name b.unique_name
    && (a.uid == b.uid)
    && (a.pid == b.pid)
    && (a.process_start == b.process_start)
    && text_eq.beq a.session b.session

pub record CanonicalPlan (Value : Type 0) : Type 0 where
  pub version : ℕ
  pub id : Text
  pub caller : Caller
  pub action_id : Text
  pub operation : Operation
  pub argument_digest : Text
  pub state : Value
  pub issued_at : ℕ
  pub expires_at : ℕ

pub record Prepared (Value : Type 0) : Type 0 where
  pub plan : CanonicalPlan Value
  pub digest : Text

pub record PlanStore (Value : Type 0) : Type 0 where
  pub plans : List (Text × Prepared Value)

abbrev pub plan_lifetime_seconds : ℕ
plan_lifetime_seconds = 120

-- The largest u64.
abbrev pub u64_max : ℕ
u64_max = 18446744073709551615

-- `digest` at the types it is used at; it fails if the value cannot be serialized.
pub record Digests (Value : Type 0) : Type 0 where
  pub of_operation : Operation → Result Error Text
  pub of_caller : Caller → Result Error Text
  pub of_plan : CanonicalPlan Value → Result Error Text

-- `format!("{b:02x}")`, byte by byte.
abbrev pub hex_digit : ℕ → ℕ
hex_digit n = if ltb n 10 then b'0' + n else 87 + n

abbrev pub hex : List ℕ → Text
hex [] = []
hex (b ∷ bs) = hex_digit (b / 16) ∷ hex_digit (b % 16) ∷ hex bs

abbrev pub checked_add : ℕ → ℕ → Option ℕ
checked_add a b = if ltb u64_max (a + b) then none else some (a + b)

module _ {Value : Type 0} where
  -- `self.plans.retain(|_, p| now < p.plan.expires_at)`
  unfoldable pub drop_expired : ℕ → List (Text × Prepared Value) → List (Text × Prepared Value)
  drop_expired now plans = retain (λ p. ltb now p.1.plan.expires_at) plans

  unfoldable pub pending_of : Text → List (Text × Prepared Value) → ℕ
  pending_of name plans = count_if (λ p. text_eq.beq p.1.plan.caller.unique_name name) plans

  abbrev pub is_full : Text → List (Text × Prepared Value) → Bool
  is_full name plans = leb 256 (length plans) || leb 8 (pending_of name plans)

  -- The plan that `prepare` makes of its arguments, once there is room.
  unfoldable pub make_plan :
      Digests Value
      → Option (List ℕ)
      → Caller
      → Operation
      → Value
      → ℕ
      → Result Error (Prepared Value)
  make_plan d entropy caller operation state now = do
    nonce ← ok_or entropy entropy_unavailable
    argument_digest ← d.of_operation operation
    expires_at ← ok_or (checked_add now plan_lifetime_seconds) invalid_time
    let plan : CanonicalPlan Value = record {
      version = 1;
      id = hex nonce;
      caller = caller;
      action_id = action_id operation;
      operation = operation;
      argument_digest = argument_digest;
      state = state;
      issued_at = now;
      expires_at = expires_at;
    }
    digest ← d.of_plan plan
    ok (record { plan = plan; digest = digest })

  -- A plan that was made is stored under its id.
  unfoldable pub store_made :
      List (Text × Prepared Value)
      → Result Error (Prepared Value)
      → PlanStore Value × Result Error (Prepared Value)
  store_made plans (err e) = (record { plans = plans }, err e)
  store_made plans (ok made) = (record { plans = insert made.plan.id made plans }, ok made)

  unfoldable pub prepare_valid :
      Digests Value
      → Option (List ℕ)
      → PlanStore Value
      → Caller
      → Operation
      → Value
      → ℕ
      → Result Error (Unit {0})
      → PlanStore Value × Result Error (Prepared Value)
  prepare_valid d entropy store caller operation state now (err e) = (store, err e)
  prepare_valid d entropy store caller operation state now (ok _) =
      let kept = drop_expired now store.plans in
      if is_full caller.unique_name kept
      then (record { plans = kept }, err too_many_pending_plans)
      else store_made kept (make_plan d entropy caller operation state now)

  unfoldable pub prepare :
      Digests Value
      → Option (List ℕ)
      → PlanStore Value
      → Caller
      → Operation
      → Value
      → ℕ
      → PlanStore Value × Result Error (Prepared Value)
  unfolding prepare_valid store_made drop_expired pending_of
  prepare d entropy store caller operation state now =
      prepare_valid d entropy store caller operation state now (validate operation)

  abbrev pub is_expired : CanonicalPlan Value → ℕ → Bool
  is_expired plan now = ltb now plan.issued_at || leb plan.expires_at now

  -- The checks on a plan that was taken out of the store.
  unfoldable pub check_taken : Prepared Value → Text → ℕ → Result Error (CanonicalPlan Value)
  check_taken prepared expected_digest now = do
    reject (is_expired prepared.plan now) plan_expired
    reject (not (text_eq.beq prepared.digest expected_digest)) plan_digest_changed
    ok prepared.plan

  unfoldable pub consume_found :
      PlanStore Value
      → Text
      → Text
      → Caller
      → ℕ
      → Option (Prepared Value)
      → PlanStore Value × Result Error (CanonicalPlan Value)
  consume_found store id expected_digest caller now none = (store, err unknown_or_used_plan)
  consume_found store id expected_digest caller now (some prepared) =
      if not (caller_beq prepared.plan.caller caller)
      then (store, err caller_changed)
      else (record { plans = remove id store.plans }, check_taken prepared expected_digest now)

  unfoldable pub consume :
      PlanStore Value
      → Text
      → Text
      → Caller
      → ℕ
      → PlanStore Value × Result Error (CanonicalPlan Value)
  unfolding consume_found check_taken
  consume store id expected_digest caller now =
      if not (length id == 64) || not (length expected_digest == 64)
      then (store, err invalid_plan_reference)
      else consume_found store id expected_digest caller now (lookup id store.plans)

module _ {Value : Type 0} ⦃eq : Eq Value⦄ where
  -- The checks before and after authorization.
  unfoldable pub revalidate :
      Digests Value → CanonicalPlan Value → Caller → Value → ℕ → Result Error (Unit {0})
  revalidate d plan caller state now = do
    reject (not (caller_beq plan.caller caller)) caller_changed
    reject (is_expired plan now) plan_expired
    reject (not (eq.beq plan.state state)) state_changed_prepare_again
    reject (not (text_eq.beq plan.action_id (action_id plan.operation))) plan_changed
    argument_digest ← d.of_operation plan.operation
    reject (not (text_eq.beq plan.argument_digest argument_digest)) plan_changed
    validate plan.operation
