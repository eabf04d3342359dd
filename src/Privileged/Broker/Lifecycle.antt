-- ===== src/Privileged/Broker/Lifecycle.antt =====
-- A plan that was prepared can be used while it lives, and passes its revalidation (broker.rs).
use sentia_linux.Base.{
  ℕ, ◌+◌, ◌*◌, ◌≤◌, ◌<◌, ◌≡◌, refl, sym, ap, subst, ◌↔◌, inl, inr, true, Option, some, List, [],
  ◌∷◌, arith, Text, length, lookup, text_eq, Eq, Result, ok, err, Bool-cases, Result-cases,
  lookup-insert, ok-injective,
}
use sentia_linux.Privileged.Operation.{Error, Operation, validate, action_id}
use sentia_linux.Privileged.Operation.Validity.{IsValid, validate_iff}
use sentia_linux.Privileged.Broker.{
  Caller, CanonicalPlan, Prepared, PlanStore, Digests, caller_beq, hex, prepare, prepare_valid,
  make_plan, store_made, drop_expired, is_full, consume, check_taken, revalidate,
}
use sentia_linux.Privileged.Broker.Invariant.{make_plan-IsSound, IsSound}
use sentia_linux.Privileged.Broker.Single.{caller_beq-eq, caller_beq_refl, consume_by_owner}

length-hex : (bs : List ℕ) → length (hex bs) ≡ 2 * length bs
length-hex [] = refl
length-hex (b ∷ bs) = omega (arith, length-hex bs)

store_made-eq-ok :
    {Value : Type 0} (plans : List (Text × Prepared Value)) (r : Result Error (Prepared Value))
    (made : Prepared Value)
    → (store_made plans r).1 ≡ ok made
    → (r ≡ ok made) × (lookup made.plan.id (store_made plans r).0.plans ≡ some made)
unfolding store_made
store_made-eq-ok plans (err e) made h = absurd (cc)
store_made-eq-ok plans (ok p) made h =
    let same = ok-injective h in
    rw same (
      refl,
      rw (lookup-insert made.plan.id made.plan.id made plans)
          (rw ((text_eq.beq_iff made.plan.id made.plan.id).1 refl) refl),
    )

module _ {Value : Type 0} (d : Digests Value) (entropy : Option (List ℕ)) (store : PlanStore Value)
    (caller : Caller) (operation : Operation) (state : Value) (now : ℕ)
    (made : Prepared Value) where
  -- What a successful preparation has established.
  pub record IsPrepared : Type 0 where
    pub valid : validate operation ≡ ok tt
    pub built : make_plan d entropy caller operation state now ≡ ok made
    pub stored :
        lookup made.plan.id (prepare d entropy store caller operation state now).0.plans ≡ some made
    pub sound : IsSound d (made.plan.id, made)
    pub caller_kept : made.plan.caller ≡ caller
    pub operation_kept : made.plan.operation ≡ operation
    pub state_kept : made.plan.state ≡ state
    pub issued : made.plan.issued_at ≡ now

  prepare_valid-eq-ok :
      (checked : Result Error (Unit {0}))
      → (prepare_valid d entropy store caller operation state now checked).1 ≡ ok made
      → (checked ≡ ok tt)
        × (make_plan d entropy caller operation state now ≡ ok made)
        × (lookup made.plan.id
              (prepare_valid d entropy store caller operation state now checked).0.plans
            ≡ some made)
  unfolding prepare_valid
  prepare_valid-eq-ok (err e) h = absurd (cc)
  prepare_valid-eq-ok (ok _) h =
      let kept = drop_expired now store.plans in
      elim (Bool-cases (is_full caller.unique_name kept)) [
        | inl full ↦ absurd (cc (rw (full, prepare_valid) at h))
        | inr room ↦
            let (built, stored) =
              store_made-eq-ok kept (make_plan d entropy caller operation state now) made
                (rw (room, prepare_valid) at h) in
            (refl, built, rw (room, prepare_valid) stored)
      ]

  -- A plan that `prepare` returns is stored under its id, carries the caller, operation, state and
  -- time that were given, and is sound; the operation is valid.
  pub prepare-IsPrepared :
      (prepare d entropy store caller operation state now).1 ≡ ok made → IsPrepared
  unfolding prepare
  prepare-IsPrepared h =
      let (valid, built, stored) = prepare_valid-eq-ok (validate operation) h in
      let (sound, who, what, seen, issued) =
        make_plan-IsSound d entropy caller operation state now made valid built in
      record {
        valid = valid;
        built = built;
        stored = stored;
        sound = sound;
        caller_kept = who;
        operation_kept = what;
        state_kept = seen;
        issued = issued;
      }

  made-id :
      (nonce : List ℕ)
      → entropy ≡ some nonce
      → make_plan d entropy caller operation state now ≡ ok made
      → made.plan.id ≡ hex nonce
  unfolding make_plan
  made-id nonce e h = ground arith

id_64 :
    {Value : Type 0} (d : Digests Value) (nonce : List ℕ) (store : PlanStore Value)
    (caller : Caller) (operation : Operation) (state : Value) (now : ℕ) (made : Prepared Value)
    → length nonce ≡ 32
    → make_plan d (some nonce) caller operation state now ≡ ok made
    → length made.plan.id ≡ 64
id_64 d nonce store caller operation state now made bytes built =
    rw (made-id d (some nonce) store caller operation state now made nonce refl built)
      (omega (arith, length-hex nonce))

check_taken_in_time :
    {Value : Type 0} (prepared : Prepared Value) (later : ℕ)
    → prepared.plan.issued_at ≤ later
    → later < prepared.plan.expires_at
    → check_taken prepared prepared.digest later ≡ ok prepared.plan
unfolding check_taken
check_taken_in_time prepared later h k =
    ground (arith, text_eq.beq_iff prepared.digest prepared.digest)

-- A plan that was prepared at `now` is handed out to its caller, on its id and digest, at every
-- time from `now` to 119 seconds later; given that the nonce has 32 bytes and digests 64.
pub prepare-consume :
    {Value : Type 0} (d : Digests Value) (nonce : List ℕ) (store : PlanStore Value)
    (caller : Caller) (operation : Operation) (state : Value) (now later : ℕ)
    (made : Prepared Value)
    → ((plan : CanonicalPlan Value) (t : Text) → d.of_plan plan ≡ ok t → length t ≡ 64)
    → length nonce ≡ 32
    → (prepare d (some nonce) store caller operation state now).1 ≡ ok made
    → now ≤ later
    → later < now + 120
    → (consume
        (prepare d (some nonce) store caller operation state now).0
        made.plan.id
        made.digest
        caller
        later).1
      ≡ ok made.plan
prepare-consume d nonce store caller operation state now later made sha bytes h early late =
    let p = prepare-IsPrepared d (some nonce) store caller operation state now made h in
    rw
      (consume_by_owner (prepare d (some nonce) store caller operation state now).0 made.plan.id
        made.digest caller later made
        (id_64 d nonce store caller operation state now made bytes p.built)
        (sha made.plan made.digest p.sound.digest) p.stored p.caller_kept)
      (check_taken_in_time made later (omega (arith, p.issued))
        (omega (arith, p.issued, p.sound.lifetime)))

module _ {Value : Type 0} ⦃eq : Eq Value⦄ (d : Digests Value) (plan : CanonicalPlan Value)
    (caller : Caller) (state : Value) (now : ℕ) where
  -- What a plan must satisfy before and after authorization.
  pub record IsCurrent : Type 0 where
    pub same_caller : plan.caller ≡ caller
    pub not_early : plan.issued_at ≤ now
    pub not_late : now < plan.expires_at
    pub same_state : plan.state ≡ state
    pub action : plan.action_id ≡ action_id plan.operation
    pub arguments : d.of_operation plan.operation ≡ ok plan.argument_digest
    pub valid : IsValid plan.operation

  -- Revalidation accepts a plan exactly if the caller and the system state are those of the plan,
  -- the time lies in its life, its action id and argument digest are those of its operation, and
  -- the operation is valid.
  pub revalidate_iff : (revalidate d plan caller state now ≡ ok tt) ↔ IsCurrent
  unfolding revalidate
  revalidate_iff = (
    λ h. record {
      same_caller = caller_beq-eq plan.caller caller (ground arith);
      not_early = ground arith;
      not_late = ground arith;
      same_state = (eq.beq_iff plan.state state).0 (ground arith);
      action = (text_eq.beq_iff plan.action_id (action_id plan.operation)).0 (ground arith);
      arguments = elim (Result-cases (d.of_operation plan.operation)) [
        | inl (t, e) ↦
            rw e (ap ok (sym ((text_eq.beq_iff plan.argument_digest t).0 (ground arith))))
        | inr (e, f) ↦ absurd (ground arith)
      ];
      valid = (validate_iff plan.operation).0 (ground arith);
    },
    λ c. ground (
      arith,
      subst (λ x. caller_beq plan.caller x ≡ true) c.same_caller (caller_beq_refl plan.caller),
      (eq.beq_iff plan.state state).1 c.same_state,
      (text_eq.beq_iff plan.action_id (action_id plan.operation)).1 c.action,
      (text_eq.beq_iff plan.argument_digest plan.argument_digest).1 refl,
      (validate_iff plan.operation).1 c.valid,
    ),
  )
