-- ===== src/Privileged/Broker/Invariant.antt =====
-- The store of pending plans is well formed after every history of calls (broker.rs).
use sentia_linux.Base.{
  ℕ, ◌+◌, ◌≤◌, ◌≡◌, refl, sym, subst, inl, inr, false, Option, List, arith, Text, length, All, ltb,
  insert, remove, text_eq, Result, ok, err, Bool-cases, All-retain, All-insert, All-remove,
  length-retain-le, count_if-retain-le, count_if-insert-le, count_if-remove-le, length-insert-le,
  length-remove-le,
}
use sentia_linux.Privileged.Operation.{Error, Operation, validate, action_id}
use sentia_linux.Privileged.Broker.{
  Caller, Prepared, PlanStore, Digests, drop_expired, pending_of, is_full, make_plan, store_made,
  prepare_valid, prepare, consume,
}

module _ {Value : Type 0} (d : Digests Value) where
  -- A stored plan is the one that its key, its digests and its action id speak of, lives for 120
  -- seconds, and asks for a valid operation.
  pub record IsSound (entry : Text × Prepared Value) : Type 0 where
    pub keyed : entry.0 ≡ entry.1.plan.id
    pub lifetime : entry.1.plan.expires_at ≡ entry.1.plan.issued_at + 120
    pub valid : validate entry.1.plan.operation ≡ ok tt
    pub action : entry.1.plan.action_id ≡ action_id entry.1.plan.operation
    pub arguments : d.of_operation entry.1.plan.operation ≡ ok entry.1.plan.argument_digest
    pub digest : d.of_plan entry.1.plan ≡ ok entry.1.digest

  pub record IsWellFormed (store : PlanStore Value) : Type 0 where
    pub entries : All IsSound store.plans
    pub bounded : length store.plans ≤ 256
    pub fair : (name : Text) → pending_of name store.plans ≤ 8

  pub make_plan-IsSound :
      (entropy : Option (List ℕ)) (caller : Caller) (operation : Operation) (state : Value)
      (now : ℕ) (made : Prepared Value)
      → validate operation ≡ ok tt
      → make_plan d entropy caller operation state now ≡ ok made
      → IsSound (made.plan.id, made)
        × (made.plan.caller ≡ caller)
        × (made.plan.operation ≡ operation)
        × (made.plan.state ≡ state)
        × (made.plan.issued_at ≡ now)
  unfolding make_plan
  make_plan-IsSound entropy caller operation state now made v h = (
    record {
      keyed = refl;
      lifetime = ground arith;
      valid = ground arith;
      action = ground arith;
      arguments = ground arith;
      digest = ground arith;
    },
    ground arith,
    ground arith,
    ground arith,
    ground arith,
  )

  drop_expired-IsWellFormed :
      (now : ℕ) (store : PlanStore Value)
      → IsWellFormed store
      → IsWellFormed (record { plans = drop_expired now store.plans })
  unfolding drop_expired pending_of
  drop_expired-IsWellFormed now store w = record {
    entries = All-retain IsSound _ store.plans w.entries;
    bounded = omega (
      arith,
      w.bounded,
      length-retain-le (λ (p : Text × Prepared Value). ltb now p.1.plan.expires_at) store.plans,
    );
    fair = λ name. omega (
      arith,
      w.fair name,
      count_if-retain-le
          (λ (p : Text × Prepared Value). text_eq.beq p.1.plan.caller.unique_name name)
          (λ p. ltb now p.1.plan.expires_at) store.plans,
    );
  }

  insert-IsWellFormed :
      (plans : List (Text × Prepared Value)) (made : Prepared Value)
      → is_full made.plan.caller.unique_name plans ≡ false
      → IsSound (made.plan.id, made)
      → IsWellFormed (record { plans = plans })
      → IsWellFormed (record { plans = insert made.plan.id made plans })
  unfolding pending_of
  insert-IsWellFormed plans made room sound w = record {
    entries = All-insert IsSound made.plan.id made plans sound w.entries;
    bounded = ground (arith, length-insert-le made.plan.id made plans);
    fair = λ name. ground (
      arith,
      w.fair name,
      text_eq.beq_iff made.plan.caller.unique_name name,
      count_if-insert-le
          (λ (p : Text × Prepared Value). text_eq.beq p.1.plan.caller.unique_name name) made.plan.id
          made plans,
    );
  }

  store_made-IsWellFormed :
      (plans : List (Text × Prepared Value)) (r : Result Error (Prepared Value))
      → ((made : Prepared Value)
          → r ≡ ok made
          → IsSound (made.plan.id, made) × (is_full made.plan.caller.unique_name plans ≡ false))
      → IsWellFormed (record { plans = plans })
      → IsWellFormed (store_made plans r).0
  unfolding store_made
  store_made-IsWellFormed plans (err e) s w = w
  store_made-IsWellFormed plans (ok made) s w =
      let (sound, room) = s made refl in insert-IsWellFormed plans made room sound w

  module _ (entropy : Option (List ℕ)) (store : PlanStore Value) (caller : Caller)
      (operation : Operation) (state : Value) (now : ℕ) where
    prepare_valid-IsWellFormed :
        (checked : Result Error (Unit {0}))
        → validate operation ≡ checked
        → IsWellFormed store
        → IsWellFormed (prepare_valid d entropy store caller operation state now checked).0
    unfolding prepare_valid
    prepare_valid-IsWellFormed (err e) h w = w
    prepare_valid-IsWellFormed (ok _) h w =
        elim (Bool-cases (is_full caller.unique_name (drop_expired now store.plans))) [
          | inl full ↦ rw (full, prepare_valid) (drop_expired-IsWellFormed now store w)
          | inr room ↦
              rw (room, prepare_valid)
                (store_made-IsWellFormed (drop_expired now store.plans)
                  (make_plan d entropy caller operation state now)
                  (λ made e.
                    let (sound, who, _, _, _) =
                      make_plan-IsSound entropy caller operation state now made h e in
                    (
                      sound,
                      subst (λ c. is_full c.unique_name (drop_expired now store.plans) ≡ false)
                          (sym who) room,
                    ))
                  (drop_expired-IsWellFormed now store w))
        ]

    -- Preparing a plan keeps the store well formed, on success and on every error.
    pub prepare-IsWellFormed :
        IsWellFormed store → IsWellFormed (prepare d entropy store caller operation state now).0
    unfolding prepare
    prepare-IsWellFormed w = prepare_valid-IsWellFormed (validate operation) refl w

  remove-IsWellFormed :
      (id : Text) (store : PlanStore Value)
      → IsWellFormed store
      → IsWellFormed (record { plans = remove id store.plans })
  unfolding pending_of
  remove-IsWellFormed id store w = record {
    entries = All-remove IsSound id store.plans w.entries;
    bounded = omega (arith, w.bounded, length-remove-le id store.plans);
    fair = λ name. omega (
      arith,
      w.fair name,
      count_if-remove-le
          (λ (p : Text × Prepared Value). text_eq.beq p.1.plan.caller.unique_name name) id
          store.plans,
    );
  }

  -- Consuming a plan keeps the store well formed, on success and on every error.
  pub consume-IsWellFormed :
      (store : PlanStore Value) (id digest : Text) (caller : Caller) (now : ℕ)
      → IsWellFormed store
      → IsWellFormed (consume store id digest caller now).0
  unfolding consume
  consume-IsWellFormed store id digest caller now w = ground (arith, remove-IsWellFormed id store w)
