-- ===== src/Privileged/Broker/Spent.antt =====
-- A plan that its caller has used is gone for good: histories of the plan store (broker.rs).
use sentia_linux.Base.{
  ℕ, ◌≡◌, ◌≢◌, refl, ap, ◌∙◌, inl, inr, Option, none, some, List, [], ◌∷◌, arith, Text, length,
  ◌==◌, ◌||◌, not, if◌then◌else◌, lookup, remove, text_eq, Result, ok, err, lookup-insert,
  lookup-remove, lookup-retain, Bool-cases, All, bind-eq-ok, ok-injective, ok_or,
}
use sentia_linux.Privileged.Operation.{
  Error, Operation, validate, unknown_or_used_plan, invalid_plan_reference, invalid_time,
}
use sentia_linux.Privileged.Broker.{
  Caller, caller_beq, Prepared, PlanStore, Digests, hex, drop_expired, is_full, checked_add,
  make_plan, store_made, prepare_valid, prepare, consume_found, consume, plan_lifetime_seconds,
}
use sentia_linux.Privileged.Broker.Single.{consume_by_owner}
use sentia_linux.Privileged.Broker.History.{Call, prepares, consumes, step, run}

-- The random bytes of a Prepare, if there are any, do not make the id.
abbrev pub Avoids : Text → Option (List ℕ) → Type 0
Avoids id none = Unit
Avoids id (some nonce) = hex nonce ≢ id

abbrev pub CallAvoids : {Value : Type 0} → Text → Call Value → Type 0
CallAvoids id (prepares entropy caller operation state now) = Avoids id entropy
CallAvoids id (consumes other digest caller now) = Unit

module _ {Value : Type 0} where
  make_plan-id :
      (d : Digests Value) (entropy : Option (List ℕ)) (caller : Caller) (operation : Operation)
      (state : Value) (now : ℕ) (made : Prepared Value) (id : Text)
      → make_plan d entropy caller operation state now ≡ ok made
      → Avoids id entropy
      → made.plan.id ≢ id
  unfolding make_plan
  make_plan-id d none caller operation state now made id h free same = absurd (cc)
  make_plan-id d (some nonce) caller operation state now made id h free same =
      let (argument, q, r1) = bind-eq-ok (d.of_operation operation) _ h in
      let (expires, t, r2) =
        bind-eq-ok (ok_or (checked_add now plan_lifetime_seconds) invalid_time) _ r1 in
      let (digest, u, r3) = bind-eq-ok (d.of_plan _) _ r2 in
      free (ap (λ m. m.plan.id) (ok-injective r3) ∙ same)

  store_made-unknown :
      (plans : List (Text × Prepared Value)) (made : Result Error (Prepared Value)) (id : Text)
      → lookup id plans ≡ none
      → ((p : Prepared Value) → made ≡ ok p → p.plan.id ≢ id)
      → lookup id (store_made plans made).0.plans ≡ none
  unfolding store_made
  store_made-unknown plans (err e) id h other = h
  store_made-unknown plans (ok p) id h other =
      let o = other p refl in
      lookup-insert p.plan.id id p plans ∙ ground (arith, text_eq.beq_iff p.plan.id id)

  prepare_valid-unknown :
      (d : Digests Value) (entropy : Option (List ℕ)) (store : PlanStore Value) (caller : Caller)
      (operation : Operation) (state : Value) (now : ℕ) (id : Text) (r : Result Error (Unit {0}))
      → Avoids id entropy
      → lookup id store.plans ≡ none
      → lookup id (prepare_valid d entropy store caller operation state now r).0.plans ≡ none
  unfolding prepare_valid drop_expired
  prepare_valid-unknown d entropy store caller operation state now id (err e) free h = h
  prepare_valid-unknown d entropy store caller operation state now id (ok _) free h =
      elim (Bool-cases (is_full caller.unique_name (drop_expired now store.plans))) [
        | inl full ↦ rw (full, prepare_valid) (lookup-retain _ id store.plans h)
        | inr room ↦
            rw (room, prepare_valid)
              (store_made-unknown (drop_expired now store.plans)
                (make_plan d entropy caller operation state now) id
                (lookup-retain _ id store.plans h)
                λ p e. make_plan-id d entropy caller operation state now p id e free)
      ]

  -- A Prepare that does not make the id leaves it unknown.
  pub prepare-unknown :
      (d : Digests Value) (entropy : Option (List ℕ)) (store : PlanStore Value) (caller : Caller)
      (operation : Operation) (state : Value) (now : ℕ) (id : Text)
      → Avoids id entropy
      → lookup id store.plans ≡ none
      → lookup id (prepare d entropy store caller operation state now).0.plans ≡ none
  unfolding prepare
  prepare-unknown d entropy store caller operation state now id free h =
      prepare_valid-unknown d entropy store caller operation state now id (validate operation) free
        h

  consume_found-unknown :
      (store : PlanStore Value) (other digest : Text) (caller : Caller) (now : ℕ) (id : Text)
      (found : Option (Prepared Value))
      → lookup id store.plans ≡ none
      → lookup id (consume_found store other digest caller now found).0.plans ≡ none
  unfolding consume_found
  consume_found-unknown store other digest caller now id none h = h
  consume_found-unknown store other digest caller now id (some p) h =
      elim (Bool-cases (caller_beq p.plan.caller caller)) [
        | inr foreign ↦ rw (foreign, consume_found) h
        | inl own ↦
            rw (own, consume_found)
              (lookup-remove other id store.plans ∙ ground (arith, text_eq.beq_iff other id))
      ]

  -- No use makes an unknown id known.
  pub consume-unknown :
      (store : PlanStore Value) (other digest : Text) (caller : Caller) (now : ℕ) (id : Text)
      → lookup id store.plans ≡ none
      → lookup id (consume store other digest caller now).0.plans ≡ none
  unfolding consume
  consume-unknown store other digest caller now id h =
      elim (Bool-cases (not (length other == 64) || not (length digest == 64))) [
        | inl bad ↦ rw (bad, consume) h
        | inr fits ↦
            rw (fits, consume)
              (consume_found-unknown store other digest caller now id (lookup other store.plans) h)
      ]

  step-unknown :
      (d : Digests Value) (store : PlanStore Value) (call : Call Value) (id : Text)
      → CallAvoids id call
      → lookup id store.plans ≡ none
      → lookup id (step d store call).plans ≡ none
  unfolding step
  step-unknown d store (prepares entropy caller operation state now) id free h =
      prepare-unknown d entropy store caller operation state now id free h
  step-unknown d store (consumes other digest caller now) id free h =
      consume-unknown store other digest caller now id h

  run-unknown :
      (d : Digests Value) (store : PlanStore Value) (calls : List (Call Value)) (id : Text)
      → All (CallAvoids id) calls
      → lookup id store.plans ≡ none
      → lookup id (run d store calls).plans ≡ none
  unfolding run
  run-unknown d store [] id free h = h
  run-unknown d store (call ∷ calls) id (first, free) h =
      run-unknown d (step d store call) calls id free (step-unknown d store call id first h)

  -- What a use of an unknown id answers.
  use_unknown :
      (store : PlanStore Value) (id digest : Text) (caller : Caller) (now : ℕ)
      → length id ≡ 64
      → lookup id store.plans ≡ none
      → (consume store id digest caller now).1
        ≡ (if length digest == 64 then err unknown_or_used_plan else err invalid_plan_reference)
  unfolding consume consume_found
  use_unknown store id digest caller now h unknown = rw unknown (ground arith)

  -- Once the caller that prepared a plan has used it with a digest of 64 bytes, whatever the answer
  -- was (also when the plan had expired or its digest differed), it cannot be used again. After any
  -- history of calls, in which no Prepare draws random bytes that make the same id, each use of the
  -- id is refused: as unknown or used, or as invalid where the digest is not of 64 bytes.
  pub consume_twice :
      (d : Digests Value) (store : PlanStore Value) (calls : List (Call Value))
      (id digest digest' : Text) (caller caller' : Caller) (now now' : ℕ)
      (prepared : Prepared Value)
      → length id ≡ 64
      → length digest ≡ 64
      → lookup id store.plans ≡ some prepared
      → prepared.plan.caller ≡ caller
      → All (CallAvoids id) calls
      → (consume (run d (consume store id digest caller now).0 calls) id digest' caller' now').1
        ≡ (if length digest' == 64 then err unknown_or_used_plan else err invalid_plan_reference)
  consume_twice d store calls id digest digest' caller caller' now now' prepared h k e who free =
      rw (consume_by_owner store id digest caller now prepared h k e who) (
        use_unknown (run d (record { plans = remove id store.plans }) calls) id digest' caller' now'
          h
          (run-unknown d (record { plans = remove id store.plans }) calls id free
            (lookup-remove id id store.plans ∙ rw ((text_eq.beq_iff id id).1 refl) refl)))
