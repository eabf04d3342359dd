-- ===== src/Privileged/Broker/Single.antt =====
-- A plan is used at most once, by the caller that prepared it, before it expires (broker.rs).
use sentia_linux.Base.{
  ℕ, ◌≤◌, ◌<◌, ◌≡◌, refl, subst, ◌≢◌, inl, inr, true, false, not, ◌||◌, Option, none, some, arith,
  Text, length, ◌==◌, if◌then◌else◌, lookup, remove, text_eq, ok, err, Bool-cases, lookup-remove,
}
use sentia_linux.Privileged.Operation.{caller_changed}
use sentia_linux.Privileged.Broker.{
  Caller, CanonicalPlan, Prepared, PlanStore, caller_beq, check_taken, consume, consume_found,
}

pub caller_beq-eq : (a b : Caller) → caller_beq a b ≡ true → a ≡ b
caller_beq-eq a b h =
    ground (arith, text_eq.beq_iff a.unique_name b.unique_name, text_eq.beq_iff a.session b.session)

pub caller_beq_refl : (a : Caller) → caller_beq a a ≡ true
caller_beq_refl a =
    ground (arith, text_eq.beq_iff a.unique_name a.unique_name, text_eq.beq_iff a.session a.session)

module _ {Value : Type 0} (store : PlanStore Value) (id digest : Text) (caller : Caller)
    (now : ℕ) where
  -- What a successful use of a plan has established.
  pub record IsConsumed (plan : CanonicalPlan Value) : Type 0 where
    pub prepared : Prepared Value
    pub stored : lookup id store.plans ≡ some prepared
    pub same_plan : prepared.plan ≡ plan
    pub same_digest : prepared.digest ≡ digest
    pub same_caller : plan.caller ≡ caller
    pub not_early : plan.issued_at ≤ now
    pub not_late : now < plan.expires_at

  check_taken-eq-ok :
      (prepared : Prepared Value) (plan : CanonicalPlan Value)
      → lookup id store.plans ≡ some prepared
      → caller_beq prepared.plan.caller caller ≡ true
      → check_taken prepared digest now ≡ ok plan
      → IsConsumed plan
  unfolding check_taken
  check_taken-eq-ok prepared plan stored who h = record {
    prepared = prepared;
    stored = stored;
    same_plan = same;
    same_digest = ground (arith, text_eq.beq_iff prepared.digest digest);
    same_caller =
        subst (λ p. p.caller ≡ caller) same (caller_beq-eq prepared.plan.caller caller who);
    not_early = subst (λ p. p.issued_at ≤ now) same early;
    not_late = subst (λ p. now < p.expires_at) same late;
  }
    where
      same : prepared.plan ≡ plan
      same = ground arith

      early : prepared.plan.issued_at ≤ now
      early = ground arith

      late : now < prepared.plan.expires_at
      late = ground arith

  consume_found-eq-ok :
      (found : Option (Prepared Value)) (plan : CanonicalPlan Value)
      → lookup id store.plans ≡ found
      → (consume_found store id digest caller now found).1 ≡ ok plan
      → IsConsumed plan
        × ((consume_found store id digest caller now found).0.plans ≡ remove id store.plans)
  unfolding consume_found
  consume_found-eq-ok none plan e h = absurd (cc)
  consume_found-eq-ok (some prepared) plan e h =
      elim (Bool-cases (caller_beq prepared.plan.caller caller)) [
        | inl who ↦
            rw (who, consume_found)
              (check_taken-eq-ok prepared plan e who (rw (who, consume_found) at h), refl)
        | inr other ↦ absurd (cc (rw (other, consume_found) at h))
      ]

  -- A use that succeeds returns the plan that is stored under the id, whose digest is the one that
  -- was asked for; the caller is the one that prepared it, and the time lies in the plan's life.
  -- Afterwards the store has no plan under that id, and all others as before.
  pub consume-eq-ok :
      (plan : CanonicalPlan Value)
      → (consume store id digest caller now).1 ≡ ok plan
      → IsConsumed plan
        × ((j : Text)
            → lookup j (consume store id digest caller now).0.plans
              ≡ (if text_eq.beq id j then none else lookup j store.plans))
  unfolding consume
  consume-eq-ok plan h = elim (Bool-cases (not (length id == 64) || not (length digest == 64))) [
    | inl bad ↦ absurd (cc (rw (bad, consume) at h))
    | inr fits ↦
        let (used, gone) =
          consume_found-eq-ok (lookup id store.plans) plan refl (rw (fits, consume) at h) in
        rw (fits, consume) (used, λ j. rw gone (lookup-remove id j store.plans))
  ]

fits_64 :
    (id digest : Text)
    → length id ≡ 64
    → length digest ≡ 64
    → (not (length id == 64) || not (length digest == 64)) ≡ false
fits_64 id digest h k = ground arith

module _ {Value : Type 0} (store : PlanStore Value) (id : Text) where
  pub consume_by_owner :
      (digest : Text) (caller : Caller) (now : ℕ) (prepared : Prepared Value)
      → length id ≡ 64
      → length digest ≡ 64
      → lookup id store.plans ≡ some prepared
      → prepared.plan.caller ≡ caller
      → consume store id digest caller now
        ≡ (record { plans = remove id store.plans }, check_taken prepared digest now)
  unfolding consume
  consume_by_owner digest caller now prepared h k e who =
      rw (fits_64 id digest h k) (rw (e, who) (rw (caller_beq_refl caller) refl))

-- Another caller can neither use nor spoil a pending plan: the store stays as it was.
pub consume_foreign :
    {Value : Type 0} (store : PlanStore Value) (id digest : Text) (caller : Caller) (now : ℕ)
    (prepared : Prepared Value)
    → length id ≡ 64
    → length digest ≡ 64
    → lookup id store.plans ≡ some prepared
    → prepared.plan.caller ≢ caller
    → consume store id digest caller now ≡ (store, err caller_changed)
unfolding consume
consume_foreign store id digest caller now prepared h k e other = rw (fits_64 id digest h k) (
    rw e (elim (Bool-cases (caller_beq prepared.plan.caller caller)) [
      | inl same ↦ absurd (other (caller_beq-eq prepared.plan.caller caller same))
      | inr differs ↦ rw differs refl
    ]))
