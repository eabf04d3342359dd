-- ===== src/Privileged/Service/Gate.antt =====
-- What has happened before Apply has any effect (service.rs).
use sentia_linux.Base.{
  ℕ, ◌≡◌, refl, sym, ap, subst, ◌∙◌, ◌⊎◌, inl, inr, Bool, true, not, Option, none, some, List, [],
  Text, lookup, text_eq, Result, ok, reject, ok_or, then-eq-ok, bind-eq-ok, reject-eq-ok,
  ok_or-eq-ok, ok-injective, not-false, All, All-map_imp, Result-cases, Option-cases,
}
use sentia_linux.Privileged.Operation.{Error, clock_unavailable, missing_bus_sender, broker_busy}
use sentia_linux.Privileged.Operation.Validity.{IsValid}
use sentia_linux.Privileged.Json.{Json}
use sentia_linux.Privileged.Broker.{Caller, CanonicalPlan, PlanStore, Digests, consume, revalidate}
use sentia_linux.Privileged.Broker.Single.{IsConsumed, consume-eq-ok}
use sentia_linux.Privileged.Broker.Lifecycle.{IsCurrent, revalidate_iff}
use sentia_linux.Privileged.Executor.Effects.{Effect, look, All-bind, seq-eq-ok}
use sentia_linux.Privileged.Executor.Snapshots.{Looks, snapshot, LookEffect, snapshot-All}
use sentia_linux.Privileged.Executor.Execute.{execute}
use sentia_linux.Privileged.Executor.Execute.Safety.{Executed, execute-Only}
use sentia_linux.Privileged.Service.{
  ApplyAnswers, admit, perform, Outcome, apply_consumed, apply_entered, apply_timed, handle_apply,
}
use sentia_linux.Privileged.Callers.{Peer, identify, decided, authorize, enter}
use sentia_linux.Privileged.Callers.Identity.{IsIdentified, identify-eq-ok, authorize-eq-ok}

pair_eq :
    {A B : Type 0} (a a' : A) (b b' : B) → ◌≡◌ {A = A × B} (a, b) (a', b') → (a ≡ a') × (b ≡ b')
pair_eq a a' b b' h = (ap (λ p. p.0) h, ap (λ p. p.1) h)

enter-eq-ok :
    (sender : Option Text) (peer : Peer) (lock_free : Bool) (name : Text) (caller : Caller)
    → enter sender peer lock_free ≡ ok (name, caller)
    → (sender ≡ some name) × IsIdentified peer name caller × (lock_free ≡ true)
unfolding enter
enter-eq-ok sender peer lock_free name caller h =
    let (n, sent, r1) = bind-eq-ok (ok_or sender missing_bus_sender) _ h in
    let (c, who, r2) = bind-eq-ok (identify peer n) _ r1 in
    let (free, r3) = then-eq-ok (reject (not lock_free) broker_busy) _ r2 in
    let (en, ec) = pair_eq n name c caller (ok-injective r3) in
    (
      ok_or-eq-ok sender missing_bus_sender sent ∙ ap some en,
      identify-eq-ok peer name caller
          (subst (λ x. identify peer x ≡ ok caller) en (who ∙ ap ok ec)),
      not-false lock_free (reject-eq-ok _ broker_busy free),
    )

module _ (j : Json) (digests : Digests j.Value) (utc_timestamp : ℕ → Result Error Text) where
  open j use {Value, equality}

  -- What stands behind an admission: the state was twice the plan's, the caller was identified
  -- again as the same, and polkit authorized it for the plan's action in between.
  pub record IsAdmitted (a : ApplyAnswers j) (name : Text) (caller : Caller)
      (plan : CanonicalPlan Value) : Type 0 where
    pub seen : Value
    pub now : ℕ
    pub seen_later : Value
    pub later : ℕ
    pub current : Caller
    pub looked : (snapshot j digests utc_timestamp a.before plan.operation).1 ≡ ok seen
    pub read : a.clock_before ≡ some now
    pub valid_before : IsCurrent ⦃eq = equality⦄ digests plan caller seen now
    pub authorized : a.polkit caller plan.action_id ≡ decided true
    pub identified : IsIdentified a.peer_again name current
    pub looked_again : (snapshot j digests utc_timestamp a.after plan.operation).1 ≡ ok seen_later
    pub read_again : a.clock_after ≡ some later
    pub valid_after : IsCurrent ⦃eq = equality⦄ digests plan current seen_later later

  admit-eq-ok :
      (a : ApplyAnswers j) (name : Text) (caller : Caller) (plan : CanonicalPlan Value)
      → (admit j digests utc_timestamp a name caller plan).1 ≡ ok tt
      → IsAdmitted a name caller plan
  unfolding admit
  admit-eq-ok a name caller plan h =
      let (seen, looked, r1) =
        seq-eq-ok (snapshot j digests utc_timestamp a.before plan.operation) _ h in
      let (now, read, r2) = seq-eq-ok (look (ok_or a.clock_before clock_unavailable)) _ r1 in
      let (_, fresh, r3) =
        seq-eq-ok (look (revalidate ⦃eq = equality⦄ digests plan caller seen now)) _ r2 in
      let (_, allowed, r4) = seq-eq-ok (look (authorize a.polkit caller plan.action_id)) _ r3 in
      let (current, who, r5) = seq-eq-ok (look (identify a.peer_again name)) _ r4 in
      let (seen_later, looked_again, r6) =
        seq-eq-ok (snapshot j digests utc_timestamp a.after plan.operation) _ r5 in
      let (later, read_again, r7) = seq-eq-ok (look (ok_or a.clock_after clock_unavailable)) _ r6 in
      record {
        seen = seen;
        now = now;
        seen_later = seen_later;
        later = later;
        current = current;
        looked = looked;
        read = ok_or-eq-ok _ clock_unavailable read;
        valid_before = (revalidate_iff ⦃eq = equality⦄ digests plan caller seen now).0 fresh;
        authorized = authorize-eq-ok a.polkit caller plan.action_id allowed;
        identified = identify-eq-ok a.peer_again name current who;
        looked_again = looked_again;
        read_again = ok_or-eq-ok _ clock_unavailable read_again;
        valid_after = (revalidate_iff ⦃eq = equality⦄ digests plan current seen_later later).0 r7;
      }

  -- What Apply does with a plan: it looks at the target of the plan, or it executes the plan, which
  -- has then been admitted.
  abbrev pub Performed : ApplyAnswers j → Text → Caller → CanonicalPlan Value → Effect → Type 0
  Performed a name caller plan e =
      LookEffect j digests utc_timestamp plan.operation e
      ⊎ (IsAdmitted a name caller plan
          × IsValid plan.operation
          × Executed j digests utc_timestamp a.execution plan plan.operation e)

  looks-Performed :
      (a : ApplyAnswers j) (name : Text) (caller : Caller) (plan : CanonicalPlan Value) (l : Looks)
      → All (Performed a name caller plan) (snapshot j digests utc_timestamp l plan.operation).0
  looks-Performed a name caller plan l =
      All-map_imp (LookEffect j digests utc_timestamp plan.operation) (Performed a name caller plan)
        (snapshot j digests utc_timestamp l plan.operation).0 (λ e i. inl i)
        (snapshot-All j digests utc_timestamp l plan.operation)

  admit-Performed :
      (a : ApplyAnswers j) (name : Text) (caller : Caller) (plan : CanonicalPlan Value)
      → All (Performed a name caller plan) (admit j digests utc_timestamp a name caller plan).0
  unfolding admit
  admit-Performed a name caller plan =
      let P = Performed a name caller plan in
      All-bind P (snapshot j digests utc_timestamp a.before plan.operation) _
        (looks-Performed a name caller plan a.before)
        λ before _. All-bind P (look (ok_or a.clock_before clock_unavailable)) _ tt λ now _.
          All-bind P (look (revalidate ⦃eq = equality⦄ digests plan caller before now)) _ tt λ _ _.
            All-bind P (look (authorize a.polkit caller plan.action_id)) _ tt λ _ _.
              All-bind P (look (identify a.peer_again name)) _ tt λ current _.
                All-bind P (snapshot j digests utc_timestamp a.after plan.operation) _
                  (looks-Performed a name caller plan a.after)
                  λ after _.
                    All-bind P (look (ok_or a.clock_after clock_unavailable)) _ tt (λ later _. tt)

  execute-Performed :
      (a : ApplyAnswers j) (name : Text) (caller : Caller) (plan : CanonicalPlan Value)
      → IsAdmitted a name caller plan
      → All (Performed a name caller plan) (execute j digests utc_timestamp a.execution plan).0
  execute-Performed a name caller plan admitted =
      elim (execute-Only j digests utc_timestamp a.execution plan) [
        | inl nothing ↦ rw nothing tt
        | inr (valid, all) ↦
            All-map_imp (Executed j digests utc_timestamp a.execution plan plan.operation)
              (Performed a name caller plan) (execute j digests utc_timestamp a.execution plan).0
              (λ e x. inr (admitted, valid, x)) all
      ]

  perform-Performed :
      (a : ApplyAnswers j) (name : Text) (caller : Caller) (plan : CanonicalPlan Value)
      → All (Performed a name caller plan) (perform j digests utc_timestamp a name caller plan).0
  unfolding perform
  perform-Performed a name caller plan =
      All-bind (Performed a name caller plan) (admit j digests utc_timestamp a name caller plan) _
        (admit-Performed a name caller plan)
        λ _ admitted. execute-Performed a name caller plan (admit-eq-ok a name caller plan admitted)

  -- What stands behind what Apply does.
  pub record IsGated (a : ApplyAnswers j) (store : PlanStore Value) (id digest : Text)
      (after : PlanStore Value) (effects : List Effect) : Type 0 where
    pub name : Text
    pub caller : Caller
    pub plan : CanonicalPlan Value
    pub now : ℕ
    pub sent : a.sender ≡ some name
    pub identified : IsIdentified a.peer name caller
    pub alone : a.lock_free ≡ true
    pub read : a.clock ≡ some now
    pub consumed : IsConsumed store id digest caller now plan
    pub used_up : lookup id after.plans ≡ none
    pub each : All (Performed a name caller plan) effects

  abbrev Gated :
      ApplyAnswers j → PlanStore Value → Text → Text → Outcome j digests utc_timestamp → Type 0
  Gated a store id digest o = (o.effects ≡ []) ⊎ IsGated a store id digest o.store o.effects

  consumed-Gated :
      (a : ApplyAnswers j) (store : PlanStore Value) (id digest name : Text) (caller : Caller)
      (now : ℕ) (plan : CanonicalPlan Value)
      → enter a.sender a.peer a.lock_free ≡ ok (name, caller)
      → a.clock ≡ some now
      → (consume store id digest caller now).1 ≡ ok plan
      → Gated a store id digest (
          apply_consumed j digests utc_timestamp a name caller
            ((consume store id digest caller now).0, ok plan))
  unfolding apply_consumed
  consumed-Gated a store id digest name caller now plan entered read used =
      let (sent, who, free) = enter-eq-ok a.sender a.peer a.lock_free name caller entered in
      let (consumed, others) = consume-eq-ok store id digest caller now plan used in
      inr (record {
        name = name;
        caller = caller;
        plan = plan;
        now = now;
        sent = sent;
        identified = who;
        alone = free;
        read = read;
        consumed = consumed;
        used_up = rw (others id) (rw ((text_eq.beq_iff id id).1 refl) refl);
        each = perform-Performed a name caller plan;
      })

  handle_apply-runs :
      (a : ApplyAnswers j) (store : PlanStore Value) (id digest name : Text) (caller : Caller)
      (now : ℕ) (plan : CanonicalPlan Value)
      → enter a.sender a.peer a.lock_free ≡ ok (name, caller)
      → a.clock ≡ some now
      → (consume store id digest caller now).1 ≡ ok plan
      → handle_apply j digests utc_timestamp a store id digest
        ≡ apply_consumed j digests utc_timestamp a name caller
            ((consume store id digest caller now).0, ok plan)
  unfolding handle_apply
  handle_apply-runs a store id digest name caller now plan q t c =
      ap (apply_entered j digests utc_timestamp a store id digest) q
      ∙ ap (apply_timed j digests utc_timestamp a store id digest name caller) t
      ∙ ap
          (λ r.
            apply_consumed j digests utc_timestamp a name caller
              ((consume store id digest caller now).0, r))
          c

  -- Apply does nothing to the system unless the sender was identified as an active local user and
  -- held the operation lock, and the plan under the id was that caller's, alive, of the digest given,
  -- and has been taken out of the store. Each thing it does is then one of two. It looks at the
  -- target of the plan: `systemctl show` of the unit, or the package worker on a request in plan
  -- mode. Or it executes the plan, which happens only if the operation is valid, the system state
  -- was the plan's before and after polkit authorized the caller for the plan's action, and the
  -- sender was identified again as the same: a further look at the unit, or an effect of the plan's
  -- operation alone, with what must hold at that moment.
  pub handle_apply-Gated :
      (a : ApplyAnswers j) (store : PlanStore Value) (id digest : Text)
      → Gated a store id digest (handle_apply j digests utc_timestamp a store id digest)
  unfolding handle_apply
  handle_apply-Gated a store id digest = elim (Result-cases (enter a.sender a.peer a.lock_free)) [
    | inr (e, q) ↦ inl (rw (q, handle_apply) refl)
    | inl ((name, caller), q) ↦ elim (Option-cases a.clock) [
      | inl t ↦ inl (rw (q, t, handle_apply) refl)
      | inr (now, t) ↦ elim (Result-cases (consume store id digest caller now).1) [
        | inr (e, c) ↦ inl (rw (q, t, c, handle_apply) refl)
        | inl (plan, c) ↦
            subst (Gated a store id digest)
              (sym (handle_apply-runs a store id digest name caller now plan q t c))
              (consumed-Gated a store id digest name caller now plan q t c)
      ]
    ]
  ]
