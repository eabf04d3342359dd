-- ===== src/Router/Breakers/Opening.antt =====
-- When a circuit is open (provider.rs, CircuitBreakers).
use sentia_linux.Base.{
  ℕ, suc, ◌+◌, ◌≤◌, ◌≡◌, refl, sym, ap, subst, ◌∙◌, Bool, true, Option, none, some, List, [], ◌∷◌,
  Text, arith, leb, length, if◌then◌else◌, lookup, text_eq, text_beq_iff, lookup-insert,
  lookup-remove, Option-cases, inl, inr,
}
use sentia_linux.Router.Breakers.{
  CircuitState, CircuitBreakers, allow_deadline, allow_state, allow, success, failure, closed,
  or_closed, counted,
}

-- Failures of a provider at these times, the latest first.
pub fail_at : CircuitBreakers → Text → List ℕ → CircuitBreakers
unfolding failure
fail_at b provider [] = b
fail_at b provider (now ∷ earlier) = failure (fail_at b provider earlier) provider now

abbrev state_of : CircuitBreakers → Text → CircuitState
state_of b provider = or_closed (lookup provider b.states)

-- The state of a provider after its own operations.
state_of-failure :
    (b : CircuitBreakers) (provider : Text) (now : ℕ)
    → state_of (failure b provider now) provider
      ≡ counted b.threshold b.cooldown now (state_of b provider)
unfolding failure
state_of-failure b provider now =
    let state = counted b.threshold b.cooldown now (state_of b provider) in
    ap or_closed (lookup-insert provider provider state b.states)
    ∙ ap (λ t. or_closed (if t then some state else lookup provider b.states))
        ((text_beq_iff provider provider).1 refl)

state_of-success :
    (b : CircuitBreakers) (provider : Text) → state_of (success b provider) provider ≡ closed
unfolding success
state_of-success b provider =
    ap or_closed (lookup-remove provider provider b.states)
    ∙ ap (λ t. or_closed (if t then none else lookup provider b.states))
        ((text_beq_iff provider provider).1 refl)

allow-state_of :
    (b : CircuitBreakers) (provider : Text) (now : ℕ)
    → (allow b provider now).1 ≡ elim (state_of b provider).open_until as (λ _. Bool) [
      | none ↦ true
      | some deadline ↦ leb deadline now
    ]
unfolding allow allow_state allow_deadline
allow-state_of b provider now = elim (Option-cases (lookup provider b.states)) [
  | inl missing ↦ rw missing refl
  | inr (state, found) ↦ elim (Option-cases state.open_until) [
    | inl none_open ↦ ground arith
    | inr (deadline, is_open) ↦ ground arith
  ]
]

-- The deadline that failures at these times set.
abbrev pub opened : ℕ → ℕ → List ℕ → Option ℕ
opened threshold cooldown [] = none
opened threshold cooldown (now ∷ earlier) =
    if leb threshold (suc (length earlier)) then some (now + cooldown) else none

fail_at-config :
    (b : CircuitBreakers) (provider : Text) (times : List ℕ)
    → (fail_at b provider times).threshold ≡ b.threshold
      × (fail_at b provider times).cooldown ≡ b.cooldown
unfolding fail_at failure
fail_at-config b provider [] = (refl, refl)
fail_at-config b provider (now ∷ earlier) = fail_at-config b provider earlier

-- The state after failures at these times and no success.
abbrev Counts : ℕ → ℕ → List ℕ → CircuitState → Type 0
Counts threshold cooldown times state =
    state.failures ≡ length times × state.open_until ≡ opened threshold cooldown times

counted-Counts :
    (threshold cooldown now : ℕ) (earlier : List ℕ) (state : CircuitState)
    → suc (length earlier) ≤ 4294967295
    → Counts threshold cooldown earlier state
    → Counts threshold cooldown (now ∷ earlier) (counted threshold cooldown now state)
counted-Counts threshold cooldown now [] state fits h = ground arith
counted-Counts threshold cooldown now (t ∷ ts) state fits h = ground arith

fail_at-Counts :
    (b : CircuitBreakers) (provider : Text) (times : List ℕ)
    → length times ≤ 4294967295
    → state_of b provider ≡ closed
    → Counts b.threshold b.cooldown times (state_of (fail_at b provider times) provider)
unfolding fail_at
fail_at-Counts b provider [] fits h =
    (ap (λ (s : CircuitState). s.failures) h, ap (λ (s : CircuitState). s.open_until) h)
fail_at-Counts b provider (now ∷ earlier) fits h =
    let after = fail_at b provider earlier in
    let (threshold, cooldown) = fail_at-config b provider earlier in
    subst (Counts b.threshold b.cooldown (now ∷ earlier))
      (sym (
        state_of-failure after provider now
        ∙ ap (λ n. counted n after.cooldown now (state_of after provider)) threshold
        ∙ ap (λ n. counted b.threshold n now (state_of after provider)) cooldown))
      (counted-Counts b.threshold b.cooldown now earlier (state_of after provider) fits
        (fail_at-Counts b provider earlier (omega arith) h))

-- After a success and then failures, the latest at `now`, a provider is refused if they are as many as
-- the threshold at least, until the cooldown has passed since the latest; otherwise it is allowed.
-- (Up to 2 ^ 32 - 1 failures.)
pub allow-fail_at :
    (b : CircuitBreakers) (provider : Text) (now : ℕ) (earlier : List ℕ) (later : ℕ)
    → suc (length earlier) ≤ 4294967295
    → (allow (fail_at (success b provider) provider (now ∷ earlier)) provider later).1
      ≡ (if leb b.threshold (suc (length earlier)) then leb (now + b.cooldown) later else true)
unfolding success
allow-fail_at b provider now earlier later fits =
    let after = fail_at (success b provider) provider (now ∷ earlier) in
    let (count, deadline) =
      fail_at-Counts (success b provider) provider (now ∷ earlier) fits
        (state_of-success b provider) in
    allow-state_of after provider later
    ∙ ap (λ o. elim o as (λ _. Bool) [ none ↦ true | some d ↦ leb d later ]) deadline
    ∙ ground arith
