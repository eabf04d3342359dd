-- ===== src/Router/Conversation.antt =====
-- The conversation of a chat with its client: an independent description of the order of its events, and
-- that every chat keeps to it.
use sentia_linux.Base.{
  ◌≡◌, refl, ap, ◌∙◌, Bool, true, false, Option, none, some, List, [], ◌∷◌, ◌++◌, Text, text_beq,
  text_beq_refl, if◌then◌else◌,
}
use sentia_linux.Protocol.Status.{is_valid_status_transition}
use sentia_linux.Router.Events.{
  InternalEvent, accepted, state_transition, progress, answer_started, delta, tool_result,
  action_proposed, answer_finished, error, done, Effect, emit, ask, use_tool,
}

-- Where a conversation stands: before it is accepted, between answers, in the answer with an
-- identifier, after a complete answer or an error, and at its end.
pub data Phase : Type 0 where
  fresh between last closed : Phase
  answering : Text → Phase

abbrev guard : Bool → Phase → Option Phase
guard true p = some p
guard false p = none

-- What an event does to the phase, or that it may not come there.
abbrev pub advance : Phase → InternalEvent → Option Phase
advance fresh (accepted r policy) = some between
advance fresh (error e) = some last
advance between (state_transition r from to) = guard (is_valid_status_transition from to) between
advance between (answer_started r a status reason) = some (answering a)
advance between (progress r state detail) = some between
advance between (error e) = some last
advance (answering a) (delta r b content) = guard (text_beq b a) (answering a)
advance (answering a) (progress r state detail) = some (answering a)
advance (answering a) (tool_result r call tool provenance) = some (answering a)
advance (answering a) (action_proposed r call tool arguments notice) = some (answering a)
advance (answering a) (answer_finished r b provider incomplete reason) =
    guard (text_beq b a) (if incomplete then between else last)
advance last (done r) = some closed
advance _ _ = none

-- What a client sees of the effects.
abbrev pub follow : {P : Type 0} → Option Phase → List (Effect P) → Option Phase
follow none effects = none
follow (some p) [] = some p
follow (some p) (emit e ∷ effects) = follow (advance p e) effects
follow (some p) (ask q r ∷ effects) = follow (some p) effects
follow (some p) (use_tool q i ∷ effects) = follow (some p) effects

pub follow-append :
    {P : Type 0} (p : Option Phase) (xs ys : List (Effect P))
    → follow p (xs ++ ys) ≡ follow (follow p xs) ys
follow-append none xs ys = refl
follow-append (some p) [] ys = refl
follow-append (some p) (emit e ∷ xs) ys = follow-append (advance p e) xs ys
follow-append (some p) (ask q r ∷ xs) ys = follow-append (some p) xs ys
follow-append (some p) (use_tool q i ∷ xs) ys = follow-append (some p) xs ys

-- The effects lead from one phase to another.
pub record Leads {P : Type 0} (p : Phase) (effects : List (Effect P)) (q : Phase) : Type 0 where
  pub leads : follow (some p) effects ≡ some q

-- The effects keep an answer open.
abbrev pub Stays : {P : Type 0} → Text → List (Effect P) → Type 0
Stays a effects = Leads (answering a) effects (answering a)

pub Leads-nil : {P : Type 0} (p : Phase) → Leads {P = P} p [] p
Leads-nil p = record { leads = refl }

pub Leads-append :
    {P : Type 0} {p q r : Phase} {xs ys : List (Effect P)}
    → Leads p xs q
    → Leads q ys r
    → Leads p (xs ++ ys) r
Leads-append {P} {p} {q} {r} {xs} {ys} hx hy = record {
  leads = follow-append (some p) xs ys ∙ (ap (λ o. follow o ys) hx.leads ∙ hy.leads);
}

pub Leads-emit :
    {P : Type 0} {p q r : Phase} (e : InternalEvent) {xs : List (Effect P)}
    → advance p e ≡ some q
    → Leads q xs r
    → Leads p (emit e ∷ xs) r
Leads-emit e {xs} h hx = record { leads = ap (λ o. follow o xs) h ∙ hx.leads }

pub Leads-delta :
    {P : Type 0} {a : Text} {xs : List (Effect P)} (r content : Text)
    → Stays a xs
    → Stays a (emit (delta r a content) ∷ xs)
Leads-delta {P} {a} r content h =
    Leads-emit (delta r a content) (ap (λ b. guard b (answering a)) (text_beq_refl a)) h

pub Leads-finished :
    {P : Type 0} {q : Phase} {xs : List (Effect P)} (r a provider : Text) (incomplete : Bool)
    (reason : Text)
    → Leads (if incomplete then between else last) xs q
    → Leads (answering a) (emit (answer_finished r a provider incomplete reason) ∷ xs) q
Leads-finished r a provider incomplete reason h =
    Leads-emit (answer_finished r a provider incomplete reason)
      (ap (λ b. guard b (if incomplete then between else last)) (text_beq_refl a)) h

-- Either branch leads there.
pub Leads-if :
    {P S : Type 0} {p q : Phase} (b : Bool) (x y : S × List (Effect P))
    → Leads p x.1 q
    → Leads p y.1 q
    → Leads p (if b then x else y).1 q
Leads-if true x y hx hy = hx
Leads-if false x y hx hy = hy
