-- ===== src/Router/Candidates/Every.antt =====
-- What holds of every effect of a chat: an induction over its candidates.
use sentia_linux.Base.{
  ℕ, suc, Bool, true, false, Option, none, some, List, [], ◌∷◌, Text, All, All-append,
  if◌then◌else◌, Result, ok, err,
}
use sentia_linux.Router.Privacy.{SanitizedPayload}
use sentia_linux.Router.Breakers.{CircuitBreakers}
use sentia_linux.Router.Values.{Value}
use sentia_linux.Router.Schemas.{ToolError}
use sentia_linux.Router.Tools.{ModelToolDefinition, ModelToolResult}
use sentia_linux.Router.Requests.{ChatInput}
use sentia_linux.Router.Route.{RouteCandidate}
use sentia_linux.Router.Events.{InternalEvent, ProviderError, Effect, emit}
use sentia_linux.Router.Attempts.{Attempt, ChatState, ChatConfig}
use sentia_linux.Router.Candidates.{
  check_remote, answer_id, transitions, start_effects, finish_effect, is_cancellation, after_answer,
  run_provider, try_candidate, consider, exhausted, try_candidates,
}

-- What holds of each candidate in its turn.
abbrev pub EachTurn :
    {P : Type 0} → (ℕ → RouteCandidate P → Type 0) → ℕ → List (RouteCandidate P) → Type 0
EachTurn C turn [] = Unit
EachTurn C turn (c ∷ candidates) = C turn c × EachTurn C (suc turn) candidates

module _ {P : Type 0} (name : P → Text) (is_local : P → Bool) (from_str : Text → Result Text Value)
    (invoke : Text → Text → Value → Result ToolError ModelToolResult)
    (tools : List ModelToolDefinition) (config : ChatConfig) (request : ChatInput)
    (attempts : ℕ → Attempt) (digest : SanitizedPayload → Text) (Q : Effect P → Type 0)
    (C : ℕ → RouteCandidate P → Type 0) (emits : (e : InternalEvent) → Q (emit e))
    (runs : (turn : ℕ) (c : RouteCandidate P) (answer : Text)
      → C turn c
      → All Q
          (run_provider name is_local from_str invoke tools config request attempts digest c
            (attempts turn)
            answer).0) where
  abbrev Rest : Type 0
  Rest = ChatState → ChatState × List (Effect P)

  abbrev RestAll : Rest → Type 0
  RestAll rest = (s : ChatState) → All Q (rest s).1

  if-All :
      (b : Bool) (x y : ChatState × List (Effect P))
      → All Q x.1
      → All Q y.1
      → All Q (if b then x else y).1
  if-All true x y hx hy = hx
  if-All false x y hx hy = hy

  transitions-All :
      (l : Bool) (e : Option ProviderError)
      → All Q (transitions name is_local from_str invoke tools config request attempts l e)
  unfolding transitions
  transitions-All true none = (emits _, tt)
  transitions-All true (some e) = (emits _, (emits _, tt))
  transitions-All false none = (emits _, tt)
  transitions-All false (some e) = tt

  start-All :
      (p : P) (a : Attempt) (answer : Text) (s : ChatState)
      → All Q
          (start_effects name is_local from_str invoke tools config request attempts p a answer s)
  unfolding start_effects
  start-All p a answer s =
      All-append Q
        (transitions name is_local from_str invoke tools config request attempts (is_local p)
          s.last_error)
        _ (transitions-All (is_local p) s.last_error) (emits _, tt)

  after_answer-All :
      (p : P) (a : Attempt) (answer : Text) (s : ChatState) (r : Result ProviderError Text)
      (rest : Rest)
      → RestAll rest
      → All Q
          (after_answer name is_local from_str invoke tools config request attempts p a answer s r
            rest).1
  unfolding after_answer finish_effect
  after_answer-All p a answer s (ok reason) rest h = (emits _, (emits _, tt))
  after_answer-All p a answer s (err e) rest h =
      if-All (is_cancellation name is_local from_str invoke tools config request attempts e.kind) _
        _ (emits _, (emits _, (emits _, tt))) (emits _, (emits _, h _))

  try_candidate-All :
      (turn : ℕ) (c : RouteCandidate P) (s : ChatState) (rest : Rest)
      → C turn c
      → RestAll rest
      → All Q
          (try_candidate name is_local from_str invoke tools config request attempts digest c
            (attempts turn)
            s
            rest).1
  unfolding try_candidate
  try_candidate-All turn c s rest good h =
      let answer =
        answer_id name is_local from_str invoke tools config request attempts s.answer_sequence in
      let run =
        run_provider name is_local from_str invoke tools config request attempts digest c
          (attempts turn) answer in
      All-append Q
        (start_effects name is_local from_str invoke tools config request attempts c.provider
          (attempts turn) answer s)
        _ (start-All c.provider (attempts turn) answer s)
        (All-append Q run.0 _ (runs turn c answer good)
          (after_answer-All c.provider (attempts turn) answer _ run.1 rest h))

  consider-All :
      (turn : ℕ) (c : RouteCandidate P) (s : ChatState)
      (checked : CircuitBreakers × Option ProviderError) (rest : Rest)
      → C turn c
      → RestAll rest
      → All Q
          (consider name is_local from_str invoke tools config request attempts digest c
            (attempts turn)
            s
            checked
            rest).1
  unfolding consider
  consider-All turn c s (breakers, none) rest good h = try_candidate-All turn c _ rest good h
  consider-All turn c s (breakers, some e) rest good h = h _

  pub try_candidates-All :
      (turn : ℕ) (candidates : List (RouteCandidate P)) (s : ChatState)
      → EachTurn C turn candidates
      → All Q
          (try_candidates name is_local from_str invoke tools config request attempts digest turn
            candidates s).1
  unfolding try_candidates exhausted
  try_candidates-All turn [] s good = (emits _, (emits _, tt))
  try_candidates-All turn (c ∷ candidates) s good =
      if-All (attempts turn).is_cancelled _ _ (emits _, (emits _, tt))
        (consider-All turn c s
          (check_remote name is_local from_str invoke tools config request attempts c.provider
            (attempts turn) s.breakers)
          (try_candidates name is_local from_str invoke tools config request attempts digest
            (suc turn) candidates)
          good.0 (λ s'. try_candidates-All (suc turn) candidates s' good.1))
