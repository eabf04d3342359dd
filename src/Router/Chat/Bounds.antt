-- ===== src/Router/Chat/Bounds.antt =====
-- How often a chat asks providers.
use sentia_linux.Base.{
  ℕ, zero, suc, ◌+◌, ◌*◌, ◌≤◌, ◌≡◌, refl, Bool, true, false, Option, none, some, List, [], ◌∷◌,
  Text, arith, length, if◌then◌else◌, Result, ok, err,
}
use sentia_linux.Router.Privacy.{Mint, ConsentState, SanitizedPayload}
use sentia_linux.Router.Breakers.{CircuitBreakers}
use sentia_linux.Router.Values.{Value}
use sentia_linux.Router.Schemas.{ToolError}
use sentia_linux.Router.Tools.{ModelToolDefinition, ModelToolResult}
use sentia_linux.Router.Requests.{ChatInput, UserSettings, ErrorEvent}
use sentia_linux.Router.Route.{ProviderRegistry, RouteCandidate, RoutePlan}
use sentia_linux.Router.Route.Length.{IsShort, build_route-IsShort}
use sentia_linux.Router.Events.{ProviderError, Effect}
use sentia_linux.Router.Agent.Rounds.{asks, asks-append, asks-run_agent_loop-le}
use sentia_linux.Router.Attempts.{Attempt, ChatState, ChatConfig, validate_chat}
use sentia_linux.Router.Chat.{RouterState, routed, chat_checked, chat}
use sentia_linux.Router.Candidates.{
  check_remote, answer_id, transitions, start_effects, finish_effect, is_cancellation, after_answer,
  run_provider, try_candidate, consider, exhausted, try_candidates,
}

module _ {P : Type 0} (name : P → Text) (is_local : P → Bool) (from_str : Text → Result Text Value)
    (invoke : Text → Text → Value → Result ToolError ModelToolResult)
    (tools : List ModelToolDefinition) (config : ChatConfig) (request : ChatInput)
    (attempts : ℕ → Attempt) where
  abbrev Rest : Type 0
  Rest = ChatState → ChatState × List (Effect P)

  abbrev AtMost : ℕ → Rest → Type 0
  AtMost n rest = (s : ChatState) → asks (rest s).1 ≤ n

  asks-if :
      (n : ℕ) (b : Bool) (x y : ChatState × List (Effect P))
      → asks x.1 ≤ n
      → asks y.1 ≤ n
      → asks (if b then x else y).1 ≤ n
  asks-if n true x y hx hy = hx
  asks-if n false x y hx hy = hy

  asks-transitions :
      (l : Bool) (e : Option ProviderError)
      → asks (transitions name is_local from_str invoke tools config request attempts l e) ≡ 0
  unfolding transitions
  asks-transitions true none = refl
  asks-transitions true (some e) = refl
  asks-transitions false none = refl
  asks-transitions false (some e) = refl

  asks-start :
      (p : P) (a : Attempt) (answer : Text) (s : ChatState)
      → asks
          (start_effects name is_local from_str invoke tools config request attempts p a answer s)
        ≡ 0
  unfolding start_effects
  asks-start p a answer s = omega (
    arith,
    asks-append
        (transitions name is_local from_str invoke tools config request attempts (is_local p)
          s.last_error)
        _,
    asks-transitions (is_local p) s.last_error,
  )

  asks-after :
      (n : ℕ) (p : P) (a : Attempt) (answer : Text) (s : ChatState) (r : Result ProviderError Text)
      (rest : Rest)
      → AtMost n rest
      → asks
          (after_answer name is_local from_str invoke tools config request attempts p a answer s r
            rest).1
        ≤ n
  unfolding after_answer finish_effect
  asks-after n p a answer s (ok reason) rest h = omega arith
  asks-after n p a answer s (err e) rest h =
      asks-if n (is_cancellation name is_local from_str invoke tools config request attempts e.kind)
        _ _ (omega arith) (h _)

  asks-try :
      (n : ℕ) (digest : SanitizedPayload → Text) (c : RouteCandidate P) (a : Attempt)
      (s : ChatState) (rest : Rest)
      → AtMost n rest
      → asks
          (try_candidate name is_local from_str invoke tools config request attempts digest c a s
            rest).1
        ≤ config.max_agent_rounds + n
  unfolding try_candidate
  asks-try n digest c a s rest h =
      let answer =
        answer_id name is_local from_str invoke tools config request attempts s.answer_sequence in
      let run =
        run_provider name is_local from_str invoke tools config request attempts digest c a
          answer in
      omega (
        arith,
        asks-append
            (start_effects name is_local from_str invoke tools config request attempts c.provider a
              answer s)
            _,
        asks-append run.0 _,
        asks-start c.provider a answer s,
        asks-run_agent_loop-le from_str invoke c.provider request.request_id answer _ _ _ a.rounds
            config.max_agent_rounds _,
        asks-after n c.provider a answer _ run.1 rest h,
      )

  asks-consider :
      (n : ℕ) (digest : SanitizedPayload → Text) (c : RouteCandidate P) (a : Attempt)
      (s : ChatState) (checked : CircuitBreakers × Option ProviderError) (rest : Rest)
      → AtMost n rest
      → asks
          (consider name is_local from_str invoke tools config request attempts digest c a s checked
            rest).1
        ≤ config.max_agent_rounds + n
  unfolding consider
  asks-consider n digest c a s (breakers, none) rest h = asks-try n digest c a _ rest h
  asks-consider n digest c a s (breakers, some e) rest h = omega (arith, h _)

  asks-candidates :
      (digest : SanitizedPayload → Text) (turn : ℕ) (candidates : List (RouteCandidate P))
      (s : ChatState)
      → asks
          (try_candidates name is_local from_str invoke tools config request attempts digest turn
            candidates s).1
        ≤ length candidates * config.max_agent_rounds
  unfolding try_candidates exhausted
  asks-candidates digest turn [] s = omega arith
  asks-candidates digest turn (c ∷ candidates) s =
      asks-if (length (c ∷ candidates) * config.max_agent_rounds) (attempts turn).is_cancelled _ _
        (omega arith)
        (omega (
          arith,
          asks-consider (length candidates * config.max_agent_rounds) digest c (attempts turn) s
              (check_remote name is_local from_str invoke tools config request attempts c.provider
                (attempts turn) s.breakers)
              (try_candidates name is_local from_str invoke tools config request attempts digest
                (suc turn) candidates)
              (asks-candidates digest (suc turn) candidates),
        ))

  asks-routed :
      (digest : SanitizedPayload → Text)
      (state : RouterState name is_local from_str invoke tools config request attempts)
      (route : ConsentState × Result ErrorEvent (RoutePlan P))
      → IsShort P route.1
      → asks
          (routed name is_local from_str invoke tools config request attempts digest state route).1
        ≤ 2 * config.max_agent_rounds
  unfolding routed
  asks-routed digest state (after, err e) h = omega arith
  asks-routed digest state (after, ok plan) h =
      two (length plan.candidates) config.max_agent_rounds h
        (asks-candidates digest 0 plan.candidates _)
    where
      two : {k : ℕ} (n m : ℕ) → n ≤ 2 → k ≤ n * m → k ≤ 2 * m
      two zero m h e = omega arith
      two (suc zero) m h e = omega arith
      two (suc (suc zero)) m h e = omega arith
      two (suc (suc (suc n))) m h e = absurd (omega arith)

  asks-checked :
      (m : Mint) (registry : ProviderRegistry P) (settings : UserSettings) (now : ℕ)
      (state : RouterState name is_local from_str invoke tools config request attempts)
      (checked : Result Text (Unit {0}))
      → asks
          (chat_checked name is_local from_str invoke tools config request attempts m registry
            settings now state checked).1
        ≤ 2 * config.max_agent_rounds
  unfolding chat_checked
  asks-checked m registry settings now state (err message) = omega arith
  asks-checked m registry settings now state (ok u) = asks-routed m.digest state _ (
      build_route-IsShort P m state.consents registry request settings config.max_generation_tokens
        now)

  -- However often the providers ask for tools, and whatever fails: a chat makes at most twice
  -- `max_agent_rounds` requests to providers, in all.
  pub asks-chat-le :
      (m : Mint) (registry : ProviderRegistry P) (settings : UserSettings) (now : ℕ)
      (state : RouterState name is_local from_str invoke tools config request attempts)
      → asks
          (chat name is_local from_str invoke tools config request attempts m registry settings now
            state).1
        ≤ 2 * config.max_agent_rounds
  unfolding chat
  asks-chat-le m registry settings now state =
      asks-checked m registry settings now state (validate_chat request)
