-- ===== src/Privileged/Executor/Apt.antt =====
-- Requests to the package worker and its answers (executor.rs, apt_request, interpret_apt_response).
pub mod Requests
pub mod Answers
use sentia_linux.Base.{
  ℕ, Bool, true, false, ◌&&◌, ◌||◌, not, Option, none, some, List, [], ◌∷◌, Text, codes, length,
  ltb, leb, ◌==◌, if◌then◌else◌, text_eq, Result, ok, err, ◌>>=◌, ◌>>◌, reject, ok_or, all,
  is_ascii_digit, option_text_beq, map,
}
use sentia_linux.Privileged.Operation.{
  Error, Operation, service, process_kill, apt_install, apt_remove, apt_update, apt_upgrade,
  validate, ServiceAction, start, stop, restart, enable, invalid_package_operation,
  invalid_worker_plan, invalid_worker_response, package_worker_failed, package_plan_too_large,
  state_changed_prepare_again,
}
use sentia_linux.Privileged.Json.{Json}
use sentia_linux.Privileged.Broker.{CanonicalPlan, Digests}

abbrev pub is_lower_hex : ℕ → Bool
is_lower_hex b = is_ascii_digit b || (leb b'a' b && leb b b'f')

-- `worker_digest.len() != 64 || !worker_digest.bytes().all(…)`, negated.
abbrev pub is_digest : Text → Bool
is_digest s = length s == 64 && all is_lower_hex s

abbrev pub action_beq : ServiceAction → ServiceAction → Bool
action_beq start start = true
action_beq stop stop = true
action_beq restart restart = true
action_beq enable enable = true
action_beq _ _ = false

abbrev pub texts_beq : List Text → List Text → Bool
texts_beq [] [] = true
texts_beq (x ∷ xs) (y ∷ ys) = text_eq.beq x y && texts_beq xs ys
texts_beq _ _ = false

-- The derived equality of operations.
abbrev pub operation_beq : Operation → Operation → Bool
operation_beq (service a u) (service b v) = action_beq a b && text_eq.beq u v
operation_beq (process_kill p) (process_kill q) = p == q
operation_beq (apt_install ps) (apt_install qs) = texts_beq ps qs
operation_beq (apt_remove ps) (apt_remove qs) = texts_beq ps qs
operation_beq apt_update apt_update = true
operation_beq apt_upgrade apt_upgrade = true
operation_beq _ _ = false

-- The worker's name of a package operation, with its packages.
unfoldable pub worker_call : Operation → Result Error (Text × Option (List Text))
worker_call (apt_install packages) = ok (codes "apt_install", some packages)
worker_call (apt_remove packages) = ok (codes "apt_remove", some packages)
worker_call apt_update = ok (codes "apt_update", none)
worker_call apt_upgrade = ok (codes "apt_upgrade", none)
worker_call _ = err invalid_package_operation

module _ (j : Json) where
  open j use {
    Value, equality, object, string, array, boolean, assign, get, as_str, is_object, encode, decode,
  }

  -- `value.get("key").and_then(Value::as_str)`
  abbrev pub text_at : Value → Text → Option Text
  text_at value key = elim (get value key) [ none ↦ none | some v ↦ as_str v ]

  unfoldable pub with_packages : Option (List Text) → Value → Value
  with_packages none arguments = arguments
  with_packages (some packages) arguments =
      assign arguments (codes "packages") (array (map string packages))

  unfoldable pub mode : Option (CanonicalPlan Value) → Text
  mode none = codes "plan"
  mode (some plan) = codes "execute"

  unfoldable pub request_id : Option (CanonicalPlan Value) → Text
  request_id none = codes "sentia-root-plan"
  request_id (some plan) = plan.id

  unfoldable pub base_request : Option (CanonicalPlan Value) → Text → Option (List Text) → Value
  unfolding mode request_id with_packages
  base_request expected name packages = object (
      (codes "request_id", string (request_id expected))
      ∷ (codes "protocol_version", string (codes "1.0"))
      ∷ (codes "operation", string name)
      ∷ (
        codes "arguments",
        with_packages packages (object ((codes "mode", string (mode expected)) ∷ [])),
      )
      ∷ [])

  -- `utc_timestamp` formats a time by libc's `gmtime_r`.
  module _ (digests : Digests Value) (utc_timestamp : ℕ → Result Error Text) where
    unfoldable pub approval : CanonicalPlan Value → Text → Result Error Value
    approval plan worker_digest = do
      session ← digests.of_caller plan.caller
      expires ← utc_timestamp plan.expires_at
      ok (
          object (
            (codes "plan_digest", string worker_digest)
            ∷ (codes "broker_session_id", string session)
            ∷ (codes "authorization_id", string plan.id)
            ∷ (codes "expires_at", string expires)
            ∷ (codes "allow_source_change", boolean false)
            ∷ (codes "allow_essential_removal", boolean false)
            ∷ (codes "allow_held_change", boolean false)
            ∷ []))

    unfoldable pub with_approval :
        Operation → Option (CanonicalPlan Value) → Value → Result Error Value
    unfolding approval
    with_approval operation none request = ok request
    with_approval operation (some plan) request = do
      worker_digest ← ok_or (text_at plan.state (codes "plan_digest")) invalid_worker_plan
      reject (not (operation_beq plan.operation operation) || not (is_digest worker_digest))
          invalid_worker_plan
      a ← approval plan worker_digest
      ok (assign request (codes "approval") a)

    unfoldable pub apt_request : Operation → Option (CanonicalPlan Value) → Result Error Value
    unfolding with_approval base_request worker_call
    apt_request operation expected = do
      validate operation
      call ← worker_call operation
      with_approval operation expected (base_request expected call.0 call.1)

  abbrev pub same : Option Value → Option Value → Bool
  same none none = true
  same (some v) (some w) = equality.beq v w
  same _ _ = false

  -- The answer's protocol version, request id and operation are those of the request.
  unfoldable pub echoes : Value → Value → Bool
  echoes response request =
      option_text_beq (text_at response (codes "protocol_version")) (some (codes "1.0"))
      && same (get response (codes "request_id")) (get request (codes "request_id"))
      && same (get response (codes "operation")) (get request (codes "operation"))

  -- `response.pointer("/error/code")`
  pub error_code : Value → Option Text
  error_code response = elim (get response (codes "error")) [
    | none ↦ none
    | some e ↦ text_at e (codes "code")
  ]

  pub worker_error : Value → Error
  unfolding error_code
  worker_error response =
      if option_text_beq (error_code response) (some (codes "plan_digest_mismatch"))
      then state_changed_prepare_again
      else package_worker_failed

  abbrev pub object_at : Value → Text → Bool
  object_at value key = elim (get value key) [ none ↦ false | some v ↦ is_object v ]

  -- What a plan keeps of the worker's answer.
  pub planned : Value → Result Error Value
  planned response = do
    result ← ok_or (get response (codes "result")) invalid_worker_plan
    plan ← ok_or (get result (codes "canonical_plan")) invalid_worker_plan
    worker_digest ← ok_or (text_at result (codes "plan_digest")) invalid_worker_plan
    bytes ← ok_or (encode plan) invalid_worker_plan
    reject (ltb 262144 (length bytes)) package_plan_too_large
    reject (not (is_digest worker_digest)) invalid_worker_plan
    ok (object ((codes "canonical_plan", plan) ∷ (codes "plan_digest", string worker_digest) ∷ []))

  unfoldable pub interpret_apt_response : Text → Bool → Value → Bool → Result Error Value
  unfolding echoes worker_error planned
  interpret_apt_response output successful_exit request executing = do
    response ← ok_or (decode output) invalid_worker_response
    reject (not (echoes response request)) package_worker_failed
    reject (option_text_beq (text_at response (codes "status")) (some (codes "error")))
        (worker_error response)
    reject
        (not successful_exit
          || not (option_text_beq (text_at response (codes "status")) (some (codes "ok")))
          || not (object_at response (codes "result")))
        invalid_worker_response
    if executing then ok response else planned response
