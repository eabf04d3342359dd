-- ===== src/Privileged/Executor/Apt/Answers.antt =====
-- Which answers of the package worker count (executor.rs, interpret_apt_response).
use sentia_linux.Base.{
  ◌≤◌, ◌≡◌, sym, Bool, true, ◌||◌, not, some, [], ◌∷◌, arith, Text, codes, length, ltb,
  if◌then◌else◌, text_eq, ok, reject, ok_or, then-eq-ok, bind-eq-ok, reject-eq-ok, not-false,
  option_text_beq, option_text_beq-some, within, ok_or-eq-ok, ok-injective,
}
use sentia_linux.Privileged.Operation.{
  invalid_worker_plan, invalid_worker_response, package_worker_failed, package_plan_too_large,
}
use sentia_linux.Privileged.Json.{Json}
use sentia_linux.Privileged.Executor.Apt.{
  is_digest, text_at, echoes, worker_error, object_at, planned, interpret_apt_response,
}

module _ (j : Json) where
  open j use {
    Value, equality, object, string, array, boolean, assign, get, as_str, is_object, encode, decode,
  }

  answer_tests :
      (exited good_status has_result : Bool)
      → reject (not exited || not good_status || not has_result) invalid_worker_response ≡ ok tt
      → (exited ≡ true) × (good_status ≡ true) × (has_result ≡ true)
  answer_tests exited good_status has_result h = ground arith

  -- What stands behind an answer that counts.
  pub record IsAnswered (output : Text) (successful_exit : Bool) (request : Value)
      (executing : Bool) (value : Value) : Type 0 where
    pub response : Value
    pub parsed : decode output ≡ some response
    pub exited : successful_exit ≡ true
    pub echoed : echoes j response request ≡ true
    pub good_status : text_at j response (codes "status") ≡ some (codes "ok")
    pub has_result : object_at j response (codes "result") ≡ true
    pub returned : (if executing then ok response else planned j response) ≡ ok value

  -- An answer of the worker counts only if it parses, echoes the request, says "ok" with a result
  -- object, and the worker exited successfully; an execution then returns the answer itself, and a
  -- preview what `planned` keeps of it.
  pub interpret_apt_response-eq-ok :
      (output : Text) (successful_exit : Bool) (request : Value) (executing : Bool) (value : Value)
      → interpret_apt_response j output successful_exit request executing ≡ ok value
      → IsAnswered output successful_exit request executing value
  unfolding interpret_apt_response
  interpret_apt_response-eq-ok output successful_exit request executing value h =
      let (response, parsed, r1) = bind-eq-ok (ok_or (decode output) invalid_worker_response) _ h in
      let (echo, r2) =
        then-eq-ok (reject (not (echoes j response request)) package_worker_failed) _ r1 in
      let (_, r3) =
        then-eq-ok
          (reject (option_text_beq (text_at j response (codes "status")) (some (codes "error")))
            (worker_error j response))
          _ r2 in
      let (tests, r4) =
        then-eq-ok
          (reject
            (not successful_exit
              || not (option_text_beq (text_at j response (codes "status")) (some (codes "ok")))
              || not (object_at j response (codes "result")))
            invalid_worker_response)
          _ r3 in
      let (exited, status, result) =
        answer_tests successful_exit
          (option_text_beq (text_at j response (codes "status")) (some (codes "ok")))
          (object_at j response (codes "result")) tests in
      record {
        response = response;
        parsed = ok_or-eq-ok _ invalid_worker_response parsed;
        exited = exited;
        echoed = not-false (echoes j response request) (reject-eq-ok _ _ echo);
        good_status = option_text_beq-some _ _ status;
        has_result = result;
        returned = r4;
      }

  -- What a preview keeps is the worker's plan, of at most 256 KiB, under the worker's own digest.
  pub planned-eq-ok :
      (response value : Value)
      → planned j response ≡ ok value
      → (result plan : Value) × (worker_digest bytes : Text) × (get response (codes "result")
          ≡ some result)
        × (get result (codes "canonical_plan") ≡ some plan)
        × (text_at j result (codes "plan_digest") ≡ some worker_digest)
        × (encode plan ≡ some bytes)
        × (length bytes ≤ 262144)
        × (is_digest worker_digest ≡ true)
        × (value
            ≡ object
                ((codes "canonical_plan", plan) ∷ (codes "plan_digest", string worker_digest) ∷ []))
  unfolding planned
  planned-eq-ok response value h =
      let (result, e1, r1) =
        bind-eq-ok (ok_or (get response (codes "result")) invalid_worker_plan) _ h in
      let (plan, e2, r2) =
        bind-eq-ok (ok_or (get result (codes "canonical_plan")) invalid_worker_plan) _ r1 in
      let (digest, e3, r3) =
        bind-eq-ok (ok_or (text_at j result (codes "plan_digest")) invalid_worker_plan) _ r2 in
      let (bytes, e4, r4) = bind-eq-ok (ok_or (encode plan) invalid_worker_plan) _ r3 in
      let (size, r5) =
        then-eq-ok (reject (ltb 262144 (length bytes)) package_plan_too_large) _ r4 in
      let (good, r6) = then-eq-ok (reject (not (is_digest digest)) invalid_worker_plan) _ r5 in
      (
        result,
        plan,
        digest,
        bytes,
        ok_or-eq-ok _ invalid_worker_plan e1,
        ok_or-eq-ok _ invalid_worker_plan e2,
        ok_or-eq-ok _ invalid_worker_plan e3,
        ok_or-eq-ok _ invalid_worker_plan e4,
        within 262144 (length bytes) (reject-eq-ok _ _ size),
        not-false (is_digest digest) (reject-eq-ok _ _ good),
        sym (ok-injective r6),
      )
