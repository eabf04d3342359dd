-- ===== src/Protocol/Transactions.antt =====
-- crates/sentia-protocol/src/transactions.rs: plans of changes to the system, in their canonical
-- order, and the messages by which they are approved. The encoding by serde_json is a parameter.
pub mod Canonical
use sentia_linux.Base.{
  ℕ, Bool, true, false, ◌&&◌, not, Option, none, some, List, [], ◌∷◌, ◌++◌, Text, codes, ltb,
  is_empty, text_beq, text_leb, sort_texts, if◌then◌else◌, Result, ok, err, ◌>>=◌, ◌>>◌,
}
use sentia_linux.Protocol.Errors.{
  ContractError, unsupported_version, validation_failed, internal, contract_error, ensure,
}
use sentia_linux.Protocol.Requests.{protocol_version}

pub data TransactionKind : Type 0 where
  apt_install apt_remove apt_update apt_upgrade service_start service_stop service_restart
        service_enable process_kill :
      TransactionKind

-- A number with its sign, for `i64`.
pub record PackageDelta : Type 0 where
  pub package_name : Text
  pub from_version : Option Text
  pub to_version : Option Text
  pub download_bytes : ℕ
  pub shrinks : Bool
  pub installed_size_delta_bytes : ℕ
  pub service_effect : Option Text

pub record ServiceDelta : Type 0 where
  pub service : Text
  pub action : Text
  pub expected_state : Option Text

pub record CanonicalTransactionPlan : Type 0 where
  pub version : Text
  pub plan_id : Text
  pub created_at_ms : ℕ
  pub requester_uid : ℕ
  pub kind : TransactionKind
  pub requested_targets : List Text
  pub package_changes : List PackageDelta
  pub service_changes : List ServiceDelta
  pub unknown_effects : List Text
  pub state_fingerprint_sha256 : Text
  pub approval_required : Bool

pub validate_plan : CanonicalTransactionPlan → Result ContractError (Unit {0})
validate_plan p = do
  ensure (text_beq p.version protocol_version) unsupported_version
      (codes "transaction plan version is not sentia.v1")
  ensure
      (not
        (is_empty p.requested_targets && is_empty p.package_changes && is_empty p.service_changes))
      validation_failed (codes "transaction plan has no targets or changes")

-- The order of optional texts, none first.
abbrev pub option_leb : Option Text → Option Text → Bool
option_leb none b = true
option_leb (some a) none = false
option_leb (some a) (some b) = text_leb a b

-- `a.package.cmp(&b.package).then(a.to_version.cmp(&b.to_version))`, not greater
abbrev pub package_leb : PackageDelta → PackageDelta → Bool
package_leb a b =
    if text_beq a.package_name b.package_name
    then option_leb a.to_version b.to_version
    else text_leb a.package_name b.package_name

abbrev pub service_leb : ServiceDelta → ServiceDelta → Bool
service_leb a b =
    if text_beq a.service b.service
    then text_leb a.action b.action
    else text_leb a.service b.service

-- `sort_by`, which is stable.
module _ {A : Type 0} (leq : A → A → Bool) where
  pub insert_by : A → List A → List A
  insert_by x [] = x ∷ []
  insert_by x (y ∷ ys) = if leq x y then x ∷ y ∷ ys else y ∷ insert_by x ys

  pub sort_by : List A → List A
  unfolding insert_by
  sort_by [] = []
  sort_by (x ∷ xs) = insert_by x (sort_by xs)

pub canonicalized : CanonicalTransactionPlan → CanonicalTransactionPlan
unfolding sort_by
canonicalized p = record p {
  requested_targets = sort_texts p.requested_targets;
  unknown_effects = sort_texts p.unknown_effects;
  package_changes = sort_by package_leb p.package_changes;
  service_changes = sort_by service_leb p.service_changes;
}

-- serde_json's text of a plan, or its failure.
encoded : Result Text Text → Result ContractError Text
encoded (ok json) = ok json
encoded (err e) =
    err (
      contract_error internal (codes "failed to serialize canonical transaction plan: " ++ e) false)

pub canonical_json :
    (CanonicalTransactionPlan → Result Text Text)
    → CanonicalTransactionPlan
    → Result ContractError Text
unfolding validate_plan canonicalized encoded
canonical_json to_string p = do validate_plan p; encoded (to_string (canonicalized p))

pub record RequiredEvidence : Type 0 where
  pub case_id : Text
  pub rationale : Text

pub record ApprovalBinding : Type 0 where
  pub session_id : Text
  pub caller_uid : ℕ
  pub operation_digest_sha256 : Text
  pub relevant_state_digest_sha256 : Text
  pub issued_at_ms : ℕ
  pub expires_at_ms : ℕ
  pub single_use : Bool
  pub polkit_action : Text

pub record ApprovalPlan : Type 0 where
  pub version : Text
  pub approval_id : Text
  pub transaction_plan : CanonicalTransactionPlan
  pub binding : ApprovalBinding
  pub required_evidence : List RequiredEvidence

unfoldable pub validate_approval : ApprovalPlan → Result ContractError (Unit {0})
unfolding validate_plan
validate_approval a = do
  ensure (text_beq a.version protocol_version) unsupported_version
      (codes "approval plan version is not sentia.v1")
  validate_plan a.transaction_plan
  ensure (ltb a.binding.issued_at_ms a.binding.expires_at_ms) validation_failed
      (codes "approval binding expiry must be after issued timestamp")
  ensure (not (is_empty a.required_evidence)) validation_failed
      (codes "approval plan requires at least one evidence requirement")
