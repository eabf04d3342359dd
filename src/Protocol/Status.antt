-- ===== src/Protocol/Status.antt =====
-- crates/sentia-protocol/src/router.rs, RequestStatus: the life of a request.
pub mod Runs
use sentia_linux.Base.{Bool, true, false}

pub data RequestStatus : Type 0 where
  received queued awaiting_consent running_local running_remote fallback_to_local completed failed
        cancel_requested cancelled :
      RequestStatus

unfoldable pub is_valid_status_transition : RequestStatus → RequestStatus → Bool
is_valid_status_transition received queued = true
is_valid_status_transition received awaiting_consent = true
is_valid_status_transition queued running_local = true
is_valid_status_transition queued running_remote = true
is_valid_status_transition queued cancel_requested = true
is_valid_status_transition awaiting_consent running_remote = true
is_valid_status_transition awaiting_consent cancel_requested = true
is_valid_status_transition running_remote fallback_to_local = true
is_valid_status_transition running_remote completed = true
is_valid_status_transition running_remote failed = true
is_valid_status_transition running_remote cancel_requested = true
is_valid_status_transition fallback_to_local running_local = true
is_valid_status_transition running_local completed = true
is_valid_status_transition running_local failed = true
is_valid_status_transition running_local cancel_requested = true
is_valid_status_transition cancel_requested cancelled = true
is_valid_status_transition _ _ = false
