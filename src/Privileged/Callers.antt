-- ===== src/Privileged/Callers.antt =====
-- crates/sentia-privileged/src/service.rs: who a caller is (identify), and what polkit says
-- (authorize). D-Bus, logind and polkit answer through records, in the order of the questions.
pub mod Identity
use sentia_linux.Base.{
  ℕ, Bool, ◌||◌, not, Option, List, [], ◌∷◌, Text, codes, ltb, ◌==◌, text_eq, mem, length, Result,
  ok, err, ◌>>=◌, ◌>>◌, reject, ok_or, starts_with,
}
use sentia_linux.Privileged.Operation.{
  Error, invalid_bus_sender, bus_unavailable, caller_disconnected, session_service_unavailable,
  inactive_or_remote_session, caller_changed, invalid_action, authorization_unavailable,
  authorization_timeout, authorization_denied, missing_bus_sender, broker_busy,
}
use sentia_linux.Privileged.Broker.{Caller}

-- What D-Bus, /proc and logind say about a sender; `none` where the call fails.
pub record Peer : Type 0 where
  pub bus : Bool
  pub uid : Option ℕ
  pub pid : Option ℕ
  pub started : Result Error ℕ
  pub manager : Bool
  pub session_path : Option Text
  pub session : Bool
  pub active : Option Bool
  pub remote : Option Bool
  pub class : Option Text
  pub user : Option ℕ
  pub still_pid : Option ℕ
  pub started_again : Result Error ℕ

unfoldable pub identify : Peer → Text → Result Error Caller
identify peer unique_name = do
  reject (not (starts_with unique_name (codes ":")) || ltb 255 (length unique_name))
      invalid_bus_sender
  reject (not peer.bus) bus_unavailable
  uid ← ok_or peer.uid caller_disconnected
  pid ← ok_or peer.pid caller_disconnected
  process_start ← peer.started
  reject (not peer.manager) session_service_unavailable
  session_path ← ok_or peer.session_path inactive_or_remote_session
  reject (not peer.session) session_service_unavailable
  active ← ok_or peer.active inactive_or_remote_session
  remote ← ok_or peer.remote inactive_or_remote_session
  class ← ok_or peer.class inactive_or_remote_session
  user ← ok_or peer.user inactive_or_remote_session
  reject (not active || remote || not (text_eq.beq class (codes "user")) || not (user == uid))
      inactive_or_remote_session
  still_pid ← ok_or peer.still_pid caller_disconnected
  reject (not (still_pid == pid)) caller_changed
  again ← peer.started_again
  reject (not (again == process_start)) caller_changed
  ok (record {
    unique_name = unique_name;
    uid = uid;
    pid = pid;
    process_start = process_start;
    session = session_path;
  })

-- What polkit says within 90 seconds.
pub data Polkit : Type 0 where
  unavailable timed_out : Polkit
  decided : (authorized : Bool) → Polkit

unfoldable pub known_actions : List Text
known_actions =
    codes "org.sentia.system.service-start"
    ∷ codes "org.sentia.system.service-stop"
    ∷ codes "org.sentia.system.service-restart"
    ∷ codes "org.sentia.system.service-enable"
    ∷ codes "org.sentia.system.process-terminate"
    ∷ codes "org.sentia.system.package-install"
    ∷ codes "org.sentia.system.package-remove"
    ∷ codes "org.sentia.system.package-update"
    ∷ codes "org.sentia.system.package-upgrade"
    ∷ []

unfoldable pub decide : Polkit → Result Error (Unit {0})
decide unavailable = err authorization_unavailable
decide timed_out = err authorization_timeout
decide (decided authorized) = reject (not authorized) authorization_denied

-- `polkit` is the authority's answer about a caller and an action.
unfoldable pub authorize : (Caller → Text → Polkit) → Caller → Text → Result Error (Unit {0})
unfolding known_actions decide
authorize polkit caller action = do
  reject (not (mem action known_actions)) invalid_action
  decide (polkit caller action)

-- The caller of a method that has the operation lock.
unfoldable pub enter : Option Text → Peer → Bool → Result Error (Text × Caller)
unfolding identify
enter sender peer lock_free = do
  name ← ok_or sender missing_bus_sender
  caller ← identify peer name
  reject (not lock_free) broker_busy
  ok (name, caller)
