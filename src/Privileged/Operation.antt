-- ===== src/Privileged/Operation.antt =====
-- crates/sentia-privileged/src/lib.rs: errors, the typed operations, and their validation.
-- A `&'static str` error code is a constructor of `Error`; a text is its bytes.
pub mod Names
pub mod Validity
use sentia_linux.Base.{
  ℕ, Bool, false, ◌&&◌, ◌||◌, not, Option, none, some, List, [], ◌∷◌, ◌-◌, Text, codes, ltb, leb,
  ◌==◌, if◌then◌else◌, length, is_empty, all, mem, contains, ends_with, take, is_ascii_alphanumeric,
  is_ascii_lowercase, is_ascii_digit, Result, ok, ◌>>=◌, ◌>>◌, reject, ok_or, nat_eq, text_eq,
}

-- The codes that `Error(&'static str)` carries.
pub data Error : Type 0 where
  invalid_unit invalid_package invalid_packages duplicate_package invalid_pid : Error
  request_too_large invalid_request unsupported_version serialization_failed : Error
  too_many_pending_plans entropy_unavailable invalid_time invalid_plan_reference : Error
  unknown_or_used_plan caller_changed plan_expired plan_digest_changed : Error
  state_changed_prepare_again plan_changed process_changed cannot_terminate_broker : Error
  untrusted_path path_unavailable untrusted_unit_file unit_file_unavailable : Error
  unit_file_too_large subprocess_io_failed subprocess_output_limit subprocess_failed : Error
  executable_not_allowed helper_unavailable subprocess_timeout invalid_helper_output : Error
  unit_unavailable_or_stale transient_units_not_allowed invalid_process_state : Error
  process_unavailable pidfd_unavailable process_check_failed process_signal_denied : Error
  clock_unavailable invalid_package_operation invalid_worker_plan : Error
  invalid_worker_response package_worker_failed package_plan_too_large : Error
  invalid_bus_sender bus_unavailable caller_disconnected session_service_unavailable : Error
  inactive_or_remote_session invalid_action authorization_unavailable : Error
  authorization_timeout authorization_denied missing_bus_sender broker_busy : Error

pub data ServiceAction : Type 0 where
  start stop restart enable : ServiceAction

unfoldable pub argument : ServiceAction → Text
argument start = codes "start"
argument stop = codes "stop"
argument restart = codes "restart"
argument enable = codes "enable"

pub data Operation : Type 0 where
  service : (action : ServiceAction) (unit : Text) → Operation
  process_kill : (pid : ℕ) → Operation
  apt_install : (packages : List Text) → Operation
  apt_remove : (packages : List Text) → Operation
  apt_update apt_upgrade : Operation

-- `str::strip_suffix`
unfoldable pub strip_suffix : Text → Text → Option Text
strip_suffix s suffix =
    if ends_with s suffix then some (take (length s - length suffix) s) else none

-- The first byte of a text passes a test; a text with no first byte does not.
abbrev pub first_byte : (ℕ → Bool) → Text → Bool
first_byte p [] = false
first_byte p (c ∷ s) = p c

abbrev pub is_unit_byte : ℕ → Bool
is_unit_byte c = is_ascii_alphanumeric c || mem c (codes "_.-")

unfoldable pub validate_unit : Text → Result Error (Unit {0})
validate_unit unit = do
  stem ← ok_or (strip_suffix unit (codes ".service")) invalid_unit
  reject
      (ltb 255 (length unit)
        || is_empty stem
        || not (first_byte is_ascii_alphanumeric stem)
        || not (all is_unit_byte stem)
        || contains unit (codes ".."))
      invalid_unit

abbrev pub is_package_byte : ℕ → Bool
is_package_byte c = is_ascii_lowercase c || is_ascii_digit c || mem c (codes "+.-")

unfoldable pub validate_package : Text → Result Error (Unit {0})
validate_package pkg =
    reject
      (ltb (length pkg) 2
        || ltb 128 (length pkg)
        || (not (first_byte is_ascii_lowercase pkg) && not (first_byte is_ascii_digit pkg))
        || not (all is_package_byte pkg))
      invalid_package

-- The loop over the packages of a request; `unique` holds those that were seen.
unfoldable pub validate_packages : List Text → List Text → Result Error (Unit {0})
validate_packages unique [] = ok tt
validate_packages unique (pkg ∷ packages) = do
  validate_package pkg
  reject (mem pkg unique) duplicate_package
  validate_packages (pkg ∷ unique) packages

unfoldable pub validate : Operation → Result Error (Unit {0})
unfolding validate_packages
validate (service action unit) = validate_unit unit
validate (process_kill pid) = reject (leb pid 1 || ltb 2147483647 pid) invalid_pid
validate (apt_install packages) = do
  reject (is_empty packages || ltb 64 (length packages)) invalid_packages
  validate_packages [] packages
validate (apt_remove packages) = do
  reject (is_empty packages || ltb 64 (length packages)) invalid_packages
  validate_packages [] packages
validate apt_update = ok tt
validate apt_upgrade = ok tt

-- The polkit action that authorizes an operation.
unfoldable pub action_id : Operation → Text
action_id (service start unit) = codes "org.sentia.system.service-start"
action_id (service stop unit) = codes "org.sentia.system.service-stop"
action_id (service restart unit) = codes "org.sentia.system.service-restart"
action_id (service enable unit) = codes "org.sentia.system.service-enable"
action_id (process_kill pid) = codes "org.sentia.system.process-terminate"
action_id (apt_install packages) = codes "org.sentia.system.package-install"
action_id (apt_remove packages) = codes "org.sentia.system.package-remove"
action_id apt_update = codes "org.sentia.system.package-update"
action_id apt_upgrade = codes "org.sentia.system.package-upgrade"

-- The source reads the version and the operation from JSON by serde, which is the parameter `parse`.
pub parse_request : (Text → Option (ℕ × Operation)) → Text → Result Error Operation
unfolding validate
parse_request parse json = do
  reject (ltb 16384 (length json)) request_too_large
  request ← ok_or (parse json) invalid_request
  reject (not (request.0 == 1)) unsupported_version
  validate request.1
  ok request.1
