-- ===== src/Protocol/Sockets/Checks.antt =====
-- crates/sentia-protocol/src/router.rs: the checks of the socket policies and of the configuration of
-- the router.
pub mod Paths
pub mod Safe
use sentia_linux.Base.{
  is_blank, text_eq, ℕ, ◌-◌, Bool, true, false, ◌&&◌, ◌||◌, not, Option, none, some, List, [], ◌∷◌,
  ◌++◌, Text, codes, ltb, leb, ◌==◌, if◌then◌else◌, length, all, is_empty, take, drop, text_beq,
  starts_with, ends_with, is_ascii_digit, ok, err, ◌>>=◌, ◌>>◌,
}
use sentia_linux.Protocol.Errors.{contract_error, unsupported_version}
use sentia_linux.Protocol.Requests.{protocol_version, max_payload_bytes, RoutingPolicy}
use sentia_linux.Protocol.Sockets.{
  Check, contract, require, require_or_panic, inference_socket_path, local_broker_socket_path,
  health_metrics_socket_path, user_router_socket_template, run_user, router_sock,
  SocketEndpointRole, inference_private, local_broker, health_metrics, user_router,
  SocketAccessScope, private_system, local_multi_user, per_user, SocketEndpointPolicy,
  IntegrationSocketDefaults,
}

abbrev pub is_octal_digit : ℕ → Bool
is_octal_digit c = leb b'0' c && leb c b'7'

-- A mode has four characters, the first of them 0, the others octal digits.
pub is_octal_mode : Text → Bool
is_octal_mode [] = false
is_octal_mode (c ∷ mode) = length mode == 3 && c == b'0' && all is_octal_digit mode

validate_socket_mode : Text → Text → Check
unfolding is_octal_mode
validate_socket_mode mode field =
    require (is_octal_mode mode) (field ++ codes " must be a 4-char octal mode like 0700")

-- `reason.trim().is_empty()`, where there is a reason
pub is_documented : Option Text → Bool
is_documented none = false
is_documented (some reason) = not (is_blank [] reason)

ensure_default_or_deviation : Text → Text → Option Text → Text → Check
unfolding is_documented
ensure_default_or_deviation actual expected deviation_reason label =
    require (text_beq actual expected || is_documented deviation_reason)
      (label ++ codes " deviates from default and requires a documented deviation_reason")

-- `&s[a..b]` with the bytes between a and b, or a panic.
slice : Text → ℕ → ℕ → Option Text
slice s a b = if ltb b a || ltb (length s) b then none else some (take (b - a) (drop a s))

-- Whether the segment is a user id; a slice that panics has no answer.
is_uid_segment : Option Text → Option Bool
is_uid_segment none = none
is_uid_segment (some segment) = some (not (is_empty segment) && all is_ascii_digit segment)

unfoldable pub is_valid_user_router_path : Text → Option Bool
unfolding slice is_uid_segment
is_valid_user_router_path path =
    if text_beq path user_router_socket_template
    then some true
    else if not (starts_with path run_user) || not (ends_with path router_sock)
    then some false
    else is_uid_segment (slice path (length run_user) (length path - length router_sock))

abbrev is_scope : SocketAccessScope → SocketAccessScope → Bool
is_scope private_system private_system = true
is_scope local_multi_user local_multi_user = true
is_scope per_user per_user = true
is_scope _ _ = false

abbrev is_role : SocketEndpointRole → SocketEndpointRole → Bool
is_role inference_private inference_private = true
is_role local_broker local_broker = true
is_role health_metrics health_metrics = true
is_role user_router user_router = true
is_role _ _ = false

abbrev or_empty : Option Text → Text
or_empty none = []
or_empty (some s) = s

-- The checks of each role.
validate_role : SocketEndpointRole → SocketEndpointPolicy → Check
unfolding ensure_default_or_deviation is_valid_user_router_path
validate_role inference_private e = do
  require (is_scope e.access_scope private_system)
      (codes "inference endpoint must use private_system scope")
  ensure_default_or_deviation e.path inference_socket_path e.deviation_reason
      (codes "inference socket path")
  ensure_default_or_deviation e.directory_mode_octal (codes "0700") e.deviation_reason
      (codes "inference directory mode")
  ensure_default_or_deviation (or_empty e.owner_user) (codes "sentia-inference") e.deviation_reason
      (codes "inference owner user")
  require e.require_peer_uid_check (codes "inference socket must enforce peer uid checks")
validate_role local_broker e = do
  require (is_scope e.access_scope local_multi_user)
      (codes "local broker endpoint must use local_multi_user scope")
  ensure_default_or_deviation e.path local_broker_socket_path e.deviation_reason
      (codes "local broker socket path")
  require (e.require_peer_uid_check && e.enforce_peer_uid_quotas)
      (codes "local broker requires peer uid checks and quotas")
validate_role health_metrics e = do
  require (is_scope e.access_scope local_multi_user)
      (codes "health metrics endpoint must use local_multi_user scope")
  ensure_default_or_deviation e.path health_metrics_socket_path e.deviation_reason
      (codes "health metrics socket path")
  require e.nonsecret_metrics_only (codes "health metrics endpoint must remain nonsecret-only")
  require (not e.allow_cross_user_journal_access)
      (codes "health metrics endpoint must not expose unrestricted cross-user journals")
validate_role user_router e = do
  require (is_scope e.access_scope per_user) (codes "user router endpoint must use per_user scope")
  require_or_panic (is_valid_user_router_path e.path) (
      codes
        "user router socket path must be $XDG_RUNTIME_DIR/sentia/router.sock or /run/user/<uid>/sentia/router.sock")
  ensure_default_or_deviation e.socket_mode_octal (codes "0600") e.deviation_reason
      (codes "user router socket mode")
  require e.require_peer_uid_check (codes "user router endpoint must enforce peer uid checks")

abbrev pub no_authority_message : Text
no_authority_message =
    codes "public metrics and inference sockets must not grant privileged mutation authority"

pub validate_endpoint : SocketEndpointPolicy → Check
unfolding validate_socket_mode validate_role
validate_endpoint e = do
  validate_socket_mode e.directory_mode_octal (codes "directory_mode_octal")
  validate_socket_mode e.socket_mode_octal (codes "socket_mode_octal")
  require (not e.privileged_mutation_authority) no_authority_message
  validate_role e.role e

-- `IntegrationSocketDefaults::validate`
unfoldable pub validate_sockets : IntegrationSocketDefaults → Check
unfolding validate_endpoint
validate_sockets s = do
  require
      (is_role s.inference.role inference_private
        && is_role s.broker.role local_broker
        && is_role s.metrics.role health_metrics
        && is_role s.router.role user_router)
      (codes "integration socket roles do not match required endpoint slots")
  validate_endpoint s.inference
  validate_endpoint s.broker
  validate_endpoint s.metrics
  validate_endpoint s.router

pub require_version : Bool → Check
require_version true = ok tt
require_version false = err (
    contract
      (contract_error unsupported_version (codes "router config version is not sentia.v1") false))

pub record RouterConfig : Type 0 where
  pub version : Text
  pub socket_path : Text
  pub default_policy : RoutingPolicy
  pub allow_remote_providers : Bool
  pub max_in_flight_requests : ℕ
  pub max_queue_depth : ℕ
  pub max_payload : ℕ
  pub max_stream_event : ℕ
  pub allowed_provider_ids : List Text
  pub integration_sockets : IntegrationSocketDefaults

-- `RouterConfig::validate`
unfoldable pub validate_config : RouterConfig → Check
unfolding require_version validate_sockets is_valid_user_router_path
validate_config c = do
  require_version (text_beq c.version protocol_version)
  require (leb c.max_payload max_payload_bytes)
      (codes "router max_payload_bytes exceeds protocol bound")
  require_or_panic (is_valid_user_router_path c.socket_path) (
      codes
        "router socket_path must be $XDG_RUNTIME_DIR/sentia/router.sock or /run/user/<uid>/sentia/router.sock")
  validate_sockets c.integration_sockets
  require (text_beq c.socket_path c.integration_sockets.router.path)
      (codes "router socket_path must match integration_sockets.user_router.path")
