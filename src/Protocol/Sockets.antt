-- ===== src/Protocol/Sockets.antt =====
-- crates/sentia-protocol/src/router.rs: the policies of the four sockets, their defaults, and the
-- configuration of the router. A check ends with an error of the contract, or with the panic of a
-- slice whose end stands before its start.
pub mod Checks
use sentia_linux.Base.{
  Bool, true, false, Option, none, some, List, [], ◌∷◌, ◌++◌, Text, codes, Result, ok, err,
}
use sentia_linux.Protocol.Errors.{ContractError, contract_error, validation_failed}

pub data Fault : Type 0 where
  contract : ContractError → Fault
  slice_panic : Fault

abbrev pub Check : Type 0
Check = Result Fault (Unit {0})

-- `if !holds { return Err(...) }`, and a check that may panic.
abbrev pub require : Bool → Text → Check
require true message = ok tt
require false message = err (contract (contract_error validation_failed message false))

abbrev pub require_or_panic : Option Bool → Text → Check
require_or_panic none message = err slice_panic
require_or_panic (some b) message = require b message

abbrev pub inference_socket_path : Text
inference_socket_path = codes "/run/sentia-inference/llama.sock"

abbrev pub local_broker_socket_path : Text
local_broker_socket_path = codes "/run/sentia-local/broker.sock"

abbrev pub health_metrics_socket_path : Text
health_metrics_socket_path = codes "/run/sentia-health/metrics.sock"

abbrev pub user_router_socket_template : Text
user_router_socket_template = codes "$XDG_RUNTIME_DIR/sentia/router.sock"

abbrev pub run_user : Text
run_user = codes "/run/user/"

abbrev pub router_sock : Text
router_sock = codes "/sentia/router.sock"

pub data SocketEndpointRole : Type 0 where
  inference_private local_broker health_metrics user_router : SocketEndpointRole

pub data SocketAccessScope : Type 0 where
  private_system local_multi_user per_user : SocketAccessScope

pub record SocketEndpointPolicy : Type 0 where
  pub role : SocketEndpointRole
  pub access_scope : SocketAccessScope
  pub path : Text
  pub owner_user : Option Text
  pub directory_mode_octal : Text
  pub socket_mode_octal : Text
  pub require_peer_uid_check : Bool
  pub enforce_peer_uid_quotas : Bool
  pub nonsecret_metrics_only : Bool
  pub allow_cross_user_journal_access : Bool
  pub privileged_mutation_authority : Bool
  pub deviation_reason : Option Text

pub record IntegrationSocketDefaults : Type 0 where
  pub inference : SocketEndpointPolicy
  pub broker : SocketEndpointPolicy
  pub metrics : SocketEndpointPolicy
  pub router : SocketEndpointPolicy

-- `IntegrationSocketDefaults::default`
abbrev pub default_sockets : IntegrationSocketDefaults
default_sockets = record {
  inference = record {
    role = inference_private;
    access_scope = private_system;
    path = inference_socket_path;
    owner_user = some (codes "sentia-inference");
    directory_mode_octal = codes "0700";
    socket_mode_octal = codes "0600";
    require_peer_uid_check = true;
    enforce_peer_uid_quotas = true;
    nonsecret_metrics_only = false;
    allow_cross_user_journal_access = false;
    privileged_mutation_authority = false;
    deviation_reason = none;
  };
  broker = record {
    role = local_broker;
    access_scope = local_multi_user;
    path = local_broker_socket_path;
    owner_user = none;
    directory_mode_octal = codes "0755";
    socket_mode_octal = codes "0666";
    require_peer_uid_check = true;
    enforce_peer_uid_quotas = true;
    nonsecret_metrics_only = false;
    allow_cross_user_journal_access = false;
    privileged_mutation_authority = false;
    deviation_reason = none;
  };
  metrics = record {
    role = health_metrics;
    access_scope = local_multi_user;
    path = health_metrics_socket_path;
    owner_user = none;
    directory_mode_octal = codes "0755";
    socket_mode_octal = codes "0666";
    require_peer_uid_check = true;
    enforce_peer_uid_quotas = true;
    nonsecret_metrics_only = true;
    allow_cross_user_journal_access = false;
    privileged_mutation_authority = false;
    deviation_reason = none;
  };
  router = record {
    role = user_router;
    access_scope = per_user;
    path = user_router_socket_template;
    owner_user = none;
    directory_mode_octal = codes "0700";
    socket_mode_octal = codes "0600";
    require_peer_uid_check = true;
    enforce_peer_uid_quotas = true;
    nonsecret_metrics_only = false;
    allow_cross_user_journal_access = false;
    privileged_mutation_authority = false;
    deviation_reason = none;
  };
}

-- The names of the roles in `Debug`.
abbrev pub role_debug : SocketEndpointRole → Text
role_debug inference_private = codes "InferencePrivate"
role_debug local_broker = codes "LocalBroker"
role_debug health_metrics = codes "HealthMetrics"
role_debug user_router = codes "UserRouter"

abbrev pub with_deviation : SocketEndpointRole → Option Text → List Text → List Text
with_deviation role none rest = rest
with_deviation role (some reason) rest = (role_debug role ++ (codes ": " ++ reason)) ∷ rest

pub deviations_of : List SocketEndpointPolicy → List Text
deviations_of [] = []
deviations_of (e ∷ endpoints) = with_deviation e.role e.deviation_reason (deviations_of endpoints)

-- The documented deviations of the four sockets.
pub deviations : IntegrationSocketDefaults → List Text
unfolding deviations_of
deviations d = deviations_of (d.inference ∷ d.broker ∷ d.metrics ∷ d.router ∷ [])
