-- ===== src/Protocol/Tests.antt =====
-- The contracts at work.
use mathlib.Core.List.{Permᴰ}
use sentia_linux.Base.{
  ◌≤◌, ◌≡◌, ◌↔◌, ◌⊎◌, refl, true, false, none, some, List, [], ◌∷◌, ◌++◌, Text, is_blank, codes,
  Result, ok,
}
use sentia_linux.Protocol.Status.{
  RequestStatus, received, queued, running_remote, fallback_to_local, running_local,
  is_valid_status_transition,
}
use sentia_linux.Protocol.Status.Runs.{IsRun, last_status, IsFinal, is_outcome, IsRun-ends}
use sentia_linux.Protocol.Requests.{protocol_version, local_only}
use sentia_linux.Protocol.Sockets.{default_sockets, user_router_socket_template}
use sentia_linux.Protocol.Sockets.Checks.{
  is_valid_user_router_path, RouterConfig, validate_sockets, validate_config,
}
use sentia_linux.Protocol.Sockets.Checks.Paths.{
  without_uid, is_uid, uid_path, is_valid_user_router_path_iff,
}
use sentia_linux.Protocol.Sockets.Checks.Safe.{AreGuarded, validate_config-eq-ok}
use sentia_linux.Protocol.Tools.{required_v1, validate_complete_required_set}
use sentia_linux.Protocol.Tools.Registry.{IsRegistry, validate_complete_required_set_iff}
use sentia_linux.Protocol.Transactions.{
  CanonicalTransactionPlan, apt_install, canonical_json, canonicalized,
}
use sentia_linux.Protocol.Transactions.Canonical.{reordered, canonical_json_stable}

-- A reason of a no-break space and a space is blank, one of an inverted exclamation mark is not.
blank_reason : is_blank [] (194 ∷ 160 ∷ 32 ∷ []) ≡ true
blank_reason = refl

given_reason : is_blank [] (32 ∷ 194 ∷ 161 ∷ []) ≡ false
given_reason = refl

remote_then_local :
    IsRun received (queued ∷ running_remote ∷ fallback_to_local ∷ running_local ∷ [])
unfolding is_valid_status_transition
remote_then_local = (refl, (refl, (refl, (refl, tt))))

IsRun-ends_example :
    let s =
      last_status received (queued ∷ running_remote ∷ fallback_to_local ∷ running_local ∷ []) in
    (4 ≤ 6)
    × ((more : List RequestStatus) × IsRun s more × (is_outcome (last_status s more) ≡ true))
    × (IsFinal s ↔ (is_outcome s ≡ true))
IsRun-ends_example =
    IsRun-ends (queued ∷ running_remote ∷ fallback_to_local ∷ running_local ∷ []) remote_then_local

is_valid_user_router_path_iff_example :
    ((is_valid_user_router_path without_uid ≡ none) ↔ (without_uid ≡ without_uid))
    × ((is_valid_user_router_path without_uid ≡ some true) ↔ (
        (without_uid ≡ user_router_socket_template)
        ⊎ ((uid : Text) × (is_uid uid ≡ true) × (without_uid ≡ uid_path uid))))
is_valid_user_router_path_iff_example = is_valid_user_router_path_iff without_uid

default_sockets_pass : validate_sockets default_sockets ≡ ok tt
unfolding validate_sockets is_valid_user_router_path
default_sockets_pass = refl

abbrev config : RouterConfig
config = record {
  version = protocol_version;
  socket_path = user_router_socket_template;
  default_policy = local_only;
  allow_remote_providers = false;
  max_in_flight_requests = 4;
  max_queue_depth = 16;
  max_payload = 65536;
  max_stream_event = 8192;
  allowed_provider_ids = [];
  integration_sockets = default_sockets;
}

config_passes : validate_config config ≡ ok tt
unfolding validate_config is_valid_user_router_path
config_passes = refl

validate_config-eq-ok_example :
    (config.version ≡ protocol_version)
    × (65536 ≤ 262144)
    × (is_valid_user_router_path config.socket_path ≡ some true)
    × (config.socket_path ≡ default_sockets.router.path)
    × AreGuarded default_sockets
validate_config-eq-ok_example = validate_config-eq-ok config config_passes

required_v1_passes : validate_complete_required_set required_v1 ≡ ok tt
unfolding validate_complete_required_set
required_v1_passes = refl

validate_complete_required_set_iff_example :
    (validate_complete_required_set required_v1 ≡ ok tt) ↔ IsRegistry required_v1
validate_complete_required_set_iff_example = validate_complete_required_set_iff required_v1

abbrev install_plan : CanonicalTransactionPlan
install_plan = record {
  version = protocol_version;
  plan_id = codes "p";
  created_at_ms = 1;
  requester_uid = 1000;
  kind = apt_install;
  requested_targets = codes "vim" ∷ codes "curl" ∷ [];
  package_changes = [];
  service_changes = [];
  unknown_effects = [];
  state_fingerprint_sha256 = codes "f";
  approval_required = true;
}

abbrev listed : CanonicalTransactionPlan → Result Text Text
listed p = ok (list p.requested_targets)
  where
    list : List Text → Text
    list [] = []
    list (t ∷ ts) = t ++ list ts

canonical_json_stable_example :
    (canonical_json listed (reordered install_plan (codes "curl" ∷ codes "vim" ∷ []) [])
      ≡ canonical_json listed install_plan)
    × (canonical_json listed (canonicalized install_plan) ≡ canonical_json listed install_plan)
canonical_json_stable_example =
    canonical_json_stable listed install_plan (Permᴰ.swap refl refl) Permᴰ.nil
