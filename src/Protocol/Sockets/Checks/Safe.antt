-- ===== src/Protocol/Sockets/Checks/Safe.antt =====
-- What a configuration of the sockets that passes guarantees.
use sentia_linux.Base.{
  ◌≤◌, ◌≡◌, refl, ◌⊎◌, inl, inr, Bool, true, false, ◌&&◌, not, Option, some, Text, codes, arith,
  text_beq, text_beq_iff, Bool-cases, subst, ok, then-eq-ok, leb, leb→le,
}
use sentia_linux.Protocol.Requests.{protocol_version}
use sentia_linux.Protocol.Sockets.{
  require, require_or_panic, inference_socket_path, local_broker_socket_path,
  health_metrics_socket_path, SocketEndpointRole, inference_private, local_broker, health_metrics,
  user_router, SocketAccessScope, private_system, local_multi_user, per_user, SocketEndpointPolicy,
  IntegrationSocketDefaults,
}
use sentia_linux.Protocol.Sockets.Checks.{
  is_octal_mode, validate_socket_mode, is_documented, ensure_default_or_deviation,
  is_valid_user_router_path, is_scope, is_role, or_empty, validate_role, no_authority_message,
  validate_endpoint, validate_sockets, require_version, RouterConfig, validate_config,
}

-- A value is the default, or the reason for another is documented.
abbrev IsDefault : Text → Text → Option Text → Type 0
IsDefault actual expected reason = (actual ≡ expected) ⊎ (is_documented reason ≡ true)

abbrev IsFor : SocketEndpointRole → SocketEndpointPolicy → Type 0
IsFor inference_private e =
    (e.access_scope ≡ private_system)
    × IsDefault e.path inference_socket_path e.deviation_reason
    × IsDefault e.directory_mode_octal (codes "0700") e.deviation_reason
    × IsDefault (or_empty e.owner_user) (codes "sentia-inference") e.deviation_reason
    × (e.require_peer_uid_check ≡ true)
IsFor local_broker e =
    (e.access_scope ≡ local_multi_user)
    × IsDefault e.path local_broker_socket_path e.deviation_reason
    × (e.require_peer_uid_check ≡ true)
    × (e.enforce_peer_uid_quotas ≡ true)
IsFor health_metrics e =
    (e.access_scope ≡ local_multi_user)
    × IsDefault e.path health_metrics_socket_path e.deviation_reason
    × (e.nonsecret_metrics_only ≡ true)
    × (e.allow_cross_user_journal_access ≡ false)
IsFor user_router e =
    (e.access_scope ≡ per_user)
    × (is_valid_user_router_path e.path ≡ some true)
    × IsDefault e.socket_mode_octal (codes "0600") e.deviation_reason
    × (e.require_peer_uid_check ≡ true)

require-eq-ok : (b : Bool) (message : Text) → require b message ≡ ok tt → b ≡ true
require-eq-ok b message h = ground arith

IsDefault-eq-ok :
    (actual expected : Text) (reason : Option Text) (label : Text)
    → ensure_default_or_deviation actual expected reason label ≡ ok tt
    → IsDefault actual expected reason
unfolding ensure_default_or_deviation
IsDefault-eq-ok actual expected reason label h = elim (Bool-cases (text_beq actual expected)) [
  | inl same ↦ inl ((text_beq_iff actual expected).0 same)
  | inr other ↦ inr (ground arith)
]

mode-eq-ok :
    (mode field : Text) → validate_socket_mode mode field ≡ ok tt → is_octal_mode mode ≡ true
unfolding validate_socket_mode
mode-eq-ok mode field h = require-eq-ok (is_octal_mode mode) _ h

version-eq-ok : (b : Bool) → require_version b ≡ ok tt → b ≡ true
unfolding require_version
version-eq-ok true h = refl
version-eq-ok false h = absurd (cc h)

not-true : (b : Bool) → not b ≡ true → b ≡ false
not-true b h = ground arith

four_true :
    (a b c d : Bool) → (a && b && c && d) ≡ true → (a ≡ true) × (b ≡ true) × (c ≡ true) × (d ≡ true)
four_true a b c d h = ground arith

is_scope-eq : (s t : SocketAccessScope) → is_scope s t ≡ true → s ≡ t
is_scope-eq s t h = ground arith

is_role-eq : (r s : SocketEndpointRole) → is_role r s ≡ true → r ≡ s
is_role-eq r s h = ground arith

scope-eq-ok :
    (s t : SocketAccessScope) (message : Text) → require (is_scope s t) message ≡ ok tt → s ≡ t
scope-eq-ok s t message h = is_scope-eq s t (require-eq-ok (is_scope s t) message h)

path-eq-ok : (o : Option Bool) (message : Text) → require_or_panic o message ≡ ok tt → o ≡ some true
path-eq-ok o message h = ground arith

role-eq-ok :
    (role : SocketEndpointRole) (e : SocketEndpointPolicy)
    → validate_role role e ≡ ok tt
    → IsFor role e
unfolding validate_role
role-eq-ok inference_private e h = ground (
  arith,
  is_scope-eq e.access_scope private_system,
  IsDefault-eq-ok e.path inference_socket_path e.deviation_reason (codes "inference socket path"),
  IsDefault-eq-ok e.directory_mode_octal (codes "0700") e.deviation_reason
      (codes "inference directory mode"),
  IsDefault-eq-ok (or_empty e.owner_user) (codes "sentia-inference") e.deviation_reason
      (codes "inference owner user"),
)
role-eq-ok local_broker e h = ground (
  arith,
  is_scope-eq e.access_scope local_multi_user,
  IsDefault-eq-ok e.path local_broker_socket_path e.deviation_reason
      (codes "local broker socket path"),
)
role-eq-ok health_metrics e h = ground (
  arith,
  is_scope-eq e.access_scope local_multi_user,
  IsDefault-eq-ok e.path health_metrics_socket_path e.deviation_reason
      (codes "health metrics socket path"),
)
role-eq-ok user_router e h =
    let (s, r) = then-eq-ok (require (is_scope e.access_scope per_user) _) _ h in
    let (p, r') = then-eq-ok (require_or_panic (is_valid_user_router_path e.path) _) _ r in
    let (m, u) =
      then-eq-ok
        (ensure_default_or_deviation e.socket_mode_octal (codes "0600") e.deviation_reason
          (codes "user router socket mode"))
        _ r' in
    (
      scope-eq-ok e.access_scope per_user _ s,
      path-eq-ok (is_valid_user_router_path e.path) _ p,
      IsDefault-eq-ok e.socket_mode_octal (codes "0600") e.deviation_reason
          (codes "user router socket mode") m,
      require-eq-ok e.require_peer_uid_check _ u,
    )

-- What holds of an endpoint that passes: modes in octal, no authority to change the system, and
-- what its role asks for.
pub record IsGuarded (role : SocketEndpointRole) (e : SocketEndpointPolicy) : Type 0 where
  pub is_role : e.role ≡ role
  pub modes :
      (is_octal_mode e.directory_mode_octal ≡ true) × (is_octal_mode e.socket_mode_octal ≡ true)
  pub no_authority : e.privileged_mutation_authority ≡ false
  pub serves : IsFor role e

endpoint-eq-ok :
    (role : SocketEndpointRole) (e : SocketEndpointPolicy)
    → e.role ≡ role
    → validate_endpoint e ≡ ok tt
    → IsGuarded role e
unfolding validate_endpoint
endpoint-eq-ok role e r h =
    let (d, h1) =
      then-eq-ok (validate_socket_mode e.directory_mode_octal (codes "directory_mode_octal")) _ h in
    let (s, h2) =
      then-eq-ok (validate_socket_mode e.socket_mode_octal (codes "socket_mode_octal")) _ h1 in
    let (a, h3) =
      then-eq-ok (require (not e.privileged_mutation_authority) no_authority_message) _ h2 in
    record {
      is_role = r;
      modes = (
        mode-eq-ok e.directory_mode_octal (codes "directory_mode_octal") d,
        mode-eq-ok e.socket_mode_octal (codes "socket_mode_octal") s,
      );
      no_authority = not-true _ (require-eq-ok (not e.privileged_mutation_authority) _ a);
      serves = subst (λ x. IsFor x e) r (role-eq-ok e.role e h3);
    }

-- Every socket of a set that passes stands in its own slot and is guarded.
abbrev pub AreGuarded : IntegrationSocketDefaults → Type 0
AreGuarded s =
    IsGuarded inference_private s.inference
    × IsGuarded local_broker s.broker
    × IsGuarded health_metrics s.metrics
    × IsGuarded user_router s.router

sockets-eq-ok : (s : IntegrationSocketDefaults) → validate_sockets s ≡ ok tt → AreGuarded s
unfolding validate_sockets
sockets-eq-ok s h =
    let (roles, h1) =
      then-eq-ok
        (require
          (is_role s.inference.role inference_private
            && is_role s.broker.role local_broker
            && is_role s.metrics.role health_metrics
            && is_role s.router.role user_router)
          (codes "integration socket roles do not match required endpoint slots"))
        _ h in
    let (i, h2) = then-eq-ok (validate_endpoint s.inference) _ h1 in
    let (b, h3) = then-eq-ok (validate_endpoint s.broker) _ h2 in
    let (m, r) = then-eq-ok (validate_endpoint s.metrics) _ h3 in
    let (ri, rb, rm, rr) =
      four_true (is_role s.inference.role inference_private) (is_role s.broker.role local_broker)
        (is_role s.metrics.role health_metrics) (is_role s.router.role user_router)
        (require-eq-ok _ (codes "integration socket roles do not match required endpoint slots")
          roles) in
    (
      endpoint-eq-ok _ _ (is_role-eq s.inference.role inference_private ri) i,
      endpoint-eq-ok _ _ (is_role-eq s.broker.role local_broker rb) b,
      endpoint-eq-ok _ _ (is_role-eq s.metrics.role health_metrics rm) m,
      endpoint-eq-ok _ _ (is_role-eq s.router.role user_router rr) r,
    )

-- A configuration of the router that `validate` accepts has version sentia.v1 and a payload limit
-- within the protocol's, and its own socket is that of the policies, on a path that is valid. Each
-- of the four sockets has its role and scope, octal modes, and no authority to change the system;
-- inference, broker and router check the uid of the peer, the broker with quotas; metrics hold no
-- secrets and no journals of other users; a path, the mode of inference's directory and of the
-- router's socket, and the owner of inference are the defaults unless a reason is documented.
pub validate_config-eq-ok :
    (c : RouterConfig)
    → validate_config c ≡ ok tt
    → (c.version ≡ protocol_version)
      × (c.max_payload ≤ 262144)
      × (is_valid_user_router_path c.socket_path ≡ some true)
      × (c.socket_path ≡ c.integration_sockets.router.path)
      × AreGuarded c.integration_sockets
unfolding validate_config
validate_config-eq-ok c h =
    let (v, h1) = then-eq-ok (require_version (text_beq c.version protocol_version)) _ h in
    let (n, h2) = then-eq-ok (require (leb c.max_payload 262144) _) _ h1 in
    let (p, h3) = then-eq-ok (require_or_panic (is_valid_user_router_path c.socket_path) _) _ h2 in
    let (s, e) = then-eq-ok (validate_sockets c.integration_sockets) _ h3 in
    (
      (text_beq_iff _ _).0 (version-eq-ok _ v),
      leb→le _ _ (require-eq-ok _ _ n),
      path-eq-ok _ _ p,
      (text_beq_iff _ _).0 (require-eq-ok _ _ e),
      sockets-eq-ok c.integration_sockets s,
    )
