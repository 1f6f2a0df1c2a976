-- ===== src/WireGuard.antt =====
-- service/wireguard.go: WireGuard endpoints and their peers, as JSON objects: what is checked before
-- one is saved, how its secrets are hidden and put back, and the client configuration of a peer.
pub mod Roles
pub mod Peer
pub mod Routes
pub mod Client
pub mod Server
pub mod Secrets
pub mod Redaction
pub mod ExportText
pub mod Export
pub mod ManagedRoutes
pub mod Sets
pub mod SetLaws
pub mod Steps
pub mod KeySteps
pub mod Turn
pub mod Loop
pub mod Accepted
pub mod Endpoint
pub mod PeerSteps
pub mod Disjoint
pub mod SecretLaws
pub mod PeerTrip
pub mod RoundTrip
pub mod Tests
use s_ui_next.GoText.{trim_space, contains as contains_text}
use s_ui_next.NetIp.{Addr, Prefix, is_masked, is_link_local6}
use s_ui_next.Prelude.{
  ℕ, String, comparable_string, comparable_bool, ◌==◌, Bool, true, false, not, ◌&&◌, ◌||◌, List, [],
  ◌∷◌, Option, none, some, nat_eq, leb, ltb, if◌then◌else◌, Result, ok, err, ◌>>=◌,
}

-- What is called of the standard library and of wgctrl: `netip.ParsePrefix` and `Prefix.String`,
-- whether `wgtypes.ParseKey` accepts a key, and the public key of a private one.
pub record Net : Type 0 where
  pub parse : String → Option Prefix
  pub print : Prefix → String
  pub is_key : String → Bool
  pub public_key : String → String

pub data PeerError : Type 0 where
  not_an_object unsupported_role unsupported_mode static_remote_required : PeerError
  public_key_required invalid_public_key own_public_key duplicate_public_key invalid_psk : PeerError
  unsupported_key_mode assigned_required invalid_prefix host_mask_required server_address :
      PeerError
  family_twice outside_network overlaps_peer : PeerError
  remote_sites_required remote_sites_refused not_canonical default_route overlaps_network :
      PeerError
  overlaps_site sites_not_in_runtime unsupported_runtime_preset runtime_required : PeerError
  full_tunnel_required overlaps_runtime site_not_covered : PeerError
  no_family unsupported_client_preset client_allowed_required host_routes_required : PeerError
  points_back client_allowed_empty : PeerError

pub data WireGuardError : Type 0 where
  tag_required private_key_required invalid_private_key invalid_tunnel : WireGuardError
  address_required invalid_address outside_tunnel duplicate_address invalid_port : WireGuardError
  export_host_required export_port_required peers_required : WireGuardError
  bad_json : WireGuardError
  -- The number of the peer in the message.
  at_peer : ℕ → PeerError → WireGuardError

abbrev pub schema_version : ℕ
schema_version = 4

abbrev pub redacted_secret : String
redacted_secret = "[redacted]"

unfoldable pub is_redacted_secret : String → Bool
is_redacted_secret value =
    let trimmed = trim_space value in trimmed == redacted_secret || contains_text trimmed "•"

-- `if b { return nil, e }`
abbrev pub refuse {ℓ} : {E : Type ℓ} → Bool → E → Result E (Unit {0})
refuse true e = err e
refuse false e = ok tt

abbrev pub required {ℓ κ} : {E : Type ℓ} {A : Type κ} → E → Option A → Result E A
required e none = err e
required e (some a) = ok a

module _ (net : Net) where
  open net use {parse}

  abbrev pub parse_prefix {ℓ} : {E : Type ℓ} → E → String → Result E Prefix
  parse_prefix e value = required e (parse (trim_space value))

  -- The tests of `validateTunnel`, for the family that is wanted.
  unfoldable pub is_tunnel : Bool → Prefix → Bool
  is_tunnel ipv6 p =
      p.addr.is6 == ipv6
      && (is_masked p
          && (if ipv6
              then leb 48 p.bits && (leb p.bits 124 && not (is_link_local6 p.addr))
              else leb 8 p.bits && leb p.bits 30))

  unfoldable pub validate_tunnel : Bool → String → Result WireGuardError Prefix
  validate_tunnel ipv6 value = do
    p ← parse_prefix invalid_tunnel value
    valid ← refuse (not (is_tunnel ipv6 p)) invalid_tunnel
    ok p

  unfoldable pub validate_site_cidr : String → Result PeerError Prefix
  validate_site_cidr value = do
    p ← parse_prefix invalid_prefix value
    canonical ← refuse (not (is_masked p)) not_canonical
    bounded ← refuse (nat_eq p.bits 0) default_route
    ok p
