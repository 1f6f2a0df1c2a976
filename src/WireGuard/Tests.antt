-- ===== src/WireGuard/Tests.antt =====
-- A WireGuard endpoint with two clients, checked, hidden and put back, and the theorems at it.
use Prim.Native.String.{◌++◌ as concat}
use s_ui_next.GoMap.{lookup, insert, delete, has_key}
use s_ui_next.GoText.{trim_left, trim_right, contains as contains_text, join}
use s_ui_next.JsonValue.{
  Value, json_null, json_bool, json_number, json_string, Object, items_list, of_list, fields_map,
  of_map, get, map_value, entries, list_value, string_value, bool_value, digits_value, atoi,
  int_value, split_comma, strings_value, array, object,
}
use s_ui_next.NetIp.{Prefix, block}
use s_ui_next.WireGuard.{
  Net, WireGuardError, at_peer, overlaps_peer, is_redacted_secret, is_tunnel, validate_tunnel,
  validate_site_cidr,
}
use s_ui_next.WireGuard.Client.{client_allowed, filter_client, check_client}
use s_ui_next.WireGuard.Endpoint.{HasApartRoutes, peers_of, accepted-HasApartRoutes, accepted-keys}
use s_ui_next.WireGuard.Accepted.{key_of}
use s_ui_next.WireGuard.Peer.{
  check_endpoint, check_keys, key_mode, set_key_mode, first_host, assigned_candidates,
  check_assigned, assign,
}
use s_ui_next.WireGuard.Roles.{
  role_of_mode, current_role, mode_of_role, peer_role, remote_mode, normalize_peer_role,
}
use s_ui_next.WireGuard.Routes.{
  take_sites, local_sites, check_sites, set_sites, runtime_preset, runtime_allowed, take_runtime,
  check_covered, set_runtime, check_runtime,
}
use s_ui_next.WireGuard.Server.{
  finish_peer, identify, place, route, check_peer, check_peers, optional_tunnel, take_addresses,
  own_key, check_export, set_forwarding, check_server, validate_endpoint, is_current,
  normalize_and_validate,
}
use s_ui_next.WireGuard.Sets.{count_at, count_all, use_up, same_string_set}
use s_ui_next.WireGuard.Export.{
  export_peer, address_texts, client_addresses, once_each, client_routes, server_key, client_dns,
  config_text,
}
use s_ui_next.WireGuard.ExportText.{
  decimal_of, trim_left_brackets, trim_right_brackets, host_port, file_name, base_from, legacy_key,
}
use s_ui_next.WireGuard.Redaction.{
  text, is_hidden, is_hidden_peer, has_no_key, old_keys, redact_secrets-hidden,
}
use s_ui_next.WireGuard.RoundTrip.{merge_secrets-redact_secrets}
use s_ui_next.WireGuard.Secrets.{
  set_redacted_secret, on_elements, redact_peer, redact_ext, on_field, redact_secrets,
  value_explicitly_false, collect, ext_secrets, peer_secrets, peers_by_public, old_peer,
  merge_client_key, merge_psk, merge_peer, merge_peers, stored_of, merge_own_key, merge_secrets,
}
use s_ui_next.WireGuard.SetLaws.{occurs, same_string_set-occurs}
use s_ui_next.Prelude.Int.{pos}
use s_ui_next.Prelude.{
  ℕ, String, comparable_string, ◌==◌, true, false, not, ◌&&◌, List, [], ◌∷◌, Option, none, some,
  get_elem?, length, All, ◌↔◌, if◌then◌else◌, Result, ok, err, ◌≡◌, refl, nat_eq,
}

program : Unit {0}
unfolding lookup insert delete has_key trim_left trim_right contains_text join items_list of_list
    fields_map of_map get map_value entries list_value string_value bool_value digits_value atoi
    int_value split_comma strings_value block is_redacted_secret is_tunnel validate_tunnel
    validate_site_cidr client_allowed filter_client check_client check_endpoint check_keys key_mode
    set_key_mode first_host assigned_candidates check_assigned assign role_of_mode current_role
    mode_of_role peer_role remote_mode normalize_peer_role take_sites local_sites check_sites
    set_sites runtime_preset runtime_allowed take_runtime check_covered set_runtime check_runtime
    finish_peer identify place route check_peer check_peers optional_tunnel take_addresses own_key
    check_export set_forwarding check_server validate_endpoint is_current normalize_and_validate
    count_at count_all use_up same_string_set export_peer decimal_of trim_left_brackets
    trim_right_brackets host_port file_name base_from legacy_key address_texts client_addresses
    once_each client_routes server_key client_dns config_text set_redacted_secret on_elements
    redact_peer redact_ext on_field redact_secrets value_explicitly_false collect ext_secrets
    peer_secrets peers_by_public old_peer merge_client_key merge_psk merge_peer merge_peers
    stored_of merge_own_key merge_secrets
program = tt

-- The prefixes that the examples name, and their texts.
abbrev prefix4 : ℕ → ℕ → Prefix
prefix4 value bits = record { addr = record { is6 = false; value = value }; bits = bits }

abbrev named : List (String × Prefix)
named =
    ("10.0.0.0/24", prefix4 167772160 24)
    ∷ ("10.0.0.1/32", prefix4 167772161 32)
    ∷ ("10.0.0.2/32", prefix4 167772162 32)
    ∷ ("10.0.0.3/32", prefix4 167772163 32)
    ∷ []

abbrev text_of : Prefix → List (String × Prefix) → String
text_of p [] = ""
text_of p (entry ∷ rest) =
    if nat_eq entry.1.addr.value p.addr.value && nat_eq entry.1.bits p.bits
    then entry.0
    else text_of p rest

abbrev net : Net
net = record {
  parse = λ s. lookup s named;
  print = λ p. text_of p named;
  is_key = λ s. not (s == "bad");
  public_key = λ s. concat "public of " s;
}

abbrev client : String → String → Object
client key address =
    ("peer_role", json_string "client")
    ∷ ("public_key", json_string key)
    ∷ ("client_private_key", json_string (concat "private of " key))
    ∷ ("pre_shared_key", json_string "shared")
    ∷ ("assigned_ipv4", json_string address)
    ∷ []

abbrev endpoint : Object
endpoint =
    ("type", json_string "wireguard")
    ∷ ("wireguard_schema", json_number (pos 4))
    ∷ ("tag", json_string "wg")
    ∷ ("private_key", json_string "own")
    ∷ ("tunnel_ipv4_cidr", json_string "10.0.0.0/24")
    ∷ ("address", array (json_string "10.0.0.1/32" ∷ []))
    ∷ ("peers", array (object (client "a" "10.0.0.2/32") ∷ object (client "b" "10.0.0.3/32") ∷ []))
    ∷ []

-- What is stored of it.
abbrev or_nothing : Result WireGuardError Object → Object
or_nothing (ok out) = out
or_nothing (err e) = []

abbrev or_null_value : Option Value → Value
or_null_value none = json_null
or_null_value (some v) = v

abbrev out : Object
out = or_nothing (normalize_and_validate net (some endpoint))

abbrev peer : ℕ → Value
peer i = or_null_value (get_elem? (peers_of net out) i)

keeps_peers : length (peers_of net out) ≡ 2
unfolding program
keeps_peers = refl

runtime_routes :
    get "runtime_allowed_ips" (entries (peer 1)) ≡ array (json_string "10.0.0.3/32" ∷ [])
unfolding program
runtime_routes = refl

-- The second client with the address of the first.
clashes :
    normalize_and_validate net (
      some (
        insert "peers"
          (array (object (client "a" "10.0.0.2/32") ∷ object (client "b" "10.0.0.2/32") ∷ []))
          endpoint))
    ≡ err (at_peer 2 overlaps_peer)
unfolding program
clashes = refl

accepted-HasApartRoutes_example : HasApartRoutes net (peer 0) (peer 1)
unfolding program
accepted-HasApartRoutes_example =
    accepted-HasApartRoutes net endpoint out 0 1 (peer 0) (peer 1) refl refl refl refl refl

accepted-keys_example :
    ((key_of net (peer 0) == key_of net (peer 1)) ≡ false)
    × ((key_of net (peer 0) == "public of own") ≡ false)
unfolding program
accepted-keys_example =
    accepted-keys net endpoint out 0 1 (peer 0) (peer 1) refl refl refl refl refl

redact_secrets-hidden_example :
    (is_hidden (text "private_key" (redact_secrets endpoint)) ≡ true)
    × All (λ v. is_hidden_peer v ≡ true) (list_value (get "peers" (redact_secrets endpoint)))
    × All (λ v. has_no_key v ≡ true) (old_keys (get "ext" (redact_secrets endpoint)))
redact_secrets-hidden_example = redact_secrets-hidden endpoint

hides : get "private_key" (redact_secrets endpoint) ≡ json_string "[redacted]"
unfolding program
hides = refl

merge_secrets-redact_secrets_example :
    (text "private_key" (merge_secrets (redact_secrets endpoint) endpoint [])
      ≡ text "private_key" endpoint)
    × (m : Object) × (get_elem?
          (list_value (get "peers" (merge_secrets (redact_secrets endpoint) endpoint [])))
          1
        ≡ some (object m))
    × ((text "client_private_key" m ≡ "private of b") × (text "pre_shared_key" m ≡ "shared"))
unfolding program
merge_secrets-redact_secrets_example =
    merge_secrets-redact_secrets endpoint [] 1 (client "b" "10.0.0.3/32") ((refl, tt), (tt, tt))
      refl refl refl refl

same_string_set-occurs_example :
    (same_string_set ("a" ∷ "b" ∷ []) ("b " ∷ "a" ∷ []) ≡ true)
    ↔ ((key : String) → occurs key ("a" ∷ "b" ∷ []) ≡ occurs key ("b " ∷ "a" ∷ []))
same_string_set-occurs_example = same_string_set-occurs ("a" ∷ "b" ∷ []) ("b " ∷ "a" ∷ [])

exports :
    export_peer net "wg"
      (some (
        insert "advertised_endpoint_host" (json_string "vpn.example") (
          insert "advertised_endpoint_port"
            (json_number (pos 51820))
            (insert "client_export_enabled" (json_bool true) out))))
      []
      0
    ≡ ok (record {
      name = "Peer 1";
      filename = "wg_Peer_1.conf";
      config =
          "[Interface]\nPrivateKey = private of a\nAddress = 10.0.0.2/32\n\n[Peer]\nPublicKey = public of own\nPresharedKey = shared\nAllowedIPs = 10.0.0.0/24\nEndpoint = vpn.example:51820\n";
    })
unfolding program
exports = refl
