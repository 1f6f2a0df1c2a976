-- ===== src/WireGuard/Roles.antt =====
-- `normalizePeerRole` of service/wireguard.go: roles and modes in old and new spelling.
use s_ui_next.GoMap.{insert}
use s_ui_next.JsonValue.{Object, json_string, get, string_value, strings_value, int_value}
use s_ui_next.Prelude.Int.{pos, ltb_ℤ}
use s_ui_next.Prelude.{
  String, comparable_string, ◌==◌, Bool, true, false, not, ◌||◌, List, [], ◌∷◌, if◌then◌else◌,
}

abbrev pub has_any {ℓ} : {A : Type ℓ} → List A → Bool
has_any [] = false
has_any (s ∷ ss) = true

-- The role where none is given, from the mode.
unfoldable pub role_of_mode : Object → String → String
role_of_mode peer mode =
    if mode == "static_peer"
    then "fixed_node"
    else if mode == "site_to_site"
    then (if has_any (strings_value (get "remote_site_cidrs" peer))
          || has_any (strings_value (get "local_site_cidrs" peer))
        then "site_gateway"
        else "fixed_node")
    else "client"

unfoldable pub current_role : String → String
current_role role =
    if role == "roaming_client"
    then "client"
    else if role == "static_peer"
    then "fixed_node"
    else if role == "site_to_site"
    then "site_gateway"
    else role

unfoldable pub mode_of_role : String → String
mode_of_role role =
    if role == "client"
    then "roaming_client"
    else if role == "fixed_node"
    then "static_peer"
    else if role == "site_gateway"
    then "site_to_site"
    else ""

unfoldable pub peer_role : Object → String
unfolding role_of_mode current_role
peer_role peer =
    let given = string_value (get "peer_role" peer) in
    current_role
      (if given == "" then role_of_mode peer (string_value (get "peer_mode" peer)) else given)

unfoldable pub remote_mode : Object → String
remote_mode peer =
    let given = string_value (get "remote_endpoint_mode" peer) in
    if given == ""
    then (if not (string_value (get "static_remote_address" peer) == "")
          || ltb_ℤ (pos 0) (int_value (get "static_remote_port" peer))
        then "static"
        else "dynamic")
    else given

-- The peer with its role and modes written out.
unfoldable pub normalize_peer_role : Object → Object
unfolding peer_role remote_mode mode_of_role
normalize_peer_role peer =
    let role = peer_role peer in
    insert "peer_mode" (json_string (mode_of_role role)) (
      insert "remote_endpoint_mode" (json_string (remote_mode peer))
        (insert "peer_role" (json_string role) peer))
