-- ===== src/WireGuard/PeerSteps.antt =====
-- One turn of the loop over the peers (service/wireguard.go), taken apart: what it was given and what
-- it adds to each list.
use s_ui_next.GoMap.{insert}
use s_ui_next.JsonValue.{
  Object, json_string, json_bool, bool_value, get, string_value, interface_strings,
}
use s_ui_next.JsonValue.Laws.{get-insert, get-insert_other}
use s_ui_next.WireGuard.Client.{
  set_client, is_client_preset, client_allowed, filter_client, check_client,
}
use s_ui_next.WireGuard.{
  Net, refuse, no_family, unsupported_client_preset, client_allowed_required, client_allowed_empty,
  runtime_required,
}
use s_ui_next.WireGuard.Peer.{Server, Seen}
use s_ui_next.WireGuard.Roles.{has_any}
use s_ui_next.WireGuard.Routes.{
  runtime_preset, runtime_allowed, take_runtime, check_covered, set_runtime, check_runtime,
}
use s_ui_next.WireGuard.Server.{finish_peer}
use s_ui_next.Prelude.{
  ok-inj, ℕ, ◌≡◌, ◌∙◌, sym, ap, String, comparable_string, ◌==◌, Bool, false, not, ◌&&◌, List, [],
  ◌++◌, Bool-cases, inl, inr, if◌then◌else◌, ok, bind-ok,
}

-- A field that the client part does not write.
abbrev IsOutsideClient : String → Type 0
IsOutsideClient key =
    (("include_ipv4" == key) ≡ false)
    × (("include_ipv6" == key) ≡ false)
    × (("client_route_preset" == key) ≡ false)
    × (("client_allowed_ips" == key) ≡ false)

set_client-get :
    (key : String) (include4 include6 : Bool) (preset : String) (peer : Object)
    → IsOutsideClient key
    → get key (set_client include4 include6 preset peer) ≡ get key peer
set_client-get key include4 include6 preset peer (h4, h6, hp, ha) =
    let with4 = insert "include_ipv4" (json_bool include4) peer in
    let chosen = insert "include_ipv6" (json_bool include6) with4 in
    let kept : get key chosen ≡ get key peer =
      get-insert_other "include_ipv6" key (json_bool include6) with4 h6
      ∙ get-insert_other "include_ipv4" key (json_bool include4) peer h4 in
    elim (Bool-cases (string_value (get "client_route_preset" peer) == "")) [
      | inl y ↦
          rw y (get-insert_other "client_route_preset" key (json_string preset) chosen hp ∙ kept)
      | inr n ↦ rw n kept
    ]

module _ (net : Net) where
  check_client-get :
      (key : String) (server : Server) (role : String) (assigned local : List String)
      (peer out : Object)
      → IsOutsideClient key
      → check_client net server role assigned local peer ≡ ok out
      → get key out ≡ get key peer
  unfolding check_client client_allowed
  check_client-get key server role assigned local peer out h e =
      let include4 =
        bool_value (get "include_ipv4" peer)
          (not (string_value (get "assigned_ipv4" peer) == "")) in
      let include6 =
        bool_value (get "include_ipv6" peer)
          (not (string_value (get "assigned_ipv6" peer) == "")) in
      let given = string_value (get "client_route_preset" peer) in
      let preset = if given == "" then "virtual_network" else given in
      let base = client_allowed net server include4 include6 peer in
      let (u, q, e1) = bind-ok (refuse (not include4 && not include6) no_family) _ e in
      let (v, q1, e2) =
        bind-ok (refuse (not (is_client_preset preset)) unsupported_client_preset) _ e1 in
      let (w, q2, e3) = bind-ok (refuse (not (has_any base)) client_allowed_required) _ e2 in
      let (allowed, q3, e4) =
        bind-ok
          (filter_client net preset include4 include6 assigned
            (if role == "site_gateway" then base ++ local else base))
          _ e3 in
      let (x, q4, e5) = bind-ok (refuse (not (has_any allowed)) client_allowed_empty) _ e4 in
      sym (ap (get key) (ok-inj e5))
      ∙ (get-insert_other "client_allowed_ips" key (interface_strings allowed)
            (set_client include4 include6 preset peer) (h.3)
          ∙ set_client-get key include4 include6 preset peer h)

  pub finish_peer-get :
      (key : String) (server : Server) (mode role : String) (assigned local : List String)
      (peer out : Object)
      → IsOutsideClient key
      → finish_peer net server mode role assigned local peer ≡ ok out
      → get key out ≡ get key peer
  unfolding finish_peer
  finish_peer-get key server mode role assigned local peer out h e =
      elim (Bool-cases (mode == "generated_client")) [
        | inl y ↦
            check_client-get key server role assigned local peer out h (rw (y, finish_peer) at e)
        | inr n ↦ sym (ap (get key) (ok-inj (rw (n, finish_peer) at e)))
      ]

  pub record RuntimeStep (index : ℕ) (seen next : Seen) (peer out : Object) : Type 0 where
    pub preset : String
    pub allowed : List String
    pub stored : List String
    pub taken_lem :
        take_runtime net preset index allowed [] seen.runtime ≡ ok (stored, next.runtime)
    pub out_lem : out ≡ set_runtime net preset stored peer
    pub next_lem : next ≡ record seen { runtime = next.runtime }

  pub set_runtime-runtime :
      (preset : String) (stored : List String) (peer : Object)
      → get "runtime_allowed_ips" (set_runtime net preset stored peer) ≡ interface_strings stored
  unfolding set_runtime
  set_runtime-runtime preset stored peer =
      let texts = interface_strings stored in
      let first = insert "runtime_route_preset" (json_string preset) peer in
      get-insert "allowed_ips" "runtime_allowed_ips" texts
        (insert "server_allowed_ips" texts (insert "runtime_allowed_ips" texts first))
      ∙ (get-insert "server_allowed_ips" "runtime_allowed_ips" texts
            (insert "runtime_allowed_ips" texts first)
          ∙ get-insert "runtime_allowed_ips" "runtime_allowed_ips" texts first)

  pub check_runtime-step :
      (index : ℕ) (role : String) (assigned remote : List String) (peer : Object) (seen : Seen)
      (out : Object) (next : Seen)
      → check_runtime net index role assigned remote peer seen ≡ ok (out, next)
      → RuntimeStep index seen next peer out
  unfolding check_runtime
  check_runtime-step index role assigned remote peer seen out next e =
      let preset = runtime_preset net role assigned remote peer in
      let (allowed, q, e1) = bind-ok (runtime_allowed net preset role assigned remote peer) _ e in
      let (u, q1, e2) = bind-ok (refuse (not (has_any allowed)) runtime_required) _ e1 in
      let (taken, q2, e3) = bind-ok (take_runtime net preset index allowed [] seen.runtime) _ e2 in
      let (v, q3, e4) =
        bind-ok (check_covered net (taken.0) (if role == "site_gateway" then remote else [])) _
          e3 in
      let same = ok-inj e4 in
      let last = ap (λ r. r.1) same in
      record {
        preset = preset;
        allowed = allowed;
        stored = taken.0;
        taken_lem = q2 ∙ ap (λ (n : Seen). ok (taken.0, n.runtime)) last;
        out_lem = sym (ap (λ r. r.0) same);
        next_lem = sym last ∙ ap (λ (n : Seen). record seen { runtime = n.runtime }) last;
      }
