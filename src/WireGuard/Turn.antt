-- ===== src/WireGuard/Turn.antt =====
-- One turn of the loop over the peers (service/wireguard.go) as a whole: what it adds to each list,
-- and what stands in the peer that it writes.
use mathlib.Core.Path.{subst}
use s_ui_next.JsonValue.{
  Value, Object, get, map_value, string_value, strings_value, interface_strings,
}
use s_ui_next.NetIp.{Prefix}
use s_ui_next.WireGuard.{
  Net, refuse, required, not_an_object, assigned_required, remote_sites_required,
  remote_sites_refused,
}
use s_ui_next.WireGuard.Peer.{
  Server, Seen, check_endpoint, check_keys, key_mode, set_key_mode, assigned_candidates, assign,
}
use s_ui_next.WireGuard.Roles.{has_any, peer_role, remote_mode, normalize_peer_role}
use s_ui_next.WireGuard.Routes.{
  take_sites, local_sites, set_sites, check_sites, take_runtime, check_runtime,
}
use s_ui_next.WireGuard.Server.{finish_peer, identify, place, route, check_peer}
use s_ui_next.WireGuard.PeerSteps.{check_runtime-step, set_runtime-runtime, finish_peer-get}
use s_ui_next.WireGuard.KeySteps.{
  HasSameKey, KeyStep, check_keys-step, set_key_mode-HasSameKey, assign-HasSameKey,
  set_sites-HasSameKey, set_runtime-HasSameKey,
}
use s_ui_next.Prelude.{
  ok-inj, ℕ, ◌≡◌, ◌∙◌, refl, sym, ap, String, comparable_string, ◌==◌, not, ◌&&◌, List, [], ok,
  bind-ok, bind-elim,
}

module _ (net : Net) where
  open net use {print}

  KeyStep-same :
      (server : Server) (index : ℕ) (seen next : Seen) (a b : Object)
      → HasSameKey b a
      → KeyStep net server index seen next a
      → KeyStep net server index seen next b
  KeyStep-same server index seen next a b h k = record {
    key = k.key;
    key_lem = ap string_value h ∙ k.key_lem;
    other_lem = k.other_lem;
    new_lem = k.new_lem;
    next_lem = k.next_lem;
  }

  identify-KeyStep :
      (server : Server) (index : ℕ) (given : Object) (seen : Seen)
      (r : String × String × Object × Seen)
      → identify net server index given seen ≡ ok r
      → KeyStep net server index seen (r.3) (r.2)
  unfolding identify
  identify-KeyStep server index given seen r e =
      let role = peer_role given in
      bind-elim (check_endpoint role (remote_mode given) (normalize_peer_role given)) _ e
        (λ placed q1 e2. bind-elim (check_keys net server index placed seen) _ e2 (λ keyed q2 e3.
          bind-elim (set_key_mode net (key_mode net role placed) placed) _ e3 (λ named q3 e4.
            subst
              (λ (x : String × String × Object × Seen). KeyStep net server index seen (x.3) (x.2))
              (ok-inj e4)
              (KeyStep-same server index seen keyed placed named
                (set_key_mode-HasSameKey net (key_mode net role placed) placed named q3)
                (check_keys-step net server index placed seen keyed q2)))))

  pub record Placed (server : Server) (named : Object) (seen : Seen) (peer : Object) (next : Seen)
      : Type 0 where
    pub candidates : List String
    pub assigned : Object × List Prefix × List Prefix
    pub assigned_lem : assign net server candidates named [] seen.assigned ≡ ok assigned
    pub values : List String
    pub sites : List Prefix × List Prefix
    pub sites_lem : take_sites net server values seen.remote_sites ≡ ok sites
    pub peer_lem : HasSameKey peer named
    pub next_lem : next ≡ record seen { assigned = assigned.2; remote_sites = sites.1 }

  Placed-sites :
      (server : Server) (role : String) (named : Object) (seen : Seen) (candidates : List String)
      (assigned : Object × List Prefix × List Prefix)
      → assign net server candidates named [] seen.assigned ≡ ok assigned
      → (r : List Prefix × Seen)
      → check_sites net server role (assigned.0) (record seen { assigned = assigned.2 }) ≡ ok r
      → Placed server named seen (assigned.0) (r.1)
  unfolding check_sites
  Placed-sites server role named seen candidates assigned q r e =
      let values = strings_value (get "remote_site_cidrs" (assigned.0)) in
      bind-elim (refuse (role == "site_gateway" && not (has_any values)) remote_sites_required) _ e
        (λ u q1 e1.
          bind-elim (refuse (not (role == "site_gateway") && has_any values) remote_sites_refused) _
            e1
            (λ v q2 e2.
              bind-elim (take_sites net server values seen.remote_sites) _ e2 (λ sites q3 e3.
                record {
                  candidates = candidates;
                  assigned = assigned;
                  assigned_lem = q;
                  values = values;
                  sites = sites;
                  sites_lem = q3;
                  peer_lem =
                      assign-HasSameKey net server candidates named [] seen.assigned assigned q;
                  next_lem = ap (λ (x : List Prefix × Seen). x.1) (sym (ok-inj e3));
                })))

  place-Placed :
      (server : Server) (role mode : String) (named : Object) (seen : Seen)
      (r : Object × List String × List String × Seen)
      → place net server role mode named seen ≡ ok r
      → Placed server named seen (r.0) (r.3)
  unfolding place check_sites
  place-Placed server role mode named seen r e =
      let candidates = assigned_candidates net named in
      bind-elim (refuse (mode == "generated_client" && not (has_any candidates)) assigned_required)
        _ e
        (λ u q e1.
          bind-elim (assign net server candidates named [] seen.assigned) _ e1 (λ assigned q1 e2.
            bind-elim
              (check_sites net server role (assigned.0) (record seen { assigned = assigned.2 })) _
              e2
              (λ sited q2 e3.
                subst
                  (λ (x : Object × List String × List String × Seen).
                    Placed server named seen (x.0) (x.3))
                  (ok-inj e3)
                  (Placed-sites server role named seen candidates assigned q1 sited q2))))

  pub record Routed (index : ℕ) (peer : Object) (seen : Seen) (out : Object) (next : Seen)
      : Type 0 where
    pub preset : String
    pub allowed : List String
    pub stored : List String
    pub taken_lem :
        take_runtime net preset index allowed [] seen.runtime ≡ ok (stored, next.runtime)
    pub stored_lem : get "runtime_allowed_ips" out ≡ interface_strings stored
    pub out_lem : HasSameKey out peer
    pub next_lem : next ≡ record seen { runtime = next.runtime }

  route-Routed :
      (server : Server) (index : ℕ) (role mode : String) (own remote : List String) (peer : Object)
      (seen : Seen) (r : Object × Seen)
      → route net server index role mode own remote peer seen ≡ ok r
      → Routed index peer seen (r.0) (r.1)
  unfolding route
  route-Routed server index role mode own remote peer seen r e =
      let (local, q7, e8) =
        bind-ok (local_sites net (strings_value (get "local_site_cidrs" peer))) _ e in
      let sited = set_sites net server role remote local peer in
      let (routed, q8, e9) = bind-ok (check_runtime net index role own remote sited seen) _ e8 in
      let (finished, q9, e10) =
        bind-ok (finish_peer net server mode role own local (routed.0)) _ e9 in
      let step = check_runtime-step net index role own remote sited seen (routed.0) (routed.1) q8 in
      let kept =
        finish_peer-get net "public_key" server mode role own local (routed.0) finished
          (refl, refl, refl, refl) q9 in
      let stays =
        finish_peer-get net "runtime_allowed_ips" server mode role own local (routed.0) finished
          (refl, refl, refl, refl) q9 in
      subst (λ (x : Object × Seen). Routed index peer seen (x.0) (x.1)) (ok-inj e10)
        (record {
          preset = step.preset;
          allowed = step.allowed;
          stored = step.stored;
          taken_lem = step.taken_lem;
          stored_lem =
              stays
              ∙ (ap (get "runtime_allowed_ips") step.out_lem
                  ∙ set_runtime-runtime net step.preset step.stored sited);
          out_lem =
              kept
              ∙ (ap (get "public_key") step.out_lem
                  ∙ (set_runtime-HasSameKey net step.preset step.stored sited
                      ∙ set_sites-HasSameKey net server role remote local peer));
          next_lem = step.next_lem;
        })

  pub record Turn (server : Server) (index : ℕ) (seen : Seen) (out : Object) (next : Seen)
      : Type 0 where
    pub named : Object
    pub keyed : Seen
    pub keys : KeyStep net server index seen keyed named
    pub addressed : Object
    pub sited : Seen
    pub placed : Placed server named keyed addressed sited
    pub routed : Routed index addressed sited out next

  pub check_peer-Turn :
      (server : Server) (index : ℕ) (value : Value) (seen : Seen) (r : Object × Seen)
      → check_peer net server index value seen ≡ ok r
      → Turn server index seen (r.0) (r.1)
  unfolding check_peer
  check_peer-Turn server index value seen r e =
      let (given, q, e1) = bind-ok (required not_an_object (map_value value)) _ e in
      let (known, q1, e2) = bind-ok (identify net server index given seen) _ e1 in
      let (put, q2, e3) = bind-ok (place net server (known.0) (known.1) (known.2) (known.3)) _ e2 in
      record {
        named = known.2;
        keyed = known.3;
        keys = identify-KeyStep server index given seen known q1;
        addressed = put.0;
        sited = put.3;
        placed = place-Placed server (known.0) (known.1) (known.2) (known.3) put q2;
        routed = route-Routed server index (known.0) (known.1) (put.1) (put.2) (put.0) (put.3) r e3;
      }
