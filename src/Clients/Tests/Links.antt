-- ===== src/Clients/Tests/Links.antt =====
-- The link updates of service/client.go on one client, and their theorems there.
use s_ui_next.Clients.LinkLaws.{
  is_untagged, external_links, update_links_with_fixed_inbounds_idem,
  external_links-update_client_on_inbound_delete,
}
use s_ui_next.Clients.Links.{
  field, local_links, all_local_links, update_links_with_fixed_inbounds,
  update_client_on_inbound_add, update_links_by_inbound_change, update_client_on_inbound_delete,
}
use s_ui_next.Clients.{Client, Inbound, Link, marshal}
use s_ui_next.GoMap.{lookup}
use s_ui_next.Prelude.Int.{pos}
use s_ui_next.Prelude.{◌≡◌, refl, String, true, false, List, [], ◌∷◌, some, keep}

program : Unit {0}
unfolding lookup field local_links all_local_links update_links_with_fixed_inbounds
    update_client_on_inbound_add update_links_by_inbound_change update_client_on_inbound_delete
program = tt

abbrev generator : String → Inbound → List String
generator config inbound = "vless://x" ∷ []

abbrev subscription : Link
subscription = ("remark", "home") ∷ ("type", "sub") ∷ ("uri", "https://a") ∷ []

abbrev amy : Client
amy = record {
  id = 1;
  enable = true;
  name = "amy";
  sub_id = "s1";
  config = "{}";
  inbounds = marshal (3 ∷ []);
  links = marshal (subscription ∷ []);
  volume = pos 0;
  expiry = pos 0;
  down = 0;
  up = 0;
  delay_start = false;
  auto_reset = false;
  reset_days = pos 0;
  next_reset = pos 0;
  total_up = 0;
  total_down = 0;
}

abbrev vless : Inbound
vless = record { id = 4; tag = "vless-in" }

abbrev relinked : Client
relinked = record amy {
  links = marshal (
      (("remark", "vless-in") ∷ ("type", "local") ∷ ("uri", "vless://x") ∷ []) ∷ subscription ∷ []);
}

relinked_run : update_links_with_fixed_inbounds generator (vless ∷ []) amy ≡ some relinked
unfolding program
relinked_run = refl

update_links_with_fixed_inbounds_idem_example :
    (external_links relinked ≡ external_links amy)
    × (update_links_with_fixed_inbounds generator (vless ∷ []) relinked ≡ some relinked)
update_links_with_fixed_inbounds_idem_example =
    update_links_with_fixed_inbounds_idem generator (vless ∷ []) amy relinked_run

external_links-update_client_on_inbound_delete_example :
    (external_links
        (update_links_by_inbound_change generator (record { id = 3; tag = "home" }) "old" amy)
      ≡ external_links amy)
    × (external_links (update_client_on_inbound_add generator (record { id = 3; tag = "home" }) amy)
        ≡ keep (is_untagged "home") (external_links amy))
    × (external_links (update_client_on_inbound_delete 3 "home" amy)
        ≡ keep (is_untagged "home") (external_links amy))
external_links-update_client_on_inbound_delete_example =
    external_links-update_client_on_inbound_delete generator (record { id = 3; tag = "home" }) "old"
      amy

-- The subscription that has the inbound's tag as its remark is gone.
dropped : external_links (update_client_on_inbound_delete 3 "home" amy) ≡ []
unfolding program
dropped = refl
