-- ===== src/Clients/Tests/Updates.antt =====
-- A deletion of an inbound by service/client.go on a small table, and its theorem there.
use s_ui_next.Clients.Links.{field, update_client_on_inbound_delete}
use s_ui_next.Clients.Tests.{ListTx, store, list_database}
use s_ui_next.Clients.UpdateLaws.{where_true, update_clients_on_inbound_delete-rows}
use s_ui_next.Clients.Updates.{
  has_inbound, save_each, update_found, update_clients_on_inbound_delete,
}
use s_ui_next.Clients.{Client, Inbound, Link, marshal}
use s_ui_next.GoMap.{lookup}
use s_ui_next.Prelude.Int.{pos}
use s_ui_next.Prelude.{String, ◌≡◌, refl, true, false, List, [], ◌∷◌, map, All, ok}

program : Unit {0}
unfolding field update_client_on_inbound_delete store save_each update_found
    update_clients_on_inbound_delete lookup
program = tt

abbrev generator : String → Inbound → List String
generator config inbound = []

abbrev link_of_three : Link
link_of_three = ("remark", "three") ∷ ("type", "local") ∷ ("uri", "vless://x") ∷ []

abbrev amy : Client
amy = record {
  id = 1;
  enable = true;
  name = "amy";
  sub_id = "s1";
  config = "{}";
  inbounds = marshal (3 ∷ 4 ∷ []);
  links = marshal (link_of_three ∷ []);
  volume = pos 0;
  expiry = pos 0;
  down = 0;
  up = 0;
  delay_start = false;
  auto_reset = false;
  reset_days = pos 0;
  next_reset = pos 0;
  total_up = 0;
  total_down = 0;
}

abbrev bob : Client
bob = record amy { id = 2; inbounds = marshal (4 ∷ []); links = marshal [] }

abbrev before : ListTx
before = record { rows = amy ∷ bob ∷ []; log = []; samples = []; keyed = refl }

abbrev after : ListTx
after = record {
  rows = record amy { inbounds = marshal (4 ∷ []); links = marshal [] } ∷ bob ∷ [];
  log = [];
  samples = [];
  keyed = refl;
}

run : update_clients_on_inbound_delete list_database generator 3 "three" before ≡ ok after
unfolding program
run = refl

update_clients_on_inbound_delete-rows_example :
    (after.rows
      ≡ map (where_true (has_inbound 3) (update_client_on_inbound_delete 3 "three")) before.rows)
    × All (λ c. has_inbound 3 c ≡ false) after.rows
unfolding program
update_clients_on_inbound_delete-rows_example =
    update_clients_on_inbound_delete-rows list_database generator 3 "three" before after run
