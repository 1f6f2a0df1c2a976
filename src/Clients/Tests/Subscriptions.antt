-- ===== src/Clients/Tests/Subscriptions.antt =====
-- Addresses of subscriptions of service/client.go on a small table, and their theorem there.
use s_ui_next.Clients.Save.{try_sub_ids, new_client_sub_id}
use s_ui_next.Clients.Subscriptions.{
  lowest_id, first_by_id, give_sub_ids, ensure_client_sub_ids, by_name,
  get_enabled_by_subscription_key, LeadsTo, get_enabled_by_subscription_key-LeadsTo,
}
use s_ui_next.Clients.Tests.{ListTx, store, list_database}
use s_ui_next.Clients.{Client, Inbound, marshal}
use s_ui_next.GoText.{trim_left, trim_right, trim_space}
use s_ui_next.Prelude.Int.{pos}
use s_ui_next.Prelude.{ℕ, String, ◌≡◌, refl, true, false, List, [], ◌∷◌, ok}

program : Unit {0}
unfolding try_sub_ids new_client_sub_id lowest_id first_by_id give_sub_ids ensure_client_sub_ids
    by_name get_enabled_by_subscription_key store trim_left trim_right
program = tt

abbrev generator : String → Inbound → List String
generator config inbound = []

abbrev random : ℕ → String
random n = "fresh"

abbrev amy : Client
amy = record {
  id = 1;
  enable = true;
  name = "amy";
  sub_id = "";
  config = "{}";
  inbounds = marshal [];
  links = marshal [];
  volume = pos 0;
  expiry = pos 0;
  down = 0;
  up = 0;
  delay_start = false;
  auto_reset = false;
  reset_days = pos 0;
  next_reset = pos 0;
  total_up = 0;
  total_down = 0;
}

abbrev amy_with_id : Client
amy_with_id = record amy { sub_id = "fresh" }

abbrev before : ListTx
before = record { rows = amy ∷ []; log = []; samples = []; keyed = refl }

abbrev after : ListTx
after = record { rows = amy_with_id ∷ []; log = []; samples = []; keyed = refl }

-- By her name, which old addresses use; she gets a subscription id on the way.
run :
    get_enabled_by_subscription_key list_database random generator " amy" 0 before
    ≡ ok (amy_with_id, after)
unfolding program
run = refl

get_enabled_by_subscription_key-LeadsTo_example :
    LeadsTo list_database random generator (trim_space " amy") after amy_with_id
get_enabled_by_subscription_key-LeadsTo_example =
    get_enabled_by_subscription_key-LeadsTo list_database random generator " amy" 0 before after
      amy_with_id run
