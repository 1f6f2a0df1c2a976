-- ===== src/Clients/Tests/Quota.antt =====
-- The quota job of service/client.go on a small table, and its theorems there.
use s_ui_next.Arrays.{union_uint_array}
use s_ui_next.Clients.Quota.{
  start_period, start_cycle, reset_usage, save_if_any, create_if_any, write_reset, reset_clients,
  disable_clients, deplete_clients, enabled_inbounds, disabled_inbounds, is_depleted,
}
use s_ui_next.Clients.QuotaRows.{deplete_row, lifetime}
use s_ui_next.Clients.QuotaLaws.{
  deplete_clients-rows, deplete_clients-enforces, deplete_clients-lifetime,
}
use s_ui_next.Clients.Tests.{ListTx, store, list_database}
use s_ui_next.Clients.{Client, marshal}
use s_ui_next.GoMap.{insert}
use s_ui_next.Prelude.Int.{pos}
use s_ui_next.Prelude.{◌≡◌, refl, true, false, [], ◌∷◌, map, All, ok}

program : Unit {0}
unfolding start_period start_cycle reset_usage save_if_any create_if_any write_reset reset_clients
    disable_clients deplete_clients enabled_inbounds disabled_inbounds store union_uint_array insert
program = tt

-- Over its quota.
abbrev amy : Client
amy = record {
  id = 1;
  enable = true;
  name = "amy";
  sub_id = "s1";
  config = "{}";
  inbounds = marshal (3 ∷ []);
  links = marshal [];
  volume = pos 100;
  expiry = pos 0;
  down = 90;
  up = 20;
  delay_start = false;
  auto_reset = false;
  reset_days = pos 0;
  next_reset = pos 0;
  total_up = 0;
  total_down = 0;
}

-- Disabled, and due for its monthly reset.
abbrev bob : Client
bob = record amy {
  id = 2;
  enable = false;
  name = "bob";
  auto_reset = true;
  reset_days = pos 30;
  next_reset = pos 50;
  inbounds = marshal (4 ∷ []);
}

abbrev before : ListTx
before = record { rows = amy ∷ bob ∷ []; log = []; samples = []; keyed = refl }

abbrev after : ListTx
after = record {
  rows =
      record amy { enable = false }
      ∷ record bob {
        enable = true;
        next_reset = pos 2592100;
        total_up = 20;
        total_down = 90;
        up = 0;
        down = 0;
      }
      ∷ [];
  log =
      record {
        date_time = 100;
        actor = "DepleteJob";
        key = "clients";
        action = "disable";
        obj = "\"amy\"";
      }
      ∷ [];
  samples = [];
  keyed = refl;
}

run : deplete_clients list_database 100 before ≡ ok (after, 4 ∷ 3 ∷ [], true)
unfolding program
run = refl

deplete_clients-rows_example : after.rows ≡ map (deplete_row 100) before.rows
unfolding program
deplete_clients-rows_example =
    deplete_clients-rows list_database 100 before after (4 ∷ 3 ∷ []) true run

deplete_clients-enforces_example : All (λ c. is_depleted 100 c ≡ false) after.rows
unfolding program
deplete_clients-enforces_example =
    deplete_clients-enforces list_database 100 before after (4 ∷ 3 ∷ []) true run

deplete_clients-lifetime_example : map lifetime after.rows ≡ map lifetime before.rows
unfolding program
deplete_clients-lifetime_example =
    deplete_clients-lifetime list_database 100 before after (4 ∷ 3 ∷ []) true run
