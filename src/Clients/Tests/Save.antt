-- ===== src/Clients/Tests/Save.antt =====
-- `Save` of service/client.go on a small table, and its theorems there.
use s_ui_next.Arrays.{union_uint_array, diff_uint_array}
use s_ui_next.Clients.Links.{field, local_links, all_local_links, update_links_with_fixed_inbounds}
use s_ui_next.Clients.Save.{
  Payload, changed_inbounds, try_sub_ids, new_client_sub_id, existing_sub_id, keep_or_draw,
  ensure_client_sub_id, ensure_all, find_inbounds_changes, relink_all, update_links_of, save_new,
  save_edit, save_addbulk, change_all, save_editbulk, inbounds_of_ids, save_delbulk, save_del,
  save_client,
}
use s_ui_next.Clients.SaveLaws.{Deleted, save_client-Deleted, expected_links, update_links_of-first}
use s_ui_next.Clients.Tests.{ListTx, store, list_database}
use s_ui_next.Clients.{Client, Inbound, Link, marshal}
use s_ui_next.GoMap.{lookup, insert}
use s_ui_next.GoText.{trim_left, trim_right}
use s_ui_next.Prelude.Int.{pos}
use s_ui_next.Prelude.{
  ℕ, zero, suc, String, comparable_string, ◌≡◌, refl, true, false, List, [], ◌∷◌, map, some, none,
  ok,
}

program : Unit {0}
unfolding union_uint_array field local_links all_local_links update_links_with_fixed_inbounds
    changed_inbounds try_sub_ids new_client_sub_id existing_sub_id keep_or_draw ensure_client_sub_id
    ensure_all find_inbounds_changes relink_all update_links_of save_new save_edit save_addbulk
    change_all save_editbulk inbounds_of_ids save_delbulk save_del save_client store lookup insert
    trim_left trim_right diff_uint_array
program = tt

abbrev generator : String → Inbound → List String
generator config inbound = "vless://x" ∷ []

-- The first text is taken, the second is not.
abbrev random : ℕ → String
random zero = "s1"
random (suc n) = "fresh"

abbrev amy : Client
amy = record {
  id = 1;
  enable = true;
  name = "amy";
  sub_id = "s1";
  config = "{}";
  inbounds = marshal (3 ∷ []);
  links = marshal [];
  volume = pos 0;
  expiry = pos 0;
  down = 0;
  up = 0;
  delay_start = false;
  auto_reset = false;
  reset_days = pos 0;
  next_reset = pos 0;
  total_up = 0;
  total_down = 0;
}

abbrev bob : Client
bob = record amy { id = 2; name = "bob"; sub_id = "s2"; inbounds = marshal (4 ∷ []) }

abbrev before : ListTx
before = record { rows = amy ∷ bob ∷ []; log = []; samples = []; keyed = refl }

abbrev after : ListTx
after = record { rows = amy ∷ []; log = []; samples = []; keyed = refl }

abbrev two : Payload
two = record { as_client = none; as_clients = none; as_ids = none; as_id = some 2 }

run : save_client list_database random generator "del" two 0 before ≡ ok (after, 4 ∷ [])
unfolding program
run = refl

save_client-Deleted_example : Deleted list_database random generator 2 before after (4 ∷ [])
unfolding program
save_client-Deleted_example =
    save_client-Deleted list_database random generator two 2 0 before after (4 ∷ []) refl run

drawn : new_client_sub_id list_database random generator 0 before ≡ ok ("fresh", 2)
unfolding program
drawn = refl

-- Both get the link of the inbound 3, which bob does not have.
abbrev link_of_three : Link
link_of_three = ("remark", "in") ∷ ("type", "local") ∷ ("uri", "vless://x") ∷ []

abbrev relinked : List Client
relinked =
    record amy { links = marshal (link_of_three ∷ []) }
    ∷ record bob { links = marshal (link_of_three ∷ []) }
    ∷ []

relink_run : update_links_of list_database random generator amy (bob ∷ []) before ≡ ok relinked
unfolding program
relink_run = refl

update_links_of-first_example :
    (inbounds : List Inbound) × (list_database.find_inbounds (3 ∷ []) before ≡ ok inbounds)
    × (map (λ (c : Client). c.links.decoded) relinked
        ≡ map (expected_links list_database random generator inbounds) (amy ∷ bob ∷ []))
update_links_of-first_example =
    update_links_of-first list_database random generator amy (bob ∷ []) relinked before relink_run
