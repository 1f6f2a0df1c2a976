-- ===== src/Clients/Updates.antt =====
-- service/client.go: the link updates over the table. Two queries select the clients, and each is
-- saved as soon as it is changed.
use s_ui_next.Clients.Database.{Database, Error, has_id}
use s_ui_next.Clients.Links.{
  update_client_on_inbound_add, update_links_by_inbound_change, update_client_on_inbound_delete,
}
use s_ui_next.Clients.{Client, Inbound}
use s_ui_next.Prelude.{
  ℕ, String, comparable_nat, ◌==◌, Bool, List, [], ◌∷◌, map, any, Result, ok, ◌>>=◌,
}

-- The join with `json_each(clients.inbounds)`.
abbrev pub has_inbound : ℕ → Client → Bool
has_inbound id client = any (λ i. i == id) client.inbounds.decoded

module _ (db : Database) (link_generator : String → Inbound → List String) where
  open db use {Tx, find, save}

  unfoldable pub save_each : List Client → Tx → Result Error Tx
  save_each [] tx = ok tx
  save_each (client ∷ clients) tx = do saved ← save (client ∷ []) tx; save_each clients saved

  -- The clients with an inbound, by their ids.
  unfoldable pub update_found : (Client → Client) → List Client → Tx → Result Error Tx
  update_found change [] tx = ok tx
  update_found change (c ∷ found) tx = do
    clients ← find (λ client. has_id client.id (c ∷ found)) tx
    save_each (map change clients) tx

  unfoldable pub update_clients_on_inbound_delete : ℕ → String → Tx → Result Error Tx
  update_clients_on_inbound_delete id tag tx = do
    found ← find (has_inbound id) tx
    update_found (update_client_on_inbound_delete id tag) found tx

  unfoldable pub update_links_by_inbound_changes : List Inbound → String → Tx → Result Error Tx
  update_links_by_inbound_changes [] old_tag tx = ok tx
  update_links_by_inbound_changes (inbound ∷ inbounds) old_tag tx = do
    found ← find (has_inbound inbound.id) tx
    updated ← update_found (update_links_by_inbound_change link_generator inbound old_tag) found tx
    update_links_by_inbound_changes inbounds old_tag updated

  -- With the inbound that the second query loads.
  unfoldable pub update_clients_on_inbound_add : List ℕ → Inbound → Tx → Result Error Tx
  update_clients_on_inbound_add client_ids inbound tx = do
    clients ← find (λ client. any (λ id. id == client.id) client_ids) tx
    save_each (map (update_client_on_inbound_add link_generator inbound) clients) tx
