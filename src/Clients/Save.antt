-- ===== src/Clients/Save.antt =====
-- service/client.go: `Save` with what it calls: subscription ids, changed inbounds and links. A
-- request's JSON is its four readings; `random` is the sequence of random texts, `drawn` how many of
-- them have been used. What is found is given back with the rows to save.
use s_ui_next.Arrays.{union_uint_array, diff_uint_array}
use s_ui_next.Clients.Database.{
  Database, Error, not_found, bad_json, empty_bulk, unknown_action, no_unique_id,
}
use s_ui_next.Clients.Links.{update_links_with_fixed_inbounds}
use s_ui_next.Clients.{Client, Inbound, Json}
use s_ui_next.GoText.{trim_space}
use s_ui_next.Prelude.{
  ℕ, zero, suc, String, comparable_string, comparable_nat, comparable_bool, ◌==◌, Bool, true, false,
  not, ◌||◌, List, [], ◌∷◌, Option, none, some, any, length, ltb, nat_eq, if◌then◌else◌, Result, ok,
  err, ◌>>=◌,
}

pub record Payload : Type 0 where
  pub as_client : Option Client
  pub as_clients : Option (List Client)
  pub as_ids : Option (List ℕ)
  pub as_id : Option ℕ

-- The result of `json.Unmarshal`, or its error.
abbrev pub required {ℓ} : {A : Type ℓ} → Option A → Result Error A
required none = err bad_json
required (some a) = ok a

abbrev pub unmarshal : {A : Type 0} → Json A → Result Error A
unmarshal column = if column.well_formed then ok column.decoded else err bad_json

-- `First`: the first row, or an error.
abbrev pub first_row : List Client → Result Error Client
first_row [] = err not_found
first_row (c ∷ clients) = ok c

abbrev pub sub_id_of_first : List Client → String
sub_id_of_first [] = ""
sub_id_of_first (c ∷ clients) = c.sub_id

-- `clients[0]` and the others; an empty list was refused before.
abbrev pub split_first : List Client → Result Error (Client × List Client)
split_first [] = err empty_bulk
split_first (c ∷ clients) = ok (c, clients)

-- What `findInboundsChanges` compares: the inbounds that must be restarted.
unfoldable pub changed_inbounds : Client → Client → List ℕ → List ℕ → List ℕ
changed_inbounds old client old_ids new_ids =
    if not (old.config == client.config)
      || (not (old.name == client.name) || not (old.enable == client.enable))
    then union_uint_array old_ids new_ids
    else diff_uint_array old_ids new_ids

module _ (db : Database) (random : ℕ → String)
    (link_generator : String → Inbound → List String) where
  open db use {Tx, find, save, delete, find_inbounds}

  -- The loop of `newClientSubId`, with `tries` turns left.
  unfoldable pub try_sub_ids : ℕ → ℕ → Tx → Result Error (String × ℕ)
  try_sub_ids zero drawn tx = err no_unique_id
  try_sub_ids (suc tries) drawn tx = do
    taken ← find (λ c. c.sub_id == random drawn) tx
    elim (nat_eq (length taken) 0) [
      | true ↦ ok (random drawn, suc drawn)
      | false ↦ try_sub_ids tries (suc drawn) tx
    ]

  unfoldable pub new_client_sub_id : ℕ → Tx → Result Error (String × ℕ)
  unfolding try_sub_ids
  new_client_sub_id drawn tx = try_sub_ids 10 drawn tx

  -- The stored subscription id of a client that has an id, and the empty text otherwise.
  unfoldable pub existing_sub_id : ℕ → Tx → Result Error String
  existing_sub_id id tx =
      if ltb 0 id
      then (do rows ← find (λ c. c.id == id) tx; ok (trim_space (sub_id_of_first rows)))
      else ok ""

  -- A client without an own subscription id keeps the stored one, or gets a new one.
  unfoldable pub keep_or_draw : Client → String → ℕ → Tx → Result Error (Client × ℕ)
  keep_or_draw client existing drawn tx = elim (existing == "") [
    | false ↦ ok (record client { sub_id = existing }, drawn)
    | true ↦ (do
      (sub_id, next) ← new_client_sub_id drawn tx
      ok (record client { sub_id = sub_id }, next))
  ]

  unfoldable pub ensure_client_sub_id : Client → ℕ → Tx → Result Error (Client × ℕ)
  ensure_client_sub_id client drawn tx = elim (trim_space client.sub_id == "") [
    | false ↦ ok (record client { sub_id = trim_space client.sub_id }, drawn)
    | true ↦ (do
      existing ← existing_sub_id client.id tx
      keep_or_draw (record client { sub_id = "" }) existing drawn tx)
  ]

  unfoldable pub ensure_all : List Client → ℕ → Tx → Result Error (List Client × ℕ)
  ensure_all [] drawn tx = ok ([], drawn)
  ensure_all (client ∷ clients) drawn tx = do
    (ensured, next) ← ensure_client_sub_id client drawn tx
    (rest, last) ← ensure_all clients next tx
    ok (ensured ∷ rest, last)

  -- With the client, whose omitted columns are filled.
  unfoldable pub find_inbounds_changes : Client → Bool → Tx → Result Error (List ℕ × Client)
  find_inbounds_changes client fill_omitted tx = do
    rows ← find (λ c. c.id == client.id) tx
    old ← first_row rows
    let filled =
        if fill_omitted then record client { links = old.links; config = old.config } else client
    old_ids ← unmarshal old.inbounds
    new_ids ← unmarshal filled.inbounds
    ok (changed_inbounds old filled old_ids new_ids, filled)

  -- The loop of `updateLinksWithFixedInbounds`.
  unfoldable pub relink_all : List Inbound → List Client → Result Error (List Client)
  relink_all inbounds [] = ok []
  relink_all inbounds (client ∷ clients) = do
    relinked ← required (update_links_with_fixed_inbounds link_generator inbounds client)
    rest ← relink_all inbounds clients
    ok (relinked ∷ rest)

  -- The inbounds that links are made for: no query where there are none.
  abbrev pub inbounds_to_link : List ℕ → Tx → Result Error (List Inbound)
  inbounds_to_link [] tx = ok []
  inbounds_to_link (id ∷ ids) tx = find_inbounds (id ∷ ids) tx

  -- The inbounds of the first client are those of all of them.
  unfoldable pub update_links_of : Client → List Client → Tx → Result Error (List Client)
  update_links_of first clients tx = do
    inbound_ids ← unmarshal first.inbounds
    inbounds ← inbounds_to_link inbound_ids tx
    relink_all inbounds (first ∷ clients)

  -- "new": the client is relinked and saved; its inbounds are to be restarted.
  unfoldable pub save_new : Client → ℕ → Tx → Result Error (Tx × List ℕ)
  save_new client drawn tx = do
    (ensured, next) ← ensure_client_sub_id client drawn tx
    relinked ← update_links_of ensured [] tx
    inbound_ids ← unmarshal ensured.inbounds
    saved ← save relinked tx
    ok (saved, inbound_ids)

  unfoldable pub save_edit : Client → ℕ → Tx → Result Error (Tx × List ℕ)
  save_edit client drawn tx = do
    (ensured, next) ← ensure_client_sub_id client drawn tx
    relinked ← update_links_of ensured [] tx
    (inbound_ids, same) ← find_inbounds_changes ensured false tx
    saved ← save relinked tx
    ok (saved, inbound_ids)

  -- The first client's inbounds, and no others, are restarted.
  unfoldable pub save_addbulk : List Client → ℕ → Tx → Result Error (Tx × List ℕ)
  save_addbulk clients drawn tx = do
    (ensured, next) ← ensure_all clients drawn tx
    first ← split_first ensured
    inbound_ids ← unmarshal first.0.inbounds
    relinked ← update_links_of first.0 first.1 tx
    saved ← save relinked tx
    ok (saved, inbound_ids)

  -- The loop of "editbulk": the clients with filled columns, and the inbounds changed by any.
  unfoldable pub change_all : List Client → List ℕ → ℕ → Tx → Result Error (List Client × List ℕ)
  change_all [] inbound_ids drawn tx = ok ([], inbound_ids)
  change_all (client ∷ clients) inbound_ids drawn tx = do
    (ensured, next) ← ensure_client_sub_id client drawn tx
    (changed, filled) ← find_inbounds_changes ensured true tx
    (rest, all_ids) ←
        change_all clients
          (if nat_eq (length changed) 0 then inbound_ids else union_uint_array inbound_ids changed)
          next tx
    ok (filled ∷ rest, all_ids)

  unfoldable pub save_editbulk : List Client → ℕ → Tx → Result Error (Tx × List ℕ)
  save_editbulk clients drawn tx = do
    (filled, inbound_ids) ← change_all clients [] drawn tx
    first ← split_first filled
    relinked ← elim (nat_eq (length inbound_ids) 0) [
      | true ↦ ok filled
      | false ↦ update_links_of first.0 first.1 tx
    ]
    saved ← save relinked tx
    ok (saved, inbound_ids)

  -- The inbounds of the clients that are going to be deleted.
  unfoldable pub inbounds_of_ids : List ℕ → List ℕ → Tx → Result Error (List ℕ)
  inbounds_of_ids [] inbound_ids tx = ok inbound_ids
  inbounds_of_ids (id ∷ ids) inbound_ids tx = do
    rows ← find (λ c. c.id == id) tx
    client ← first_row rows
    client_inbounds ← unmarshal client.inbounds
    inbounds_of_ids ids (union_uint_array inbound_ids client_inbounds) tx

  unfoldable pub save_delbulk : List ℕ → Tx → Result Error (Tx × List ℕ)
  save_delbulk ids tx = do
    inbound_ids ← inbounds_of_ids ids [] tx
    deleted ← delete (λ c. any (λ id. id == c.id) ids) tx
    ok (deleted, inbound_ids)

  unfoldable pub save_del : ℕ → Tx → Result Error (Tx × List ℕ)
  save_del id tx = do
    rows ← find (λ c. c.id == id) tx
    client ← first_row rows
    inbound_ids ← unmarshal client.inbounds
    deleted ← delete (λ c. c.id == id) tx
    ok (deleted, inbound_ids)

  -- `Save`, with the transaction after it and the inbounds to restart.
  unfoldable pub save_client : String → Payload → ℕ → Tx → Result Error (Tx × List ℕ)
  save_client act payload drawn tx =
      if act == "new"
      then required payload.as_client >>= (λ c. save_new c drawn tx)
      else if act == "edit"
      then required payload.as_client >>= (λ c. save_edit c drawn tx)
      else if act == "addbulk"
      then required payload.as_clients >>= (λ cs. save_addbulk cs drawn tx)
      else if act == "editbulk"
      then required payload.as_clients >>= (λ cs. save_editbulk cs drawn tx)
      else if act == "delbulk"
      then required payload.as_ids >>= (λ ids. save_delbulk ids tx)
      else if act == "del"
      then required payload.as_id >>= (λ id. save_del id tx)
      else err unknown_action
