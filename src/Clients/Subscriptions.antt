-- ===== src/Clients/Subscriptions.antt =====
-- service/client.go: `EnsureClientSubIds` and `GetEnabledBySubscriptionKey`, which find the client of
-- a subscription's address. `First` takes the row with the lowest id.
use s_ui_next.Clients.Database.{Database, Error, not_found}
use s_ui_next.Clients.Save.{new_client_sub_id}
use mathlib.Core.Path.{subst}
use s_ui_next.Clients.{Client, Inbound}
use s_ui_next.GoText.{trim_space}
use s_ui_next.Prelude.{
  ℕ, String, comparable_string, comparable_nat, ◌==◌, Bool, true, ◌&&◌, List, [], ◌∷◌, keep, leb,
  if◌then◌else◌, ◌≡◌, ◌∙◌, ◌⊎◌, inl, inr, sym, ap, arith, All, All-keep, Bool-cases, Result, ok,
  err, ◌>>=◌, bind-ok,
}

unfoldable pub lowest_id : Client → List Client → Client
lowest_id best [] = best
lowest_id best (c ∷ clients) = lowest_id (if leb best.id c.id then best else c) clients

abbrev pub matches_sub_id : String → Client → Bool
matches_sub_id key c = c.enable && c.sub_id == key

abbrev pub matches_name : String → Client → Bool
matches_name key c = c.enable && c.name == key

-- `First` in a list that was selected.
unfoldable pub first_by_id : List Client → Result Error Client
first_by_id [] = err not_found
first_by_id (c ∷ rest) = ok (lowest_id c rest)

abbrev client_of : Client → Result Error Client → Client
client_of d (ok c) = c
client_of d (err e) = d

lowest_id-All :
    (p : Client → Bool) (best : Client) (cs : List Client)
    → All (λ c. p c ≡ true) (best ∷ cs)
    → p (lowest_id best cs) ≡ true
unfolding lowest_id
lowest_id-All p best [] (h, k) = h
lowest_id-All p best (c ∷ cs) (h, (l, k)) = elim (Bool-cases (leb best.id c.id)) [
  | inl y ↦ rw y (lowest_id-All p best cs (h, k))
  | inr n ↦ rw n (lowest_id-All p c cs (l, k))
]

first_by_id-All :
    (p : Client → Bool) (rows : List Client) (client : Client)
    → All (λ c. p c ≡ true) rows
    → first_by_id rows ≡ ok client
    → p client ≡ true
unfolding first_by_id
first_by_id-All p [] client h e = absurd (ground arith)
first_by_id-All p (c ∷ rest) client h e =
    let same : lowest_id c rest ≡ client = ap (client_of client) e in
    ap p (sym same) ∙ lowest_id-All p c rest h

module _ (db : Database) (random : ℕ → String)
    (link_generator : String → Inbound → List String) where
  open db use {Tx, clients, find, update}

  -- The loop of `EnsureClientSubIds` over the clients without a subscription id.
  unfoldable pub give_sub_ids : List Client → ℕ → Tx → Result Error Tx
  give_sub_ids [] drawn tx = ok tx
  give_sub_ids (client ∷ rest) drawn tx = do
    (sub_id, next) ← new_client_sub_id db random link_generator drawn tx
    updated ← update (λ c. c.id == client.id) (λ c. record c { sub_id = sub_id }) tx
    give_sub_ids rest next updated

  unfoldable pub ensure_client_sub_ids : ℕ → Tx → Result Error Tx
  ensure_client_sub_ids drawn tx = do
    missing ← find (λ c. c.sub_id == "") tx
    give_sub_ids missing drawn tx

  -- By name, where no subscription id is found, so that old addresses stay usable.
  unfoldable pub by_name : String → Tx → List Client → Result Error Client
  by_name key tx (c ∷ found) = ok (lowest_id c found)
  by_name key tx [] = do named ← find (matches_name key) tx; first_by_id named

  -- With the database that the client was found in.
  unfoldable pub get_enabled_by_subscription_key : String → ℕ → Tx → Result Error (Client × Tx)
  get_enabled_by_subscription_key key drawn tx = do
    ready ← ensure_client_sub_ids drawn tx
    found ← find (matches_sub_id (trim_space key)) ready
    client ← by_name (trim_space key) ready found
    ok (client, ready)

  -- How a subscription's address leads to its client.
  abbrev pub LeadsTo : String → Tx → Client → Type 0
  LeadsTo key t c =
      (matches_sub_id key c ≡ true)
      ⊎ ((keep (matches_sub_id key) (clients t) ≡ []) × (matches_name key c ≡ true))

  abbrev pair_of : Client → Tx → Result Error (Client × Tx) → Client × Tx
  pair_of c t (ok p) = p
  pair_of c t (err e) = (c, t)

  by_name-LeadsTo :
      (key : String) (t : Tx) (found : List Client) (client : Client)
      → found ≡ keep (matches_sub_id key) (clients t)
      → by_name key t found ≡ ok client
      → LeadsTo key t client
  unfolding by_name
  by_name-LeadsTo key t (c ∷ found) client f e =
      let all : All (λ r. matches_sub_id key r ≡ true) (c ∷ found) =
        subst (λ (l : List Client). All (λ r. matches_sub_id key r ≡ true) l) (sym f)
          (All-keep (matches_sub_id key) (clients t)) in
      let same : lowest_id c found ≡ client = ap (client_of client) e in
      inl (ap (matches_sub_id key) (sym same) ∙ lowest_id-All (matches_sub_id key) c found all)
  by_name-LeadsTo key t [] client f e =
      let (named, q, e1) = bind-ok (find (matches_name key) t) _ e in
      let all : All (λ r. matches_name key r ≡ true) named =
        rw (db.find_lem (matches_name key) t named q) (All-keep (matches_name key) (clients t)) in
      inr (sym f, first_by_id-All (matches_name key) named client all e1)

  -- A subscription's address that leads to a client leads to one that is enabled and has the trimmed
  -- key as its subscription id, or has it as its name, where no enabled client has that
  -- subscription id.
  pub get_enabled_by_subscription_key-LeadsTo :
      (key : String) (drawn : ℕ) (t t' : Tx) (client : Client)
      → get_enabled_by_subscription_key key drawn t ≡ ok (client, t')
      → LeadsTo (trim_space key) t' client
  unfolding get_enabled_by_subscription_key
  get_enabled_by_subscription_key-LeadsTo key drawn t t' client e =
      let (ready, q, e1) = bind-ok (ensure_client_sub_ids drawn t) _ e in
      let (found, q1, e2) = bind-ok (find (matches_sub_id (trim_space key)) ready) _ e1 in
      let (c, q2, e3) = bind-ok (by_name (trim_space key) ready found) _ e2 in
      let here =
        by_name-LeadsTo (trim_space key) ready found c
          (db.find_lem (matches_sub_id (trim_space key)) ready found q1) q2 in
      let same = ap (pair_of c ready) e3 in
      subst (λ (p : Client × Tx). LeadsTo (trim_space key) p.1 p.0) same here
