-- ===== src/Clients/SaveLaws.antt =====
-- What `Save` of service/client.go does to the table, and what its helpers find.
use s_ui_next.Arrays.Laws.{contains, count, count-union_uint_array, count-diff_uint_array}
use s_ui_next.Arrays.{union_uint_array, diff_uint_array}
use s_ui_next.Clients.Database.{has_id, IsKeyed, Database, Error}
use s_ui_next.Clients.LinkLaws.{external_links}
use s_ui_next.Clients.Links.{all_local_links, update_links_with_fixed_inbounds}
use s_ui_next.Clients.Save.{
  inbounds_to_link, relink_all, update_links_of, Payload, required, unmarshal, first_row,
  changed_inbounds, try_sub_ids, new_client_sub_id, save_del, save_client,
}
use mathlib.Core.Path.{subst}
use s_ui_next.Clients.{Client, Inbound, Link}
use s_ui_next.Prelude.{
  sym, ok-inj, nat_eq_iff, Bool-cases, inl, inr, arith, comparable_nat, ℕ, zero, suc, ◌≡◌, ◌∙◌,
  refl, ap, String, comparable_string, comparable_bool, ◌==◌, Bool, false, not, ◌&&◌, ◌||◌, List,
  [], ◌∷◌, ◌++◌, map, Option, some, keep, length, nat_eq, ltb, All, Result, ok, err, ◌>>=◌, bind-ok,
}

-- Whether name, configuration and switch of a client stay.
abbrev pub is_same_account : Client → Client → Bool
is_same_account old client =
    old.config == client.config && (old.name == client.name && old.enable == client.enable)

count-contains : (k : ℕ) (xs : List ℕ) → ltb 0 (count k xs) ≡ contains k xs
count-contains k [] = refl
count-contains k (x ∷ xs) = ground (arith, count-contains k xs)

union-restarts :
    (k : ℕ) (a b : List ℕ) → ltb 0 (count k (union_uint_array a b)) ≡ (contains k a || contains k b)
union-restarts k a b = rw (count-union_uint_array k a b) (ground arith)

diff-restarts :
    (k : ℕ) (a b : List ℕ)
    → ltb 0 (count k (diff_uint_array a b))
      ≡ ((contains k a && not (contains k b)) || (contains k b && not (contains k a)))
diff-restarts k a b =
    rw (count-diff_uint_array k a b) (ground (arith, count-contains k a, count-contains k b))

-- An inbound is restarted for a changed client exactly if the old or the new client has it and
-- either only one of them does or the client's name, configuration or switch changed.
pub changed_inbounds-restarts :
    (k : ℕ) (old client : Client) (old_ids new_ids : List ℕ)
    → ltb 0 (count k (changed_inbounds old client old_ids new_ids)) ≡ (
        (contains k old_ids && (not (is_same_account old client) || not (contains k new_ids)))
        || (contains k new_ids && (not (is_same_account old client) || not (contains k old_ids))))
unfolding changed_inbounds
changed_inbounds-restarts k old client old_ids new_ids =
    ground (arith, union-restarts k old_ids new_ids, diff-restarts k old_ids new_ids)

keep_nil-All :
    (p : Client → Bool) (rows : List Client)
    → length (keep p rows) ≡ 0
    → All (λ c. p c ≡ false) rows
keep_nil-All p [] h = tt
keep_nil-All p (row ∷ rows) h = elim (Bool-cases (p row)) [
  | inl y ↦ absurd (ground (arith))
  | inr n ↦ (n, keep_nil-All p rows (rw n at h))
]

abbrev client_of : Client → Result Error Client → Client
client_of d (ok c) = c
client_of d (err e) = d

keyed_none :
    (id : ℕ) (rows : List Client) → has_id id rows ≡ false → keep (λ c. c.id == id) rows ≡ []
keyed_none id [] h = refl
keyed_none id (row ∷ rows) h = ground (arith, keyed_none id rows)

-- In a keyed table the first row with an id is the only one.
keyed-first :
    (id : ℕ) (rows : List Client) (c : Client)
    → IsKeyed rows
    → first_row (keep (λ c. c.id == id) rows) ≡ ok c
    → keep (λ c. c.id == id) rows ≡ c ∷ []
keyed-first id [] c k e = cc
keyed-first id (row ∷ rows) c (k, ks) e = elim (Bool-cases (row.id == id)) [
  | inl y ↦
      let same : row.id ≡ id = (nat_eq_iff row.id id).0 y in
      let none_left : keep (λ x. x.id == id) rows ≡ [] =
        keyed_none id rows (ap (λ n. has_id n rows) (sym same) ∙ k) in
      rw (y, none_left) (ap (λ x. x ∷ []) (ok-inj (rw y at e)))
  | inr n ↦ rw n (keyed-first id rows c ks (rw n at e))
]

abbrev numbers_of : List ℕ → Result Error (List ℕ) → List ℕ
numbers_of d (ok l) = l
numbers_of d (err e) = d

unmarshal-decoded :
    (c : Client) (ids : List ℕ) → unmarshal c.inbounds ≡ ok ids → c.inbounds.decoded ≡ ids
unmarshal-decoded c ids e = elim (Bool-cases c.inbounds.well_formed) [
  | inl y ↦ ap (numbers_of ids) (rw y at e)
  | inr n ↦ absurd (ground arith)
]

abbrev drawn_of : String → Result Error (String × ℕ) → String
drawn_of d (ok (s, n)) = s
drawn_of d (err e) = d

module _ (db : Database) (random : ℕ → String)
    (link_generator : String → Inbound → List String) where
  open db use {Tx, clients}

  abbrev tx_of : Tx → Result Error (Tx × List ℕ) → Tx
  tx_of d (ok (t, ids)) = t
  tx_of d (err e) = d

  abbrev ids_of : List ℕ → Result Error (Tx × List ℕ) → List ℕ
  ids_of d (ok (t, ids)) = ids
  ids_of d (err e) = d

  try_sub_ids-unused :
      (tries drawn : ℕ) (t : Tx) (sub_id : String) (next : ℕ)
      → try_sub_ids db random link_generator tries drawn t ≡ ok (sub_id, next)
      → All (λ c. (c.sub_id == sub_id) ≡ false) (clients t)
  unfolding try_sub_ids
  try_sub_ids-unused zero drawn t sub_id next e = absurd (ground arith)
  try_sub_ids-unused (suc tries) drawn t sub_id next e =
      let (taken, q, e1) = bind-ok (db.find (λ c. c.sub_id == random drawn) t) _ e in
      let rows = db.find_lem (λ c. c.sub_id == random drawn) t taken q in
      elim (Bool-cases (nat_eq (length taken) 0)) [
        | inl y ↦
            let none_taken : length (keep (λ c. c.sub_id == random drawn) (clients t)) ≡ 0 =
              ap length (sym rows) ∙ (nat_eq_iff (length taken) 0).0 y in
            let same : random drawn ≡ sub_id = ap (drawn_of sub_id) (rw y at e1) in
            subst (λ (s : String). All (λ c. (c.sub_id == s) ≡ false) (clients t)) same
              (keep_nil-All (λ c. c.sub_id == random drawn) (clients t) none_taken)
        | inr n ↦ try_sub_ids-unused tries (suc drawn) t sub_id next (rw n at e1)
      ]

  -- A new subscription id is one that no client of the table has.
  pub new_client_sub_id-unused :
      (drawn : ℕ) (t : Tx) (sub_id : String) (next : ℕ)
      → new_client_sub_id db random link_generator drawn t ≡ ok (sub_id, next)
      → All (λ c. (c.sub_id == sub_id) ≡ false) (clients t)
  unfolding new_client_sub_id
  new_client_sub_id-unused drawn t sub_id next e = try_sub_ids-unused 10 drawn t sub_id next e

  -- What a delete that succeeds has done.
  abbrev pub Deleted : ℕ → Tx → Tx → List ℕ → Type 0
  Deleted id t t' ids =
      (clients t' ≡ keep (λ c. not (c.id == id)) (clients t))
      × (db.changes t' ≡ db.changes t)
      × (db.stats t' ≡ db.stats t)
      × ((client : Client) × (keep (λ c. c.id == id) (clients t) ≡ client ∷ [])
          × (unmarshal client.inbounds ≡ ok ids))

  save_del-Deleted :
      (id : ℕ) (t t' : Tx) (ids : List ℕ)
      → save_del db random link_generator id t ≡ ok (t', ids)
      → Deleted id t t' ids
  unfolding save_del
  save_del-Deleted id t t' ids e =
      let (rows, q, e1) = bind-ok (db.find (λ c. c.id == id) t) _ e in
      let (client, q1, e2) = bind-ok (first_row rows) _ e1 in
      let (inbound_ids, q2, e3) = bind-ok (unmarshal client.inbounds) _ e2 in
      let (deleted, q3, e4) = bind-ok (db.delete (λ c. c.id == id) t) _ e3 in
      let same : deleted ≡ t' = ap (tx_of deleted) e4 in
      let same_ids : inbound_ids ≡ ids = ap (ids_of inbound_ids) e4 in
      let gone = db.delete_lem (λ c. c.id == id) t deleted q3 in
      (
        ap clients (sym same) ∙ gone.0,
        ap db.changes (sym same) ∙ gone.1,
        ap db.stats (sym same) ∙ gone.2,
        (
          client,
          keyed-first id (clients t) client (db.clients_keyed t)
              (ap first_row (sym (db.find_lem (λ c. c.id == id) t rows q)) ∙ q1),
          q2 ∙ ap ok same_ids,
        ),
      )

  -- Deleting a client that succeeds removes its row and no others, touches neither the log of
  -- changes nor the statistics, and returns the inbounds of the row that it removed, which was the
  -- only one of the table with that id.
  pub save_client-Deleted :
      (payload : Payload) (id drawn : ℕ) (t t' : Tx) (ids : List ℕ)
      → payload.as_id ≡ some id
      → save_client db random link_generator "del" payload drawn t ≡ ok (t', ids)
      → Deleted id t t' ids
  unfolding save_client
  save_client-Deleted payload id drawn t t' ids asked e = save_del-Deleted id t t' ids (
      subst
        (λ (o : Option ℕ).
          required o >>= (λ i. save_del db random link_generator i t) ≡ ok (t', ids))
        asked e)

  abbrev links_of : Client → List Link
  links_of client = client.links.decoded

  -- The links of a client that is relinked for some inbounds: their local ones, then its external ones.
  abbrev pub expected_links : List Inbound → Client → List Link
  expected_links inbounds client =
      all_local_links link_generator client.config inbounds ++ external_links client

  relinked-expected :
      (inbounds : List Inbound) (client relinked : Client)
      → required (update_links_with_fixed_inbounds link_generator inbounds client) ≡ ok relinked
      → links_of relinked ≡ expected_links inbounds client
  unfolding update_links_with_fixed_inbounds
  relinked-expected inbounds client relinked e = elim (Bool-cases client.links.well_formed) [
    | inl y ↦ sym (ap (λ r. links_of (client_of client r)) (rw y at e))
    | inr n ↦ absurd (ground arith)
  ]

  clients_of : List Client → Result Error (List Client) → List Client
  clients_of d (ok cs) = cs
  clients_of d (err e) = d

  relink_all-links :
      (inbounds : List Inbound) (cs relinked : List Client)
      → relink_all db random link_generator inbounds cs ≡ ok relinked
      → map links_of relinked ≡ map (expected_links inbounds) cs
  unfolding relink_all clients_of
  relink_all-links inbounds [] relinked e = ap (λ r. map links_of (clients_of [] r)) (sym e)
  relink_all-links inbounds (c ∷ cs) relinked e =
      let (one, q, e1) =
        bind-ok (required (update_links_with_fixed_inbounds link_generator inbounds c)) _ e in
      let (rest, q1, e2) = bind-ok (relink_all db random link_generator inbounds cs) _ e1 in
      let here = relinked-expected inbounds c one q in
      let later = relink_all-links inbounds cs rest q1 in
      ap (λ r. map links_of (clients_of [] r)) (sym e2)
      ∙ ap (λ l. l ∷ map links_of rest) here
      ∙ ap (◌∷◌ (expected_links inbounds c)) later

  -- Relinking several clients gives every one of them the local links of the inbounds of the first,
  -- whatever its own inbounds are, and keeps its external links.
  pub update_links_of-first :
      (first : Client) (cs relinked : List Client) (t : Tx)
      → update_links_of db random link_generator first cs t ≡ ok relinked
      → (inbounds : List Inbound) × (inbounds_to_link db random link_generator
            first.inbounds.decoded t
          ≡ ok inbounds)
        × (map (λ (c : Client). c.links.decoded) relinked
            ≡ map (expected_links inbounds) (first ∷ cs))
  unfolding update_links_of
  update_links_of-first first cs relinked t e =
      let (ids, q, e1) = bind-ok (unmarshal first.inbounds) _ e in
      let (inbounds, q1, e2) = bind-ok (inbounds_to_link db random link_generator ids t) _ e1 in
      (
        inbounds,
        ap (λ l. inbounds_to_link db random link_generator l t) (unmarshal-decoded first ids q)
            ∙ q1,
        relink_all-links inbounds (first ∷ cs) relinked e2,
      )
