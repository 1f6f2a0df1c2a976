-- ===== src/Clients/UpdateLaws.antt =====
-- What the link updates of service/client.go do to the table of clients.
use s_ui_next.Clients.Database.{Database, has_id, IsKeyed, replace, replace_all}
use s_ui_next.Clients.Links.{update_client_on_inbound_delete}
use s_ui_next.Clients.RowLaws.{replace_all-keep, KeepsId, IsIn, selected-IsIn}
use s_ui_next.Clients.Updates.{
  has_inbound, save_each, update_found, update_clients_on_inbound_delete,
}
use mathlib.Core.Path.{subst}
use s_ui_next.Clients.{Client, Inbound}
use s_ui_next.Prelude.{
  map_id, ℕ, nat_eq_iff, ◌≡◌, ◌∙◌, refl, sym, ap, arith, String, comparable_nat, ◌==◌, Bool, false,
  not, List, [], ◌∷◌, map, any, keep, All, All-map, All-mono, if◌then◌else◌, Bool-cases, inl, inr,
  ok, bind-ok,
}

has_id-replace :
    (k : ℕ) (c : Client) (rows : List Client) → has_id k (replace c rows) ≡ has_id k rows
has_id-replace k c [] = refl
has_id-replace k c (row ∷ rows) = ground (arith, has_id-replace k c rows)

-- No row has an id that is not there.
absent-ne :
    (k : ℕ) (rows : List Client) → has_id k rows ≡ false → All (λ c. (k == c.id) ≡ false) rows
absent-ne k [] h = tt
absent-ne k (row ∷ rows) h =
    (ground (arith, nat_eq_iff row.id k, nat_eq_iff k row.id), absent-ne k rows (ground arith))

All-both :
    (P Q : Client → Type 0) (rows : List Client)
    → All P rows
    → All Q rows
    → All (λ c. P c × Q c) rows
All-both P Q [] h k = tt
All-both P Q (row ∷ rows) (a, h) (b, k) = ((a, b), All-both P Q rows h k)

has_id-keep-false :
    (p : Client → Bool) (k : ℕ) (rows : List Client)
    → has_id k rows ≡ false
    → has_id k (keep p rows) ≡ false
has_id-keep-false p k [] h = refl
has_id-keep-false p k (row ∷ rows) h = ground (arith, has_id-keep-false p k rows)

-- The ids of the rows that pass a test select exactly these rows.
ids-select :
    (p : Client → Bool) (rows : List Client)
    → IsKeyed rows
    → All (λ c. has_id c.id (keep p rows) ≡ p c) rows
ids-select p [] h = tt
ids-select p (row ∷ rows) (new, h) = (
  ground (arith, has_id-keep-false p row.id rows new, nat_eq_iff row.id row.id),
  All-mono (λ c. (has_id c.id (keep p rows) ≡ p c) × ((row.id == c.id) ≡ false))
      (λ c. has_id c.id (keep p (row ∷ rows)) ≡ p c) (λ c k. ground (arith, k.0, k.1)) rows
      (All-both _ _ rows (ids-select p rows h) (absent-ne row.id rows new)),
)

map_cong-All :
    (f g : Client → Client) (rows : List Client)
    → All (λ c. f c ≡ g c) rows
    → map f rows ≡ map g rows
map_cong-All f g [] h = refl
map_cong-All f g (row ∷ rows) (e, h) =
    ap (◌∷◌ (f row)) (map_cong-All f g rows h) ∙ ap (λ r. r ∷ map g rows) e

-- A function where a test holds.
abbrev pub where_true : (Client → Bool) → (Client → Client) → Client → Client
where_true p f c = if p c then f c else c

where_true-cong :
    (p q : Client → Bool) (f : Client → Client) (rows : List Client)
    → All (λ c. p c ≡ q c) rows
    → map (where_true p f) rows ≡ map (where_true q f) rows
where_true-cong p q f rows h = map_cong-All (where_true p f) (where_true q f) rows (
    All-mono (λ c. p c ≡ q c) (λ c. where_true p f c ≡ where_true q f c)
      (λ c e. ap (λ b. if b then f c else c) e) rows h)

update_client_on_inbound_delete-KeepsId :
    (id : ℕ) (tag : String) → KeepsId (update_client_on_inbound_delete id tag)
unfolding update_client_on_inbound_delete
update_client_on_inbound_delete-KeepsId id tag c = refl

any-keep : (id : ℕ) (xs : List ℕ) → any (λ i. i == id) (keep (λ i. not (i == id)) xs) ≡ false
any-keep id [] = refl
any-keep id (x ∷ xs) = ground (arith, any-keep id xs)

inbound_gone :
    (id : ℕ) (tag : String) (c : Client)
    → has_inbound id (where_true (has_inbound id) (update_client_on_inbound_delete id tag) c)
      ≡ false
unfolding update_client_on_inbound_delete
inbound_gone id tag c = elim (Bool-cases (has_inbound id c)) [
  | inl y ↦ rw y (any-keep id c.inbounds.decoded)
  | inr n ↦ rw n n
]

module _ (db : Database) (link_generator : String → Inbound → List String) where
  open db use {Tx, clients}

  save_each-rows :
      (cs : List Client) (t t' : Tx)
      → All (IsIn (clients t)) cs
      → save_each db link_generator cs t ≡ ok t'
      → clients t' ≡ replace_all cs (clients t)
  unfolding save_each
  save_each-rows [] t t' h e = let same : t ≡ t' = cc in ap clients (sym same)
  save_each-rows (c ∷ cs) t t' (here, h) e =
      let (saved, q, e1) = bind-ok (db.save (c ∷ []) t) _ e in
      let rows : clients saved ≡ replace c (clients t) =
        (db.save_lem (c ∷ []) t saved (here, tt) q).0 in
      let known =
        All-mono (IsIn (clients t)) (IsIn (clients saved))
          (λ d k. ap (has_id d.id) rows ∙ has_id-replace d.id c (clients t) ∙ k) cs h in
      save_each-rows cs saved t' known e1 ∙ ap (replace_all cs) rows

  update_found-rows :
      (p : Client → Bool) (change : Client → Client) (found : List Client) (t t' : Tx)
      → KeepsId change
      → found ≡ keep p (clients t)
      → update_found db link_generator change found t ≡ ok t'
      → clients t' ≡ map (where_true p change) (clients t)
  unfolding update_found
  update_found-rows p change [] t t' keeps f e =
      let same : t ≡ t' = cc in
      let rows = clients t in
      let none_found : All (λ c. false ≡ p c) rows =
        rw (sym f) at (ids-select p rows (db.clients_keyed t)) in
      ap clients (sym same)
      ∙ sym (map_id rows)
      ∙ where_true-cong (λ c. false) p change rows none_found
  update_found-rows p change (c ∷ found) t t' keeps f e =
      let rows = clients t in
      let sel = λ (client : Client). has_id client.id (c ∷ found) in
      let (selected, q, e1) = bind-ok (db.find sel t) _ e in
      let s : selected ≡ keep sel rows = db.find_lem sel t selected q in
      let known : All (IsIn rows) (map change selected) =
        rw s (selected-IsIn sel change rows keeps) in
      let same : All (λ d. sel d ≡ p d) rows =
        subst (λ (l : List Client). All (λ d. has_id d.id l ≡ p d) rows) (sym f)
          (ids-select p rows (db.clients_keyed t)) in
      save_each-rows (map change selected) t t' known e1
      ∙ ap (λ l. replace_all (map change l) rows) s
      ∙ ap (replace_all (map change (keep sel rows))) (sym (map_id rows))
      ∙ replace_all-keep sel change (λ d. d) rows keeps (λ d. refl) (db.clients_keyed t)
      ∙ where_true-cong sel p change rows same

  -- Deleting an inbound, when it succeeds, changes exactly the clients that have it, each as
  -- the work on one client says, and leaves no client of the table with it.
  pub update_clients_on_inbound_delete-rows :
      (id : ℕ) (tag : String) (t t' : Tx)
      → update_clients_on_inbound_delete db link_generator id tag t ≡ ok t'
      → (clients t'
          ≡ map (where_true (has_inbound id) (update_client_on_inbound_delete id tag)) (clients t))
        × All (λ c. has_inbound id c ≡ false) (clients t')
  unfolding update_clients_on_inbound_delete
  update_clients_on_inbound_delete-rows id tag t t' e =
      let (found, q, e1) = bind-ok (db.find (has_inbound id) t) _ e in
      let rows =
        update_found-rows (has_inbound id) (update_client_on_inbound_delete id tag) found t t'
          (update_client_on_inbound_delete-KeepsId id tag) (db.find_lem (has_inbound id) t found q)
          e1 in
      (
        rows,
        rw rows (
            All-map (λ c. has_inbound id c ≡ false)
              (where_true (has_inbound id) (update_client_on_inbound_delete id tag))
              (inbound_gone id tag) (clients t)),
      )
