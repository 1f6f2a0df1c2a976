-- ===== src/Clients/QuotaLaws.antt =====
-- What the quota job of service/client.go does to the clients, in every database that has the laws
-- of SQL.
use mathlib.Core.List.{append-nil}
use mathlib.Core.Path.{subst₃}
use s_ui_next.Clients.Database.{Database, Error, has_id, replace_all, update_rows}
use s_ui_next.Clients.Quota.{
  starts_period, starts_cycle, is_due, is_depleted, start_period, start_cycle, reset_usage,
  reset_change, save_if_any, create_if_any, write_reset, reset_clients, disable_clients,
  deplete_clients,
}
use s_ui_next.Clients.RowLaws.{IsIn, selected-IsIn}
use s_ui_next.Clients.{Client, Changes}
use s_ui_next.Prelude.{
  map-map, map_cong, ℕ, comparable_nat, Bool, true, false, List, [], ◌∷◌, ◌++◌, map, keep,
  if◌then◌else◌, ◌≡◌, ◌∙◌, sym, ap, arith, All, All-map, All-append, Result, ok, err, bind-ok,
}
use s_ui_next.Clients.QuotaRows.{
  disable, reset_row, deplete_row, lifetime, start_period-KeepsId, start_cycle-KeepsId,
  reset_usage-KeepsId, save_selected, is_depleted-deplete_row, lifetime-deplete_row,
  update_rows_of_none,
}

module _ (db : Database) where
  open db use {Tx, clients, changes}

  abbrev tx_of : Tx → Result Error (Tx × List ℕ × Bool) → Tx
  tx_of t (ok r) = r.0
  tx_of t (err e) = t

  save_if_any-rows :
      (cs : List Client) (t t' : Tx)
      → All (λ c. has_id c.id (clients t) ≡ true) cs
      → save_if_any db cs t ≡ ok t'
      → (clients t' ≡ replace_all cs (clients t)) × (changes t' ≡ changes t)
  unfolding save_if_any
  save_if_any-rows [] t t' h e = ground arith
  save_if_any-rows (c ∷ cs) t t' h e = let l = db.save_lem (c ∷ cs) t t' h e in (l.0, l.1)

  create_if_any-rows :
      (cs : List Changes) (t t' : Tx)
      → create_if_any db cs t ≡ ok t'
      → (changes t' ≡ changes t ++ cs) × (clients t' ≡ clients t)
  unfolding create_if_any
  create_if_any-rows [] t t' e =
      let same : t ≡ t' = cc in
      (ap changes (sym same) ∙ sym (append-nil (changes t)), ap clients (sym same))
  create_if_any-rows (c ∷ cs) t t' e = let l = db.create_changes_lem (c ∷ cs) t t' e in (l.0, l.1)

  write_reset-rows :
      (dt : ℕ) (delayed cycling due : List Client) (t t' : Tx) (ids : List ℕ) (changed : Bool)
      → All (IsIn (clients t)) (
          map (start_period dt) delayed
          ++ (map (start_cycle dt) cycling ++ map (reset_usage dt) due))
      → write_reset db dt delayed cycling due t ≡ ok (t', ids, changed)
      → clients t'
        ≡ replace_all
            (map (start_period dt) delayed
              ++ (map (start_cycle dt) cycling ++ map (reset_usage dt) due))
            (clients t)
  unfolding write_reset
  write_reset-rows dt delayed cycling due t t' ids changed h e =
      let all_clients =
        map (start_period dt) delayed
        ++ (map (start_cycle dt) cycling ++ map (reset_usage dt) due) in
      let (saved, q, e1) = bind-ok (save_if_any db all_clients t) _ e in
      let (logged, r, e2) =
        bind-ok
          (create_if_any db (map (reset_change dt) delayed ++ map (reset_change dt) cycling) saved)
          _ e1 in
      let same : logged ≡ t' = ap (tx_of logged) e2 in
      ap clients (sym same)
      ∙ (create_if_any-rows _ saved logged r).1
      ∙ (save_if_any-rows all_clients t saved h q).0

  -- A reset that succeeds has applied, to each client of the table, the one rule that fits it.
  reset_clients-rows :
      (dt : ℕ) (t t' : Tx) (ids : List ℕ) (changed : Bool)
      → reset_clients db dt t ≡ ok (t', ids, changed)
      → clients t' ≡ map (reset_row dt) (clients t)
  unfolding reset_clients
  reset_clients-rows dt t t' ids changed e =
      let (delayed, q1, e1) = bind-ok (db.find starts_period t) _ e in
      let (cycling, q2, e2) = bind-ok (db.find starts_cycle t) _ e1 in
      let (due, q3, e3) = bind-ok (db.find (is_due dt) t) _ e2 in
      let rows = clients t in
      let p1 = db.find_lem starts_period t delayed q1 in
      let p2 = db.find_lem starts_cycle t cycling q2 in
      let p3 = db.find_lem (is_due dt) t due q3 in
      let known =
        subst₃
          (λ (d c u : List Client).
            All (IsIn rows)
              (map (start_period dt) d ++ (map (start_cycle dt) c ++ map (reset_usage dt) u)))
          (sym p1) (sym p2) (sym p3)
          (All-append (IsIn rows) _ _
            (selected-IsIn starts_period (start_period dt) rows (start_period-KeepsId dt))
            (All-append (IsIn rows) _ _
              (selected-IsIn starts_cycle (start_cycle dt) rows (start_cycle-KeepsId dt))
              (selected-IsIn (is_due dt) (reset_usage dt) rows (reset_usage-KeepsId dt)))) in
      write_reset-rows dt delayed cycling due t t' ids changed known e3
      ∙ (λ i.
          replace_all
            (map (start_period dt) (p1 i)
              ++ (map (start_cycle dt) (p2 i) ++ map (reset_usage dt) (p3 i)))
            rows)
      ∙ save_selected dt rows (db.clients_keyed t)

  disable_clients-rows :
      (dt : ℕ) (cs : List Client) (t t' : Tx)
      → cs ≡ keep (is_depleted dt) (clients t)
      → disable_clients db dt cs t ≡ ok t'
      → clients t' ≡ update_rows (is_depleted dt) disable (clients t)
  unfolding disable_clients
  disable_clients-rows dt [] t t' k e =
      let same : t ≡ t' = cc in
      ap clients (sym same) ∙ sym (update_rows_of_none (is_depleted dt) disable (clients t) (sym k))
  disable_clients-rows dt (c ∷ cs) t t' k e =
      let (mid, q, e1) = bind-ok (db.update (is_depleted dt) disable t) _ e in
      (db.create_changes_lem _ mid t' e1).1 ∙ (db.update_lem (is_depleted dt) disable t mid q).0

  -- A run of the job that succeeds leaves each client as the rules for one client say: at most one
  -- reset rule is applied to it, and then it is disabled exactly if it is enabled and over its quota
  -- or expired.
  pub deplete_clients-rows :
      (dt : ℕ) (t t' : Tx) (ids : List ℕ) (changed : Bool)
      → deplete_clients db dt t ≡ ok (t', ids, changed)
      → clients t' ≡ map (deplete_row dt) (clients t)
  unfolding deplete_clients
  deplete_clients-rows dt t t' ids changed e =
      let (first, q1, e1) = bind-ok (reset_clients db dt t) _ e in
      let after = first.0 in
      let (cs, q2, e2) = bind-ok (db.find (is_depleted dt) after) _ e1 in
      let (written, q3, e3) = bind-ok (disable_clients db dt cs after) _ e2 in
      let (committed, q4, e4) = bind-ok (db.commit written) _ e3 in
      let same : committed ≡ t' = ap (tx_of committed) e4 in
      ap clients (sym same)
      ∙ (db.commit_lem written committed q4).0
      ∙ disable_clients-rows dt cs after written (db.find_lem (is_depleted dt) after cs q2) q3
      ∙ ap (update_rows (is_depleted dt) disable) (reset_clients-rows dt t after first.1 first.2 q1)
      ∙ map-map (λ row. if is_depleted dt row then disable row else row) (reset_row dt) (clients t)

  -- After a run of the job that succeeds no enabled client is over its quota or expired.
  pub deplete_clients-enforces :
      (dt : ℕ) (t t' : Tx) (ids : List ℕ) (changed : Bool)
      → deplete_clients db dt t ≡ ok (t', ids, changed)
      → All (λ c. is_depleted dt c ≡ false) (clients t')
  deplete_clients-enforces dt t t' ids changed e = rw (deplete_clients-rows dt t t' ids changed e) (
      All-map (λ c. is_depleted dt c ≡ false) (deplete_row dt) (is_depleted-deplete_row dt)
        (clients t))

  -- No run of the job that succeeds loses traffic: of every client, the total of past periods and
  -- the current one stays what it was in each direction, modulo 2 ^ 64.
  pub deplete_clients-lifetime :
      (dt : ℕ) (t t' : Tx) (ids : List ℕ) (changed : Bool)
      → deplete_clients db dt t ≡ ok (t', ids, changed)
      → map lifetime (clients t') ≡ map lifetime (clients t)
  deplete_clients-lifetime dt t t' ids changed e =
      ap (map lifetime) (deplete_clients-rows dt t t' ids changed e)
      ∙ map-map lifetime (deplete_row dt) (clients t)
      ∙ map_cong _ lifetime (lifetime-deplete_row dt) (clients t)
