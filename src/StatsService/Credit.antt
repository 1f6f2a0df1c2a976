-- ===== src/StatsService/Credit.antt =====
-- `SaveStats` of service/stats.go gives each client the traffic that the rows report of it.
use mathlib.Core.List.{append-nil}
use s_ui_next.Clients.Database.{Database, Error}
use s_ui_next.Clients.{Client}
use s_ui_next.StatsService.{Onlines, credit_row, credit_rows, store_rows, write_stats, save_stats}
use s_ui_next.StatsTracker.Reports.{reported}
use s_ui_next.StatsTracker.{Stats}
use s_ui_next.Prelude.{
  map-map, map_id, map_cong, ◌+◌, str_iff, comparable_string, ◌==◌, Bool, true, false, List, [],
  ◌∷◌, ◌++◌, map, some, if◌then◌else◌, Result, ok, err, bind-ok, ◌≡◌, ◌∙◌, sym, ap, arith,
  Bool-cases, inl, inr,
}

-- A client with what the rows report of its name.
abbrev pub credited : List Stats → Client → Client
credited rows c = record c {
  up = c.up + reported "user" c.name true rows;
  down = c.down + reported "user" c.name false rows;
}

credited-cons :
    (stat : Stats) (rows : List Stats) (c : Client)
    → credited rows (credited (stat ∷ []) c) ≡ credited (stat ∷ rows) c
credited-cons stat rows c = ground (arith)

-- A row of another kind leaves every client as it is.
credited_other :
    (stat : Stats) (c : Client) → (stat.resource == "user") ≡ false → credited (stat ∷ []) c ≡ c
credited_other stat c h = ground arith

-- The update of a row that counts upload, at one client.
credited_up :
    (stat : Stats) (c : Client)
    → (stat.resource == "user") ≡ true
    → stat.direction ≡ true
    → (if c.name == stat.tag then record c { up = c.up + stat.traffic } else c)
      ≡ credited (stat ∷ []) c
credited_up stat c h d = ground (arith, str_iff c.name stat.tag, str_iff stat.tag c.name)

credited_down :
    (stat : Stats) (c : Client)
    → (stat.resource == "user") ≡ true
    → stat.direction ≡ false
    → (if c.name == stat.tag then record c { down = c.down + stat.traffic } else c)
      ≡ credited (stat ∷ []) c
credited_down stat c h d = ground (arith, str_iff c.name stat.tag, str_iff stat.tag c.name)

nothing_kept :
    (enable_traffic : Bool) (kept : List Stats) → kept ++ (if enable_traffic then [] else []) ≡ kept
nothing_kept true kept = append-nil kept
nothing_kept false kept = append-nil kept

module _ (db : Database) where
  open db use {Tx, clients, stats, update}

  -- An update that has the effect of the row on each client.
  update_credits :
      (p : Client → Bool) (f g : Client → Client) (t t' : Tx)
      → ((c : Client) → (if p c then f c else c) ≡ g c)
      → update p f t ≡ ok t'
      → (clients t' ≡ map g (clients t)) × (stats t' ≡ stats t)
  update_credits p f g t t' h e =
      let u = db.update_lem p f t t' e in
      (u.0 ∙ map_cong (λ row. if p row then f row else row) g h (clients t), u.2)

  credit_row-rows :
      (stat : Stats) (t t' : Tx)
      → credit_row db stat t ≡ ok t'
      → (clients t' ≡ map (credited (stat ∷ [])) (clients t)) × (stats t' ≡ stats t)
  unfolding credit_row
  credit_row-rows stat t t' e = elim (Bool-cases (stat.resource == "user")) [
    | inr n ↦
        let same : t ≡ t' = cc in
        (
          ap clients (sym same)
              ∙ sym (
                  map_cong (credited (stat ∷ [])) (λ c. c) (λ c. credited_other stat c n)
                    (clients t)
                  ∙ map_id (clients t)),
          ap stats (sym same),
        )
    | inl y ↦ elim (Bool-cases stat.direction) [
      | inl d ↦
          update_credits (λ c. c.name == stat.tag) (λ c. record c { up = c.up + stat.traffic })
            (credited (stat ∷ [])) t t' (λ c. credited_up stat c y d) cc
      | inr d ↦
          update_credits (λ c. c.name == stat.tag) (λ c. record c { down = c.down + stat.traffic })
            (credited (stat ∷ [])) t t' (λ c. credited_down stat c y d) cc
    ]
  ]

  credit_rows-rows :
      (rows : List Stats) (t t' : Tx)
      → credit_rows db rows t ≡ ok t'
      → (clients t' ≡ map (credited rows) (clients t)) × (stats t' ≡ stats t)
  unfolding credit_rows
  credit_rows-rows [] t t' e =
      let same : t ≡ t' = cc in
      (
        ap clients (sym same)
            ∙ sym (
                map_cong (credited []) (λ c. c) (λ c. ground (arith)) (clients t)
                ∙ map_id (clients t)),
        ap stats (sym same),
      )
  credit_rows-rows (stat ∷ rows) t t' e =
      let (next, q, e1) = bind-ok (credit_row db stat t) _ e in
      let first = credit_row-rows stat t next q in
      let rest = credit_rows-rows rows next t' e1 in
      (
        rest.0
            ∙ ap (map (credited rows)) first.0
            ∙ map-map (credited rows) (credited (stat ∷ [])) (clients t)
            ∙ map_cong _ (credited (stat ∷ rows)) (credited-cons stat rows) (clients t),
        rest.1 ∙ first.1,
      )

  store_rows-rows :
      (enable_traffic : Bool) (rows : List Stats) (t t' : Tx)
      → store_rows db enable_traffic rows t ≡ ok t'
      → (clients t' ≡ clients t) × (stats t' ≡ stats t ++ (if enable_traffic then rows else []))
  unfolding store_rows
  store_rows-rows true rows t t' e = let c = db.create_stats_lem rows t t' e in (c.1, c.0)
  store_rows-rows false rows t t' e =
      let same : t ≡ t' = cc in
      (ap clients (sym same), ap stats (sym same) ∙ sym (append-nil (stats t)))

  write_stats-rows :
      (enable_traffic : Bool) (rows : List Stats) (t t' : Tx)
      → write_stats db enable_traffic rows t ≡ ok t'
      → (clients t' ≡ map (credited rows) (clients t))
        × (stats t' ≡ stats t ++ (if enable_traffic then rows else []))
  unfolding write_stats
  write_stats-rows enable_traffic rows t t' e =
      let (mid, q1, e1) = bind-ok (credit_rows db rows t) _ e in
      let (stored, q2, e2) = bind-ok (store_rows db enable_traffic rows mid) _ e1 in
      let c = credit_rows-rows rows t mid q1 in
      let s = store_rows-rows enable_traffic rows mid stored q2 in
      let k = db.commit_lem stored t' e2 in
      (k.0 ∙ s.0 ∙ c.0, k.2 ∙ s.1 ∙ ap (λ l. l ++ (if enable_traffic then rows else [])) c.1)

  abbrev tx_of : Tx → Result Error (Tx × Onlines) → Tx
  tx_of d (ok (t, o)) = t
  tx_of d (err e) = d

  -- A run of the statistics job that succeeds with rows from the core adds to every client, in each
  -- direction, exactly the traffic that the rows report of its name, and keeps the rows where the
  -- administrator asked for that and none otherwise.
  pub save_stats-credits :
      (enable_traffic : Bool) (rows : List Stats) (t t' : Tx) (online online' : Onlines)
      → save_stats db enable_traffic (some rows) t online ≡ ok (t', online')
      → (clients t' ≡ map (credited rows) (clients t))
        × (stats t' ≡ stats t ++ (if enable_traffic then rows else []))
  unfolding save_stats
  save_stats-credits enable_traffic [] t t' online online' e =
      let same : t ≡ t' = ap (tx_of t) e in
      (
        ap clients (sym same)
            ∙ sym (
                map_cong (credited []) (λ c. c) (λ c. ground (arith)) (clients t)
                ∙ map_id (clients t)),
        ap stats (sym same) ∙ sym (nothing_kept enable_traffic (stats t)),
      )
  save_stats-credits enable_traffic (row ∷ rows) t t' online online' e =
      let (written, q, e1) = bind-ok (write_stats db enable_traffic (row ∷ rows) t) _ e in
      let same : written ≡ t' = ap (tx_of written) e1 in
      let w = write_stats-rows enable_traffic (row ∷ rows) t written q in
      (ap clients (sym same) ∙ w.0, ap stats (sym same) ∙ w.1)
