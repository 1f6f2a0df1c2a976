-- ===== src/Clients/QuotaRows.antt =====
-- What the quota job of service/client.go does to one client, and to a table of clients.
use s_ui_next.Clients.Database.{IsKeyed, replace_all, update_rows}
use s_ui_next.Clients.Quota.{
  starts_period, starts_cycle, is_due, is_depleted, start_period, start_cycle, reset_usage,
}
use s_ui_next.Clients.RowLaws.{replace_all-append, replace_all-keep, KeepsId, choose-KeepsId}
use s_ui_next.Clients.{Client}
use s_ui_next.Prelude.{
  map_id, ℕ, ◌+◌, ◌%◌, comparable_nat, Bool, true, false, List, [], ◌∷◌, ◌++◌, map, keep,
  if◌then◌else◌, ◌≡◌, ◌∙◌, refl, sym, ap, arith, Bool-cases, inl, inr,
}
use s_ui_next.StatsTracker.{int64_mod, add64}

abbrev pub disable : Client → Client
disable c = record c { enable = false }

-- What the reset does to one client: the first rule that applies, and at most one.
abbrev pub reset_row : ℕ → Client → Client
reset_row dt c =
    if is_due dt c
    then reset_usage dt c
    else if starts_cycle c
    then start_cycle dt c
    else if starts_period c
    then start_period dt c
    else c

-- The same for one client and the whole job.
abbrev pub deplete_row : ℕ → Client → Client
deplete_row dt c = let r = reset_row dt c in if is_depleted dt r then disable r else r

-- The whole traffic of a client, in each direction: past periods and this one.
abbrev pub lifetime : Client → ℕ × ℕ × ℕ
lifetime c = (c.id, (c.total_up + c.up) % int64_mod, (c.total_down + c.down) % int64_mod)

module _ (dt : ℕ) where
  pub start_period-KeepsId : KeepsId (start_period dt)
  unfolding start_period
  start_period-KeepsId c = refl

  pub start_cycle-KeepsId : KeepsId (start_cycle dt)
  unfolding start_cycle
  start_cycle-KeepsId c = refl

  pub reset_usage-KeepsId : KeepsId (reset_usage dt)
  unfolding reset_usage
  reset_usage-KeepsId c = refl

  -- The three selections saved one after the other, as one update.
  pub save_selected :
      (rows : List Client)
      → IsKeyed rows
      → replace_all
          (map (start_period dt) (keep starts_period rows)
            ++ (map (start_cycle dt) (keep starts_cycle rows)
                ++ map (reset_usage dt) (keep (is_due dt) rows)))
          rows
        ≡ map (reset_row dt) rows
  save_selected rows h =
      let xs = map (start_period dt) (keep starts_period rows) in
      let ys = map (start_cycle dt) (keep starts_cycle rows) in
      let zs = map (reset_usage dt) (keep (is_due dt) rows) in
      let period = λ (c : Client). if starts_period c then start_period dt c else c in
      let cycle = λ (c : Client). if starts_cycle c then start_cycle dt c else period c in
      let period_id =
        choose-KeepsId starts_period (start_period dt) (λ c. c) start_period-KeepsId (λ c. refl) in
      let cycle_id =
        choose-KeepsId starts_cycle (start_cycle dt) period start_cycle-KeepsId period_id in
      replace_all-append xs (ys ++ zs) rows
      ∙ replace_all-append ys zs (replace_all xs rows)
      ∙ ap (λ r. replace_all zs (replace_all ys (replace_all xs r))) (sym (map_id rows))
      ∙ ap (λ r. replace_all zs (replace_all ys r))
          (replace_all-keep starts_period (start_period dt) (λ c. c) rows start_period-KeepsId
            (λ c. refl) h)
      ∙ ap (replace_all zs) (
          replace_all-keep starts_cycle (start_cycle dt) period rows start_cycle-KeepsId period_id
            h)
      ∙ replace_all-keep (is_due dt) (reset_usage dt) cycle rows reset_usage-KeepsId cycle_id h

  lifetime-if :
      (c : Client) (b : Bool) (x y : Client)
      → lifetime x ≡ lifetime c
      → lifetime y ≡ lifetime c
      → lifetime (if b then x else y) ≡ lifetime c
  lifetime-if c true x y p q = p
  lifetime-if c false x y p q = q

  total : (before now : ℕ) → (add64 before now + 0) % int64_mod ≡ (before + now) % int64_mod
  total before now = omega arith

  lifetime-reset_row : (c : Client) → lifetime (reset_row dt c) ≡ lifetime c
  unfolding start_period start_cycle reset_usage
  lifetime-reset_row c =
      lifetime-if c (is_due dt c) _ _
        (λ i. (c.id, total c.total_up c.up i, total c.total_down c.down i))
        (lifetime-if c (starts_cycle c) _ _ refl (lifetime-if c (starts_period c) _ _ refl refl))

  is_depleted-disable :
      (r : Client) → is_depleted dt (if is_depleted dt r then disable r else r) ≡ false
  is_depleted-disable r = elim (Bool-cases (is_depleted dt r)) [
    | inl y ↦ rw y refl
    | inr n ↦ rw n n
  ]

  pub is_depleted-deplete_row : (c : Client) → is_depleted dt (deplete_row dt c) ≡ false
  is_depleted-deplete_row c = is_depleted-disable (reset_row dt c)

  pub lifetime-deplete_row : (c : Client) → lifetime (deplete_row dt c) ≡ lifetime c
  lifetime-deplete_row c =
      let r = reset_row dt c in
      lifetime-if c (is_depleted dt r) (disable r) r (lifetime-reset_row c) (lifetime-reset_row c)

pub update_rows_of_none :
    (p : Client → Bool) (f : Client → Client) (rows : List Client)
    → keep p rows ≡ []
    → update_rows p f rows ≡ rows
update_rows_of_none p f [] h = refl
update_rows_of_none p f (row ∷ rows) h = elim (Bool-cases (p row)) [
  | inl y ↦ absurd (ground arith)
  | inr n ↦ rw n (ap (◌∷◌ row) (update_rows_of_none p f rows (rw n at h)))
]
