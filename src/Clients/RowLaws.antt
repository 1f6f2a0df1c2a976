-- ===== src/Clients/RowLaws.antt =====
-- Saving selected rows back by primary key is an update of the rows in place.
use s_ui_next.Clients.Database.{has_id, IsKeyed, replace, replace_all}
use s_ui_next.Clients.{Client}
use s_ui_next.Prelude.{
  ℕ, nat_eq_iff, comparable_nat, ◌==◌, Bool, true, false, List, [], ◌∷◌, ◌++◌, map, keep,
  if◌then◌else◌, ◌≡◌, ◌∙◌, refl, ap, arith, All, All-mono, All-map_of, All-keep_of, Bool-cases, inl,
  inr,
}

pub replace_all-append :
    (xs ys rows : List Client) → replace_all (xs ++ ys) rows ≡ replace_all ys (replace_all xs rows)
replace_all-append [] ys rows = refl
replace_all-append (x ∷ xs) ys rows = replace_all-append xs ys (replace x rows)

replace_absent :
    (c : Client) (rows : List Client) → has_id c.id rows ≡ false → replace c rows ≡ rows
replace_absent c [] h = refl
replace_absent c (row ∷ rows) h = ground (arith, replace_absent c rows)

replace_head :
    (c row : Client) (rows : List Client)
    → (row.id == c.id) ≡ true
    → has_id c.id rows ≡ false
    → replace c (row ∷ rows) ≡ c ∷ rows
replace_head c row rows e h = rw e (ap (◌∷◌ c) (replace_absent c rows h))

-- A row that none of the saved ones replaces stays in front.
replace_all_cons :
    (cs : List Client) (row : Client) (rows : List Client)
    → has_id row.id cs ≡ false
    → replace_all cs (row ∷ rows) ≡ row ∷ replace_all cs rows
replace_all_cons [] row rows h = refl
replace_all_cons (c ∷ cs) row rows h =
    let other : (row.id == c.id) ≡ false = ground arith in
    rw other (replace_all_cons cs row (replace c rows) (ground arith))

-- The functions keep the primary key.
abbrev pub KeepsId : (Client → Client) → Type 0
KeepsId f = (c : Client) → (f c).id ≡ c.id

has_id-map :
    (f : Client → Client) (k : ℕ) (rows : List Client)
    → KeepsId f
    → has_id k (map f rows) ≡ has_id k rows
has_id-map f k [] h = refl
has_id-map f k (row ∷ rows) h = ground (arith, h row, has_id-map f k rows h)

has_id-keep :
    (p : Client → Bool) (k : ℕ) (rows : List Client)
    → has_id k rows ≡ false
    → has_id k (keep p rows) ≡ false
has_id-keep p k [] h = refl
has_id-keep p k (row ∷ rows) h = ground (arith, has_id-keep p k rows)

-- The rows that a test selects, changed by one function and saved into rows that another function
-- has changed.
pub replace_all-keep :
    (p : Client → Bool) (f g : Client → Client) (rows : List Client)
    → KeepsId f
    → KeepsId g
    → IsKeyed rows
    → replace_all (map f (keep p rows)) (map g rows) ≡ map (λ c. if p c then f c else g c) rows
replace_all-keep p f g [] kf kg h = refl
replace_all-keep p f g (row ∷ rows) kf kg (new, h) =
    let saved = map f (keep p rows) in
    let old = map g rows in
    elim (Bool-cases (p row)) [
      | inl y ↦
          let here : ((g row).id == (f row).id) ≡ true = ground (arith, kf row, kg row) in
          rw y (
            ap (replace_all saved) (
              replace_head (f row) (g row) old here
                (has_id-map g (f row).id rows kg ∙ rw (kf row) new))
            ∙ replace_all_cons saved (f row) old (
                has_id-map f (f row).id (keep p rows) kf
                ∙ rw (kf row) (has_id-keep p row.id rows new))
            ∙ ap (◌∷◌ (f row)) (replace_all-keep p f g rows kf kg h))
      | inr n ↦ rw n (
          replace_all_cons saved (g row) old
            (has_id-map f (g row).id (keep p rows) kf ∙ rw (kg row) (has_id-keep p row.id rows new))
          ∙ ap (◌∷◌ (g row)) (replace_all-keep p f g rows kf kg h))
    ]

pub choose-KeepsId :
    (p : Client → Bool) (f g : Client → Client)
    → KeepsId f
    → KeepsId g
    → KeepsId (λ c. if p c then f c else g c)
choose-KeepsId p f g kf kg c = elim (Bool-cases (p c)) [ inl y ↦ rw y (kf c) | inr n ↦ rw n (kg c) ]

abbrev pub IsIn : List Client → Client → Type 0
IsIn rows c = has_id c.id rows ≡ true

rows-IsIn : (rows : List Client) → All (IsIn rows) rows
rows-IsIn [] = tt
rows-IsIn (row ∷ rows) = (
  ground (arith, nat_eq_iff row.id row.id),
  All-mono (IsIn rows) (IsIn (row ∷ rows)) (λ c h. ground arith) rows (rows-IsIn rows),
)

-- Selected rows, changed without their keys, are rows of the table.
pub selected-IsIn :
    (p : Client → Bool) (f : Client → Client) (rows : List Client)
    → KeepsId f
    → All (IsIn rows) (map f (keep p rows))
selected-IsIn p f rows kf =
    All-map_of (IsIn rows) (IsIn rows) f (λ c h. rw (kf c) h) (keep p rows)
      (All-keep_of (IsIn rows) p rows (rows-IsIn rows))
