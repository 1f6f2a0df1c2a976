-- ===== src/Logger/Order.antt =====
-- The order that `QueryLogs` of logger/logger.go sorts by, and what sorting keeps.
use s_ui_next.Logger.{LogEntry, insert_newest, sort_newest}
use s_ui_next.Prelude.{
  ℕ, ◌≤◌, ◌≡◌, refl, arith, Bool, ◌&&◌, List, [], ◌∷◌, map, keep, length, leb, leb→le, leb→lt,
  Bool-cases, inl, inr,
}

-- Newest first: no entry is older than one behind it.
abbrev pub IsNewestFirst : List LogEntry → Type 0
IsNewestFirst [] = Unit
IsNewestFirst (entry ∷ []) = Unit
IsNewestFirst (entry ∷ next ∷ entries) =
    (next.timestamp ≤ entry.timestamp) × IsNewestFirst (next ∷ entries)

tail-IsNewestFirst :
    (entry : LogEntry) (entries : List LogEntry)
    → IsNewestFirst (entry ∷ entries)
    → IsNewestFirst entries
tail-IsNewestFirst entry [] h = tt
tail-IsNewestFirst entry (next ∷ entries) (k, h) = h

insert_newest-under :
    (top entry : LogEntry) (entries : List LogEntry)
    → entry.timestamp ≤ top.timestamp
    → IsNewestFirst (top ∷ entries)
    → IsNewestFirst (insert_newest entry entries)
    → IsNewestFirst (top ∷ insert_newest entry entries)
unfolding insert_newest
insert_newest-under top entry [] h k l = (h, tt)
insert_newest-under top entry (other ∷ entries) h (k, m) l =
    elim (Bool-cases (leb other.timestamp entry.timestamp)) [
      | inl y ↦ rw y (h, rw y at l)
      | inr n ↦ rw n (k, rw n at l)
    ]

insert_newest-IsNewestFirst :
    (entry : LogEntry) (entries : List LogEntry)
    → IsNewestFirst entries
    → IsNewestFirst (insert_newest entry entries)
unfolding insert_newest
insert_newest-IsNewestFirst entry [] h = tt
insert_newest-IsNewestFirst entry (other ∷ entries) h =
    elim (Bool-cases (leb other.timestamp entry.timestamp)) [
      | inl y ↦ rw y (leb→le other.timestamp entry.timestamp y, h)
      | inr n ↦
          let older = leb→lt other.timestamp entry.timestamp n in
          rw n (
            insert_newest-under other entry entries (omega (arith, older)) h
              (insert_newest-IsNewestFirst entry entries (tail-IsNewestFirst other entries h)))
    ]

pub sort_newest-IsNewestFirst : (entries : List LogEntry) → IsNewestFirst (sort_newest entries)
unfolding sort_newest
sort_newest-IsNewestFirst [] = tt
sort_newest-IsNewestFirst (entry ∷ entries) =
    insert_newest-IsNewestFirst entry (sort_newest entries) (sort_newest-IsNewestFirst entries)

-- How many entries pass a test.
abbrev pub count {ℓ} : {A : Type ℓ} → (A → Bool) → List A → ℕ
count p xs = length (keep p xs)

count-insert_newest :
    (p : LogEntry → Bool) (entry : LogEntry) (entries : List LogEntry)
    → count p (insert_newest entry entries) ≡ count p (entry ∷ entries)
unfolding insert_newest
count-insert_newest p entry [] = refl
count-insert_newest p entry (other ∷ entries) = ground (arith, count-insert_newest p entry entries)

pub count-sort_newest :
    (p : LogEntry → Bool) (entries : List LogEntry)
    → count p (sort_newest entries) ≡ count p entries
unfolding sort_newest
count-sort_newest p [] = refl
count-sort_newest p (entry ∷ entries) =
    ground (arith, count-insert_newest p entry (sort_newest entries), count-sort_newest p entries)

pub count-map-keep {ℓ κ} :
    {A : Type ℓ} {B : Type κ} (p : B → Bool) (f : A → B) (q : A → Bool) (xs : List A)
    → count p (map f (keep q xs)) ≡ count (λ x. q x && p (f x)) xs
count-map-keep p f q [] = refl
count-map-keep p f q (x ∷ xs) = ground (arith, count-map-keep p f q xs)
