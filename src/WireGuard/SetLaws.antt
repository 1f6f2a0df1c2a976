-- ===== src/WireGuard/SetLaws.antt =====
-- `sameStringSet` of service/wireguard.go against how often a text occurs in a list.
use s_ui_next.GoMap.{GoMap, lookup, insert}
use s_ui_next.GoMap.Laws.{lookup-insert}
use s_ui_next.GoText.{trim_space}
use s_ui_next.WireGuard.Sets.{count_at, count_all, use_up, same_string_set}
use s_ui_next.Prelude.{
  ℕ, suc, ◌+◌, ◌-◌, ◌≤◌, String, comparable_string, str_iff, ◌==◌, true, List, [], ◌∷◌, length,
  nat_eq, nat_eq_iff, if◌then◌else◌, Bool-cases, inl, inr, ◌↔◌, ◌≡◌, refl, ap, arith,
}

-- How often a text occurs in a list, spaces around the texts left out.
abbrev pub occurs : String → List String → ℕ
occurs key [] = 0
occurs key (x ∷ xs) = if trim_space x == key then suc (occurs key xs) else occurs key xs

count_at-insert :
    (written read : String) (n : ℕ) (m : GoMap String ℕ)
    → count_at read (insert written n m) ≡ (if written == read then n else count_at read m)
unfolding count_at
count_at-insert written read n m = ground (arith, lookup-insert written read n m)

count_at-count_all :
    (key : String) (xs : List String) (m : GoMap String ℕ)
    → count_at key (count_all xs m) ≡ count_at key m + occurs key xs
unfolding count_all
count_at-count_all key [] m = omega arith
count_at-count_all key (x ∷ xs) m = ground (
  arith,
  count_at-count_all key xs (insert (trim_space x) (suc (count_at (trim_space x) m)) m),
  count_at-insert (trim_space x) key (suc (count_at (trim_space x) m)) m,
  str_iff (trim_space x) key,
)

-- The counts suffice exactly when no text is used more often than it is counted.
use_up-le :
    (xs : List String) (m : GoMap String ℕ)
    → use_up xs m ≡ true
    → (key : String) → occurs key xs ≤ count_at key m
unfolding use_up
use_up-le [] m h key = omega arith
use_up-le (x ∷ xs) m h key = elim (Bool-cases (nat_eq (count_at (trim_space x) m) 0)) [
  | inl y ↦ absurd (ground (arith, y, h))
  | inr n ↦ ground (
    arith,
    n,
    use_up-le xs (insert (trim_space x) (count_at (trim_space x) m - 1) m) (rw (n, use_up) at h)
        key,
    count_at-insert (trim_space x) key (count_at (trim_space x) m - 1) m,
    str_iff (trim_space x) key,
  )
]

le-use_up :
    (xs : List String) (m : GoMap String ℕ)
    → ((key : String) → occurs key xs ≤ count_at key m)
    → use_up xs m ≡ true
unfolding use_up
le-use_up [] m h = refl
le-use_up (x ∷ xs) m h =
    let k = trim_space x in
    let here = h k in
    let later =
      le-use_up xs (insert k (count_at k m - 1) m)
        (λ key. ground (arith, h key, count_at-insert k key (count_at k m - 1) m, str_iff k key)) in
    ground (arith, here, later, str_iff k k)

-- The list without the first text that is the given one.
remove : String → List String → List String
remove key [] = []
remove key (x ∷ xs) = if trim_space x == key then xs else x ∷ remove key xs

length-remove :
    (key : String) (xs : List String)
    → suc 0 ≤ occurs key xs
    → suc (length (remove key xs)) ≡ length xs
unfolding remove
length-remove key [] h = absurd (omega (arith, h))
length-remove key (x ∷ xs) h = elim (Bool-cases (trim_space x == key)) [
  | inl y ↦ rw y refl
  | inr n ↦ rw n (ap suc (length-remove key xs (rw n at h)))
]

occurs-remove :
    (key read : String) (xs : List String)
    → suc 0 ≤ occurs key xs
    → occurs read xs
      ≡ (if key == read then suc (occurs read (remove key xs)) else occurs read (remove key xs))
unfolding remove
occurs-remove key read [] h = absurd (omega (arith, h))
occurs-remove key read (x ∷ xs) h = elim (Bool-cases (trim_space x == key)) [
  | inl y ↦ let same : trim_space x ≡ key = (str_iff (trim_space x) key).0 y in rw y (rw same refl)
  | inr n ↦ rw n (
      ground (
        arith,
        occurs-remove key read xs (rw n at h),
        str_iff (trim_space x) key,
        str_iff (trim_space x) read,
        str_iff key read,
      ))
]

occurs_self :
    (x : String) (xs : List String)
    → occurs (trim_space x) (x ∷ xs) ≡ suc (occurs (trim_space x) xs)
occurs_self x xs = ground (arith, str_iff (trim_space x) (trim_space x))

-- Lists of one length, of which one has no text more often than the other.
le-same :
    (ys xs : List String)
    → length xs ≡ length ys
    → ((key : String) → occurs key ys ≤ occurs key xs)
    → (key : String) → occurs key xs ≡ occurs key ys
le-same [] [] e h key = refl
le-same [] (x ∷ xs) e h key = absurd (omega (arith, e))
le-same (y ∷ ys) xs e h key =
    let k = trim_space y in
    let there : suc 0 ≤ occurs k xs = ground (arith, h k, occurs_self y ys) in
    let rest =
      le-same ys (remove k xs) (ground (arith, length-remove k xs there))
        (λ j. ground (arith, h j, occurs-remove k j xs there)) key in
    ground (arith, rest, occurs-remove k key xs there)

same-length :
    (ys xs : List String) → ((key : String) → occurs key xs ≡ occurs key ys) → length xs ≡ length ys
same-length [] [] h = refl
same-length [] (x ∷ xs) h = absurd (ground (arith, h (trim_space x), occurs_self x xs))
same-length (y ∷ ys) xs h =
    let k = trim_space y in
    let there : suc 0 ≤ occurs k xs = ground (arith, h k, occurs_self y ys) in
    let rest =
      same-length ys (remove k xs) (λ j. ground (arith, h j, occurs-remove k j xs there)) in
    ground (arith, rest, length-remove k xs there)

counted : (left : List String) (key : String) → count_at key (count_all left []) ≡ occurs key left
unfolding count_at lookup
counted left key = ground (arith, count_at-count_all key left [])

-- Two lists of texts are the same set of `sameStringSet` exactly when every text, spaces around it
-- left out, occurs equally often in both.
pub same_string_set-occurs :
    (left right : List String)
    → (same_string_set left right ≡ true) ↔ ((key : String) → occurs key left ≡ occurs key right)
unfolding same_string_set
same_string_set-occurs left right = (
  λ e. elim (Bool-cases (nat_eq (length left) (length right))) [
    | inl y ↦
        let used = use_up-le right (count_all left []) (rw (y, same_string_set) at e) in
        le-same right left ((nat_eq_iff (length left) (length right)).0 y)
          (λ key. ground (arith, used key, counted left key))
    | inr n ↦ absurd (ground (arith, n, e))
  ],
  λ h.
      rw ((nat_eq_iff (length left) (length right)).1 (same-length right left h))
        (le-use_up right (count_all left []) (λ key. ground (arith, h key, counted left key))),
)
