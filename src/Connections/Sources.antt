-- ===== src/Connections/Sources.antt =====
-- Which source service/connections.go attaches to a connection.
use s_ui_next.Connections.{
  ConnectionEntry, connection_source_attach_window, connection_source_key, candidates_at, is_source,
  add_to_index, index_all, build_connection_source_index, delta, is_no_better, best_candidate,
  with_source, lacks_source, attach_connection_source,
}
use s_ui_next.GoMap.Laws.{lookup-insert}
use s_ui_next.GoMap.{GoMap, lookup, insert}
use mathlib.Core.List.{append-nil}
use s_ui_next.Prelude.{
  ℕ, ◌+◌, ◌≤◌, ◌<◌, ◌≡◌, ◌∙◌, refl, sym, ap, arith, String, str_iff, comparable_string, ◌==◌, true,
  false, ◌&&◌, List, [], ◌∷◌, ◌++◌, Option, none, some, keep, keep-append, All, if◌then◌else◌,
  Bool-cases, inl, inr, ◌⊎◌,
}

-- The connections with a source whose resource, protocol and tag make the same key.
abbrev pub candidates : String → List ConnectionEntry → List ConnectionEntry
candidates key items = keep (λ c. is_source c && connection_source_key c == key) items

candidates_at-insert :
    (written read : String) (items : List ConnectionEntry)
    (index : GoMap String (List ConnectionEntry))
    → candidates_at read (insert written items index)
      ≡ (if written == read then items else candidates_at read index)
unfolding candidates_at
candidates_at-insert written read items index =
    ground (arith, lookup-insert written read items index)

add_to_index-candidates :
    (key : String) (item : ConnectionEntry) (index : GoMap String (List ConnectionEntry))
    → candidates_at key (add_to_index item index)
      ≡ candidates_at key index ++ candidates key (item ∷ [])
unfolding add_to_index
add_to_index-candidates key item index =
    let own = connection_source_key item in
    elim (Bool-cases (is_source item)) [
      | inl y ↦
          rw (y, candidates_at-insert own key (candidates_at own index ++ item ∷ []) index)
            (elim (Bool-cases (own == key)) [
              | inl e ↦ rw e (ap (λ k. candidates_at k index ++ item ∷ []) ((str_iff own key).0 e))
              | inr n ↦ rw n (sym (append-nil (candidates_at key index)))
            ])
      | inr n ↦ rw n (sym (append-nil (candidates_at key index)))
    ]

append_assoc : (xs ys zs : List ConnectionEntry) → (xs ++ ys) ++ zs ≡ xs ++ (ys ++ zs)
append_assoc [] ys zs = refl
append_assoc (x ∷ xs) ys zs = ap (◌∷◌ x) (append_assoc xs ys zs)

index_all-candidates :
    (key : String) (items : List ConnectionEntry) (index : GoMap String (List ConnectionEntry))
    → candidates_at key (index_all items index) ≡ candidates_at key index ++ candidates key items
unfolding index_all
index_all-candidates key [] index = sym (append-nil _)
index_all-candidates key (item ∷ items) index =
    index_all-candidates key items (add_to_index item index)
    ∙ ap (λ l. l ++ candidates key items) (add_to_index-candidates key item index)
    ∙ append_assoc (candidates_at key index) (candidates key (item ∷ [])) (candidates key items)
    ∙ ap (◌++◌ (candidates_at key index))
        (sym (keep-append (λ c. is_source c && connection_source_key c == key) (item ∷ []) items))

build-candidates :
    (key : String) (items : List ConnectionEntry)
    → candidates_at key (build_connection_source_index items) ≡ candidates key items
unfolding candidates_at lookup
build-candidates key items = index_all-candidates key items []

-- A connection of a list.
abbrev pub Member : ConnectionEntry → List ConnectionEntry → Type 0
Member x [] = ⊥
Member x (y ∷ ys) = (x ≡ y) ⊎ Member x ys

-- What is chosen is a nearest candidate within the window, and nothing only where there is none.
abbrev pub IsNearest : ℕ → List ConnectionEntry → Option ConnectionEntry → Type 0
IsNearest timestamp items none =
    All (λ c. connection_source_attach_window < delta timestamp c) items
IsNearest timestamp items (some best) =
    Member best items
    × (delta timestamp best ≤ connection_source_attach_window)
    × All (λ c. delta timestamp best ≤ delta timestamp c) items

IsNearest-cons_far :
    (timestamp : ℕ) (c : ConnectionEntry) (items : List ConnectionEntry)
    (result : Option ConnectionEntry)
    → connection_source_attach_window < delta timestamp c
    → IsNearest timestamp items result
    → IsNearest timestamp (c ∷ items) result
IsNearest-cons_far timestamp c items none far h = (far, h)
IsNearest-cons_far timestamp c items (some best) far (m, close, least) =
    (inr m, close, (omega (arith, far, close), least))

-- The outcome of the loop from a best candidate within the window.
abbrev Improves : ℕ → List ConnectionEntry → ConnectionEntry → Option ConnectionEntry → Type 0
Improves timestamp items b result =
    (r : ConnectionEntry) × (result ≡ some r)
    × ((r ≡ b) ⊎ Member r items)
    × (delta timestamp r ≤ delta timestamp b)
    × All (λ c. delta timestamp r ≤ delta timestamp c) items

is_no_better-le :
    (best d chosen : ℕ)
    → is_no_better best d ≡ true
    → best ≤ connection_source_attach_window
    → chosen ≤ best
    → chosen ≤ d
is_no_better-le best d chosen skip close le = ground arith

is_no_better-lt :
    (best d : ℕ) → is_no_better best d ≡ false → (d ≤ connection_source_attach_window) × (d < best)
is_no_better-lt best d better = ground arith

module _ (timestamp : ℕ) (c : ConnectionEntry) (items : List ConnectionEntry)
    (best : Option ConnectionEntry) (best_delta : ℕ) where
  best_candidate_skip :
      is_no_better best_delta (delta timestamp c) ≡ true
      → best_candidate timestamp (c ∷ items) best best_delta
        ≡ best_candidate timestamp items best best_delta
  unfolding best_candidate
  best_candidate_skip h = rw (best_candidate, h) refl

  best_candidate_take :
      is_no_better best_delta (delta timestamp c) ≡ false
      → best_candidate timestamp (c ∷ items) best best_delta
        ≡ best_candidate timestamp items (some c) (delta timestamp c)
  unfolding best_candidate
  best_candidate_take h = rw (best_candidate, h) refl

best_candidate-Improves :
    (timestamp : ℕ) (items : List ConnectionEntry) (b : ConnectionEntry)
    → delta timestamp b ≤ connection_source_attach_window
    → Improves timestamp items b (best_candidate timestamp items (some b) (delta timestamp b))
unfolding best_candidate
best_candidate-Improves timestamp [] b close = (b, refl, inl refl, omega arith, tt)
best_candidate-Improves timestamp (c ∷ items) b close =
    elim (Bool-cases (is_no_better (delta timestamp b) (delta timestamp c))) [
      | inl skip ↦
          let (r, e, m, le, least) = best_candidate-Improves timestamp items b close in
          (
            r,
            best_candidate_skip timestamp c items (some b) (delta timestamp b) skip ∙ e,
            elim m [ inl y ↦ inl y | inr y ↦ inr (inr y) ],
            le,
            (
              is_no_better-le (delta timestamp b) (delta timestamp c) (delta timestamp r) skip close
                  le,
              least,
            ),
          )
      | inr better ↦
          let nearer = is_no_better-lt (delta timestamp b) (delta timestamp c) better in
          let (r, e, m, le, least) = best_candidate-Improves timestamp items c nearer.0 in
          (
            r,
            best_candidate_take timestamp c items (some b) (delta timestamp b) better ∙ e,
            inr (elim m [ inl y ↦ inl y | inr y ↦ inr y ]),
            omega (arith, le, nearer.1),
            (le, least),
          )
    ]

best_candidate-IsNearest :
    (timestamp : ℕ) (items : List ConnectionEntry)
    → IsNearest timestamp items
        (best_candidate timestamp items none (connection_source_attach_window + 1))
unfolding best_candidate
best_candidate-IsNearest timestamp [] = tt
best_candidate-IsNearest timestamp (c ∷ items) =
    elim (Bool-cases (is_no_better (connection_source_attach_window + 1) (delta timestamp c))) [
      | inl skip ↦
          rw (best_candidate_skip timestamp c items none (connection_source_attach_window + 1) skip)
            (IsNearest-cons_far timestamp c items _ (ground arith)
              (best_candidate-IsNearest timestamp items))
      | inr better ↦
          let nearer =
            is_no_better-lt (connection_source_attach_window + 1) (delta timestamp c) better in
          let (r, e, m, le, least) = best_candidate-Improves timestamp items c nearer.0 in
          rw
            (best_candidate_take timestamp c items none (connection_source_attach_window + 1) better
              ∙ e)
            (m, omega (arith, le, nearer.0), (le, least))
    ]

-- A connection gets the source of a connection with the same key that is nearest in time among those
-- within ten seconds; one for which there is none, which has a source, has no destination, or is
-- not of an inbound, stays as it is.
pub attach_connection_source-IsNearest :
    (items : List ConnectionEntry) (item : ConnectionEntry)
    → (found : Option ConnectionEntry) × (attach_connection_source
          (build_connection_source_index items)
          item
        ≡ (if lacks_source item then with_source item found else item))
      × IsNearest item.timestamp (candidates (connection_source_key item) items) found
unfolding attach_connection_source
attach_connection_source-IsNearest items item =
    let near = candidates (connection_source_key item) items in
    let found = best_candidate item.timestamp near none (connection_source_attach_window + 1) in
    (
      found,
      ap
          (λ l.
            if lacks_source item
            then with_source item
                (best_candidate item.timestamp l none (connection_source_attach_window + 1))
            else item)
          (build-candidates (connection_source_key item) items),
      best_candidate-IsNearest item.timestamp near,
    )
