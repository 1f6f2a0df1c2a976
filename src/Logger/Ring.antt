-- ===== src/Logger/Ring.antt =====
-- The ring of logger/logger.go holds the newest entries.
use mathlib.Core.List.{append-nil}
use s_ui_next.Logger.{BufferEntry, buffer_size, add_structured_to_buffer}
use s_ui_next.Prelude.{
  ℕ, zero, suc, ◌-◌, ◌≤◌, ◌≡◌, ◌∙◌, refl, sym, ap, arith, List, [], ◌∷◌, ◌++◌, drop, length,
  length-drop, length-append, leb, leb→le, leb→lt, Bool-cases, inl, inr,
}

module _ {ℓ} {A : Type ℓ} where
  -- The last `n` elements.
  abbrev pub newest : ℕ → List A → List A
  newest n xs = drop (length xs - n) xs

  drop-drop_one : (m : ℕ) (xs : List A) → drop 1 (drop m xs) ≡ drop (suc m) xs
  drop-drop_one zero xs = refl
  drop-drop_one (suc m) [] = refl
  drop-drop_one (suc m) (x ∷ xs) = drop-drop_one m xs

  drop-append : (m : ℕ) (xs ys : List A) → m ≤ length xs → drop m (xs ++ ys) ≡ drop m xs ++ ys
  drop-append zero xs ys h = refl
  drop-append (suc m) [] ys h = absurd (omega (arith, h))
  drop-append (suc m) (x ∷ xs) ys h = drop-append m xs ys (omega (arith, h))

add-newest :
    (entry : BufferEntry) (xs : List BufferEntry)
    → add_structured_to_buffer entry (newest buffer_size xs) ≡ newest buffer_size (xs ++ entry ∷ [])
unfolding add_structured_to_buffer
add-newest entry xs =
    let new_length : length (xs ++ entry ∷ []) ≡ suc (length xs) =
      omega (arith, length-append xs (entry ∷ [])) in
    elim (Bool-cases (leb buffer_size (length (newest buffer_size xs)))) [
      | inl y ↦
          let full = leb→le buffer_size (length (newest buffer_size xs)) y in
          let e : suc (length xs - buffer_size) ≡ suc (length xs) - buffer_size =
            omega (arith, full, length-drop (length xs - buffer_size) xs) in
          rw (y, new_length)
            (ap (λ l. l ++ entry ∷ [])
                (drop-drop_one (length xs - buffer_size) xs ∙ ap (λ k. drop k xs) e)
              ∙ sym (drop-append (suc (length xs) - buffer_size) xs (entry ∷ []) (omega arith)))
      | inr n ↦
          let room = leb→lt buffer_size (length (newest buffer_size xs)) n in
          let e : length xs - buffer_size ≡ suc (length xs) - buffer_size =
            omega (arith, room, length-drop (length xs - buffer_size) xs) in
          rw (n, new_length)
            (ap (λ k. drop k xs ++ entry ∷ []) e
              ∙ sym (
                  drop-append (suc (length xs) - buffer_size) xs (entry ∷ [])
                    (omega (arith, room, length-drop (length xs - buffer_size) xs))))
    ]

-- The ring after entries were added one by one.
abbrev pub add_all : List BufferEntry → List BufferEntry → List BufferEntry
add_all [] log_buffer = log_buffer
add_all (entry ∷ entries) log_buffer = add_all entries (add_structured_to_buffer entry log_buffer)

append_assoc :
    (xs : List BufferEntry) (x : BufferEntry) (ys : List BufferEntry)
    → (xs ++ x ∷ []) ++ ys ≡ xs ++ x ∷ ys
append_assoc [] x ys = refl
append_assoc (y ∷ xs) x ys = ap (◌∷◌ y) (append_assoc xs x ys)

add_all-newest_of :
    (entries old : List BufferEntry)
    → add_all entries (newest buffer_size old) ≡ newest buffer_size (old ++ entries)
add_all-newest_of [] old = ap (newest buffer_size) (sym (append-nil old))
add_all-newest_of (entry ∷ entries) old =
    ap (add_all entries) (add-newest entry old)
    ∙ add_all-newest_of entries (old ++ entry ∷ [])
    ∙ ap (newest buffer_size) (append_assoc old entry entries)

-- Whatever entries are added to an empty ring, it holds the newest 10240 of them, in order.
pub add_all-newest : (entries : List BufferEntry) → add_all entries [] ≡ newest buffer_size entries
add_all-newest entries = add_all-newest_of entries []
