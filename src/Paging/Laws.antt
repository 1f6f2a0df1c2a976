-- ===== src/Paging/Laws.antt =====
-- Pages put back together are the list.
use s_ui_next.Paging.{page}
use s_ui_next.Prelude.{
  ℕ, zero, suc, ◌+◌, ◌-◌, ◌*◌, ◌≤◌, ◌≡◌, ◌∙◌, refl, ap, arith, List, [], ◌∷◌, ◌++◌, take, drop,
  length, length-drop, sym, ltb→lt, leb→le, ltb, leb, Bool-cases, inl, inr,
}

module _ {ℓ} {A : Type ℓ} where
  drop_all : (n : ℕ) (xs : List A) → length xs ≤ n → drop n xs ≡ []
  drop_all zero [] h = refl
  drop_all zero (x ∷ xs) h = absurd (omega (arith, h))
  drop_all (suc n) [] h = refl
  drop_all (suc n) (x ∷ xs) h = drop_all n xs (omega (arith, h))

  take_all : (n : ℕ) (xs : List A) → length xs ≤ n → take n xs ≡ xs
  take_all zero [] h = refl
  take_all zero (x ∷ xs) h = absurd (omega (arith, h))
  take_all (suc n) [] h = refl
  take_all (suc n) (x ∷ xs) h = ap (◌∷◌ x) (take_all n xs (omega (arith, h)))

  take_nil : (n : ℕ) → take {A = A} n [] ≡ []
  take_nil zero = refl
  take_nil (suc n) = refl

  drop_nil : (n : ℕ) → drop {A = A} n [] ≡ []
  drop_nil zero = refl
  drop_nil (suc n) = refl

  -- A page is a stretch of the list, wherever it begins.
  pub page-take-drop :
      (offset limit : ℕ) (xs : List A) → page offset limit xs ≡ take limit (drop offset xs)
  unfolding page
  page-take-drop offset limit xs = elim (Bool-cases (leb (length xs) offset)) [
    | inl y ↦ rw y (
        sym (take_nil limit)
        ∙ ap (take limit) (sym (drop_all offset xs (leb→le (length xs) offset y))))
    | inr inside ↦ rw inside (elim (Bool-cases (ltb (length xs) (offset + limit))) [
      | inl past ↦ rw past (
          take_all (length xs - offset) (drop offset xs) (omega (arith, length-drop offset xs))
          ∙ sym (
              take_all limit (drop offset xs)
                (omega (arith, length-drop offset xs, ltb→lt (length xs) (offset + limit) past))))
      | inr within ↦
          let n : offset + limit - offset ≡ limit = omega arith in
          rw within (ap (λ k. take k (drop offset xs)) n)
    ])
  ]

  take-add : (m n : ℕ) (xs : List A) → take m xs ++ take n (drop m xs) ≡ take (m + n) xs
  take-add zero n xs = let e : n ≡ 0 + n = omega arith in ap (λ k. take k xs) e
  take-add (suc m) n [] = take_nil n ∙ sym (take_nil (suc m + n))
  take-add (suc m) n (x ∷ xs) =
      let e : suc (m + n) ≡ suc m + n = omega arith in
      ap (◌∷◌ x) (take-add m n xs) ∙ ap (λ k. take k (x ∷ xs)) e

  -- The first `k` pages of one size, one behind the other.
  abbrev pub pages : ℕ → ℕ → List A → List A
  pages zero limit xs = []
  pages (suc k) limit xs = pages k limit xs ++ page (k * limit) limit xs

  pages-take : (k limit : ℕ) (xs : List A) → pages k limit xs ≡ take (k * limit) xs
  pages-take zero limit xs = let e : 0 ≡ 0 * limit = omega arith in ap (λ n. take n xs) e
  pages-take (suc k) limit xs =
      let e : k * limit + limit ≡ suc k * limit = omega arith in
      rw (pages-take k limit xs, page-take-drop (k * limit) limit xs)
        (take-add (k * limit) limit xs ∙ ap (λ n. take n xs) e)

  -- Enough pages hold every element once, in order.
  pub pages-all : (k limit : ℕ) (xs : List A) → length xs ≤ k * limit → pages k limit xs ≡ xs
  pages-all k limit xs h = pages-take k limit xs ∙ take_all (k * limit) xs h
