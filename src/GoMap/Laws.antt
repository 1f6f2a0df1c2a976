-- ===== src/GoMap/Laws.antt =====
-- How reads, writes and deletes of a map interact, and that they keep one entry for a key.
use s_ui_next.Prelude.{
  suc, ◌≤◌, Bool, true, false, [], ◌∷◌, none, some, if◌then◌else◌, Comparable, ◌==◌, ◌≡◌, refl, ap,
  arith, length, length-keep-le, keep, Bool-cases, inl, inr,
}
use s_ui_next.GoMap.{GoMap, lookup, insert, delete, has_key, IsMap}

module _ {ℓ κ} {K : Type ℓ} {V : Type κ} ⦃c : Comparable K⦄ where
  pub lookup-insert :
      (written read : K) (value : V) (m : GoMap K V)
      → lookup read (insert written value m)
        ≡ (if written == read then some value else lookup read m)
  unfolding insert lookup
  lookup-insert written read value [] = refl
  lookup-insert written read value (entry ∷ rest) = ground (
    arith,
    lookup-insert written read value rest,
    c.same_iff entry.0 written,
    c.same_iff entry.0 read,
    c.same_iff written read,
  )

  pub lookup-delete :
      (k j : K) (m : GoMap K V) → lookup j (delete k m) ≡ (if k == j then none else lookup j m)
  unfolding lookup delete
  lookup-delete k j [] = ground arith
  lookup-delete k j ((i, w) ∷ m) =
      ground (arith, c.same_iff k j, c.same_iff i k, c.same_iff i j, lookup-delete k j m)

  pub lookup-has_key : (k : K) (m : GoMap K V) → has_key k m ≡ false → lookup k m ≡ none
  unfolding lookup has_key
  lookup-has_key k [] h = refl
  lookup-has_key k ((j, v) ∷ m) h = ground (arith, lookup-has_key k m)

  pub has_key-lookup : (k : K) (m : GoMap K V) → lookup k m ≡ none → has_key k m ≡ false
  unfolding lookup has_key
  has_key-lookup k [] h = refl
  has_key-lookup k ((j, v) ∷ m) h = ground (arith, has_key-lookup k m)

  pub has_key-insert :
      (k j : K) (v : V) (m : GoMap K V)
      → has_key j (insert k v m) ≡ (if k == j then true else has_key j m)
  unfolding has_key insert
  has_key-insert k j v [] = ground arith
  has_key-insert k j v ((i, w) ∷ m) =
      ground (arith, c.same_iff k j, c.same_iff i k, c.same_iff i j, has_key-insert k j v m)

  pub has_key-delete :
      (k j : K) (m : GoMap K V) → has_key j (delete k m) ≡ (if k == j then false else has_key j m)
  unfolding has_key delete
  has_key-delete k j [] = ground arith
  has_key-delete k j ((i, w) ∷ m) =
      ground (arith, c.same_iff k j, c.same_iff i k, c.same_iff i j, has_key-delete k j m)

  pub has_key-keep :
      (p : K × V → Bool) (j : K) (m : GoMap K V)
      → has_key j m ≡ false
      → has_key j (keep p m) ≡ false
  unfolding has_key
  has_key-keep p j [] h = refl
  has_key-keep p j ((i, w) ∷ m) h = ground (arith, has_key-keep p j m)

  pub insert-IsMap : (k : K) (v : V) (m : GoMap K V) → IsMap m → IsMap (insert k v m)
  unfolding insert has_key
  insert-IsMap k v [] h = (refl, tt)
  insert-IsMap k v ((i, w) ∷ m) h = elim (Bool-cases (i == k)) [
    | inl p ↦ rw p h
    | inr n ↦ rw n (
      rw (has_key-insert k i v m) (ground (arith, c.same_iff k i, c.same_iff i k)),
      insert-IsMap k v m h.1,
    )
  ]

  pub delete-IsMap : (k : K) (m : GoMap K V) → IsMap m → IsMap (delete k m)
  unfolding delete has_key
  delete-IsMap k [] h = tt
  delete-IsMap k ((i, w) ∷ m) h = elim (Bool-cases (i == k)) [
    | inl p ↦ rw p (delete-IsMap k m h.1)
    | inr n ↦ rw n (rw (has_key-delete k i m) (ground arith), delete-IsMap k m h.1)
  ]

  pub keep-IsMap : (p : K × V → Bool) (m : GoMap K V) → IsMap m → IsMap (keep p m)
  keep-IsMap p [] h = tt
  keep-IsMap p ((i, w) ∷ m) h = elim (Bool-cases (p (i, w))) [
    | inl y ↦ rw y (has_key-keep p i m h.0, keep-IsMap p m h.1)
    | inr n ↦ rw n (keep-IsMap p m h.1)
  ]

  -- A range loop that deletes what fails the test, read back.
  pub lookup-keep :
      (p : K × V → Bool) (k : K) (m : GoMap K V)
      → IsMap m
      → lookup k (keep p m)
        ≡ elim (lookup k m) [ none ↦ none | some v ↦ if p (k, v) then some v else none ]
  unfolding lookup
  lookup-keep p k [] h = refl
  lookup-keep p k ((i, w) ∷ m) h = elim (Bool-cases (i == k)) [
    | inl y ↦
        let same = (c.same_iff i k).0 y in
        let gone = lookup-has_key k (keep p m) (rw same at (has_key-keep p i m h.0)) in
        ground (arith, gone, ap (λ (x : K). p (x, w)) same, lookup-keep p k m h.1)
    | inr n ↦ ground (arith, lookup-keep p k m h.1)
  ]

  pub length-insert :
      (k : K) (v : V) (m : GoMap K V)
      → length (insert k v m) ≡ (if has_key k m then length m else suc (length m))
  unfolding insert has_key
  length-insert k v [] = refl
  length-insert k v ((i, w) ∷ m) = ground (arith, length-insert k v m)

  pub length-delete-le : (k : K) (m : GoMap K V) → length (delete k m) ≤ length m
  unfolding delete
  length-delete-le k [] = omega arith
  length-delete-le k ((i, w) ∷ m) = ground (arith, length-delete-le k m)

  pub length-insert-le : (k : K) (v : V) (m : GoMap K V) → length (insert k v m) ≤ suc (length m)
  length-insert-le k v m = ground (arith, length-insert k v m)

  -- A write to a key that is there adds no entry.
  pub length-insert_present :
      (k : K) (v w : V) (m : GoMap K V) → lookup k m ≡ some w → length (insert k v m) ≡ length m
  unfolding lookup insert
  length-insert_present k v w [] h = cc
  length-insert_present k v w ((i, x) ∷ m) h = ground (arith, length-insert_present k v w m)

  -- A filtering range loop that removes the entry of a key leaves fewer entries.
  pub length-keep-lt :
      (p : K × V → Bool) (k : K) (v : V) (m : GoMap K V)
      → lookup k m ≡ some v
      → ((j : K) → p (j, v) ≡ false)
      → suc (length (keep p m)) ≤ length m
  unfolding lookup
  length-keep-lt p k v [] h n = cc
  length-keep-lt p k v ((i, w) ∷ m) h n = elim (Bool-cases (i == k)) [
    | inl y ↦
        let same : w ≡ v = ground arith in
        ground (arith, ap (λ (x : V). p (i, x)) same, n i, length-keep-le p m)
    | inr o ↦ ground (arith, length-keep-lt p k v m)
  ]
