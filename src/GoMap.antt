-- ===== src/GoMap.antt =====
-- Go's `map[K]V` as an association list with at most one entry for a key. The order of the list
-- stands for the order in which one `range` over the map meets its entries.
pub mod Laws
pub mod Values
use s_ui_next.Prelude.{
  Bool, true, false, not, ◌&&◌, ◌||◌, List, [], ◌∷◌, Option, none, some, if◌then◌else◌, Comparable,
  ◌==◌, ◌≡◌,
}

abbrev pub GoMap {ℓ κ} : Type ℓ → Type κ → Type (ℓ ⊔ κ)
GoMap K V = List (K × V)

module _ {ℓ κ} {K : Type ℓ} {V : Type κ} ⦃c : Comparable K⦄ where
  -- `m[key]` with its second result.
  unfoldable pub lookup : K → GoMap K V → Option V
  lookup key [] = none
  lookup key (entry ∷ rest) = if entry.0 == key then some entry.1 else lookup key rest

  -- `m[key] = value`
  unfoldable pub insert : K → V → GoMap K V → GoMap K V
  insert key value [] = (key, value) ∷ []
  insert key value (entry ∷ rest) =
      if entry.0 == key then (entry.0, value) ∷ rest else entry ∷ insert key value rest

  -- `delete(m, key)`
  unfoldable pub delete : K → GoMap K V → GoMap K V
  delete key [] = []
  delete key (entry ∷ rest) = if entry.0 == key then delete key rest else entry ∷ delete key rest

  -- Whether some entry has the key.
  unfoldable pub has_key : K → GoMap K V → Bool
  has_key key [] = false
  has_key key (entry ∷ rest) = entry.0 == key || has_key key rest

  -- At most one entry for a key: what makes the list a map.
  abbrev pub IsMap : GoMap K V → Type 0
  IsMap [] = Unit
  IsMap (entry ∷ rest) = (has_key entry.0 rest ≡ false) × IsMap rest
