-- ===== src/Paging.antt =====
-- How service/connections.go, service/queries.go and logger/logger.go cut a page out of a list.
pub mod Laws
use s_ui_next.Prelude.Int.{ℤ, pos, negsuc, pos_part, ltb_ℤ}
use s_ui_next.Prelude.{
  ℕ, ◌+◌, ◌-◌, Bool, true, false, ◌||◌, List, [], take, drop, length, ltb, leb, if◌then◌else◌,
}

module _ {ℓ} {A : Type ℓ} where
  -- `entries[offset:end]`, with `end` cut at the list's end, and nothing for an offset behind it.
  unfoldable pub page : ℕ → ℕ → List A → List A
  page offset limit entries =
      let total = length entries in
      let stop = if ltb total (offset + limit) then total else offset + limit in
      if leb total offset then [] else take (stop - offset) (drop offset entries)
