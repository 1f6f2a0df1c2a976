-- ===== src/EgressTags.antt =====
-- service/egress_tags.go: endpoints and outbounds share one space of tags. A table is the list of
-- its ids and tags. The counts are gorm's, which may fail: `Tables` is what the check uses of them.
pub mod Laws
pub mod Tests
use s_ui_next.GoText.{trim_space}
use s_ui_next.Prelude.{
  ℕ, String, comparable_string, comparable_nat, ◌==◌, Bool, true, false, not, ◌&&◌, ◌||◌, List, [],
  ◌∷◌, keep, length, ltb, nat_eq, if◌then◌else◌, ◌≡◌, Result, ok, err, ◌>>=◌,
}

pub record Tagged : Type 0 where
  pub id : ℕ
  pub tag : String

pub data TagError : Type 0 where
  tag_required used_in_kind used_in_other_kind unknown_kind count_failed : TagError

-- A count that succeeds is the number of the rows that pass its test.
pub record Tables : Type 1 where
  pub Tx : Type 0
  pub endpoints : Tx → List Tagged
  pub outbounds : Tx → List Tagged
  pub count_endpoints : (Tagged → Bool) → Tx → Result TagError ℕ
  pub count_outbounds : (Tagged → Bool) → Tx → Result TagError ℕ
  pub count_endpoints_lem :
      (p : Tagged → Bool) (t : Tx) (n : ℕ)
      → count_endpoints p t ≡ ok n
      → n ≡ length (keep p (endpoints t))
  pub count_outbounds_lem :
      (p : Tagged → Bool) (t : Tx) (n : ℕ)
      → count_outbounds p t ≡ ok n
      → n ≡ length (keep p (outbounds t))

-- The rows of the own kind that a tag must not have: without the row itself, where it has an id.
abbrev pub is_other_use : ℕ → String → Tagged → Bool
is_other_use id tag row = row.tag == tag && (not (ltb 0 id) || not (row.id == id))

abbrev pub is_use : String → Tagged → Bool
is_use tag row = row.tag == tag

abbrev pub refuse_if : ℕ → TagError → Result TagError (Unit {0})
refuse_if n e = if ltb 0 n then err e else ok tt

module _ (db : Tables) where
  open db use {Tx, count_endpoints, count_outbounds}

  unfoldable pub check_endpoint : ℕ → String → Tx → Result TagError (Unit {0})
  check_endpoint id tag tx = do
    own ← count_endpoints (is_other_use id tag) tx
    free ← refuse_if own used_in_kind
    others ← count_outbounds (is_use tag) tx
    refuse_if others used_in_other_kind

  unfoldable pub check_outbound : ℕ → String → Tx → Result TagError (Unit {0})
  check_outbound id tag tx = do
    own ← count_outbounds (is_other_use id tag) tx
    free ← refuse_if own used_in_kind
    others ← count_endpoints (is_use tag) tx
    refuse_if others used_in_other_kind

  unfoldable pub ensure_egress_tag_available : String → ℕ → String → Tx → Result TagError (Unit {0})
  unfolding check_endpoint check_outbound
  ensure_egress_tag_available kind id tag tx =
      let cleaned = trim_space tag in
      if cleaned == ""
      then err tag_required
      else if kind == "endpoint"
      then check_endpoint id cleaned tx
      else if kind == "outbound"
      then check_outbound id cleaned tx
      else err unknown_kind
