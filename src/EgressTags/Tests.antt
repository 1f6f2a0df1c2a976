-- ===== src/EgressTags/Tests.antt =====
-- The check of service/egress_tags.go on two small tables, and its theorem there.
use s_ui_next.EgressTags.{
  Tagged, TagError, Tables, used_in_other_kind, check_endpoint, check_outbound,
  ensure_egress_tag_available,
}
use s_ui_next.GoText.{trim_left, trim_right}
use s_ui_next.Prelude.{
  ℕ, comparable_string, ◌≡◌, refl, sym, ap, List, [], ◌∷◌, keep, length, Result, ok, err,
}

program : Unit {0}
unfolding check_endpoint check_outbound ensure_egress_tag_available trim_left trim_right
program = tt

pub record TwoTables : Type 0 where
  pub endpoint_rows : List Tagged
  pub outbound_rows : List Tagged

abbrev number_of : ℕ → Result TagError ℕ → ℕ
number_of d (ok n) = n
number_of d (err e) = d

abbrev two_tables : Tables
two_tables = record {
  Tx = TwoTables;
  endpoints = λ t. t.endpoint_rows;
  outbounds = λ t. t.outbound_rows;
  count_endpoints = λ p t. ok (length (keep p t.endpoint_rows));
  count_outbounds = λ p t. ok (length (keep p t.outbound_rows));
  count_endpoints_lem = λ p t n e. ap (number_of n) (sym e);
  count_outbounds_lem = λ p t n e. ap (number_of n) (sym e);
}

abbrev tables : TwoTables
tables = record {
  endpoint_rows = record { id = 1; tag = "wg" } ∷ [];
  outbound_rows = record { id = 1; tag = "direct" } ∷ [];
}

taken :
    ensure_egress_tag_available two_tables "endpoint" 0 " direct" tables ≡ err used_in_other_kind
unfolding program
taken = refl

own : ensure_egress_tag_available two_tables "endpoint" 1 "wg " tables ≡ ok tt
unfolding program
own = refl
