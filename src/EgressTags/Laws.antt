-- ===== src/EgressTags/Laws.antt =====
-- What the check of service/egress_tags.go promises.
use s_ui_next.EgressTags.{
  Tagged, TagError, Tables, used_in_kind, used_in_other_kind, is_other_use, is_use, refuse_if,
  check_endpoint, check_outbound, ensure_egress_tag_available,
}
use s_ui_next.GoText.{trim_space}
use s_ui_next.Prelude.{
  ℕ, String, comparable_string, comparable_nat, ◌==◌, Bool, true, false, List, [], ◌∷◌, keep,
  length, ltb, if◌then◌else◌, ◌≡◌, ◌∙◌, sym, ap, arith, All, Bool-cases, inl, inr, ok, bind-ok,
}

keep_nil-All :
    (p : Tagged → Bool) (rows : List Tagged)
    → ltb 0 (length (keep p rows)) ≡ false
    → All (λ c. p c ≡ false) rows
keep_nil-All p [] h = tt
keep_nil-All p (row ∷ rows) h = elim (Bool-cases (p row)) [
  | inl y ↦ absurd (ground (arith))
  | inr n ↦ (n, keep_nil-All p rows (rw n at h))
]

refuse_if-ok : (n : ℕ) (e : TagError) (u : Unit {0}) → refuse_if n e ≡ ok u → ltb 0 n ≡ false
refuse_if-ok n e u h = elim (Bool-cases (ltb 0 n)) [ inl y ↦ absurd (ground arith) | inr f ↦ f ]

-- No row of the own kind but the row itself, and none of the other kind, has the tag.
abbrev pub IsFree : ℕ → String → List Tagged → List Tagged → Type 0
IsFree id tag own others =
    All (λ row. is_other_use id tag row ≡ false) own × All (λ row. is_use tag row ≡ false) others

module _ (db : Tables) where
  open db use {Tx, endpoints, outbounds}

  check_endpoint-IsFree :
      (id : ℕ) (tag : String) (t : Tx)
      → check_endpoint db id tag t ≡ ok tt
      → IsFree id tag (endpoints t) (outbounds t)
  unfolding check_endpoint
  check_endpoint-IsFree id tag t e =
      let (own, q, e1) = bind-ok (db.count_endpoints (is_other_use id tag) t) _ e in
      let (u, q1, e2) = bind-ok (refuse_if own used_in_kind) _ e1 in
      let (others, q2, e3) = bind-ok (db.count_outbounds (is_use tag) t) _ e2 in
      (
        keep_nil-All (is_other_use id tag) (endpoints t) (
            ap (ltb 0) (sym (db.count_endpoints_lem (is_other_use id tag) t own q))
            ∙ refuse_if-ok own used_in_kind u q1),
        keep_nil-All (is_use tag) (outbounds t) (
            ap (ltb 0) (sym (db.count_outbounds_lem (is_use tag) t others q2))
            ∙ refuse_if-ok others used_in_other_kind tt e3),
      )

  check_outbound-IsFree :
      (id : ℕ) (tag : String) (t : Tx)
      → check_outbound db id tag t ≡ ok tt
      → IsFree id tag (outbounds t) (endpoints t)
  unfolding check_outbound
  check_outbound-IsFree id tag t e =
      let (own, q, e1) = bind-ok (db.count_outbounds (is_other_use id tag) t) _ e in
      let (u, q1, e2) = bind-ok (refuse_if own used_in_kind) _ e1 in
      let (others, q2, e3) = bind-ok (db.count_endpoints (is_use tag) t) _ e2 in
      (
        keep_nil-All (is_other_use id tag) (outbounds t) (
            ap (ltb 0) (sym (db.count_outbounds_lem (is_other_use id tag) t own q))
            ∙ refuse_if-ok own used_in_kind u q1),
        keep_nil-All (is_use tag) (endpoints t) (
            ap (ltb 0) (sym (db.count_endpoints_lem (is_use tag) t others q2))
            ∙ refuse_if-ok others used_in_other_kind tt e3),
      )

  -- A tag that passes the check for an endpoint or for an outbound is not blank, and in its trimmed
  -- form no other row of that kind and no row of the other kind has it.
  pub ensure_egress_tag_available-IsFree :
      (id : ℕ) (tag : String) (t : Tx) (is_endpoint : Bool)
      → ensure_egress_tag_available db (if is_endpoint then "endpoint" else "outbound") id tag t
        ≡ ok tt
      → ((trim_space tag == "") ≡ false)
        × IsFree id
            (trim_space tag)
            (if is_endpoint then endpoints t else outbounds t)
            (if is_endpoint then outbounds t else endpoints t)
  unfolding ensure_egress_tag_available
  ensure_egress_tag_available-IsFree id tag t true e = elim (Bool-cases (trim_space tag == "")) [
    | inl blank ↦ absurd (ground arith)
    | inr n ↦ (n, check_endpoint-IsFree id (trim_space tag) t (rw n at e))
  ]
  ensure_egress_tag_available-IsFree id tag t false e = elim (Bool-cases (trim_space tag == "")) [
    | inl blank ↦ absurd (ground arith)
    | inr n ↦ (n, check_outbound-IsFree id (trim_space tag) t (rw n at e))
  ]
