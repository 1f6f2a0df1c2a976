-- ===== src/Connections/SummaryKeys.antt =====
-- The kinds and keys of the summaries of service/connections.go, and the names in them.
use Prim.Native.String.{◌++◌ as concat}
use text.Mathlib.TextLemmas.{append_cancel_left, append_cancel_right}
use s_ui_next.Connections.Counts.{is_logged_resource}
use s_ui_next.GoText.{trim_space, trim_left, trim_right}
use s_ui_next.Prelude.{
  ◌≡◌, ◌∙◌, refl, sym, ap, arith, String, str_iff, comparable_string, ◌==◌, Bool, true, false, not,
  ◌&&◌, Bool-cases, inl, inr,
}

-- The key of a name in a map of summaries.
abbrev pub key_of : String → String → String
key_of resource name = concat resource (concat "\0" name)

same_if : (b c : Bool) → (b ≡ true → c ≡ true) → (c ≡ true → b ≡ true) → b ≡ c
same_if true true f g = refl
same_if true false f g = sym (f refl)
same_if false true f g = g refl
same_if false false f g = refl

pub key_of-same : (resource x y : String) → (key_of resource x == key_of resource y) ≡ (x == y)
key_of-same resource x y =
    same_if _ _
      (λ h. (str_iff x y).1 (
        append_cancel_left "\0" x y (
          append_cancel_left resource (concat "\0" x) (concat "\0" y)
            ((str_iff (key_of resource x) (key_of resource y)).0 h))))
      (λ h.
        (str_iff (key_of resource x) (key_of resource y)).1
          (ap (key_of resource) ((str_iff x y).0 h)))

pub kind-same : (x y : String) → (concat x "s" == concat y "s") ≡ (x == y)
kind-same x y =
    same_if _ _
      (λ h.
        (str_iff x y).1 (append_cancel_right x y "s" ((str_iff (concat x "s") (concat y "s")).0 h)))
      (λ h. (str_iff (concat x "s") (concat y "s")).1 (ap (λ r. concat r "s") ((str_iff x y).0 h)))

-- The kind of a logged resource is neither that of users nor that of destinations.
pub kind_apart :
    (resource other : String)
    → is_logged_resource resource ≡ true
    → ("inbounds" == other) ≡ false
    → ("outbounds" == other) ≡ false
    → ("endpoints" == other) ≡ false
    → (concat resource "s" == other) ≡ false
kind_apart resource other h a b c = elim (Bool-cases (resource == "inbound")) [
  | inl y ↦ ap (λ r. concat r "s" == other) ((str_iff resource "inbound").0 y) ∙ a
  | inr n ↦ elim (Bool-cases (resource == "outbound")) [
    | inl y ↦ ap (λ r. concat r "s" == other) ((str_iff resource "outbound").0 y) ∙ b
    | inr m ↦
        let e : (resource == "endpoint") ≡ true = ground arith in
        ap (λ r. concat r "s" == other) ((str_iff resource "endpoint").0 e) ∙ c
  ]
]

pub equal_sym : (x y : String) → (x == y) ≡ (y == x)
equal_sym x y =
    same_if _ _ (λ h. (str_iff y x).1 (sym ((str_iff x y).0 h)))
      (λ h. (str_iff x y).1 (sym ((str_iff y x).0 h)))

-- A text that is a name is not empty.
pub named_name : (x name : String) → (name == "") ≡ false → not (x == "") && x == name ≡ (x == name)
named_name x name h = elim (Bool-cases (x == name)) [
  | inl y ↦
      let full : (x == "") ≡ false = ap (λ s. s == "") ((str_iff x name).0 y) ∙ h in
      rw (full, y) refl
  | inr n ↦ rw n (elim (Bool-cases (x == "")) [ inl e ↦ rw e refl | inr e ↦ rw e refl ])
]

-- A text that trims to a name is not empty.
pub given_name :
    (x name : String)
    → (name == "") ≡ false
    → not (x == "") && trim_space x == name ≡ (trim_space x == name)
unfolding trim_left trim_right
given_name x name h = elim (Bool-cases (x == "")) [
  | inl y ↦
      let none_there : (trim_space x == name) ≡ false =
        ap (λ s. trim_space s == name) ((str_iff x "").0 y) ∙ (equal_sym "" name ∙ h) in
      rw (y, none_there) refl
  | inr n ↦ rw n refl
]
