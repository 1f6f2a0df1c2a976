-- ===== src/Accounts/Passwords.antt =====
-- Passwords of service/user.go.
use mathlib.Core.Option.{some-injective}
use text.Mathlib.Text.{starts_with}
use s_ui_next.Accounts.{
  Crypto, User, Faults, AccountError, database_error, wrong_password, first_where, change_if,
  update_where, has_id, has_name, is_bcrypt, verify_password, upgrade_password, check_found,
  check_password,
}
use s_ui_next.Prelude.{
  ℕ, ◌≡◌, ◌∙◌, refl, sym, ap, String, comparable_string, comparable_nat, ◌==◌, Bool, true, false,
  List, [], ◌∷◌, map, some, nat_eq_iff, Bool-cases, Option-cases, inl, inr, if◌then◌else◌, Result,
  ok, err,
}

if-true {ℓ} : {A : Type ℓ} {b : Bool} (x y : A) → b ≡ true → (if b then x else y) ≡ x
if-true x y h = rw h refl

if-false {ℓ} : {A : Type ℓ} {b : Bool} (x y : A) → b ≡ false → (if b then x else y) ≡ y
if-false x y h = rw h refl

-- The first row of a name, after a change that keeps names.
first_where-map :
    (name : String) (f : User → User) (us : List User) (row : User)
    → ((u : User) → (f u).username ≡ u.username)
    → first_where (has_name name) us ≡ some row
    → first_where (has_name name) (map f us) ≡ some (f row)
unfolding first_where
first_where-map name f [] row keep e = cc
first_where-map name f (w ∷ us) row keep e = elim (Bool-cases (has_name name w)) [
  | inl y ↦
      let kept : has_name name (f w) ≡ true = ap (λ (n : String). n == name) (keep w) ∙ y in
      if-true (some (f w)) (first_where (has_name name) (map f us)) kept
      ∙ ap (λ u. some (f u)) (some-injective w row (rw (y, first_where) at e))
  | inr n ↦
      let kept : has_name name (f w) ≡ false = ap (λ (n : String). n == name) (keep w) ∙ n in
      if-false (some (f w)) (first_where (has_name name) (map f us)) kept
      ∙ first_where-map name f us row keep (rw (n, first_where) at e)
]

set_password-username :
    (id : ℕ) (h : String) (u : User)
    → (change_if (has_id id) (λ w. record w { password = h }) u).username ≡ u.username
set_password-username id h u = elim (Bool-cases (has_id id u)) [
  | inl y ↦ rw y refl
  | inr n ↦ rw n refl
]

abbrev user_of : User → Result AccountError User → User
user_of d (ok user) = user
user_of d (err e) = d

module _ (crypto : Crypto) where
  no_user :
      (us : List User) (error : AccountError) (user : User)
      → ◌≡◌ {A = Result AccountError User} (err error) (ok user)
      → ⊥
  no_user us error user e = cc

  upgrade_password-id :
      (faults : Faults) (password : String) (user : User) (us : List User)
      → (upgrade_password crypto faults password user us).1.id ≡ user.id
  unfolding upgrade_password
  upgrade_password-id faults password user us = elim (Bool-cases (starts_with user.password "$2")) [
    | inl y ↦ rw y refl
    | inr n ↦
        rw n (elim (Option-cases (crypto.hash password)) [
          | inl q ↦ rw q refl
          | inr (h, q) ↦ rw q refl
        ])
  ]

  -- What a check finds where the row has the password.
  check_password-found :
      (faults : Faults) (username password : String) (us : List User) (row : User)
      → faults.read ≡ false
      → first_where (has_name username) us ≡ some row
      → verify_password crypto row.password password ≡ true
      → check_password crypto faults username password us ≡ (
          let upgraded = upgrade_password crypto faults password row us in
          (upgraded.0, ok upgraded.1))
  unfolding check_password check_found
  check_password-found faults username password us row r e v = rw r (rw e (rw v refl))

  -- A check that succeeds has found the row of the name with that password.
  check_password-row :
      (faults : Faults) (username password : String) (us : List User)
      (r : List User × Result AccountError User) (user : User)
      → check_password crypto faults username password us ≡ r
      → r.1 ≡ ok user
      → (row : User) × (first_where (has_name username) us ≡ some row)
        × (verify_password crypto row.password password ≡ true)
        × (r ≡ (
            let upgraded = upgrade_password crypto faults password row us in
            (upgraded.0, ok upgraded.1)))
  unfolding check_password check_found
  check_password-row faults username password us r user e o = elim (Bool-cases faults.read) [
    | inl y ↦
        absurd (no_user us database_error user (ap (λ x. x.1) (rw (y, check_password) at e) ∙ o))
    | inr n ↦ elim (Option-cases (first_where (has_name username) us)) [
      | inl q ↦
          absurd
            (no_user us wrong_password user (ap (λ x. x.1) (rw (n, q, check_password) at e) ∙ o))
      | inr (row, q) ↦ elim (Bool-cases (verify_password crypto row.password password)) [
        | inl v ↦ (row, q, v, sym (rw (n, q, v, check_password, check_found) at e))
        | inr w ↦ absurd (
            no_user us wrong_password user
              (ap (λ x. x.1) (rw (n, q, w, check_password, check_found) at e) ∙ o))
      ]
    ]
  ]

  -- The table after an upgrade still has a row of the name with the password.
  upgrade_password-row :
      (faults : Faults) (username password : String) (us : List User) (row : User)
      → ((p h : String)
          → crypto.hash p ≡ some h
          → (is_bcrypt crypto h ≡ true) × (crypto.matches h p ≡ true))
      → first_where (has_name username) us ≡ some row
      → verify_password crypto row.password password ≡ true
      → (found : User) × (first_where
            (has_name username)
            (upgrade_password crypto faults password row us).0
          ≡ some found)
        × (verify_password crypto found.password password ≡ true)
        × (found.id ≡ row.id)
  unfolding upgrade_password update_where verify_password
  upgrade_password-row faults username password us row law e v =
      elim (Bool-cases (starts_with row.password "$2")) [
        | inl y ↦ rw y (row, e, v, refl)
        | inr n ↦ rw n (elim (Option-cases (crypto.hash password)) [
          | inl q ↦ rw q (row, e, v, refl)
          | inr (h, q) ↦ rw q (elim (Bool-cases faults.write) [
            | inl w ↦ rw w (row, e, v, refl)
            | inr w ↦ rw w (
              record row { password = h },
              first_where-map username (change_if (has_id row.id) (λ u. record u { password = h }))
                    us row (set_password-username row.id h) e
                  ∙ ap some (
                      if-true (record row { password = h }) row
                        ((nat_eq_iff row.id row.id).1 refl)),
              if-true (crypto.matches h password) (h == password) ((law password h q).0)
                  ∙ (law password h q).1,
              refl,
            )
          ])
        ])
      ]

  -- Where bcrypt accepts a password for its own hash, a password check that gives a user leaves a
  -- table in which the same name and password give a user of the same id again, if the table can be
  -- read: also where the check has replaced a password that was stored as it is.
  pub check_password-again :
      (faults later : Faults) (username password : String) (us : List User) (user : User)
      → ((p h : String)
          → crypto.hash p ≡ some h
          → (is_bcrypt crypto h ≡ true) × (crypto.matches h p ≡ true))
      → (check_password crypto faults username password us).1 ≡ ok user
      → later.read ≡ false
      → (again : User) × ((check_password crypto later username password
            (check_password crypto faults username password us).0).1
          ≡ ok again)
        × (again.id ≡ user.id)
  check_password-again faults later username password us user law e read =
      let first = check_password crypto faults username password us in
      let (row, q, v, same) = check_password-row faults username password us first user refl e in
      let (found, q2, v2, same_id) = upgrade_password-row faults username password us row law q v in
      let table = (upgrade_password crypto faults password row us).0 in
      let again = (upgrade_password crypto later password found table).1 in
      let given : (upgrade_password crypto faults password row us).1 ≡ user =
        ap (user_of user) (sym (ap (λ x. x.1) same) ∙ e) in
      (
        again,
        ap (λ t. (check_password crypto later username password t).1) (ap (λ x. x.0) same)
            ∙ ap (λ x. x.1) (check_password-found later username password table found read q2 v2),
        upgrade_password-id later password found table
            ∙ (same_id
                ∙ (sym (upgrade_password-id faults password row us)
                    ∙ ap (λ (u : User). u.id) given)),
      )
