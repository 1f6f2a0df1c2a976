-- ===== src/Accounts/Recovery.antt =====
-- Recovery codes of service/user.go: each is accepted once.
use mathlib.Core.Option.{some-injective}
use mathlib.Core.Path.{subst}
use s_ui_next.Accounts.{Crypto, User, Faults, first_where, change_if, update_where, has_id}
use s_ui_next.Accounts.SecondFactor.{
  or_kept, spend, keep_left, redeem, recovery_hash, verify_second_factor,
}
use s_ui_next.GoText.{trim_space}
use s_ui_next.Prelude.{
  ℕ, suc, ◌+◌, ◌≡◌, ◌∙◌, refl, sym, ap, arith, String, comparable_string, comparable_nat, str_iff,
  ◌==◌, Bool, true, false, not, ◌&&◌, List, [], ◌∷◌, map, Option, none, some, nat_eq_iff,
  Bool-cases, Option-cases, inl, inr, if◌then◌else◌,
}

-- How often a hash is in a list of recovery codes.
abbrev pub count_hash : String → List String → ℕ
count_hash h [] = 0
count_hash h (x ∷ xs) = if x == h then suc (count_hash h xs) else count_hash h xs

abbrev pub count_codes : String → Option (List String) → ℕ
count_codes h none = 0
count_codes h (some hs) = count_hash h hs

-- How often a user has the hash of a recovery code left.
abbrev pub count_row : String → Option User → ℕ
count_row h none = 0
count_row h (some u) = count_codes h u.recovery_codes

abbrev pub codes_left : ℕ → String → List User → ℕ
codes_left id h us = count_row h (first_where (has_id id) us)

abbrev pub one_if : Bool → ℕ
one_if true = 1
one_if false = 0

abbrev pub set_codes : List String → User → User
set_codes left u = record u { recovery_codes = some left }

-- The row of a user after the codes of one are written.
first_where-here :
    (id : ℕ) (left : List String) (us : List User) (u : User)
    → first_where (has_id id) us ≡ some u
    → first_where (has_id id) (map (change_if (has_id id) (set_codes left)) us)
      ≡ some (set_codes left u)
unfolding first_where
first_where-here id left [] u e = cc
first_where-here id left (w ∷ us) u e = elim (Bool-cases (w.id == id)) [
  | inl y ↦
      rw y
        (rw y (ap (λ x. some (set_codes left x)) (some-injective w u (rw (y, first_where) at e))))
  | inr n ↦ rw n (rw n (first_where-here id left us u (rw (n, first_where) at e)))
]

first_where-other :
    (id j : ℕ) (left : List String) (us : List User)
    → (j == id) ≡ false
    → first_where (has_id j) (map (change_if (has_id id) (set_codes left)) us)
      ≡ first_where (has_id j) us
unfolding first_where
first_where-other id j left [] n = refl
first_where-other id j left (w ∷ us) n = elim (Bool-cases (w.id == id)) [
  | inl y ↦
      let apart : (w.id == j) ≡ false = ground (arith, y, n) in
      rw y (rw apart (first_where-other id j left us n))
  | inr m ↦ rw m (elim (Bool-cases (w.id == j)) [
    | inl y ↦ rw y refl
    | inr k ↦ rw k (first_where-other id j left us n)
  ])
]

first_where-id :
    (id : ℕ) (us : List User) (u : User) → first_where (has_id id) us ≡ some u → u.id ≡ id
unfolding first_where
first_where-id id [] u e = cc
first_where-id id (w ∷ us) u e = elim (Bool-cases (w.id == id)) [
  | inl y ↦
      ap (λ (x : User). x.id) (sym (some-injective w u (rw (y, first_where) at e)))
      ∙ (nat_eq_iff w.id id).0 y
  | inr n ↦ first_where-id id us u (rw (n, first_where) at e)
]

module _ (crypto : Crypto) where
  not_kept : (x : String) (left : List String) → or_kept crypto x none ≡ some left → ⊥
  not_kept x left e = cc

  spend-count :
      (wanted h : String) (hs left : List String)
      → spend crypto wanted hs ≡ some left
      → one_if (wanted == h) + count_hash h left ≡ count_hash h hs
  unfolding spend
  spend-count wanted h [] left e = cc
  spend-count wanted h (x ∷ xs) left e = elim (Bool-cases (x == wanted)) [
    | inl y ↦
        let same = (str_iff x wanted).0 y in
        let rest = some-injective xs left (rw (y, spend) at e) in
        subst (λ l. one_if (wanted == h) + count_hash h l ≡ count_hash h (x ∷ xs)) rest
          (subst (λ (w : String). one_if (w == h) + count_hash h xs ≡ count_hash h (x ∷ xs)) same
            (ground arith))
    | inr n ↦
        let kept : or_kept crypto x (spend crypto wanted xs) ≡ some left = rw (n, spend) at e in
        elim (Option-cases (spend crypto wanted xs)) [
          | inl q ↦ absurd (not_kept x left (rw q at kept))
          | inr (rest, q) ↦
              subst (λ l. one_if (wanted == h) + count_hash h l ≡ count_hash h (x ∷ xs))
                (some-injective (x ∷ rest) left (rw q at kept))
                (ground (arith, spend-count wanted h xs rest q))
        ]
  ]

  -- A try to pass the second factor: what the caller has read and got.
  pub record Attempt : Type 0 where
    pub now : ℕ
    pub faults : Faults
    pub user : User
    pub code : String

  -- Whether only a recovery code can let the attempt pass.
  abbrev pub needs_code : Attempt → Bool
  needs_code a =
      a.user.totp_enabled && not (crypto.totp a.now (trim_space a.code) a.user.totp_secret)

  abbrev pub hash_of : Attempt → String
  hash_of a = recovery_hash crypto (trim_space a.code)

  abbrev pub verify : Attempt → List User → List User × Bool
  verify a us = verify_second_factor crypto a.now a.faults a.user a.code us

  -- Whether the attempt was let in by the recovery code of a user that has the hash.
  abbrev pub spends : ℕ → String → Attempt → List User → Bool
  spends id h a us = (verify a us).1 && (needs_code a && (a.user.id == id && hash_of a == h))

  -- What an attempt spends and what is left make up what there was.
  abbrev Accounted : ℕ → String → ℕ → String → List User → List User × Bool → Type 0
  Accounted id wanted j h us r =
      one_if (r.1 && (id == j && wanted == h)) + codes_left j h r.0 ≡ codes_left j h us

  written-Accounted :
      (wanted : String) (id j : ℕ) (h : String) (us : List User) (u : User) (hs left : List String)
      → first_where (has_id id) us ≡ some u
      → u.recovery_codes ≡ some hs
      → spend crypto wanted hs ≡ some left
      → Accounted id wanted j h us (map (change_if (has_id id) (set_codes left)) us, true)
  written-Accounted wanted id j h us u hs left found codes spent = elim (Bool-cases (id == j)) [
    | inl y ↦
        let same : id ≡ j = (nat_eq_iff id j).0 y in
        let before : codes_left id h us ≡ count_hash h hs =
          ap (count_row h) found ∙ ap (count_codes h) codes in
        let after = ap (count_row h) (first_where-here id left us u found) in
        subst
          (λ i. Accounted id wanted i h us (map (change_if (has_id id) (set_codes left)) us, true))
          same (ground (arith, before, after, spend-count wanted h hs left spent))
    | inr n ↦
        let kept = ap (count_row h) (first_where-other id j left us (ground (arith, n))) in
        rw n (ground (arith, kept))
  ]

  keep_left-Accounted :
      (faults : Faults) (wanted : String) (id j : ℕ) (h : String) (us : List User) (u : User)
      (hs : List String)
      → first_where (has_id id) us ≡ some u
      → u.recovery_codes ≡ some hs
      → Accounted id wanted j h us (keep_left crypto faults id us (spend crypto wanted hs))
  unfolding update_where
  keep_left-Accounted faults wanted id j h us u hs found codes =
      elim (Option-cases (spend crypto wanted hs)) [
        | inl q ↦ rw q (omega arith)
        | inr (left, q) ↦ rw q (elim (Bool-cases faults.write) [
          | inl y ↦ rw y (omega arith)
          | inr n ↦ rw n (written-Accounted wanted id j h us u hs left found codes q)
        ])
      ]

  redeem-Accounted :
      (faults : Faults) (wanted : String) (id j : ℕ) (h : String) (us : List User)
      → Accounted id wanted j h us (redeem crypto faults wanted id us)
  unfolding redeem
  redeem-Accounted faults wanted id j h us = elim (Bool-cases faults.read) [
    | inl y ↦ rw y (omega arith)
    | inr n ↦ rw n (elim (Option-cases (first_where (has_id id) us)) [
      | inl q ↦ rw q (omega arith)
      | inr (u, q) ↦ rw q (elim (Option-cases u.recovery_codes) [
        | inl c ↦ rw c (omega arith)
        | inr (hs, c) ↦
            rw c
              (rw (first_where-id id us u q) (keep_left-Accounted faults wanted id j h us u hs q c))
      ])
    ])
  ]

  verify-accounted :
      (a : Attempt) (j : ℕ) (h : String) (us : List User)
      → one_if (spends j h a us) + codes_left j h (verify a us).0 ≡ codes_left j h us
  unfolding verify_second_factor
  verify-accounted a j h us = elim (Bool-cases a.user.totp_enabled) [
    | inl y ↦ rw y (elim (Bool-cases (crypto.totp a.now (trim_space a.code) a.user.totp_secret)) [
      | inl t ↦ rw t (omega arith)
      | inr n ↦ rw n (redeem-Accounted a.faults (hash_of a) a.user.id j h us)
    ])
    | inr n ↦ rw n (omega arith)
  ]

  -- What a sequence of attempts does to the table, and how many of them the hash let in.
  unfoldable pub verify_all : List Attempt → List User → List User
  verify_all [] us = us
  verify_all (a ∷ later) us = verify_all later (verify a us).0

  unfoldable pub spent_all : ℕ → String → List Attempt → List User → ℕ
  spent_all j h [] us = 0
  spent_all j h (a ∷ later) us = one_if (spends j h a us) + spent_all j h later (verify a us).0

  -- Through every sequence of second-factor attempts, whoever the callers took for the user and
  -- whatever calls of the database failed, the attempts that a recovery code's hash let in for a user
  -- and the hashes that the user has left make up those that the user had: a code that was there once
  -- lets in once.
  pub verify_all-accounted :
      (attempts : List Attempt) (j : ℕ) (h : String) (us : List User)
      → spent_all j h attempts us + codes_left j h (verify_all attempts us) ≡ codes_left j h us
  unfolding verify_all spent_all
  verify_all-accounted [] j h us = omega arith
  verify_all-accounted (a ∷ later) j h us =
      omega (arith, verify-accounted a j h us, verify_all-accounted later j h (verify a us).0)
