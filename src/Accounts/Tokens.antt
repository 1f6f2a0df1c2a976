-- ===== src/Accounts/Tokens.antt =====
-- The API tokens of service/user.go. A row keeps the id of its user; the time is in seconds.
use s_ui_next.Accounts.{User, first_where, has_name, has_id}
use s_ui_next.GoText.{trim_space}
use s_ui_next.Prelude.Int.{ℤ, pos, negsuc}
use s_ui_next.Prelude.{
  ℕ, suc, ◌+◌, ◌*◌, String, comparable_string, comparable_nat, ◌==◌, Bool, true, false, not, ◌&&◌,
  ◌||◌, List, [], ◌∷◌, ◌++◌, map, keep, Option, none, some, ltb, nat_eq, if◌then◌else◌, Result, ok,
  err, ◌>>=◌, ◌≡◌, refl, ap, arith, Bool-cases, inl, inr,
}

pub record Token : Type 0 where
  pub id : ℕ
  pub description : String
  pub token : String
  pub expiry : ℕ
  pub user_id : ℕ

pub data TokenError : Type 0 where
  empty_username bad_expiry long_description no_user : TokenError

abbrev pub max_token_expiry_days : ℕ
max_token_expiry_days = 3650

abbrev pub max_token_description_runes : ℕ
max_token_description_runes = 128

-- `len([]rune(s))`
unfoldable pub rune_count : String → ℕ
rune_count String.[] = 0
rune_count (String.◌∷◌ c s) = suc (rune_count s)

abbrev pub deny : Bool → TokenError → Result TokenError (Unit {0})
deny true e = err e
deny false e = ok tt

-- The days of an expiry, where it is in range.
abbrev pub days_of : ℤ → Result TokenError ℕ
days_of (pos n) = if ltb max_token_expiry_days n then err bad_expiry else ok n
days_of (negsuc n) = err bad_expiry

unfoldable pub validate_token_options : ℤ → String → Result TokenError ℕ
unfolding rune_count
validate_token_options expiry_days description = do
  days ← days_of expiry_days
  short ←
      deny (ltb max_token_description_runes (rune_count (trim_space description))) long_description
  ok days

abbrev pub need_user : Option User → Result TokenError User
need_user none = err no_user
need_user (some user) = ok user

abbrev pub expiry_at : ℕ → ℕ → ℕ
expiry_at now days = if ltb 0 days then days * 86400 + now else 0

-- `AddToken` with the id and the text of the new row.
unfoldable pub add_token :
    ℕ
    → ℕ
    → String
    → String
    → ℤ
    → String
    → List User
    → List Token
    → Result TokenError (List Token × String)
unfolding validate_token_options
add_token now id drawn username expiry_days description users tokens = do
  let name = trim_space username
  given ← deny (name == "") empty_username
  days ← validate_token_options expiry_days (trim_space description)
  user ← need_user (first_where (has_name name) users)
  ok (
    tokens
        ++ record {
          id = id;
          description = trim_space description;
          token = drawn;
          expiry = expiry_at now days;
          user_id = user.id;
        }
          ∷ [],
    drawn,
  )

abbrev pub is_valid_at : ℕ → Token → Bool
is_valid_at now t = nat_eq t.expiry 0 || ltb now t.expiry

-- `LoadTokens`: the tokens that have not expired, with the user of each where it is there.
unfoldable pub load_tokens : ℕ → List User → List Token → List (Token × Option User)
load_tokens now users tokens =
    map (λ t. (t, first_where (has_id t.user_id) users)) (keep (is_valid_at now) tokens)

abbrev pub owned : Option User → Token → Bool
owned none t = false
owned (some user) t = t.user_id == user.id

unfoldable pub get_user_tokens : String → List User → List Token → List Token
get_user_tokens username users tokens =
    map {A = Token} (λ t. record t { token = "****" })
      (keep (owned (first_where (has_name username) users)) tokens)

unfoldable pub delete_token : ℕ → List Token → List Token
delete_token id tokens = keep (λ t. not (t.id == id)) tokens

unfoldable pub delete_user_token : String → ℕ → List User → List Token → List Token
delete_user_token username id users tokens =
    keep (λ t. not (t.id == id && owned (first_where (has_name username) users) t)) tokens

unfoldable pub delete_token_value : String → String → List User → List Token → List Token
delete_token_value username token users tokens =
    keep (λ t. not (t.token == token && owned (first_where (has_name username) users) t)) tokens

keep-keep_implied :
    (p q : Token → Bool) (xs : List Token)
    → ((t : Token) → p t ≡ true → q t ≡ true)
    → keep p (keep q xs) ≡ keep p xs
keep-keep_implied p q [] h = refl
keep-keep_implied p q (x ∷ xs) h = elim (Bool-cases (q x)) [
  | inl y ↦ rw y (ap (λ rest. if p x then x ∷ rest else rest) (keep-keep_implied p q xs h))
  | inr n ↦
      let out : p x ≡ false = elim (Bool-cases (p x)) [
        | inl y ↦ absurd (ground (arith, h x y, n))
        | inr m ↦ m
      ] in
      rw n (rw out (keep-keep_implied p q xs h))
]

-- An administrator who deletes a token, by its number or by its text, leaves the tokens that are not
-- the administrator's as they are.
pub delete_user_token-others :
    (username token : String) (id : ℕ) (users : List User) (tokens : List Token)
    → (keep
          (λ t. not (owned (first_where (has_name username) users) t))
          (delete_user_token username id users tokens)
        ≡ keep (λ t. not (owned (first_where (has_name username) users) t)) tokens)
      × (keep
            (λ t. not (owned (first_where (has_name username) users) t))
            (delete_token_value username token users tokens)
          ≡ keep (λ t. not (owned (first_where (has_name username) users) t)) tokens)
unfolding delete_user_token delete_token_value
delete_user_token-others username token id users tokens =
    let user = first_where (has_name username) users in
    (
      keep-keep_implied (λ t. not (owned user t)) (λ t. not (t.id == id && owned user t)) tokens
          (λ t h. implied (t.id == id) (owned user t) h),
      keep-keep_implied (λ t. not (owned user t)) (λ t. not (t.token == token && owned user t))
          tokens (λ t h. implied (t.token == token) (owned user t) h),
    )
  where
    implied : (b c : Bool) → not c ≡ true → not (b && c) ≡ true
    implied true c h = h
    implied false c h = refl
