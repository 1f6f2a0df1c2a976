-- ===== src/PendingAuth/Oidc.antt =====
-- The OIDC login of service/auth.go. The provider and its libraries are an interface: discovery, the
-- exchange of a code and the check of an ID token may each fail.
use Prim.Native.Char.{Char, code}
use s_ui_next.Accounts.{User, first_where, has_name}
use s_ui_next.GoText.{Unicode, trim_space, to_lower}
use s_ui_next.JsonValue.{Value, Object, json_string, get, onto_first}
use s_ui_next.PendingAuth.{Pending, Waiting, minute, store_pending, take_pending}
use s_ui_next.Prelude.{
  ℕ, ◌+◌, ◌*◌, String, comparable_string, comparable_nat, ◌==◌, Bool, true, false, not, ◌||◌, List,
  [], ◌∷◌, map, any, keep, Option, none, some, ltb, if◌then◌else◌, Result, ok, err, ◌>>=◌,
}

pub record OidcPending : Type 0 where
  pub nonce : String
  pub verifier : String

-- The settings that are read, empty where reading fails.
pub record OidcSettings : Type 0 where
  pub enabled : Bool
  pub issuer : String
  pub client_id : String
  pub client_secret : String
  pub redirect_url : String
  pub scopes : String
  pub username_claim : String
  pub allowed_users : String

pub record OidcConfig : Type 0 where
  pub client_id : String
  pub client_secret : String
  pub redirect_url : String
  pub scopes : List String

pub record IdToken : Type 0 where
  pub nonce : String
  pub claims : Option Object

-- The provider of an issuer: `exchange` gives the ID token's text, none where there is none in the
-- answer, for a code and the verifier; `verify` checks it for a client.
pub record Provider : Type 0 where
  pub exchange : OidcConfig → String → String → Option (Option String)
  pub verify : String → String → Option IdToken

pub data OidcError : Type 0 where
  oidc_disabled oidc_settings_missing discovery_failed too_many_pending : OidcError
  invalid_state state_expired exchange_failed no_id_token token_refused : OidcError
  invalid_nonce claims_unreadable identity_empty identity_refused no_user : OidcError

abbrev is_separator : Char → Bool
is_separator c = code c == 44 || (code c == 10 || code c == 32)

unfoldable pub fields_of : String → List String
fields_of String.[] = "" ∷ []
fields_of (String.◌∷◌ c s) =
    let rest = fields_of s in if is_separator c then "" ∷ rest else onto_first c rest

unfoldable pub split_setting : String → List String
unfolding fields_of
split_setting value =
    keep (λ s. not (s == "")) (map trim_space (keep (λ s. not (s == "")) (fields_of value)))

unfoldable pub contains_string : List String → String → Bool
contains_string values wanted = any (λ v. v == wanted) values

abbrev or_default : List String → List String
or_default [] = "openid" ∷ "profile" ∷ "email" ∷ []
or_default (s ∷ ss) = s ∷ ss

unfoldable pub oidc_scopes : String → List String
unfolding split_setting contains_string
oidc_scopes setting =
    let scopes = or_default (split_setting setting) in
    if contains_string scopes "openid" then scopes else "openid" ∷ scopes

abbrev pub need {ℓ} : {A : Type ℓ} → OidcError → Option A → Result OidcError A
need e none = err e
need e (some a) = ok a

abbrev pub deny : Bool → OidcError → Result OidcError (Unit {0})
deny true e = err e
deny false e = ok tt

module _ (unicode : Unicode) (discover : String → Option Provider) where
  unfoldable pub oidc_config : OidcSettings → Result OidcError (Provider × OidcConfig)
  unfolding oidc_scopes
  oidc_config settings = do
    enabled ← deny (not settings.enabled) oidc_disabled
    given ←
        deny (settings.issuer == "" || (settings.client_id == "" || settings.redirect_url == ""))
          oidc_settings_missing
    provider ← need discovery_failed (discover settings.issuer)
    ok (
      provider,
      record {
        client_id = settings.client_id;
        client_secret = settings.client_secret;
        redirect_url = settings.redirect_url;
        scopes = oidc_scopes settings.scopes;
      },
    )

  abbrev started :
      String → Pending OidcPending × Bool → Pending OidcPending × Result OidcError String
  started state (t, stored) = (t, if stored then ok state else err too_many_pending)

  -- `BeginOIDC` up to the URL, with the three texts that it draws: the state that is stored.
  abbrev pub begin_with :
      ℕ
      → String
      → OidcPending
      → Pending OidcPending
      → Result OidcError (Provider × OidcConfig)
      → Pending OidcPending × Result OidcError String
  begin_with now state drawn t (err e) = (t, err e)
  begin_with now state drawn t (ok config) =
      started state
        (store_pending now state (record { content = drawn; expiry = now + 10 * minute }) t)

  unfoldable pub begin_oidc :
      ℕ
      → OidcSettings
      → String
      → OidcPending
      → Pending OidcPending
      → Pending OidcPending × Result OidcError String
  begin_oidc now settings state drawn t = begin_with now state drawn t (oidc_config settings)

  unfoldable pub to_string : Value → String
  to_string (json_string s) = s
  to_string _ = ""

  abbrev first_claim : String → String → String
  first_claim found next = if found == "" then trim_space next else found

  -- The identity of the claims: that of the setting, the address or the subject.
  unfoldable pub identity_of : OidcSettings → Object → String
  unfolding to_string
  identity_of settings claims =
      let name =
        if settings.username_claim == "" then "preferred_username" else settings.username_claim in
      first_claim
        (first_claim (trim_space (to_string (get name claims))) (to_string (get "email" claims)))
        (to_string (get "sub" claims))

  unfoldable pub is_allowed : OidcSettings → String → Bool
  unfolding split_setting contains_string
  is_allowed settings identity =
      contains_string (split_setting (to_lower unicode settings.allowed_users))
        (to_lower unicode identity)

  abbrev pub name_of : Option User → Result OidcError String
  name_of none = err no_user
  name_of (some user) = ok user.username

  -- The user of an identity: the one of that name, or the first user where the identity is allowed.
  abbrev pub user_or_first :
      OidcSettings → String → List User → Option User → Result OidcError String
  user_or_first settings identity users (some user) = ok user.username
  user_or_first settings identity users none =
      if is_allowed settings identity
      then name_of (first_where (λ u. true) users)
      else err identity_refused

  unfoldable pub user_of_identity : OidcSettings → String → List User → Result OidcError String
  unfolding is_allowed
  user_of_identity settings identity users =
      user_or_first settings identity users (first_where (has_name identity) users)

  -- `FinishOIDC` once the state was taken.
  unfoldable pub finish_taken :
      ℕ → OidcSettings → String → List User → Option (Waiting OidcPending) → Result OidcError String
  finish_taken now settings code users taken = do
    pending ← need invalid_state taken
    fresh ← deny (ltb pending.expiry now) state_expired
    (provider, config) ← oidc_config settings
    answer ← need exchange_failed (provider.exchange config code pending.content.verifier)
    raw ← need no_id_token answer
    token ← need token_refused (provider.verify config.client_id raw)
    same ← deny (not (token.nonce == pending.content.nonce)) invalid_nonce
    claims ← need claims_unreadable token.claims
    let identity = identity_of settings claims
    given ← deny (identity == "") identity_empty
    user_of_identity settings identity users

  unfoldable pub finish_oidc :
      ℕ
      → OidcSettings
      → String
      → String
      → List User
      → Pending OidcPending
      → Pending OidcPending × Result OidcError String
  finish_oidc now settings state code users t =
      let taken = take_pending state t in (taken.0, finish_taken now settings code users taken.1)
