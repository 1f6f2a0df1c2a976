-- ===== src/PendingAuth/Leads.antt =====
-- Whom a finished OIDC login of service/auth.go leads to.
use s_ui_next.Accounts.{User, first_where, has_name}
use s_ui_next.GoText.{Unicode}
use s_ui_next.JsonValue.{Object}
use s_ui_next.PendingAuth.{Waiting}
use s_ui_next.PendingAuth.Oidc.{
  OidcPending, OidcSettings, Provider, OidcConfig, IdToken, oidc_config, identity_of, is_allowed,
}
use s_ui_next.Prelude.{
  ℕ, ◌≡◌, ◌⊎◌, String, comparable_string, ◌==◌, true, false, List, Option, none, some, ltb, ok,
}

module _ (unicode : Unicode) (discover : String → Option Provider) where
  -- The user of an identity: the one of that name, or, only where no user has that name and the
  -- identity is allowed, the first one.
  abbrev pub IsUserOf : OidcSettings → List User → String → String → Type 0
  IsUserOf settings users identity name =
      (user : User) × (user.username ≡ name)
      × ((first_where (has_name identity) users ≡ some user)
          ⊎ ((first_where (has_name identity) users ≡ none)
              × (is_allowed unicode discover settings identity ≡ true)
              × (first_where (λ u. true) users ≡ some user)))

  -- What an accepted login rests on: a state that waited and was not over, and the token that the
  -- provider of the settings gave for the code with the state's verifier, and has verified for the
  -- client of the settings, with the state's nonce and the identity of the user.
  abbrev pub LeadsTo :
      ℕ → OidcSettings → String → List User → Option (Waiting OidcPending) → String → Type 0
  LeadsTo now settings code users taken name =
      (entry : Waiting OidcPending) × (taken ≡ some entry)
      × (ltb entry.expiry now ≡ false)
      × (provider : Provider) × (config : OidcConfig) × (oidc_config unicode discover settings
          ≡ ok (provider, config))
      × (raw : String) × (provider.exchange config code entry.content.verifier ≡ some (some raw))
      × (token : IdToken) × (provider.verify config.client_id raw ≡ some token)
      × ((token.nonce == entry.content.nonce) ≡ true)
      × (claims : Object) × (token.claims ≡ some claims)
      × IsUserOf settings users (identity_of unicode discover settings claims) name
