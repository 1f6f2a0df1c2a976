-- ===== src/PendingAuth/Tests.antt =====
-- An OIDC login and a passkey login, and the theorems at them.
use s_ui_next.Accounts.{User, first_where}
use s_ui_next.GoMap.{lookup, insert, delete, has_key}
use s_ui_next.GoText.{Unicode, trim_left, trim_right, map_chars}
use s_ui_next.JsonValue.{json_string, get}
use s_ui_next.PasskeyNames.{unknown_attachment}
use s_ui_next.PendingAuth.{Pending, clean_pending, store_pending, take_pending, take_session}
use s_ui_next.PendingAuth.Leads as Leads
use s_ui_next.PendingAuth.Oidc.{
  OidcPending, OidcSettings, Provider, identity_refused, invalid_state, fields_of, split_setting,
  contains_string, oidc_scopes, oidc_config, begin_oidc, to_string, identity_of, is_allowed,
  user_of_identity, finish_taken, finish_oidc,
}
use s_ui_next.PendingAuth.Once.{
  Call, begin, finish, IsBounded, after_call, after_calls, after_calls-IsBounded, finish_oidc-once,
}
use s_ui_next.PendingAuth.PasskeyLaws as PasskeyLaws
use s_ui_next.PendingAuth.PasskeyLaws.{finish_passkey_login-LeadsTo}
use s_ui_next.PendingAuth.Passkeys.{
  Passkey, Ceremony, Registered, Relying, load_web_user, use_credential, logged_in,
  finish_passkey_login,
}
use s_ui_next.Prelude.{
  ◌≡◌, refl, arith, String, comparable_string, List, [], ◌∷◌, Option, none, some, true, false, ok,
  err,
}

program : Unit {0}
unfolding first_where lookup insert delete has_key trim_left trim_right map_chars get clean_pending
    store_pending take_pending take_session fields_of split_setting contains_string oidc_scopes
    oidc_config begin_oidc to_string identity_of is_allowed user_of_identity finish_taken
    finish_oidc after_call after_calls load_web_user use_credential logged_in finish_passkey_login
program = tt

abbrev unicode : Unicode
unicode = record { lower = λ c. c; upper = λ c. c; fold = λ c. c }

abbrev provider : Provider
provider = record {
  exchange = λ config code verifier. some (some code);
  verify = λ client raw.
      some (record { nonce = "n"; claims = some (("preferred_username", json_string raw) ∷ []) });
}

abbrev discover : String → Option Provider
discover issuer = some provider

abbrev settings : OidcSettings
settings = record {
  enabled = true;
  issuer = "https://id.example";
  client_id = "panel";
  client_secret = "";
  redirect_url = "https://panel.example";
  scopes = "profile";
  username_claim = "";
  allowed_users = "bob, eve";
}

abbrev admin : User
admin = record {
  id = 7;
  username = "admin";
  password = "";
  totp_secret = "";
  totp_enabled = false;
  recovery_codes = none;
  last_logins = "";
}

abbrev nothing_waits : Pending OidcPending
nothing_waits = record { entries = []; last_cleanup = 0 }

abbrev waiting : Pending OidcPending
waiting =
    (begin_oidc unicode discover 5 settings "s" (record { nonce = "n"; verifier = "v" })
      nothing_waits).0

scopes : oidc_scopes "profile,  email" ≡ "openid" ∷ "profile" ∷ "email" ∷ []
unfolding program
scopes = refl

allowed : (finish_oidc unicode discover 6 settings "s" "bob" (admin ∷ []) waiting).1 ≡ ok "admin"
unfolding program
allowed = refl

refused :
    (finish_oidc unicode discover 6 settings "s" "mallory" (admin ∷ []) waiting).1
    ≡ err identity_refused
unfolding program
refused = refl

abbrev calls : List (Call unicode discover)
calls =
    begin 8 settings "t" (record { nonce = "m"; verifier = "v" })
    ∷ finish 9 settings "t" "bob" (admin ∷ [])
    ∷ []

finish_oidc-once_example :
    (finish_oidc unicode discover 10 settings "s" "bob" (admin ∷ []) (
      after_calls unicode discover calls
        (finish_oidc unicode discover 6 settings "s" "mallory" (admin ∷ []) waiting).0)).1
    ≡ err invalid_state
finish_oidc-once_example =
    finish_oidc-once unicode discover 6 10 settings settings "s" "mallory" "bob" (admin ∷ [])
      (admin ∷ []) calls waiting (refl, (refl, tt))

after_calls-IsBounded_example : IsBounded (after_calls unicode discover calls nothing_waits)
after_calls-IsBounded_example =
    after_calls-IsBounded unicode discover calls nothing_waits (omega arith)

abbrev used : Registered
used = record {
  id = "key";
  encoded = "key";
  credential = record { aaguid = []; attachment = unknown_attachment; transports = [] };
}

abbrev relying : Option Relying
relying = some (record {
  begin_registration = λ name credentials. none;
  finish_registration = λ name credentials session. none;
  begin_login = λ name credentials. some ("challenge", "session");
  finish_login = λ name credentials session. some used;
})

abbrev passkey : Passkey
passkey = record {
  id = 1;
  user_id = 7;
  name = "Key";
  credential = "key";
  created_at = 0;
  last_used_at = 0;
}

abbrev ceremonies : Pending Ceremony
ceremonies = record {
  entries =
      ("id", record { content = record { username = "admin"; session = "session" }; expiry = 20 })
      ∷ [];
  last_cleanup = 5;
}

finish_passkey_login-LeadsTo_example :
    PasskeyLaws.LeadsTo unicode
      (λ c. some c)
      relying
      9
      (admin ∷ [])
      (passkey ∷ [])
      (lookup "id" ceremonies.entries)
      (record passkey { last_used_at = 77 } ∷ [])
      "admin"
unfolding program
finish_passkey_login-LeadsTo_example =
    finish_passkey_login-LeadsTo unicode (λ c. some c) relying 9 77 "id" (admin ∷ []) (passkey ∷ [])
      (record passkey { last_used_at = 77 } ∷ []) ceremonies "admin" refl
