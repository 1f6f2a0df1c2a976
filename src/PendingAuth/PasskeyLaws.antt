-- ===== src/PendingAuth/PasskeyLaws.antt =====
-- Whom a finished passkey login of service/auth.go leads to, and what it writes.
use mathlib.Core.Option.{some-injective}
use mathlib.Core.Path.{subst}
use s_ui_next.Accounts.{User, first_where, has_name}
use s_ui_next.GoMap.{lookup}
use s_ui_next.GoText.{Unicode}
use s_ui_next.PendingAuth.{Pending, Waiting, take_pending, take_session, within}
use s_ui_next.PendingAuth.Passkeys.{
  Passkey, Ceremony, Registered, Relying, PasskeyError, no_user, ceremony_failed, ceremony_expired,
  credential_not_found, not_configured, need, owned_by, decodes, load_web_user, has_credential,
  onto_rows, use_credential, logged_in, finish_passkey_login,
}
use s_ui_next.Prelude.{
  ok-inj, ℕ, ◌≡◌, ◌∙◌, refl, sym, ap, String, comparable_string, comparable_nat, Bool, true, false,
  not, ◌&&◌, List, [], ◌∷◌, map, keep, any, Option, none, some, ltb, Bool-cases, Option-cases, inl,
  inr, if◌then◌else◌, ok, bind-elim,
}

need-some {ℓ} :
    {A : Type ℓ} (e : PasskeyError) (o : Option A) {a : A} → need e o ≡ ok a → o ≡ some a
need-some e none h = cc
need-some e (some b) h = cc

nothing {ℓ} : {A : Type ℓ} (content : A) → ◌≡◌ {A = Option A} none (some content) → ⊥
nothing content h = cc

-- A session that is taken in time.
abbrev pub WaitsFor {ℓ} : {A : Type ℓ} → ℕ → Option (Waiting A) → A → Type ℓ
WaitsFor {A} now taken content =
    (entry : Waiting A) × (taken ≡ some entry)
    × (ltb entry.expiry now ≡ false)
    × (entry.content ≡ content)

within-WaitsFor {ℓ} :
    {A : Type ℓ} (now : ℕ) (taken : Option (Waiting A)) (content : A)
    → within now taken ≡ some content
    → WaitsFor now taken content
within-WaitsFor now none content e = cc
within-WaitsFor now (some entry) content e = elim (Bool-cases (ltb entry.expiry now)) [
  | inl y ↦ absurd (nothing content (rw y at e))
  | inr n ↦ (entry, refl, n, some-injective entry.content content (rw n at e))
]

and_left : (b c : Bool) → b && c ≡ true → b ≡ true
and_left true c h = refl
and_left false c h = cc

module _ (unicode : Unicode) (decode : String → Option String) (rp : Option Relying) where
  abbrev pub others : ℕ → List Passkey → List Passkey
  others user_id rows = keep (λ row. not (owned_by user_id row)) rows

  -- The row that was used is one of the user with that credential; the rows of the others stay.
  abbrev pub IsUsed : ℕ → Registered → List Passkey → List Passkey → Type 0
  IsUsed user_id used rows after =
      (any (has_credential unicode decode rp user_id used.id) rows ≡ true)
      × (others user_id after ≡ others user_id rows)

  use_credential-IsUsed :
      (unix user_id : ℕ) (used : Registered) (rows after : List Passkey)
      → use_credential unicode decode rp unix user_id used rows ≡ some after
      → IsUsed user_id used rows after
  unfolding use_credential
  use_credential-IsUsed unix user_id used [] after e = cc
  use_credential-IsUsed unix user_id used (row ∷ rows) after e =
      elim (Bool-cases (has_credential unicode decode rp user_id used.id row)) [
        | inl y ↦
            let own : owned_by user_id row ≡ true = and_left (owned_by user_id row) _ y in
            let written = record row { credential = used.encoded; last_used_at = unix } ∷ rows in
            subst (IsUsed user_id used (row ∷ rows))
              (some-injective written after (rw (y, use_credential) at e)) (rw y refl, rw own refl)
        | inr n ↦
            let kept : onto_rows unicode decode rp row
                  (use_credential unicode decode rp unix user_id used rows)
                ≡ some after =
              rw (n, use_credential) at e in
            elim (Option-cases (use_credential unicode decode rp unix user_id used rows)) [
              | inl q ↦ absurd (nothing after (rw q at kept))
              | inr (later, q) ↦
                  let (found, same) = use_credential-IsUsed unix user_id used rows later q in
                  subst (IsUsed user_id used (row ∷ rows))
                    (some-injective (row ∷ later) after (rw q at kept))
                    (
                      rw n found,
                      ap (λ rest. if not (owned_by user_id row) then row ∷ rest else rest) same,
                    )
            ]
      ]

  -- The stored credentials of a user that can be read.
  abbrev pub credentials_of : ℕ → List Passkey → List String
  credentials_of user_id [] = []
  credentials_of user_id (row ∷ rows) =
      let rest = credentials_of user_id rows in
      if owned_by user_id row && decodes unicode decode rp row then row.credential ∷ rest else rest

  credentials_of_lem :
      (user_id : ℕ) (rows : List Passkey)
      → map
          (λ row. row.credential)
          (keep (λ row. owned_by user_id row && decodes unicode decode rp row) rows)
        ≡ credentials_of user_id rows
  credentials_of_lem user_id [] = refl
  credentials_of_lem user_id (row ∷ rows) =
      let test = owned_by user_id row && decodes unicode decode rp row in
      elim (Bool-cases test) [
        | inl y ↦ rw y (ap (◌∷◌ row.credential) (credentials_of_lem user_id rows))
        | inr n ↦ rw n (credentials_of_lem user_id rows)
      ]

  load_web_user-user :
      (username : String) (users : List User) (rows : List Passkey) (r : User × List String)
      → load_web_user unicode decode rp username users rows ≡ ok r
      → (first_where (has_name username) users ≡ some (r.0)) × (r.1 ≡ credentials_of (r.0).id rows)
  unfolding load_web_user
  load_web_user-user username users rows r e =
      bind-elim (need no_user (first_where (has_name username) users)) _ e (λ user q e1. (
        need-some no_user (first_where (has_name username) users) q
            ∙ ap (λ (x : User × List String). some (x.0)) (ok-inj e1),
        ap (λ (x : User × List String). x.1) (sym (ok-inj e1))
            ∙ (credentials_of_lem user.id rows
                ∙ ap (λ (x : User × List String). credentials_of (x.0).id rows) (ok-inj e1)),
      ))

  abbrev pub LeadsTo :
      ℕ → List User → List Passkey → Option (Waiting Ceremony) → List Passkey → String → Type 0
  LeadsTo now users rows taken after name =
      (session : Ceremony) × WaitsFor now taken session
      × (session.username ≡ name)
      × (user : User) × (first_where (has_name name) users ≡ some user)
      × (w : Relying) × (rp ≡ some w)
      × (used : Registered) × (w.finish_login user.username (credentials_of user.id rows)
            session.session
          ≡ some used)
      × IsUsed user.id used rows after

  -- A passkey login that is accepted rests on a ceremony that waited and was not over, and leads to
  -- the user of its name: the check of WebAuthn has accepted, for that user, the user's own stored
  -- credentials and the ceremony's session, a credential that a passkey of the user holds. The
  -- passkeys of all others stay as they were.
  pub finish_passkey_login-LeadsTo :
      (now unix : ℕ) (session : String) (users : List User) (rows after : List Passkey)
      (t : Pending Ceremony) (name : String)
      → (finish_passkey_login unicode decode rp now unix session users rows t).1 ≡ ok (after, name)
      → LeadsTo now users rows (lookup session t.entries) after name
  unfolding finish_passkey_login logged_in take_session take_pending
  finish_passkey_login-LeadsTo now unix session users rows after t name e =
      let taken = lookup session t.entries in
      bind-elim (need ceremony_expired (within now taken)) _ e (λ pending q e1.
        bind-elim (need not_configured rp) _ e1 (λ w q1 e2.
          bind-elim (load_web_user unicode decode rp pending.username users rows) _ e2
            (λ found q2 e3.
              bind-elim
                (need ceremony_failed (w.finish_login (found.0).username (found.1) pending.session))
                _ e3
                (λ used q3 e4.
                  bind-elim
                    (need credential_not_found
                      (use_credential unicode decode rp unix (found.0).id used rows))
                    _ e4
                    (λ written q4 e5.
                      let same_name : pending.username ≡ name =
                        ap (λ (r : List Passkey × String). r.1) (ok-inj e5) in
                      let same_rows : written ≡ after =
                        ap (λ (r : List Passkey × String). r.0) (ok-inj e5) in
                      (
                        pending,
                        within-WaitsFor now taken pending
                            (need-some ceremony_expired (within now taken) q),
                        same_name,
                        found.0,
                        ap (λ (n : String). first_where (has_name n) users) (sym same_name)
                            ∙ (load_web_user-user pending.username users rows found q2).0,
                        w,
                        need-some not_configured rp q1,
                        used,
                        ap
                              (λ (cs : List String).
                                w.finish_login (found.0).username cs pending.session)
                              (sym (load_web_user-user pending.username users rows found q2).1)
                            ∙ need-some ceremony_failed
                                (w.finish_login (found.0).username (found.1) pending.session) q3,
                        use_credential-IsUsed unix (found.0).id used rows after (
                            need-some credential_not_found
                              (use_credential unicode decode rp unix (found.0).id used rows) q4
                            ∙ ap some same_rows),
                      ))))))
