-- ===== src/OAuth/Login.antt =====
-- apps/mcp-server/src/oauth/server.ts, `login`: a password sign-in, with the lock of
-- apps/mcp-server/src/oauth/store.ts after five failures in a row.
use groceryclaw.Base.Assoc.{lookup, values, insert, lookup-insert_self}
use groceryclaw.Base.{
  refl, ℕ, ◌↔◌, String, Bool, true, false, not, ◌&&◌, Option, none, some, ◌≡◌, ◌≢◌, inl, inr,
  if◌then◌else◌, Option-cases, arith, ltb, str_eq, str_eq_iff, guard, ◌>>=◌, ◌>>◌, find,
}
use groceryclaw.OAuth.{Store, is_enabled, MemAccount}
use groceryclaw.OAuth.Accounts.{
  Hooks, WebAccount, AccountCredentials, find_credentials, record_login, get_account, view,
  login_result,
}

pub data LoginError : Type 0 where
  rate bad_login : LoginError

pub data LoginResult : Type 0 where
  signed_in : Option WebAccount → LoginResult
  refused : LoginError → LoginResult

-- `creds.lockedUntilMs !== null && creds.lockedUntilMs > now()`
abbrev pub is_locked : ℕ → Option ℕ → Bool
is_locked now none = false
is_locked now (some t) = ltb now t

-- The credentials to check the password against, if the account may sign in at all.
unfoldable pub open_credentials : Hooks → ℕ → String → Store → Option AccountCredentials
open_credentials h now email s = do
  guard (not (str_eq email ""))
  c ← find_credentials h email s
  guard (is_enabled c.status && not (is_locked now c.locked_until_ms))
  some c

-- `allowed` is the answer of the sign-in rate limiter, `email` the trimmed field of the form and
-- `verify` is `verifyPassword`. Without credentials the code burns the time of a check.
unfoldable pub login :
    (h : Hooks) (verify : String → String → Bool) (now : ℕ) (allowed : Bool)
    (email password : String)
    → Store
    → Store × LoginResult
unfolding open_credentials
login h verify now allowed email password s =
    if not allowed then (s, refused rate) else elim (open_credentials h now email s) [
      | none ↦ (s, refused bad_login)
      | some c ↦
          let good = verify password c.password_hash in
          let s' = record_login now c.account_id good s in
          (s', if good then signed_in (get_account c.account_id s') else refused bad_login)
    ]

-- The conditions of a sign-in that succeeds, and its outcome: the account with the address, whose failures
-- are forgotten.
pub record IsAdmitted (h : Hooks) (verify : String → String → Bool) (now : ℕ) (allowed : Bool)
    (email password : String) (s s' : Store) (w : Option WebAccount) : Type 0 where
  pub who : MemAccount
  pub limit : allowed ≡ true
  pub address : email ≢ ""
  pub known : find (λ x. str_eq x.email (h.lower email)) (values s.accounts) ≡ some who
  pub enabled : is_enabled who.status ≡ true
  pub unlocked : is_locked now who.locked_until_ms ≡ false
  pub proof : verify password who.password_hash ≡ true
  pub recorded : s' ≡ record s {
    accounts = insert who.account_id (record who { failed = 0; locked_until_ms = none }) s.accounts;
  }
  pub answer : w ≡ some (view who s)

-- The account that an address names stands under its own identifier.
abbrev pub IsFiled : Hooks → (email : String) → Store → Type 0
IsFiled h email s =
    (a : MemAccount)
    → find (λ x. str_eq x.email (h.lower email)) (values s.accounts) ≡ some a
    → lookup a.account_id s.accounts ≡ some a

abbrev credentials_of : MemAccount → AccountCredentials
credentials_of a = record {
  account_id = a.account_id;
  password_hash = a.password_hash;
  status = a.status;
  locked_until_ms = a.locked_until_ms;
}

-- A success forgets the failures, and the answer is the account.
module _ (now : ℕ) (s : Store) (a : MemAccount)
    (filed : lookup a.account_id s.accounts ≡ some a) where
  abbrev forgiven : Store
  forgiven = record s {
    accounts = insert a.account_id (record a { failed = 0; locked_until_ms = none }) s.accounts;
  }

  record_login-true : record_login now a.account_id true s ≡ forgiven
  unfolding record_login login_result
  record_login-true = rw (filed, record_login) refl

  get_account-forgiven : get_account a.account_id forgiven ≡ some (view a s)
  unfolding get_account view
  get_account-forgiven =
      rw
        (
          lookup-insert_self a.account_id (record a { failed = 0; locked_until_ms = none })
              s.accounts,
          get_account,
        )
        refl

-- A sign-in succeeds exactly when the limiter allows it, the address is not empty and names an
-- account that is active and not locked, and the password passes. The store is then the same but for that
-- account's failures and lock, which are forgotten, and the answer is that account. (The account stands under
-- its own identifier.)
pub login-eq-signed_in_iff :
    (h : Hooks) (verify : String → String → Bool) (now : ℕ) (allowed : Bool)
    (email password : String) (s s' : Store) (w : Option WebAccount)
    → IsFiled h email s
    → (login h verify now allowed email password s ≡ (s', signed_in w))
      ↔ IsAdmitted h verify now allowed email password s s' w
unfolding login open_credentials find_credentials
login-eq-signed_in_iff h verify now allowed email password s s' w filed = (forth, back)
  where
    forth :
        login h verify now allowed email password s ≡ (s', signed_in w)
        → IsAdmitted h verify now allowed email password s s' w
    forth e = elim (Option-cases (find (λ x. str_eq x.email (h.lower email)) (values s.accounts))) [
      | inl unknown ↦ absurd (ground (arith, unknown))
      | inr (a, known) ↦
          let recorded = record_login-true now s a (filed a known) in
          let answer = get_account-forgiven now s a (filed a known) in
          record {
            who = a;
            limit = ground (arith, known);
            address = ground (arith, known, str_eq_iff email "");
            known = known;
            enabled = ground (arith, known);
            unlocked = ground (arith, known);
            proof = ground (arith, known);
            recorded = ground (arith, known, recorded);
            answer = ground (arith, known, recorded, answer);
          }
    ]

    back :
        IsAdmitted h verify now allowed email password s s' w
        → login h verify now allowed email password s ≡ (s', signed_in w)
    back a = ground (
      arith,
      a.limit,
      a.known,
      a.enabled,
      a.unlocked,
      a.proof,
      a.recorded,
      a.answer,
      record_login-true now s a.who (filed a.who a.known),
      get_account-forgiven now s a.who (filed a.who a.known),
      str_eq_iff email "",
      a.address,
    )
