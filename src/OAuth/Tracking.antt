-- ===== src/OAuth/Tracking.antt =====
-- Every call on the authorization store (apps/mcp-server/src/oauth/store.ts) changes the tokens in
-- one of the ways of OAuth.History.
use groceryclaw.Base.{
  str_eq, ◌<◌, ℕ, String, Bool, true, not, ◌||◌, some, ◌≡◌, inl, inr, Option-cases, Bool-cases,
  arith, leb,
}
use groceryclaw.Base.Assoc.{lookup}
use groceryclaw.OAuth.{MemToken, Store, MemAccount, is_enabled, OAuthClient, is_active, is_access}
use groceryclaw.OAuth.Accounts.{
  Hooks, AccountInput, create_account, record_login, link_invite, delete_account, invite_hit,
  finish_account,
}
use groceryclaw.OAuth.Clients.{register_client, cleanup}
use groceryclaw.OAuth.Codes.{create_code, consume_code}
use groceryclaw.OAuth.Tokens.{
  NewTokens, issue_tokens, resolve_access_token, rotate_refresh_token, revoke_token, revoke_grant,
  grant_from, usable_token, rotate_found, has_live_account, mark_rotated,
}
use groceryclaw.OAuth.History.{
  Op, registers, cleans, creates_account, logs_in, links, deletes_account, creates_code,
  consumes_code, issues, resolves, rotates, revokes_token, revokes_grant, exec, Evolves, start,
  altered, pruned, updated, revoke_if-Aged, Allowed, issue_tokens-Evolves, touch_client-Evolves,
  revoke_family-Evolves,
}

-- What a usable access token is; the store's own test, inverted.
pub record IsUsable (now : ℕ) (hash : String) (s : Store) (t : MemToken) (a : MemAccount)
    : Type 0 where
  pub found : lookup hash s.tokens ≡ some t
  pub owner : lookup t.account_id s.accounts ≡ some a
  pub kind : is_access t.kind ≡ true
  pub live : is_active t.status ≡ true
  pub unexpired : now < t.expires_ms
  pub enabled : is_enabled a.status ≡ true

pub usable_token-IsUsable :
    (now : ℕ) (hash : String) (s : Store) (t : MemToken) (a : MemAccount)
    → usable_token now hash s ≡ some (t, a)
    → IsUsable now hash s t a
unfolding usable_token
usable_token-IsUsable now hash s t a e = elim (Option-cases (lookup hash s.tokens)) [
  | inl missing ↦ ground (arith, missing)
  | inr (t', found) ↦ elim (Option-cases (lookup t'.account_id s.accounts)) [
    | inl missing ↦ ground (arith, found, missing)
    | inr (a', owner) ↦ ground (arith, found, owner)
  ]
]

pub IsUsable-usable_token :
    (now : ℕ) (hash : String) (s : Store) (t : MemToken) (a : MemAccount)
    → IsUsable now hash s t a
    → usable_token now hash s ≡ some (t, a)
unfolding usable_token
IsUsable-usable_token now hash s t a u = ground (arith, u.found, u.owner)

module _ (Ok : String → MemToken → Type 0) (h : Hooks) where
  register-tokens :
      (now : ℕ) (c : OAuthClient) (s : Store) → (exec h (registers now c) s).tokens ≡ s.tokens
  unfolding exec register_client
  register-tokens now c s = ground arith

  create-tokens :
      (a t : String) (i : AccountInput) (s : Store)
      → (exec h (creates_account a t i) s).tokens ≡ s.tokens
  unfolding exec create_account finish_account
  create-tokens a t i s = ground arith

  login-tokens :
      (now : ℕ) (a : String) (b : Bool) (s : Store) → (exec h (logs_in now a b) s).tokens ≡ s.tokens
  unfolding exec record_login
  login-tokens now a b s = ground arith

  rotate_found-Evolves :
      (now : ℕ) (hash client_id : String) (n : NewTokens) (t : MemToken) (s : Store)
      → lookup hash s.tokens ≡ some t
      → Allowed Ok (rotates now hash client_id n) s
      → Evolves Ok s.tokens (rotate_found now hash client_id n t s).0.tokens
  unfolding rotate_found
  rotate_found-Evolves now hash client_id n t s found ok = elim (Bool-cases (is_active t.status)) [
    | inl live ↦ elim (Bool-cases (leb t.expires_ms now || not (has_live_account t s))) [
      | inl late ↦ rw (live, late) start
      | inr good ↦
          rw (live, good)
            (touch_client-Evolves Ok now client_id
              (issue_tokens now t.family_id (grant_from t) n (mark_rotated hash t s))
              (issue_tokens-Evolves Ok now t.family_id (grant_from t) n (mark_rotated hash t s)
                (ok t found live) (updated hash t _ found (ground arith) start)))
    ]
    | inr dead ↦ rw dead (revoke_family-Evolves Ok t.family_id s)
  ]

  rotate-Evolves :
      (now : ℕ) (hash client_id : String) (n : NewTokens) (s : Store)
      → Allowed Ok (rotates now hash client_id n) s
      → Evolves Ok s.tokens (rotate_refresh_token now hash client_id n s).0.tokens
  unfolding rotate_refresh_token
  rotate-Evolves now hash client_id n s ok = elim (Option-cases (lookup hash s.tokens)) [
    | inl e ↦ rw (e, rotate_refresh_token) start
    | inr (t, e) ↦ elim (Bool-cases (is_access t.kind || not (str_eq t.client_id client_id))) [
      | inl bad ↦ rw (e, rotate_refresh_token, bad) start
      | inr good ↦
          rw (e, rotate_refresh_token, good) (rotate_found-Evolves now hash client_id n t s e ok)
    ]
  ]

  consume-Evolves :
      (now : ℕ) (hash : String) (s : Store) → Evolves Ok s.tokens (consume_code now hash s).0.tokens
  unfolding consume_code
  consume-Evolves now hash s = elim (Option-cases (lookup hash s.codes)) [
    | inl e ↦ rw (e, consume_code) start
    | inr (c, e) ↦ elim (Option-cases c.used_ms) [
      | inl fresh ↦ rw (e, consume_code, fresh) start
      | inr (_, used) ↦ rw (e, consume_code, used) (revoke_family-Evolves Ok c.family_id s)
    ]
  ]

  resolve-Evolves :
      (now : ℕ) (hash : String) (s : Store)
      → Evolves Ok s.tokens (resolve_access_token now hash s).0.tokens
  unfolding resolve_access_token
  resolve-Evolves now hash s = elim (Option-cases (usable_token now hash s)) [
    | inl e ↦ rw (e, resolve_access_token) start
    | inr ((t, a), e) ↦
        rw (e, resolve_access_token)
          (updated hash t _ (usable_token-IsUsable now hash s t a e).found (ground arith) start)
  ]

  revoke-Evolves :
      (hash client_id : String) (s : Store)
      → Evolves Ok s.tokens (revoke_token hash client_id s).0.tokens
  unfolding revoke_token
  revoke-Evolves hash client_id s = elim (Option-cases (lookup hash s.tokens)) [
    | inl e ↦ rw (e, revoke_token) start
    | inr (t, e) ↦ elim (Bool-cases (str_eq t.client_id client_id)) [
      | inl own ↦ rw (e, revoke_token, own) (revoke_family-Evolves Ok t.family_id s)
      | inr other ↦ rw (e, revoke_token, other) start
    ]
  ]

  link-Evolves :
      (a code : String) (s : Store) → Evolves Ok s.tokens (link_invite h a code s).0.tokens
  unfolding link_invite
  link-Evolves a code s = elim (Option-cases (invite_hit h a code s)) [
    | inl e ↦ rw (e, link_invite) start
    | inr ((_, shop), e) ↦ rw (e, link_invite) (altered _ (revoke_if-Aged _) start)
  ]

  delete-Evolves : (a : String) (s : Store) → Evolves Ok s.tokens (delete_account a s).0.tokens
  unfolding delete_account
  delete-Evolves a s = elim (Option-cases (lookup a s.accounts)) [
    | inl e ↦ rw (e, delete_account) start
    | inr (_, e) ↦ rw (e, delete_account) (pruned _ start)
  ]

  -- Whatever the call, the tokens change only in these ways.
  pub exec-Evolves :
      (op : Op) (s : Store) → Allowed Ok op s → Evolves Ok s.tokens (exec h op s).tokens
  unfolding exec
  exec-Evolves (registers now c) s ok = rw (register-tokens now c s) start
  exec-Evolves (cleans now days) s ok = unfold cleanup in (pruned _ start)
  exec-Evolves (creates_account a t i) s ok = rw (create-tokens a t i s) start
  exec-Evolves (logs_in now a b) s ok = rw (login-tokens now a b s) start
  exec-Evolves (links a code) s ok = link-Evolves a code s
  exec-Evolves (deletes_account a) s ok = delete-Evolves a s
  exec-Evolves (creates_code now family hash c ttl) s ok =
      unfold create_code in (touch_client-Evolves Ok now c.client_id _ start)
  exec-Evolves (consumes_code now hash) s ok = consume-Evolves now hash s
  exec-Evolves (issues now family g n) s ok = issue_tokens-Evolves Ok now family g n s ok start
  exec-Evolves (resolves now hash) s ok = resolve-Evolves now hash s
  exec-Evolves (rotates now hash client_id n) s ok = rotate-Evolves now hash client_id n s ok
  exec-Evolves (revokes_token hash client_id) s ok = revoke-Evolves hash client_id s
  exec-Evolves (revokes_grant a client_id) s ok =
      unfold revoke_grant in (altered _ (revoke_if-Aged _) start)
