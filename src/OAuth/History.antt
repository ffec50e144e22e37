-- ===== src/OAuth/History.antt =====
-- Histories of calls on the in-memory authorization store (apps/mcp-server/src/oauth/store.ts), and
-- what a call can do to the tokens. Each call reads the clock once, as its time argument.
use groceryclaw.Base.{
  ℕ, String, Bool, true, false, List, [], ◌∷◌, Option, none, some, ◌≡◌, refl, inl, inr,
  Option-cases, arith, Bool-cases, str_eq,
}
use groceryclaw.Base.Assoc.{
  Assoc, lookup, insert, update_all, keep_entries, IsUnique, Each, Each-insert, Each-keep,
  Each-update_all, Each-lookup, insert-IsUnique, update_all-IsUnique, keep-IsUnique,
}
use groceryclaw.OAuth.{
  OAuthClient, MemToken, access, refresh, TokenStatus, Store, NewCode, is_active, revoke_if,
}
use groceryclaw.OAuth.Accounts.{
  Hooks, AccountInput, created, failed, create_account, record_login, link_invite, delete_account,
}
use groceryclaw.OAuth.Clients.{register_client, cleanup}
use groceryclaw.OAuth.Codes.{create_code, consume_code}
use groceryclaw.OAuth.Tokens.{
  Grant, NewTokens, new_token, issue_tokens, resolve_access_token, rotate_refresh_token,
  revoke_token, revoke_grant, grant_from, insert_refresh, touch_client, revoke_family,
}

pub data Op : Type 0 where
  registers : (now : ℕ) → OAuthClient → Op
  cleans : (now idle_days : ℕ) → Op
  creates_account : (account_id tenant_id : String) → AccountInput → Op
  logs_in : (now : ℕ) (account_id : String) (success : Bool) → Op
  links : (account_id code : String) → Op
  deletes_account : (account_id : String) → Op
  creates_code : (now : ℕ) (family hash : String) → NewCode → (ttl : ℕ) → Op
  consumes_code : (now : ℕ) (hash : String) → Op
  issues : (now : ℕ) (family : String) → Grant → NewTokens → Op
  resolves : (now : ℕ) (hash : String) → Op
  rotates : (now : ℕ) (hash client_id : String) → NewTokens → Op
  revokes_token : (hash client_id : String) → Op
  revokes_grant : (account_id client_id : String) → Op

-- A call that throws leaves the store as it was.
unfoldable pub exec : Hooks → Op → Store → Store
exec h (registers now c) s = elim (register_client now c s) [ none ↦ s | some s' ↦ s' ]
exec h (cleans now days) s = (cleanup now days s).0
exec h (creates_account a t i) s = elim (create_account h a t i s) [
  | created s' _ ↦ s'
  | failed _ ↦ s
]
exec h (logs_in now a success) s = record_login now a success s
exec h (links a code) s = (link_invite h a code s).0
exec h (deletes_account a) s = (delete_account a s).0
exec h (creates_code now family hash c ttl) s = create_code now family hash c ttl s
exec h (consumes_code now hash) s = (consume_code now hash s).0
exec h (issues now family g n) s = issue_tokens now family g n s
exec h (resolves now hash) s = (resolve_access_token now hash s).0
exec h (rotates now hash client_id n) s = (rotate_refresh_token now hash client_id n s).0
exec h (revokes_token hash client_id) s = (revoke_token hash client_id s).0
exec h (revokes_grant a client_id) s = (revoke_grant a client_id s).0

unfoldable pub run : Hooks → List Op → Store → Store
run h [] s = s
run h (op ∷ ops) s = run h ops (exec h op s)

-- What a token may become in the store: its identity stays, and it never comes back to life.
pub record Aged (t t' : MemToken) : Type 0 where
  pub hash : t'.hash ≡ t.hash
  pub family : t'.family_id ≡ t.family_id
  pub client : t'.client_id ≡ t.client_id
  pub account : t'.account_id ≡ t.account_id
  pub kind : t'.kind ≡ t.kind
  pub expiry : t'.expires_ms ≡ t.expires_ms
  pub scopes : t'.scopes ≡ t.scopes
  pub dead : is_active t.status ≡ false → is_active t'.status ≡ false
  pub revoked : t.status ≡ TokenStatus.revoked → t'.status ≡ TokenStatus.revoked

-- The changes that calls make to the tokens; `Ok` is what is known of each token issued.
pub data Evolves (Ok : String → MemToken → Type 0) (m : Assoc MemToken)
    : Assoc MemToken → Type 0 where
  start : Evolves Ok m m
  altered :
      {n : Assoc MemToken} (f : MemToken → MemToken)
      → ((t : MemToken) → Aged t (f t))
      → Evolves Ok m n
      → Evolves Ok m (update_all f n)
  pruned :
      {n : Assoc MemToken} (p : String → MemToken → Bool)
      → Evolves Ok m n
      → Evolves Ok m (keep_entries p n)
  updated :
      {n : Assoc MemToken} (k : String) (t t' : MemToken)
      → lookup k n ≡ some t
      → Aged t t'
      → Evolves Ok m n
      → Evolves Ok m (insert k t' n)
  issued :
      {n : Assoc MemToken} (k : String) (t : MemToken)
      → Ok k t
      → Evolves Ok m n
      → Evolves Ok m (insert k t n)

-- A statement of each token that ageing keeps and that new tokens meet, holds from then on.
pub Evolves-Each :
    (Ok P : String → MemToken → Type 0) {m n : Assoc MemToken}
    → ((k : String) (t t' : MemToken) → Aged t t' → P k t → P k t')
    → ((k : String) (t : MemToken) → Ok k t → P k t)
    → Each P m
    → Evolves Ok m n
    → Each P n
Evolves-Each Ok P age new e start = e
Evolves-Each Ok P age new e (altered {n} f aged r) =
    Each-update_all P f n (λ k t p. age k t (f t) (aged t) p) (Evolves-Each Ok P age new e r)
Evolves-Each Ok P age new e (pruned {n} p r) = Each-keep P p n (Evolves-Each Ok P age new e r)
Evolves-Each Ok P age new e (updated {n} k t t' found aged r) =
    let old = Evolves-Each Ok P age new e r in
    Each-insert P k t' n (age k t t' aged (Each-lookup P k n t old found)) old
Evolves-Each Ok P age new e (issued {n} k t ok r) =
    Each-insert P k t n (new k t ok) (Evolves-Each Ok P age new e r)

pub Evolves-IsUnique :
    (Ok : String → MemToken → Type 0) {m n : Assoc MemToken}
    → IsUnique m
    → Evolves Ok m n
    → IsUnique n
Evolves-IsUnique Ok u start = u
Evolves-IsUnique Ok u (altered {n} f aged r) = update_all-IsUnique f n (Evolves-IsUnique Ok u r)
Evolves-IsUnique Ok u (pruned {n} p r) = keep-IsUnique p n (Evolves-IsUnique Ok u r)
Evolves-IsUnique Ok u (updated {n} k t t' _ _ r) = insert-IsUnique k t' n (Evolves-IsUnique Ok u r)
Evolves-IsUnique Ok u (issued {n} k t _ r) = insert-IsUnique k t n (Evolves-IsUnique Ok u r)

pub revoke_if-Aged : (p : MemToken → Bool) (t : MemToken) → Aged t (revoke_if p t)
revoke_if-Aged p t = ground arith

module _ (Ok : String → MemToken → Type 0) where
  -- What is known of the tokens that `issueTokens` stores.
  abbrev pub IssuesOk : ℕ → String → Grant → NewTokens → Type 0
  IssuesOk now family g n =
      Ok n.access_hash (new_token now family g access n.access_hash n.access_ttl_seconds)
      × ((hash : String)
          → n.refresh_hash ≡ some hash
          → Ok hash (new_token now family g refresh hash n.refresh_ttl_seconds))

  -- The same of a call in a store: only `issues` and a rotation that succeeds store new tokens.
  abbrev pub Allowed : Op → Store → Type 0
  Allowed (issues now family g n) s = IssuesOk now family g n
  Allowed (rotates now hash client_id n) s =
      (t : MemToken)
      → lookup hash s.tokens ≡ some t
      → is_active t.status ≡ true
      → IssuesOk now t.family_id (grant_from t) n
  Allowed _ s = Unit {0}

  insert_refresh-Evolves :
      (now : ℕ) (family : String) (g : Grant) (r : Option String) (ttl : ℕ) {m n : Assoc MemToken}
      → ((hash : String) → r ≡ some hash → Ok hash (new_token now family g refresh hash ttl))
      → Evolves Ok m n
      → Evolves Ok m (insert_refresh now family g r ttl n)
  unfolding insert_refresh
  insert_refresh-Evolves now family g none ttl ok r = r
  insert_refresh-Evolves now family g (some hash) ttl ok r = elim (Bool-cases (str_eq hash "")) [
    | inl blank ↦ rw blank r
    | inr hash' ↦ rw hash' (issued hash _ (ok hash refl) r)
  ]

  pub issue_tokens-Evolves :
      (now : ℕ) (family : String) (g : Grant) (n : NewTokens) (s : Store) {m : Assoc MemToken}
      → IssuesOk now family g n
      → Evolves Ok m s.tokens
      → Evolves Ok m (issue_tokens now family g n s).tokens
  unfolding issue_tokens
  issue_tokens-Evolves now family g n s ok r =
      insert_refresh-Evolves now family g n.refresh_hash n.refresh_ttl_seconds ok.1
        (issued n.access_hash _ ok.0 r)

  pub touch_client-Evolves :
      (now : ℕ) (id : String) (s : Store) {m : Assoc MemToken}
      → Evolves Ok m s.tokens
      → Evolves Ok m (touch_client now id s).tokens
  unfolding touch_client
  touch_client-Evolves now id s r = elim (Option-cases (lookup id s.clients)) [
    | inl e ↦ rw (e, touch_client) r
    | inr (c, e) ↦ rw (e, touch_client) r
  ]

  pub revoke_family-Evolves :
      (family : String) (s : Store) → Evolves Ok s.tokens (revoke_family family s).tokens
  unfolding revoke_family
  revoke_family-Evolves family s = altered _ (revoke_if-Aged _) start
