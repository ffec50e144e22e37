-- ===== src/OAuth/Tokens.antt =====
-- apps/mcp-server/src/oauth/store.ts: access and refresh tokens of `MemoryOAuthStore`.
use groceryclaw.Base.{
  ℕ, suc, ◌+◌, ◌*◌, String, Bool, true, false, not, ◌&&◌, ◌||◌, List, [], ◌∷◌, Option, none, some,
  leb, str_eq, if◌then◌else◌, guard, ◌>>=◌, ◌>>◌,
}
use groceryclaw.Base.Assoc.{Assoc, lookup, insert, update_all}
use groceryclaw.OAuth.{
  TokenKind, access, refresh, TokenStatus, MemAccount, MemToken, Store, is_enabled, is_access,
  is_active, is_revoked, revoke_if,
}

-- The second argument of `issueTokens`.
pub record Grant : Type 0 where
  pub client_id : String
  pub account_id : String
  pub scopes : List String
  pub resource : String

pub record NewTokens : Type 0 where
  pub access_hash : String
  pub access_ttl_seconds : ℕ
  pub refresh_hash : Option String
  pub refresh_ttl_seconds : ℕ

pub record AccessGrant : Type 0 where
  pub tenant_id : String
  pub account_id : String
  pub client_id : String
  pub scopes : List String
  pub resource : String
  pub expires_at_ms : ℕ
  pub is_sandbox : Bool

pub data RotateResult : Type 0 where
  rotated_ok : (account_id : String) (scopes : List String) (resource : String) → RotateResult
  invalid reuse : RotateResult

unfoldable pub new_token : ℕ → String → Grant → TokenKind → String → ℕ → MemToken
new_token now family g kind hash ttl = record {
  hash = hash;
  kind = kind;
  family_id = family;
  client_id = g.client_id;
  account_id = g.account_id;
  scopes = g.scopes;
  resource = g.resource;
  status = TokenStatus.active;
  expires_ms = now + ttl * 1000;
  created_ms = now;
  last_used_ms = none;
}

unfoldable pub insert_refresh :
    ℕ → String → Grant → Option String → ℕ → Assoc MemToken → Assoc MemToken
unfolding new_token
insert_refresh now family g none ttl m = m
insert_refresh now family g (some hash) ttl m =
    if str_eq hash "" then m else insert hash (new_token now family g refresh hash ttl) m

unfoldable pub issue_tokens : ℕ → String → Grant → NewTokens → Store → Store
unfolding new_token insert_refresh
issue_tokens now family g n s = record s {
  tokens = insert_refresh now family g n.refresh_hash n.refresh_ttl_seconds (
      insert n.access_hash (new_token now family g access n.access_hash n.access_ttl_seconds)
        s.tokens);
}

-- The token and the account that an access token stands for, if it may be used.
unfoldable pub usable_token : ℕ → String → Store → Option (MemToken × MemAccount)
usable_token now hash s = do
  t ← lookup hash s.tokens
  guard (is_access t.kind && is_active t.status && not (leb t.expires_ms now))
  a ← lookup t.account_id s.accounts
  guard (is_enabled a.status)
  some (t, a)

abbrev pub grant_of : MemToken → MemAccount → AccessGrant
grant_of t a = record {
  tenant_id = a.tenant_id;
  account_id = a.account_id;
  client_id = t.client_id;
  scopes = t.scopes;
  resource = t.resource;
  expires_at_ms = t.expires_ms;
  is_sandbox = a.is_sandbox;
}

unfoldable pub resolve_access_token : ℕ → String → Store → Store × Option AccessGrant
unfolding usable_token
resolve_access_token now hash s = elim (usable_token now hash s) [
  | none ↦ (s, none)
  | some (t, a) ↦ (
    record s { tokens = insert hash (record t { last_used_ms = some now }) s.tokens },
    some (grant_of t a),
  )
]

-- `for (const x of this.tokens.values()) if (x.familyId === family) x.status = 'revoked'`
unfoldable pub revoke_family : String → Store → Store
revoke_family family s = record s {
  tokens = update_all (revoke_if λ t. str_eq t.family_id family) s.tokens;
}

-- `const c = this.clients.get(id); if (c) c.lastUsedMs = this.now()`
unfoldable pub touch_client : ℕ → String → Store → Store
touch_client now id s = elim (lookup id s.clients) [
  | none ↦ s
  | some c ↦ record s { clients = insert id (record c { last_used_ms = some now }) s.clients }
]

abbrev pub grant_from : MemToken → Grant
grant_from t = record {
  client_id = t.client_id;
  account_id = t.account_id;
  scopes = t.scopes;
  resource = t.resource;
}

-- The account of a token exists and is active.
unfoldable pub has_live_account : MemToken → Store → Bool
has_live_account t s = elim (lookup t.account_id s.accounts) [
  | none ↦ false
  | some a ↦ is_enabled a.status
]

-- `t.status = 'rotated'`, where `t` is the token of `hash`.
abbrev pub mark_rotated : String → MemToken → Store → Store
mark_rotated hash t s = record s {
  tokens = insert hash (record t { status = TokenStatus.rotated }) s.tokens;
}

-- `rotateRefreshToken` once the token was found to be this client's refresh token.
unfoldable pub rotate_found :
    ℕ → String → String → NewTokens → MemToken → Store → Store × RotateResult
unfolding has_live_account issue_tokens touch_client revoke_family
rotate_found now hash client_id next t s =
    if not (is_active t.status)
    then (revoke_family t.family_id s, reuse)
    else if leb t.expires_ms now || not (has_live_account t s)
    then (s, invalid)
    else (
      touch_client now client_id
          (issue_tokens now t.family_id (grant_from t) next (mark_rotated hash t s)),
      rotated_ok t.account_id t.scopes t.resource,
    )

unfoldable pub rotate_refresh_token : ℕ → String → String → NewTokens → Store → Store × RotateResult
unfolding rotate_found
rotate_refresh_token now hash client_id next s = elim (lookup hash s.tokens) [
  | none ↦ (s, invalid)
  | some t ↦
      if is_access t.kind || not (str_eq t.client_id client_id)
      then (s, invalid)
      else rotate_found now hash client_id next t s
]

unfoldable pub revoke_token : String → String → Store → Store × Bool
unfolding revoke_family
revoke_token hash client_id s = elim (lookup hash s.tokens) [
  | none ↦ (s, false)
  | some t ↦
      if not (str_eq t.client_id client_id) then (s, false) else (revoke_family t.family_id s, true)
]

-- The tokens that `revokeGrant` turns off.
abbrev pub is_of_grant : String → String → MemToken → Bool
is_of_grant account_id client_id t =
    str_eq t.account_id account_id && str_eq t.client_id client_id && not (is_revoked t.status)

abbrev pub count_if : (MemToken → Bool) → Assoc MemToken → ℕ
count_if p [] = 0
count_if p ((k, t) ∷ m) = let n = count_if p m in if p t then suc n else n

unfoldable pub revoke_grant : String → String → Store → Store × ℕ
revoke_grant account_id client_id s = (
  record s { tokens = update_all (revoke_if (is_of_grant account_id client_id)) s.tokens },
  count_if (is_of_grant account_id client_id) s.tokens,
)
