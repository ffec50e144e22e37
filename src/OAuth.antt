-- ===== src/OAuth.antt =====
-- apps/mcp-server/src/oauth/store.ts: the records of the authorization server and the state of its
-- in-memory store. A `Map` is an association list, a time is a number of milliseconds, and the
-- hashes and identifiers are texts that the store only compares.
pub mod Clients
pub mod Accounts
pub mod Codes
pub mod Tokens
pub mod History
pub mod Tracking
pub mod Families
pub mod Replay
pub mod CodeUse
pub mod Access
pub mod WellFormed
pub mod SignUp
pub mod Login
pub mod Exchange
mod Samples
mod Examples
use groceryclaw.Base.{ℕ, String, Bool, true, false, List, [], Option, if◌then◌else◌}
use groceryclaw.Base.Assoc.{Assoc}

pub data Locale : Type 0 where
  en vi : Locale

pub data AuthMethod : Type 0 where
  no_secret client_secret_post : AuthMethod

pub data RegistrationType : Type 0 where
  dcr cimd : RegistrationType

pub data AccountStatus : Type 0 where
  active disabled : AccountStatus

pub data TokenKind : Type 0 where
  access refresh : TokenKind

pub data TokenStatus : Type 0 where
  active rotated revoked : TokenStatus

pub record OAuthClient : Type 0 where
  pub client_id : String
  pub client_name : String
  pub redirect_uris : List String
  pub token_endpoint_auth_method : AuthMethod
  pub client_secret_hash : Option String
  pub registration_type : RegistrationType

-- What `registerClient` stores: the client with its two times.
pub record StoredClient : Type 0 where
  pub client : OAuthClient
  pub open client use *
  pub created_ms : ℕ
  pub last_used_ms : Option ℕ

pub record MemAccount : Type 0 where
  pub account_id : String
  pub email : String
  pub password_hash : String
  pub tenant_id : String
  pub is_sandbox : Bool
  pub locale : Locale
  pub status : AccountStatus
  pub failed : ℕ
  pub locked_until_ms : Option ℕ

-- The arguments of `createCode`: an `AuthCodeRecord` with no family.
pub record NewCode : Type 0 where
  pub client_id : String
  pub account_id : String
  pub redirect_uri : String
  pub code_challenge : String
  pub scopes : List String
  pub resource : String

pub record AuthCodeRecord : Type 0 where
  pub base : NewCode
  pub open base use *
  pub family_id : String

pub record MemCode : Type 0 where
  pub code : AuthCodeRecord
  pub open code use *
  pub expires_ms : ℕ
  pub used_ms : Option ℕ

pub record MemToken : Type 0 where
  pub hash : String
  pub kind : TokenKind
  pub family_id : String
  pub client_id : String
  pub account_id : String
  pub scopes : List String
  pub resource : String
  pub status : TokenStatus
  pub expires_ms : ℕ
  pub created_ms : ℕ
  pub last_used_ms : Option ℕ

pub record Store : Type 0 where
  pub clients : Assoc StoredClient
  pub accounts : Assoc MemAccount
  pub shop_names : Assoc String
  pub codes : Assoc MemCode
  pub tokens : Assoc MemToken

abbrev pub empty : Store
empty = record { clients = []; accounts = []; shop_names = []; codes = []; tokens = [] }

abbrev pub is_dcr : RegistrationType → Bool
is_dcr dcr = true
is_dcr cimd = false

abbrev pub is_enabled : AccountStatus → Bool
is_enabled AccountStatus.active = true
is_enabled AccountStatus.disabled = false

abbrev pub is_access : TokenKind → Bool
is_access access = true
is_access refresh = false

abbrev pub is_active : TokenStatus → Bool
is_active TokenStatus.active = true
is_active TokenStatus.rotated = false
is_active TokenStatus.revoked = false

abbrev pub is_revoked : TokenStatus → Bool
is_revoked TokenStatus.active = false
is_revoked TokenStatus.rotated = false
is_revoked TokenStatus.revoked = true

-- `this.tokens.get(hash)` and so on are `lookup` of Base.Assoc.
abbrev pub day_ms : ℕ
day_ms = 86_400_000

-- `t.status = 'revoked'`
abbrev pub revoke : MemToken → MemToken
revoke t = record t { status = TokenStatus.revoked }

-- `for (const t of this.tokens.values()) if (p(t)) t.status = 'revoked'`
abbrev pub revoke_if : (MemToken → Bool) → MemToken → MemToken
revoke_if p t = if p t then revoke t else t
