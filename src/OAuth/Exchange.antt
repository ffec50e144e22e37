-- ===== src/OAuth/Exchange.antt =====
-- apps/mcp-server/src/oauth/server.ts, the token endpoint: the exchange of an authorization code or
-- of a refresh token for new tokens. The request is parsed already; hashing and the random tokens
-- are arguments, and so is what `verifyPkce` answers.
pub mod Laws
use groceryclaw.Base.{
  ℕ, String, Bool, true, false, not, ◌&&◌, ◌||◌, List, Option, none, some, if◌then◌else◌, str_eq,
  guard, ◌>>=◌, ◌>>◌, includes,
}
use groceryclaw.OAuth.{
  Store, OAuthClient, AuthMethod, no_secret, client_secret_post, AuthCodeRecord,
}
use groceryclaw.OAuth.Clients.{get_client}
use groceryclaw.OAuth.Codes.{consume_code, ConsumeResult, consumed}
use groceryclaw.OAuth.Tokens.{Grant, issue_tokens, rotate_refresh_token, RotateResult, rotated_ok}

-- What the endpoint uses of apps/mcp-server/src/oauth/crypto.ts, and its settings.
pub record Config : Type 0 where
  pub sha256 : String → String
  pub is_valid_verifier : String → Bool
  pub verify_pkce : String → String → Bool
  pub safe_equal : String → String → Bool
  pub access_ttl_seconds : ℕ
  pub refresh_ttl_seconds : ℕ

-- `randomToken('svat')` and `randomToken('svrt')` of this request.
pub record Fresh : Type 0 where
  pub access : String
  pub refresh : String

pub data TokenError : Type 0 where
  invalid_client invalid_request invalid_grant invalid_target : TokenError

-- The JSON of the answer.
pub record TokenBody : Type 0 where
  pub access_token : String
  pub refresh_token : Option String
  pub expires_in : ℕ
  pub scope : List String

pub data TokenResponse : Type 0 where
  granted : TokenBody → TokenResponse
  denied : TokenError → TokenResponse

-- The secret of a client that has one.
abbrev secret_matches : Config → String → Option String → Bool
secret_matches cfg secret none = false
secret_matches cfg secret (some stored) = cfg.safe_equal (cfg.sha256 secret) stored

abbrev secret_ok : Config → String → OAuthClient → AuthMethod → Bool
secret_ok cfg secret c no_secret = true
secret_ok cfg secret c client_secret_post =
    not (str_eq secret "") && secret_matches cfg secret c.client_secret_hash

unfoldable pub authenticate_client :
    Config → (client_id secret : String) → Store → Option OAuthClient
authenticate_client cfg client_id secret s = do
  guard (not (str_eq client_id ""))
  c ← get_client client_id s
  guard (secret_ok cfg secret c c.token_endpoint_auth_method)
  some c

abbrev grant_of_code : AuthCodeRecord → Grant
grant_of_code c = record {
  client_id = c.client_id;
  account_id = c.account_id;
  scopes = c.scopes;
  resource = c.resource;
}

-- The refresh token that `issue` makes for these scopes.
abbrev refresh_for : List String → String → Option String
refresh_for scopes token = if includes scopes "offline_access" then some token else none

abbrev hash_all : Config → Option String → Option String
hash_all cfg none = none
hash_all cfg (some t) = some (cfg.sha256 t)

-- `issue` with no tokens made in advance.
unfoldable pub issue : Config → ℕ → Fresh → String → Grant → Store → Store × TokenBody
issue cfg now f family g s = (
  issue_tokens now family g
      (record {
        access_hash = cfg.sha256 f.access;
        access_ttl_seconds = cfg.access_ttl_seconds;
        refresh_hash = hash_all cfg (refresh_for g.scopes f.refresh);
        refresh_ttl_seconds = cfg.refresh_ttl_seconds;
      })
      s,
  record {
    access_token = f.access;
    refresh_token = refresh_for g.scopes f.refresh;
    expires_in = cfg.access_ttl_seconds;
    scope = g.scopes;
  },
)

pub record CodeRequest : Type 0 where
  pub code : String
  pub redirect_uri : String
  pub verifier : String

-- The check of a code that was consumed against the request that presents it.
abbrev pub code_matches : Config → OAuthClient → CodeRequest → AuthCodeRecord → Bool
code_matches cfg client r c =
    str_eq c.client_id client.client_id
    && str_eq c.redirect_uri r.redirect_uri
    && cfg.verify_pkce r.verifier c.code_challenge

unfoldable pub redeem :
    Config → ℕ → Fresh → OAuthClient → CodeRequest → ConsumeResult → Store → Store × TokenResponse
redeem cfg now f client r (consumed c) s =
    if not (code_matches cfg client r c)
    then (s, denied invalid_grant)
    else let (s', body) = issue cfg now f c.family_id (grant_of_code c) s in (s', granted body)
redeem cfg now f client r _ s = (s, denied invalid_grant)

-- `grant_type=authorization_code`, once the client is authenticated.
unfoldable pub exchange_code :
    Config → ℕ → Fresh → OAuthClient → CodeRequest → Store → Store × TokenResponse
unfolding redeem
exchange_code cfg now f client r s =
    if str_eq r.code "" || str_eq r.redirect_uri "" || str_eq r.verifier ""
    then (s, denied invalid_request)
    else if not (cfg.is_valid_verifier r.verifier)
    then (s, denied invalid_grant)
    else let (s', answer) = consume_code now (cfg.sha256 r.code) s in
      redeem cfg now f client r answer s'

abbrev rotated_body : Config → Fresh → List String → TokenBody
rotated_body cfg f scopes = record {
  access_token = f.access;
  refresh_token = some f.refresh;
  expires_in = cfg.access_ttl_seconds;
  scope = scopes;
}

abbrev rotation_response : Config → Fresh → RotateResult → TokenResponse
rotation_response cfg f (rotated_ok account_id scopes resource) =
    granted (rotated_body cfg f scopes)
rotation_response cfg f _ = denied invalid_grant

-- `grant_type=refresh_token`, once the client is authenticated.
unfoldable pub exchange_refresh :
    Config → ℕ → Fresh → OAuthClient → String → Store → Store × TokenResponse
exchange_refresh cfg now f client refresh s =
    if str_eq refresh ""
    then (s, denied invalid_request)
    else let (s', answer) =
        rotate_refresh_token now (cfg.sha256 refresh) client.client_id
          (record {
            access_hash = cfg.sha256 f.access;
            access_ttl_seconds = cfg.access_ttl_seconds;
            refresh_hash = some (cfg.sha256 f.refresh);
            refresh_ttl_seconds = cfg.refresh_ttl_seconds;
          })
          s in
      (s', rotation_response cfg f answer)

pub data Exchange : Type 0 where
  by_code : CodeRequest → Exchange
  by_refresh : String → Exchange

unfoldable pub exchange :
    Config → ℕ → Fresh → OAuthClient → Exchange → Store → Store × TokenResponse
exchange cfg now f client (by_code r) s = exchange_code cfg now f client r s
exchange cfg now f client (by_refresh t) s = exchange_refresh cfg now f client t s

-- `handleToken`, from the authentication of the client on; `resource_ok` is the check of the
-- optional `resource` parameter.
unfoldable pub handle_token :
    Config
    → ℕ
    → Fresh
    → (client_id secret : String) → (resource_ok : Bool) → Exchange
    → Store
    → Store × TokenResponse
handle_token cfg now f client_id secret resource_ok x s =
    elim (authenticate_client cfg client_id secret s) [
      | none ↦ (s, denied invalid_client)
      | some client ↦
          if not resource_ok then (s, denied invalid_target) else exchange cfg now f client x s
    ]
