-- ===== src/OAuth/Samples.antt =====
-- A small authorization server: the store, the code and the token that the examples start from.
use groceryclaw.OAuth.Codes.{consume_code}
use groceryclaw.OAuth.Replay.{IssuesOther}
use groceryclaw.OAuth.History.{run, exec}
use groceryclaw.Base.Assoc.{lookup, insert, update_all, values}
use groceryclaw.OAuth.WellFormed.{IsWellFormed}
use groceryclaw.OAuth.Accounts.{
  AccountInput, Hooks, create_account, find_credentials, email_taken, commit_account, view,
  link_invite, invite_hit, delete_account, finish_account,
}
use groceryclaw.OAuth.Exchange.{Config, Fresh, CodeRequest, exchange_code, redeem, issue}
use groceryclaw.OAuth.Tokens.{
  rotate_refresh_token, NewTokens, rotate_found, issue_tokens, new_token, insert_refresh,
  revoke_family, resolve_access_token, usable_token,
}
use groceryclaw.Base.{
  String, true, ◌&&◌, [], ◌∷◌, none, some, refl, if◌then◌else◌, str_eq, ne_of_test, some-ne,
}
use groceryclaw.OAuth.{
  MemCode, MemAccount, Store, TokenKind, OAuthClient, no_secret, refresh, TokenStatus, Locale,
  AccountStatus, MemToken, access, dcr,
}

abbrev pub sample_account : MemAccount
sample_account = record {
  account_id = "acc";
  email = "an@shop.vn";
  password_hash = "scrypt";
  tenant_id = "sandbox";
  is_sandbox = true;
  locale = Locale.vi;
  status = AccountStatus.active;
  failed = 4;
  locked_until_ms = none;
}

abbrev pub sample_token : TokenKind → String → TokenStatus → MemToken
sample_token kind hash status = record {
  hash = hash;
  kind = kind;
  family_id = "fam";
  client_id = "claude";
  account_id = "acc";
  scopes = "shop.read" ∷ "offline_access" ∷ [];
  resource = "mcp";
  status = status;
  expires_ms = 10_000;
  created_ms = 0;
  last_used_ms = none;
}

abbrev pub sample_code : MemCode
sample_code = record {
  code = record {
    base = record {
      client_id = "claude";
      account_id = "acc";
      redirect_uri = "https://claude.ai/cb";
      code_challenge = "challenge";
      scopes = "shop.read" ∷ [];
      resource = "mcp";
    };
    family_id = "fam";
  };
  expires_ms = 5_000;
  used_ms = none;
}

abbrev pub used_code : MemCode
used_code = record sample_code { used_ms = some 7 }

abbrev pub sample_store : Store
sample_store = record {
  clients = [];
  accounts = ("acc", sample_account) ∷ [];
  shop_names = [];
  codes = ("h(code)", sample_code) ∷ ("h(old)", used_code) ∷ [];
  tokens =
      ("r1", sample_token refresh "r1" TokenStatus.active)
      ∷ ("r0", sample_token refresh "r0" TokenStatus.rotated)
      ∷ ("a1", sample_token access "a1" TokenStatus.active)
      ∷ [];
}

abbrev pub next_tokens : NewTokens
next_tokens = record {
  access_hash = "a2";
  access_ttl_seconds = 60;
  refresh_hash = some "r2";
  refresh_ttl_seconds = 600;
}

abbrev pub hooks : Hooks
hooks = record {
  lower = λ s. s;
  provision = λ _ _. some "Sandbox";
  redeem_invite = λ _. some (record { tenant_id = "real"; shop_name = "Shop" });
}

abbrev pub signup : AccountInput
signup = record { email = "bo@shop.vn"; password_hash = "scrypt2"; locale = Locale.en }

abbrev prefix_hash : String → String
prefix_hash s = if str_eq s "code" then "h(code)" else s

abbrev pub config : Config
config = record {
  sha256 = prefix_hash;
  is_valid_verifier = λ _. true;
  verify_pkce = λ v c. str_eq v "verifier" && str_eq c "challenge";
  safe_equal = str_eq;
  access_ttl_seconds = 60;
  refresh_ttl_seconds = 600;
}

abbrev pub fresh : Fresh
fresh = record { access = "svat_1"; refresh = "svrt_1" }

abbrev pub claude : OAuthClient
claude = record {
  client_id = "claude";
  client_name = "Claude";
  redirect_uris = "https://claude.ai/cb" ∷ [];
  token_endpoint_auth_method = no_secret;
  client_secret_hash = none;
  registration_type = dcr;
}

abbrev pub request : String → CodeRequest
request verifier = record {
  code = "code";
  redirect_uri = "https://claude.ai/cb";
  verifier = verifier;
}

unfoldable pub sample : Unit {0}
unfolding str_eq lookup insert update_all values rotate_refresh_token rotate_found consume_code
    create_account finish_account find_credentials email_taken commit_account view exchange_code
    redeem issue issue_tokens new_token insert_refresh revoke_family link_invite invite_hit
    delete_account run exec resolve_access_token usable_token
sample = tt

pub sample_store-IsWellFormed : IsWellFormed sample_store
unfolding sample
sample_store-IsWellFormed = record {
  clients = (tt, tt);
  accounts = ((refl, tt), (refl, tt));
  codes = (refl, (refl, tt));
  tokens = ((refl, (refl, (refl, tt))), (refl, (refl, (refl, tt))));
}

pub next_tokens-new : IssuesOther "r1" next_tokens
unfolding sample
next_tokens-new = (ne_of_test "a2" "r1" refl, some-ne "r2" "r1" (ne_of_test "r2" "r1" refl))
