-- ===== src/OAuth/Examples.antt =====
-- The theorems on the authorization server at concrete inputs.
use groceryclaw.Base.Assoc.{lookup}
use groceryclaw.OAuth.Samples.{
  sample, config, used_code, next_tokens, next_tokens-new, fresh, claude, request,
}
use groceryclaw.OAuth.Samples.{
  hooks, sample_store, sample_token, sample_store-IsWellFormed, signup, sample_code, sample_account,
}
use groceryclaw.OAuth.Families.{FamilyRevoked}
use groceryclaw.OAuth.CodeUse.{consume_once, code_reuse_ends_family}
use groceryclaw.OAuth.Exchange.Laws.{exchange_code-resolve}
use groceryclaw.OAuth.Login.{login, signed_in, IsAdmitted, login-eq-signed_in_iff, IsFiled}
use groceryclaw.OAuth.Codes.{consume_code, reused, consumed}
use groceryclaw.OAuth.Replay.{rotate_once, reuse_ends_family}
use groceryclaw.OAuth.History.{run, resolves}
use groceryclaw.OAuth.WellFormed.{IsWellFormed, run-IsWellFormed}
use groceryclaw.OAuth.Accounts.{commit_account, AccountCredentials, view, WebAccount, new_account}
use groceryclaw.OAuth.Exchange.{exchange_code, TokenBody, TokenResponse}
use groceryclaw.OAuth.Tokens.{rotate_refresh_token, rotated_ok, resolve_access_token, AccessGrant}
use groceryclaw.Base.{
  ◌↔◌, true, [], ◌∷◌, none, some, ◌≡◌, refl, ◌≢◌, arith, ne_of_test, String, subst,
}
use groceryclaw.OAuth.{Store, refresh, TokenStatus, AccountStatus, access}

rotate_once_example :
    (rotate_refresh_token 9 "r1" "claude" next_tokens (
      run hooks
        (resolves 8 "a1" ∷ [])
        (rotate_refresh_token 7 "r1" "claude" next_tokens sample_store).0)).1
    ≢ rotated_ok "acc" [] "mcp"
unfolding sample
rotate_once_example =
    rotate_once hooks 7 9 "r1" "claude" "claude" next_tokens next_tokens (resolves 8 "a1" ∷ [])
      sample_store "acc" "acc" ("shop.read" ∷ "offline_access" ∷ []) [] "mcp" "mcp"
      sample_store-IsWellFormed.tokens.0 next_tokens-new (tt, tt) refl

reuse_ends_family_example :
    (sample_token access "a1" TokenStatus.revoked).status ≡ TokenStatus.revoked
unfolding sample
reuse_ends_family_example =
    (reuse_ends_family hooks 7 9 "r0" "claude" next_tokens (resolves 8 "a1" ∷ []) sample_store
      (sample_token refresh "r0" TokenStatus.rotated) "a1"
      (sample_token access "a1" TokenStatus.revoked) refl refl (tt, tt) refl refl).0

consume_once_example :
    (consume_code 9 "h(code)" (run hooks [] (consume_code 7 "h(code)" sample_store).0)).1
    ≢ consumed sample_code.code
consume_once_example =
    consume_once hooks 7 9 "h(code)" [] sample_store sample_code.code
      sample_store-IsWellFormed.codes tt

code_reuse_ends_family_example :
    ((consume_code 7 "h(old)" sample_store).1 ≡ reused)
    × FamilyRevoked "fam"
        (run hooks (resolves 8 "a1" ∷ []) (consume_code 7 "h(old)" sample_store).0)
unfolding sample
code_reuse_ends_family_example =
    code_reuse_ends_family hooks 7 8 "h(old)" (resolves 8 "a1" ∷ []) sample_store used_code refl
      (λ e. cc) (tt, tt)

run-IsWellFormed_example : IsWellFormed (run hooks (resolves 8 "a1" ∷ []) sample_store)
run-IsWellFormed_example =
    run-IsWellFormed hooks (resolves 8 "a1" ∷ []) sample_store sample_store-IsWellFormed

abbrev new_credentials : AccountCredentials
new_credentials = record {
  account_id = "acc2";
  password_hash = "scrypt2";
  status = AccountStatus.active;
  locked_until_ms = none;
}

abbrev after_sign_up : String → Store
after_sign_up id = commit_account hooks id "t" signup "Sandbox" sample_store

abbrev signed_up : String → WebAccount
signed_up id = view (new_account id "t" "bo@shop.vn" signup) (after_sign_up id)

abbrev locked_credentials : AccountCredentials
locked_credentials = record {
  account_id = "acc";
  password_hash = "scrypt";
  status = AccountStatus.active;
  locked_until_ms = some 901_000;
}

abbrev signed_store : Store
signed_store = record sample_store { accounts = ("acc", record sample_account { failed = 0 }) ∷ [] }

sample_store-IsFiled : IsFiled hooks "an@shop.vn" sample_store
unfolding sample
sample_store-IsFiled a e =
    let same : sample_account ≡ a = ground (arith, e) in
    subst (λ x. lookup x.account_id sample_store.accounts ≡ some x) same refl

login-eq-signed_in_iff_example :
    (login hooks (λ _ _. true) 5_000 true "an@shop.vn" "pw" sample_store
      ≡ (signed_store, signed_in (some (view sample_account sample_store))))
    ↔ IsAdmitted hooks
        (λ _ _. true)
        5_000
        true
        "an@shop.vn"
        "pw"
        sample_store
        signed_store
        (some (view sample_account sample_store))
login-eq-signed_in_iff_example =
    login-eq-signed_in_iff hooks (λ _ _. true) 5_000 true "an@shop.vn" "pw" sample_store
      signed_store (some (view sample_account sample_store)) sample_store-IsFiled

exchanged : Store × TokenResponse
unfolding sample
exchanged = exchange_code config 7 fresh claude (request "verifier") sample_store

abbrev exchanged_body : TokenBody
exchanged_body = record {
  access_token = "svat_1";
  refresh_token = none;
  expires_in = 60;
  scope = "shop.read" ∷ [];
}

abbrev exchanged_grant : AccessGrant
exchanged_grant = record {
  tenant_id = "sandbox";
  account_id = "acc";
  client_id = "claude";
  scopes = "shop.read" ∷ [];
  resource = "mcp";
  expires_at_ms = 60_007;
  is_sandbox = true;
}

exchange_code-resolve_example :
    (resolve_access_token 99 "svat_1" exchanged.0).1 ≡ some exchanged_grant
unfolding sample exchanged
exchange_code-resolve_example =
    (exchange_code-resolve config 7 99 fresh claude (request "verifier") sample_store exchanged.0
      exchanged_body sample_code sample_account refl refl refl refl
      (ne_of_test "svrt_1" "svat_1" refl) (omega arith)).0
