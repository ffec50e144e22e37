-- ===== src/OAuth/Exchange/Laws.antt =====
-- What the token endpoint (apps/mcp-server/src/oauth/server.ts) hands out for a code.
use groceryclaw.OAuth.Access.{resolve-eq-some_iff}
use groceryclaw.OAuth.Tracking.{IsUsable}
use groceryclaw.OAuth.CodeUse.{consume-eq-consumed_iff}
use groceryclaw.Base.Assoc.{lookup, lookup-insert_ne, lookup-insert_self}
use groceryclaw.OAuth.Tokens.{
  new_token, revoke_family, insert_refresh, issue_tokens, Grant, resolve_access_token,
}
use groceryclaw.Base.{
  ℕ, true, ◌≡◌, refl, arith, String, some, ◌≢◌, ◌<◌, ◌+◌, ◌*◌, Bool-cases, includes, inl, sym, ◌∙◌,
  ap, inr, str_eq_iff, str_eq,
}
use groceryclaw.OAuth.{Store, OAuthClient, AuthCodeRecord, MemCode, MemAccount, is_enabled, access}
use groceryclaw.OAuth.Codes.{consume_code, consumed, invalid, expired, reused}
use groceryclaw.OAuth.Exchange.{
  Config, Fresh, CodeRequest, TokenBody, granted, code_matches, grant_of_code, issue, redeem,
  exchange_code,
}

-- A code exchange that grants tokens has consumed the code, and the code was made for this client,
-- this redirect and a challenge that the verifier meets.
exchange_code-inv :
    (cfg : Config) (now : ℕ) (f : Fresh) (client : OAuthClient) (r : CodeRequest) (s s' : Store)
    (body : TokenBody)
    → exchange_code cfg now f client r s ≡ (s', granted body)
    → (c : AuthCodeRecord) × ((consume_code now (cfg.sha256 r.code) s).1 ≡ consumed c)
      × (code_matches cfg client r c ≡ true)
      × (s'
          ≡ (issue cfg now f c.family_id
              (grant_of_code c)
              (consume_code now (cfg.sha256 r.code) s).0).0)
      × (body.access_token ≡ f.access)
unfolding exchange_code redeem issue
exchange_code-inv cfg now f client r s s' body e =
    elim (consume_code now (cfg.sha256 r.code) s).1
        as (λ a.
          (consume_code now (cfg.sha256 r.code) s).1 ≡ a
          → (c : AuthCodeRecord) × ((consume_code now (cfg.sha256 r.code) s).1 ≡ consumed c)
            × (code_matches cfg client r c ≡ true)
            × (s'
                ≡ (issue cfg now f c.family_id (grant_of_code c)
                    (consume_code now (cfg.sha256 r.code) s).0).0)
            × (body.access_token ≡ f.access)) [
              | consumed c ↦ λ a. (c, a, ground (arith, a), ground (arith, a), ground (arith, a))
              | invalid ↦ λ a. absurd (ground (arith, a))
              | expired ↦ λ a. absurd (ground (arith, a))
              | reused ↦ λ a. absurd (ground (arith, a))
            ]
      refl

issue-lookup :
    (cfg : Config) (now : ℕ) (f : Fresh) (family : String) (g : Grant) (s : Store)
    → cfg.sha256 f.refresh ≢ cfg.sha256 f.access
    → lookup (cfg.sha256 f.access) (issue cfg now f family g s).0.tokens
      ≡ some (new_token now family g access (cfg.sha256 f.access) cfg.access_ttl_seconds)
unfolding issue issue_tokens insert_refresh
issue-lookup cfg now f family g s ne = elim (Bool-cases (includes g.scopes "offline_access")) [
  | inl on ↦ elim (Bool-cases (str_eq (cfg.sha256 f.refresh) "")) [
    | inl blank ↦ rw (on, blank) (lookup-insert_self (cfg.sha256 f.access) _ s.tokens)
    | inr hash ↦
        rw (on, hash, lookup-insert_ne (cfg.sha256 f.refresh) (cfg.sha256 f.access) _ _ ne)
          (lookup-insert_self (cfg.sha256 f.access) _ s.tokens)
  ]
  | inr off ↦ rw off (lookup-insert_self (cfg.sha256 f.access) _ s.tokens)
]

consume-accounts :
    (now : ℕ) (k : String) (s : Store) → (consume_code now k s).0.accounts ≡ s.accounts
unfolding consume_code revoke_family
consume-accounts now k s = ground arith

issue-accounts :
    (cfg : Config) (now : ℕ) (f : Fresh) (family : String) (g : Grant) (s : Store)
    → (issue cfg now f family g s).0.accounts ≡ s.accounts
unfolding issue issue_tokens
issue-accounts cfg now f family g s = refl

-- The access token of a code exchange that is granted resolves, until its lifetime is over, to the
-- account, the scopes and the resource of the code and to the client that asked. The code was made for
-- this client, for this redirect URI and for a challenge that the verifier meets. (The account is
-- active, and the two new tokens have different hashes.)
pub exchange_code-resolve :
    (cfg : Config) (now later : ℕ) (f : Fresh) (client : OAuthClient) (r : CodeRequest)
    (s s' : Store) (body : TokenBody) (x : MemCode) (a : MemAccount)
    → exchange_code cfg now f client r s ≡ (s', granted body)
    → lookup (cfg.sha256 r.code) s.codes ≡ some x
    → lookup x.account_id s.accounts ≡ some a
    → is_enabled a.status ≡ true
    → cfg.sha256 f.refresh ≢ cfg.sha256 f.access
    → later < now + cfg.access_ttl_seconds * 1000
    → ((resolve_access_token later (cfg.sha256 body.access_token) s').1
        ≡ some (record {
          tenant_id = a.tenant_id;
          account_id = a.account_id;
          client_id = client.client_id;
          scopes = x.scopes;
          resource = x.resource;
          expires_at_ms = now + cfg.access_ttl_seconds * 1000;
          is_sandbox = a.is_sandbox;
        }))
      × (x.client_id ≡ client.client_id)
      × (x.redirect_uri ≡ r.redirect_uri)
      × (cfg.verify_pkce r.verifier x.code_challenge ≡ true)
unfolding new_token
exchange_code-resolve cfg now later f client r s s' body x a e stored owner enabled ne early =
    let (c, eaten, matches, s'≡, token≡) = exchange_code-inv cfg now f client r s s' body e in
    let (y, found, _, _, same) = (consume-eq-consumed_iff now (cfg.sha256 r.code) s c).0 eaten in
    let x=y : y ≡ x = ground (arith, stored, found) in
    let c≡ : c ≡ x.code = sym same ∙ ap (λ (z : MemCode). z.code) x=y in
    let s₁ = (consume_code now (cfg.sha256 r.code) s).0 in
    let token =
      new_token now c.family_id (grant_of_code c) access (cfg.sha256 f.access)
        cfg.access_ttl_seconds in
    let usable : IsUsable later (cfg.sha256 body.access_token) s' token a = record {
      found = rw (token≡, s'≡) (issue-lookup cfg now f c.family_id (grant_of_code c) s₁ ne);
      owner =
          rw
            (
              s'≡,
              issue-accounts cfg now f c.family_id (grant_of_code c) s₁,
              consume-accounts now (cfg.sha256 r.code) s,
              c≡,
            )
            owner;
      kind = refl;
      live = refl;
      unexpired = early;
      enabled = enabled;
    } in
    (
      (resolve-eq-some_iff later (cfg.sha256 body.access_token) s' _).1
          (token, a, usable, ground (arith, c≡, matches, str_eq_iff c.client_id client.client_id)),
      ground (arith, matches, c≡, str_eq_iff c.client_id client.client_id),
      ground (arith, matches, c≡, str_eq_iff c.redirect_uri r.redirect_uri),
      ground (arith, matches, c≡),
    )
