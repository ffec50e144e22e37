-- ===== src/OAuth/WellFormed.antt =====
-- The shape of the authorization store (apps/mcp-server/src/oauth/store.ts) that every call keeps:
-- no key stands twice, and each record stands under its own identifier.
use groceryclaw.Base.{
  ℕ, String, Bool, true, false, not, ◌||◌, List, [], ◌∷◌, some, ◌≡◌, refl, inl, inr, Option-cases,
  Bool-cases, arith, leb, ◌∙◌, str_eq, is_some, subst,
}
use groceryclaw.Base.Assoc.{
  Assoc, lookup, insert, keep_entries, delete, Each, Each-lookup, Each-insert, Each-keep, IsUnique,
  insert-IsUnique, keep-IsUnique,
}
use groceryclaw.OAuth.{
  MemAccount, MemToken, StoredClient, OAuthClient, Store, empty, is_dcr, is_active, is_access,
}
use groceryclaw.OAuth.Accounts.{
  Hooks, AccountInput, create_account, record_login, login_result, link_invite, delete_account,
  invite_hit, email_taken, InviteShop, finish_account,
}
use groceryclaw.OAuth.Clients.{register_client, cleanup}
use groceryclaw.OAuth.Codes.{create_code, consume_code}
use groceryclaw.OAuth.Tokens.{
  NewTokens, Grant, new_token, issue_tokens, resolve_access_token, rotate_refresh_token,
  rotate_found, revoke_token, revoke_grant, revoke_family, touch_client, grant_from, mark_rotated,
  has_live_account,
}
use groceryclaw.OAuth.History.{
  Op, registers, cleans, creates_account, logs_in, links, deletes_account, creates_code,
  consumes_code, issues, resolves, rotates, revokes_token, revokes_grant, exec, run, Evolves-Each,
  Evolves-IsUnique, Allowed, IssuesOk,
}
use groceryclaw.OAuth.Tracking.{exec-Evolves}
use groceryclaw.OAuth.CodeUse.{touch_client-codes, simple-codes}

-- No key twice, and each value under its own key.
abbrev pub Keyed {ℓ} : {V : Type ℓ} → (V → String) → Assoc V → Type ℓ
Keyed key m = IsUnique m × Each (λ k v. key v ≡ k) m

module _ {ℓ} {V : Type ℓ} (key : V → String) where
  insert-Keyed :
      (k : String) (v : V) (m : Assoc V) → key v ≡ k → Keyed key m → Keyed key (insert k v m)
  insert-Keyed k v m e w = (insert-IsUnique k v m w.0, Each-insert (λ j x. key x ≡ j) k v m e w.1)

  keep-Keyed : (p : String → V → Bool) (m : Assoc V) → Keyed key m → Keyed key (keep_entries p m)
  keep-Keyed p m w = (keep-IsUnique p m w.0, Each-keep (λ j x. key x ≡ j) p m w.1)

  lookup-key : (k : String) (v : V) (m : Assoc V) → Keyed key m → lookup k m ≡ some v → key v ≡ k
  lookup-key k v m w e = Each-lookup (λ j x. key x ≡ j) k m v w.1 e

abbrev pub client_key : StoredClient → String
client_key c = c.client_id

abbrev pub account_key : MemAccount → String
account_key a = a.account_id

abbrev pub token_key : MemToken → String
token_key t = t.hash

pub record IsWellFormed (s : Store) : Type 0 where
  pub clients : Keyed client_key s.clients
  pub accounts : Keyed account_key s.accounts
  pub codes : IsUnique s.codes
  pub tokens : Keyed token_key s.tokens

pub empty-IsWellFormed : IsWellFormed empty
empty-IsWellFormed = record {
  clients = (tt, tt);
  accounts = (tt, tt);
  codes = tt;
  tokens = (tt, tt);
}

-- Tokens.
abbrev OwnHash : String → MemToken → Type 0
OwnHash k t = t.hash ≡ k

issue-OwnHash :
    (now : ℕ) (family : String) (g : Grant) (n : NewTokens) → IssuesOk OwnHash now family g n
unfolding new_token
issue-OwnHash now family g n = (refl, λ _ _. refl)

exec-Allowed : (op : Op) (s : Store) → Allowed OwnHash op s
exec-Allowed (issues now family g n) s = issue-OwnHash now family g n
exec-Allowed (rotates now h client_id n) s = λ t _ _. issue-OwnHash now t.family_id _ n
exec-Allowed (registers now c) s = tt
exec-Allowed _ s = tt

exec-tokens :
    (h : Hooks) (op : Op) (s : Store)
    → Keyed token_key s.tokens
    → Keyed token_key (exec h op s).tokens
exec-tokens h op s w =
    let e = exec-Evolves OwnHash h op s (exec-Allowed op s) in
    (
      Evolves-IsUnique OwnHash w.0 e,
      Evolves-Each OwnHash _ (λ k t t' aged p. aged.hash ∙ p) (λ k t ok. ok) w.1 e,
    )

-- Clients.
touch-clients :
    (now : ℕ) (id : String) (s : Store)
    → Keyed client_key s.clients
    → Keyed client_key (touch_client now id s).clients
unfolding touch_client
touch-clients now id s w = elim (Option-cases (lookup id s.clients)) [
  | inl e ↦ rw (e, touch_client) w
  | inr (c, e) ↦
      rw (e, touch_client)
        (insert-Keyed client_key id _ s.clients (lookup-key client_key id c s.clients w e) w)
]

-- The three ways in which a rotation leaves the store.
rotate_cases {ℓ} :
    (P : Store → Type ℓ) (now : ℕ) (hash client_id : String) (n : NewTokens) (s : Store)
    → P s
    → ((family : String) → P (revoke_family family s))
    → ((t : MemToken)
        → P (
            touch_client now client_id
              (issue_tokens now t.family_id (grant_from t) n (mark_rotated hash t s))))
    → P (rotate_refresh_token now hash client_id n s).0
unfolding rotate_refresh_token rotate_found
rotate_cases P now hash client_id n s same dead done = elim (Option-cases (lookup hash s.tokens)) [
  | inl e ↦ rw (e, rotate_refresh_token) same
  | inr (t, e) ↦ elim (Bool-cases (is_access t.kind || not (str_eq t.client_id client_id))) [
    | inl bad ↦ rw (e, rotate_refresh_token, bad) same
    | inr good ↦ elim (Bool-cases (is_active t.status)) [
      | inr old ↦ rw (e, rotate_refresh_token, good, rotate_found, old) (dead t.family_id)
      | inl live ↦ elim (Bool-cases (leb t.expires_ms now || not (has_live_account t s))) [
        | inl late ↦ rw (e, rotate_refresh_token, good, rotate_found, live, late) same
        | inr fine ↦ rw (e, rotate_refresh_token, good, rotate_found, live, fine) (done t)
      ]
    ]
  ]
]

register-clients :
    (now : ℕ) (c : OAuthClient) (h : Hooks) (s : Store)
    → Keyed client_key s.clients
    → Keyed client_key (exec h (registers now c) s).clients
unfolding exec register_client
register-clients now c h s w = elim (Option-cases (lookup c.client_id s.clients)) [
  | inl e ↦ rw (e, register_client, exec) (insert-Keyed client_key c.client_id _ s.clients refl w)
  | inr (old, e) ↦ elim (Bool-cases (is_dcr old.registration_type || is_dcr c.registration_type)) [
    | inl bad ↦ rw (exec, register_client, e, bad) w
    | inr good ↦
        rw (exec, register_client, e, good) (insert-Keyed client_key c.client_id _ s.clients refl w)
  ]
]

exec-clients :
    (h : Hooks) (op : Op) (s : Store)
    → Keyed client_key s.clients
    → Keyed client_key (exec h op s).clients
unfolding exec create_account finish_account record_login link_invite delete_account consume_code
    issue_tokens resolve_access_token revoke_token revoke_grant revoke_family
exec-clients h (registers now c) s w = register-clients now c h s w
exec-clients h (cleans now days) s w = unfold cleanup in (keep-Keyed client_key _ s.clients w)
exec-clients h (creates_code now family k c ttl) s w =
    unfold create_code in (touch-clients now c.client_id _ w)
exec-clients h (rotates now hash client_id n) s w =
    rotate_cases (λ x. Keyed client_key x.clients) now hash client_id n s w (λ _. w)
      (λ t. touch-clients now client_id _ w)
exec-clients h (creates_account a t i) s w = subst (Keyed client_key) (ground arith) w
exec-clients h (logs_in now a b) s w = subst (Keyed client_key) (ground arith) w
exec-clients h (links a code) s w = subst (Keyed client_key) (ground arith) w
exec-clients h (deletes_account a) s w = subst (Keyed client_key) (ground arith) w
exec-clients h (consumes_code now k) s w = subst (Keyed client_key) (ground arith) w
exec-clients h (issues now family g n) s w = w
exec-clients h (resolves now k) s w = subst (Keyed client_key) (ground arith) w
exec-clients h (revokes_token k c) s w = subst (Keyed client_key) (ground arith) w
exec-clients h (revokes_grant a c) s w = w

-- Codes.
consume-codes :
    (now : ℕ) (k : String) (s : Store) → IsUnique s.codes → IsUnique (consume_code now k s).0.codes
unfolding consume_code
consume-codes now k s u = elim (Option-cases (lookup k s.codes)) [
  | inl e ↦ rw (e, consume_code) u
  | inr (c, e) ↦ elim (Bool-cases (is_some c.used_ms)) [
    | inl used ↦ rw (e, consume_code, used) u
    | inr fresh ↦ rw (e, consume_code, fresh) (insert-IsUnique k _ s.codes u)
  ]
]

delete-codes : (a : String) (s : Store) → IsUnique s.codes → IsUnique (delete_account a s).0.codes
unfolding delete_account
delete-codes a s u = elim (Option-cases (lookup a s.accounts)) [
  | inl e ↦ rw (e, delete_account) u
  | inr (_, e) ↦ rw (e, delete_account) (keep-IsUnique _ s.codes u)
]

exec-codes : (h : Hooks) (op : Op) (s : Store) → IsUnique s.codes → IsUnique (exec h op s).codes
unfolding exec
exec-codes h (cleans now days) s u = unfold cleanup in (keep-IsUnique _ s.codes u)
exec-codes h (creates_code now family k c ttl) s u =
    unfold create_code in (rw (touch_client-codes now c.client_id) (insert-IsUnique k _ s.codes u))
exec-codes h (consumes_code now k) s u = consume-codes now k s u
exec-codes h (deletes_account a) s u = delete-codes a s u
exec-codes h op s u = rw (simple-codes h op s tt) u

-- Accounts.
login_result-id :
    (now : ℕ) (b : Bool) (a : MemAccount) → (login_result now b a).account_id ≡ a.account_id
unfolding login_result
login_result-id now true a = refl
login_result-id now false a = refl

login-accounts :
    (now : ℕ) (id : String) (b : Bool) (s : Store)
    → Keyed account_key s.accounts
    → Keyed account_key (record_login now id b s).accounts
unfolding record_login
login-accounts now id b s w = elim (Option-cases (lookup id s.accounts)) [
  | inl e ↦ rw (e, record_login) w
  | inr (a, e) ↦
      rw (e, record_login)
        (insert-Keyed account_key id _ s.accounts
          (login_result-id now b a ∙ lookup-key account_key id a s.accounts w e) w)
]

invite_hit-found :
    (h : Hooks) (id code : String) (s : Store) (a : MemAccount) (shop : InviteShop)
    → invite_hit h id code s ≡ some (a, shop)
    → lookup id s.accounts ≡ some a
unfolding invite_hit
invite_hit-found h id code s a shop e = elim (Option-cases (lookup id s.accounts)) [
  | inl missing ↦ ground (arith, missing)
  | inr (x, found) ↦ ground (arith, found)
]

link-accounts :
    (h : Hooks) (id code : String) (s : Store)
    → Keyed account_key s.accounts
    → Keyed account_key (link_invite h id code s).0.accounts
unfolding link_invite
link-accounts h id code s w = elim (Option-cases (invite_hit h id code s)) [
  | inl e ↦ rw (e, link_invite) w
  | inr ((a, shop), e) ↦
      rw (e, link_invite)
        (insert-Keyed account_key id _ s.accounts
          (lookup-key account_key id a s.accounts w (invite_hit-found h id code s a shop e)) w)
]

delete-accounts :
    (a : String) (s : Store)
    → Keyed account_key s.accounts
    → Keyed account_key (delete_account a s).0.accounts
unfolding delete_account delete
delete-accounts a s w = elim (Option-cases (lookup a s.accounts)) [
  | inl e ↦ rw (e, delete_account) w
  | inr (_, e) ↦ rw (e, delete_account) (keep-Keyed account_key _ s.accounts w)
]

create-accounts :
    (h : Hooks) (id tenant : String) (i : AccountInput) (s : Store)
    → Keyed account_key s.accounts
    → Keyed account_key (exec h (creates_account id tenant i) s).accounts
unfolding exec create_account finish_account
create-accounts h id tenant i s w = elim (Bool-cases (email_taken (h.lower i.email) s)) [
  | inl taken ↦ rw (exec, create_account, taken) w
  | inr free ↦ elim (Option-cases (h.provision tenant i.locale)) [
    | inl e ↦ rw (exec, create_account, finish_account, free, e) w
    | inr (name, e) ↦
        rw (exec, create_account, finish_account, free, e)
          (insert-Keyed account_key id _ s.accounts refl w)
  ]
]

exec-accounts :
    (h : Hooks) (op : Op) (s : Store)
    → Keyed account_key s.accounts
    → Keyed account_key (exec h op s).accounts
unfolding exec register_client create_code touch_client consume_code issue_tokens
    resolve_access_token revoke_token revoke_grant revoke_family rotate_refresh_token rotate_found
    cleanup
exec-accounts h (creates_account a t i) s w = create-accounts h a t i s w
exec-accounts h (logs_in now a b) s w = login-accounts now a b s w
exec-accounts h (links a code) s w = link-accounts h a code s w
exec-accounts h (deletes_account a) s w = delete-accounts a s w
exec-accounts h (registers now c) s w = subst (Keyed account_key) (ground arith) w
exec-accounts h (cleans now days) s w = w
exec-accounts h (creates_code now family k c ttl) s w = subst (Keyed account_key) (ground arith) w
exec-accounts h (rotates now hash client_id n) s w = subst (Keyed account_key) (ground arith) w
exec-accounts h (consumes_code now k) s w = subst (Keyed account_key) (ground arith) w
exec-accounts h (issues now family g n) s w = w
exec-accounts h (resolves now k) s w = subst (Keyed account_key) (ground arith) w
exec-accounts h (revokes_token k c) s w = subst (Keyed account_key) (ground arith) w
exec-accounts h (revokes_grant a c) s w = w

exec-IsWellFormed : (h : Hooks) (op : Op) (s : Store) → IsWellFormed s → IsWellFormed (exec h op s)
exec-IsWellFormed h op s w = record {
  clients = exec-clients h op s w.clients;
  accounts = exec-accounts h op s w.accounts;
  codes = exec-codes h op s w.codes;
  tokens = exec-tokens h op s w.tokens;
}

-- Any history of calls keeps the maps of the store well formed: keys are distinct, and every client,
-- account and token stands under its own identifier or hash.
pub run-IsWellFormed :
    (h : Hooks) (ops : List Op) (s : Store) → IsWellFormed s → IsWellFormed (run h ops s)
unfolding run
run-IsWellFormed h [] s w = w
run-IsWellFormed h (op ∷ ops) s w =
    run-IsWellFormed h ops (exec h op s) (exec-IsWellFormed h op s w)
