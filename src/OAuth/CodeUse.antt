-- ===== src/OAuth/CodeUse.antt =====
-- An authorization code of apps/mcp-server/src/oauth/store.ts is exchanged once.
use groceryclaw.OAuth.Families.{
  LeavesFamily, FamilyRevoked, run-FamilyRevoked, revoke_family-FamilyRevoked,
}
use groceryclaw.Base.{
  ℕ, String, true, ◌≡◌, refl, ◌≢◌, inl, inr, Option-cases, Bool-cases, arith, is_some, List, All,
  some, ◌∷◌, ◌↔◌, none, ◌<◌, [],
}
use groceryclaw.Base.Assoc.{
  lookup, Each, Each-insert, Each-keep, IsUnique, Each-lookup, Each-key_insert, Each-key_of_none,
  Each-key_of_lookup,
}
use groceryclaw.OAuth.{Store, AuthCodeRecord, MemCode}
use groceryclaw.OAuth.Accounts.{
  Hooks, create_account, record_login, link_invite, delete_account, finish_account,
}
use groceryclaw.OAuth.Clients.{register_client, cleanup}
use groceryclaw.OAuth.Codes.{consume_code, create_code, consumed, reused}
use groceryclaw.OAuth.Tokens.{
  NewTokens, issue_tokens, resolve_access_token, rotate_refresh_token, rotate_found, revoke_token,
  revoke_grant, revoke_family, touch_client,
}
use groceryclaw.OAuth.History.{
  Op, registers, cleans, creates_account, logs_in, links, deletes_account, creates_code,
  consumes_code, issues, resolves, rotates, revokes_token, revokes_grant, exec, run,
}

-- The code of this hash, if it is stored, was presented before.
abbrev pub Spent : String → Store → Type 0
Spent hash s = Each (λ k c. k ≡ hash → is_some c.used_ms ≡ true) s.codes

-- A call that does not store a code under this hash.
abbrev pub LeavesCode : String → Op → Type 0
LeavesCode hash (creates_code now family k c ttl) = k ≢ hash
LeavesCode hash _ = Unit {0}

pub touch_client-codes :
    (now : ℕ) (id : String) (s : Store) → (touch_client now id s).codes ≡ s.codes
unfolding touch_client
touch_client-codes now id s = ground arith

pub rotate-codes :
    (now : ℕ) (hash client_id : String) (n : NewTokens) (s : Store)
    → (rotate_refresh_token now hash client_id n s).0.codes ≡ s.codes
unfolding rotate_refresh_token rotate_found
rotate-codes now hash client_id n s = ground arith

consume-Spent :
    (now : ℕ) (k hash : String) (s : Store) → Spent hash s → Spent hash (consume_code now k s).0
unfolding consume_code
consume-Spent now k hash s e = elim (Option-cases (lookup k s.codes)) [
  | inl missing ↦ rw (missing, consume_code) e
  | inr (c, found) ↦ elim (Bool-cases (is_some c.used_ms)) [
    | inl used ↦ rw (found, consume_code, used) e
    | inr fresh ↦
        rw (found, consume_code, fresh)
          (Each-insert (λ j x. j ≡ hash → is_some x.used_ms ≡ true) k _ s.codes (λ _. refl) e)
  ]
]

delete-Spent : (a hash : String) (s : Store) → Spent hash s → Spent hash (delete_account a s).0
unfolding delete_account
delete-Spent a hash s e = elim (Option-cases (lookup a s.accounts)) [
  | inl missing ↦ rw (missing, delete_account) e
  | inr (_, found) ↦
      rw (found, delete_account)
        (Each-keep (λ j x. j ≡ hash → is_some x.used_ms ≡ true) _ s.codes e)
]

-- The calls that do not touch the codes.
abbrev IsPlain : Op → Type 0
IsPlain (cleans now days) = ⊥
IsPlain (creates_code now family k c ttl) = ⊥
IsPlain (consumes_code now k) = ⊥
IsPlain (deletes_account a) = ⊥
IsPlain _ = Unit {0}

pub simple-codes : (h : Hooks) (op : Op) (s : Store) → IsPlain op → (exec h op s).codes ≡ s.codes
unfolding exec register_client create_account finish_account record_login link_invite issue_tokens
    resolve_access_token revoke_token revoke_grant revoke_family rotate_refresh_token rotate_found
    touch_client
simple-codes h (registers now c) s p = ground arith
simple-codes h (creates_account a t i) s p = ground arith
simple-codes h (logs_in now a b) s p = ground arith
simple-codes h (links a code) s p = ground arith
simple-codes h (issues now family g n) s p = refl
simple-codes h (resolves now hash) s p = ground arith
simple-codes h (rotates now hash client_id n) s p = rotate-codes now hash client_id n s
simple-codes h (revokes_token hash client_id) s p = ground arith
simple-codes h (revokes_grant a client_id) s p = refl
simple-codes h _ s p = elim p [ ]

exec-Spent :
    (h : Hooks) (hash : String) (op : Op) (s : Store)
    → Spent hash s
    → LeavesCode hash op
    → Spent hash (exec h op s)
unfolding exec
exec-Spent h hash (cleans now days) s e l =
    unfold cleanup in (Each-keep (λ j x. j ≡ hash → is_some x.used_ms ≡ true) _ s.codes e)
exec-Spent h hash (creates_code now family k c ttl) s e l =
    unfold create_code in
    (rw (touch_client-codes now c.client_id) (
      Each-insert (λ j x. j ≡ hash → is_some x.used_ms ≡ true) k _ s.codes (λ same. absurd (l same))
        e))
exec-Spent h hash (consumes_code now k) s e l = consume-Spent now k hash s e
exec-Spent h hash (deletes_account a) s e l = delete-Spent a hash s e
exec-Spent h hash op s e l = rw (simple-codes h op s tt) e

pub run-Spent :
    (h : Hooks) (hash : String) (ops : List Op) (s : Store)
    → Spent hash s
    → All (LeavesCode hash) ops
    → Spent hash (run h ops s)
unfolding run
run-Spent h hash [] s e l = e
run-Spent h hash (op ∷ ops) s e l =
    run-Spent h hash ops (exec h op s) (exec-Spent h hash op s e l.0) l.1

-- Presenting a code spends it, whatever the answer.
pub consume-Spent_after :
    (now : ℕ) (hash : String) (s : Store)
    → IsUnique s.codes
    → Spent hash (consume_code now hash s).0
unfolding consume_code
consume-Spent_after now hash s u = elim (Option-cases (lookup hash s.codes)) [
  | inl missing ↦
      rw (missing, consume_code)
        (Each-key_of_none (λ y. is_some y.used_ms ≡ true) hash s.codes missing)
  | inr (x, found) ↦ elim (Bool-cases (is_some x.used_ms)) [
    | inl used ↦
        rw (found, consume_code, used)
          (Each-key_of_lookup (λ y. is_some y.used_ms ≡ true) hash x s.codes u found used)
    | inr fresh ↦
        rw (found, consume_code, fresh)
          (Each-key_insert (λ y. is_some y.used_ms ≡ true) hash _ s.codes u refl)
  ]
]

pub Spent-consume :
    (now : ℕ) (hash : String) (s : Store) (c : AuthCodeRecord)
    → Spent hash s
    → (consume_code now hash s).1 ≢ consumed c
unfolding consume_code
Spent-consume now hash s c spent e = elim (Option-cases (lookup hash s.codes)) [
  | inl missing ↦ ground (arith, missing)
  | inr (x, found) ↦ ground (arith, found, Each-lookup _ hash s.codes x spent found refl)
]

-- A code that was presented once, with whatever answer, is not exchanged afterwards, at any time and
-- after any calls, provided that none of them stores a new code with the same hash.
pub consume_once :
    (h : Hooks) (now later : ℕ) (hash : String) (ops : List Op) (s : Store) (c : AuthCodeRecord)
    → IsUnique s.codes
    → All (LeavesCode hash) ops
    → (consume_code later hash (run h ops (consume_code now hash s).0)).1 ≢ consumed c
consume_once h now later hash ops s c u l =
    Spent-consume later hash _ c (run-Spent h hash ops _ (consume-Spent_after now hash s u) l)

-- What a code must be to be exchanged: stored, never presented, and not past its expiry; and then
-- its record is the answer.
pub consume-eq-consumed_iff :
    (now : ℕ) (hash : String) (s : Store) (c : AuthCodeRecord)
    → ((consume_code now hash s).1 ≡ consumed c) ↔ (
        (x : MemCode) × (lookup hash s.codes ≡ some x)
        × (x.used_ms ≡ none)
        × (now < x.expires_ms)
        × (x.code ≡ c))
unfolding consume_code
consume-eq-consumed_iff now hash s c = (forth, back)
  where
    forth :
        (consume_code now hash s).1 ≡ consumed c
        → (x : MemCode) × (lookup hash s.codes ≡ some x)
          × (x.used_ms ≡ none)
          × (now < x.expires_ms)
          × (x.code ≡ c)
    forth e = elim (Option-cases (lookup hash s.codes)) [
      | inl missing ↦ ground (arith, missing)
      | inr (x, found) ↦
          (x, found, ground (arith, found), ground (arith, found), ground (arith, found))
    ]

    back :
        ((x : MemCode) × (lookup hash s.codes ≡ some x)
          × (x.used_ms ≡ none)
          × (now < x.expires_ms)
          × (x.code ≡ c))
        → (consume_code now hash s).1 ≡ consumed c
    back (x, found, fresh, early, same) = ground (arith, found, fresh, early, same)

-- A code that is presented again after an exchange revokes every token of its family, and no later
-- call brings one back, unless it exchanges a code of that family.
pub code_reuse_ends_family :
    (h : Hooks) (now later : ℕ) (hash : String) (ops : List Op) (s : Store) (x : MemCode)
    → lookup hash s.codes ≡ some x
    → x.used_ms ≢ none
    → All (LeavesFamily x.family_id) ops
    → ((consume_code now hash s).1 ≡ reused)
      × FamilyRevoked x.family_id (run h ops (consume_code now hash s).0)
unfolding consume_code
code_reuse_ends_family h now later hash ops s x found used l = elim (Option-cases x.used_ms) [
  | inl fresh ↦ absurd (used fresh)
  | inr (t, e) ↦
      rw (found, consume_code, e)
        (
          refl,
          run-FamilyRevoked h x.family_id ops (revoke_family x.family_id s)
              (revoke_family-FamilyRevoked x.family_id s) l,
        )
]
