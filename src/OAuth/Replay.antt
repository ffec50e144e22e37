-- ===== src/OAuth/Replay.antt =====
-- Replay protection of apps/mcp-server/src/oauth/store.ts: a refresh token and an authorization code
-- each work once, and presenting one again ends the family.
use groceryclaw.Base.{
  ℕ, String, true, false, List, [], ◌∷◌, none, some, ◌≡◌, refl, ◌≢◌, inl, inr, Option-cases, arith,
  All, leb, str_eq_iff,
}
use groceryclaw.Base.Assoc.{Assoc, lookup, Each, Each-lookup, IsUnique, Each-key_insert}
use groceryclaw.OAuth.{MemToken, TokenStatus, Store, is_active, is_access}
use groceryclaw.OAuth.Accounts.{Hooks}
use groceryclaw.OAuth.Tokens.{
  NewTokens, rotated_ok, reuse, resolve_access_token, rotate_refresh_token, rotate_found,
  revoke_family, has_live_account, mark_rotated, issue_tokens, grant_from, touch_client,
}
use groceryclaw.OAuth.History.{
  Op, issues, rotates, registers, exec, run, Evolves-Each, Evolves, start, Allowed,
  issue_tokens-Evolves, touch_client-Evolves,
}
use groceryclaw.OAuth.Tracking.{exec-Evolves}
use groceryclaw.OAuth.Families.{
  LeavesFamily, run-FamilyRevoked, revoke_family-FamilyRevoked, FamilyRevoked-resolve,
}

-- The token of this hash, if it is stored, is no longer active.
abbrev pub Retired : String → Assoc MemToken → Type 0
Retired hash m = Each (λ k t. k ≡ hash → is_active t.status ≡ false) m

-- The new hashes differ from this one (they are digests of fresh random tokens).
abbrev pub IssuesOther : String → NewTokens → Type 0
IssuesOther hash n = (n.access_hash ≢ hash) × ((r : String) → n.refresh_hash ≡ some r → r ≢ hash)

-- A call that does not issue a token with this hash.
abbrev pub LeavesHash : String → Op → Type 0
LeavesHash hash (issues now family g n) = IssuesOther hash n
LeavesHash hash (rotates now h client_id n) = IssuesOther hash n
LeavesHash hash _ = Unit {0}

abbrev OtherHash : String → String → MemToken → Type 0
OtherHash hash k _ = k ≢ hash

exec-Allowed :
    (hash : String) (op : Op) (s : Store) → LeavesHash hash op → Allowed (OtherHash hash) op s
exec-Allowed hash (issues now family g n) s l = l
exec-Allowed hash (rotates now h client_id n) s l = λ t found live. l
exec-Allowed hash (registers now c) s l = tt
exec-Allowed hash _ s l = tt

Evolves-Retired :
    (hash : String) {m n : Assoc MemToken}
    → Retired hash m
    → Evolves (OtherHash hash) m n
    → Retired hash n
Evolves-Retired hash r e =
    Evolves-Each (OtherHash hash) _ (λ k t t' aged p e. aged.dead (p e)) (λ k t ne e. absurd (ne e))
      r e

run-Retired :
    (h : Hooks) (hash : String) (ops : List Op) (s : Store)
    → Retired hash s.tokens
    → All (LeavesHash hash) ops
    → Retired hash (run h ops s).tokens
unfolding run
run-Retired h hash [] s r l = r
run-Retired h hash (op ∷ ops) s r l =
    run-Retired h hash ops (exec h op s)
      (Evolves-Retired hash r (exec-Evolves (OtherHash hash) h op s (exec-Allowed hash op s l.0)))
      l.1

-- A retired refresh token is not exchanged.
Retired-rotate :
    (now : ℕ) (hash client_id : String) (n : NewTokens) (s : Store) (a : String) (sc : List String)
    (r : String)
    → Retired hash s.tokens
    → (rotate_refresh_token now hash client_id n s).1 ≢ rotated_ok a sc r
unfolding rotate_refresh_token
Retired-rotate now hash client_id n s a sc r retired e =
    elim (Option-cases (lookup hash s.tokens)) [
      | inl missing ↦ ground (arith, missing)
      | inr (t, found) ↦ ground (arith, found, Each-lookup _ hash s.tokens t retired found refl)
    ]

-- What a rotation that succeeds has checked.
pub record IsRotatable (now : ℕ) (hash client_id : String) (s : Store) (t : MemToken) : Type 0 where
  pub found : lookup hash s.tokens ≡ some t
  pub kind : is_access t.kind ≡ false
  pub client : t.client_id ≡ client_id
  pub live : is_active t.status ≡ true
  pub unexpired : leb t.expires_ms now ≡ false
  pub account : has_live_account t s ≡ true

rotate-IsRotatable :
    (now : ℕ) (hash client_id : String) (n : NewTokens) (s : Store) (a : String) (sc : List String)
    (r : String)
    → (rotate_refresh_token now hash client_id n s).1 ≡ rotated_ok a sc r
    → (t : MemToken) × IsRotatable now hash client_id s t
unfolding rotate_refresh_token
rotate-IsRotatable now hash client_id n s a sc r e = elim (Option-cases (lookup hash s.tokens)) [
  | inl missing ↦ ground (arith, missing)
  | inr (t, found) ↦ (t, ground (arith, found, str_eq_iff t.client_id client_id))
]

IsRotatable-rotate :
    (now : ℕ) (hash client_id : String) (n : NewTokens) (s : Store) (t : MemToken)
    → IsRotatable now hash client_id s t
    → rotate_refresh_token now hash client_id n s ≡ (
      touch_client now client_id
          (issue_tokens now t.family_id (grant_from t) n (mark_rotated hash t s)),
      rotated_ok t.account_id t.scopes t.resource,
    )
unfolding rotate_refresh_token rotate_found
IsRotatable-rotate now hash client_id n s t c = rw (
  c.found,
  rotate_refresh_token,
  c.kind,
  (str_eq_iff t.client_id client_id).1 c.client,
  c.live,
  c.unexpired,
  c.account,
)

rotate-Retired :
    (now : ℕ) (hash client_id : String) (n : NewTokens) (s : Store) (t : MemToken)
    → IsUnique s.tokens
    → IssuesOther hash n
    → IsRotatable now hash client_id s t
    → Retired hash (rotate_refresh_token now hash client_id n s).0.tokens
rotate-Retired now hash client_id n s t u other c =
    rw (IsRotatable-rotate now hash client_id n s t c) (
      Evolves-Retired hash
        (Each-key_insert (λ x. is_active x.status ≡ false) hash _ s.tokens u refl)
        (touch_client-Evolves (OtherHash hash) now client_id
          (issue_tokens now t.family_id (grant_from t) n (mark_rotated hash t s))
          (issue_tokens-Evolves (OtherHash hash) now t.family_id (grant_from t) n
            (mark_rotated hash t s) other start)))

-- A refresh token that was exchanged is never exchanged again, by any client, at any time and after
-- any calls, provided that none of them issues a token with the same hash.
pub rotate_once :
    (h : Hooks) (now later : ℕ) (hash client_id client' : String) (n n' : NewTokens) (ops : List Op)
    (s : Store) (a a' : String) (sc sc' : List String) (r r' : String)
    → IsUnique s.tokens
    → IssuesOther hash n
    → All (LeavesHash hash) ops
    → (rotate_refresh_token now hash client_id n s).1 ≡ rotated_ok a sc r
    → (rotate_refresh_token later hash client' n'
        (run h ops (rotate_refresh_token now hash client_id n s).0)).1
      ≢ rotated_ok a' sc' r'
rotate_once h now later hash client_id client' n n' ops s a a' sc sc' r r' u other l e =
    let (t, c) = rotate-IsRotatable now hash client_id n s a sc r e in
    Retired-rotate later hash client' n' _ a' sc' r'
      (run-Retired h hash ops _ (rotate-Retired now hash client_id n s t u other c) l)

-- Why a rotation reports a reuse, and what it then does.
rotate-reuse :
    (now : ℕ) (hash client_id : String) (n : NewTokens) (s : Store)
    → (rotate_refresh_token now hash client_id n s).1 ≡ reuse
    → (t : MemToken) × (lookup hash s.tokens ≡ some t)
      × ((rotate_refresh_token now hash client_id n s).0 ≡ revoke_family t.family_id s)
unfolding rotate_refresh_token rotate_found
rotate-reuse now hash client_id n s e = elim (Option-cases (lookup hash s.tokens)) [
  | inl missing ↦ ground (arith, missing)
  | inr (t, found) ↦ (t, found, ground (arith, found))
]

-- Once a rotation has reported a reuse, no token of the family of the token that was presented is a
-- grant any more, at any time and after any calls, unless a code of that family is exchanged anew.
pub reuse_ends_family :
    (h : Hooks) (now later : ℕ) (hash client_id : String) (n : NewTokens) (ops : List Op)
    (s : Store) (t : MemToken) (k : String) (x : MemToken)
    → (rotate_refresh_token now hash client_id n s).1 ≡ reuse
    → lookup hash s.tokens ≡ some t
    → All (LeavesFamily t.family_id) ops
    → lookup k (run h ops (rotate_refresh_token now hash client_id n s).0).tokens ≡ some x
    → x.family_id ≡ t.family_id
    → (x.status ≡ TokenStatus.revoked)
      × ((resolve_access_token later k
            (run h ops (rotate_refresh_token now hash client_id n s).0)).1
          ≡ none)
reuse_ends_family h now later hash client_id n ops s t k x e found l fx same =
    let (t', found', s'≡) = rotate-reuse now hash client_id n s e in
    let f≡ : t'.family_id ≡ t.family_id = cc in
    let dead =
      run-FamilyRevoked h t.family_id ops (rotate_refresh_token now hash client_id n s).0
        (rw (s'≡, f≡) (revoke_family-FamilyRevoked t.family_id s)) l in
    (Each-lookup _ k _ x dead fx same, FamilyRevoked-resolve t.family_id later k _ x dead fx same)
