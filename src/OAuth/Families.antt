-- ===== src/OAuth/Families.antt =====
-- A token family (apps/mcp-server/src/oauth/store.ts, `familyId`) that was revoked stays so.
use groceryclaw.Base.{
  ℕ, String, false, List, [], ◌∷◌, none, some, ◌≡◌, ◌≢◌, arith, All, sym, ◌∙◌, str_eq, str_eq_iff,
}
use groceryclaw.Base.Assoc.{Assoc, lookup, update_all, Each, Each-lookup}
use groceryclaw.OAuth.{MemToken, TokenStatus, Store, is_active, revoke_if}
use groceryclaw.OAuth.Accounts.{Hooks}
use groceryclaw.OAuth.Tokens.{
  Grant, NewTokens, resolve_access_token, revoke_family, usable_token, new_token,
}
use groceryclaw.OAuth.History.{
  Op, issues, rotates, registers, exec, run, Evolves-Each, Allowed, IssuesOk,
}
use groceryclaw.OAuth.Tracking.{exec-Evolves}

-- Every token of the family is revoked.
abbrev pub FamilyRevoked : String → Store → Type 0
FamilyRevoked f s = Each (λ _ t. t.family_id ≡ f → t.status ≡ TokenStatus.revoked) s.tokens

-- A call that does not exchange a code of the family for tokens.
abbrev pub LeavesFamily : String → Op → Type 0
LeavesFamily f (issues now family g n) = family ≢ f
LeavesFamily f _ = Unit {0}

abbrev OtherFamily : String → String → MemToken → Type 0
OtherFamily f _ t = t.family_id ≢ f

revoked-not-active : (t : MemToken) → t.status ≡ TokenStatus.revoked → is_active t.status ≡ false
revoked-not-active t e = rw e

other-IssuesOk :
    (f : String) (now : ℕ) (family : String) (g : Grant) (n : NewTokens)
    → family ≢ f
    → IssuesOk (OtherFamily f) now family g n
unfolding new_token
other-IssuesOk f now family g n ne = (ne, λ _ _. ne)

exec-Allowed :
    (f : String) (op : Op) (s : Store)
    → FamilyRevoked f s
    → LeavesFamily f op
    → Allowed (OtherFamily f) op s
exec-Allowed f (issues now family g n) s dead l = other-IssuesOk f now family g n l
exec-Allowed f (rotates now hash client_id n) s dead l = λ t found live.
    other-IssuesOk f now t.family_id _ n
      (λ e. cc (live, revoked-not-active t (Each-lookup _ hash s.tokens t dead found e)))
exec-Allowed f (registers now c) s dead l = tt
exec-Allowed f _ s dead l = tt

pub exec-FamilyRevoked :
    (h : Hooks) (f : String) (op : Op) (s : Store)
    → FamilyRevoked f s
    → LeavesFamily f op
    → FamilyRevoked f (exec h op s)
exec-FamilyRevoked h f op s dead l =
    Evolves-Each (OtherFamily f) _ (λ k t t' aged p e. aged.revoked (p (sym aged.family ∙ e)))
      (λ k t ne e. absurd (ne e)) dead
      (exec-Evolves (OtherFamily f) h op s (exec-Allowed f op s dead l))

pub run-FamilyRevoked :
    (h : Hooks) (f : String) (ops : List Op) (s : Store)
    → FamilyRevoked f s
    → All (LeavesFamily f) ops
    → FamilyRevoked f (run h ops s)
unfolding run
run-FamilyRevoked h f [] s dead l = dead
run-FamilyRevoked h f (op ∷ ops) s dead l =
    run-FamilyRevoked h f ops (exec h op s) (exec-FamilyRevoked h f op s dead l.0) l.1

revoke_all-FamilyRevoked :
    (f : String) (m : Assoc MemToken)
    → Each
        (λ _ t. t.family_id ≡ f → t.status ≡ TokenStatus.revoked)
        (update_all (revoke_if λ t. str_eq t.family_id f) m)
unfolding update_all
revoke_all-FamilyRevoked f [] = tt
revoke_all-FamilyRevoked f ((k, t) ∷ m) =
    (λ e. ground (arith, str_eq_iff t.family_id f), revoke_all-FamilyRevoked f m)

pub revoke_family-FamilyRevoked : (f : String) (s : Store) → FamilyRevoked f (revoke_family f s)
unfolding revoke_family
revoke_family-FamilyRevoked f s = revoke_all-FamilyRevoked f s.tokens

-- No token of the family stands for a grant.
pub FamilyRevoked-resolve :
    (f : String) (now : ℕ) (hash : String) (s : Store) (t : MemToken)
    → FamilyRevoked f s
    → lookup hash s.tokens ≡ some t
    → t.family_id ≡ f
    → (resolve_access_token now hash s).1 ≡ none
unfolding resolve_access_token usable_token
FamilyRevoked-resolve f now hash s t dead found e =
    ground (arith, found, Each-lookup _ hash s.tokens t dead found e)
