-- ===== src/OAuth/Access.antt =====
-- When an access token grants anything (apps/mcp-server/src/oauth/store.ts, `resolveAccessToken`).
use groceryclaw.Base.{ℕ, String, some, ◌≡◌, inl, inr, ◌↔◌, Option-cases, arith}
use groceryclaw.OAuth.{MemAccount, MemToken, Store}
use groceryclaw.OAuth.Tokens.{AccessGrant, grant_of, resolve_access_token, usable_token}
use groceryclaw.OAuth.Tracking.{IsUsable, usable_token-IsUsable, IsUsable-usable_token}

-- An access token resolves to a grant exactly when it is a stored access token, active and not yet
-- expired, whose account exists and is active; the grant is then that token's and that account's.
pub resolve-eq-some_iff :
    (now : ℕ) (hash : String) (s : Store) (g : AccessGrant)
    → ((resolve_access_token now hash s).1 ≡ some g)
      ↔ ((t : MemToken) × (a : MemAccount) × IsUsable now hash s t a × (grant_of t a ≡ g))
unfolding resolve_access_token
resolve-eq-some_iff now hash s g = (forth, back)
  where
    forth :
        (resolve_access_token now hash s).1 ≡ some g
        → (t : MemToken) × (a : MemAccount) × IsUsable now hash s t a × (grant_of t a ≡ g)
    forth e = elim (Option-cases (usable_token now hash s)) [
      | inl unusable ↦ absurd (ground (arith, unusable))
      | inr ((t, a), usable) ↦
          (t, a, usable_token-IsUsable now hash s t a usable, ground (arith, usable))
    ]

    back :
        ((t : MemToken) × (a : MemAccount) × IsUsable now hash s t a × (grant_of t a ≡ g))
        → (resolve_access_token now hash s).1 ≡ some g
    back (t, a, u, e) = ground (arith, IsUsable-usable_token now hash s t a u, e)
