-- ===== src/OAuth/SignUp.antt =====
-- Accounts and their e-mail addresses (apps/mcp-server/src/oauth/store.ts, `createAccount` and
-- `findCredentials`).
use groceryclaw.Base.{String, Bool, false, [], ◌∷◌, ◌≡◌, str_eq, any}
use groceryclaw.Base.Assoc.{Assoc, values}
use groceryclaw.OAuth.{MemAccount}

abbrev pub has_email : String → MemAccount → Bool
has_email email a = str_eq a.email email

-- No two accounts have the same (lower-case) address.
abbrev pub DistinctEmails : Assoc MemAccount → Type 0
DistinctEmails [] = Unit
DistinctEmails ((k, a) ∷ m) = (any (has_email a.email) (values m) ≡ false) × DistinctEmails m
