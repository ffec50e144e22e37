-- ===== src/OAuth/Accounts.antt =====
-- apps/mcp-server/src/oauth/store.ts: owners' accounts. `randomUUID` and the sandbox hooks are
-- arguments; a hook's own state is not the store's, so a call of `remove` is returned.
use groceryclaw.Base.{
  ℕ, ◌+◌, ◌*◌, String, Bool, true, false, not, ◌&&◌, Option, none, some, leb, str_eq, if◌then◌else◌,
  any, find, get_or_else, guard, ◌>>=◌, ◌>>◌,
}
use groceryclaw.Base.Assoc.{lookup, insert, delete, update_all, keep_entries, values}
use groceryclaw.OAuth.{
  Locale, AccountStatus, MemAccount, MemToken, Store, is_enabled, is_active, revoke_if,
}

pub record InviteShop : Type 0 where
  pub tenant_id : String
  pub shop_name : String

-- `MemorySandboxHooks`; `provision` is `none` where the hook throws. `lower` is `toLowerCase`.
pub record Hooks : Type 0 where
  pub lower : String → String
  pub provision : String → Locale → Option String
  pub redeem_invite : String → Option InviteShop

pub record AccountInput : Type 0 where
  pub email : String
  pub password_hash : String
  pub locale : Locale

pub record WebAccount : Type 0 where
  pub account_id : String
  pub email : String
  pub tenant_id : String
  pub shop_name : String
  pub is_sandbox : Bool
  pub locale : Locale
  pub status : AccountStatus

pub record AccountCredentials : Type 0 where
  pub account_id : String
  pub password_hash : String
  pub status : AccountStatus
  pub locked_until_ms : Option ℕ

pub data CreateError : Type 0 where
  account_exists provision_failed : CreateError

pub data CreateResult : Type 0 where
  created : Store → WebAccount → CreateResult
  failed : CreateError → CreateResult

unfoldable pub view : MemAccount → Store → WebAccount
view a s = record {
  account_id = a.account_id;
  email = a.email;
  tenant_id = a.tenant_id;
  shop_name = get_or_else (lookup a.tenant_id s.shop_names) "";
  is_sandbox = a.is_sandbox;
  locale = a.locale;
  status = a.status;
}

-- The check of `createAccount`, before it waits for the hook.
unfoldable pub email_taken : String → Store → Bool
email_taken email s = any (λ a. str_eq a.email email) (values s.accounts)

abbrev pub new_account : String → String → String → AccountInput → MemAccount
new_account account_id tenant_id email i = record {
  account_id = account_id;
  email = email;
  password_hash = i.password_hash;
  tenant_id = tenant_id;
  is_sandbox = true;
  locale = i.locale;
  status = AccountStatus.active;
  failed = 0;
  locked_until_ms = none;
}

-- What `createAccount` does once the hook has answered with the shop's name.
unfoldable pub commit_account : Hooks → String → String → AccountInput → String → Store → Store
commit_account h account_id tenant_id i shop_name s = record s {
  shop_names = insert tenant_id shop_name s.shop_names;
  accounts = insert account_id (new_account account_id tenant_id (h.lower i.email) i) s.accounts;
}

-- `createAccount` from where it has waited for the hook, whose answer is `provisioned`.
unfoldable pub finish_account :
    Hooks → String → String → AccountInput → (provisioned : Option String) → Store → CreateResult
unfolding commit_account view
finish_account h account_id tenant_id i none s = failed provision_failed
finish_account h account_id tenant_id i (some shop_name) s =
    let s' = commit_account h account_id tenant_id i shop_name s in
    created s' (view (new_account account_id tenant_id (h.lower i.email) i) s')

unfoldable pub create_account : Hooks → String → String → AccountInput → Store → CreateResult
unfolding email_taken
create_account h account_id tenant_id i s =
    if email_taken (h.lower i.email) s
    then failed account_exists
    else finish_account h account_id tenant_id i (h.provision tenant_id i.locale) s

unfoldable pub find_credentials : Hooks → String → Store → Option AccountCredentials
find_credentials h email s = do
  a ← find (λ x. str_eq x.email (h.lower email)) (values s.accounts)
  some (record {
    account_id = a.account_id;
    password_hash = a.password_hash;
    status = a.status;
    locked_until_ms = a.locked_until_ms;
  })

abbrev pub max_failures : ℕ
max_failures = 5

abbrev pub lock_ms : ℕ
lock_ms = 15 * 60_000

unfoldable pub login_result : ℕ → Bool → MemAccount → MemAccount
login_result now true a = record a { failed = 0; locked_until_ms = none }
login_result now false a = record a {
  failed = a.failed + 1;
  locked_until_ms =
      if leb max_failures (a.failed + 1) then some (now + lock_ms) else a.locked_until_ms;
}

unfoldable pub record_login : ℕ → String → Bool → Store → Store
unfolding login_result
record_login now account_id success s = elim (lookup account_id s.accounts) [
  | none ↦ s
  | some a ↦ record s { accounts = insert account_id (login_result now success a) s.accounts }
]

unfoldable pub get_account : String → Store → Option WebAccount
unfolding view
get_account account_id s = do a ← lookup account_id s.accounts; some (view a s)

abbrev pub is_active_of : String → MemToken → Bool
is_active_of account_id t = str_eq t.account_id account_id && is_active t.status

-- The account and the shop of the invite; the code is redeemed only for an active account.
unfoldable pub invite_hit : Hooks → String → String → Store → Option (MemAccount × InviteShop)
invite_hit h account_id code s = do
  a ← lookup account_id s.accounts
  guard (is_enabled a.status)
  shop ← h.redeem_invite code
  some (a, shop)

-- `none` is `{ ok: false, tenantId: null }`.
unfoldable pub link_invite : Hooks → String → String → Store → Store × Option String
unfolding invite_hit
link_invite h account_id code s = elim (invite_hit h account_id code s) [
  | none ↦ (s, none)
  | some (a, shop) ↦ (
    record s {
      accounts =
          insert account_id (record a { tenant_id = shop.tenant_id; is_sandbox = false })
            s.accounts;
      shop_names = insert shop.tenant_id shop.shop_name s.shop_names;
      tokens = update_all (revoke_if (is_active_of account_id)) s.tokens;
    },
    some shop.tenant_id,
  )
]

-- With the tenant whose sandbox the hook `remove` is asked to drop.
unfoldable pub delete_account : String → Store → Store × Option String
delete_account account_id s = elim (lookup account_id s.accounts) [
  | none ↦ (s, none)
  | some a ↦ (
    record s {
      accounts = delete account_id s.accounts;
      tokens = keep_entries (λ _ t. not (str_eq t.account_id account_id)) s.tokens;
      codes = keep_entries (λ _ c. not (str_eq c.account_id account_id)) s.codes;
    },
    some a.tenant_id,
  )
]
