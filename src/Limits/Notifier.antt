-- ===== src/Limits/Notifier.antt =====
-- packages/common/src/notifier-rate-limit.ts: the three limits of an outgoing message.
use groceryclaw.Limits.Bucket.{Buckets, consume}
use Prim.Native.String
use groceryclaw.Base.{ℕ, String, Bool, true, false, not, Option, none, some, if◌then◌else◌, str_eq}

pub record NotifierConfig : Type 0 where
  pub enabled : Bool
  pub global_per_minute : ℕ
  pub per_tenant_per_minute : ℕ
  pub per_user_burst : ℕ

pub data Scope : Type 0 where
  global tenant_scope user_scope disabled : Scope

pub record Outcome : Type 0 where
  pub passed : Bool
  pub scope : Scope

-- The tokens of the three limiters.
pub record Limiters : Type 0 where
  pub globals : Buckets
  pub tenants : Buckets
  pub users : Buckets

abbrev pub global_key : String
global_key = "notifier:global"

abbrev pub tenant_key : String → String
tenant_key t = String.◌++◌ "notifier:tenant:" t

abbrev pub user_key : String → String
user_key u = String.◌++◌ "notifier:user:" u

-- `input.tenantId && !consume(...)`: an absent or empty tenant is not counted.
abbrev pub has_tenant : Option String → Option String
has_tenant none = none
has_tenant (some t) = if str_eq t "" then none else some t

unfoldable pub consume_tenant :
    NotifierConfig → (now : ℕ) → Option String → Buckets → Buckets × Bool
consume_tenant cfg now tenant bs = elim (has_tenant tenant) [
  | none ↦ (bs, true)
  | some t ↦
      let (bs', d) =
        consume cfg.per_tenant_per_minute cfg.per_tenant_per_minute now (tenant_key t) 1 bs in
      (bs', d.allowed)
]

unfoldable pub consume_message :
    NotifierConfig → (now : ℕ) → Option String → String → Limiters → Limiters × Outcome
unfolding consume_tenant
consume_message cfg now tenant user l =
    if not cfg.enabled
    then (l, record { passed = true; scope = disabled })
    else (let (gs, g) =
          consume cfg.global_per_minute cfg.global_per_minute now global_key 1 l.globals in
        let (ts, t) = consume_tenant cfg now tenant l.tenants in
        let (us, u) = consume cfg.per_user_burst cfg.per_user_burst now (user_key user) 1 l.users in
        if not g.allowed
        then (record l { globals = gs }, record { passed = false; scope = global })
        else if not t
        then (
          record l { globals = gs; tenants = ts },
          record { passed = false; scope = tenant_scope },
        )
        else if not u.allowed
        then (
          record { globals = gs; tenants = ts; users = us },
          record { passed = false; scope = user_scope },
        )
        else (
          record { globals = gs; tenants = ts; users = us },
          record { passed = true; scope = global },
        ))
