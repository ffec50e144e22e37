-- ===== src/Limits.antt =====
-- The limiters: packages/common/src/rate-limiter.ts, packages/common/src/notifier-rate-limit.ts and
-- apps/alexa-sim/src/spend-guard.ts.
pub mod Bucket
pub mod Allowance
pub mod Messages
pub mod Day
pub mod Notifier
pub mod Spend
pub mod Examples
use groceryclaw.Base.{
  ℕ, zero, suc, ◌+◌, ◌-◌, ◌*◌, ◌/◌, ◌%◌, ◌≤◌, ◌<◌, ◌↔◌, ◌⊎◌, String, Bool, true, false, not, ◌&&◌,
  ◌||◌, List, [], ◌∷◌, ◌++◌, map, Option, none, some, ◌≡◌, refl, ◌≢◌, inl, inr, if◌then◌else◌,
  Option-cases, Bool-cases, arith, leb, ltb, ◌==◌, sym, ◌∙◌, ap, subst, str_eq, str_eq_iff,
  str_eq_refl, is_some, any, find, keep_if, length, length-append, guard, ◌>>=◌, ◌>>◌, includes,
  get_or_else, All, max, min, drop,
}

-- What the code counts in fractions of a token, the model counts in 60 000ths of one: with `rate` tokens a
-- minute, a millisecond brings `rate` of them. `Math.floor` of a count is then its quotient by `unit`.
abbrev pub unit : ℕ
unit = 60000
