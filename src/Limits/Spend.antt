-- ===== src/Limits/Spend.antt =====
-- apps/alexa-sim/src/spend-guard.ts, `SpendGuard`. The day is the UTC day number of the clock, and spending
-- is counted in a fixed fraction of a dollar. A cost that is not a positive finite number is 0.
use groceryclaw.Base.{
  ℕ, suc, ◌+◌, Bool, true, false, ◌||◌, Option, none, some, if◌then◌else◌, leb, ◌==◌,
}

pub record SpendGuard : Type 0 where
  pub day : Option ℕ
  pub turns : ℕ
  pub spent : ℕ

abbrev pub new_guard : SpendGuard
new_guard = record { day = none; turns = 0; spent = 0 }

abbrev pub is_day : Option ℕ → ℕ → Bool
is_day none n = false
is_day (some d) n = d == n

unfoldable pub roll : (today : ℕ) → SpendGuard → SpendGuard
roll today g = if is_day g.day today then g else record { day = some today; turns = 0; spent = 0 }

-- A use of the guard, at the day that its clock reads.
pub data Use : Type 0 where
  start_turn : (today : ℕ) → Use
  cost_of : (today cost : ℕ) → Use

module _ (turn_cap budget : ℕ) where
  unfoldable pub try_start_turn : (today : ℕ) → SpendGuard → SpendGuard × Bool
  unfolding roll
  try_start_turn today g =
      let r = roll today g in
      if leb turn_cap r.turns || leb budget r.spent
      then (r, false)
      else (record r { turns = suc r.turns }, true)

  unfoldable pub record_cost : (today cost : ℕ) → SpendGuard → SpendGuard
  unfolding roll
  record_cost today cost g = let r = roll today g in record r { spent = r.spent + cost }

  -- Whether `status` says that the day's limit is reached.
  unfoldable pub exhausted : (today : ℕ) → SpendGuard → Bool
  unfolding roll
  exhausted today g = let r = roll today g in leb turn_cap r.turns || leb budget r.spent

  -- The guard after a use, and 1 where it was a turn that was let through.
  abbrev pub use_guard : SpendGuard → Use → SpendGuard × ℕ
  use_guard g (start_turn today) =
      let (g', ok) = try_start_turn today g in (g', if ok then 1 else 0)
  use_guard g (cost_of today cost) = (record_cost today cost g, 0)
