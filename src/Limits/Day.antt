-- ===== src/Limits/Day.antt =====
-- What the spending guard lets through in a day (apps/alexa-sim/src/spend-guard.ts).
use groceryclaw.Limits.Spend.{
  Use, SpendGuard, try_start_turn, is_day, use_guard, record_cost, start_turn, roll, cost_of,
}
use groceryclaw.Base.{ℕ, ◌+◌, ◌≤◌, List, [], ◌∷◌, ◌≡◌, if◌then◌else◌, arith, All}

abbrev pub day_of : Use → ℕ
day_of (start_turn today) = today
day_of (cost_of today cost) = today

module _ (turn_cap budget : ℕ) where
  -- How many turns a list of uses starts, and the guard after them.
  unfoldable pub run_uses : List Use → SpendGuard → SpendGuard × ℕ
  run_uses [] g = (g, 0)
  run_uses (u ∷ us) g =
      let (g₁, n) = use_guard turn_cap budget g u in let (g₂, m) = run_uses us g₁ in (g₂, n + m)

  -- The turns of the day so far.
  abbrev turns_on : (today : ℕ) → SpendGuard → ℕ
  turns_on today g = if is_day g.day today then g.turns else 0

  use-turns :
      (today : ℕ) (u : Use) (g : SpendGuard)
      → day_of u ≡ today
      → turns_on today g ≤ turn_cap
      → (turns_on today (use_guard turn_cap budget g u).0
          ≡ (use_guard turn_cap budget g u).1 + turns_on today g)
        × (turns_on today (use_guard turn_cap budget g u).0 ≤ turn_cap)
  unfolding try_start_turn record_cost roll
  use-turns today (start_turn t) g e h = ground (arith, e, h)
  use-turns today (cost_of t c) g e h = ground (arith, e, h)

  -- Over any uses within one day, at most `dailyTurnCap` turns are started, and together with those
  -- started before on that day no more either.
  pub starts_within_cap :
      (today : ℕ) (us : List Use) (g : SpendGuard)
      → All (λ u. day_of u ≡ today) us
      → (if is_day g.day today then g.turns else 0) ≤ turn_cap
      → (run_uses us g).1 + (if is_day g.day today then g.turns else 0) ≤ turn_cap
  unfolding run_uses
  starts_within_cap today [] g e h = ground (arith, h)
  starts_within_cap today (u ∷ us) g e h =
      let (a, b) = use-turns today u g e.0 h in
      let rest = starts_within_cap today us (use_guard turn_cap budget g u).0 e.1 b in
      omega (arith, a, rest)
