-- ===== src/Limits/Examples.antt =====
-- Concrete limits for the theorems on the limiters.
use groceryclaw.Limits.{unit}
use groceryclaw.Limits.Bucket.{consume, refill}
use groceryclaw.Limits.Day.{run_uses, starts_within_cap}
use groceryclaw.Limits.Spend.{Use, new_guard, start_turn, cost_of}
use groceryclaw.Limits.Allowance.{granted, Request}
use groceryclaw.Base.Assoc.{lookup, insert}
use groceryclaw.Limits.Notifier.{NotifierConfig, consume_message, consume_tenant}
use groceryclaw.Limits.Messages.{passed_of, Message, no_limiters, messages_within_limits}
use groceryclaw.Base.{◌+◌, ◌-◌, ◌*◌, ◌≤◌, true, List, [], ◌∷◌, none, some, ◌≡◌, refl, arith, str_eq}

abbrev requests : List Request
requests =
    record { now = 0; key = "k"; amount = 2 }
    ∷ record { now = 10; key = "j"; amount = 1 }
    ∷ record { now = 30000; key = "k"; amount = 1 }
    ∷ []

abbrev config : NotifierConfig
config = record {
  enabled = true;
  global_per_minute = 10;
  per_tenant_per_minute = 5;
  per_user_burst = 1;
}

abbrev messages : List Message
messages =
    record { now = 5; tenant = some "t"; user = "u" }
    ∷ record { now = 6; tenant = none; user = "u" }
    ∷ []

messages_within_limits_example :
    (passed_of config (λ _. true) messages no_limiters * unit ≤ 10 * unit + (60 - 0) * 10)
    × (passed_of config (λ m. str_eq m.user "u") messages no_limiters * unit
        ≤ 1 * unit + (60 - 0) * 1)
messages_within_limits_example =
    messages_within_limits config refl "u" 0 60 messages (omega arith, (omega arith, omega arith))

-- Both requests under the key are granted; the user's second message is not.
grants_run :
    (granted 2 4 "k" requests [] ≡ 3)
    × (passed_of config (λ m. str_eq m.user "u") messages no_limiters ≡ 1)
unfolding granted consume refill lookup insert str_eq passed_of consume_message consume_tenant
grants_run = (refl, refl)

abbrev uses : List Use
uses = start_turn 3 ∷ cost_of 3 40 ∷ start_turn 3 ∷ start_turn 3 ∷ []

starts_within_cap_example : (run_uses 2 100 uses new_guard).1 + 0 ≤ 2
starts_within_cap_example =
    starts_within_cap 2 100 3 uses new_guard (refl, (refl, (refl, (refl, tt)))) (omega arith)
