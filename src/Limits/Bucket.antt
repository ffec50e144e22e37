-- ===== src/Limits/Bucket.antt =====
-- packages/common/src/rate-limiter.ts, `InMemoryTokenBucketRateLimiter`. Token counts are in `unit`ths; the
-- code's floating-point rounding is left out.
use groceryclaw.Limits.{unit}
use groceryclaw.Base.Assoc.{Assoc, lookup, insert}
use groceryclaw.Base.{
  ℕ, ◌+◌, ◌-◌, ◌*◌, ◌/◌, String, Bool, true, false, none, some, if◌then◌else◌, ltb, min,
}

pub record Bucket : Type 0 where
  pub tokens : ℕ
  pub last_refill_ms : ℕ

pub record Decision : Type 0 where
  pub allowed : Bool
  pub remaining : ℕ

abbrev pub Buckets : Type 0
Buckets = Assoc Bucket

module _ (capacity refill_per_minute : ℕ) where
  -- A clock that went back adds nothing, and still becomes the time of the last refill.
  unfoldable pub refill : (now : ℕ) → Bucket → Bucket
  refill now b = record {
    tokens = min (capacity * unit) (b.tokens + (now - b.last_refill_ms) * refill_per_minute);
    last_refill_ms = now;
  }

  unfoldable pub consume : (now : ℕ) (key : String) (amount : ℕ) → Buckets → Buckets × Decision
  unfolding refill
  consume now key amount bs = elim (lookup key bs) [
    | none ↦ if ltb capacity amount then (bs, record { allowed = false; remaining = 0 }) else (
      insert key (record { tokens = (capacity - amount) * unit; last_refill_ms = now }) bs,
      record { allowed = true; remaining = capacity - amount },
    )
    | some b ↦
        let full = refill now b in
        if ltb full.tokens (amount * unit)
        then (insert key full bs, record { allowed = false; remaining = full.tokens / unit })
        else (
          insert key (record full { tokens = full.tokens - amount * unit }) bs,
          record { allowed = true; remaining = (full.tokens - amount * unit) / unit },
        )
  ]
