-- ===== src/Limits/Allowance.antt =====
-- How much a token bucket lets through (packages/common/src/rate-limiter.ts).
use groceryclaw.Base.Assoc.{lookup, lookup-insert_ne, lookup-insert_self}
use groceryclaw.Limits.{unit}
use groceryclaw.Limits.Bucket.{Buckets, consume, refill, Bucket}
use groceryclaw.Base.{
  ℕ, ◌+◌, ◌-◌, ◌*◌, ◌≤◌, String, ◌&&◌, List, [], ◌∷◌, Option, none, some, ◌≡◌, refl, ◌≢◌, inl, inr,
  if◌then◌else◌, Option-cases, Bool-cases, arith, ltb, ◌∙◌, ap, subst, str_eq, min,
}

pub record Request : Type 0 where
  pub now : ℕ
  pub key : String
  pub amount : ℕ

module _ (capacity refill_per_minute : ℕ) where
  -- What is let through under the key, over a list of requests.
  unfoldable pub granted : String → List Request → Buckets → ℕ
  granted key [] bs = 0
  granted key (r ∷ rs) bs =
      let (bs', d) = consume capacity refill_per_minute r.now r.key r.amount bs in
      let rest = granted key rs bs' in
      if str_eq r.key key && d.allowed then r.amount + rest else rest

  -- At time `now` a key can be given at most what its bucket holds, and `total` was given since `start`.
  abbrev pub IsWithin : (start now total : ℕ) → Option Bucket → Type 0
  IsWithin start now total none = (total ≡ 0) × (start ≤ now)
  IsWithin start now total (some b) =
      (total * unit + b.tokens ≤ capacity * unit + (b.last_refill_ms - start) * refill_per_minute)
      × ((start ≤ b.last_refill_ms) × (b.last_refill_ms ≤ now))

  add_mul : (a b c : ℕ) → (a + b) * c ≡ a * c + b * c
  add_mul a b c = grind arith

  -- A bucket keeps its account over a refill.
  refill-IsWithin :
      (start now total last tokens : ℕ)
      → total * unit + tokens ≤ capacity * unit + (last - start) * refill_per_minute
      → start ≤ last
      → last ≤ now
      → total * unit + min (capacity * unit) (tokens + (now - last) * refill_per_minute)
        ≤ capacity * unit + (now - start) * refill_per_minute
  refill-IsWithin start now total last tokens h a b =
      let split : now - start ≡ (last - start) + (now - last) = omega (arith, a, b) in
      let spread : (now - start) * refill_per_minute
          ≡ (last - start) * refill_per_minute + (now - last) * refill_per_minute =
        ap (λ n. n * refill_per_minute) split
        ∙ add_mul (last - start) (now - last) refill_per_minute in
      ground (arith, h, spread)

  pub consume-IsWithin :
      (key : String) (start last now amount total : ℕ) (bs : Buckets)
      → last ≤ now
      → IsWithin start last total (lookup key bs)
      → IsWithin start now
          (if (consume capacity refill_per_minute now key amount bs).1.allowed
            then amount + total
            else total)
          (lookup key (consume capacity refill_per_minute now key amount bs).0)
  unfolding consume refill
  consume-IsWithin key start last now amount total bs later w =
      elim (Option-cases (lookup key bs)) [
        | inl none' ↦
            let w' = subst (IsWithin start last total) none' w in
            elim (Bool-cases (ltb capacity amount)) [
              | inl big ↦ rw (none', consume, big, none') (w'.0, omega (arith, w'.1, later))
              | inr fits ↦
                  rw (none', consume, fits, lookup-insert_self key _ bs)
                    (ground (arith, w'.0, fits), (omega (arith, w'.1, later), omega arith))
            ]
        | inr (b, e) ↦
            let w' = subst (IsWithin start last total) e w in
            let old : b.last_refill_ms ≤ now = omega (arith, w'.1.1, later) in
            let fresh = refill-IsWithin start now total b.last_refill_ms b.tokens w'.0 w'.1.0 old in
            elim (Bool-cases
              (ltb (refill capacity refill_per_minute now b).tokens (amount * unit))) [
                | inl big ↦
                    rw (e, consume, big, lookup-insert_self key _ bs)
                      (fresh, (omega (arith, w'.1.0, old), omega arith))
                | inr fits ↦
                    rw (e, consume, fits, lookup-insert_self key _ bs)
                      (ground (arith, fresh, fits), (omega (arith, w'.1.0, old), omega arith))
              ]
      ]

  pub consume-other :
      (key other : String) (now amount : ℕ) (bs : Buckets)
      → other ≢ key
      → lookup key (consume capacity refill_per_minute now other amount bs).0 ≡ lookup key bs
  unfolding consume
  consume-other key other now amount bs ne = elim (Option-cases (lookup other bs)) [
    | inl none' ↦ elim (Bool-cases (ltb capacity amount)) [
      | inl big ↦ rw (none', consume, big) refl
      | inr fits ↦ rw (none', consume, fits) (lookup-insert_ne other key _ bs ne)
    ]
    | inr (b, e) ↦
        elim (Bool-cases (ltb (refill capacity refill_per_minute now b).tokens (amount * unit))) [
          | inl big ↦ rw (e, consume, big) (lookup-insert_ne other key _ bs ne)
          | inr fits ↦ rw (e, consume, fits) (lookup-insert_ne other key _ bs ne)
        ]
  ]

  pub later-IsWithin :
      (start last now total : ℕ) (o : Option Bucket)
      → last ≤ now
      → IsWithin start last total o
      → IsWithin start now total o
  later-IsWithin start last now total none h w = (w.0, omega (arith, w.1, h))
  later-IsWithin start last now total (some b) h w = (w.0, (w.1.0, omega (arith, w.1.1, h)))

  pub total-IsWithin :
      (start end total : ℕ) (o : Option Bucket)
      → IsWithin start end total o
      → total * unit ≤ capacity * unit + (end - start) * refill_per_minute
  total-IsWithin start end total none w = ground (arith, w.0)
  total-IsWithin start end total (some b) w =
      let split : end - start ≡ (b.last_refill_ms - start) + (end - b.last_refill_ms) =
        omega (arith, w.1.0, w.1.1) in
      let spread : (end - start) * refill_per_minute
          ≡ (b.last_refill_ms - start) * refill_per_minute
            + (end - b.last_refill_ms) * refill_per_minute =
        ap (λ n. n * refill_per_minute) split
        ∙ add_mul (b.last_refill_ms - start) (end - b.last_refill_ms) refill_per_minute in
      ground (arith, w.0, spread)
