-- ===== src/Memory/Rows.antt =====
-- The rule with a key after a call (apps/mcp-server/src/memory-store.ts and apps/mcp-server/src/pg-store.ts).
use groceryclaw.Memory.Picked.{IsDistinct, keep-IsDistinct}
use groceryclaw.Memory.Postgres.{set_rule}
use groceryclaw.Memory.Store.{is_forgotten}
use groceryclaw.Memory.Keyed.{
  has_key, count-keep, count, same_key, has_key-same, find-append, count-append, find-keep,
  find-append_other, find-set, has_key-other,
}
use groceryclaw.Memory.{ShopPreference, NewPreference, is_of_profile}
use mathlib.Core.Option
use groceryclaw.Base.{
  ℕ, ◌≤◌, String, Bool, true, not, ◌&&◌, List, [], ◌∷◌, ◌++◌, map, Option, none, some, ◌≡◌, refl,
  inl, inr, if◌then◌else◌, Option-cases, Bool-cases, arith, sym, ◌∙◌, str_eq_iff, str_eq_refl, any,
  find, keep_if, find-some,
}

module _ (tenant : String) where
  abbrev pub rule_at : NewPreference → List ShopPreference → Option NewPreference
  rule_at k ps = Option.map (λ p. p.rule) (find (has_key tenant k) ps)

  -- One row for a key, and one for an identifier.
  abbrev pub IsTable : List ShopPreference → Type 0
  IsTable ps = ((k : NewPreference) → count (has_key tenant k) ps ≤ 1) × IsDistinct ps

  abbrev pub rule_row : (id : String) (now : ℕ) → NewPreference → ShopPreference
  rule_row id now n = record { id = id; tenant_id = tenant; rule = n; created_at = now }

  rule_row-has_key :
      (id : String) (now : ℕ) (n k : NewPreference)
      → has_key tenant k (rule_row id now n) ≡ same_key n k
  rule_row-has_key id now n k = ground (arith, str_eq_refl tenant)

  count-same :
      (n k : NewPreference) (ps : List ShopPreference)
      → same_key n k ≡ true
      → count (has_key tenant n) ps ≡ count (has_key tenant k) ps
  count-same n k [] h = refl
  count-same n k (p ∷ ps) h = ground (arith, has_key-same tenant n k p h, count-same n k ps h)

  -- A row is added where no row has its key.
  pub rule_at-added :
      (id : String) (now : ℕ) (n k : NewPreference) (ps : List ShopPreference)
      → count (has_key tenant n) ps ≡ 0
      → rule_at k (ps ++ rule_row id now n ∷ []) ≡ (if same_key n k then some n else rule_at k ps)
  rule_at-added id now n k ps none' = elim (Bool-cases (same_key n k)) [
    | inl same ↦
        let found =
          find-append tenant k ps (rule_row id now n) (sym (count-same n k ps same) ∙ none') in
        rw (same, found, rule_row-has_key id now n k, same) refl
    | inr other ↦
        let found =
          find-append_other tenant k ps (rule_row id now n) (rule_row-has_key id now n k ∙ other) in
        rw (other, found) refl
  ]

  pub count-added :
      (id : String) (now : ℕ) (n k : NewPreference) (ps : List ShopPreference)
      → count (has_key tenant n) ps ≡ 0
      → count (has_key tenant k) ps ≤ 1
      → count (has_key tenant k) (ps ++ rule_row id now n ∷ []) ≤ 1
  count-added id now n k ps none' h = elim (Bool-cases (same_key n k)) [
    | inl same ↦ ground (
      arith,
      same,
      count-append tenant k ps (rule_row id now n),
      count-same n k ps same,
      none',
      rule_row-has_key id now n k,
    )
    | inr other ↦
        ground (
          arith,
          other,
          h,
          count-append tenant k ps (rule_row id now n),
          rule_row-has_key id now n k,
        )
  ]

  any-find :
      (n : NewPreference) (ps : List ShopPreference)
      → any (has_key tenant n) ps ≡ true
      → (p : ShopPreference) × (find (has_key tenant n) ps ≡ some p)
  any-find n [] h = absurd (ground (arith, h))
  any-find n (p ∷ ps) h = elim (Bool-cases (has_key tenant n p)) [
    | inl has ↦ (p, rw has refl)
    | inr other ↦ let (q, e) = any-find n ps (ground (arith, h, other)) in (q, rw other e)
  ]

  find-same :
      (n k : NewPreference) (ps : List ShopPreference)
      → same_key n k ≡ true
      → find (has_key tenant n) ps ≡ find (has_key tenant k) ps
  find-same n k [] h = refl
  find-same n k (p ∷ ps) h = ground (arith, has_key-same tenant n k p h, find-same n k ps h)

  -- A row is changed where one has the key.
  pub rule_at-set :
      (now : ℕ) (n k : NewPreference) (ps : List ShopPreference)
      → any (has_key tenant n) ps ≡ true
      → rule_at k (map (set_rule tenant now n) ps) ≡ (if same_key n k then some n else rule_at k ps)
  rule_at-set now n k ps there = elim (Bool-cases (same_key n k)) [
    | inl same ↦
        let (p, found) = any-find n ps there in
        let has = find-some (has_key tenant n) ps p found in
        rw (same, find-set tenant now n k ps, sym (find-same n k ps same), found, has) refl
    | inr other ↦ elim (Option-cases (find (has_key tenant k) ps)) [
      | inl none' ↦ rw (other, find-set tenant now n k ps, none') refl
      | inr (p, found) ↦ elim (Bool-cases (has_key tenant n p)) [
        | inl has ↦ absurd (
            ground (
              arith,
              has_key-other tenant n k p other has,
              find-some (has_key tenant k) ps p found,
            ))
        | inr not_n ↦ rw (other, find-set tenant now n k ps, found, not_n) refl
      ]
    ]
  ]

  -- Rows of a speaker that pass a test are deleted.
  abbrev pub is_picked : (profile : String) (test : NewPreference → Bool) → ShopPreference → Bool
  is_picked profile test p = is_of_profile tenant profile p && test p.rule

  pub rule_at-kept :
      (profile : String) (test : NewPreference → Bool) (k : NewPreference)
      (ps : List ShopPreference)
      → count (has_key tenant k) ps ≤ 1
      → rule_at k (keep_if (λ p. not (is_picked profile test p)) ps)
        ≡ (if is_forgotten profile test (λ j. rule_at j ps) k then none else rule_at k ps)
  rule_at-kept profile test k ps one =
      let kept = find-keep tenant k (λ p. not (is_picked profile test p)) ps one in
      elim (Option-cases (find (has_key tenant k) ps)) [
        | inl none' ↦ rw (kept, none') (ground arith)
        | inr (p, found) ↦
            let has = find-some (has_key tenant k) ps p found in
            let speaker =
              (str_eq_iff p.rule.voice_profile k.voice_profile).0 (ground (arith, has)) in
            rw (kept, found) (ground (arith, has, speaker))
      ]

  pub kept-IsTable :
      (s : ShopPreference → Bool) (ps : List ShopPreference) → IsTable ps → IsTable (keep_if s ps)
  kept-IsTable s ps h =
      (λ k. omega (arith, h.0 k, count-keep tenant k s ps), keep-IsDistinct s ps h.1)
