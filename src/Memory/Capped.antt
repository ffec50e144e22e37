-- ===== src/Memory/Capped.antt =====
-- What the rules of an owner change in a reorder (apps/mcp-server/src/preferences.ts).
-- The cap that a rule sets, if it is one.
use groceryclaw.Base.Assoc.{Assoc}
use groceryclaw.Memory.{ShopPreference, kind_eq, max_order_qty}
use groceryclaw.Memory.Apply.{
  least_cap, ReorderLine, matching, Supplier, apply_preferences, skip_rule, with_supplier, capped,
  StockRow, AppliedRule, ruled_line, touch,
}
use groceryclaw.Memory.Rules.{Words}
use groceryclaw.Base.{
  ℕ, ◌≤◌, ◌⊎◌, String, Bool, true, false, not, ◌||◌, List, [], ◌∷◌, Option, none, some, ◌≡◌, inl,
  inr, if◌then◌else◌, Option-cases, Bool-cases, arith, is_some, keep_if, All, All-map,
}

abbrev pub cap_of : ShopPreference → Option ℕ
cap_of p = if kind_eq p.rule.kind max_order_qty then p.rule.max_qty else none

-- The quantity is at most every cap among the rules.
abbrev pub IsCapped : ℕ → List ShopPreference → Type 0
IsCapped n ps = All (λ p. (m : ℕ) → cap_of p ≡ some m → n ≤ m) ps

least-none : (ps : List ShopPreference) → least_cap ps ≡ none → All (λ p. cap_of p ≡ none) ps
unfolding least_cap
least-none [] e = tt
least-none (p ∷ ps) e = (ground (arith, e), least-none ps (ground (arith, e)))

least-le :
    (ps : List ShopPreference) (q : ShopPreference) (k : ℕ)
    → least_cap ps ≡ some (q, k)
    → IsCapped k ps
unfolding least_cap
least-le [] q k e = tt
least-le (p ∷ ps) q k e = elim (Option-cases (least_cap ps)) [
  | inl none' ↦ (
    (λ m c. ground (arith, none', c, e)),
    All-map (λ r none_r m c. absurd (ground (arith, none_r, c))) ps (least-none ps none'),
  )
  | inr ((r, j), some') ↦ (
    (λ m c. ground (arith, some', c, e)),
    All-map (λ s below m c. let b = below m c in ground (arith, some', b, e)) ps
        (least-le ps r j some'),
  )
]

-- What a line becomes: the same product, with its quantity as the owner named it, or no more than before
-- and than any cap for the product.
pub record IsRuled (words : Words) (prefs : List ShopPreference) (line out : ReorderLine)
    : Type 0 where
  pub same_sku : out.row.sku ≡ line.row.sku
  pub same_name : out.row.name ≡ line.row.name
  pub quantity :
      ((line.explicit_qty ≡ true) × (out.qty ≡ line.qty))
      ⊎ ((line.explicit_qty ≡ false)
          × ((out.qty ≤ line.qty) × IsCapped out.qty (matching words prefs line.row.name)))

capped_lem :
    (ps : List ShopPreference) (line : ReorderLine) (sku : String) (b : Assoc AppliedRule)
    → ((line.explicit_qty ≡ true) × ((capped ps line sku b).0 ≡ line.qty))
      ⊎ ((line.explicit_qty ≡ false)
          × (((capped ps line sku b).0 ≤ line.qty) × IsCapped (capped ps line sku b).0 ps))
unfolding capped
capped_lem ps line sku b = elim (Bool-cases line.explicit_qty) [
  | inl named ↦ inl (named, ground (arith, named))
  | inr free ↦ inr (
    free,
    (
      ground (arith, free),
      elim (Option-cases (least_cap ps)) [
        | inl none' ↦
            All-map (λ r none_r m c. absurd (ground (arith, none_r, c))) ps (least-none ps none')
        | inr ((r, k), some') ↦
            All-map (λ s below m c. let d = below m c in ground (arith, some', d, free)) ps
              (least-le ps r k some')
      ],
    ),
  )
]

module _ (prefs : List ShopPreference) (words : Words) (suppliers : List Supplier) where
  -- The lines that no skip rule drops.
  abbrev pub kept_lines : (explicit_items : Bool) → List ReorderLine → List ReorderLine
  kept_lines explicit lines =
      keep_if (λ l. explicit || not (is_some (skip_rule (matching words prefs l.row.name)))) lines

  abbrev pub EachRuled : List ReorderLine → List ReorderLine → Type 0
  EachRuled [] [] = Unit
  EachRuled (l ∷ ls) (o ∷ os) = IsRuled words prefs l o × EachRuled ls os
  EachRuled [] (o ∷ os) = ⊥
  EachRuled (l ∷ ls) [] = ⊥

  with_supplier-row :
      (ps : List ShopPreference) (row : StockRow) (applied : Assoc AppliedRule)
      → ((with_supplier suppliers ps row applied).0.sku ≡ row.sku)
        × ((with_supplier suppliers ps row applied).0.name ≡ row.name)
  unfolding with_supplier
  with_supplier-row ps row applied = ground arith

  line-IsRuled :
      (line : ReorderLine) (a b : Assoc AppliedRule) (sku : String)
      → IsRuled words prefs line (
          ruled_line
            (with_supplier suppliers (matching words prefs line.row.name) line.row a).0
            (capped (matching words prefs line.row.name) line sku b).0
            line.explicit_qty)
  line-IsRuled line a b sku =
      let same = with_supplier-row (matching words prefs line.row.name) line.row a in
      record {
        same_sku = same.0;
        same_name = same.1;
        quantity = capped_lem (matching words prefs line.row.name) line sku b;
      }

  -- The rules drop exactly the lines of products that a skip rule names, and none of those that the owner
  -- named; every other line keeps its product and place, is ordered in the quantity that the owner named,
  -- or else in no more than before and no more than any cap on the product.
  pub apply_preferences-EachRuled :
      (explicit_items : Bool) (lines : List ReorderLine) (applied : Assoc AppliedRule)
      → EachRuled
          (kept_lines explicit_items lines)
          (apply_preferences words suppliers explicit_items prefs lines applied).0
  unfolding apply_preferences
  apply_preferences-EachRuled explicit [] applied = tt
  apply_preferences-EachRuled true (line ∷ lines) applied =
      let ps = matching words prefs line.row.name in
      let moved = with_supplier suppliers ps line.row applied in
      let now = line-IsRuled line applied moved.1 moved.0.sku in
      let rest = apply_preferences-EachRuled true lines (capped ps line moved.0.sku moved.1).1 in
      elim (Option-cases (skip_rule ps)) [
        | inl none' ↦ rw (none', apply_preferences) (now, rest)
        | inr (p, some') ↦ rw (some', apply_preferences) (now, rest)
      ]
  apply_preferences-EachRuled false (line ∷ lines) applied =
      let ps = matching words prefs line.row.name in
      let moved = with_supplier suppliers ps line.row applied in
      let now = line-IsRuled line applied moved.1 moved.0.sku in
      let rest = apply_preferences-EachRuled false lines (capped ps line moved.0.sku moved.1).1 in
      elim (Option-cases (skip_rule ps)) [
        | inl none' ↦ rw (none', apply_preferences) (now, rest)
        | inr (p, some') ↦
            rw (some', apply_preferences)
              (apply_preferences-EachRuled false lines (touch p line.row.sku applied))
      ]
