-- ===== src/Memory/Apply.antt =====
-- apps/mcp-server/src/preferences.ts, `applyPreferences`: the rules of an owner applied to the lines of a
-- reorder. The spoken phrases are left out, and quantities are whole numbers.
use groceryclaw.Base.Assoc.{Assoc, insert, lookup}
use groceryclaw.Memory.Rules.{Words}
use groceryclaw.Memory.{
  PreferenceKind, ShopPreference, kind_eq, order_day, skip_item, preferred_supplier, max_order_qty,
}
use groceryclaw.Base.{
  ℕ, String, Bool, false, not, ◌&&◌, List, [], ◌∷◌, ◌++◌, Option, none, some, if◌then◌else◌, leb,
  ltb, str_eq, find, keep_if,
}

pub record StockRow : Type 0 where
  pub sku : String
  pub name : String
  pub unit_name : Option String
  pub barcode : Option String
  pub on_hand : ℕ
  pub min_qty : ℕ
  pub reorder_qty : ℕ
  pub pack_size : ℕ
  pub unit_cost_vnd : ℕ
  pub supplier_code : Option String
  pub lead_time_days : ℕ
  -- The units sold in the last 14 days; the code keeps a 14th of it.
  pub sold_14d : ℕ

pub record Supplier : Type 0 where
  pub code : String
  pub name : String
  pub lead_time_days : ℕ

pub record ReorderLine : Type 0 where
  pub row : StockRow
  pub qty : ℕ
  pub explicit_qty : Bool

pub record AppliedRule : Type 0 where
  pub id : String
  pub kind : PreferenceKind
  pub skus : List String

abbrev pub touch : ShopPreference → (sku : String) → Assoc AppliedRule → Assoc AppliedRule
touch p sku applied =
    insert p.id
      (elim (lookup p.id applied) [
        | none ↦ record { id = p.id; kind = p.rule.kind; skus = sku ∷ [] }
        | some prev ↦ record prev { skus = prev.skus ++ sku ∷ [] }
      ])
      applied

-- The first of the rules with the least cap, as the first of them sorted by it.
unfoldable pub least_cap : List ShopPreference → Option (ShopPreference × ℕ)
least_cap [] = none
least_cap (p ∷ ps) =
    let rest = least_cap ps in
    elim p.rule.max_qty [
      | none ↦ rest
      | some m ↦ if not (kind_eq p.rule.kind max_order_qty) then rest else elim rest [
        | none ↦ some (p, m)
        | some (q, k) ↦ if leb m k then some (p, m) else some (q, k)
      ]
    ]

abbrev pub skip_rule : List ShopPreference → Option ShopPreference
skip_rule ps = find (λ p. kind_eq p.rule.kind skip_item) ps

abbrev has_supplier : ShopPreference → Bool
has_supplier p =
    kind_eq p.rule.kind preferred_supplier
    && elim p.rule.supplier_code [ none ↦ false | some c ↦ not (str_eq c "") ]

abbrev is_code : Option String → String → Bool
is_code none c = false
is_code (some d) c = str_eq d c

-- The row with the preferred supplier, where there is one and it is another.
unfoldable pub with_supplier :
    List Supplier
    → List ShopPreference
    → StockRow
    → Assoc AppliedRule
    → StockRow × Assoc AppliedRule
with_supplier suppliers ps row applied = elim (find has_supplier ps) [
  | none ↦ (row, applied)
  | some p ↦ elim (find (λ s. is_code p.rule.supplier_code s.code) suppliers) [
    | none ↦ (row, applied)
    | some s ↦ if is_code row.supplier_code s.code then (row, applied) else (
      record row { supplier_code = some s.code; lead_time_days = s.lead_time_days },
      touch p row.sku applied,
    )
  ]
]

unfoldable pub capped :
    List ShopPreference → ReorderLine → (sku : String) → Assoc AppliedRule → ℕ × Assoc AppliedRule
capped ps line sku applied = elim (least_cap ps) [
  | none ↦ (line.qty, applied)
  | some (p, m) ↦
      if not line.explicit_qty && ltb m line.qty
      then (m, touch p sku applied)
      else (line.qty, applied)
]

module _ (words : Words) where
  abbrev pub matching : List ShopPreference → (name : String) → List ShopPreference
  matching prefs name =
      keep_if
        (λ p. not (kind_eq p.rule.kind order_day) && words.rule_matches_product p.rule.subject name)
        prefs

abbrev pub ruled_line : StockRow → ℕ → Bool → ReorderLine
ruled_line row qty explicit = record { row = row; qty = qty; explicit_qty = explicit }

module _ (words : Words) (suppliers : List Supplier) where
  unfoldable pub apply_preferences :
      (explicit_items : Bool)
      → List ShopPreference
      → List ReorderLine
      → Assoc AppliedRule
      → List ReorderLine × Assoc AppliedRule
  apply_preferences explicit prefs [] applied = ([], applied)
  apply_preferences explicit prefs (line ∷ lines) applied =
      let ps = matching words prefs line.row.name in
      let kept : List ReorderLine × Assoc AppliedRule =
        (let (row, applied₁) = with_supplier suppliers ps line.row applied in
          let (qty, applied₂) = capped ps line row.sku applied₁ in
          let (out, applied₃) = apply_preferences explicit prefs lines applied₂ in
          (ruled_line row qty line.explicit_qty ∷ out, applied₃)) in
      elim (skip_rule ps) [
        | none ↦ kept
        | some p ↦
            let skipped = apply_preferences explicit prefs lines (touch p line.row.sku applied) in
            if not explicit then skipped else kept
      ]
