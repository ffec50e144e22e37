-- ===== src/Reorder.antt =====
-- apps/mcp-server/src/analytics.ts: how much of a product to order. Sales are the units of 14 days, of which
-- the code keeps the 14th, so quantities before rounding are in 14ths of a unit here.
mod Examples
use groceryclaw.Memory.Apply.{StockRow}
use groceryclaw.Base.{
  ℕ, zero, suc, ◌+◌, ◌-◌, ◌*◌, ◌/◌, ◌%◌, ◌≤◌, ◌<◌, ◌↔◌, ◌⊎◌, String, Bool, true, false, not, ◌&&◌,
  ◌||◌, List, [], ◌∷◌, ◌++◌, map, Option, none, some, ◌≡◌, refl, ◌≢◌, inl, inr, if◌then◌else◌,
  Option-cases, Bool-cases, arith, leb, ltb, ◌==◌, sym, ◌∙◌, ap, subst, str_eq, str_eq_iff,
  str_eq_refl, is_some, any, find, keep_if, length, length-append, guard, ◌>>=◌, ◌>>◌, includes,
  get_or_else, All, max, min, drop,
}
use native.Mathlib.Nat.{mod-add-div', mod-lt}

abbrev pub cover_buffer_days : ℕ
cover_buffer_days = 7

abbrev pub is_low_stock : StockRow → Bool
is_low_stock row = ltb 0 row.min_qty && leb row.on_hand row.min_qty

abbrev pub pack_of : ℕ → ℕ
pack_of pack_size = max 1 pack_size

-- `roundUpToPack` of so many 14ths.
unfoldable pub round_up_to_pack : (n pack_size : ℕ) → ℕ
round_up_to_pack n pack_size =
    (n + (14 * pack_of pack_size - 1)) / (14 * pack_of pack_size) * pack_of pack_size

-- The stock that the lead time and the buffer need, in 14ths.
abbrev pub target14 : StockRow → ℕ
target14 row = (row.lead_time_days + cover_buffer_days) * row.sold_14d

unfoldable pub suggested_order_qty : StockRow → ℕ
suggested_order_qty row =
    if ltb (14 * row.on_hand) (target14 row)
    then round_up_to_pack (target14 row - 14 * row.on_hand) row.pack_size
    else if is_low_stock row && ltb 0 row.reorder_qty
    then round_up_to_pack (14 * row.reorder_qty) row.pack_size
    else 0

ceil_lem : (n d : ℕ) → 0 < d → (n ≤ (n + (d - 1)) / d * d) × ((n + (d - 1)) / d * d < n + d)
ceil_lem n d h =
    let e = mod-add-div' (n + (d - 1)) d in
    let r = mod-lt (n + (d - 1)) h in (omega (arith, e, r, h), omega (arith, e, r, h))

spread : (k p : ℕ) → k * (14 * p) ≡ 14 * (k * p)
spread k p = grind arith

round_lem :
    (n pack_size : ℕ)
    → (n ≤ 14 * round_up_to_pack n pack_size)
      × (14 * round_up_to_pack n pack_size < n + 14 * pack_of pack_size)
unfolding round_up_to_pack
round_lem n pack_size =
    let d = 14 * pack_of pack_size in
    let (a, b) = ceil_lem n d (omega arith) in
    let e = spread ((n + (d - 1)) / d) (pack_of pack_size) in
    (omega (arith, a, e), omega (arith, b, e))

-- With the suggested quantity the stock lasts, at the sales of the last 14 days, for the lead time and 7
-- more days; the quantity is a number of whole packs; and where it is ordered to reach that stock, one
-- pack less would not reach it.
pub suggested-covers :
    (row : StockRow)
    → (target14 row ≤ 14 * (row.on_hand + suggested_order_qty row))
      × (((k : ℕ) × (suggested_order_qty row ≡ k * pack_of row.pack_size))
          × ((target14 row ≤ 14 * row.on_hand)
              ⊎ (14 * (row.on_hand + suggested_order_qty row)
                  < target14 row + 14 * pack_of row.pack_size)))
unfolding suggested_order_qty round_up_to_pack
suggested-covers row = elim (Bool-cases (ltb (14 * row.on_hand) (target14 row))) [
  | inl short ↦
      let (a, b) = round_lem (target14 row - 14 * row.on_hand) row.pack_size in
      let need : 14 * row.on_hand < target14 row = ground (arith, short) in
      rw (short, suggested_order_qty)
        (ground (arith, a, need), ((_, refl), inr (ground (arith, b, need))))
  | inr enough ↦
      let fine : target14 row ≤ 14 * row.on_hand = ground (arith, enough) in
      elim (Bool-cases (is_low_stock row && ltb 0 row.reorder_qty)) [
        | inl low ↦
            rw (enough, low, suggested_order_qty) (omega (arith, fine), ((_, refl), inl fine))
        | inr no' ↦
            rw (enough, no', suggested_order_qty)
              (omega (arith, fine), ((0, omega arith), inl fine))
      ]
]
