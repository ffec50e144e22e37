-- ===== src/Reorder/Examples.antt =====
-- A concrete product for the theorem on quantities.
use groceryclaw.Reorder.{suggested_order_qty, target14, suggested-covers, round_up_to_pack}
use groceryclaw.Memory.Apply.{StockRow}
use groceryclaw.Base.{ℕ, ◌+◌, ◌*◌, ◌≤◌, ◌<◌, ◌⊎◌, none, some, ◌≡◌, refl}

abbrev eggs_row : StockRow
eggs_row = record {
  sku = "E1";
  name = "eggs";
  unit_name = none;
  barcode = none;
  on_hand = 3;
  min_qty = 5;
  reorder_qty = 10;
  pack_size = 6;
  unit_cost_vnd = 3;
  supplier_code = some "MW";
  lead_time_days = 2;
  sold_14d = 20;
}

suggested-covers_example :
    (target14 eggs_row ≤ 14 * (3 + suggested_order_qty eggs_row))
    × (((k : ℕ) × (suggested_order_qty eggs_row ≡ k * 6))
        × ((target14 eggs_row ≤ 14 * 3)
            ⊎ (14 * (3 + suggested_order_qty eggs_row) < target14 eggs_row + 14 * 6)))
suggested-covers_example = suggested-covers eggs_row

-- 9 days at 20 in 14 days need 13 eggs: 10 are missing, so two packs of 6.
quantity_runs : suggested_order_qty eggs_row ≡ 12
unfolding suggested_order_qty round_up_to_pack
quantity_runs = refl
