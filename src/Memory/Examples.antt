-- ===== src/Memory/Examples.antt =====
-- A concrete shop memory for the theorems on rules.
use groceryclaw.Memory.Refined.{stores-replay}
use groceryclaw.Memory.InPostgres.{pg_store}
use groceryclaw.Memory.InMemory.{memory_store}
use groceryclaw.Memory.Postgres.{pg_upsert_preference}
use groceryclaw.Memory.Store.{Change, remembered_rule, shown_rule, forgotten_rules, run, replay}
use groceryclaw.Base.Assoc.{lookup, insert}
use groceryclaw.Memory.Capped.{EachRuled, apply_preferences-EachRuled}
use groceryclaw.Memory.Apply.{
  Supplier, StockRow, ReorderLine, apply_preferences, with_supplier, ruled_line, capped, least_cap,
}
use groceryclaw.Memory.Undo.{that, forget-remember}
use groceryclaw.Memory.Limit.{remember-IsWithin}
use groceryclaw.Memory.{
  NewPreference, ShopPreference, list_preferences, max_order_qty, preferred_supplier,
  upsert_preference, remove_first, is_same_rule, skip_item,
}
use groceryclaw.Memory.Rules.{
  Words, RememberArgs, remember, new_rule, store_rule, subject_known, forget,
}
use groceryclaw.Base.{
  ◌≤◌, String, List, [], ◌∷◌, none, some, ◌≡◌, refl, arith, str_eq, length, get_or_else, ℕ, true,
  false, map, Option,
}

abbrev words : Words
words = record {
  normalize_profile = (λ who. get_or_else who "owner");
  canonical_subject = (λ s. s);
  rule_matches_product = str_eq;
  find_supplier = (λ s. s ∷ []);
}

abbrev milk_rule : NewPreference
milk_rule = record {
  voice_profile = "owner";
  kind = preferred_supplier;
  subject = "milk";
  supplier_code = some "GV";
  max_qty = none;
  weekday = none;
  statement = "always from GV";
}

abbrev rules : List ShopPreference
rules = record { id = "p1"; tenant_id = "t1"; rule = milk_rule; created_at = 1 } ∷ []

abbrev cap_args : RememberArgs
cap_args = record {
  kind = max_order_qty;
  product = some "eggs";
  supplier = none;
  max_qty = some 60;
  weekday = none;
  owner_words = "never more than 60";
  profile = none;
}

abbrev cap_rule : ShopPreference
cap_rule = record {
  id = "p2";
  tenant_id = "t1";
  created_at = 5;
  rule = record {
    voice_profile = "owner";
    kind = max_order_qty;
    subject = "eggs";
    supplier_code = none;
    max_qty = some 60;
    weekday = none;
    statement = "never more than 60";
  };
}

rules-few : (t prof : String) → length (list_preferences t prof rules) ≤ 20
unfolding list_preferences
rules-few t prof = ground arith

remember-IsWithin_example :
    length (
      list_preferences "t1" "owner"
        (remember words ("milk" ∷ "eggs" ∷ []) "t1" "p2" 5 cap_args rules).0)
    ≤ 20
remember-IsWithin_example =
    remember-IsWithin words ("milk" ∷ "eggs" ∷ []) "t1" "p2" 5 cap_args rules "t1" "owner" rules-few

forget-remember_example :
    forget words "t1"
      (that none)
      (remember words ("milk" ∷ "eggs" ∷ []) "t1" "p2" 5 cap_args rules).0
    ≡ (remove_first (is_same_rule "t1" cap_rule.rule) rules, 1)
unfolding remember new_rule store_rule upsert_preference list_preferences subject_known str_eq
    remove_first
forget-remember_example =
    forget-remember words ("milk" ∷ "eggs" ∷ []) "t1" "p2" 5 cap_args rules cap_rule refl (refl, tt)

abbrev row : String → StockRow
row name = record {
  sku = name;
  name = name;
  unit_name = none;
  barcode = none;
  on_hand = 1;
  min_qty = 5;
  reorder_qty = 10;
  pack_size = 1;
  unit_cost_vnd = 3;
  supplier_code = some "MW";
  lead_time_days = 2;
  sold_14d = 14;
}

abbrev lines : List ReorderLine
lines = ruled_line (row "eggs") 90 false ∷ ruled_line (row "milk") 12 true ∷ []

abbrev gv : Supplier
gv = record { code = "GV"; name = "Green Valley"; lead_time_days = 1 }

apply_preferences-EachRuled_example :
    EachRuled
      (cap_rule ∷ rules)
      words
      (gv ∷ [])
      lines
      (apply_preferences words (gv ∷ []) false (cap_rule ∷ rules) lines []).0
unfolding str_eq
apply_preferences-EachRuled_example =
    apply_preferences-EachRuled (cap_rule ∷ rules) words (gv ∷ []) false lines []

-- The eggs are capped at 60, and the milk comes from Green Valley.
apply_runs :
    map {B = ℕ × Option String}
      (λ l. (l.qty, l.row.supplier_code))
      (apply_preferences words (gv ∷ []) false (cap_rule ∷ rules) lines []).0
    ≡ (60, some "MW") ∷ (12, some "GV") ∷ []
unfolding apply_preferences with_supplier capped least_cap str_eq lookup insert
apply_runs = refl

abbrev skip_milk : (words : String) → NewPreference
skip_milk words = record {
  voice_profile = "owner";
  kind = skip_item;
  subject = "milk";
  supplier_code = none;
  max_qty = none;
  weekday = none;
  statement = words;
}

abbrev changes : List Change
changes =
    remembered_rule "1" 10 (skip_milk "no milk")
    ∷ remembered_rule "2" 20 (skip_milk "really no milk")
    ∷ forgotten_rules "owner" (λ r. str_eq r.subject "eggs")
    ∷ []

stores-replay_example :
    ((λ k. shown_rule (memory_store "t") k (run (memory_store "t") changes []))
      ≡ replay changes (λ k. none))
    × ((λ k.
          shown_rule (pg_store "t" (λ i j. false)) k (run (pg_store "t" (λ i j. false)) changes []))
        ≡ replay changes (λ k. none))
unfolding upsert_preference remove_first pg_upsert_preference str_eq
stores-replay_example =
    stores-replay "t" (λ i j. false) changes (tt, ((refl, tt), tt)) (tt, ((refl, tt), tt))
