-- ===== src/Memory.antt =====
-- apps/mcp-server/src/memory-store.ts, the preferences of a shop: rules that an owner asked to remember.
-- The records are those of apps/mcp-server/src/store.ts.
pub mod Rules
pub mod Limit
pub mod Undo
pub mod Postgres
pub mod Keyed
pub mod Store
pub mod Picked
pub mod Rows
pub mod InMemory
pub mod InPostgres
pub mod Refined
pub mod Apply
pub mod Capped
pub mod Examples
use groceryclaw.Base.{
  ℕ, zero, suc, ◌+◌, ◌-◌, ◌*◌, ◌/◌, ◌%◌, ◌≤◌, ◌<◌, ◌↔◌, ◌⊎◌, String, Bool, true, false, not, ◌&&◌,
  ◌||◌, List, [], ◌∷◌, ◌++◌, map, Option, none, some, ◌≡◌, refl, ◌≢◌, inl, inr, if◌then◌else◌,
  Option-cases, Bool-cases, arith, leb, ltb, ◌==◌, sym, ◌∙◌, ap, subst, str_eq, str_eq_iff,
  str_eq_refl, is_some, any, find, keep_if, length, length-append, guard, ◌>>=◌, ◌>>◌, includes,
  get_or_else, All, max, min, drop,
}

pub data PreferenceKind : Type 0 where
  preferred_supplier max_order_qty skip_item order_day : PreferenceKind

pub record NewPreference : Type 0 where
  pub voice_profile : String
  pub kind : PreferenceKind
  pub subject : String
  pub supplier_code : Option String
  pub max_qty : Option ℕ
  pub weekday : Option String
  pub statement : String

pub record ShopPreference : Type 0 where
  pub id : String
  pub tenant_id : String
  pub rule : NewPreference
  pub created_at : ℕ

abbrev pub kind_eq : PreferenceKind → PreferenceKind → Bool
kind_eq preferred_supplier preferred_supplier = true
kind_eq max_order_qty max_order_qty = true
kind_eq skip_item skip_item = true
kind_eq order_day order_day = true
kind_eq _ _ = false

-- `findIndex` and `splice(i, 1)`
unfoldable pub remove_first : (ShopPreference → Bool) → List ShopPreference → List ShopPreference
remove_first q [] = []
remove_first q (p ∷ ps) = if q p then ps else p ∷ remove_first q ps

module _ (tenant : String) where
  abbrev pub is_of_profile : (profile : String) → ShopPreference → Bool
  is_of_profile profile p = str_eq p.tenant_id tenant && str_eq p.rule.voice_profile profile

  unfoldable pub list_preferences : (profile : String) → List ShopPreference → List ShopPreference
  list_preferences profile ps = keep_if (is_of_profile profile) ps

  abbrev pub is_same_rule : NewPreference → ShopPreference → Bool
  is_same_rule n p =
      is_of_profile n.voice_profile p
      && (kind_eq p.rule.kind n.kind && str_eq p.rule.subject n.subject)

  unfoldable pub upsert_preference :
      (id : String) (now : ℕ)
      → NewPreference
      → List ShopPreference
      → List ShopPreference × ShopPreference
  unfolding remove_first
  upsert_preference id now n ps =
      let row : ShopPreference = record {
        id = id;
        tenant_id = tenant;
        rule = n;
        created_at = now;
      } in
      (remove_first (is_same_rule n) ps ++ row ∷ [], row)

  abbrev pub is_deleted : (profile : String) (ids : List String) → ShopPreference → Bool
  is_deleted profile ids p = is_of_profile profile p && includes ids p.id

  -- The preferences that stay, and how many were deleted.
  unfoldable pub delete_preferences :
      (profile : String) (ids : List String) → List ShopPreference → List ShopPreference × ℕ
  delete_preferences profile ids ps = (
    keep_if (λ p. not (is_deleted profile ids p)) ps,
    length (keep_if (is_deleted profile ids) ps),
  )
