-- ===== src/Memory/Postgres.antt =====
-- apps/mcp-server/src/pg-store.ts, the rules of a shop in the table shop_preferences, whose key is
-- (tenant_id, voice_profile, kind, subject). A row has the fields that the store in memory keeps, and a session
-- sees the rows of its tenant only.
use groceryclaw.Memory.{ShopPreference, NewPreference, is_deleted, is_of_profile, is_same_rule}
use groceryclaw.Base.{
  ℕ, String, Bool, not, ◌&&◌, ◌||◌, List, [], ◌∷◌, ◌++◌, map, if◌then◌else◌, ltb, ◌==◌, any,
  keep_if, length,
}

-- `ORDER BY created_at, id`; `before` is the order of identifiers.
unfoldable pub insert_row :
    (before : String → String → Bool) → ShopPreference → List ShopPreference → List ShopPreference
insert_row before p [] = p ∷ []
insert_row before p (r ∷ rs) =
    if ltb p.created_at r.created_at || (p.created_at == r.created_at && before p.id r.id)
    then p ∷ r ∷ rs
    else r ∷ insert_row before p rs

unfoldable pub by_age :
    (before : String → String → Bool) → List ShopPreference → List ShopPreference
unfolding insert_row
by_age before [] = []
by_age before (p ∷ ps) = insert_row before p (by_age before ps)

module _ (tenant : String) where
  unfoldable pub pg_list_preferences :
      (before : String → String → Bool) (profile : String)
      → List ShopPreference
      → List ShopPreference
  unfolding by_age
  pg_list_preferences before profile ps = by_age before (keep_if (is_of_profile tenant profile) ps)

  -- `DO UPDATE SET ...` of the row with the key, whose identifier stays.
  abbrev pub set_rule : (now : ℕ) → NewPreference → ShopPreference → ShopPreference
  set_rule now n p = if is_same_rule tenant n p then record p { rule = n; created_at = now } else p

  -- `INSERT INTO shop_preferences ... ON CONFLICT (tenant_id, voice_profile, kind, subject) DO UPDATE`
  unfoldable pub pg_upsert_preference :
      (id : String) (now : ℕ) → NewPreference → List ShopPreference → List ShopPreference
  pg_upsert_preference id now n ps =
      if any (is_same_rule tenant n) ps
      then map (set_rule now n) ps
      else ps ++ record { id = id; tenant_id = tenant; rule = n; created_at = now } ∷ []

  unfoldable pub pg_delete_preferences :
      (profile : String) (ids : List String) → List ShopPreference → List ShopPreference × ℕ
  pg_delete_preferences profile [] ps = (ps, 0)
  pg_delete_preferences profile (i ∷ ids) ps = (
    keep_if (λ p. not (is_deleted tenant profile (i ∷ ids) p)) ps,
    length (keep_if (is_deleted tenant profile (i ∷ ids)) ps),
  )
