-- ===== src/Memory/InPostgres.antt =====
-- The rules in Postgres, apps/mcp-server/src/pg-store.ts, as a store that answers the calls of Memory/Store.
use mathlib.Core.Option
use groceryclaw.Memory.InMemory.{delete-picked, find-listed}
use groceryclaw.Memory.Keyed.{count, has_key, same_key, count-set, count-any}
use groceryclaw.Memory.Rows.{
  IsTable, rule_at, rule_at-set, is_picked, count-added, rule_at-added, rule_row, kept-IsTable,
  rule_at-kept,
}
use groceryclaw.Memory.Picked.{IsDistinct, ids_of, append-IsDistinct}
use groceryclaw.Memory.Store.{PreferenceStore, shown_rule, forget_rules, IsLawful}
use groceryclaw.Memory.{ShopPreference, NewPreference, is_deleted, is_of_profile}
use groceryclaw.Memory.Undo.{IsNewId}
use groceryclaw.Memory.Postgres.{
  insert_row, pg_list_preferences, pg_upsert_preference, pg_delete_preferences, by_age, set_rule,
}
use groceryclaw.Base.{
  ℕ, ◌≤◌, String, Bool, true, false, not, ◌&&◌, List, [], ◌∷◌, map, none, some, ◌≡◌, refl, inl, inr,
  if◌then◌else◌, Bool-cases, arith, sym, ◌∙◌, ap, subst, str_eq, any, find, keep_if, includes,
}

-- Sorting changes neither how many rows pass a test, nor the one that does if there is only one.
module _ (before : String → String → Bool) where
  count-insert_row :
      (s : ShopPreference → Bool) (p : ShopPreference) (rs : List ShopPreference)
      → count s (insert_row before p rs) ≡ count s (p ∷ rs)
  unfolding insert_row
  count-insert_row s p [] = refl
  count-insert_row s p (r ∷ rs) = ground (arith, count-insert_row s p rs)

  find-insert_row :
      (s : ShopPreference → Bool) (p : ShopPreference) (rs : List ShopPreference)
      → count s (p ∷ rs) ≤ 1
      → find s (insert_row before p rs) ≡ find s (p ∷ rs)
  unfolding insert_row
  find-insert_row s p [] h = refl
  find-insert_row s p (r ∷ rs) h = ground (arith, h, find-insert_row s p rs)

  count-by_age :
      (s : ShopPreference → Bool) (ps : List ShopPreference)
      → count s (by_age before ps) ≡ count s ps
  unfolding by_age
  count-by_age s [] = refl
  count-by_age s (p ∷ ps) =
      ground (arith, count-insert_row s p (by_age before ps), count-by_age s ps)

  find-by_age :
      (s : ShopPreference → Bool) (ps : List ShopPreference)
      → count s ps ≤ 1
      → find s (by_age before ps) ≡ find s ps
  unfolding by_age
  find-by_age s [] h = refl
  find-by_age s (p ∷ ps) h =
      let n = count-by_age s ps in
      let first = find-insert_row s p (by_age before ps) in
      ground (arith, h, n, first, find-by_age s ps)

  includes-insert_row :
      (s : ShopPreference → Bool) (j : String) (p : ShopPreference) (rs : List ShopPreference)
      → includes (ids_of (keep_if s (insert_row before p rs))) j
        ≡ includes (ids_of (keep_if s (p ∷ rs))) j
  unfolding insert_row
  includes-insert_row s j p [] = refl
  includes-insert_row s j p (r ∷ rs) = ground (arith, includes-insert_row s j p rs)

  includes-by_age :
      (s : ShopPreference → Bool) (j : String) (ps : List ShopPreference)
      → includes (ids_of (keep_if s (by_age before ps))) j ≡ includes (ids_of (keep_if s ps)) j
  unfolding by_age
  includes-by_age s j [] = refl
  includes-by_age s j (p ∷ ps) =
      ground (arith, includes-insert_row s j p (by_age before ps), includes-by_age s j ps)

keep-all :
    (s : ShopPreference → Bool) (ps : List ShopPreference)
    → ((p : ShopPreference) → s p ≡ true)
    → keep_if s ps ≡ ps
keep-all s [] h = refl
keep-all s (p ∷ ps) h = rw (h p) (ap (λ qs. p ∷ qs) (keep-all s ps h))

module _ (tenant : String) (before : String → String → Bool) where
  abbrev pub pg_store : PreferenceStore
  pg_store = record {
    State = List ShopPreference;
    list_preferences = pg_list_preferences tenant before;
    upsert_preference = pg_upsert_preference tenant;
    delete_preferences = (λ profile ids ps. (pg_delete_preferences tenant profile ids ps).0);
  }

  pg_delete_lem :
      (profile : String) (ids : List String) (ps : List ShopPreference)
      → (pg_delete_preferences tenant profile ids ps).0
        ≡ keep_if (λ p. not (is_deleted tenant profile ids p)) ps
  unfolding pg_delete_preferences
  pg_delete_lem profile [] ps = sym (keep-all _ ps (λ p. ground arith))
  pg_delete_lem profile (i ∷ ids) ps = refl

  count-listed :
      (k : NewPreference) (ps : List ShopPreference)
      → count (λ p. same_key p.rule k) (keep_if (is_of_profile tenant k.voice_profile) ps)
        ≡ count (has_key tenant k) ps
  count-listed k [] = refl
  count-listed k (p ∷ ps) = ground (arith, count-listed k ps)

  pg-rule :
      (k : NewPreference) (ps : List ShopPreference)
      → count (has_key tenant k) ps ≤ 1
      → shown_rule pg_store k ps ≡ rule_at tenant k ps
  unfolding pg_list_preferences
  pg-rule k ps h =
      let own = keep_if (is_of_profile tenant k.voice_profile) ps in
      let one : count (λ p. same_key p.rule k) own ≤ 1 =
        subst (λ n. n ≤ 1) (sym (count-listed k ps)) h in
      ap (Option.map (λ p. p.rule))
        (find-by_age before (λ p. same_key p.rule k) own one ∙ find-listed tenant k ps)

  set-IsNewId :
      (now : ℕ) (n : NewPreference) (id : String) (ps : List ShopPreference)
      → IsNewId id ps
      → IsNewId id (map (set_rule tenant now n) ps)
  set-IsNewId now n id [] h = tt
  set-IsNewId now n id (p ∷ ps) h = (ground (arith, h.0), set-IsNewId now n id ps h.1)

  set-IsDistinct :
      (now : ℕ) (n : NewPreference) (ps : List ShopPreference)
      → IsDistinct ps
      → IsDistinct (map (set_rule tenant now n) ps)
  set-IsDistinct now n [] h = tt
  set-IsDistinct now n (p ∷ ps) h = elim (Bool-cases (has_key tenant n p)) [
    | inl has ↦ rw has (set-IsNewId now n p.id ps h.0, set-IsDistinct now n ps h.1)
    | inr other ↦ rw other (set-IsNewId now n p.id ps h.0, set-IsDistinct now n ps h.1)
  ]

  pg-upsert-count :
      (id : String) (now : ℕ) (n k : NewPreference) (ps : List ShopPreference)
      → count (has_key tenant k) ps ≤ 1
      → count (has_key tenant k) (pg_upsert_preference tenant id now n ps) ≤ 1
  unfolding pg_upsert_preference
  pg-upsert-count id now n k ps h = elim (Bool-cases (any (has_key tenant n) ps)) [
    | inl there ↦
        rw (there, pg_upsert_preference) (subst (λ c. c ≤ 1) (sym (count-set tenant now n k ps)) h)
    | inr absent ↦
        rw (absent, pg_upsert_preference)
          (count-added tenant id now n k ps (count-any tenant n ps absent) h)
  ]

  pg-upsert-IsDistinct :
      (id : String) (now : ℕ) (n : NewPreference) (ps : List ShopPreference)
      → IsNewId id ps
      → IsDistinct ps
      → IsDistinct (pg_upsert_preference tenant id now n ps)
  unfolding pg_upsert_preference
  pg-upsert-IsDistinct id now n ps new h = elim (Bool-cases (any (has_key tenant n) ps)) [
    | inl there ↦ rw (there, pg_upsert_preference) (set-IsDistinct now n ps h)
    | inr absent ↦
        rw (absent, pg_upsert_preference) (append-IsDistinct ps (rule_row tenant id now n) new h)
  ]

  pg-upsert-rule :
      (id : String) (now : ℕ) (n k : NewPreference) (ps : List ShopPreference)
      → rule_at tenant k (pg_upsert_preference tenant id now n ps)
        ≡ (if same_key n k then some n else rule_at tenant k ps)
  unfolding pg_upsert_preference
  pg-upsert-rule id now n k ps = elim (Bool-cases (any (has_key tenant n) ps)) [
    | inl there ↦ rw (there, pg_upsert_preference) (rule_at-set tenant now n k ps there)
    | inr absent ↦
        rw (absent, pg_upsert_preference)
          (rule_at-added tenant id now n k ps (count-any tenant n ps absent))
  ]

  pg-forget :
      (profile : String) (test : NewPreference → Bool) (ps : List ShopPreference)
      → IsTable tenant ps
      → forget_rules pg_store profile test ps
        ≡ keep_if (λ p. not (is_picked tenant profile test p)) ps
  unfolding pg_list_preferences
  pg-forget profile test ps h =
      pg_delete_lem profile _ ps
      ∙ delete-picked tenant profile test _ ps
          (λ j.
            includes-by_age before (λ p. test p.rule) j (keep_if (is_of_profile tenant profile) ps))
          h.1

  pub pg-IsLawful : IsLawful pg_store (IsTable tenant) IsNewId
  pg-IsLawful = record {
    upsert-IsValid = (λ id now n ps new h.
        ((λ k. pg-upsert-count id now n k ps (h.0 k)), pg-upsert-IsDistinct id now n ps new h.1));
    forget-IsValid = (λ profile test ps h.
        subst (IsTable tenant) (sym (pg-forget profile test ps h))
          (kept-IsTable tenant (λ p. not (is_picked tenant profile test p)) ps h));
    rule-upsert = (λ id now n k ps h.
        pg-rule k _ (pg-upsert-count id now n k ps (h.0 k))
        ∙ pg-upsert-rule id now n k ps
        ∙ ap (λ r. if same_key n k then some n else r) (sym (pg-rule k ps (h.0 k))));
    rule-forget = (λ profile test k ps h.
        let kept = kept-IsTable tenant (λ p. not (is_picked tenant profile test p)) ps h in
        ap (shown_rule pg_store k) (pg-forget profile test ps h)
        ∙ pg-rule k _ (kept.0 k)
        ∙ rule_at-kept tenant profile test k ps (h.0 k)
        ∙ ap
            (λ r.
              if str_eq k.voice_profile profile && elim r [ none ↦ false | some x ↦ test x ]
              then none
              else r)
            (sym (pg-rule k ps (h.0 k))));
  }
