-- ===== src/Memory/InMemory.antt =====
-- The rules in memory, apps/mcp-server/src/memory-store.ts, as a store that answers the calls of Memory/Store.
use mathlib.Core.Option
use groceryclaw.Memory.Rows.{
  IsTable, rule_at, kept-IsTable, count-added, is_picked, rule_at-added, rule_row, rule_at-kept,
}
use groceryclaw.Memory.Picked.{
  IsDistinct, ids_of, append-IsDistinct, keep-keep, keep-cong, includes-picked,
}
use groceryclaw.Memory.Keyed.{
  same_key, kind_eq_refl, count, has_key, find-remove_other, count-remove_same, count-remove_other,
}
use groceryclaw.Memory.Store.{PreferenceStore, IsLawful, forget_rules, shown_rule}
use groceryclaw.Memory.{
  upsert_preference, list_preferences, remove_first, NewPreference, delete_preferences,
  ShopPreference, is_of_profile, is_deleted,
}
use groceryclaw.Memory.Undo.{IsNewId, remove_first-IsNewId}
use groceryclaw.Base.{
  ℕ, ◌≤◌, String, Bool, true, false, not, ◌&&◌, List, [], ◌∷◌, none, some, ◌≡◌, refl, inl, inr,
  if◌then◌else◌, Bool-cases, arith, sym, ◌∙◌, ap, subst, str_eq, str_eq_refl, find, keep_if,
  includes, All-map,
}

same_key_refl : (n : NewPreference) → same_key n n ≡ true
same_key_refl n =
    ground (arith, str_eq_refl n.voice_profile, str_eq_refl n.subject, kind_eq_refl n.kind)

module _ (tenant : String) where
  abbrev pub memory_store : PreferenceStore
  memory_store = record {
    State = List ShopPreference;
    list_preferences = list_preferences tenant;
    upsert_preference = (λ id now n ps. (upsert_preference tenant id now n ps).0);
    delete_preferences = (λ profile ids ps. (delete_preferences tenant profile ids ps).0);
  }

  pub find-listed :
      (k : NewPreference) (ps : List ShopPreference)
      → find (λ p. same_key p.rule k) (keep_if (is_of_profile tenant k.voice_profile) ps)
        ≡ find (has_key tenant k) ps
  find-listed k [] = refl
  find-listed k (p ∷ ps) = ground (arith, find-listed k ps)

  memory-rule :
      (k : NewPreference) (ps : List ShopPreference)
      → shown_rule memory_store k ps ≡ rule_at tenant k ps
  unfolding list_preferences
  memory-rule k ps = ap (Option.map (λ p. p.rule)) (find-listed k ps)

  -- Deleting the identifiers that the speaker's list shows for a test deletes the rows that pass it.
  pub delete-picked :
      (profile : String) (test : NewPreference → Bool) (ids : List String)
      (ps : List ShopPreference)
      → ((j : String)
          → includes ids j
            ≡ includes
                (ids_of (keep_if (λ p. test p.rule) (keep_if (is_of_profile tenant profile) ps)))
                j)
      → IsDistinct ps
      → keep_if (λ p. not (is_deleted tenant profile ids p)) ps
        ≡ keep_if (λ p. not (is_picked tenant profile test p)) ps
  delete-picked profile test ids ps same distinct =
      let one =
        ap (λ qs. ids_of qs) (keep-keep (λ p. test p.rule) (is_of_profile tenant profile) ps) in
      keep-cong (λ p. not (is_deleted tenant profile ids p))
        (λ p. not (is_picked tenant profile test p)) ps
        (All-map
          (λ p e.
            let found = same p.id ∙ ap (λ is. includes is p.id) one ∙ e in ground (arith, found))
          ps (includes-picked (is_picked tenant profile test) ps distinct))

  remove-IsDistinct :
      (q : ShopPreference → Bool) (ps : List ShopPreference)
      → IsDistinct ps
      → IsDistinct (remove_first q ps)
  unfolding remove_first
  remove-IsDistinct q [] h = tt
  remove-IsDistinct q (p ∷ ps) h = elim (Bool-cases (q p)) [
    | inl gone ↦ rw (gone, remove_first) h.1
    | inr kept ↦
        rw (kept, remove_first) (remove_first-IsNewId q p.id ps h.0, remove-IsDistinct q ps h.1)
  ]

  count-removed :
      (n k : NewPreference) (ps : List ShopPreference)
      → count (has_key tenant k) ps ≤ 1
      → count (has_key tenant k) (remove_first (has_key tenant n) ps) ≤ 1
  count-removed n k ps h = elim (Bool-cases (same_key n k)) [
    | inl same ↦ omega (arith, h, count-remove_same tenant n k ps same)
    | inr other ↦ omega (arith, h, count-remove_other tenant n k ps other)
  ]

  count-gone :
      (n : NewPreference) (ps : List ShopPreference)
      → IsTable tenant ps
      → count (has_key tenant n) (remove_first (has_key tenant n) ps) ≡ 0
  count-gone n ps h = omega (arith, h.0 n, count-remove_same tenant n n ps (same_key_refl n))

  memory-upsert-IsTable :
      (id : String) (now : ℕ) (n : NewPreference) (ps : List ShopPreference)
      → IsNewId id ps
      → IsTable tenant ps
      → IsTable tenant (upsert_preference tenant id now n ps).0
  unfolding upsert_preference
  memory-upsert-IsTable id now n ps new h =
      let left = remove_first (has_key tenant n) ps in
      (
        λ k. count-added tenant id now n k left (count-gone n ps h) (count-removed n k ps (h.0 k)),
        append-IsDistinct left (rule_row tenant id now n)
            (remove_first-IsNewId (has_key tenant n) id ps new)
            (remove-IsDistinct (has_key tenant n) ps h.1),
      )

  rule_at-removed :
      (n k : NewPreference) (ps : List ShopPreference)
      → (if same_key n k then some n else rule_at tenant k (remove_first (has_key tenant n) ps))
        ≡ (if same_key n k then some n else rule_at tenant k ps)
  rule_at-removed n k ps = elim (Bool-cases (same_key n k)) [
    | inl same ↦ rw same refl
    | inr other ↦ rw other (ap (Option.map (λ p. p.rule)) (find-remove_other tenant n k ps other))
  ]

  memory-forget :
      (profile : String) (test : NewPreference → Bool) (ps : List ShopPreference)
      → IsTable tenant ps
      → forget_rules memory_store profile test ps
        ≡ keep_if (λ p. not (is_picked tenant profile test p)) ps
  unfolding list_preferences delete_preferences
  memory-forget profile test ps h = delete-picked profile test _ ps (λ j. refl) h.1

  pub memory-IsLawful : IsLawful memory_store (IsTable tenant) IsNewId
  unfolding upsert_preference
  memory-IsLawful = record {
    upsert-IsValid = memory-upsert-IsTable;
    forget-IsValid = (λ profile test ps h.
        subst (IsTable tenant) (sym (memory-forget profile test ps h))
          (kept-IsTable tenant (λ p. not (is_picked tenant profile test p)) ps h));
    rule-upsert = (λ id now n k ps h.
        memory-rule k _
        ∙ rule_at-added tenant id now n k (remove_first (has_key tenant n) ps) (count-gone n ps h)
        ∙ rule_at-removed n k ps
        ∙ ap (λ r. if same_key n k then some n else r) (sym (memory-rule k ps)));
    rule-forget = (λ profile test k ps h.
        memory-rule k _
        ∙ ap (rule_at tenant k) (memory-forget profile test ps h)
        ∙ rule_at-kept tenant profile test k ps (h.0 k)
        ∙ ap
            (λ r.
              if str_eq k.voice_profile profile && elim r [ none ↦ false | some x ↦ test x ]
              then none
              else r)
            (sym (memory-rule k ps)));
  }
