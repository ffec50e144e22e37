-- ===== src/Memory/Limit.antt =====
-- How many rules a shop remembers for a speaker (apps/mcp-server/src/memory-tools.ts).
use groceryclaw.Memory.Rules.{
  store_rule, max_rules_per_profile, Words, remember, RememberArgs, new_rule,
}
use groceryclaw.Memory.{
  list_preferences, NewPreference, ShopPreference, upsert_preference, remove_first, is_same_rule,
  kind_eq, is_of_profile,
}
use groceryclaw.Base.{
  ℕ, suc, ◌≤◌, ◌<◌, ◌⊎◌, String, Bool, true, false, ◌&&◌, List, [], ◌∷◌, ◌++◌, ◌≡◌, refl, inl, inr,
  Option-cases, Bool-cases, arith, subst, str_eq, str_eq_iff, any, length, length-append,
}

module _ (t : String) (prof : String) where
  pub list-append :
      (ps qs : List ShopPreference)
      → list_preferences t prof (ps ++ qs)
        ≡ list_preferences t prof ps ++ list_preferences t prof qs
  unfolding list_preferences
  list-append [] qs = refl
  list-append (p ∷ ps) qs = ground (arith, list-append ps qs)

  list-remove_first :
      (q : ShopPreference → Bool) (ps : List ShopPreference)
      → length (list_preferences t prof (remove_first q ps)) ≤ length (list_preferences t prof ps)
  unfolding list_preferences remove_first
  list-remove_first q [] = omega arith
  list-remove_first q (p ∷ ps) = ground (arith, list-remove_first q ps)

  length-others :
      (p : ShopPreference)
      → is_of_profile t prof p ≡ false
      → length (list_preferences t prof (p ∷ [])) ≡ 0
  unfolding list_preferences
  length-others p h = ground (arith, h)

  length-own :
      (p : ShopPreference)
      → is_of_profile t prof p ≡ true
      → length (list_preferences t prof (p ∷ [])) ≡ 1
  unfolding list_preferences
  length-own p h = ground (arith, h)

module _ (tenant : String) (n : NewPreference) where
  -- Replacing a rule leaves one rule fewer before the new one is added.
  list-replaced :
      (ps : List ShopPreference)
      → any (is_same_rule tenant n) ps ≡ true
      → suc (
          length
            (list_preferences tenant n.voice_profile (remove_first (is_same_rule tenant n) ps)))
        ≡ length (list_preferences tenant n.voice_profile ps)
  unfolding list_preferences remove_first
  list-replaced [] h = absurd (ground (arith, h))
  list-replaced (p ∷ ps) h = elim (Bool-cases (is_same_rule tenant n p)) [
    | inl same ↦ ground (arith, same)
    | inr other ↦ ground (arith, other, list-replaced ps (ground (arith, other, h)))
  ]

  any-existing :
      (ps : List ShopPreference)
      → any
          (λ p. kind_eq p.rule.kind n.kind && str_eq p.rule.subject n.subject)
          (list_preferences tenant n.voice_profile ps)
        ≡ any (is_same_rule tenant n) ps
  unfolding list_preferences
  any-existing [] = refl
  any-existing (p ∷ ps) = ground (arith, any-existing ps)

  -- What storing a rule leaves: the same rules, or the new one at the end where there is room for it.
  pub store_rule-cases :
      (id : String) (now : ℕ) (ps : List ShopPreference)
      → ((store_rule tenant id now n ps).0 ≡ ps)
        ⊎ (((store_rule tenant id now n ps).0 ≡ (upsert_preference tenant id now n ps).0)
            × ((any (is_same_rule tenant n) ps ≡ true)
                ⊎ (length (list_preferences tenant n.voice_profile ps) < max_rules_per_profile)))
  unfolding store_rule
  store_rule-cases id now ps = ground (arith, any-existing ps)

  own-IsWithin :
      (id : String) (now : ℕ) (ps : List ShopPreference)
      → (any (is_same_rule tenant n) ps ≡ true)
        ⊎ (length (list_preferences tenant n.voice_profile ps) < max_rules_per_profile)
      → length (list_preferences tenant n.voice_profile ps) ≤ max_rules_per_profile
      → length (list_preferences tenant n.voice_profile (remove_first (is_same_rule tenant n) ps))
        < max_rules_per_profile
  own-IsWithin id now ps (inl same) h = let e = list-replaced ps same in omega (arith, e, h)
  own-IsWithin id now ps (inr room) h =
      let e = list-remove_first tenant n.voice_profile (is_same_rule tenant n) ps in
      omega (arith, e, room)

  upsert-IsWithin :
      (t prof id : String) (now : ℕ) (ps : List ShopPreference)
      → (any (is_same_rule tenant n) ps ≡ true)
        ⊎ (length (list_preferences tenant n.voice_profile ps) < max_rules_per_profile)
      → ((t' prof' : String) → length (list_preferences t' prof' ps) ≤ max_rules_per_profile)
      → length (list_preferences t prof (upsert_preference tenant id now n ps).0)
        ≤ max_rules_per_profile
  unfolding upsert_preference
  upsert-IsWithin t prof id now ps room h =
      let row : ShopPreference = record {
        id = id;
        tenant_id = tenant;
        rule = n;
        created_at = now;
      } in
      let rest = remove_first (is_same_rule tenant n) ps in
      let split = list-append t prof rest (row ∷ []) in
      let shrunk = list-remove_first t prof (is_same_rule tenant n) ps in
      let bound = h t prof in
      elim (Bool-cases (is_of_profile t prof row)) [
        | inr other ↦
            let alone : length (list_preferences t prof (row ∷ [])) ≡ 0 =
              length-others t prof row other in
            rw
              (
                split,
                length-append (list_preferences t prof rest) (list_preferences t prof (row ∷ [])),
                alone,
              )
              (omega (arith, shrunk, bound))
        | inl own ↦
            let t=tenant : tenant ≡ t = (str_eq_iff tenant t).0 (ground (arith, own)) in
            let p=prof : n.voice_profile ≡ prof =
              (str_eq_iff n.voice_profile prof).0 (ground (arith, own)) in
            let alone : length (list_preferences t prof (row ∷ [])) ≡ 1 =
              length-own t prof row own in
            let few : length (list_preferences t prof rest) < max_rules_per_profile =
              subst (λ t'. length (list_preferences t' prof rest) < max_rules_per_profile) t=tenant
                (subst (λ p'. length (list_preferences tenant p' rest) < max_rules_per_profile)
                  p=prof (own-IsWithin id now ps room (h tenant n.voice_profile))) in
            rw
              (
                split,
                length-append (list_preferences t prof rest) (list_preferences t prof (row ∷ [])),
                alone,
              )
              (omega (arith, few))
      ]

module _ (words : Words) (product_names : List String) where
  -- If no speaker of any shop has more than 20 rules, none has after `remember_shop_rule`, whatever it
  -- answers.
  pub remember-IsWithin :
      (tenant id : String) (now : ℕ) (a : RememberArgs) (ps : List ShopPreference) (t prof : String)
      → ((t' prof' : String) → length (list_preferences t' prof' ps) ≤ max_rules_per_profile)
      → length (list_preferences t prof (remember words product_names tenant id now a ps).0)
        ≤ max_rules_per_profile
  unfolding remember
  remember-IsWithin tenant id now a ps t prof h =
      elim (Option-cases (new_rule words product_names a)) [
        | inl none' ↦ rw (none', remember) (h t prof)
        | inr (n, e) ↦
            rw (e, remember)
              (elim (store_rule-cases tenant n id now ps) [
                | inl same ↦ rw same (h t prof)
                | inr (stored, room) ↦ rw stored (upsert-IsWithin tenant n t prof id now ps room h)
              ])
      ]
