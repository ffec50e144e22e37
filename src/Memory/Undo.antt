-- ===== src/Memory/Undo.antt =====
-- "Forget that" takes back the last rule (apps/mcp-server/src/memory-tools.ts).
use groceryclaw.Memory.Limit.{list-append}
use groceryclaw.Memory.{
  delete_preferences, ShopPreference, remove_first, is_deleted, is_of_profile, list_preferences,
  NewPreference, upsert_preference, is_same_rule,
}
use groceryclaw.Memory.Rules.{
  Words, last_only, ForgetArgs, forget, RememberArgs, targets, store_rule, new_rule, remember,
  remembered,
}
use groceryclaw.Base.{
  ℕ, String, Bool, true, false, List, [], ◌∷◌, ◌++◌, Option, none, some, ◌≡◌, refl, inl, inr,
  Option-cases, Bool-cases, arith, sym, ◌∙◌, ap, subst, str_eq, str_eq_refl, All,
}

last-append : (ps : List ShopPreference) (p : ShopPreference) → last_only (ps ++ p ∷ []) ≡ p ∷ []
unfolding last_only
last-append [] p = refl
last-append (q ∷ []) p = refl
last-append (q ∷ r ∷ ps) p = last-append (r ∷ ps) p

-- No rule has the identifier.
abbrev pub IsNewId : String → List ShopPreference → Type 0
IsNewId id ps = All (λ p. str_eq id p.id ≡ false) ps

pub remove_first-IsNewId :
    (q : ShopPreference → Bool) (id : String) (ps : List ShopPreference)
    → IsNewId id ps
    → IsNewId id (remove_first q ps)
unfolding remove_first
remove_first-IsNewId q id [] h = tt
remove_first-IsNewId q id (p ∷ ps) h = elim (Bool-cases (q p)) [
  | inl gone ↦ rw (gone, remove_first) h.1
  | inr kept ↦ rw (kept, remove_first) (h.0, remove_first-IsNewId q id ps h.1)
]

module _ (tenant prof id : String) where
  delete-last :
      (ps : List ShopPreference) (p : ShopPreference)
      → IsNewId id ps
      → is_deleted tenant prof (id ∷ []) p ≡ true
      → delete_preferences tenant prof (id ∷ []) (ps ++ p ∷ []) ≡ (ps, 1)
  unfolding delete_preferences
  delete-last [] p h d = ground (arith, d)
  delete-last (q ∷ ps) p h d = ground (arith, h.0, d, delete-last ps p h.1 d)

-- The arguments of "forget that".
abbrev pub that : Option String → ForgetArgs
that who = record { product = none; all = false; profile = who }

list-one :
    (tenant prof : String) (p : ShopPreference)
    → is_of_profile tenant prof p ≡ true
    → list_preferences tenant prof (p ∷ []) ≡ p ∷ []
unfolding list_preferences
list-one tenant prof p h = ground (arith, h)

forget-last :
    (words : Words) (tenant : String) (who : Option String) (ps : List ShopPreference)
    (p : ShopPreference)
    → is_of_profile tenant (words.normalize_profile who) p ≡ true
    → IsNewId p.id ps
    → forget words tenant (that who) (ps ++ p ∷ []) ≡ (ps, 1)
unfolding forget targets
forget-last words tenant who ps p own new =
    let prof = words.normalize_profile who in
    let found : last_only (list_preferences tenant prof (ps ++ p ∷ [])) ≡ p ∷ [] =
      ap last_only (
        list-append tenant prof ps (p ∷ [])
        ∙ ap (λ qs. list_preferences tenant prof ps ++ qs) (list-one tenant prof p own))
      ∙ last-append (list_preferences tenant prof ps) p in
    rw found (delete-last tenant prof p.id ps p new (ground (arith, own, str_eq_refl p.id)))

module _ (words : Words) (product_names : List String) (tenant id : String) (now : ℕ)
    (a : RememberArgs) (ps : List ShopPreference) where
  new_rule-profile :
      (n : NewPreference)
      → new_rule words product_names a ≡ some n
      → n.voice_profile ≡ words.normalize_profile a.profile
  unfolding new_rule
  new_rule-profile n e = ground (arith, e)

  stored_lem :
      (n : NewPreference) (r : ShopPreference)
      → (store_rule tenant id now n ps).1 ≡ remembered r
      → (r ≡ record { id = id; tenant_id = tenant; rule = n; created_at = now })
        × ((store_rule tenant id now n ps).0 ≡ remove_first (is_same_rule tenant n) ps ++ r ∷ [])
  unfolding store_rule upsert_preference
  stored_lem n r e = ground (arith, e)

  -- "Forget that" takes back the rule that was just remembered: where `remember_shop_rule` stored a rule
  -- under an identifier that no rule had, `forget_shop_rule` of the same speaker without a product deletes
  -- 1 rule and leaves the rules as before, without the one that the new rule had replaced.
  pub forget-remember :
      (r : ShopPreference)
      → (remember words product_names tenant id now a ps).1 ≡ remembered r
      → IsNewId id ps
      → forget words tenant (that a.profile) (remember words product_names tenant id now a ps).0
        ≡ (remove_first (is_same_rule tenant r.rule) ps, 1)
  unfolding remember
  forget-remember r e new = elim (Option-cases (new_rule words product_names a)) [
    | inl none' ↦ absurd (ground (arith, none', e))
    | inr (n, found) ↦
        let (row, kept) = stored_lem n r (ground (arith, found, e)) in
        let profile = new_rule-profile n found in
        let rule' : r.rule ≡ n = ap ShopPreference.rule row in
        let id' : id ≡ r.id = sym (ap ShopPreference.id row) in
        let own : is_of_profile tenant (words.normalize_profile a.profile) r ≡ true = ground (
          arith,
          ap ShopPreference.tenant_id row,
          rule',
          profile,
          str_eq_refl tenant,
          str_eq_refl (words.normalize_profile a.profile),
        ) in
        let undone =
          forget-last words tenant a.profile (remove_first (is_same_rule tenant n) ps) r own (
            subst (λ k. IsNewId k (remove_first (is_same_rule tenant n) ps)) id'
              (remove_first-IsNewId (is_same_rule tenant n) id ps new)) in
        rw (found, remember, kept)
          (subst
            (λ m.
              forget words tenant (that a.profile)
                (remove_first (is_same_rule tenant n) ps ++ r ∷ [])
              ≡ (remove_first (is_same_rule tenant m) ps, 1))
            (sym rule') undone)
  ]
