-- ===== src/Memory/Rules.antt =====
-- apps/mcp-server/src/memory-tools.ts: the tools `remember_shop_rule` and `forget_shop_rule`. What is spoken is
-- left out. The functions on words (apps/mcp-server/src/preferences.ts) and the search of a supplier are
-- arguments.
use groceryclaw.Memory.{
  ShopPreference, delete_preferences, NewPreference, PreferenceKind, upsert_preference, kind_eq,
  list_preferences, order_day, preferred_supplier, max_order_qty,
}
use groceryclaw.Base.{
  ℕ, String, Bool, not, ◌&&◌, ◌||◌, List, [], ◌∷◌, map, Option, none, some, if◌then◌else◌, leb,
  ◌==◌, str_eq, is_some, any, keep_if, length, guard, ◌>>=◌, ◌>>◌, get_or_else,
}

pub record Words : Type 0 where
  pub normalize_profile : Option String → String
  pub canonical_subject : String → String
  pub rule_matches_product : String → String → Bool
  -- The codes of the suppliers that the words can mean.
  pub find_supplier : String → List String

abbrev pub max_rules_per_profile : ℕ
max_rules_per_profile = 20

pub record RememberArgs : Type 0 where
  pub kind : PreferenceKind
  pub product : Option String
  pub supplier : Option String
  pub max_qty : Option ℕ
  pub weekday : Option String
  pub owner_words : String
  pub profile : Option String

pub data RememberReply : Type 0 where
  remembered : ShopPreference → RememberReply
  needs_clarification limit_reached : RememberReply

-- `some code` of the only supplier meant; `none` where the owner is asked again.
abbrev the_supplier : List String → Option (Option String)
the_supplier (code ∷ []) = some (some code)
the_supplier _ = none

abbrev is_order_day : PreferenceKind → Bool
is_order_day k = kind_eq k order_day

-- The tenant's own rules are read once, before the rule is stored.
unfoldable pub store_rule :
    (tenant id : String) (now : ℕ)
    → NewPreference
    → List ShopPreference
    → List ShopPreference × RememberReply
unfolding upsert_preference list_preferences
store_rule tenant id now n ps =
    let existing = list_preferences tenant n.voice_profile ps in
    if not (any (λ p. kind_eq p.rule.kind n.kind && str_eq p.rule.subject n.subject) existing)
      && leb max_rules_per_profile (length existing)
    then (ps, limit_reached)
    else (let (ps', row) = upsert_preference tenant id now n ps in (ps', remembered row))

module _ (words : Words) (product_names : List String) where
  abbrev pub subject_of : RememberArgs → String
  subject_of a =
      if is_order_day a.kind then "" else words.canonical_subject (get_or_else a.product "")

  -- A rule is about a product that the shop has.
  unfoldable pub subject_known : RememberArgs → Bool
  subject_known a =
      is_order_day a.kind
      || (not (str_eq (subject_of a) "")
          && any (words.rule_matches_product (subject_of a)) product_names)

  -- The rule that the arguments give, or `none` where something is missing.
  unfoldable pub new_rule : RememberArgs → Option NewPreference
  unfolding subject_known
  new_rule a =
      let code =
        (if kind_eq a.kind preferred_supplier
          then the_supplier (words.find_supplier (get_or_else a.supplier ""))
          else some none) in
      guard (subject_known a)
      >> (code >>= λ c.
          guard (not (kind_eq a.kind max_order_qty && not (is_some a.max_qty)))
          >> (guard (not (is_order_day a.kind && not (is_some a.weekday)))
              >> some (record {
                voice_profile = words.normalize_profile a.profile;
                kind = a.kind;
                subject = subject_of a;
                supplier_code = c;
                max_qty = if kind_eq a.kind max_order_qty then a.max_qty else none;
                weekday = if is_order_day a.kind then a.weekday else none;
                statement = a.owner_words;
              })))

  unfoldable pub remember :
      (tenant id : String) (now : ℕ)
      → RememberArgs
      → List ShopPreference
      → List ShopPreference × RememberReply
  unfolding new_rule store_rule
  remember tenant id now a ps = elim (new_rule a) [
    | none ↦ (ps, needs_clarification)
    | some n ↦ store_rule tenant id now n ps
  ]

pub record ForgetArgs : Type 0 where
  pub product : Option String
  pub all : Bool
  pub profile : Option String

-- `prefs.slice(-1)`
unfoldable pub last_only : List ShopPreference → List ShopPreference
last_only [] = []
last_only (p ∷ []) = p ∷ []
last_only (p ∷ q ∷ ps) = last_only (q ∷ ps)

module _ (words : Words) where
  abbrev about : String → ShopPreference → Bool
  about subject p =
      not (str_eq p.rule.subject "")
      && (words.rule_matches_product p.rule.subject subject
          || words.rule_matches_product subject p.rule.subject)

  -- The rules to delete. An empty product counts as none.
  unfoldable pub targets : ForgetArgs → List ShopPreference → List ShopPreference
  unfolding last_only
  targets a prefs = if a.all then prefs else elim a.product [
    | none ↦ last_only prefs
    | some t ↦
        if str_eq t "" then last_only prefs else keep_if (about (words.canonical_subject t)) prefs
  ]

  unfoldable pub forget :
      (tenant : String) → ForgetArgs → List ShopPreference → List ShopPreference × ℕ
  unfolding targets delete_preferences list_preferences
  forget tenant a ps =
      let profile = words.normalize_profile a.profile in
      let target = targets a (list_preferences tenant profile ps) in
      if length target == 0
      then (ps, 0)
      else delete_preferences tenant profile (map ShopPreference.id target) ps
