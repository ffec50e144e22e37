-- ===== src/Memory/Store.antt =====
-- The calls for rules of `ShopRepository` (apps/mcp-server/src/store.ts), whichever store answers them, and what
-- a run of remembering and forgetting means.
use groceryclaw.Memory.{NewPreference, ShopPreference}
use groceryclaw.Memory.Keyed.{same_key}
use mathlib.Core.Option
use groceryclaw.Base.{
  fun_ext, ℕ, String, Bool, false, ◌&&◌, List, [], ◌∷◌, map, Option, none, some, ◌≡◌, refl,
  if◌then◌else◌, ◌∙◌, ap, str_eq, find, keep_if,
}

pub record PreferenceStore : Type 1 where
  pub State : Type 0
  pub list_preferences : (profile : String) → State → List ShopPreference
  pub upsert_preference : (id : String) (now : ℕ) → NewPreference → State → State
  pub delete_preferences : (profile : String) (ids : List String) → State → State

-- The rule that `listPreferences` shows for the speaker, kind and subject of `k`.
abbrev pub shown_rule : (S : PreferenceStore) → NewPreference → S.State → Option NewPreference
shown_rule S k st =
    Option.map (λ p. p.rule) (find (λ p. same_key p.rule k) (S.list_preferences k.voice_profile st))

-- The tool `forget_shop_rule` where it is asked for all rules or for those on a product: the speaker's rules
-- that pass a test are deleted by their identifiers.
abbrev pub forget_rules :
    (S : PreferenceStore) → (profile : String) (test : NewPreference → Bool) → S.State → S.State
forget_rules S profile test st =
    S.delete_preferences profile
      (map (λ p. p.id) (keep_if (λ p. test p.rule) (S.list_preferences profile st))) st

-- A state without its representation: the rule for each speaker, kind and subject.
abbrev pub Rules : Type 0
Rules = NewPreference → Option NewPreference

abbrev pub is_forgotten :
    (profile : String) (test : NewPreference → Bool) → Rules → NewPreference → Bool
is_forgotten profile test f k =
    str_eq k.voice_profile profile && elim (f k) [ none ↦ false | some r ↦ test r ]

-- What a store promises of its states that are valid; `IsFresh` is what it asks of a new identifier.
pub record IsLawful (S : PreferenceStore) (IsValid : S.State → Type 0)
    (IsFresh : String → S.State → Type 0) : Type 0 where
  pub upsert-IsValid :
      (id : String) (now : ℕ) (n : NewPreference) (st : S.State)
      → IsFresh id st
      → IsValid st
      → IsValid (S.upsert_preference id now n st)
  pub forget-IsValid :
      (profile : String) (test : NewPreference → Bool) (st : S.State)
      → IsValid st
      → IsValid (forget_rules S profile test st)
  pub rule-upsert :
      (id : String) (now : ℕ) (n k : NewPreference) (st : S.State)
      → IsValid st
      → shown_rule S k (S.upsert_preference id now n st)
        ≡ (if same_key n k then some n else shown_rule S k st)
  pub rule-forget :
      (profile : String) (test : NewPreference → Bool) (k : NewPreference) (st : S.State)
      → IsValid st
      → shown_rule S k (forget_rules S profile test st)
        ≡ (if is_forgotten profile test (λ j. shown_rule S j st) k then none else shown_rule S k st)

pub data Change : Type 0 where
  remembered_rule : (id : String) (now : ℕ) → NewPreference → Change
  forgotten_rules : (profile : String) → (NewPreference → Bool) → Change

abbrev pub change : (S : PreferenceStore) → Change → S.State → S.State
change S (remembered_rule id now n) st = S.upsert_preference id now n st
change S (forgotten_rules profile test) st = forget_rules S profile test st

abbrev pub run : (S : PreferenceStore) → List Change → S.State → S.State
run S [] st = st
run S (c ∷ cs) st = run S cs (change S c st)

abbrev pub change_rules : Change → Rules → Rules
change_rules (remembered_rule id now n) f k = if same_key n k then some n else f k
change_rules (forgotten_rules profile test) f k =
    if is_forgotten profile test f k then none else f k

abbrev pub replay : List Change → Rules → Rules
replay [] f = f
replay (c ∷ cs) f = replay cs (change_rules c f)

module _ (S : PreferenceStore) (IsFresh : String → S.State → Type 0) where
  -- The identifier of each new row is fresh.
  abbrev pub AreFresh : List Change → S.State → Type 0
  AreFresh [] st = Unit
  AreFresh (remembered_rule id now n ∷ cs) st =
      IsFresh id st × AreFresh cs (S.upsert_preference id now n st)
  AreFresh (forgotten_rules profile test ∷ cs) st = AreFresh cs (forget_rules S profile test st)

  pub rule-run :
      (IsValid : S.State → Type 0)
      → IsLawful S IsValid IsFresh
      → (cs : List Change) (st : S.State) → IsValid st
      → AreFresh cs st
      → (λ k. shown_rule S k (run S cs st)) ≡ replay cs (λ k. shown_rule S k st)
  rule-run IsValid laws [] st valid fresh = refl
  rule-run IsValid laws (remembered_rule id now n ∷ cs) st valid fresh =
      rule-run IsValid laws cs (S.upsert_preference id now n st)
        (laws.upsert-IsValid id now n st fresh.0 valid) fresh.1
      ∙ ap (replay cs) (fun_ext λ k. laws.rule-upsert id now n k st valid)
  rule-run IsValid laws (forgotten_rules profile test ∷ cs) st valid fresh =
      rule-run IsValid laws cs (forget_rules S profile test st)
        (laws.forget-IsValid profile test st valid) fresh
      ∙ ap (replay cs) (fun_ext λ k. laws.rule-forget profile test k st valid)
