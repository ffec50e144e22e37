-- ===== src/Memory/Keyed.antt =====
-- Tables of rules (apps/mcp-server/src/memory-store.ts, apps/mcp-server/src/pg-store.ts) in which no two rules of
-- a shop have one key.
use mathlib.Core.Option
use groceryclaw.Memory.Postgres.{set_rule}
use groceryclaw.Memory.{
  PreferenceKind, remove_first, NewPreference, kind_eq, ShopPreference, is_same_rule,
}
use groceryclaw.Base.{
  ℕ, ◌+◌, ◌-◌, ◌≤◌, String, Bool, true, false, ◌&&◌, List, [], ◌∷◌, ◌++◌, map, none, some, ◌≡◌,
  refl, inl, inr, if◌then◌else◌, Bool-cases, arith, str_eq, str_eq_iff, any, find, keep_if, length,
  ◌>>=◌,
}

abbrev pub count {ℓ} : {A : Type ℓ} → (A → Bool) → List A → ℕ
count p xs = length (keep_if p xs)

-- Two rules of one speaker, kind and subject.
abbrev pub same_key : NewPreference → NewPreference → Bool
same_key n k =
    str_eq n.voice_profile k.voice_profile && (kind_eq n.kind k.kind && str_eq n.subject k.subject)

kind_eq-eq : (a b : PreferenceKind) → kind_eq a b ≡ true → a ≡ b
kind_eq-eq a b h = ground (arith, h)

pub kind_eq_refl : (a : PreferenceKind) → kind_eq a a ≡ true
kind_eq_refl a = ground arith

module _ (tenant : String) where
  abbrev pub has_key : NewPreference → ShopPreference → Bool
  has_key k p = is_same_rule tenant k p

  -- Rows have a key or have not, whichever rule names the key.
  pub has_key-same :
      (n k : NewPreference) (p : ShopPreference) → same_key n k ≡ true → has_key n p ≡ has_key k p
  has_key-same n k p h =
      let a = (str_eq_iff n.voice_profile k.voice_profile).0 (ground (arith, h)) in
      let b = kind_eq-eq n.kind k.kind (ground (arith, h)) in
      let c = (str_eq_iff n.subject k.subject).0 (ground (arith, h)) in cc (a, b, c)

  pub has_key-other :
      (n k : NewPreference) (p : ShopPreference)
      → same_key n k ≡ false
      → has_key n p ≡ true
      → has_key k p ≡ false
  has_key-other n k p h e =
      let a = (str_eq_iff p.rule.voice_profile n.voice_profile).0 (ground (arith, e)) in
      let b = kind_eq-eq p.rule.kind n.kind (ground (arith, e)) in
      let c = (str_eq_iff p.rule.subject n.subject).0 (ground (arith, e)) in
      ground (arith, h, a, b, c)

  pub find-append :
      (k : NewPreference) (ps : List ShopPreference) (row : ShopPreference)
      → count (has_key k) ps ≡ 0
      → find (has_key k) (ps ++ row ∷ []) ≡ (if has_key k row then some row else none)
  find-append k [] row h = refl
  find-append k (p ∷ ps) row h = ground (arith, h, find-append k ps row)

  pub find-append_other :
      (k : NewPreference) (ps : List ShopPreference) (row : ShopPreference)
      → has_key k row ≡ false
      → find (has_key k) (ps ++ row ∷ []) ≡ find (has_key k) ps
  find-append_other k [] row h = ground (arith, h)
  find-append_other k (p ∷ ps) row h = ground (arith, find-append_other k ps row h)

  pub count-append :
      (k : NewPreference) (ps : List ShopPreference) (row : ShopPreference)
      → count (has_key k) (ps ++ row ∷ []) ≡ count (has_key k) ps + count (has_key k) (row ∷ [])
  count-append k [] row = omega arith
  count-append k (p ∷ ps) row = ground (arith, count-append k ps row)

  pub count-any :
      (k : NewPreference) (ps : List ShopPreference)
      → any (has_key k) ps ≡ false
      → count (has_key k) ps ≡ 0
  count-any k [] h = refl
  count-any k (p ∷ ps) h = ground (arith, h, count-any k ps)

  -- The row with the key is gone, and it was the only one.
  pub count-remove_same :
      (n k : NewPreference) (ps : List ShopPreference)
      → same_key n k ≡ true
      → count (has_key k) (remove_first (has_key n) ps) ≡ count (has_key k) ps - 1
  unfolding remove_first
  count-remove_same n k [] h = omega arith
  count-remove_same n k (p ∷ ps) h =
      ground (arith, has_key-same n k p h, count-remove_same n k ps h)

  pub count-remove_other :
      (n k : NewPreference) (ps : List ShopPreference)
      → same_key n k ≡ false
      → count (has_key k) (remove_first (has_key n) ps) ≡ count (has_key k) ps
  unfolding remove_first
  count-remove_other n k [] h = refl
  count-remove_other n k (p ∷ ps) h =
      ground (arith, has_key-other n k p h, count-remove_other n k ps h)

  pub find-remove_other :
      (n k : NewPreference) (ps : List ShopPreference)
      → same_key n k ≡ false
      → find (has_key k) (remove_first (has_key n) ps) ≡ find (has_key k) ps
  unfolding remove_first
  find-remove_other n k [] h = refl
  find-remove_other n k (p ∷ ps) h =
      ground (arith, has_key-other n k p h, find-remove_other n k ps h)

  find-zero :
      (k : NewPreference) (ps : List ShopPreference)
      → count (has_key k) ps ≡ 0
      → find (has_key k) ps ≡ none
  find-zero k [] h = refl
  find-zero k (p ∷ ps) h = ground (arith, h, find-zero k ps)

  pub count-keep :
      (k : NewPreference) (s : ShopPreference → Bool) (ps : List ShopPreference)
      → count (has_key k) (keep_if s ps) ≤ count (has_key k) ps
  count-keep k s [] = omega arith
  count-keep k s (p ∷ ps) = ground (arith, count-keep k s ps)

  -- Of rows that are kept by a test, the one with the key is found if it was there and passes.
  pub find-keep :
      (k : NewPreference) (s : ShopPreference → Bool) (ps : List ShopPreference)
      → count (has_key k) ps ≤ 1
      → find (has_key k) (keep_if s ps)
        ≡ (find (has_key k) ps >>= λ p. if s p then some p else none)
  find-keep k s [] h = refl
  find-keep k s (p ∷ ps) h = elim (Bool-cases (has_key k p)) [
    | inl has ↦
        let rest = count-keep k s ps in ground (arith, h, has, find-zero k (keep_if s ps), rest)
    | inr other ↦ ground (arith, h, other, find-keep k s ps)
  ]

  -- A change of the rows that have a key leaves them that key.
  pub has_key-set :
      (now : ℕ) (n k : NewPreference) (p : ShopPreference)
      → has_key k (set_rule tenant now n p) ≡ has_key k p
  has_key-set now n k p = elim (Bool-cases (has_key n p)) [
    | inr other ↦ rw other refl
    | inl has ↦
        let a = (str_eq_iff p.rule.voice_profile n.voice_profile).0 (ground (arith, has)) in
        let b = kind_eq-eq p.rule.kind n.kind (ground (arith, has)) in
        let c = (str_eq_iff p.rule.subject n.subject).0 (ground (arith, has)) in
        rw has (cc (a, b, c))
  ]

  pub count-set :
      (now : ℕ) (n k : NewPreference) (ps : List ShopPreference)
      → count (has_key k) (map (set_rule tenant now n) ps) ≡ count (has_key k) ps
  count-set now n k [] = refl
  count-set now n k (p ∷ ps) = ground (arith, has_key-set now n k p, count-set now n k ps)

  pub find-set :
      (now : ℕ) (n k : NewPreference) (ps : List ShopPreference)
      → find (has_key k) (map (set_rule tenant now n) ps)
        ≡ Option.map (set_rule tenant now n) (find (has_key k) ps)
  find-set now n k [] = refl
  find-set now n k (p ∷ ps) = ground (arith, has_key-set now n k p, find-set now n k ps)
