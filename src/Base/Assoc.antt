-- ===== src/Base/Assoc.antt =====
-- A JavaScript `Map` with text keys, in insertion order: `set` on a key that is there replaces its
-- value in place, and on a new key appends.
use groceryclaw.Base.Tests.{if◌then◌else◌, str_eq, str_eq_iff, str_eq_refl, Bool-cases}
use Prim.Native.String.{String}
use mathlib.Core.Path.{◌≡◌, refl, sym, ◌∙◌, subst, subst₂}
use mathlib.Core.Logic.{◌≢◌, inl, inr}
use mathlib.Core.Bool.{Bool, not, false≢true}
use mathlib.Core.List.{List, [], ◌∷◌}
use mathlib.Core.Option.{Option, none, some}
use mathlib.Core.Option
use native.Mathlib.Omega.{arith}

abbrev pub Assoc {ℓ} : Type ℓ → Type ℓ
Assoc V = List (String × V)

module _ {ℓ} {V : Type ℓ} where
  unfoldable pub lookup : String → Assoc V → Option V
  lookup k [] = none
  lookup k ((j, v) ∷ m) = if str_eq j k then some v else lookup k m

  unfoldable pub insert : String → V → Assoc V → Assoc V
  insert k v [] = (k, v) ∷ []
  insert k v ((j, w) ∷ m) = if str_eq j k then (j, v) ∷ m else (j, w) ∷ insert k v m

  -- `for (const [k, v] of m) if (!p(k, v)) m.delete(k)`
  unfoldable pub keep_entries : (String → V → Bool) → Assoc V → Assoc V
  keep_entries p [] = []
  keep_entries p ((k, v) ∷ m) = if p k v then (k, v) ∷ keep_entries p m else keep_entries p m

  unfoldable pub delete : String → Assoc V → Assoc V
  unfolding keep_entries
  delete k m = keep_entries (λ j _. not (str_eq j k)) m

  -- An in-place change of every stored object.
  unfoldable pub update_all : (V → V) → Assoc V → Assoc V
  update_all f [] = []
  update_all f ((k, v) ∷ m) = (k, f v) ∷ update_all f m

  unfoldable pub values : Assoc V → List V
  values [] = []
  values ((k, v) ∷ m) = v ∷ values m

  -- A statement of each entry.
  abbrev pub Each {κ} : (String → V → Type κ) → Assoc V → Type κ
  Each P [] = Unit
  Each P ((k, v) ∷ m) = P k v × Each P m

  -- No key stands twice.
  abbrev pub IsUnique : Assoc V → Type ℓ
  IsUnique [] = Unit
  IsUnique ((k, v) ∷ m) = (lookup k m ≡ none) × IsUnique m

module _ {ℓ} {V : Type ℓ} where
  pub lookup-insert :
      (k j : String) (v : V) (m : Assoc V)
      → lookup j (insert k v m) ≡ (if str_eq k j then some v else lookup j m)
  unfolding lookup insert
  lookup-insert k j v [] = refl
  lookup-insert k j v ((i, w) ∷ m) =
      ground (arith, str_eq_iff k j, str_eq_iff i k, str_eq_iff i j, lookup-insert k j v m)

  pub lookup-insert_self : (k : String) (v : V) (m : Assoc V) → lookup k (insert k v m) ≡ some v
  lookup-insert_self k v m = ground (arith, lookup-insert k k v m, str_eq_refl k)

  pub lookup-insert_ne :
      (k j : String) (v : V) (m : Assoc V) → k ≢ j → lookup j (insert k v m) ≡ lookup j m
  lookup-insert_ne k j v m h = ground (arith, lookup-insert k j v m, str_eq_iff k j)

  pub lookup-update_all :
      (k : String) (f : V → V) (m : Assoc V) → lookup k (update_all f m) ≡ Option.map f (lookup k m)
  unfolding lookup update_all
  lookup-update_all k f [] = refl
  lookup-update_all k f ((j, v) ∷ m) = ground (arith, lookup-update_all k f m)

  pub lookup-keep_none :
      (k : String) (p : String → V → Bool) (m : Assoc V)
      → lookup k m ≡ none
      → lookup k (keep_entries p m) ≡ none
  unfolding lookup keep_entries
  lookup-keep_none k p [] h = refl
  lookup-keep_none k p ((j, v) ∷ m) h = ground (arith, lookup-keep_none k p m)

module _ {ℓ κ} {V : Type ℓ} (P : String → V → Type κ) where
  pub Each-lookup : (k : String) (m : Assoc V) (v : V) → Each P m → lookup k m ≡ some v → P k v
  unfolding lookup
  Each-lookup k [] v e h = cc
  Each-lookup k ((j, w) ∷ m) v e h = elim (Bool-cases (str_eq j k)) [
    | inl same ↦
        let w=v : w ≡ v = ground (arith, same) in subst₂ P ((str_eq_iff j k).0 same) w=v e.0
    | inr other ↦ Each-lookup k m v e.1 (ground (arith, other))
  ]

  pub Each-insert : (k : String) (v : V) (m : Assoc V) → P k v → Each P m → Each P (insert k v m)
  unfolding insert
  Each-insert k v [] p e = (p, tt)
  Each-insert k v ((j, w) ∷ m) p e = elim (Bool-cases (str_eq j k)) [
    | inl same ↦ rw same (subst (λ i. P i v) (sym ((str_eq_iff j k).0 same)) p, e.1)
    | inr other ↦ rw other (e.0, Each-insert k v m p e.1)
  ]

  pub Each-update_all :
      (f : V → V) (m : Assoc V)
      → ((k : String) (v : V) → P k v → P k (f v))
      → Each P m
      → Each P (update_all f m)
  unfolding update_all
  Each-update_all f [] h e = tt
  Each-update_all f ((k, v) ∷ m) h e = (h k v e.0, Each-update_all f m h e.1)

  pub Each-keep : (p : String → V → Bool) (m : Assoc V) → Each P m → Each P (keep_entries p m)
  unfolding keep_entries
  Each-keep p [] e = tt
  Each-keep p ((k, v) ∷ m) e = elim (Bool-cases (p k v)) [
    | inl kept ↦ rw kept (e.0, Each-keep p m e.1)
    | inr gone ↦ rw gone (Each-keep p m e.1)
  ]

module _ {ℓ} {V : Type ℓ} where
  pub insert-IsUnique : (k : String) (v : V) (m : Assoc V) → IsUnique m → IsUnique (insert k v m)
  unfolding insert lookup
  insert-IsUnique k v [] u = (refl, tt)
  insert-IsUnique k v ((j, w) ∷ m) u = elim (Bool-cases (str_eq j k)) [
    | inl same ↦ rw same u
    | inr other ↦ rw other (
      lookup-insert_ne k j v m (λ e. cc (other, (str_eq_iff j k).1 (sym e))) ∙ u.0,
      insert-IsUnique k v m u.1,
    )
  ]

  pub update_all-IsUnique : (f : V → V) (m : Assoc V) → IsUnique m → IsUnique (update_all f m)
  unfolding update_all
  update_all-IsUnique f [] u = tt
  update_all-IsUnique f ((k, v) ∷ m) u =
      (ground (arith, lookup-update_all k f m, u.0), update_all-IsUnique f m u.1)

  pub keep-IsUnique :
      (p : String → V → Bool) (m : Assoc V) → IsUnique m → IsUnique (keep_entries p m)
  unfolding keep_entries
  keep-IsUnique p [] u = tt
  keep-IsUnique p ((k, v) ∷ m) u = elim (Bool-cases (p k v)) [
    | inl kept ↦ rw kept (lookup-keep_none k p m u.0, keep-IsUnique p m u.1)
    | inr gone ↦ rw gone (keep-IsUnique p m u.1)
  ]

  -- A deleted key is gone, and the others stay.
  pub lookup-delete :
      (k j : String) (m : Assoc V)
      → lookup j (delete k m) ≡ (if str_eq k j then none else lookup j m)
  unfolding delete lookup
  lookup-delete k j [] = ground arith
  lookup-delete k j ((i, w) ∷ m) =
      ground (arith, str_eq_iff k j, str_eq_iff i k, str_eq_iff i j, lookup-delete k j m)

-- A statement of the one key `k`.
module _ {ℓ κ} {V : Type ℓ} (Q : V → Type κ) (k : String) where
  pub Each-key_of_none : (m : Assoc V) → lookup k m ≡ none → Each (λ j v. j ≡ k → Q v) m
  unfolding lookup
  Each-key_of_none [] e = tt
  Each-key_of_none ((j, w) ∷ m) e =
      (λ same. ground (arith, (str_eq_iff j k).1 same), Each-key_of_none m (ground arith))

  pub Each-key_insert :
      (v : V) (m : Assoc V) → IsUnique m → Q v → Each (λ j v. j ≡ k → Q v) (insert k v m)
  unfolding insert
  Each-key_insert v [] u q = (λ _. q, tt)
  Each-key_insert v ((j, w) ∷ m) u q = elim (Bool-cases (str_eq j k)) [
    | inl same ↦
        rw same (
          λ _. q,
          Each-key_of_none m (subst (λ i. lookup i m ≡ none) ((str_eq_iff j k).0 same) u.0),
        )
    | inr other ↦
        rw other
          ((λ e. absurd (false≢true (sym other ∙ (str_eq_iff j k).1 e))), Each-key_insert v m u.1 q)
  ]

  pub Each-key_of_lookup :
      (v : V) (m : Assoc V) → IsUnique m → lookup k m ≡ some v → Q v → Each (λ j v. j ≡ k → Q v) m
  unfolding lookup
  Each-key_of_lookup v [] u e q = tt
  Each-key_of_lookup v ((j, w) ∷ m) u e q = elim (Bool-cases (str_eq j k)) [
    | inl same ↦ (
      (λ _. let v=w : v ≡ w = ground (arith, same) in subst Q v=w q),
      Each-key_of_none m (subst (λ i. lookup i m ≡ none) ((str_eq_iff j k).0 same) u.0),
    )
    | inr other ↦ (
      (λ h. absurd (false≢true (sym other ∙ (str_eq_iff j k).1 h))),
      Each-key_of_lookup v m u.1 (ground (arith, other)) q,
    )
  ]
