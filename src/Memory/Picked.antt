-- ===== src/Memory/Picked.antt =====
-- Rows that are picked by a test and deleted by their identifiers (apps/mcp-server/src/memory-tools.ts).
use groceryclaw.Memory.{ShopPreference}
use groceryclaw.Memory.Undo.{IsNewId}
use groceryclaw.Base.{
  String, Bool, false, ◌&&◌, List, [], ◌∷◌, ◌++◌, map, ◌≡◌, refl, inl, inr, Bool-cases, arith,
  str_eq, str_eq_iff, str_eq_refl, keep_if, includes, All, All-append, All-keep_if, All-zip,
}

-- No two rows have one identifier.
abbrev pub IsDistinct : List ShopPreference → Type 0
IsDistinct [] = Unit
IsDistinct (p ∷ ps) = IsNewId p.id ps × IsDistinct ps

abbrev pub ids_of : List ShopPreference → List String
ids_of ps = map (λ p. p.id) ps

pub keep-IsDistinct :
    (s : ShopPreference → Bool) (ps : List ShopPreference)
    → IsDistinct ps
    → IsDistinct (keep_if s ps)
keep-IsDistinct s [] h = tt
keep-IsDistinct s (p ∷ ps) h = elim (Bool-cases (s p)) [
  | inl kept ↦
      rw kept (All-keep_if (λ q. str_eq p.id q.id ≡ false) s ps h.0, keep-IsDistinct s ps h.1)
  | inr gone ↦ rw gone (keep-IsDistinct s ps h.1)
]

pub append-IsDistinct :
    (ps : List ShopPreference) (row : ShopPreference)
    → IsNewId row.id ps
    → IsDistinct ps
    → IsDistinct (ps ++ row ∷ [])
append-IsDistinct [] row new h = (tt, tt)
append-IsDistinct (p ∷ ps) row new h = (
  All-append (λ q. str_eq p.id q.id ≡ false) ps (row ∷ []) h.0
      (ground (arith, new.0, str_eq_iff row.id p.id, str_eq_iff p.id row.id), tt),
  append-IsDistinct ps row new.1 h.1,
)

pub keep-keep :
    (s r : ShopPreference → Bool) (ps : List ShopPreference)
    → keep_if s (keep_if r ps) ≡ keep_if (λ p. r p && s p) ps
keep-keep s r [] = refl
keep-keep s r (p ∷ ps) = ground (arith, keep-keep s r ps)

absent-picked :
    (id : String) (s : ShopPreference → Bool) (ps : List ShopPreference)
    → IsNewId id ps
    → includes (ids_of (keep_if s ps)) id ≡ false
absent-picked id s [] h = refl
absent-picked id s (p ∷ ps) h =
    ground (arith, h.0, str_eq_iff p.id id, str_eq_iff id p.id, absent-picked id s ps h.1)

-- The identifiers of the rows that pass a test are those rows' only.
pub includes-picked :
    (s : ShopPreference → Bool) (ps : List ShopPreference)
    → IsDistinct ps
    → All (λ p. includes (ids_of (keep_if s ps)) p.id ≡ s p) ps
includes-picked s [] h = tt
includes-picked s (p ∷ ps) h = (
  ground (arith, str_eq_refl p.id, absent-picked p.id s ps h.0),
  All-zip ps h.0 (includes-picked s ps h.1) (λ q other ih. ground (arith, other, ih)),
)

pub keep-cong :
    (s r : ShopPreference → Bool) (ps : List ShopPreference)
    → All (λ p. s p ≡ r p) ps
    → keep_if s ps ≡ keep_if r ps
keep-cong s r [] h = refl
keep-cong s r (p ∷ ps) h = ground (arith, h.0, keep-cong s r ps h.1)
