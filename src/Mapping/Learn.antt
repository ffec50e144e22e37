-- ===== src/Mapping/Learn.antt =====
-- What is learned from an answer is used for the next invoice (apps/worker/src/process-confirm-mapping.ts,
-- and tier 1 of apps/worker/src/mapping-resolve.ts).
use groceryclaw.Mapping.Resolve.{
  alias_sku, known_sku, resolve_item, tier_one, Progress, tier_two, ask_each, resolve_lines,
  place_each, start_progress, mark_each,
}
use groceryclaw.Jobs.{WorkerJobEnvelope}
use groceryclaw.Mapping.{
  Services, Alias, learn, Line, Tables, Question, AiMatch, upsert_item, ResolvedItem,
  is_item_resolved,
}
use groceryclaw.Mapping.Answer.{accept}
use groceryclaw.Base.{
  ◌&&◌, ℕ, suc, String, List, [], ◌∷◌, Option, none, some, ◌≡◌, refl, ◌≢◌, inl, inr, Option-cases,
  arith, sym, ◌∙◌, subst, str_eq, str_eq_iff, str_eq_refl, keep_if, All, any, Bool, true,
  Bool-cases, get_or_else,
}

module _ (env : Services) (job : WorkerJobEnvelope) (invoice : String) where
  -- No alias of another spelling stands for the name.
  abbrev pub OneSpelling : (name : String) → List Alias → Type 0
  OneSpelling name = All (λ a. env.lower a.alias_text ≡ env.lower name → a.alias_text ≡ name)

  learn-alias_sku :
      (line : Line) (sku : String) (c : ℕ) (aliases : List Alias)
      → OneSpelling line.product_name aliases
      → env.trim sku ≢ ""
      → alias_sku env job invoice (learn line.product_name sku c aliases) line ≡ some (env.trim sku)
  unfolding learn alias_sku
  learn-alias_sku line sku c [] one some' =
      ground (arith, str_eq_refl (env.lower line.product_name), str_eq_iff (env.trim sku) "", some')
  learn-alias_sku line sku c (a ∷ aliases) one some' = ground (
    arith,
    str_eq_iff a.alias_text line.product_name,
    str_eq_iff (env.lower a.alias_text) (env.lower line.product_name),
    one.0,
    learn-alias_sku line sku c aliases one.1 some',
    str_eq_refl (env.lower line.product_name),
    str_eq_iff (env.trim sku) "",
    some',
  )

  learned_line :
      (line : Line) (sku : String) (c : ℕ) (t : Tables)
      → OneSpelling line.product_name t.aliases
      → env.trim sku ≢ ""
      → (u : Tables) → u.aliases ≡ learn line.product_name sku c t.aliases
      → known_sku env job invoice u line ≡ some (env.trim sku)
  unfolding known_sku
  learned_line line sku c t one some' u same =
      let e : alias_sku env job invoice u.aliases line ≡ some (env.trim sku) =
        rw same (learn-alias_sku line sku c t.aliases one some') in
      rw (e, known_sku) refl

  resolve_item-aliases :
      (sku : String) (line : Line) (t : Tables)
      → (resolve_item env job invoice sku line t).aliases ≡ t.aliases
  unfolding resolve_item
  resolve_item-aliases sku line t = refl

  -- The row of a line that has become this SKU.
  abbrev pub is_row_of : (sku item_id : String) → ResolvedItem → Bool
  is_row_of sku item_id x =
      str_eq x.item_id item_id
      && (is_item_resolved x.item_status && str_eq (get_or_else x.resolved_sku "") sku)

  abbrev pub IsResolvedTo : (sku : String) → List Line → Tables → Type 0
  IsResolvedTo sku lines t = All (λ l. any (is_row_of sku l.id) t.items ≡ true) lines

  upsert_item-row :
      (sku id : String) (row : ResolvedItem) (change : ResolvedItem → ResolvedItem)
      (xs : List ResolvedItem)
      → is_row_of sku id row ≡ true
      → ((x : ResolvedItem)
          → str_eq x.item_id row.item_id ≡ true
          → is_row_of sku id (change x) ≡ true)
      → any (is_row_of sku id) (upsert_item row change xs) ≡ true
  unfolding upsert_item
  upsert_item-row sku id row change [] new changed = ground (arith, new)
  upsert_item-row sku id row change (x ∷ xs) new changed =
      elim (Bool-cases (str_eq x.item_id row.item_id)) [
        | inl hit ↦ ground (arith, hit, changed x hit)
        | inr miss ↦ ground (arith, miss, upsert_item-row sku id row change xs new changed)
      ]

  upsert_item-keeps :
      (sku id : String) (row : ResolvedItem) (change : ResolvedItem → ResolvedItem)
      (xs : List ResolvedItem)
      → ((x : ResolvedItem) → is_row_of sku id x ≡ true → is_row_of sku id (change x) ≡ true)
      → any (is_row_of sku id) xs ≡ true
      → any (is_row_of sku id) (upsert_item row change xs) ≡ true
  unfolding upsert_item
  upsert_item-keeps sku id row change [] changed h = absurd (ground (arith, h))
  upsert_item-keeps sku id row change (x ∷ xs) changed h = elim (Bool-cases (is_row_of sku id x)) [
    | inl here ↦ ground (arith, here, changed x here)
    | inr there ↦
        ground (
          arith,
          there,
          h,
          upsert_item-keeps sku id row change xs changed (ground (arith, there, h)),
        )
  ]

  resolve_item-row :
      (sku : String) (line : Line) (t : Tables)
      → any (is_row_of sku line.id) (resolve_item env job invoice sku line t).items ≡ true
  unfolding resolve_item
  resolve_item-row sku line t =
      upsert_item-row sku line.id _ _ t.items (ground (arith, str_eq_refl line.id, str_eq_refl sku))
        (λ x e. ground (arith, e, str_eq_refl sku))

  resolve_item-keeps :
      (sku id : String) (line : Line) (t : Tables)
      → any (is_row_of sku id) t.items ≡ true
      → any (is_row_of sku id) (resolve_item env job invoice sku line t).items ≡ true
  unfolding resolve_item
  resolve_item-keeps sku id line t =
      upsert_item-keeps sku id _ _ t.items (λ x e. ground (arith, e, str_eq_refl sku))

  -- The tables hold the learned alias.
  abbrev HasLearned : (name sku : String) (c : ℕ) → Tables → Progress → Type 0
  HasLearned name sku c t p = p.tables.aliases ≡ learn name sku c t.aliases

  abbrev resolve_one : (sku : String) → Line → Progress → Progress
  resolve_one sku line p = record p {
    tables = resolve_item env job invoice (env.trim sku) line p.tables;
    resolved = suc p.resolved;
  }

  module _ (name sku : String) (c : ℕ) (t : Tables) (one : OneSpelling name t.aliases)
      (some' : env.trim sku ≢ "") where
    tier_one-cons :
        (line : Line) (lines : List Line) (p : Progress)
        → line.product_name ≡ name
        → HasLearned name sku c t p
        → tier_one env job invoice (line ∷ lines) p
          ≡ tier_one env job invoice lines (resolve_one sku line p)
    unfolding tier_one
    tier_one-cons line lines p named same =
        let known =
          learned_line line sku c t (subst (λ n. OneSpelling n t.aliases) (sym named) one) some'
            p.tables (subst (λ n. HasLearned n sku c t p) (sym named) same) in
        rw (known, tier_one) refl

    tier_one-keeps :
        (id : String) (lines : List Line)
        → All (λ l. l.product_name ≡ name) lines
        → (p : Progress) → HasLearned name sku c t p
        → any (is_row_of (env.trim sku) id) p.tables.items ≡ true
        → any (is_row_of (env.trim sku) id) (tier_one env job invoice lines p).tables.items ≡ true
    unfolding tier_one
    tier_one-keeps id [] named p same h = h
    tier_one-keeps id (line ∷ lines) named p same h = rw (tier_one-cons line lines p named.0 same) (
        tier_one-keeps id lines named.1 (resolve_one sku line p)
          (resolve_item-aliases (env.trim sku) line p.tables ∙ same)
          (resolve_item-keeps (env.trim sku) id line p.tables h))

    -- Lines with the name of a learned alias are all resolved in tier 1.
    tier_one-learned :
        (lines : List Line)
        → All (λ l. l.product_name ≡ name) lines
        → (p : Progress) → HasLearned name sku c t p
        → ((tier_one env job invoice lines p).still ≡ p.still)
          × IsResolvedTo (env.trim sku) lines (tier_one env job invoice lines p).tables
    unfolding tier_one
    tier_one-learned [] named p same = (refl, tt)
    tier_one-learned (line ∷ lines) named p same =
        let q = resolve_one sku line p in
        let same' = resolve_item-aliases (env.trim sku) line p.tables ∙ same in
        let (still, rows) = tier_one-learned lines named.1 q same' in
        subst (λ r. (r.still ≡ p.still) × IsResolvedTo (env.trim sku) (line ∷ lines) r.tables)
          (sym (tier_one-cons line lines p named.0 same))
          (
            still,
            (
              tier_one-keeps line.id lines named.1 q same'
                  (resolve_item-row (env.trim sku) line p.tables),
              rows,
            ),
          )

  tier_one-pending :
      (lines : List Line) (p : Progress) → (tier_one env job invoice lines p).pending ≡ p.pending
  unfolding tier_one
  tier_one-pending [] p = refl
  tier_one-pending (line ∷ lines) p =
      elim (Option-cases (known_sku env job invoice p.tables line)) [
        | inl none' ↦ rw (none', tier_one) (tier_one-pending lines _)
        | inr (sku, e) ↦ rw (e, tier_one) (tier_one-pending lines _)
      ]

  -- Without lines, tier 2 asks nothing.
  tier_two-nothing :
      (ai : Option (List String → List (String × String) → List AiMatch)) (p : Progress)
      → p.still ≡ []
      → ((tier_two env job invoice ai [] p).pending ≡ p.pending)
        × ((tier_two env job invoice ai [] p).still ≡ [])
        × ((tier_two env job invoice ai [] p).tables ≡ p.tables)
  unfolding tier_two ask_each place_each mark_each
  tier_two-nothing none p e = (refl, e, refl)
  tier_two-nothing (some ai) p e = ground (arith, e)

module _ (env : Services) (job : WorkerJobEnvelope) (invoice : String) (q : Question) (sku : String)
    (t : Tables) where
  -- When a user's answer gave a SKU that is no blank text for the product of a line, an invoice all of
  -- whose lines name that product is resolved by the learned alias: afterwards every line has a row that is
  -- resolved to this SKU, trimmed, without a question and without a line that is left. This is provided that no alias
  -- in another spelling (the same text but for case) was stored before.
  pub accept-resolve_lines :
      OneSpelling env job invoice q.product_name t.aliases
      → env.trim sku ≢ ""
      → All
          (λ l. l.product_name ≡ q.product_name)
          (keep_if (λ l. str_eq l.invoice_id invoice) t.lines)
      → ((resolve_lines env job invoice (accept q sku t)).pending ≡ [])
        × ((resolve_lines env job invoice (accept q sku t)).still ≡ [])
        × IsResolvedTo env job invoice
            (env.trim sku)
            (keep_if (λ l. str_eq l.invoice_id invoice) t.lines)
            (resolve_lines env job invoice (accept q sku t)).tables
  unfolding resolve_lines accept start_progress
  accept-resolve_lines one some' named =
      let u = accept q sku t in
      let lines = keep_if (λ l. str_eq l.invoice_id invoice) t.lines in
      let start = start_progress env job invoice u in
      let p = tier_one env job invoice lines start in
      let (no_line, rows) =
        tier_one-learned env job invoice q.product_name sku 100 t one some' lines named start
          refl in
      let asked : p.pending ≡ [] = tier_one-pending env job invoice lines start in
      let (a, b, d) = tier_two-nothing env job invoice env.ai (record p { still = [] }) refl in
      rw no_line
        (a ∙ asked, b, subst (IsResolvedTo env job invoice (env.trim sku) lines) (sym d) rows)
