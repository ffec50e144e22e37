-- ===== src/Mapping/Asked/Resolving.antt =====
-- Resolving the lines of an invoice asks about every line that it leaves waiting
-- (apps/worker/src/mapping-resolve.ts).
use groceryclaw.Mapping.Asked.{
  IsAsked, set_unresolved-IsAsked, ask_for_sku-IsAsked, resolve_item-IsAsked, suggest-IsAsked,
  HasQuestion,
}
use groceryclaw.Jobs.{WorkerJobEnvelope}
use groceryclaw.Mapping.Resolve.{
  process_map_resolve, resolve_lines, place_each, ask_each, mark_each, start_progress, tier_one,
  place_match, tier_two, send_sync, ask_or_mark, send_summary, Tier, Progress, known_sku, auto,
  tier_of, match_of, suggestion, unmatched, map_resolve_for,
}
use groceryclaw.Mapping.{Services, Line, AiMatch, Tables, chat_of, learn}
use groceryclaw.Base.{
  String, Bool, true, false, List, [], ◌∷◌, map, Option, none, some, ◌≡◌, inl, inr, Option-cases,
  Bool-cases, arith, ◌==◌, sym, subst, length, All,
}

module _ (env : Services) (job : WorkerJobEnvelope) (invoice : String) where
  tier_one-IsAsked :
      (lines : List Line) (p : Progress)
      → IsAsked p.tables
      → IsAsked (tier_one env job invoice lines p).tables
  unfolding tier_one
  tier_one-IsAsked [] p h = h
  tier_one-IsAsked (line ∷ lines) p h =
      elim (Option-cases (known_sku env job invoice p.tables line)) [
        | inl none' ↦ rw (none', tier_one) (tier_one-IsAsked lines _ h)
        | inr (sku, e) ↦
            rw (e, tier_one)
              (tier_one-IsAsked lines _ (resolve_item-IsAsked env job invoice sku line p.tables h))
      ]

  ask_or_mark-IsAsked :
      (reason : String) (line : Line) (p : Progress)
      → IsAsked p.tables
      → IsAsked (ask_or_mark env job invoice reason line p).tables
  unfolding ask_or_mark
  ask_or_mark-IsAsked reason line p h = elim (Option-cases (chat_of job)) [
    | inl none' ↦
        rw (none', ask_or_mark) (set_unresolved-IsAsked env job invoice reason line p.tables h)
    | inr (chat, e) ↦
        rw (e, ask_or_mark) (ask_for_sku-IsAsked env job invoice chat reason line p.tables h)
  ]

  ask_each-IsAsked :
      (reason : String) (lines : List Line) (p : Progress)
      → IsAsked p.tables
      → IsAsked (ask_each env job invoice reason lines p).tables
  unfolding ask_each
  ask_each-IsAsked reason [] p h = h
  ask_each-IsAsked reason (line ∷ lines) p h =
      ask_each-IsAsked reason lines _ (ask_or_mark-IsAsked reason line p h)

  place_match-IsAsked :
      (m : Tier) (line : Line) (p : Progress)
      → IsAsked p.tables
      → IsAsked (place_match env job invoice m line p).tables
  unfolding place_match
  place_match-IsAsked (auto sku c) line p h =
      resolve_item-IsAsked env job invoice sku line
        (record p.tables { aliases = learn line.product_name sku c p.tables.aliases }) h
  place_match-IsAsked (suggestion sku name c) line p h = elim (Option-cases (chat_of job)) [
    | inl none' ↦ rw (none', place_match) h
    | inr (chat, e) ↦
        rw (e, place_match) (suggest-IsAsked env job invoice chat sku name c line p.tables h)
  ]
  place_match-IsAsked unmatched line p h = elim (Option-cases (chat_of job)) [
    | inl none' ↦ rw (none', place_match) h
    | inr (chat, e) ↦
        rw (e, place_match)
          (ask_for_sku-IsAsked env job invoice chat "mapping_not_found" line p.tables h)
  ]

  place_each-IsAsked :
      (ms : List AiMatch) (lines : List Line) (p : Progress)
      → IsAsked p.tables
      → IsAsked (place_each env job invoice ms lines p).tables
  unfolding place_each
  place_each-IsAsked ms [] p h = h
  place_each-IsAsked ms (line ∷ lines) p h =
      place_each-IsAsked ms lines _
        (place_match-IsAsked (tier_of (match_of env job invoice ms line)) line p h)

  mark_each-IsAsked :
      (lines : List Line) (t : Tables) → IsAsked t → IsAsked (mark_each env job invoice lines t)
  unfolding mark_each
  mark_each-IsAsked [] t h = h
  mark_each-IsAsked (line ∷ lines) t h =
      mark_each-IsAsked lines _
        (set_unresolved-IsAsked env job invoice "mapping_not_found" line t h)

  tier_two-IsAsked :
      (ai : Option (List String → List (String × String) → List AiMatch)) (lines : List Line)
      (p : Progress)
      → IsAsked p.tables
      → IsAsked (tier_two env job invoice ai lines p).tables
  unfolding tier_two
  tier_two-IsAsked none lines p h = ask_each-IsAsked "mapping_not_found" lines p h
  tier_two-IsAsked (some ai) lines p h =
      let catalog = env.search_candidates p.tables.products lines in
      elim (Bool-cases (length catalog == 0)) [
        | inl empty' ↦ rw empty' (ask_each-IsAsked "no_product_cache" lines p h)
        | inr some' ↦
            let q = place_each env job invoice (ai (map Line.product_name lines) catalog) lines p in
            rw some' (mark_each-IsAsked q.still q.tables (place_each-IsAsked _ lines p h))
      ]

  -- The summary and the queued job change no line and no question.
  sends_keep :
      (p : Progress) (t : Tables)
      → ((send_sync env job invoice p (send_summary env job invoice p t)).items ≡ t.items)
        × ((send_sync env job invoice p (send_summary env job invoice p t)).questions ≡ t.questions)
  unfolding send_sync send_summary
  sends_keep p t = ground arith

  sends-IsAsked :
      (p : Progress) (t : Tables)
      → IsAsked t
      → IsAsked (send_sync env job invoice p (send_summary env job invoice p t))
  sends-IsAsked p t h =
      let (items, questions) = sends_keep p t in
      subst
        (λ qs.
          All (HasQuestion qs)
            (send_sync env job invoice p (send_summary env job invoice p t)).items)
        (sym questions) (subst (λ xs. All (HasQuestion t.questions) xs) (sym items) h)

  resolve_lines-IsAsked :
      (t : Tables) → IsAsked t → IsAsked (resolve_lines env job invoice t).tables
  unfolding resolve_lines start_progress
  resolve_lines-IsAsked t h =
      tier_two-IsAsked env.ai _ _ (tier_one-IsAsked _ (start_progress env job invoice t) h)

map_resolve_for-IsAsked :
    (tenant invoice : Option String) (enabled : Bool) (env : Services) (job : WorkerJobEnvelope)
    (t : Tables)
    → IsAsked t
    → IsAsked (map_resolve_for tenant invoice enabled env job t).0
unfolding map_resolve_for
map_resolve_for-IsAsked none invoice enabled env job t h = h
map_resolve_for-IsAsked (some tenant) none enabled env job t h = h
map_resolve_for-IsAsked (some tenant) (some invoice) false env job t h = h
map_resolve_for-IsAsked (some tenant) (some invoice) true env job t h =
    sends-IsAsked env job invoice (resolve_lines env job invoice t) _
      (resolve_lines-IsAsked env job invoice t h)

pub process_map_resolve-IsAsked :
    (env : Services) (job : WorkerJobEnvelope) (t : Tables)
    → IsAsked t
    → IsAsked (process_map_resolve env job t).0
unfolding process_map_resolve
process_map_resolve-IsAsked env job t h = map_resolve_for-IsAsked _ _ _ env job t h
