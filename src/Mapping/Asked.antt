-- ===== src/Mapping/Asked.antt =====
-- A line that waits for its user has an open question (apps/worker/src/mapping-resolve.ts and
-- apps/worker/src/process-confirm-mapping.ts).
pub mod Resolving
pub mod Answering
use groceryclaw.Mapping.Resolve.{suggest, resolve_item, ask_for_sku, set_open_item, send_question}
use groceryclaw.Jobs.{WorkerJobEnvelope, Number}
use groceryclaw.Mapping.{
  update_item, decide, upsert_item, Services, Question, Tables, is_q_pending, ResolvedItem,
  QuestionStatus, is_item_pending, q_pending, Line, item_unresolved,
}
use groceryclaw.Base.{
  ℕ, String, Bool, true, ◌&&◌, List, [], ◌∷◌, ◌++◌, ◌≡◌, refl, ◌≢◌, inl, inr, Bool-cases, arith,
  sym, str_eq, str_eq_iff, str_eq_refl, any, All, All-map, any-append,
}

abbrev pub asks : (item_id : String) → Question → Bool
asks id q = is_q_pending q.question_status && str_eq q.item_id id

abbrev pub HasQuestion : List Question → ResolvedItem → Type 0
HasQuestion qs x = is_item_pending x.item_status ≡ true → any (asks x.item_id) qs ≡ true

abbrev pub IsAsked : Tables → Type 0
IsAsked t = All (HasQuestion t.questions) t.items

-- `id` is the primary key of the questions: rows with one identifier are one row.
abbrev pub PrimaryKey : List Question → Type 0
PrimaryKey qs = All (λ q. All (λ r. r.id ≡ q.id → r.item_id ≡ q.item_id) qs) qs

upsert-All :
    (P : ResolvedItem → Type 0) (row : ResolvedItem) (change : ResolvedItem → ResolvedItem)
    (xs : List ResolvedItem)
    → P row
    → ((x : ResolvedItem) → x.item_id ≡ row.item_id → P (change x))
    → All P xs
    → All P (upsert_item row change xs)
unfolding upsert_item
upsert-All P row change [] p c h = (p, tt)
upsert-All P row change (x ∷ xs) p c h = elim (Bool-cases (str_eq x.item_id row.item_id)) [
  | inl same ↦ rw same (c x ((str_eq_iff x.item_id row.item_id).0 same), h.1)
  | inr other ↦ rw other (h.0, upsert-All P row change xs p c h.1)
]

pub update-All :
    (P Q : ResolvedItem → Type 0) (id : String) (change : ResolvedItem → ResolvedItem)
    (xs : List ResolvedItem)
    → ((x : ResolvedItem) → Q (change x))
    → ((x : ResolvedItem) → x.item_id ≢ id → P x → Q x)
    → All P xs
    → All Q (update_item id change xs)
unfolding update_item
update-All P Q id change [] c k h = tt
update-All P Q id change (x ∷ xs) c k h = elim (Bool-cases (str_eq x.item_id id)) [
  | inl same ↦ rw same (c x, update-All P Q id change xs c k h.1)
  | inr other ↦ rw other (
    k x (λ e. cc (other, (str_eq_iff x.item_id id).1 e)) h.0,
    update-All P Q id change xs c k h.1,
  )
]

more_questions :
    (qs rs : List Question) (xs : List ResolvedItem)
    → All (HasQuestion qs) xs
    → All (HasQuestion (qs ++ rs)) xs
more_questions qs rs xs h = All-map (λ x k p. rw (any-append (asks x.item_id) qs rs, k p) refl) xs h

-- The other questions stay open when one is decided.
pub decide-asks :
    (q : Question) (s : QuestionStatus) (id : String) (qs : List Question)
    → id ≢ q.item_id
    → All (λ r. r.id ≡ q.id → r.item_id ≡ q.item_id) qs
    → any (asks id) qs ≡ true
    → any (asks id) (decide q.id s qs) ≡ true
unfolding decide
decide-asks q s id [] ne k h = h
decide-asks q s id (r ∷ qs) ne k h =
    ground
      (arith, h, decide-asks q s id qs ne k.1, str_eq_iff r.id q.id, str_eq_iff r.item_id id, k.0)

module _ (env : Services) (job : WorkerJobEnvelope) (invoice : String) where
  pub resolve_item-IsAsked :
      (sku : String) (line : Line) (t : Tables)
      → IsAsked t
      → IsAsked (resolve_item env job invoice sku line t)
  unfolding resolve_item
  resolve_item-IsAsked sku line t h =
      upsert-All (HasQuestion t.questions) _ _ t.items (λ e. absurd (ground (arith, e)))
        (λ x same e. absurd (ground (arith, e))) h

  pub set_unresolved-IsAsked :
      (reason : String) (line : Line) (t : Tables)
      → IsAsked t
      → IsAsked (set_open_item env job invoice item_unresolved reason line t)
  unfolding set_open_item
  set_unresolved-IsAsked reason line t h =
      upsert-All (HasQuestion t.questions) _ _ t.items (λ e. absurd (ground (arith, e)))
        (λ x same e. absurd (ground (arith, e))) h

  -- The question that was just stored is about the line.
  asks_new :
      (qs : List Question) (q : Question) (id : String)
      → q.question_status ≡ q_pending
      → q.item_id ≡ id
      → any (asks id) (qs ++ q ∷ []) ≡ true
  asks_new qs q id p e =
      rw (any-append (asks id) qs (q ∷ [])) (ground (arith, p, e, str_eq_refl id))

  pub ask_for_sku-IsAsked :
      (chat : Number) (reason : String) (line : Line) (t : Tables)
      → IsAsked t
      → IsAsked (ask_for_sku env job invoice chat reason line t)
  unfolding ask_for_sku send_question set_open_item
  ask_for_sku-IsAsked chat reason line t h =
      upsert-All (HasQuestion (ask_for_sku env job invoice chat reason line t).questions) _ _
        t.items (λ _. asks_new t.questions _ line.id refl refl)
        (λ x same _. asks_new t.questions _ x.item_id refl (sym same))
        (more_questions t.questions _ t.items h)

  pub suggest-IsAsked :
      (chat : Number) (sku name : String) (c : ℕ) (line : Line) (t : Tables)
      → IsAsked t
      → IsAsked (suggest env job invoice chat sku name c line t)
  unfolding suggest send_question
  suggest-IsAsked chat sku name c line t h =
      upsert-All (HasQuestion (suggest env job invoice chat sku name c line t).questions) _ _
        t.items (λ _. asks_new t.questions _ line.id refl refl)
        (λ x same _. asks_new t.questions _ x.item_id refl (sym same))
        (more_questions t.questions _ t.items h)
