-- ===== src/Mapping/Asked/Answering.antt =====
-- An answer decides the line of its question and leaves the other questions open
-- (apps/worker/src/process-confirm-mapping.ts).
use groceryclaw.Mapping.Answer.{
  check_remaining, accept, act, process_manual_sku, close_without, Answer, confirm, reject, skip,
  other_text, act_on_answer, act_on_only, replied_question, process_confirm_mapping, open_questions,
}
use groceryclaw.Mapping.Asked.{IsAsked, HasQuestion, update-All, decide-asks, PrimaryKey}
use groceryclaw.Jobs.{WorkerJobEnvelope}
use groceryclaw.Mapping.{
  Services, Tables, chat_of, Question, QuestionStatus, ResolvedItem, q_confirmed, is_item_pending,
  decide, item_unresolved, q_rejected, update_item, item_skipped, q_skipped,
}
use groceryclaw.Base.{
  ℕ, String, false, ◌&&◌, List, [], ◌∷◌, none, some, ◌≡◌, refl, inl, inr, Option-cases, Bool-cases,
  arith, sym, subst, str_eq, find, All, bind-some, All-keep_if, find-All,
}

-- A line that is decided waits no more, and the questions about other lines stay open.
decided-IsAsked :
    (q : Question) (s : QuestionStatus) (change : ResolvedItem → ResolvedItem) (t : Tables)
    → ((x : ResolvedItem) → is_item_pending (change x).item_status ≡ false)
    → All (λ r. r.id ≡ q.id → r.item_id ≡ q.item_id) t.questions
    → IsAsked t
    → All (HasQuestion (decide q.id s t.questions)) (update_item q.item_id change t.items)
decided-IsAsked q s change t closed k h =
    update-All (HasQuestion t.questions) (HasQuestion (decide q.id s t.questions)) q.item_id change
      t.items (λ x p. absurd (ground (arith, p, closed x)))
      (λ x ne asked p. decide-asks q s x.item_id t.questions ne k (asked p)) h

check_remaining_keeps :
    (q : Question) (t : Tables)
    → ((check_remaining q t).items ≡ t.items) × ((check_remaining q t).questions ≡ t.questions)
unfolding check_remaining
check_remaining_keeps q t = ground arith

check_remaining-IsAsked : (q : Question) (t : Tables) → IsAsked t → IsAsked (check_remaining q t)
check_remaining-IsAsked q t h =
    let (items, questions) = check_remaining_keeps q t in
    subst (λ qs. All (HasQuestion qs) (check_remaining q t).items) (sym questions)
      (subst (λ xs. All (HasQuestion t.questions) xs) (sym items) h)

module _ (q : Question) (t : Tables)
    (k : All (λ r. r.id ≡ q.id → r.item_id ≡ q.item_id) t.questions) where
  accept-IsAsked : (sku : String) → IsAsked t → IsAsked (check_remaining q (accept q sku t))
  unfolding accept
  accept-IsAsked sku h =
      check_remaining-IsAsked q (accept q sku t) (decided-IsAsked q q_confirmed _ t (λ x. refl) k h)

  act-IsAsked : (a : Answer) → IsAsked t → IsAsked (act a q t)
  unfolding act close_without
  act-IsAsked confirm h = elim (Bool-cases (str_eq q.suggested_sku "")) [
    | inl none' ↦ rw none' h
    | inr some' ↦ rw some' (accept-IsAsked q.suggested_sku h)
  ]
  act-IsAsked reject h =
      check_remaining-IsAsked q (close_without q item_unresolved "user_rejected" q_rejected t)
        (decided-IsAsked q q_rejected _ t (λ x. refl) k h)
  act-IsAsked skip h =
      check_remaining-IsAsked q (close_without q item_skipped "user_skipped" q_skipped t)
        (decided-IsAsked q q_skipped _ t (λ x. refl) k h)
  act-IsAsked other_text h = h

  process_manual_sku-IsAsked :
      (env : Services) (text : String) → IsAsked t → IsAsked (process_manual_sku env q text t)
  unfolding process_manual_sku
  process_manual_sku-IsAsked env text h =
      elim (Option-cases
        (find (λ p. str_eq (env.upper p.sku) (env.trim (env.upper text)) && p.active) t.products)) [
          | inl none' ↦ rw (none', process_manual_sku) h
          | inr (p, e) ↦ rw (e, process_manual_sku) (accept-IsAsked p.sku h)
        ]

-- The question that is found is one of the table, so its line is known.
module _ (env : Services) (job : WorkerJobEnvelope) (now : ℕ) (t : Tables)
    (k : PrimaryKey t.questions) where
  abbrev Known : Question → Type 0
  Known q = All (λ r. r.id ≡ q.id → r.item_id ≡ q.item_id) t.questions

  replied_question-Known :
      (q : Question) → replied_question env job now t.questions ≡ some q → Known q
  unfolding replied_question
  replied_question-Known q e =
      let (r, (_, e')) = bind-some job.reply_to_message_id _ q e in
      let (chat, (_, found)) = bind-some (chat_of job) _ q e' in
      find-All Known _ t.questions q found k

  only-IsAsked :
      (a : Answer) (qs : List Question)
      → open_questions job now t.questions ≡ qs
      → All Known qs
      → IsAsked t
      → IsAsked (act_on_only job now a t)
  unfolding act_on_only
  only-IsAsked a [] e known h = rw (e, act_on_only) h
  only-IsAsked a (q ∷ []) e known h = rw (e, act_on_only) (act-IsAsked q t known.0 a h)
  only-IsAsked a (q ∷ r ∷ qs) e known h = rw (e, act_on_only) h

  act_on_only-IsAsked : (a : Answer) → IsAsked t → IsAsked (act_on_only job now a t)
  unfolding open_questions
  act_on_only-IsAsked a h = only-IsAsked a _ refl (All-keep_if Known _ t.questions k) h

  replied-IsAsked :
      (a : Answer)
      → IsAsked t
      → IsAsked (elim (replied_question env job now t.questions) [
        | some q ↦ act a q t
        | none ↦ act_on_only job now a t
      ])
  replied-IsAsked a h = elim (Option-cases (replied_question env job now t.questions)) [
    | inl none' ↦ rw none' (act_on_only-IsAsked a h)
    | inr (q, e) ↦ rw e (act-IsAsked q t (replied_question-Known q e) a h)
  ]

  act_on_answer-IsAsked :
      (a : Answer) (text : String) → IsAsked t → IsAsked (act_on_answer env job now a text t)
  unfolding act_on_answer
  act_on_answer-IsAsked other_text text h =
      elim (Option-cases (replied_question env job now t.questions)) [
        | inl none' ↦ rw (none', act_on_answer) h
        | inr (q, e) ↦
            rw (e, act_on_answer)
              (process_manual_sku-IsAsked q t (replied_question-Known q e) env text h)
      ]
  act_on_answer-IsAsked confirm text h = replied-IsAsked confirm h
  act_on_answer-IsAsked reject text h = replied-IsAsked reject h
  act_on_answer-IsAsked skip text h = replied-IsAsked skip h

  pub process_confirm_mapping-IsAsked :
      IsAsked t → IsAsked (process_confirm_mapping env job now t).0
  unfolding process_confirm_mapping
  process_confirm_mapping-IsAsked h = elim (Option-cases job.tenant_id) [
    | inl none' ↦ rw (none', process_confirm_mapping) h
    | inr (tenant, e) ↦ rw (e, process_confirm_mapping) (act_on_answer-IsAsked _ _ h)
  ]
