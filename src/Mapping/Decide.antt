-- ===== src/Mapping/Decide.antt =====
-- What an answer does to the open questions, and when an invoice is synchronised
-- (apps/worker/src/process-confirm-mapping.ts).
use groceryclaw.Jobs.{WorkerJobEnvelope}
use groceryclaw.Mapping.{
  decide, Question, QuestionStatus, is_q_pending, Tables, q_confirmed, q_rejected, q_skipped,
  Services, chat_of,
}
use groceryclaw.Mapping.Answer.{
  act, accept, close_without, check_remaining, Answer, other_text, confirm, reject, skip,
  process_confirm_mapping, act_on_answer, replied_question, open_questions, answer_of, act_on_only,
}
use groceryclaw.Base.{
  ℕ, suc, ◌≤◌, ◌<◌, ◌⊎◌, String, Bool, true, false, List, [], ◌∷◌, none, some, ◌≡◌, refl, ◌≢◌, inl,
  inr, if◌then◌else◌, Option-cases, Bool-cases, arith, ap, str_eq_iff, find, keep_if, get_or_else,
  bind-some,
}

-- The number of questions that wait for an answer.
unfoldable pub waiting : List Question → ℕ
waiting [] = 0
waiting (q ∷ qs) =
    let rest = waiting qs in if is_q_pending q.question_status then suc rest else rest

decide-waiting :
    (id : String) (s : QuestionStatus) (qs : List Question)
    → is_q_pending s ≡ false
    → waiting (decide id s qs) ≤ waiting qs
unfolding decide waiting
decide-waiting id s [] closes = omega arith
decide-waiting id s (q ∷ qs) closes = ground (arith, closes, decide-waiting id s qs closes)

-- A question that is found open and is decided waits no more.
found-waiting :
    (p : Question → Bool) (s : QuestionStatus) (q : Question) (qs : List Question)
    → is_q_pending s ≡ false
    → ((r : Question) → p r ≡ true → is_q_pending r.question_status ≡ true)
    → find p qs ≡ some q
    → waiting (decide q.id s qs) < waiting qs
unfolding decide waiting
found-waiting p s q [] closes open' e = absurd (ground (arith, e))
found-waiting p s q (r ∷ qs) closes open' e = elim (Bool-cases (p r)) [
  | inl yes' ↦
      let same : r ≡ q = ground (arith, e, yes') in
      let pending' = open' r yes' in
      let same_id : r.id ≡ q.id = ap (λ x. x.id) same in
      ground
        (arith, pending', (str_eq_iff r.id q.id).1 same_id, closes, decide-waiting q.id s qs closes)
  | inr no' ↦
      let rest = found-waiting p s q qs closes open' (ground (arith, e, no')) in
      ground (arith, closes, rest)
]

keep_if-find :
    (p : Question → Bool) (xs : List Question) (q : Question) (qs : List Question)
    → keep_if p xs ≡ q ∷ qs
    → find p xs ≡ some q
keep_if-find p [] q qs e = absurd (ground (arith, e))
keep_if-find p (x ∷ xs) q qs e = elim (Bool-cases (p x)) [
  | inl yes' ↦ ground (arith, e, yes')
  | inr no' ↦ rw no' (keep_if-find p xs q qs (ground (arith, e, no')))
]

act-waiting :
    (p : Question → Bool) (a : Answer) (q : Question) (t : Tables)
    → ((r : Question) → p r ≡ true → is_q_pending r.question_status ≡ true)
    → find p t.questions ≡ some q
    → a ≢ other_text
    → q.suggested_sku ≢ ""
    → waiting (act a q t).questions < waiting t.questions
unfolding act accept close_without check_remaining
act-waiting p confirm q t open' e words sku = ground (
  arith,
  sku,
  str_eq_iff q.suggested_sku "",
  found-waiting p q_confirmed q t.questions refl open' e,
)
act-waiting p reject q t open' e words sku =
    ground (arith, found-waiting p q_rejected q t.questions refl open' e)
act-waiting p skip q t open' e words sku =
    ground (arith, found-waiting p q_skipped q t.questions refl open' e)
act-waiting p other_text q t open' e words sku = absurd (words refl)

module _ (env : Services) (job : WorkerJobEnvelope) (now : ℕ) (t : Tables) where
  -- The question that an answer is about: the one that the message replies to, or else the user's only one.
  abbrev pub IsAbout : Question → Type 0
  IsAbout q =
      (replied_question env job now t.questions ≡ some q)
      ⊎ ((replied_question env job now t.questions ≡ none)
          × (open_questions job now t.questions ≡ q ∷ []))

  replied-waiting :
      (a : Answer) (q : Question)
      → replied_question env job now t.questions ≡ some q
      → a ≢ other_text
      → q.suggested_sku ≢ ""
      → waiting (act a q t).questions < waiting t.questions
  unfolding replied_question
  replied-waiting a q e words sku =
      let (r, (_, e')) = bind-some job.reply_to_message_id _ q e in
      let (chat, (_, found)) = bind-some (chat_of job) _ q e' in
      act-waiting _ a q t (λ r' h. ground (arith, h)) found words sku

  only-waiting :
      (a : Answer) (q : Question)
      → open_questions job now t.questions ≡ q ∷ []
      → a ≢ other_text
      → q.suggested_sku ≢ ""
      → waiting (act a q t).questions < waiting t.questions
  unfolding open_questions
  only-waiting a q e words sku =
      act-waiting _ a q t (λ r' h. ground (arith, h)) (keep_if-find _ t.questions q [] e) words sku

  about-waiting :
      (a : Answer) (text : String) (q : Question)
      → IsAbout q
      → a ≢ other_text
      → q.suggested_sku ≢ ""
      → waiting (act_on_answer env job now a text t).questions < waiting t.questions
  unfolding act_on_answer act_on_only
  about-waiting other_text text q about words sku = absurd (words refl)
  about-waiting confirm text q (inl e) words sku =
      rw (e, act_on_answer) (replied-waiting confirm q e words sku)
  about-waiting reject text q (inl e) words sku =
      rw (e, act_on_answer) (replied-waiting reject q e words sku)
  about-waiting skip text q (inl e) words sku =
      rw (e, act_on_answer) (replied-waiting skip q e words sku)
  about-waiting confirm text q (inr (e, o)) words sku =
      rw (e, act_on_answer, o, act_on_only) (only-waiting confirm q o words sku)
  about-waiting reject text q (inr (e, o)) words sku =
      rw (e, act_on_answer, o, act_on_only) (only-waiting reject q o words sku)
  about-waiting skip text q (inr (e, o)) words sku =
      rw (e, act_on_answer, o, act_on_only) (only-waiting skip q o words sku)

-- A message that is one of the words of an answer (not a SKU typed by hand), and is about an open question
-- that suggests a SKU, leaves strictly fewer questions waiting: the dialogue about an invoice makes
-- progress with each such answer.
pub process_confirm_mapping-waiting :
    (env : Services) (job : WorkerJobEnvelope) (now : ℕ) (t : Tables) (q : Question)
    → job.tenant_id ≢ none
    → answer_of (env.lower (env.trim (get_or_else job.message_text ""))) ≢ other_text
    → IsAbout env job now t q
    → q.suggested_sku ≢ ""
    → waiting (process_confirm_mapping env job now t).0.questions < waiting t.questions
unfolding process_confirm_mapping
process_confirm_mapping-waiting env job now t q tenant words about sku =
    elim (Option-cases job.tenant_id) [
      | inl none' ↦ absurd (tenant none')
      | inr (s, e) ↦
          rw (e, process_confirm_mapping) (about-waiting env job now t _ _ q about words sku)
    ]
