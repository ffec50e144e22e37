-- ===== src/Mapping/Reach.antt =====
-- The jobs of the worker on the lines of a tenant as a step relation, and what holds of every reachable
-- state.
use groceryclaw.Mapping.Asked.Answering.{process_confirm_mapping-IsAsked}
use groceryclaw.Mapping.Asked.Resolving.{process_map_resolve-IsAsked}
use groceryclaw.Mapping.Answer.{process_confirm_mapping, expire_questions, is_over}
use groceryclaw.Mapping.Asked.{IsAsked, HasQuestion, PrimaryKey, asks}
use groceryclaw.Jobs.{WorkerJobEnvelope}
use groceryclaw.Mapping.Resolve.{process_map_resolve}
use groceryclaw.Mapping.{
  Services, Tables, Question, ResolvedItem, is_item_pending, item_unresolved, q_expired,
}
use groceryclaw.Base.{
  ℕ, String, true, false, ◌&&◌, List, [], ◌∷◌, map, some, ◌≡◌, inl, inr, if◌then◌else◌, Bool-cases,
  arith, str_eq, any, All,
}

-- The questions whose time is over are closed together with their lines.
closed_asks :
    (now : ℕ) (id : String) (qs : List Question)
    → any (λ q. is_over now q && str_eq q.item_id id) qs ≡ false
    → any (asks id) qs ≡ true
    → any
        (asks id)
        (map (λ q. if is_over now q then record q { question_status = q_expired } else q) qs)
      ≡ true
closed_asks now id [] over h = h
closed_asks now id (q ∷ qs) over h = ground (arith, over, h, closed_asks now id qs)

All-of_map :
    (P Q : ResolvedItem → Type 0) (f : ResolvedItem → ResolvedItem)
    → ((x : ResolvedItem) → P x → Q (f x))
    → (xs : List ResolvedItem) → All P xs
    → All Q (map f xs)
All-of_map P Q f k [] h = tt
All-of_map P Q f k (x ∷ xs) h = (k x h.0, All-of_map P Q f k xs h.1)

expired_item :
    (now : ℕ) (qs : List Question) (x : ResolvedItem)
    → HasQuestion qs x
    → HasQuestion
        (map (λ q. if is_over now q then record q { question_status = q_expired } else q) qs)
        (if is_item_pending x.item_status
            && any (λ q. is_over now q && str_eq q.item_id x.item_id) qs
          then record x {
            item_status = item_unresolved;
            unresolved_reason = some "confirmation_expired";
          }
          else x)
expired_item now qs x asked =
    elim (Bool-cases (any (λ q. is_over now q && str_eq q.item_id x.item_id) qs)) [
      | inl over ↦ λ p. absurd (ground (arith, over, p))
      | inr not_over ↦ elim (Bool-cases (is_item_pending x.item_status)) [
        | inl waits ↦
            rw (not_over, waits) (λ p. closed_asks now x.item_id qs not_over (asked waits))
        | inr done ↦ rw done (λ p. absurd (cc (p, done)))
      ]
    ]

expire_questions-IsAsked : (now : ℕ) (t : Tables) → IsAsked t → IsAsked (expire_questions now t)
unfolding expire_questions
expire_questions-IsAsked now t h =
    All-of_map (HasQuestion t.questions) (HasQuestion (expire_questions now t).questions) _
      (expired_item now t.questions) t.items h

-- What happens to the tables of a tenant: a job resolves the lines of an invoice, a user answers, or the
-- questions whose time is over are closed.
pub data Step : Tables → Tables → Type 0 where
  resolves :
      {t : Tables}
      → (env : Services) (job : WorkerJobEnvelope) → Step t (process_map_resolve env job t).0
  answers :
      {t : Tables}
      → (env : Services) (job : WorkerJobEnvelope) (now : ℕ) → PrimaryKey t.questions
      → Step t (process_confirm_mapping env job now t).0
  expires : {t : Tables} → (now : ℕ) → Step t (expire_questions now t)

pub data Steps : Tables → Tables → Type 0 where
  stop : {t : Tables} → Steps t t
  then_step : {t u v : Tables} → Steps t u → Step u v → Steps t v

Step-IsAsked : {t u : Tables} → Step t u → IsAsked t → IsAsked u
Step-IsAsked (resolves {t} env job) h = process_map_resolve-IsAsked env job t h
Step-IsAsked (answers {t} env job now k) h = process_confirm_mapping-IsAsked env job now t k h
Step-IsAsked (expires {t} now) h = expire_questions-IsAsked now t h

-- In every order of resolving jobs, answers and closed questions (the identifiers of the stored questions
-- being a primary key where an answer is taken), a line that waits for its user has a question that waits
-- for an answer, if this holds at the start.
pub Steps-IsAsked : {t u : Tables} → Steps t u → IsAsked t → IsAsked u
Steps-IsAsked stop h = h
Steps-IsAsked (then_step s step) h = Step-IsAsked step (Steps-IsAsked s h)
