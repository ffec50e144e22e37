-- ===== src/Worker/Checked.antt =====
-- The validation of a job gives its handler what it asks for (apps/worker/src/index.ts, `handleEnvelope`, and
-- packages/common/src/jobs.ts).
use groceryclaw.Jobs.{Payload, WorkerJobEnvelope, confirm_mapping, map_resolve}
use groceryclaw.Mapping.{Services, Tables}
use groceryclaw.Mapping.Answer.{process_confirm_mapping}
use groceryclaw.Mapping.Resolve.{map_resolve_for, process_map_resolve}
use groceryclaw.Worker.{handle_envelope, handle_as, Handlers, WorkerState, nothing, thrown_of}
use groceryclaw.Jobs.Valid.{has_ids, validate, is_acceptable, envelope_of, read_header, read_ids}
use groceryclaw.Base.{
  ℕ, ◌⊎◌, String, Bool, true, false, Option, none, some, ◌≡◌, refl, inl, inr, arith, ◌∙◌, ap, subst,
  is_some, bind-some, guard-some,
}

-- A job that passes validation has the identifiers of its type.
validate-has_ids :
    (trim : String → String) (input : Option Payload) (v : WorkerJobEnvelope)
    → validate trim input ≡ some v
    → has_ids v.job_type
        (is_some v.tenant_id)
        (is_some v.inbound_event_id)
        (is_some v.canonical_invoice_id)
      ≡ true
unfolding validate is_acceptable envelope_of
validate-has_ids trim none v e = absurd (ground (arith, e))
validate-has_ids trim (some p) v e =
    let (h, (read_h, rest)) = bind-some (read_header trim p) _ v e in
    let (i, (read_i, rest')) = bind-some (read_ids trim p) _ v rest in
    let (fine, same) = guard-some (is_acceptable trim h i p) (envelope_of trim h i p) v rest' in
    subst
      (λ w.
        has_ids w.job_type (is_some w.tenant_id) (is_some w.inbound_event_id)
          (is_some w.canonical_invoice_id)
        ≡ true)
      same (ground (arith, fine))

map_resolve_for_fine :
    (tenant invoice : Option String) (enabled : Bool) (env : Services) (job : WorkerJobEnvelope)
    (t : Tables)
    → has_ids map_resolve (is_some tenant) false (is_some invoice) ≡ true
    → (map_resolve_for tenant invoice enabled env job t).1 ≡ none
unfolding has_ids map_resolve_for
map_resolve_for_fine none invoice enabled env job t e = absurd (ground (arith, e))
map_resolve_for_fine (some tenant) none enabled env job t e = absurd (ground (arith, e))
map_resolve_for_fine (some tenant) (some invoice) false env job t e = refl
map_resolve_for_fine (some tenant) (some invoice) true env job t e = refl

confirm_fine :
    (env : Services) (job : WorkerJobEnvelope) (now : ℕ) (t : Tables)
    → has_ids confirm_mapping (is_some job.tenant_id) false false ≡ true
    → (process_confirm_mapping env job now t).1 ≡ none
unfolding has_ids process_confirm_mapping
confirm_fine env job now t e = ground (arith, e)

-- A job about the lines of an invoice, or about an answer to a question, that passes validation never throws
-- for an identifier that is missing: its handler returns without an error.
pub handle_envelope-lines :
    (h : Handlers) (now : ℕ) (input : Option Payload) (v : WorkerJobEnvelope) (s : WorkerState)
    → validate h.trim input ≡ some v
    → (v.job_type ≡ map_resolve) ⊎ (v.job_type ≡ confirm_mapping)
    → (handle_envelope h now input s).1 ≡ nothing
unfolding handle_envelope handle_as process_map_resolve has_ids
handle_envelope-lines h now input v s e (inl t) =
    let ids = validate-has_ids h.trim input v e in
    let fine : (process_map_resolve h.services v s.lines).1 ≡ none =
      map_resolve_for_fine v.tenant_id v.canonical_invoice_id _ h.services v s.lines
        (ground (arith, ids, t)) in
    let step : handle_envelope h now input s ≡ handle_as h now map_resolve v s =
      rw (e, handle_envelope) (ap (λ u. handle_as h now u v s) t) in
    ap (λ r. r.1) step ∙ ap thrown_of fine
handle_envelope-lines h now input v s e (inr t) =
    let ids = validate-has_ids h.trim input v e in
    let fine = confirm_fine h.services v now s.lines (ground (arith, ids, t)) in
    let step : handle_envelope h now input s ≡ handle_as h now confirm_mapping v s =
      rw (e, handle_envelope) (ap (λ u. handle_as h now u v s) t) in
    ap (λ r. r.1) step ∙ ap thrown_of fine
