-- ===== src/Mapping/Examples.antt =====
-- Runs of the jobs on the lines of an invoice at concrete inputs.
use groceryclaw.Mapping.Reach.{Steps-IsAsked, then_step, stop, resolves, answers, Steps}
use groceryclaw.Mapping.Learn.{accept-resolve_lines, IsResolvedTo}
use groceryclaw.Mapping.Decide.{waiting, process_confirm_mapping-waiting}
use groceryclaw.Mapping.Asked.{IsAsked, PrimaryKey}
use groceryclaw.Mapping.Resolve.{
  resolve_lines, process_map_resolve, map_resolve_for, start_progress, tier_one, known_sku,
  alias_sku, verified_sku, resolve_item, tier_two, place_each, place_match, tier_of, suggest,
  send_question, ask_for_sku, set_open_item, ask_each, ask_or_mark, mark_each, send_summary,
  send_sync,
}
use groceryclaw.Jobs.{WorkerJobEnvelope, confirm_mapping, map_resolve, whole}
use groceryclaw.Mapping.{
  notice, Line, Tables, Services, kiotviet_sync_of, Question, q_pending, upsert_item, update_item,
  decide, learn,
}
use groceryclaw.Mapping.Answer.{
  accept, process_confirm_mapping, act_on_answer, answer_of, act_on_only, replied_question,
  open_questions, act, check_remaining, close_without, process_manual_sku,
}
use groceryclaw.Base.{
  ◌<◌, true, false, [], ◌∷◌, none, some, ◌≡◌, refl, inl, if◌then◌else◌, arith, ◌==◌, str_eq,
  str_eq_iff, length,
}

-- Two lines, one of them about a product that no alias and no SKU leads to.
abbrev milk_line : Line
milk_line = record {
  id = "i1";
  invoice_id = "v1";
  sku = none;
  product_name = "milk";
  quantity = 2;
  uom = none;
}

abbrev rice_line : Line
rice_line = record {
  id = "i2";
  invoice_id = "v1";
  sku = some "RICE";
  product_name = "rice";
  quantity = 1;
  uom = some "bag";
}

abbrev shop : Tables
shop = record {
  lines = milk_line ∷ rice_line ∷ [];
  items = [];
  questions = [];
  aliases = [];
  products =
      record { sku = "RICE"; product_name = "Rice"; active = true }
      ∷ record { sku = "MILK"; product_name = "Milk"; active = true }
      ∷ [];
  queue = [];
  sent = 0;
}

abbrev services : Services
services = record {
  trim = (λ s. s);
  lower = (λ s. s);
  upper = (λ s. s);
  decimal = (λ n. if n == 7 then "7" else "0");
  message_id = (λ n. "7");
  row_id = (λ n. "q");
  expires_at = 100;
  mapping_enabled = true;
  miniapp = false;
  search_candidates = (λ products lines. ("MILK", "Milk") ∷ []);
  ai = some (λ names catalog.
      record {
        invoice_product = "milk";
        matched_code = some "MILK";
        matched_name = some "Milk";
        confidence = 55;
      }
      ∷ []);
}

abbrev resolve_job : WorkerJobEnvelope
resolve_job = record {
  job_type = map_resolve;
  tenant_id = some "t";
  inbound_event_id = none;
  platform_user_id = "u";
  message_id = "m";
  correlation_id = "c";
  user_id = none;
  telegram_chat_id = some (whole 5);
  file_id = none;
  canonical_invoice_id = some "v1";
  notification_type = none;
  template_vars = none;
  enqueued_at_ms = none;
  message_text = none;
  reply_to_message_id = none;
}

abbrev confirm_job : WorkerJobEnvelope
confirm_job = record resolve_job {
  job_type = confirm_mapping;
  message_text = some "1";
  reply_to_message_id = some 7;
}

abbrev asked : Tables
asked = (process_map_resolve services resolve_job shop).0

abbrev answered : Tables
answered = (process_confirm_mapping services confirm_job 50 asked).0

abbrev milk_question : Question
milk_question = record {
  id = "q";
  invoice_id = "v0";
  item_id = "i0";
  platform_user_id = "u";
  chat_id = whole 5;
  sent_message_id = "7";
  product_name = "milk";
  suggested_sku = "MILK";
  suggested_name = "Milk";
  confidence = 55;
  question_status = q_pending;
  expires_at = 100;
}

test_asked : (length asked.questions ≡ 1) × ((length asked.items ≡ 2) × (asked.queue ≡ notice ∷ []))
unfolding process_map_resolve map_resolve_for resolve_lines start_progress tier_one known_sku
    alias_sku verified_sku resolve_item tier_two place_each place_match tier_of suggest
    send_question ask_for_sku set_open_item ask_each ask_or_mark mark_each send_summary send_sync
    upsert_item str_eq
test_asked = (refl, (refl, refl))

test_answered : answered.queue ≡ notice ∷ kiotviet_sync_of "v1" ∷ notice ∷ []
unfolding process_map_resolve map_resolve_for resolve_lines start_progress tier_one known_sku
    alias_sku verified_sku resolve_item tier_two place_each place_match tier_of suggest
    send_question ask_for_sku set_open_item ask_each ask_or_mark mark_each send_summary send_sync
    upsert_item str_eq process_confirm_mapping act_on_answer answer_of act_on_only replied_question
    open_questions act accept check_remaining close_without update_item decide learn
    process_manual_sku waiting
test_answered = refl

asked_key : PrimaryKey asked.questions
unfolding process_map_resolve map_resolve_for resolve_lines start_progress tier_one known_sku
    alias_sku verified_sku resolve_item tier_two place_each place_match tier_of suggest
    send_question ask_for_sku set_open_item ask_each ask_or_mark mark_each send_summary send_sync
    upsert_item str_eq
asked_key = ((λ e. refl, tt), tt)

abbrev two_steps : Steps shop answered
two_steps =
    then_step {u = asked} (then_step {u = shop} stop (resolves {t = shop} services resolve_job))
      (answers {t = asked} services confirm_job 50 asked_key)

Steps-IsAsked_example : IsAsked answered
Steps-IsAsked_example = Steps-IsAsked two_steps tt

process_confirm_mapping-waiting_example : waiting answered.questions < waiting asked.questions
unfolding process_map_resolve map_resolve_for resolve_lines start_progress tier_one known_sku
    alias_sku verified_sku resolve_item tier_two place_each place_match tier_of suggest
    send_question ask_for_sku set_open_item ask_each ask_or_mark mark_each send_summary send_sync
    upsert_item str_eq process_confirm_mapping act_on_answer answer_of act_on_only replied_question
    open_questions act accept check_remaining close_without update_item decide learn
    process_manual_sku waiting
process_confirm_mapping-waiting_example =
    process_confirm_mapping-waiting services confirm_job 50 asked
      (record milk_question { invoice_id = "v1"; item_id = "i1" }) (λ e. absurd (ground (arith, e)))
      (λ e. absurd (ground (arith, e))) (inl refl)
      (λ e. absurd (ground (arith, (str_eq_iff "MILK" "").1 e)))

accept-resolve_lines_example :
    ((resolve_lines services resolve_job "v1"
        (accept milk_question "MILK" (record shop { lines = milk_line ∷ [] }))).pending
      ≡ [])
    × ((resolve_lines services resolve_job "v1"
          (accept milk_question "MILK" (record shop { lines = milk_line ∷ [] }))).still
        ≡ [])
    × IsResolvedTo services resolve_job "v1" "MILK"
        (milk_line ∷ [])
        (resolve_lines services resolve_job "v1"
          (accept milk_question "MILK" (record shop { lines = milk_line ∷ [] }))).tables
unfolding str_eq
accept-resolve_lines_example =
    accept-resolve_lines services resolve_job "v1" milk_question "MILK"
      (record shop { lines = milk_line ∷ [] }) tt
      (λ e. absurd (ground (arith, (str_eq_iff "MILK" "").1 e))) (refl, tt)
