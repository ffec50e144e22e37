-- ===== src/Agent/Examples.antt =====
-- A concrete voice turn: a draft is pending, the owner says yes, and the brain asks for the order.
use groceryclaw.Base.Assoc.{lookup, insert, delete, keep_entries}
use groceryclaw.Agent.Turns.{run_turn-IsRedacted, run_turn-IsAuthorized}
use groceryclaw.Agent.Rounds.{run_turn, rounds, ask_round, ask, says_something, join_texts}
use groceryclaw.Agent.Safety.{
  IsRedactedMessage, IsAuthorized, count_confirmations, IsRedactedBlock, Speaks,
}
use groceryclaw.Agent.Outcome.{BrainsWrite}
use groceryclaw.Agent.{
  PendingConfirmation, Fields, Conversation, ToolResult, thinking, text, tool_use, text_block,
  redact,
}
use groceryclaw.Agent.Turn.{
  with_profile, Brain, Host, answered, answered-injective, handle_uses, handle_use, send, refuse,
  verdict_of, draft_in, note_draft, note_confirm, with_profile,
}
use groceryclaw.Base.{
  ℕ, zero, suc, ◌≤◌, String, true, false, [], ◌∷◌, none, some, ◌≡◌, refl, arith, subst, str_eq, All,
}

abbrev pending_draft : PendingConfirmation
pending_draft = record { token = "rc_12345678"; expires_at = "soon"; summary = [] }

abbrev talk : Conversation
talk = record { messages = []; pending = some pending_draft; last_seen_ms = 0 }

-- It asks twice for the order in one answer, and then speaks.
abbrev ask_order : Brain
ask_order zero ms =
    answered
      (thinking ∷ tool_use "u1" "confirm_reorder" [] ∷ tool_use "u2" "confirm_reorder" [] ∷ []) true
ask_order (suc n) ms = answered (text_block "Done." ∷ []) false

-- The tools' server counts its calls.
abbrev serve : String → Fields → ℕ → ℕ × ToolResult
serve name args n = (
  suc n,
  record { spoken = "ok"; structured = some (("status", text "confirmed") ∷ []); is_error = false },
)

abbrev host : Host ℕ
host = record {
  brain = ask_order;
  fallback_brain = none;
  forced_fallback = none;
  call_tool = serve;
  is_profile_tool = (λ _. false);
  voice_profile = "owner";
  trim = (λ t. t);
  ends_sentence = (λ _. true);
  affirmed = true;
  now = 7;
}

-- The texts that are not the token.
abbrev HidesToken : String → Type 0
HidesToken s = str_eq s "rc_12345678" ≡ false

host-Speaks : Speaks HidesToken host
unfolding str_eq
host-Speaks = record {
  answers = (λ name args w. refl);
  refuses_without_yes = refl;
  refuses_unheard = refl;
  refuses_twice = refl;
}

ask_order-Writes : BrainsWrite (IsRedactedBlock HidesToken) host
ask_order-Writes = record {
  first = (λ n ms bs stops e.
      elim n as (λ k. ask_order k ms ≡ answered bs stops → All (IsRedactedBlock HidesToken) bs) [
        | zero ↦ λ e'.
            subst (All (IsRedactedBlock HidesToken)) (answered-injective _ _ _ _ e')
              (tt, (tt, (tt, tt)))
        | suc k ↦
            λ e'. subst (All (IsRedactedBlock HidesToken)) (answered-injective _ _ _ _ e') (tt, tt)
      ]
        e);
  second = (λ b e. absurd (ground (arith, e)));
}

-- Only the first of the two confirmations reached the server.
run_turn-IsAuthorized_example :
    All (IsAuthorized true (some pending_draft)) (run_turn host 0 talk "yes").locals.sent
    × (count_confirmations (run_turn host 0 talk "yes").locals.sent ≤ 1)
run_turn-IsAuthorized_example = run_turn-IsAuthorized host 0 talk "yes"

run_turn-IsRedacted_example :
    All (IsRedactedMessage HidesToken) (run_turn host 0 talk "yes").conversation.messages
run_turn-IsRedacted_example =
    run_turn-IsRedacted host 0 talk "yes" HidesToken host-Speaks ask_order-Writes tt

-- The turn runs to its reply, clears the pending draft, and has called the server once.
turn_runs :
    ((run_turn host 0 talk "yes").reply ≡ some "Done.")
    × (((run_turn host 0 talk "yes").conversation.pending ≡ none)
        × ((run_turn host 0 talk "yes").locals.world ≡ 1))
unfolding run_turn rounds ask_round ask says_something handle_uses handle_use send refuse verdict_of
    str_eq join_texts draft_in note_draft note_confirm with_profile lookup insert delete
    keep_entries redact
turn_runs = (refl, (refl, refl))
