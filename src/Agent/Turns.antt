-- ===== src/Agent/Turns.antt =====
-- What a whole voice turn guarantees (apps/alexa-sim/src/agent.ts, `runTurn`), whatever the brains and
-- the tools answer.
use groceryclaw.Agent.Outcome.{rounds-IsSafe, locals_of, BrainsWrite}
use groceryclaw.Agent.Safety.{
  IsAuthorized, IsRedactedBlock, count_confirmations, IsRedactedMessage, IsSafe, Speaks,
}
use groceryclaw.Agent.Rounds.{
  from_user_text, strip_thinking, trim_history, history_limit, run_turn, is_user_text, rounds,
  first_brain, threw, Ending, max_tool_rounds, replied, start_locals,
}
use groceryclaw.Agent.Turn.{Host}
use groceryclaw.Agent.{Block, Conversation, is_thinking, ChatMessage, text_block}
use groceryclaw.Base.{
  ◌-◌, ◌≤◌, String, not, List, [], ◌∷◌, some, ◌≡◌, refl, inl, inr, Option-cases, Bool-cases, arith,
  leb, subst, keep_if, length, All, drop, leb→le, All-drop, length-drop, All-append, All-map,
  All-keep_if,
}

-- The messages that a turn keeps are some of its messages, without thinking.
strip-All :
    (Ok : Block → Type 0) (ms : List ChatMessage)
    → All (λ m. All Ok m.content) ms
    → All (λ m. All Ok m.content) (strip_thinking ms)
unfolding strip_thinking
strip-All Ok [] h = tt
strip-All Ok (m ∷ ms) h =
    (elim (keep_if (λ b. not (is_thinking b)) m.content)
        as (λ bs.
          keep_if (λ b. not (is_thinking b)) m.content ≡ bs
          → All (λ x. All Ok x.content) (strip_thinking (m ∷ ms))) [
            | [] ↦ λ e. rw (e, strip_thinking) (strip-All Ok ms h.1)
            | b ∷ bs ↦ λ e.
                rw (e, strip_thinking)
                  (
                    subst (All Ok) e (All-keep_if Ok (λ x. not (is_thinking x)) m.content h.0),
                    strip-All Ok ms h.1,
                  )
          ])
      refl

from_user_text-All :
    (P : ChatMessage → Type 0) (ms kept : List ChatMessage)
    → from_user_text ms ≡ some kept
    → All P ms
    → All P kept × (length kept ≤ length ms)
unfolding from_user_text
from_user_text-All P [] kept e h = absurd (ground (arith, e))
from_user_text-All P (m ∷ ms) kept e h = elim (Bool-cases (is_user_text m)) [
  | inl yes' ↦
      let same : m ∷ ms ≡ kept = ground (arith, e, yes') in
      (subst (All P) same h, subst (λ k. length k ≤ length (m ∷ ms)) same (omega arith))
  | inr no' ↦
      let (a, n) = from_user_text-All P ms kept (ground (arith, e, no')) h.1 in
      (a, omega (arith, n))
]

trim-All :
    (P : ChatMessage → Type 0) (ms : List ChatMessage)
    → All P ms
    → All P (trim_history ms) × (length (trim_history ms) ≤ history_limit)
unfolding trim_history
trim-All P ms h = elim (Bool-cases (leb (length ms) history_limit)) [
  | inl short ↦ rw (short, trim_history) (h, leb→le (length ms) history_limit short)
  | inr long ↦ elim (Option-cases (from_user_text (drop (length ms - history_limit) ms))) [
    | inl none' ↦
        rw (long, trim_history, none')
          (All-drop P (length ms - 2) ms h, rw (length-drop (length ms - 2) ms) (ground arith))
    | inr (kept, e) ↦
        let (a, n) =
          from_user_text-All P (drop (length ms - history_limit) ms) kept e
            (All-drop P (length ms - history_limit) ms h) in
        rw (long, trim_history, e)
          (a, ground (arith, n, length-drop (length ms - history_limit) ms, long))
  ]
]

All-unit : {A : Type 0} → (xs : List A) → All (λ _. Unit {0}) xs
All-unit [] = tt
All-unit (x ∷ xs) = (tt, All-unit xs)

module _ {W : Type 0} (h : Host W) (w : W) (c : Conversation) (user_text : String) where
  -- The variables at the end of the rounds are those that the result reports.
  ending-IsSafe :
      (Ok : Block → Type 0) (Says : String → Type 0)
      → ((b : Block) → IsRedactedBlock Says b → Ok b)
      → Speaks Says h
      → BrainsWrite Ok h
      → Ok (text_block user_text)
      → All (λ m. All Ok m.content) c.messages
      → IsSafe Ok h.affirmed c.pending (
          locals_of
            (rounds h c.pending (first_brain h) max_tool_rounds 0 (start_locals w c user_text)))
  ending-IsSafe Ok Says redacted_ok speaks writes asked ok =
      rounds-IsSafe Ok Says redacted_ok h speaks writes c.pending (first_brain h) max_tool_rounds 0
        (start_locals w c user_text)
        (record {
          authorized = tt;
          once = refl;
          blocks = All-append (λ m. All Ok m.content) c.messages _ ok ((asked, tt), tt);
        })

  abbrev over : Ending W
  over = rounds h c.pending (first_brain h) max_tool_rounds 0 (start_locals w c user_text)

  run_turn-locals : (run_turn h w c user_text).locals ≡ locals_of over
  unfolding run_turn
  run_turn-locals = ground arith

  -- Whatever the brains ask for and the tools answer, every `confirm_reorder` that a turn sends to the
  -- shop is sent after the owner's yes in this turn, with the token of the draft that was pending when
  -- the turn began; and at most one confirmation of the turn is answered with data.
  pub run_turn-IsAuthorized :
      All (IsAuthorized h.affirmed c.pending) (run_turn h w c user_text).locals.sent
      × (count_confirmations (run_turn h w c user_text).locals.sent ≤ 1)
  run_turn-IsAuthorized =
      let s =
        ending-IsSafe (λ _. Unit) (λ _. Unit) (λ _ _. tt)
          (record {
            answers = (λ _ _ _. tt);
            refuses_without_yes = tt;
            refuses_unheard = tt;
            refuses_twice = tt;
          })
          (record { first = (λ _ _ bs _ _. All-unit bs); second = (λ _ _ _ _ bs _ _. All-unit bs) })
          tt (All-map (λ m _. All-unit m.content) c.messages (All-unit c.messages)) in
      rw run_turn-locals (s.authorized, ground (arith, s.once))

  -- Let `Says` be any property of texts, such as showing no token, that the tools' spoken answers and the
  -- host's own refusals have. If in all tool answers of the conversation the spoken texts have it and the
  -- data's field `confirmation_token` is missing, null or the host's mark, and if the same holds of tool answers that
  -- the brains should write, then it holds of all tool answers after the turn, whatever the tools put into
  -- that field.
  pub run_turn-IsRedacted :
      (Says : String → Type 0)
      → Speaks Says h
      → BrainsWrite (IsRedactedBlock Says) h
      → All (IsRedactedMessage Says) c.messages
      → All (IsRedactedMessage Says) (run_turn h w c user_text).conversation.messages
  unfolding run_turn
  run_turn-IsRedacted Says speaks writes ok =
      let s = ending-IsSafe (IsRedactedBlock Says) Says (λ _ r. r) speaks writes tt ok in
      (elim over
          as (λ e.
            over ≡ e
            → All (IsRedactedMessage Says) (run_turn h w c user_text).conversation.messages) [
              | threw l ↦ λ e.
                  rw (e, run_turn)
                    (subst (λ o. All (IsRedactedMessage Says) (locals_of o).messages) e s.blocks)
              | replied r l ↦ λ e.
                  rw (e, run_turn)
                    (trim-All (IsRedactedMessage Says) (strip_thinking l.messages) (
                      strip-All (IsRedactedBlock Says) l.messages (
                        subst (λ o. All (IsRedactedMessage Says) (locals_of o).messages) e
                          s.blocks))).0
            ])
        refl
