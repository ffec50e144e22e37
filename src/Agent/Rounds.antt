-- ===== src/Agent/Rounds.antt =====
-- apps/alexa-sim/src/agent.ts: the loop of `runTurn`, `stripThinking`, `trimHistory` and the reply.
use groceryclaw.Agent.{
  ToolTrace, Conversation, Role, ChatMessage, Block, is_tool_use, PendingConfirmation, is_thinking,
  user, text_block, is_text, assistant,
}
use Prim.Native.String
use groceryclaw.Base.{
  ℕ, zero, suc, ◌-◌, String, Bool, true, false, not, ◌&&◌, ◌||◌, List, [], ◌∷◌, ◌++◌, Option, none,
  some, if◌then◌else◌, leb, str_eq, any, keep_if, length, drop,
}
use groceryclaw.Agent.Turn.{
  Brain, Held, Host, Locals, answered, BrainAnswer, drafted, from_start, raised, handle_uses, empty,
  cleared,
}

abbrev pub max_tool_rounds : ℕ
max_tool_rounds = 4

abbrev pub history_limit : ℕ
history_limit = 16

-- `b === opts.fallbackBrain`: which of the two brains answers.
pub data Which : Type 0 where
  primary fallback : Which

-- `some` text that is not blank, or a tool call: otherwise the answer counts as empty.
unfoldable pub says_something : (String → String) → List Block → Bool
says_something trim bs =
    any is_tool_use bs
    || any (λ b. elim b [ text_block t ↦ not (str_eq (trim t) "") | _ ↦ false ]) bs

-- `ask`: an answer that says nothing is an error of its own.
unfoldable pub ask : (String → String) → Brain → ℕ → List ChatMessage → BrainAnswer
unfolding says_something
ask trim b n ms = elim (b n ms) [
  | raised r ↦ raised r
  | answered bs stops ↦ if says_something trim bs then answered bs stops else raised empty
]

-- The answer of one round: the fallback brain takes over where the primary one fails; `none` is a
-- turn that ends with the brain's error.
unfoldable pub ask_round :
    {W : Type 0} → Host W → Which → ℕ → List ChatMessage → Option (Which × List Block × Bool)
unfolding ask
ask_round h primary n ms = elim (ask h.trim h.brain n ms) [
  | answered bs stops ↦ some (primary, bs, stops)
  | raised r ↦ elim h.fallback_brain [
    | none ↦ none
    | some b ↦ elim (ask h.trim b n ms) [
      | answered bs stops ↦ some (fallback, bs, stops)
      | raised _ ↦ none
    ]
  ]
]
ask_round h fallback n ms = elim h.fallback_brain [
  | none ↦ none
  | some b ↦ elim (ask h.trim b n ms) [
    | answered bs stops ↦ some (fallback, bs, stops)
    | raised _ ↦ none
  ]
]

-- `response.content.filter(isText).map((b) => b.text).join(' ')`
unfoldable pub join_texts : List Block → String
join_texts [] = ""
join_texts (text_block t ∷ bs) =
    if any is_text bs then String.◌++◌ t (String.◌++◌ " " (join_texts bs)) else t
join_texts (_ ∷ bs) = join_texts bs

-- How the rounds end: with a reply (empty when they ran out), or with the brain's error.
pub data Ending (W : Type 0) : Type 0 where
  replied : String → Locals W → Ending W
  threw : Locals W → Ending W

abbrev pub push : {W : Type 0} → Role → List Block → Locals W → Locals W
push r bs l = record l { messages = l.messages ++ record { role = r; content = bs } ∷ [] }

unfoldable pub rounds :
    {W : Type 0}
    → Host W
    → Option PendingConfirmation
    → Which
    → (left done : ℕ) → Locals W
    → Ending W
rounds h start which zero done l = replied "" l
rounds h start which (suc left) done l = elim (ask_round h which done l.messages) [
  | none ↦ threw l
  | some (who, bs, stops) ↦
      let l₁ = push assistant bs l in
      let next =
        (let (l₂, results) = handle_uses h start bs l₁ in
          rounds h start who left (suc done) (push user results l₂)) in
      if not stops || not (any is_tool_use bs) then replied (h.trim (join_texts bs)) l₁ else next
]

-- Thinking blocks go, and messages that they leave empty.
unfoldable pub strip_thinking : List ChatMessage → List ChatMessage
strip_thinking [] = []
strip_thinking (m ∷ ms) =
    let content = keep_if (λ b. not (is_thinking b)) m.content in
    let rest = strip_thinking ms in
    elim content [ [] ↦ rest | b ∷ bs ↦ record { role = m.role; content = b ∷ bs } ∷ rest ]

abbrev pub is_user : Role → Bool
is_user user = true
is_user assistant = false

abbrev pub is_user_text : ChatMessage → Bool
is_user_text m = is_user m.role && any is_text m.content

-- The messages from the first one that passes on, if one does.
unfoldable pub from_user_text : List ChatMessage → Option (List ChatMessage)
from_user_text [] = none
from_user_text (m ∷ ms) = if is_user_text m then some (m ∷ ms) else from_user_text ms

unfoldable pub trim_history : List ChatMessage → List ChatMessage
unfolding from_user_text
trim_history ms =
    if leb (length ms) history_limit
    then ms
    else elim (from_user_text (drop (length ms - history_limit) ms)) [
      | some kept ↦ kept
      | none ↦ drop (length ms - 2) ms
    ]

abbrev last_spoken : List ToolTrace → String
last_spoken [] = "Sorry, I didn't catch that."
last_spoken (t ∷ []) = t.spoken
last_spoken (t ∷ ts) = last_spoken ts

abbrev finish_sentence : (String → Bool) → String → String
finish_sentence ends r = if ends r then r else String.◌++◌ r "."

-- `conversation.pending` after the turn.
abbrev pub pending_after : Held → Option PendingConfirmation → Option PendingConfirmation
pending_after from_start start = start
pending_after cleared start = none
pending_after (drafted p) start = some p

pub record TurnResult (W : Type 0) : Type 0 where
  pub conversation : Conversation
  pub reply : Option String
  pub locals : Locals W

abbrev pub first_brain : {W : Type 0} → Host W → Which
first_brain h = elim h.forced_fallback [
  | none ↦ primary
  | some r ↦ elim h.fallback_brain [ none ↦ primary | some b ↦ fallback ]
]

abbrev pub start_locals : {W : Type 0} → W → Conversation → String → Locals W
start_locals w c user_text = record {
  world = w;
  messages = c.messages ++ record { role = user; content = text_block user_text ∷ [] } ∷ [];
  held = from_start;
  confirmed = false;
  traces = [];
  card = none;
  order_result = none;
  sent = [];
}

-- `user_text` is trimmed and cut already. A `reply` that is `none` is a turn that threw: its messages stay
-- as they are.
unfoldable pub run_turn : {W : Type 0} → Host W → W → Conversation → String → TurnResult W
run_turn h w c user_text =
    elim (rounds h c.pending (first_brain h) max_tool_rounds 0 (start_locals w c user_text)) [
      | threw l ↦ record {
        conversation = record c { messages = l.messages; pending = pending_after l.held c.pending };
        reply = none;
        locals = l;
      }
      | replied r l ↦ record {
        conversation = record {
          messages = trim_history (strip_thinking l.messages);
          pending = pending_after l.held c.pending;
          last_seen_ms = h.now;
        };
        reply =
            some
              (finish_sentence h.ends_sentence (if str_eq r "" then last_spoken l.traces else r));
        locals = l;
      }
    ]
