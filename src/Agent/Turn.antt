-- ===== src/Agent/Turn.antt =====
-- apps/alexa-sim/src/agent.ts, `runTurn`: the rounds of one turn, and the host's rules for tool calls.
-- The brains, the tools, the clock and the text functions of the platform are arguments; wall-clock
-- measurements, costs and usage counts are left out.
use groceryclaw.Base.Assoc.{insert, lookup, delete}
use groceryclaw.Agent.{
  Block, Fields, Status, ChatMessage, PendingConfirmation, Json, held_by_host, failure, ToolResult,
  redact_structured, text, Part, ToolTrace, tool_use, redact, tool_result, json_part, success,
  spoken_part,
}
use groceryclaw.Base.{
  ℕ, String, Bool, true, false, not, ◌&&◌, List, [], ◌∷◌, ◌++◌, Option, none, some, ◌≡◌,
  if◌then◌else◌, arith, str_eq,
}

-- What a brain answers to the messages; `raised` carries the reason that `fallbackReasonOf` gives.
pub data FallbackReason : Type 0 where
  timeout refusal error empty budget : FallbackReason

pub data BrainAnswer : Type 0 where
  answered : List Block → (stops_for_tools : Bool) → BrainAnswer
  raised : FallbackReason → BrainAnswer

-- The n-th question of the turn, and the messages so far.
abbrev pub Brain : Type 0
Brain = ℕ → List ChatMessage → BrainAnswer

-- A turn's surroundings. `W` is the state of the tools' server.
pub record Host (W : Type 0) : Type 0 where
  pub brain : Brain
  pub fallback_brain : Option Brain
  pub forced_fallback : Option FallbackReason
  pub call_tool : String → Fields → W → W × ToolResult
  pub is_profile_tool : String → Bool
  pub voice_profile : String
  pub trim : String → String
  pub ends_sentence : String → Bool
  pub affirmed : Bool
  pub now : ℕ

-- What became of `conversation.pending` since the turn began.
pub data Held : Type 0 where
  from_start cleared : Held
  drafted : PendingConfirmation → Held

-- A call that reached the tools' server, with its answer. The code keeps no such list; the theorems
-- speak of it.
pub record Sent : Type 0 where
  pub name : String
  pub args : Fields
  pub answer : ToolResult

-- The variables of `runTurn` during the rounds.
pub record Locals (W : Type 0) : Type 0 where
  pub world : W
  pub messages : List ChatMessage
  pub held : Held
  pub confirmed : Bool
  pub traces : List ToolTrace
  pub card : Option Fields
  pub order_result : Option Fields
  pub sent : List Sent

abbrev pub not_yes : String
not_yes = "The owner has not said yes in this turn. Ask them to confirm first."

abbrev pub not_heard : String
not_heard =
    "There is no reorder draft the owner has already heard. Read the draft out and wait for their yes in the next turn."

abbrev pub already_confirmed : String
already_confirmed = "That reorder was already confirmed in this turn."

-- `args[k] = v`, `delete args[k]`
abbrev profile_arg : String
profile_arg = "voice_profile"

-- Why the host refuses a call of `confirm_reorder`, or the arguments that it sends.
pub data Verdict : Type 0 where
  blocked : String → Verdict
  passes : Fields → Verdict

unfoldable pub verdict_of :
    (affirmed confirmed : Bool) → Option PendingConfirmation → String → Fields → Verdict
verdict_of affirmed confirmed pending name args =
    if not (str_eq name "confirm_reorder")
    then passes args
    else if not affirmed
    then blocked not_yes
    else elim pending [
      | none ↦ blocked not_heard
      | some p ↦
          if confirmed
          then blocked already_confirmed
          else passes (insert "confirmation_token" (text p.token) args)
    ]

module _ {W : Type 0} (h : Host W) where
  -- The profile of the speaker is the host's alone.
  unfoldable pub with_profile : String → Fields → Fields
  with_profile name args =
      if h.is_profile_tool name
      then insert profile_arg (text h.voice_profile) (delete profile_arg args)
      else delete profile_arg args

abbrev pub shown_args : String → Fields → Fields
shown_args name args =
    if str_eq name "confirm_reorder"
    then ("confirmation_token", held_by_host) ∷ []
    else delete profile_arg args

abbrev has_text : String → String → Fields → Bool
has_text k v f = elim (lookup k f) [ some (text t) ↦ str_eq t v | _ ↦ false ]

abbrev text_of : Option Json → Option String
text_of (some (text t)) = some t
text_of _ = none

-- `String(structured.expires_at ?? '')`, of a text.
abbrev string_of : Option Json → String
string_of (some (text t)) = t
string_of _ = ""

-- The draft that an answer of `create_reorder_draft` announces.
unfoldable pub draft_in : String → Option Fields → Option PendingConfirmation
draft_in name none = none
draft_in name (some f) =
    if str_eq name "create_reorder_draft" && has_text "status" "draft_created" f
    then elim (text_of (lookup "confirmation_token" f)) [
      | none ↦ none
      | some token ↦ some (record {
        token = token;
        expires_at = string_of (lookup "expires_at" f);
        summary = redact f;
      })
    ]
    else none

abbrev pub held_after : Fields → Held → Held
held_after f from_start = if has_text "status" "expired" f then from_start else cleared
held_after f other = other

abbrev pub json_parts : Option Fields → List Part
json_parts none = []
json_parts (some f) = json_part (redact f) ∷ []

abbrev pub status_of : Bool → Status
status_of true = failure
status_of false = success

module _ {W : Type 0} where
  -- The effect of an answer on the pending draft and the cards.
  unfoldable pub note_draft : Option PendingConfirmation → Option Fields → Locals W → Locals W
  note_draft none structured l = l
  note_draft (some p) structured l = record l {
    held = drafted p;
    card = redact_structured structured;
  }

  unfoldable pub note_confirm : String → Option Fields → Locals W → Locals W
  note_confirm name none l = l
  note_confirm name (some f) l =
      if str_eq name "confirm_reorder"
      then record l { order_result = some f; confirmed = true; held = held_after f l.held }
      else l

  -- One tool call of the brain, and the block that answers it.
  unfoldable pub send : Host W → (id name : String) → Fields → Fields → Locals W → Locals W × Block
  unfolding with_profile note_draft note_confirm draft_in
  send h id name args raw l =
      let full = with_profile h name args in
      let (w, answer) = h.call_tool name full l.world in
      let l' = record l {
        world = w;
        sent = l.sent ++ record { name = name; args = full; answer = answer } ∷ [];
        traces =
            l.traces
            ++ record {
              name = name;
              args = shown_args name raw;
              is_error = answer.is_error;
              spoken = answer.spoken;
              structured = redact_structured answer.structured;
              blocked_by_host = none;
            }
              ∷ [];
      } in
      (
        note_confirm name answer.structured
            (note_draft (draft_in name answer.structured) answer.structured l'),
        tool_result id (status_of answer.is_error)
            (spoken_part answer.spoken ∷ json_parts answer.structured),
      )

  unfoldable pub refuse : (id name : String) → Fields → String → Locals W → Locals W × Block
  refuse id name args why l = (
    record l {
      traces =
          l.traces
          ++ record {
            name = name;
            args = insert "confirmation_token" held_by_host args;
            is_error = true;
            spoken = why;
            structured = none;
            blocked_by_host = some why;
          }
            ∷ [];
    },
    tool_result id failure (spoken_part why ∷ []),
  )

  unfoldable pub handle_use :
      Host W
      → Option PendingConfirmation
      → (id name : String) → Fields
      → Locals W
      → Locals W × Block
  unfolding send refuse verdict_of
  handle_use h start id name args l = elim (verdict_of h.affirmed l.confirmed start name args) [
    | blocked why ↦ refuse id name args why l
    | passes full ↦ send h id name full args l
  ]

  -- The tool calls of one answer, in order.
  unfoldable pub handle_uses :
      Host W → Option PendingConfirmation → List Block → Locals W → Locals W × List Block
  unfolding handle_use
  handle_uses h start [] l = (l, [])
  handle_uses h start (tool_use id name args ∷ bs) l =
      let (l', b) = handle_use h start id name args l in
      let (l'', rest) = handle_uses h start bs l' in (l'', b ∷ rest)
  handle_uses h start (_ ∷ bs) l = handle_uses h start bs l

pub answered-injective : (bs cs : List Block) (s t : Bool) → answered bs s ≡ answered cs t → bs ≡ cs
answered-injective bs cs s t e = ground (arith, e)
