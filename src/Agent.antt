-- ===== src/Agent.antt =====
-- apps/alexa-sim/src/agent.ts: one voice turn, its messages and what the host keeps. The block types
-- are those of apps/alexa-sim/src/brain.ts.
pub mod Turn
pub mod Rounds
pub mod Safety
pub mod Outcome
pub mod Turns
pub mod Examples
use groceryclaw.Base.Assoc.{Assoc, lookup, insert}
use groceryclaw.Base.{
  ℕ, zero, suc, ◌+◌, ◌-◌, ◌*◌, ◌/◌, ◌%◌, ◌≤◌, ◌<◌, ◌↔◌, ◌⊎◌, String, Bool, true, false, not, ◌&&◌,
  ◌||◌, List, [], ◌∷◌, ◌++◌, map, Option, none, some, ◌≡◌, refl, ◌≢◌, inl, inr, if◌then◌else◌,
  Option-cases, Bool-cases, arith, leb, ltb, ◌==◌, sym, ◌∙◌, ap, subst, str_eq, str_eq_iff,
  str_eq_refl, is_some, any, find, keep_if, length, length-append, guard, ◌>>=◌, ◌>>◌, includes,
  get_or_else, All, max, min, drop,
}

-- A JSON value, as far as the host looks into it: an object or an array is its text.
pub data Json : Type 0 where
  null : Json
  bool : Bool → Json
  zero_number : Json
  number : String → Json
  text : String → Json
  compound : String → Json

abbrev pub Fields : Type 0
Fields = Assoc Json

-- JavaScript truth of a value.
abbrev pub truthy : Json → Bool
truthy null = false
truthy (bool b) = b
truthy zero_number = false
truthy (number n) = true
truthy (text t) = not (str_eq t "")
truthy (compound t) = true

pub data Part : Type 0 where
  spoken_part : String → Part
  json_part : Fields → Part

pub data Status : Type 0 where
  success failure : Status

pub data Block : Type 0 where
  text_block : String → Block
  tool_use : (id name : String) → Fields → Block
  tool_result : (id : String) → Status → List Part → Block
  thinking redacted_thinking : Block

pub data Role : Type 0 where
  user assistant : Role

pub record ChatMessage : Type 0 where
  pub role : Role
  pub content : List Block

pub record PendingConfirmation : Type 0 where
  pub token : String
  pub expires_at : String
  pub summary : Fields

pub record Conversation : Type 0 where
  pub messages : List ChatMessage
  pub pending : Option PendingConfirmation
  pub last_seen_ms : ℕ

pub record ToolResult : Type 0 where
  pub spoken : String
  pub structured : Option Fields
  pub is_error : Bool

pub record ToolTrace : Type 0 where
  pub name : String
  pub args : Fields
  pub is_error : Bool
  pub spoken : String
  pub structured : Option Fields
  pub blocked_by_host : Option String

abbrev pub held_by_host : Json
held_by_host = text "[held by host]"

-- `redactStructured` of an object.
unfoldable pub redact : Fields → Fields
redact f = elim (lookup "confirmation_token" f) [
  | none ↦ f
  | some v ↦ insert "confirmation_token" (if truthy v then held_by_host else null) f
]

abbrev pub redact_structured : Option Fields → Option Fields
redact_structured none = none
redact_structured (some f) = some (redact f)

abbrev pub is_text : Block → Bool
is_text (text_block t) = true
is_text _ = false

abbrev pub is_tool_use : Block → Bool
is_tool_use (tool_use id name args) = true
is_tool_use _ = false

abbrev pub is_thinking : Block → Bool
is_thinking thinking = true
is_thinking redacted_thinking = true
is_thinking _ = false
