-- ===== src/Gateway.antt =====
-- apps/gateway/src/server.ts: the updates of the Telegram bot, by webhook or by polling, become jobs of the
-- worker. An update is JSON text that packages/common/src/telegram-types.ts reads.
pub mod Update
pub mod Invite
pub mod Linked
pub mod Route
pub mod Handle
pub mod Server
pub mod Stored
pub mod Once
pub mod Served
pub mod Lost
pub mod Accepted
pub mod Queued
pub mod Polled
mod Examples
use groceryclaw.Jobs.{Number}
use groceryclaw.Base.{
  ℕ, zero, suc, ◌+◌, ◌-◌, ◌*◌, ◌/◌, ◌%◌, ◌≤◌, ◌<◌, ◌↔◌, ◌⊎◌, String, Bool, true, false, not, ◌&&◌,
  ◌||◌, List, [], ◌∷◌, ◌++◌, map, Option, none, some, ◌≡◌, refl, ◌≢◌, inl, inr, if◌then◌else◌,
  Option-cases, Bool-cases, arith, leb, ltb, ◌==◌, sym, ◌∙◌, ap, subst, str_eq, str_eq_iff,
  str_eq_refl, is_some, any, find, keep_if, length, length-append, guard, ◌>>=◌, ◌>>◌, includes,
  get_or_else, All, max, min, drop,
}

-- A value of `JSON.parse`. The keys of an object differ.
mutual
  pub data Json : Type 0 where
    null_json : Json
    boolean_json : Bool → Json
    number_json : Number → Json
    text_json : String → Json
    array_json : Items → Json
    object_json : Fields → Json

  pub data Items : Type 0 where
    no_items : Items
    array_item : Json → Items → Items

  pub data Fields : Type 0 where
    no_fields : Fields
    field : String → Json → Fields → Fields

pub data MessageType : Type 0 where
  text_message document_message photo_message unknown_message : MessageType

pub record TelegramDocument : Type 0 where
  pub file_id : String
  pub file_unique_id : String
  pub file_name : Option String
  pub mime_type : Option String
  pub file_size : Option Number

-- `photo` is the array as it was sent: its entries are not checked.
pub record TelegramBotEvent : Type 0 where
  pub update_id : ℕ
  pub message_id : ℕ
  pub chat_id : Number
  pub user_id : ℕ
  pub user_display_name : String
  pub message_type : MessageType
  pub message_text : Option String
  pub document : Option TelegramDocument
  pub photo : Option Items
  pub caption : Option String
  pub timestamp : Number
  pub reply_to_message_id : Option ℕ

pub data Validated : Type 0 where
  valid : TelegramBotEvent → Validated
  invalid : (reason : String) → Validated

-- The text functions of the platform; `utf16_length` and `utf8_length` are `s.length` and
-- `Buffer.from(s, 'utf8').length`, `invite_prefixed` and `invite_bare` what the two patterns of
-- `detectInviteIntent` capture.
pub record Platform : Type 0 where
  pub trim : String → String
  pub lower : String → String
  pub upper : String → String
  pub one_space : String → String
  pub ends_with : String → String → Bool
  pub decimal : ℕ → String
  pub utf16_length : String → ℕ
  pub utf8_length : String → ℕ
  pub invite_prefixed : String → Option String
  pub invite_bare : String → Option String
  pub parse_json : String → Option Json
