-- ===== src/Gateway/Linked.antt =====
-- apps/gateway/src/server.ts: the tables and the queue that the gateway writes, and the message of a user who
-- belongs to a shop. A database and a queue are configured. The identifiers that the database makes are UUIDs,
-- which the code's pattern for them accepts.
use mathlib.Core.Option
use groceryclaw.Gateway.{null_json, document_message}
use groceryclaw.Gateway.Update.{get}
use groceryclaw.Inbound.{Outcome, threw, returned}
use groceryclaw.Limits.Bucket.{Buckets}
use groceryclaw.Jobs.{
  Payload, Value, Scalar, missing, scalar, null_value, num, str, whole, boolean, nested, object,
}
use groceryclaw.Base.Assoc.{Assoc}
use groceryclaw.Gateway.{
  no_fields, no_items, array_item, field, Json, Fields, TelegramDocument, TelegramBotEvent,
  Platform, MessageType, Items, photo_message, number_json, object_json, text_json, boolean_json,
  array_json,
}
use groceryclaw.Mapping.{Question}
use groceryclaw.Base.{
  ℕ, String, Bool, ◌&&◌, ◌||◌, List, [], ◌∷◌, ◌++◌, map, Option, none, some, if◌then◌else◌, str_eq,
  any, find, ◌>>=◌, includes, get_or_else,
}

-- `tenants` are those that the user is a member of: a statement that runs for a tenant sees no other user.
pub record PlatformUser : Type 0 where
  pub id : String
  pub platform_user_id : String
  pub tenants : List String
  pub last_interaction_at : ℕ

pub record InboundEventRow : Type 0 where
  pub id : String
  pub tenant_id : String
  pub user_id : String
  pub message_id : String
  pub event : TelegramBotEvent

-- `questions` are the rows of pending_confirmations, each with its tenant.
pub record Db : Type 0 where
  pub users : List PlatformUser
  pub events : List InboundEventRow
  pub questions : Assoc Question

pub record State : Type 0 where
  pub db : Db
  pub replay_cache : Assoc ℕ
  pub invite_by_user : Buckets
  pub invite_by_ip : Buckets
  pub queue : List Payload
  pub accepted : ℕ

-- What one call finds: the clock, the request's identifier, the identifier of a row that is inserted, and
-- what the queue says if it does not take a job.
pub record Call : Type 0 where
  pub now : ℕ
  pub request_id : String
  pub new_id : String
  pub queue_error : Option String

abbrev nil_uuid : String
nil_uuid = "00000000-0000-0000-0000-000000000000"

abbrev pub is_seen : (tenant user : String) → PlatformUser → Bool
is_seen tenant user u = str_eq u.platform_user_id user && includes u.tenants tenant

unfoldable pub find_user : (tenant user : String) → Db → Option String
find_user tenant user db = Option.map (λ u. u.id) (find (is_seen tenant user) db.users)

abbrev pub is_event : (tenant message : String) → InboundEventRow → Bool
is_event tenant message r = str_eq r.tenant_id tenant && str_eq r.message_id message

unfoldable pub new_row :
    Platform → Call → TelegramBotEvent → (tenant : String) → Db → InboundEventRow
new_row pf c e tenant db = record {
  id = c.new_id;
  tenant_id = tenant;
  user_id = get_or_else (find_user tenant (pf.decimal e.user_id) db) nil_uuid;
  message_id = pf.decimal e.message_id;
  event = e;
}

-- `INSERT ... ON CONFLICT (tenant_id, message_id) DO NOTHING RETURNING id`
unfoldable pub insert_inbound_event :
    Platform → Call → TelegramBotEvent → (tenant : String) → Db → Db × Option String
insert_inbound_event pf c e tenant db =
    if any (is_event tenant (pf.decimal e.message_id)) db.events
    then (db, none)
    else (record db { events = db.events ++ new_row pf c e tenant db ∷ [] }, some c.new_id)

abbrev touch_user : (now : ℕ) (tenant user : String) → PlatformUser → PlatformUser
touch_user now tenant user u =
    if is_seen tenant user u then record u { last_interaction_at = now } else u

unfoldable pub record_inbound_interaction : Call → (tenant user : String) → Db → Db × Option String
record_inbound_interaction c tenant user db =
    (record db { users = map (touch_user c.now tenant user) db.users }, find_user tenant user db)

unfoldable pub enqueue : Call → Payload → State → State × Outcome
enqueue c p st = elim c.queue_error [
  | some why ↦ (st, threw why)
  | none ↦ (
    record st { queue = st.queue ++ record p { enqueued_at_ms = scalar (num (whole c.now)) } ∷ [] },
    returned,
  )
]

pub data MessageClass : Type 0 where
  excel_invoice image_invoice text_chat : MessageClass

abbrev pub is_spreadsheet : Platform → TelegramDocument → Bool
is_spreadsheet pf d =
    let name = pf.lower (get_or_else d.file_name "") in
    pf.ends_with name ".xlsx" || pf.ends_with name ".xls"

abbrev pub by_type : MessageType → MessageClass
by_type photo_message = image_invoice
by_type _ = text_chat

abbrev pub class_for : Platform → MessageType → Option TelegramDocument → MessageClass
class_for pf document_message (some d) = if is_spreadsheet pf d then excel_invoice else text_chat
class_for pf t _ = by_type t

unfoldable pub classify_telegram_message : Platform → TelegramBotEvent → MessageClass
classify_telegram_message pf e = class_for pf e.message_type e.document

abbrev pub class_job : MessageClass → String
class_job excel_invoice = "PROCESS_EXCEL_INVOICE"
class_job image_invoice = "PROCESS_IMAGE_INVOICE"
class_job text_chat = "CHATBOT_REPLY"

-- A JSON value as a field of a payload.
abbrev scalar_of : Json → Option Scalar
scalar_of (number_json n) = some (num n)
scalar_of (text_json s) = some (str s)
scalar_of (boolean_json b) = some (boolean b)
scalar_of _ = none

unfoldable pub scalars_of : Fields → Option (Assoc Scalar)
scalars_of no_fields = some []
scalars_of (field k v r) = scalar_of v >>= λ s. scalars_of r >>= λ rest. some ((k, s) ∷ rest)

unfoldable pub value_of : Option Json → Value
value_of none = missing
value_of (some null_json) = null_value
value_of (some (number_json n)) = scalar (num n)
value_of (some (text_json s)) = scalar (str s)
value_of (some (boolean_json b)) = scalar (boolean b)
value_of (some (array_json xs)) = nested
value_of (some (object_json f)) = elim (scalars_of f) [ none ↦ nested | some fs ↦ object fs ]

abbrev pub last_item : Json → Items → Json
last_item j no_items = j
last_item j (array_item k r) = last_item k r

-- `photo[photo.length - 1]!.file_id`, which throws at null.
abbrev pub file_id_of : Json → Option Value
file_id_of null_json = none
file_id_of (object_json f) = some (value_of (get "file_id" f))
file_id_of _ = some missing

abbrev pub document_file : Option TelegramDocument → Value
document_file none = missing
document_file (some d) = if str_eq d.file_id "" then missing else scalar (str d.file_id)

abbrev pub file_of : Option TelegramDocument → Option Items → Option Value
file_of d (some (array_item j r)) = file_id_of (last_item j r)
file_of d (some no_items) = some (document_file d)
file_of d none = some (document_file d)
