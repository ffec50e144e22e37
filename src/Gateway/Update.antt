-- ===== src/Gateway/Update.antt =====
-- packages/common/src/telegram-types.ts, `validateTelegramUpdate`.
use Prim.Native.String
use groceryclaw.Gateway.{no_fields, array_item, field}
use groceryclaw.Jobs.Valid.{is_integer}
use groceryclaw.Jobs.{Number, whole}
use groceryclaw.Gateway.{
  Validated, MessageType, Fields, Platform, Json, object_json, text_json, invalid, document_message,
  number_json, field, Items, valid, TelegramDocument, photo_message, array_json, text_message,
  unknown_message,
}
use groceryclaw.Base.{
  ℕ, String, Option, none, some, if◌then◌else◌, ltb, str_eq, is_some, ◌>>=◌, get_or_else,
}

-- `o.key`, where an object may lack it.
unfoldable pub get : String → Fields → Option Json
get k no_fields = none
get k (field j v r) = if str_eq j k then some v else get k r

abbrev pub object_of : Option Json → Option Fields
object_of (some (object_json f)) = some f
object_of _ = none

abbrev pub positive_int_of : Option Json → Option ℕ
positive_int_of (some (number_json (whole n))) = if ltb 0 n then some n else none
positive_int_of _ = none

-- `typeof v === 'number' && Number.isInteger(v)`
abbrev pub integer_of : Option Json → Option Number
integer_of (some (number_json n)) = if is_integer n then some n else none
integer_of _ = none

abbrev pub number_of : Option Json → Option Number
number_of (some (number_json n)) = some n
number_of _ = none

abbrev pub text_of : Option Json → Option String
text_of (some (text_json s)) = some s
text_of _ = none

-- A non-empty array.
abbrev pub items_of : Option Json → Option Items
items_of (some (array_json (array_item j r))) = some (array_item j r)
items_of _ = none

abbrev pub need {ℓ} : {A : Type ℓ} → Option A → (reason : String) → (A → Validated) → Validated
need none reason k = invalid reason
need (some a) reason k = k a

unfoldable pub document_of : Fields → Option TelegramDocument
document_of d = text_of (get "file_id" d) >>= λ id. text_of (get "file_unique_id" d) >>= λ unique.
    some (record {
      file_id = id;
      file_unique_id = unique;
      file_name = text_of (get "file_name" d);
      mime_type = text_of (get "mime_type" d);
      file_size = number_of (get "file_size" d);
    })

-- `[firstName, lastName].filter(Boolean).join(' ') || 'user_' + userId`
unfoldable pub display_name : (first last user : String) → String
display_name first last user =
    if str_eq first ""
    then (if str_eq last "" then String.◌++◌ "user_" user else last)
    else (if str_eq last "" then first else String.◌++◌ (String.◌++◌ first " ") last)

pub record Content : Type 0 where
  pub message_type : MessageType
  pub document : Option TelegramDocument
  pub photo : Option Items

-- What the message carries: the first of a document, a photo and a text. `none` is a bad document.
unfoldable pub content_of : Fields → Option Content
content_of msg = elim (object_of (get "document" msg)) [
  | some d ↦ document_of d >>= λ doc.
      some (record { message_type = document_message; document = some doc; photo = none })
  | none ↦ elim (items_of (get "photo" msg)) [
    | some ps ↦ some (record { message_type = photo_message; document = none; photo = some ps })
    | none ↦ some (record {
      message_type = if is_some (text_of (get "text" msg)) then text_message else unknown_message;
      document = none;
      photo = none;
    })
  ]
]

unfoldable pub reply_of : Fields → Option ℕ
reply_of msg =
    object_of (get "reply_to_message" msg) >>= λ replied. positive_int_of (get "message_id" replied)

-- Of a message whose identifiers are fine, the sender, the date and the content.
unfoldable pub validate_content :
    Platform → (update_id message_id : ℕ) (chat_id : Number) → Fields → Validated
validate_content pf update_id message_id chat_id msg =
    need (object_of (get "from" msg)) "no_from" (λ sender.
      need (positive_int_of (get "id" sender)) "invalid_user_id" (λ user_id.
        need (number_of (get "date" msg)) "invalid_date" (λ date.
          need (content_of msg) "invalid_document" (λ content. valid (record {
            update_id = update_id;
            message_id = message_id;
            chat_id = chat_id;
            user_id = user_id;
            user_display_name =
                display_name (get_or_else (text_of (get "first_name" sender)) "")
                  (get_or_else (text_of (get "last_name" sender)) "") (pf.decimal user_id);
            message_type = content.message_type;
            message_text = text_of (get "text" msg);
            document = content.document;
            photo = content.photo;
            caption = text_of (get "caption" msg);
            timestamp = date;
            reply_to_message_id = reply_of msg;
          })))))

unfoldable pub validate_message : Platform → (update_id : ℕ) → Fields → Validated
validate_message pf update_id msg =
    need (positive_int_of (get "message_id" msg)) "invalid_message_id" (λ message_id.
      need (object_of (get "chat" msg)) "no_chat" (λ chat.
        need (integer_of (get "id" chat)) "invalid_chat_id"
          (λ chat_id. validate_content pf update_id message_id chat_id msg)))

unfoldable pub validate_telegram_update : Platform → Json → Validated
validate_telegram_update pf payload = need (object_of (some payload)) "not_object" (λ update.
    need (positive_int_of (get "update_id" update)) "invalid_update_id" (λ update_id.
      need (object_of (get "message" update)) "no_message"
        (λ msg. validate_message pf update_id msg)))
