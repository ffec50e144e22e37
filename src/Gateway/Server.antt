-- ===== src/Gateway/Server.antt =====
-- apps/gateway/src/server.ts: the webhook and the polling loop; packages/common/src/telegram-webhook-auth.ts.
use groceryclaw.Gateway.Update.{validate_telegram_update, object_of, number_of, get}
use groceryclaw.Jobs.{Number, whole, negative, fraction}
use groceryclaw.Gateway.{Platform, Json, valid, invalid}
use groceryclaw.Gateway.Linked.{State, Call}
use groceryclaw.Inbound.{Attempt, got, error_of}
use groceryclaw.Gateway.Handle.{Stage, Accounts, Config, handle_telegram_update}
use groceryclaw.Base.{
  ℕ, zero, suc, ◌+◌, String, Bool, true, false, not, List, [], ◌∷◌, Option, none, some,
  if◌then◌else◌, ltb, ◌==◌, str_eq, ◌>>=◌,
}

-- The answers of `verifyTelegramWebhook`. `threw_range` is the exception of `timingSafeEqual` at buffers of
-- different lengths.
pub data WebhookAuth : Type 0 where
  authorized missing_secret_token invalid_secret_token threw_range : WebhookAuth

unfoldable pub verify_telegram_webhook : Platform → (expected received : String) → WebhookAuth
verify_telegram_webhook pf expected received =
    if str_eq expected ""
    then authorized
    else if str_eq received ""
    then missing_secret_token
    else if not (pf.utf16_length expected == pf.utf16_length received)
    then invalid_secret_token
    else if not (pf.utf8_length expected == pf.utf8_length received)
    then threw_range
    else if str_eq expected received
    then authorized
    else invalid_secret_token

pub record Server : Type 0 where
  pub state : State
  pub auth_failures : ℕ
  pub server_errors : ℕ

-- A request to POST /webhooks/telegram; `chunks` are the lengths of the parts that `body` comes in.
pub record Request : Type 0 where
  pub secret_token : String
  pub chunks : List ℕ
  pub body : String

-- `readBody`: whether the parts stay within the limit.
unfoldable pub fits_body : (max_bytes total : ℕ) → List ℕ → Bool
fits_body max_bytes total [] = true
fits_body max_bytes total (n ∷ ns) =
    if ltb max_bytes (total + n) then false else fits_body max_bytes (total + n) ns

unfoldable pub server_error : Server → Server × ℕ
server_error sv = (record sv { server_errors = suc sv.server_errors }, 500)

module _ (pf : Platform) (acc : Accounts) (cfg : Config) (includes_json : String → Bool) where
  abbrev pub answer : Server → State × Attempt Stage → Server × ℕ
  answer sv (st, got stage) = (record sv { state = st }, 200)
  answer sv (st, error_of why) =
      if includes_json why
      then (record sv { state = st }, 400)
      else server_error (record sv { state = st })

  unfoldable pub post_update : Call → (body : String) → Server → Server × ℕ
  post_update c body sv = elim (pf.parse_json body) [
    | none ↦ (sv, 400)
    | some payload ↦ elim (validate_telegram_update pf payload) [
      | invalid reason ↦ (sv, 200)
      | valid e ↦ answer sv (handle_telegram_update pf acc cfg c e sv.state)
    ]
  ]

  unfoldable pub webhook : Call → Request → Server → Server × ℕ
  webhook c r sv = elim (verify_telegram_webhook pf cfg.webhook_secret r.secret_token) [
    | missing_secret_token ↦ (record sv { auth_failures = suc sv.auth_failures }, 401)
    | invalid_secret_token ↦ (record sv { auth_failures = suc sv.auth_failures }, 403)
    | threw_range ↦ server_error sv
    | authorized ↦
        if fits_body cfg.max_body_bytes 0 r.chunks then post_update c r.body sv else (sv, 413)
  ]

-- The updates of one `getUpdates` call, each with the call that handles it. An exception of one of them is
-- logged, and the next one follows. The entries are objects whose identifiers are no fractions.
abbrev pub next_number : Number → Number
next_number (whole n) = whole (suc n)
next_number (negative zero) = whole 0
next_number (negative (suc n)) = negative n
next_number (fraction positive s) = fraction positive s

module _ (pf : Platform) (acc : Accounts) (cfg : Config) where
  abbrev pub next_offset : Json → Option Number → Option Number
  next_offset raw offset = elim (validate_telegram_update pf raw) [
    | valid e ↦ some (whole (suc e.update_id))
    | invalid reason ↦ elim (object_of (some raw) >>= λ f. number_of (get "update_id" f)) [
      | some n ↦ some (next_number n)
      | none ↦ offset
    ]
  ]

  unfoldable pub poll_update : Call → Json → State → State
  poll_update c raw st = elim (validate_telegram_update pf raw) [
    | invalid reason ↦ st
    | valid e ↦ (handle_telegram_update pf acc cfg c e st).0
  ]

  unfoldable pub poll : List (Call × Json) → Option Number × State → Option Number × State
  poll [] (offset, st) = (offset, st)
  poll ((c, raw) ∷ rest) (offset, st) = poll rest (next_offset raw offset, poll_update c raw st)
