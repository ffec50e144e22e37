-- ===== src/Gateway/Handle.antt =====
-- apps/gateway/src/server.ts, `handleTelegramUpdate`. The two functions of the database that know memberships
-- and invitations (db/v2/migrations/012_v2_telegram_migration.sql) are an argument.
use groceryclaw.Jobs.Again.{of_nullable}
use groceryclaw.Gateway.Route.{enqueue_linked_flow}
use groceryclaw.Limits.Bucket.{consume}
use groceryclaw.Base.Assoc.{Assoc, lookup, insert}
use groceryclaw.Gateway.Invite.{detect_invite_intent}
use groceryclaw.Jobs.{Value, missing, Number, object, Payload, scalar, str, null_value, num}
use groceryclaw.Gateway.{Platform, TelegramBotEvent}
use Prim.Native.String
use groceryclaw.Inbound.{returned, threw, Outcome, truthy, Attempt, got, error_of}
use groceryclaw.Gateway.Linked.{enqueue, State, Db, Call}
use groceryclaw.Base.{
  ℕ, suc, ◌+◌, ◌*◌, String, Bool, true, false, not, ◌||◌, [], ◌∷◌, Option, none, some,
  if◌then◌else◌, ltb, str_eq, get_or_else,
}

-- A row of `consume_invite_code`.
pub record InviteRow : Type 0 where
  pub ok : Bool
  pub tenant_id : String

-- `consume_invite_code` gives none when the statement fails; the transaction is then rolled back.
pub record Accounts : Type 0 where
  pub resolve_membership_by_platform_user_id : (user : String) → Db → Option String
  pub consume_invite_code : (user code : String) (chat : Number) → Db → Option (Db × InviteRow)

pub record Config : Type 0 where
  pub onboarding_enabled : Bool
  pub invite_user_rate_per_minute : ℕ
  pub invite_ip_rate_per_minute : ℕ
  pub replay_cache_ttl_seconds : ℕ
  pub webhook_secret : String
  pub max_body_bytes : ℕ

pub data Stage : Type 0 where
  invite_rate_limited invite_processed onboarding_prompt replay_deduped linked_flow_enqueued : Stage

abbrev pub trimmed : Platform → Option String → Option String
trimmed pf none = none
trimmed pf (some s) = truthy (some (pf.trim s))

unfoldable pub resolve_membership : Platform → Accounts → (user : String) → Db → Option String
resolve_membership pf acc user db = trimmed pf (acc.resolve_membership_by_platform_user_id user db)

-- `consumeInviteCode`: the shop that the user now belongs to, if the code is good.
unfoldable pub consume_invite_code :
    Platform → Accounts → (user code : String) (chat : Number) → Db → Db × Option String
consume_invite_code pf acc user code chat db = elim (acc.consume_invite_code user code chat db) [
  | none ↦ (db, none)
  | some (db', row) ↦ (db', if row.ok then trimmed pf (some row.tenant_id) else none)
]

-- `tryReplayCache`: whether the message is new, and is remembered from now on.
unfoldable pub try_replay_cache :
    Platform
    → Config
    → Call
    → (tenant : Option String) (message : String) → Assoc ℕ
    → Assoc ℕ × Bool
try_replay_cache pf cfg c tenant message cache =
    let key = String.◌++◌ (String.◌++◌ (get_or_else tenant "unlinked") ":") message in
    if ltb c.now (get_or_else (lookup key cache) 0)
    then (cache, false)
    else (insert key (c.now + cfg.replay_cache_ttl_seconds * 1000) cache, true)

abbrev pub notice_vars : (message : String) → Value
notice_vars m = if str_eq m "" then missing else object (("message", str m) ∷ [])

unfoldable pub notice :
    Platform
    → Call
    → TelegramBotEvent
    → (name : String) (tenant : Option String) (message : String) → Payload
notice pf c e name tenant message = record {
  job_type = scalar (str "NOTIFY_USER");
  tenant_id = of_nullable tenant;
  inbound_event_id = null_value;
  platform_user_id = scalar (str (pf.decimal e.user_id));
  message_id = scalar (str (pf.decimal e.message_id));
  correlation_id = scalar (str c.request_id);
  user_id = missing;
  telegram_chat_id = scalar (num e.chat_id);
  file_id = missing;
  canonical_invoice_id = missing;
  notification_type = scalar (str name);
  template_vars = notice_vars message;
  enqueued_at_ms = missing;
  message_text = missing;
  reply_to_message_id = missing;
}

abbrev pub bad_code : String
bad_code = "Ma moi khong hop le hoac da het han. Vui long kiem tra lai."

abbrev pub prompt : String
prompt = "Chao ban! De su dung, vui long gui ma moi tu chu cua hang cua ban."

abbrev pub invite_notice : Platform → Call → TelegramBotEvent → Option String → Payload
invite_notice pf c e (some tenant) = notice pf c e "WELCOME_LINKED" (some tenant) ""
invite_notice pf c e none = notice pf c e "GENERIC_INFO" none bad_code

-- `respondAccepted`, unless the call before it threw.
unfoldable pub respond_accepted : Stage → State × Outcome → State × Attempt Stage
respond_accepted stage (st, returned) = (record st { accepted = suc st.accepted }, got stage)
respond_accepted stage (st, threw why) = (st, error_of why)

module _ (pf : Platform) (acc : Accounts) (cfg : Config) where
  unfoldable pub handle_invite :
      Call → TelegramBotEvent → (code : String) → State → State × Attempt Stage
  handle_invite c e code st =
      let user = pf.decimal e.user_id in
      let by_user =
        consume cfg.invite_user_rate_per_minute cfg.invite_user_rate_per_minute c.now
          (String.◌++◌ "invite:user:" user) 1 st.invite_by_user in
      let by_ip =
        consume cfg.invite_ip_rate_per_minute cfg.invite_ip_rate_per_minute c.now
          (String.◌++◌ "invite:ip:" user) 1 st.invite_by_ip in
      let st' = record st { invite_by_user = by_user.0; invite_by_ip = by_ip.0 } in
      if not by_user.1.allowed || not by_ip.1.allowed
      then respond_accepted invite_rate_limited
          (enqueue c (notice pf c e "RATE_LIMITED" none "") st')
      else let consumed = consume_invite_code pf acc user code e.chat_id st'.db in
        let st'' = record st' { db = consumed.0 } in
        respond_accepted invite_processed (enqueue c (invite_notice pf c e consumed.1) st'')

  abbrev pub invite_code_of : TelegramBotEvent → Option String
  invite_code_of e =
      if cfg.onboarding_enabled
      then detect_invite_intent pf (get_or_else e.message_text (get_or_else e.caption ""))
      else none

  unfoldable pub handle_stranger : Call → TelegramBotEvent → State → State × Attempt Stage
  handle_stranger c e st = elim (invite_code_of e) [
    | some code ↦ handle_invite c e code st
    | none ↦
        respond_accepted onboarding_prompt (enqueue c (notice pf c e "GENERIC_INFO" none prompt) st)
  ]

  unfoldable pub handle_linked :
      Call → TelegramBotEvent → (tenant : String) → State → State × Attempt Stage
  handle_linked c e tenant st =
      let tried =
        try_replay_cache pf cfg c (some tenant) (pf.decimal e.message_id) st.replay_cache in
      if tried.1
      then respond_accepted linked_flow_enqueued
          (enqueue_linked_flow pf c e tenant (record st { replay_cache = tried.0 }))
      else respond_accepted replay_deduped (record st { replay_cache = tried.0 }, returned)

  unfoldable pub handle_telegram_update : Call → TelegramBotEvent → State → State × Attempt Stage
  handle_telegram_update c e st = elim (resolve_membership pf acc (pf.decimal e.user_id) st.db) [
    | none ↦ handle_stranger c e st
    | some tenant ↦ handle_linked c e tenant st
  ]
