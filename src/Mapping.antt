-- ===== src/Mapping.antt =====
-- The lines of an invoice and the products of the shop: apps/worker/src/mapping-resolve.ts and
-- apps/worker/src/process-confirm-mapping.ts. The statements of a job run in a session of its tenant, which
-- sees only its own rows, so the tables here are those of one tenant.
pub mod Resolve
pub mod Answer
pub mod Asked
pub mod Reach
pub mod Decide
pub mod Learn
mod Examples
use groceryclaw.Jobs.{whole, negative, Number, WorkerJobEnvelope, whole}
use groceryclaw.Base.{
  ℕ, zero, suc, ◌+◌, ◌-◌, ◌*◌, ◌/◌, ◌%◌, ◌≤◌, ◌<◌, ◌↔◌, ◌⊎◌, String, Bool, true, false, not, ◌&&◌,
  ◌||◌, List, [], ◌∷◌, ◌++◌, map, Option, none, some, ◌≡◌, refl, ◌≢◌, inl, inr, if◌then◌else◌,
  Option-cases, Bool-cases, arith, leb, ltb, ◌==◌, sym, ◌∙◌, ap, subst, str_eq, str_eq_iff,
  str_eq_refl, is_some, any, find, keep_if, length, length-append, guard, ◌>>=◌, ◌>>◌, includes,
  get_or_else, All, max, min, drop,
}

pub data ItemStatus : Type 0 where
  item_resolved item_pending item_unresolved item_skipped : ItemStatus

-- A row of `resolved_invoice_items`; one for each line of an invoice.
pub record ResolvedItem : Type 0 where
  pub item_id : String
  pub invoice_id : String
  pub item_status : ItemStatus
  pub resolved_sku : Option String
  pub resolved_unit : Option String
  pub quantity : ℕ
  pub unresolved_reason : Option String

pub data QuestionStatus : Type 0 where
  q_pending q_confirmed q_rejected q_skipped q_expired : QuestionStatus

-- A row of `pending_confirmations`: a question that was sent to a user.
pub record Question : Type 0 where
  pub id : String
  pub invoice_id : String
  pub item_id : String
  pub platform_user_id : String
  pub chat_id : Number
  pub sent_message_id : String
  pub product_name : String
  pub suggested_sku : String
  pub suggested_name : String
  pub confidence : ℕ
  pub question_status : QuestionStatus
  pub expires_at : ℕ

-- A row of `mapping_dictionary`.
pub record Alias : Type 0 where
  pub alias_text : String
  pub target_sku : String
  pub confidence : ℕ

pub record Product : Type 0 where
  pub sku : String
  pub product_name : String
  pub active : Bool

pub record Line : Type 0 where
  pub id : String
  pub invoice_id : String
  pub sku : Option String
  pub product_name : String
  pub quantity : ℕ
  pub uom : Option String

-- What is queued: the synchronisation of an invoice, a notice to the user, or the chatbot's turn.
pub data Outgoing : Type 0 where
  kiotviet_sync_of : (invoice_id : String) → Outgoing
  notice chatbot_turn : Outgoing

pub record Tables : Type 0 where
  pub lines : List Line
  pub items : List ResolvedItem
  pub questions : List Question
  pub aliases : List Alias
  pub products : List Product
  pub queue : List Outgoing
  pub sent : ℕ

abbrev pub is_item_pending : ItemStatus → Bool
is_item_pending item_pending = true
is_item_pending _ = false

abbrev pub is_item_unresolved : ItemStatus → Bool
is_item_unresolved item_unresolved = true
is_item_unresolved _ = false

abbrev pub is_item_resolved : ItemStatus → Bool
is_item_resolved item_resolved = true
is_item_resolved _ = false

abbrev pub is_item_skipped : ItemStatus → Bool
is_item_skipped item_skipped = true
is_item_skipped _ = false

abbrev pub is_q_pending : QuestionStatus → Bool
is_q_pending q_pending = true
is_q_pending _ = false

-- `status = 'pending' AND expires_at > now()`
abbrev pub is_open : (now : ℕ) → Question → Bool
is_open now q = is_q_pending q.question_status && ltb now q.expires_at

abbrev pub number_eq : Number → Number → Bool
number_eq (whole m) (whole n) = m == n
number_eq (negative m) (negative n) = m == n
number_eq _ _ = false

-- `if (chatId)`
abbrev pub chat_of : WorkerJobEnvelope → Option Number
chat_of job = elim job.telegram_chat_id [
  | none ↦ none
  | some n ↦ if number_eq n (whole 0) then none else some n
]

-- A text that is there and not empty.
abbrev pub given : Option String → Option String
given none = none
given (some s) = if str_eq s "" then none else some s

-- `INSERT ... ON CONFLICT (canonical_item_id) DO UPDATE`
unfoldable pub upsert_item :
    ResolvedItem → (ResolvedItem → ResolvedItem) → List ResolvedItem → List ResolvedItem
upsert_item row change [] = row ∷ []
upsert_item row change (x ∷ xs) =
    if str_eq x.item_id row.item_id then change x ∷ xs else x ∷ upsert_item row change xs

-- `UPDATE ... WHERE canonical_item_id = ...`
unfoldable pub update_item :
    (item_id : String) → (ResolvedItem → ResolvedItem) → List ResolvedItem → List ResolvedItem
update_item id change [] = []
update_item id change (x ∷ xs) =
    (if str_eq x.item_id id then change x else x) ∷ update_item id change xs

-- `INSERT INTO mapping_dictionary ... ON CONFLICT (tenant_id, alias_text) DO UPDATE`
unfoldable pub learn : (alias sku : String) (confidence : ℕ) → List Alias → List Alias
learn alias sku c [] = record { alias_text = alias; target_sku = sku; confidence = c } ∷ []
learn alias sku c (a ∷ rest) =
    if str_eq a.alias_text alias
    then record { alias_text = a.alias_text; target_sku = sku; confidence = c } ∷ rest
    else a ∷ learn alias sku c rest

-- `UPDATE pending_confirmations SET status = ... WHERE id = ...`
unfoldable pub decide : (id : String) → QuestionStatus → List Question → List Question
decide id s [] = []
decide id s (q ∷ qs) =
    (if str_eq q.id id then record q { question_status = s } else q) ∷ decide id s qs

-- The platform, and the services that the jobs call.
pub record AiMatch : Type 0 where
  pub invoice_product : String
  pub matched_code : Option String
  pub matched_name : Option String
  pub confidence : ℕ

pub record Services : Type 0 where
  pub trim : String → String
  pub lower : String → String
  pub upper : String → String
  pub decimal : ℕ → String
  pub message_id : ℕ → String
  pub row_id : ℕ → String
  pub expires_at : ℕ
  pub mapping_enabled : Bool
  pub miniapp : Bool
  pub search_candidates : List Product → List Line → List (String × String)
  pub ai : Option (List String → List (String × String) → List AiMatch)
