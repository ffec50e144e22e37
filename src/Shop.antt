-- ===== src/Shop.antt =====
-- apps/mcp-server/src/memory-store.ts and the tool `confirm_reorder` of apps/mcp-server/src/tools.ts:
-- the purchase-order drafts of the shops. The record types are those of apps/mcp-server/src/store.ts.
pub mod Drafts
pub mod Confirm
pub mod Once
pub mod Created
pub mod Examples
use groceryclaw.Base.{
  ℕ, zero, suc, ◌+◌, ◌-◌, ◌*◌, ◌/◌, ◌%◌, ◌≤◌, ◌<◌, ◌↔◌, ◌⊎◌, String, Bool, true, false, not, ◌&&◌,
  ◌||◌, List, [], ◌∷◌, ◌++◌, map, Option, none, some, ◌≡◌, refl, ◌≢◌, inl, inr, if◌then◌else◌,
  Option-cases, Bool-cases, arith, leb, ltb, ◌==◌, sym, ◌∙◌, ap, subst, str_eq, str_eq_iff,
  str_eq_refl, is_some, any, find, keep_if, length, length-append, guard, ◌>>=◌, ◌>>◌, includes,
  get_or_else, All, max, min, drop,
}

pub data DraftStatus : Type 0 where
  draft confirmed sent cancelled : DraftStatus

pub record DraftLine : Type 0 where
  pub sku : String
  pub name : String
  pub unit_name : Option String
  pub qty : ℕ
  pub unit_cost_vnd : ℕ

pub record NewDraft : Type 0 where
  pub supplier_code : String
  pub lines : List DraftLine
  pub total_vnd : ℕ

pub record Draft : Type 0 where
  pub id : String
  pub tenant_id : String
  pub supplier_code : String
  pub lines : List DraftLine
  pub total_vnd : ℕ
  pub status : DraftStatus
  pub token_hash : String
  pub expires_at_ms : ℕ

pub record DraftRow : Type 0 where
  pub id : String
  pub supplier_code : String
  pub lines : List DraftLine
  pub total_vnd : ℕ
  pub status : DraftStatus
  pub expires_at_ms : ℕ
  pub expired : Bool

abbrev pub is_draft : DraftStatus → Bool
is_draft DraftStatus.draft = true
is_draft _ = false

-- The repository calls of one tenant, each with the clock it reads.
module _ (tenant : String) where
  abbrev pub is_tokens : (hash : String) → Draft → Bool
  is_tokens hash d = str_eq d.tenant_id tenant && str_eq d.token_hash hash

  -- `new_id n` is the n-th identifier that the platform makes.
  unfoldable pub make_drafts :
      (new_id : ℕ → String) → ℕ → (hash : String) (expires_at_ms : ℕ) → List NewDraft → List Draft
  make_drafts new_id n hash expires [] = []
  make_drafts new_id n hash expires (d ∷ ds) =
      record {
        id = new_id n;
        tenant_id = tenant;
        supplier_code = d.supplier_code;
        lines = d.lines;
        total_vnd = d.total_vnd;
        status = DraftStatus.draft;
        token_hash = hash;
        expires_at_ms = expires;
      }
      ∷ make_drafts new_id (suc n) hash expires ds

  unfoldable pub create_drafts :
      (now : ℕ) (new_id : ℕ → String)
      → List NewDraft
      → (hash : String) (ttl_seconds : ℕ) → List Draft
      → List Draft × (List String × ℕ)
  create_drafts now new_id news hash ttl ds =
      let made = make_drafts new_id 0 hash (now + ttl * 1000) news in
      (ds ++ made, (map Draft.id made, now + ttl * 1000))

  abbrev pub row_of : (now : ℕ) → Draft → DraftRow
  row_of now d = record {
    id = d.id;
    supplier_code = d.supplier_code;
    lines = d.lines;
    total_vnd = d.total_vnd;
    status = d.status;
    expires_at_ms = d.expires_at_ms;
    expired = leb d.expires_at_ms now;
  }

  unfoldable pub find_drafts : (now : ℕ) (hash : String) → List Draft → List DraftRow
  find_drafts now hash ds = map (row_of now) (keep_if (is_tokens hash) ds)

  abbrev pub is_confirmable : (now : ℕ) (ids : List String) → Draft → Bool
  is_confirmable now ids d =
      str_eq d.tenant_id tenant
      && (includes ids d.id && (is_draft d.status && ltb now d.expires_at_ms))

  -- The drafts after the call, and how many it confirmed.
  unfoldable pub confirm_drafts : (now : ℕ) (ids : List String) → List Draft → List Draft × ℕ
  confirm_drafts now ids [] = ([], 0)
  confirm_drafts now ids (d ∷ ds) =
      let (ds', n) = confirm_drafts now ids ds in
      if is_confirmable now ids d
      then (record d { status = DraftStatus.confirmed } ∷ ds', suc n)
      else (d ∷ ds', n)
