-- ===== src/Shop/Drafts.antt =====
-- apps/mcp-server/src/tools.ts, the tool `confirm_reorder`. The speech and the display currency are
-- left out; `hash` is the digest of the token that the caller sent.
use groceryclaw.Shop.{DraftStatus, DraftRow, confirm_drafts, find_drafts, is_draft, Draft}
use groceryclaw.Base.{ℕ, ◌+◌, String, List, [], ◌∷◌, map, if◌then◌else◌, ◌==◌, any, keep_if, length}

pub data ConfirmStatus : Type 0 where
  confirmed already_confirmed expired not_found : ConfirmStatus

-- What is said of a draft: its own status, or that of the call while it is still a draft.
pub data ShownStatus : Type 0 where
  own : DraftStatus → ShownStatus
  of_call : ConfirmStatus → ShownStatus

pub record ConfirmReply : Type 0 where
  pub status : ConfirmStatus
  pub confirmed_count : ℕ
  pub total_vnd : ℕ
  pub drafts : List (String × String × ShownStatus)

abbrev pub total_of : List DraftRow → ℕ
total_of [] = 0
total_of (r ∷ rs) = r.total_vnd + total_of rs

abbrev shown_as : ConfirmStatus → DraftRow → String × String × ShownStatus
shown_as s r = (r.id, r.supplier_code, if is_draft r.status then of_call s else own r.status)

abbrev pub pending_of : List DraftRow → List DraftRow
pending_of rows = keep_if (λ r. is_draft r.status) rows

abbrev reply : List DraftRow → ConfirmStatus → ℕ → ConfirmReply
reply rows s n = record {
  status = s;
  confirmed_count = n;
  total_vnd = total_of rows;
  drafts = map (shown_as s) rows;
}

-- The clock is read by `findDraftsByTokenHash` (`now`) and again by `confirmDrafts` (`later`).
unfoldable pub confirm_reorder :
    (tenant hash : String) (now later : ℕ) → List Draft → List Draft × ConfirmReply
unfolding confirm_drafts find_drafts
confirm_reorder tenant hash now later ds =
    let rows = find_drafts tenant now hash ds in
    let pending = pending_of rows in
    if length rows == 0
    then (ds, reply rows not_found 0)
    else if length pending == 0
    then (ds, reply rows already_confirmed 0)
    else if any DraftRow.expired pending
    then (ds, reply rows ConfirmStatus.expired 0)
    else (let (ds', n) = confirm_drafts tenant later (map DraftRow.id pending) ds in
        (ds', reply rows ConfirmStatus.confirmed n))
