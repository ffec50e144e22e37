-- ===== src/Shop/Confirm.antt =====
-- What a confirmation does to the drafts (apps/mcp-server/src/tools.ts, `confirm_reorder`).
-- A draft after a confirmation with the hash: itself, or confirmed, which happens only to a draft of the
-- tenant that was created with that token and had not expired.
use groceryclaw.Shop.Drafts.{pending_of, confirm_reorder, ConfirmStatus}
use groceryclaw.Shop.{
  find_drafts, DraftStatus, Draft, confirm_drafts, is_draft, DraftRow, is_tokens, is_confirmable,
}
use groceryclaw.Base.{
  ℕ, ◌<◌, ◌↔◌, ◌⊎◌, String, Bool, true, false, ◌&&◌, List, [], ◌∷◌, map, ◌≡◌, refl, ◌≢◌, inl, inr,
  if◌then◌else◌, Bool-cases, arith, str_eq, str_eq_iff, str_eq_refl, any, length, includes, All,
  All-map,
}

abbrev pub IsConfirmedFrom : (tenant hash : String) (later : ℕ) → Draft → Draft → Type 0
IsConfirmedFrom tenant hash later d e =
    (d ≡ e)
    ⊎ (((d.tenant_id ≡ tenant) × (d.token_hash ≡ hash))
        × ((d.status ≡ DraftStatus.draft)
            × ((later < d.expires_at_ms) × (e ≡ record d { status = DraftStatus.confirmed }))))

-- A statement of the drafts of two lists, place by place.
abbrev pub Each2 : (Draft → Draft → Type 0) → List Draft → List Draft → Type 0
Each2 R [] [] = Unit
Each2 R (d ∷ ds) (e ∷ es) = R d e × Each2 R ds es
Each2 R [] (e ∷ es) = ⊥
Each2 R (d ∷ ds) [] = ⊥

-- Drafts with one identifier have one tenant's token.
abbrev pub IdsAreUnique : List Draft → Type 0
IdsAreUnique ds = All (λ d. All (λ e. d.id ≡ e.id → d.token_hash ≡ e.token_hash) ds) ds

is_draft_iff : (s : DraftStatus) → (is_draft s ≡ true) ↔ (s ≡ DraftStatus.draft)
is_draft_iff DraftStatus.draft = ((λ _. refl), λ _. refl)
is_draft_iff DraftStatus.confirmed =
    ((λ e. absurd (ground (arith, e))), λ e. absurd (ground (arith, e)))
is_draft_iff DraftStatus.sent = ((λ e. absurd (ground (arith, e))), λ e. absurd (ground (arith, e)))
is_draft_iff DraftStatus.cancelled =
    ((λ e. absurd (ground (arith, e))), λ e. absurd (ground (arith, e)))

module _ (tenant hash : String) where
  -- The drafts that the token can still confirm, apart from their expiry.
  abbrev pub is_open : Draft → Bool
  is_open d = is_tokens tenant hash d && is_draft d.status

  abbrev pub open_ids : List Draft → List String
  open_ids [] = []
  open_ids (d ∷ ds) = if is_open d then d.id ∷ open_ids ds else open_ids ds

  pub pending-ids :
      (now : ℕ) (ds : List Draft)
      → map DraftRow.id (pending_of (find_drafts tenant now hash ds)) ≡ open_ids ds
  unfolding find_drafts
  pending-ids now [] = refl
  pending-ids now (d ∷ ds) = ground (arith, pending-ids now ds)

  pub length-pending :
      (now : ℕ) (ds : List Draft)
      → length (pending_of (find_drafts tenant now hash ds)) ≡ length (open_ids ds)
  unfolding find_drafts
  length-pending now [] = refl
  length-pending now (d ∷ ds) = ground (arith, length-pending now ds)

  -- An identifier among the open ones is that of an open draft.
  pub includes-open_ids :
      (k : String) (ds : List Draft)
      → includes (open_ids ds) k ≡ true
      → (Q : Type 0) → All (λ d. (d.id ≡ k → is_open d ≡ true → Q)) ds
      → Q
  includes-open_ids k [] e Q h = absurd (ground (arith, e))
  includes-open_ids k (d ∷ ds) e Q h = elim (Bool-cases (is_open d)) [
    | inr no' ↦ includes-open_ids k ds (ground (arith, e, no')) Q h.1
    | inl yes' ↦ elim (Bool-cases (str_eq d.id k)) [
      | inl same ↦ h.0 ((str_eq_iff d.id k).0 same) yes'
      | inr other ↦ includes-open_ids k ds (ground (arith, e, yes', other)) Q h.1
    ]
  ]

  pub open-includes :
      (ds : List Draft) → All (λ d. is_open d ≡ true → includes (open_ids ds) d.id ≡ true) ds
  open-includes [] = tt
  open-includes (d ∷ ds) = (
    (λ o. ground (arith, o, str_eq_refl d.id)),
    All-map (λ e h o. ground (arith, h o)) ds (open-includes ds),
  )

  pub none_expired :
      (now : ℕ) (ds : List Draft)
      → any DraftRow.expired (pending_of (find_drafts tenant now hash ds)) ≡ false
      → All (λ d. is_open d ≡ true → now < d.expires_at_ms) ds
  unfolding find_drafts
  none_expired now [] e = tt
  none_expired now (d ∷ ds) e =
      ((λ o. ground (arith, o, e)), none_expired now ds (ground (arith, e)))

  -- The place-by-place effect of the repository call on part of the drafts.
  pub confirm_drafts-Each2 :
      (later : ℕ) (ids : List String) (ds : List Draft)
      → All (λ d. includes ids d.id ≡ true → d.token_hash ≡ hash) ds
      → Each2 (IsConfirmedFrom tenant hash later) ds (confirm_drafts tenant later ids ds).0
  unfolding confirm_drafts
  confirm_drafts-Each2 later ids [] h = tt
  confirm_drafts-Each2 later ids (d ∷ ds) h =
      elim (Bool-cases (is_confirmable tenant later ids d)) [
        | inr no' ↦ rw (no', confirm_drafts) (inl refl, confirm_drafts-Each2 later ids ds h.1)
        | inl yes' ↦
            rw (yes', confirm_drafts)
              (
                inr (
                  (
                    (str_eq_iff d.tenant_id tenant).0 (ground (arith, yes')),
                    h.0 (ground (arith, yes')),
                  ),
                  ((is_draft_iff d.status).0 (ground (arith, yes')), (ground (arith, yes'), refl)),
                ),
                confirm_drafts-Each2 later ids ds h.1,
              )
      ]

  pub Each2-refl : (later : ℕ) (ds : List Draft) → Each2 (IsConfirmedFrom tenant hash later) ds ds
  Each2-refl later [] = tt
  Each2-refl later (d ∷ ds) = (inl refl, Each2-refl later ds)

module _ (tenant hash : String) (now later : ℕ) (ds : List Draft) where
  -- A call that does not answer that it confirmed.
  pub not_confirmed_lem :
      (confirm_reorder tenant hash now later ds).1.status ≢ ConfirmStatus.confirmed
      → ((confirm_reorder tenant hash now later ds).0 ≡ ds)
        × ((confirm_reorder tenant hash now later ds).1.confirmed_count ≡ 0)
  unfolding confirm_reorder
  not_confirmed_lem ne = ground arith

  pub confirmed_lem :
      (confirm_reorder tenant hash now later ds).1.status ≡ ConfirmStatus.confirmed
      → (any DraftRow.expired (pending_of (find_drafts tenant now hash ds)) ≡ false)
        × (((confirm_reorder tenant hash now later ds).0
              ≡ (confirm_drafts tenant later (open_ids tenant hash ds) ds).0)
            × ((confirm_reorder tenant hash now later ds).1.confirmed_count
                ≡ (confirm_drafts tenant later (open_ids tenant hash ds) ds).1))
  unfolding confirm_reorder
  confirmed_lem e = ground (arith, pending-ids tenant hash now ds)
