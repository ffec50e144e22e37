-- ===== src/Shop/Once.antt =====
-- A confirmation changes only the drafts of its token, and only once (apps/mcp-server/src/tools.ts,
-- `confirm_reorder`).
use groceryclaw.Shop.Confirm.{
  open_ids, is_open, IdsAreUnique, Each2, confirmed_lem, includes-open_ids, IsConfirmedFrom,
  length-pending, confirm_drafts-Each2, not_confirmed_lem, open-includes, Each2-refl, none_expired,
}
use groceryclaw.Shop.{Draft, confirm_drafts, find_drafts, is_confirmable}
use groceryclaw.Shop.Drafts.{confirm_reorder, ConfirmStatus, already_confirmed, pending_of}
use groceryclaw.Base.{
  ℕ, ◌<◌, ◌⊎◌, String, true, List, [], ◌∷◌, ◌≡◌, refl, ◌≢◌, inl, inr, Bool-cases, arith, sym, ◌∙◌,
  ap, subst, str_eq_iff, length, includes, All, All-map, All-zip,
}

unique-includes :
    (tenant hash : String) (all ds : List Draft)
    → All (λ d. All (λ e. d.id ≡ e.id → d.token_hash ≡ e.token_hash) all) ds
    → All (λ d. includes (open_ids tenant hash all) d.id ≡ true → d.token_hash ≡ hash) ds
unique-includes tenant hash all ds u =
    All-map
      (λ d us h. includes-open_ids tenant hash d.id all h (d.token_hash ≡ hash) (
        All-map
          (λ e u' same o. u' (sym same) ∙ (str_eq_iff e.token_hash hash).0 (ground (arith, o))) all
          us))
      ds u

module _ (tenant hash : String) (now later : ℕ) (ds : List Draft) where
  -- Where drafts with one identifier have one token, a call of `confirm_reorder` leaves every draft as
  -- it is, except that drafts of the caller's tenant, created with the token, still in draft and not
  -- expired, become confirmed. A call that does not answer that it confirmed leaves all of them, and
  -- reports 0 confirmed drafts.
  pub confirm_reorder-IsConfirmedFrom :
      IdsAreUnique ds
      → Each2 (IsConfirmedFrom tenant hash later) ds (confirm_reorder tenant hash now later ds).0
        × (((confirm_reorder tenant hash now later ds).1.status ≡ ConfirmStatus.confirmed)
            ⊎ (((confirm_reorder tenant hash now later ds).0 ≡ ds)
                × ((confirm_reorder tenant hash now later ds).1.confirmed_count ≡ 0)))
  confirm_reorder-IsConfirmedFrom unique =
      (elim (confirm_reorder tenant hash now later ds).1.status
          as (λ s.
            (confirm_reorder tenant hash now later ds).1.status ≡ s
            → Each2 (IsConfirmedFrom tenant hash later) ds
                (confirm_reorder tenant hash now later ds).0
              × (((confirm_reorder tenant hash now later ds).1.status ≡ ConfirmStatus.confirmed)
                  ⊎ (((confirm_reorder tenant hash now later ds).0 ≡ ds)
                      × ((confirm_reorder tenant hash now later ds).1.confirmed_count ≡ 0)))) [
                        | ConfirmStatus.confirmed ↦ λ e. (
                          rw (confirmed_lem tenant hash now later ds e).1.0 (
                              confirm_drafts-Each2 tenant hash later (open_ids tenant hash ds) ds
                                (unique-includes tenant hash ds ds unique)),
                          inl e,
                        )
                        | _ ↦ λ e.
                            let same =
                              not_confirmed_lem tenant hash now later ds (ground (arith, e)) in
                            (
                              subst (Each2 (IsConfirmedFrom tenant hash later) ds) (sym same.0)
                                  (Each2-refl tenant hash later ds),
                              inr same,
                            )
                      ])
        refl

module _ (tenant hash : String) (later : ℕ) (ids : List String) where
  -- After the repository call no draft is open any more, and it finds as many drafts as before.
  confirm-none_open :
      (ds : List Draft)
      → All
          (λ d.
            is_open tenant hash d ≡ true → (includes ids d.id ≡ true) × (later < d.expires_at_ms))
          ds
      → (open_ids tenant hash (confirm_drafts tenant later ids ds).0 ≡ [])
  unfolding confirm_drafts
  confirm-none_open [] h = refl
  confirm-none_open (d ∷ ds) h = elim (Bool-cases (is_confirmable tenant later ids d)) [
    | inl yes' ↦ rw (yes', confirm_drafts) (ground (arith, confirm-none_open ds h.1))
    | inr no' ↦ rw (no', confirm_drafts) (ground (arith, no', h.0, confirm-none_open ds h.1))
  ]

  confirm-finds :
      (now now' : ℕ) (ds : List Draft)
      → length (find_drafts tenant now' hash (confirm_drafts tenant later ids ds).0)
        ≡ length (find_drafts tenant now hash ds)
  unfolding confirm_drafts find_drafts
  confirm-finds now now' [] = refl
  confirm-finds now now' (d ∷ ds) = ground (arith, confirm-finds now now' ds)

found_lem :
    (tenant hash : String) (now later : ℕ) (ds : List Draft)
    → (confirm_reorder tenant hash now later ds).1.status ≡ ConfirmStatus.confirmed
    → length (find_drafts tenant now hash ds) ≢ 0
unfolding confirm_reorder
found_lem tenant hash now later ds e none' = ground (arith, e, none')

already_lem :
    (tenant hash : String) (now later : ℕ) (ds : List Draft)
    → length (find_drafts tenant now hash ds) ≢ 0
    → open_ids tenant hash ds ≡ []
    → ((confirm_reorder tenant hash now later ds).0 ≡ ds)
      × (((confirm_reorder tenant hash now later ds).1.status ≡ already_confirmed)
          × ((confirm_reorder tenant hash now later ds).1.confirmed_count ≡ 0))
unfolding confirm_reorder
already_lem tenant hash now later ds found none' =
    let e : length (pending_of (find_drafts tenant now hash ds)) ≡ 0 =
      length-pending tenant hash now ds ∙ ap length none' in
    ground (arith, e, found)

-- Confirming is idempotent: after a call that answers that it confirmed, where no draft of the store, of
-- whatever tenant and token, expired between its two reads of the clock, the same call at any later time
-- changes nothing, reports 0 confirmed drafts and answers that they were confirmed already.
pub confirm_once :
    (tenant hash : String) (now later now' later' : ℕ) (ds : List Draft)
    → All (λ d. now < d.expires_at_ms → later < d.expires_at_ms) ds
    → (confirm_reorder tenant hash now later ds).1.status ≡ ConfirmStatus.confirmed
    → let after = (confirm_reorder tenant hash now later ds).0 in
      ((confirm_reorder tenant hash now' later' after).0 ≡ after)
      × (((confirm_reorder tenant hash now' later' after).1.status ≡ already_confirmed)
          × ((confirm_reorder tenant hash now' later' after).1.confirmed_count ≡ 0))
confirm_once tenant hash now later now' later' ds alive e =
    let (fresh, (same, _)) = confirmed_lem tenant hash now later ds e in
    let ids = open_ids tenant hash ds in
    let ready : All
        (λ d. is_open tenant hash d ≡ true → (includes ids d.id ≡ true) × (later < d.expires_at_ms))
        ds =
      All-zip {P = λ d. is_open tenant hash d ≡ true → includes ids d.id ≡ true} ds
        (open-includes tenant hash ds)
        (All-zip {P = λ d. is_open tenant hash d ≡ true → now < d.expires_at_ms}
          {R = λ d. is_open tenant hash d ≡ true → later < d.expires_at_ms} ds
          (none_expired tenant hash now ds fresh) alive (λ d n a o. a (n o)))
        (λ d i a o. (i o, a o)) in
    rw same (
      already_lem tenant hash now' later' (confirm_drafts tenant later ids ds).0
        (λ z.
          found_lem tenant hash now later ds e
            (sym (confirm-finds tenant hash later ids now now' ds) ∙ z))
        (confirm-none_open tenant hash later ids ds ready))
