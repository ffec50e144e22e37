-- ===== src/Shop/Created.antt =====
-- A new draft is found and confirmed by its token (apps/mcp-server/src/memory-store.ts, `createDrafts`).
use groceryclaw.Shop.Confirm.{open_ids}
use groceryclaw.Shop.Drafts.{confirm_reorder, pending_of, ConfirmStatus}
use groceryclaw.Shop.{
  confirm_drafts, Draft, make_drafts, find_drafts, create_drafts, DraftStatus, NewDraft, is_tokens,
  DraftRow, row_of,
}
use groceryclaw.Base.{
  ℕ, suc, ◌+◌, ◌*◌, ◌<◌, String, true, false, List, [], ◌∷◌, ◌++◌, map, ◌≡◌, refl, ◌≢◌, arith, ◌∙◌,
  str_eq_refl, any, length, includes, All, All-map,
}

-- The drafts as they are once confirmed.
abbrev pub confirm_all : List Draft → List Draft
confirm_all [] = []
confirm_all (d ∷ ds) = record d { status = DraftStatus.confirmed } ∷ confirm_all ds

module _ (tenant hash : String) where
  -- The identifiers of new drafts are all open, whatever stands before them.
  open-made :
      (new_id : ℕ → String) (n expires : ℕ) (news : List NewDraft)
      → open_ids tenant hash (make_drafts tenant new_id n hash expires news)
        ≡ map Draft.id (make_drafts tenant new_id n hash expires news)
  unfolding make_drafts
  open-made new_id n expires [] = refl
  open-made new_id n expires (d ∷ ds) =
      ground (arith, str_eq_refl tenant, str_eq_refl hash, open-made new_id (suc n) expires ds)

  find-made :
      (now : ℕ) (new_id : ℕ → String) (n expires : ℕ) (news : List NewDraft)
      → find_drafts tenant now hash (make_drafts tenant new_id n hash expires news)
        ≡ map (row_of tenant now) (make_drafts tenant new_id n hash expires news)
  unfolding make_drafts find_drafts
  find-made now new_id n expires [] = refl
  find-made now new_id n expires (d ∷ ds) =
      ground (arith, str_eq_refl tenant, str_eq_refl hash, find-made now new_id (suc n) expires ds)

  find-append_fresh :
      (now : ℕ) (ds es : List Draft)
      → All (λ d. is_tokens tenant hash d ≡ false) ds
      → find_drafts tenant now hash (ds ++ es) ≡ find_drafts tenant now hash es
  unfolding find_drafts
  find-append_fresh now [] es h = refl
  find-append_fresh now (d ∷ ds) es h = ground (arith, h.0, find-append_fresh now ds es h.1)

  none_expired_made :
      (now : ℕ) (new_id : ℕ → String) (n expires : ℕ) (news : List NewDraft)
      → now < expires
      → any DraftRow.expired
          (pending_of (map (row_of tenant now) (make_drafts tenant new_id n hash expires news)))
        ≡ false
  unfolding make_drafts
  none_expired_made now new_id n expires [] h = refl
  none_expired_made now new_id n expires (d ∷ ds) h =
      ground (arith, h, none_expired_made now new_id (suc n) expires ds h)

  ids-made :
      (now : ℕ) (new_id : ℕ → String) (n expires : ℕ) (news : List NewDraft)
      → map DraftRow.id
          (pending_of (map (row_of tenant now) (make_drafts tenant new_id n hash expires news)))
        ≡ map Draft.id (make_drafts tenant new_id n hash expires news)
  unfolding make_drafts
  ids-made now new_id n expires [] = refl
  ids-made now new_id n expires (d ∷ ds) = ground (arith, ids-made now new_id (suc n) expires ds)

  pending-made :
      (now : ℕ) (new_id : ℕ → String) (n expires : ℕ) (news : List NewDraft)
      → length
          (pending_of (map (row_of tenant now) (make_drafts tenant new_id n hash expires news)))
        ≡ length news
  unfolding make_drafts
  pending-made now new_id n expires [] = refl
  pending-made now new_id n expires (d ∷ ds) =
      ground (arith, pending-made now new_id (suc n) expires ds)

  rows-made :
      (now : ℕ) (new_id : ℕ → String) (n expires : ℕ) (news : List NewDraft)
      → length (map (row_of tenant now) (make_drafts tenant new_id n hash expires news))
        ≡ length news
  unfolding make_drafts
  rows-made now new_id n expires [] = refl
  rows-made now new_id n expires (d ∷ ds) = ground (arith, rows-made now new_id (suc n) expires ds)

  confirm-skip :
      (later : ℕ) (ids : List String) (ds es : List Draft)
      → All (λ d. includes ids d.id ≡ false) ds
      → confirm_drafts tenant later ids (ds ++ es)
        ≡ (ds ++ (confirm_drafts tenant later ids es).0, (confirm_drafts tenant later ids es).1)
  unfolding confirm_drafts
  confirm-skip later ids [] es h = refl
  confirm-skip later ids (d ∷ ds) es h = ground (arith, h.0, confirm-skip later ids ds es h.1)

  -- The drafts made from the n-th identifier on are confirmed by a call that names all of theirs.
  confirm-made :
      (later : ℕ) (new_id : ℕ → String) (n expires : ℕ) (ids : List String) (news : List NewDraft)
      → later < expires
      → All (λ d. includes ids d.id ≡ true) (make_drafts tenant new_id n hash expires news)
      → confirm_drafts tenant later ids (make_drafts tenant new_id n hash expires news)
        ≡ (confirm_all (make_drafts tenant new_id n hash expires news), length news)
  unfolding confirm_drafts make_drafts
  confirm-made later new_id n expires ids [] h k = refl
  confirm-made later new_id n expires ids (d ∷ ds) h k =
      ground
        (arith, h, k.0, str_eq_refl tenant, confirm-made later new_id (suc n) expires ids ds h k.1)

includes-own : (ds : List Draft) → All (λ d. includes (map Draft.id ds) d.id ≡ true) ds
includes-own [] = tt
includes-own (d ∷ ds) =
    (ground (arith, str_eq_refl d.id), All-map (λ e h. ground (arith, h)) ds (includes-own ds))

confirm_found :
    (tenant hash : String) (now later : ℕ) (ids : List String) (ds : List Draft)
    → length (find_drafts tenant now hash ds) ≢ 0
    → length (pending_of (find_drafts tenant now hash ds)) ≢ 0
    → any DraftRow.expired (pending_of (find_drafts tenant now hash ds)) ≡ false
    → map DraftRow.id (pending_of (find_drafts tenant now hash ds)) ≡ ids
    → ((confirm_reorder tenant hash now later ds).0 ≡ (confirm_drafts tenant later ids ds).0)
      × (((confirm_reorder tenant hash now later ds).1.status ≡ ConfirmStatus.confirmed)
          × ((confirm_reorder tenant hash now later ds).1.confirmed_count
              ≡ (confirm_drafts tenant later ids ds).1))
unfolding confirm_reorder
confirm_found tenant hash now later ids ds a b c e = ground (arith, a, b, c, e)

-- Where the token and the identifiers are new to the shop's drafts, the drafts that `createDrafts`
-- stores are confirmed by the token before they expire: the call answers so and counts all of them, they
-- are all confirmed, and the older drafts stay as they were.
pub confirm-create :
    (tenant hash : String) (at now later ttl : ℕ) (new_id : ℕ → String) (news : List NewDraft)
    (ds : List Draft)
    → length news ≢ 0
    → now < at + ttl * 1000
    → later < at + ttl * 1000
    → All (λ d. is_tokens tenant hash d ≡ false) ds
    → All (λ d. includes (create_drafts tenant at new_id news hash ttl ds).1.0 d.id ≡ false) ds
    → let stored = (create_drafts tenant at new_id news hash ttl ds).0 in
      ((confirm_reorder tenant hash now later stored).0
        ≡ ds ++ confirm_all (make_drafts tenant new_id 0 hash (at + ttl * 1000) news))
      × (((confirm_reorder tenant hash now later stored).1.status ≡ ConfirmStatus.confirmed)
          × ((confirm_reorder tenant hash now later stored).1.confirmed_count ≡ length news))
unfolding create_drafts
confirm-create tenant hash at now later ttl new_id news ds some' now' later' fresh other =
    let made = make_drafts tenant new_id 0 hash (at + ttl * 1000) news in
    let found =
      find-append_fresh tenant hash now ds made fresh
      ∙ find-made tenant hash now new_id 0 (at + ttl * 1000) news in
    let (same, (status', count')) =
      confirm_found tenant hash now later (map Draft.id made) (ds ++ made)
        (rw (found, rows-made tenant hash now new_id 0 (at + ttl * 1000) news) some')
        (rw (found, pending-made tenant hash now new_id 0 (at + ttl * 1000) news) some')
        (rw found (none_expired_made tenant hash now new_id 0 (at + ttl * 1000) news now'))
        (rw found (ids-made tenant hash now new_id 0 (at + ttl * 1000) news)) in
    let effect = confirm-skip tenant hash later (map Draft.id made) ds made other in
    let made' =
      confirm-made tenant hash later new_id 0 (at + ttl * 1000) (map Draft.id made) news later'
        (includes-own made) in
    (same ∙ ground (arith, effect, made'), (status', count' ∙ ground (arith, effect, made')))
