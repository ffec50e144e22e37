-- ===== src/Notify/Deferred.antt =====
-- The notifications that wait for a user (apps/worker/src/notifier.ts, `deferNotification`).
use groceryclaw.Notify.{
  keep_newest, count_rows, NotifierSettings, PendingRow, Notification, row_expired, waits_for,
  expire_row, expire_rows, defer_rows, deferred_row, coalesce,
}
use groceryclaw.Base.{
  ℕ, ◌+◌, ◌*◌, ◌≤◌, ◌<◌, String, Bool, true, ◌&&◌, List, [], ◌∷◌, ◌++◌, ◌≡◌, arith, ltb, str_eq,
  str_eq_refl, any, max,
}

keep_newest-fewer :
    (user : String) (n : ℕ) (rs : List PendingRow)
    → count_rows (waits_for user) (keep_newest user n rs) ≤ count_rows (waits_for user) rs
unfolding keep_newest count_rows
keep_newest-fewer user n [] = omega arith
keep_newest-fewer user n (r ∷ rs) = ground (arith, keep_newest-fewer user n rs)

keep_newest-le :
    (user : String) (n : ℕ) (rs : List PendingRow)
    → count_rows (waits_for user) (keep_newest user n rs) ≤ n
unfolding keep_newest count_rows
keep_newest-le user n [] = omega arith
keep_newest-le user n (r ∷ rs) =
    ground (arith, keep_newest-le user n rs, keep_newest-fewer user n rs)

-- Rows that run out wait no more, and no other row starts to wait.
expire_rows-fewer :
    (p : PendingRow → Bool) (user : String) (now : ℕ) (rs : List PendingRow)
    → ((r : PendingRow) → p (record r { row_status = row_expired }) ≡ true → p r ≡ true)
    → count_rows p (expire_rows user now rs) ≤ count_rows p rs
unfolding count_rows
expire_rows-fewer p user now [] k = omega arith
expire_rows-fewer p user now (r ∷ rs) k = ground (arith, k r, expire_rows-fewer p user now rs k)

keep_newest-last :
    (p : PendingRow → Bool) (user : String) (n : ℕ) (rs : List PendingRow) (r : PendingRow)
    → 1 ≤ n
    → p r ≡ true
    → any p (keep_newest user n (rs ++ r ∷ [])) ≡ true
unfolding keep_newest count_rows
keep_newest-last p user n [] r le e = ground (arith, le, e)
keep_newest-last p user n (x ∷ rs) r le e = ground (arith, keep_newest-last p user n rs r le e)

any-expire_rows :
    (p : PendingRow → Bool) (user : String) (now : ℕ) (rs : List PendingRow)
    → ((r : PendingRow) → p r ≡ true → p (expire_row user now r) ≡ true)
    → any p rs ≡ true
    → any p (expire_rows user now rs) ≡ true
any-expire_rows p user now [] k e = e
any-expire_rows p user now (r ∷ rs) k e = ground (arith, k r, e, any-expire_rows p user now rs k)

-- The row that was put off waits for the user until a time to come.
abbrev pub is_kept : (now : ℕ) (id user : String) → PendingRow → Bool
is_kept now id user r = str_eq r.id id && (waits_for user r && ltb now r.expires_at)

module _ (cfg : NotifierSettings) (now : ℕ) (id user : String) (p : Notification) where
  is_kept-expire :
      (r : PendingRow)
      → is_kept now id user r ≡ true
      → is_kept now id user (expire_row user now r) ≡ true
  is_kept-expire r e = ground (arith, e)

  -- A notification that is put off waits for its user afterwards, and no more rows wait for that user than
  -- the settings allow (at least one).
  pub defer_rows_lem :
      (rows : List PendingRow)
      → (any (is_kept now id user) (defer_rows cfg now id user p rows) ≡ true)
        × (count_rows (waits_for user) (defer_rows cfg now id user p rows)
            ≤ max 1 cfg.max_pending_per_user)
  unfolding defer_rows
  defer_rows_lem rows =
      let row = deferred_row cfg now id user p in
      let n = max 1 cfg.max_pending_per_user in
      let before = coalesce user p.notification_type rows in
      let all = keep_newest user n (before ++ row ∷ []) in
      let later : now < now + max 60 cfg.pending_ttl_seconds * 1000 = omega arith in
      let kept : is_kept now id user row ≡ true =
        ground (arith, str_eq_refl id, str_eq_refl user, later) in
      (
        any-expire_rows (is_kept now id user) user now all is_kept-expire
            (keep_newest-last (is_kept now id user) user n before row (omega arith) kept),
        omega (
          arith,
          expire_rows-fewer (waits_for user) user now all (λ r e. absurd (ground (arith, e))),
          keep_newest-le user n (before ++ row ∷ []),
        ),
      )
