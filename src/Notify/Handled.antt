-- ===== src/Notify/Handled.antt =====
-- What can become of a notification of a user (apps/worker/src/notifier.ts).
use groceryclaw.Jobs.{WorkerJobEnvelope, Number}
use groceryclaw.Limits.Notifier.{consume_message, Scope}
use groceryclaw.Notify.Deferred.{is_kept, defer_rows_lem}
use groceryclaw.Mapping.{given}
use groceryclaw.Notify.Send.{
  World, SendResult, owner_of, defer_notification, send_rendered, persist_job_status, after_sending,
  refuse_message, Sending, terminal, retryable, broken, sent_ok, not_sent, process_notify_user_job,
  mark_terminal_failure, notify, send_notification, chat_for, set_row, is_closed, notification_of,
  notify_for, rendered_text, threw_retriable,
}
use groceryclaw.Notify.{
  NotifierSettings, Notification, NotifyDb, NotifyStatus, notify_completed, row_failed, NotifyRow,
  notify_dead_letter, notify_failed,
}
use groceryclaw.Base.{
  ◌≢◌, if◌then◌else◌, ℕ, suc, ◌⊎◌, String, true, List, [], ◌∷◌, ◌++◌, Option, none, some, ◌≡◌, refl,
  inl, inr, Bool-cases, arith, sym, ◌∙◌, ap, subst, any, length, length-append, bind-some, Bool,
  false,
}

length-add : {A : Type 0} → (xs : List A) (x : A) → length (xs ++ x ∷ []) ≡ suc (length xs)
length-add xs x = omega (arith, length-append xs (x ∷ []))

abbrev pub is_failure : NotifyStatus → Bool
is_failure notify_completed = false
is_failure _ = true

-- The failures on record.
unfoldable pub failures : List NotifyRow → ℕ
failures [] = 0
failures (x ∷ xs) = let rest = failures xs in if is_failure x.status then suc rest else rest

failures-add :
    (xs : List NotifyRow) (x : NotifyRow)
    → is_failure x.status ≡ true
    → failures (xs ++ x ∷ []) ≡ suc (failures xs)
unfolding failures
failures-add [] x e = ground (arith, e)
failures-add (y ∷ xs) x e = ground (arith, failures-add xs x e)

terminal_is_failure :
    (dlq : Bool) → is_failure (if dlq then notify_dead_letter else notify_failed) ≡ true
terminal_is_failure true = refl
terminal_is_failure false = refl

persist_sends :
    (p : Notification) (s : NotifyStatus) (code : String) (db : NotifyDb)
    → (persist_job_status p s code db).sends ≡ db.sends
unfolding persist_job_status
persist_sends p s code db = ground arith

-- The templates give a text, and what goes wrong in sending is an error of Telegram.
abbrev pub IsPlain : World → Type 0
IsPlain w =
    ((p : Notification) → (text : String) × (w.render p ≡ rendered_text text))
    × ((sent : ℕ) (chat : Number) (text why : String) → w.send_text sent chat text ≢ broken why)

module _ (cfg : NotifierSettings) (w : World) (plain : IsPlain w) (now : ℕ) (user : String) where
  -- What can become of a notification: Telegram took it; it waits for its user; its failure is on
  -- record; or the notifier's own error asks for another try.
  abbrev pub IsHandled : NotifyDb → NotifyDb × SendResult → Type 0
  IsHandled db r =
      (length r.0.sends ≡ suc (length db.sends))
      ⊎ ((any (is_kept now (w.row_id db.next_id) user) r.0.pending ≡ true)
          ⊎ ((failures r.0.jobs ≡ suc (failures db.jobs))
              ⊎ ((code : String) × (ms : ℕ) × (r.1 ≡ threw_retriable code ms))))

  deferred-IsHandled :
      (p : Notification) (db : NotifyDb) (r : SendResult)
      → owner_of p ≡ some user
      → any (is_kept now (w.row_id db.next_id) user) (defer_notification cfg w now p db).pending
        ≡ true
  unfolding defer_notification
  deferred-IsHandled p db r e =
      rw (e, defer_notification) (defer_rows_lem cfg now (w.row_id db.next_id) user p db.pending).0

  owned :
      (p : Notification)
      → owner_of p ≡ some user
      → (tenant : String) × (given p.tenant_id ≡ some tenant)
  owned p e = let (tenant, (found, _)) = bind-some (given p.tenant_id) _ user e in (tenant, found)

  -- A failure that is on record.
  recorded :
      (p : Notification) (s : NotifyStatus) (code : String) (db : NotifyDb)
      → is_failure s ≡ true
      → owner_of p ≡ some user
      → failures (persist_job_status p s code db).jobs ≡ suc (failures db.jobs)
  unfolding persist_job_status
  recorded p s code db fails e =
      let (tenant, found) = owned p e in
      rw (found, persist_job_status) (failures-add db.jobs _ fails)

  terminal_recorded :
      (p : Notification) (code : String) (row : Option String) (db : NotifyDb)
      → owner_of p ≡ some user
      → failures (mark_terminal_failure cfg p code row db).jobs ≡ suc (failures db.jobs)
  unfolding mark_terminal_failure
  terminal_recorded p code none db e =
      let (tenant, found) = owned p e in
      rw (found, mark_terminal_failure)
        (recorded p _ code db (terminal_is_failure cfg.dlq_enabled) e)
  terminal_recorded p code (some id) db e =
      let (tenant, found) = owned p e in
      rw (found, mark_terminal_failure)
        (recorded p _ code (record db { pending = set_row id row_failed db.pending })
          (terminal_is_failure cfg.dlq_enabled) e)

  after_sending-IsHandled :
      (p : Notification) (row : Option String) (text : String) (s : Sending) (db : NotifyDb)
      → ((why : String) → s ≢ broken why)
      → owner_of p ≡ some user
      → IsHandled db (after_sending cfg w now p row text s db)
  unfolding after_sending
  after_sending-IsHandled p row text sent_ok db own e = inl (
      ap length (
        persist_sends p notify_completed ""
          (record db { sends = db.sends ++ (chat_for w p, text) ∷ [] }))
      ∙ length-add db.sends _)
  after_sending-IsHandled p row text (terminal code) db own e =
      inr (inr (inl (terminal_recorded p code row db e)))
  after_sending-IsHandled p row text (retryable code after) db own e =
      inr (inr (inr (code, _, refl)))
  after_sending-IsHandled p row text (broken m) db own e = absurd (own m refl)

  refuse_message-IsHandled :
      (p : Notification) (scope : Scope) (db : NotifyDb)
      → owner_of p ≡ some user
      → IsHandled db (refuse_message cfg w now p scope db)
  unfolding refuse_message
  refuse_message-IsHandled p scope db e =
      rw (e, refuse_message) (inr (inl (deferred-IsHandled p db not_sent e)))

  send_rendered-IsHandled :
      (p : Notification) (row : Option String) (text : String) (db : NotifyDb)
      → owner_of p ≡ some user
      → IsHandled db (send_rendered cfg w now p row (rendered_text text) db)
  unfolding send_rendered refuse_message
  send_rendered-IsHandled p row text db e =
      let limit = consume_message cfg.limits now p.tenant_id p.platform_user_id db.limiters in
      let counted = record db { limiters = limit.0 } in
      elim (Bool-cases limit.1.passed) [
        | inl passed' ↦ rw passed' (
            after_sending-IsHandled p row text _ counted
              (plain.1 (length db.sends) (chat_for w p) text) e)
        | inr refused' ↦ rw refused' (refuse_message-IsHandled p limit.1.scope counted e)
      ]

  notify-IsHandled :
      (p : Notification) (db : NotifyDb)
      → owner_of p ≡ some user
      → IsHandled db (notify cfg w now p db)
  unfolding notify send_notification
  notify-IsHandled p db e =
      let (text, rendered) = plain.0 p in
      elim (Bool-cases (is_closed cfg w now p)) [
        | inl closed ↦ rw closed (inr (inl (deferred-IsHandled p db not_sent e)))
        | inr open' ↦ rw (open', rendered) (send_rendered-IsHandled p none text db e)
      ]

pub process_notify_user_job-IsHandled :
    (cfg : NotifierSettings) (w : World) (plain : IsPlain w) (now : ℕ) (job : WorkerJobEnvelope)
    (type user : String) (db : NotifyDb)
    → cfg.enabled ≡ true
    → job.notification_type ≡ some type
    → owner_of (notification_of cfg w now job type) ≡ some user
    → IsHandled cfg w plain now user db (process_notify_user_job cfg w now job db)
unfolding process_notify_user_job notify_for
process_notify_user_job-IsHandled cfg w plain now job type user db on typed owner =
    let same : process_notify_user_job cfg w now job db
        ≡ notify cfg w now (notification_of cfg w now job type) db =
      ap (λ o. notify_for cfg w now o cfg.enabled job db) typed
      ∙ ap (λ b. notify_for cfg w now (some type) b job db) on in
    subst (IsHandled cfg w plain now user db) (sym same)
      (notify-IsHandled cfg w plain now user (notification_of cfg w now job type) db owner)
