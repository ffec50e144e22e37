-- ===== src/Gateway/Stored.antt =====
-- Lemmas on the single steps of apps/gateway/src/server.ts: a row is inserted or not, a call is answered.
use groceryclaw.Gateway.Linked.{insert_inbound_event, State, Call, Db, is_event, new_row}
use groceryclaw.Gateway.{Platform, TelegramBotEvent}
use groceryclaw.Gateway.Handle.{respond_accepted, Stage}
use groceryclaw.Inbound.{returned, threw, Outcome}
use groceryclaw.Base.{String, true, false, [], ◌∷◌, ◌++◌, none, some, ◌≡◌, refl, any}

pub accepted-queue :
    (stage : Stage) (r : State × Outcome) → (respond_accepted stage r).0.queue ≡ r.0.queue
unfolding respond_accepted
accepted-queue stage (st, returned) = refl
accepted-queue stage (st, threw why) = refl

module _ (pf : Platform) where
  pub insert-old :
      (c : Call) (e : TelegramBotEvent) (tenant : String) (db : Db)
      → any (is_event tenant (pf.decimal e.message_id)) db.events ≡ true
      → insert_inbound_event pf c e tenant db ≡ (db, none)
  unfolding insert_inbound_event
  insert-old c e tenant db h = rw h refl

  pub insert-new :
      (c : Call) (e : TelegramBotEvent) (tenant : String) (db : Db)
      → any (is_event tenant (pf.decimal e.message_id)) db.events ≡ false
      → insert_inbound_event pf c e tenant db
        ≡ (record db { events = db.events ++ new_row pf c e tenant db ∷ [] }, some c.new_id)
  unfolding insert_inbound_event
  insert-new c e tenant db h = rw h refl
