-- ===== src/Governance/Orchestration/Threads.antt =====
-- A governance action whose mutation is the update of one thread's row.
use agent_forum.Prelude.{
  String, Bool, true, false, ◌≡◌, sym, ap, ◌∙◌, ◌&&◌, ◌||◌, some, [], ◌∷◌, ◌++◌, ◌==◌, arith, find,
  map_where, or_else,
}
use agent_forum.Js.{text_given}
use agent_forum.Store.{Prisma, Db, Thread}
use agent_forum.Audit.{audit_row}
use agent_forum.Messages.{update_thread_row}
use agent_forum.Messages.Rows.{update_thread_row-ok}
use agent_forum.Notifications.Facts.{FanOut}
use agent_forum.Notifications.Facts.Exact.{has_fact, is_recipient}
use agent_forum.Governance.Orchestration.{ActionSpec, fan_out, audit_key}
use agent_forum.Governance.Orchestration.Laws.{HasGoverned, HasSentIf}

abbrev pub sends : ActionSpec → Bool
sends spec = text_given spec.audit.thread_id && text_given spec.notify_reason

abbrev pub fan_out_of : ActionSpec → String → FanOut
fan_out_of spec event_id =
    fan_out spec.audit (or_else spec.audit.thread_id "") (or_else spec.notify_reason "") event_id

-- What the action has done to the database: the row, the event and the notices, nothing else.
pub record HasUpdatedThread (spec : ActionSpec) (thread_id : String) (change : Thread → Thread)
    (t : Thread) (event_id : String) (db db' : Db) : Type 0 where
  pub old : Thread
  pub found : find (λ t. t.id == thread_id) db.threads ≡ some old
  pub result : t ≡ change old
  pub threads : db'.threads ≡ map_where (λ t. t.id == thread_id) change db.threads
  pub audited : db'.audit_events ≡ db.audit_events ++ audit_row spec.audit event_id ∷ []
  pub notified :
      (r k : String)
      → has_fact r k db'.notification_facts ≡ (
          has_fact r k db.notification_facts
          || (sends spec
              && is_recipient (fan_out_of spec event_id) db.participants r
              && audit_key event_id == k))
  pub frame : db' ≡ record db {
    threads = db'.threads;
    audit_events = db'.audit_events;
    notification_facts = db'.notification_facts;
  }

pub sent_exact :
    (b : Bool) (spec : ActionSpec) (event_id : String) (db db' : Db)
    → HasSentIf b spec event_id db db'
    → ((r k : String)
        → has_fact r k db'.notification_facts ≡ (
            has_fact r k db.notification_facts
            || (b
                && is_recipient (fan_out_of spec event_id) db.participants r
                && audit_key event_id == k)))
      × (db' ≡ record db { notification_facts = db'.notification_facts })
sent_exact true spec event_id db db' h = (h.exact, h.frame)
sent_exact false spec event_id db db' h = (λ r k. ground (arith, h), rw h)

-- The pieces of an attempt, put together.
pub update_governed :
    (prisma : Prisma) (spec : ActionSpec) (thread_id : String) (change : Thread → Thread)
    (t : Thread) (event_id : String) (db db' : Db)
    → HasGoverned spec
        (λ _. update_thread_row prisma (λ t. t.id == thread_id) change)
        t
        event_id
        db
        db'
    → HasUpdatedThread spec thread_id change t event_id db db'
update_governed prisma spec thread_id change t event_id db db' h =
    let (old, found, result, stored) =
      update_thread_row-ok prisma h.recorded h.mutated (λ t. t.id == thread_id) change t
        h.mutation in
    let (exact, frame) = sent_exact (sends spec) spec event_id h.mutated db' h.notices in
    let before = h.event in
    record {
      old = old;
      found = ap (λ (d : Db). find (λ t. t.id == thread_id) d.threads) (sym before) ∙ found;
      result = result;
      threads = ground (arith, frame, stored, before);
      audited = ground (arith, frame, stored, before);
      notified = λ r k. ground (arith, exact r k, stored, before);
      frame = ground (arith, frame, stored, before);
    }
