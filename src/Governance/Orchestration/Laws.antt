-- ===== src/Governance/Orchestration/Laws.antt =====
-- What a governance action has done when it returns.
use agent_forum.Prelude.{
  ℕ, String, ◌&&◌, ◌≡◌, Bool, true, false, none, [], ◌∷◌, ◌++◌, ◌≤◌, arith, or_else, Bool-cases,
  inl, inr,
}
use agent_forum.Js.{text_given}
use agent_forum.Http.{ok, Result-cases}
use agent_forum.Store.{
  Prisma, Tx, Db, Env, AuditEvent, no_index, return, ◌>>=◌, ◌>>◌, tx_retry_limit,
}
use agent_forum.Store.Transaction.Laws.{>>=-ok, seen, IsAtomic, with_transaction_retry-IsAtomic}
use agent_forum.Audit.{AuditInput, audit_row, append_audit_event}
use agent_forum.Notifications.Facts.Exact.{HasNotified, notify_thread_participants-HasNotified}
use agent_forum.Governance.Orchestration.{
  ActionSpec, fan_out, send_notices, governance_tx, apply_governance_action,
}

-- The event has been added, its id generated with it.
abbrev pub HasRecorded : AuditInput → String → Db → Db → Type 0
HasRecorded input event_id db db' =
    db' ≡ record db { audit_events = db.audit_events ++ audit_row input event_id ∷ [] }

-- The notices are those of the fan-out where they are asked for; else nothing is written.
abbrev pub HasSentIf : Bool → ActionSpec → String → Db → Db → Type 0
HasSentIf true spec event_id db db' =
    HasNotified
      (fan_out spec.audit (or_else spec.audit.thread_id "") (or_else spec.notify_reason "")
        event_id)
      db db'
HasSentIf false spec event_id db db' = db' ≡ db

-- The notices of an action go out if it names a thread and a reason.
abbrev pub HasSent : ActionSpec → String → Db → Db → Type 0
HasSent spec = HasSentIf (text_given spec.audit.thread_id && text_given spec.notify_reason) spec

-- One attempt that has returned: the event, then the mutation, then the notices.
pub record HasGoverned {A : Type 0} (spec : ActionSpec) (mutate : String → Tx A) (a : A)
    (event_id : String) (db db' : Db) : Type 0 where
  pub recorded : Db
  pub mutated : Db
  pub event : HasRecorded spec.audit event_id db recorded
  pub mutation : mutate event_id recorded ≡ ok (a, mutated)
  pub notices : HasSent spec event_id mutated db'

module _ (prisma : Prisma) where
  pub append_audit_event-ok :
      (input : AuditInput) (event : AuditEvent) (db db' : Db)
      → append_audit_event prisma input db ≡ ok (event, db')
      → HasRecorded input event.event_id db db'
  unfolding append_audit_event audit_row
  append_audit_event-ok input event db db' h =
      elim (Result-cases (prisma.create no_index (audit_row input) db.audit_events)) [
        | inr (e, failed) ↦ cc (rw (failed, append_audit_event) at h)
        | inl ((new, events), done) ↦
            let (row, added, _) =
              prisma.create_ok no_index (audit_row input) db.audit_events new events done in
            let stored : db' ≡ record db { audit_events = events } = ground (arith, done) in
            let same : event ≡ new = ground (arith, done) in
            let key : event.event_id ≡ prisma.new_id db.audit_events = rw (same, row) in
            rw (stored, added, row, key)
      ]

  send_notices-HasSent :
      (now : ℕ) (spec : ActionSpec) (event_id : String) (db db' : Db)
      → send_notices prisma now spec event_id db ≡ ok (tt, db')
      → HasSent spec event_id db db'
  unfolding send_notices
  send_notices-HasSent now spec event_id db db' h =
      elim (Bool-cases (text_given spec.audit.thread_id && text_given spec.notify_reason)) [
        | inl e ↦ rw e (notify_thread_participants-HasNotified prisma now _ db db' (rw e at h))
        | inr e ↦ rw e (ground (arith, e))
      ]

  -- The transaction of a governance action that returns has added the audit event, run the
  -- mutation with the event's id, and sent the notices.
  pub governance_tx-HasGoverned :
      {A : Type 0} (now : ℕ) (spec : ActionSpec) (mutate : String → Tx A) (a : A)
      (event_id : String) (db db' : Db)
      → governance_tx prisma now spec mutate db ≡ ok ((a, event_id), db')
      → HasGoverned spec mutate a event_id db db'
  unfolding governance_tx
  governance_tx-HasGoverned now spec mutate a event_id db db' h =
      let (event, db1, first, rest) =
        >>=-ok (append_audit_event prisma spec.audit)
          (λ event. mutate event.event_id >>= λ mutated.
            send_notices prisma now spec event.event_id >> return (mutated, event.event_id))
          h in
      let (mutated, db2, second, rest) =
        >>=-ok (mutate event.event_id)
          (λ mutated.
            send_notices prisma now spec event.event_id >> return (mutated, event.event_id))
          rest in
      let (_, db3, third, end) =
        >>=-ok (send_notices prisma now spec event.event_id) (λ _. return (mutated, event.event_id))
          rest in
      let result : mutated ≡ a = ground arith in
      let key : event.event_id ≡ event_id = ground arith in
      let left : db3 ≡ db' = ground arith in
      record {
        recorded = db1;
        mutated = db2;
        event = rw key at (append_audit_event-ok spec.audit event db db1 first);
        mutation = rw (key, result) at second;
        notices = rw (key, left) at (send_notices-HasSent now spec event.event_id db2 db3 third);
      }

-- An action that returns has done, in one attempt whose commit was accepted, what the transaction
-- does.
pub apply-HasGoverned :
    {A : Type 0} (prisma : Prisma) (env : Env) (spec : ActionSpec) (mutate : ℕ → String → Tx A)
    (a : A) (event_id : String) (db db' : Db)
    → apply_governance_action prisma env spec mutate db ≡ (ok (a, event_id), db')
    → (k : ℕ) × (1 ≤ k)
      × (k ≤ tx_retry_limit)
      × (env.refuses k ≡ none)
      × HasGoverned spec (mutate (env.now k)) a event_id (seen env k db) db'
unfolding apply_governance_action
apply-HasGoverned prisma env spec mutate a event_id db db' h =
    let fn : ℕ → Tx (_ × String) =
      λ attempt. governance_tx prisma (env.now attempt) spec (mutate (env.now attempt)) in
    let (k, low, high, accepted, ran) : IsAtomic env fn db (ok (a, event_id), db') =
      rw h at (with_transaction_retry-IsAtomic env fn db) in
    (
      k,
      low,
      high,
      accepted,
      governance_tx-HasGoverned prisma (env.now k) spec (mutate (env.now k)) a event_id
          (seen env k db) db' ran,
    )
