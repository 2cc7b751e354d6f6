-- ===== src/Routes/Threads/Written.antt =====
-- What a resolution writes: the outcome, the row and the event.
use agent_forum.Prelude.{
  ℕ, String, Bool, List, not, ◌&&◌, ◌||◌, any, is_none, ◌≡◌, [], ◌∷◌, ◌++◌, ◌==◌, arith, map_where,
  inl, inr,
}
use agent_forum.Js.{template}
use agent_forum.Http.{ok, Result-cases}
use agent_forum.Store.{Prisma, Db, Thread, Participant, Outcome, no_index}
use agent_forum.Store.Transaction.Laws.{>>=-ok}
use agent_forum.Audit.{audit_row}
use agent_forum.Middleware.{User}
use agent_forum.Messages.{update_thread_row}
use agent_forum.Messages.Rows.{update_thread_row-ok}
use agent_forum.Notifications.Facts.Exact.{has_fact}
use agent_forum.Governance.Orchestration.Laws.{HasGoverned}
use agent_forum.Governance.Orchestration.Threads.{sent_exact, sends}
use agent_forum.Routes.Threads.{
  ResolveBody, resolve_spec, resolve_outcome, set_resolved, create_outcome_row, resolve_tx,
}

-- A participant of the thread who has not left, and who is not the caller.
abbrev pub is_noticed : User → String → List Participant → String → Bool
is_noticed caller thread_id participants r =
    not (thread_id == "")
    && any (λ p. (p.thread_id == thread_id && is_none p.left_at) && p.agent_id == r) participants
    && not (r == "")
    && not (caller.id == r)

module _ (prisma : Prisma) (thread_id : String) (body : ResolveBody) where
  -- What a resolution has written: the outcome, the row and the event.
  pub record HasWrittenOutcome (caller : User) (thread : Thread) (summary : String) (now : ℕ)
      (before after : Db) : Type 0 where
    pub outcome_id : String
    pub event_id : String
    pub outcomes :
        after.outcomes
        ≡ before.outcomes ++ resolve_outcome caller thread.id summary body outcome_id ∷ []
    pub threads :
        after.threads ≡ map_where (λ t. t.id == thread.id) (set_resolved caller now) before.threads
    pub audited :
        after.audit_events
        ≡ before.audit_events
          ++ audit_row (resolve_spec caller thread thread_id).audit event_id ∷ []
    -- Each participant who has not left, but the caller, has a notice of the event.
    pub notified :
        (r k : String)
        → has_fact r k after.notification_facts ≡ (
            has_fact r k before.notification_facts
            || (is_noticed caller thread_id before.participants r
                && template ("audit:" ∷ event_id ∷ []) == k))
    pub frame : after ≡ record before {
      outcomes = after.outcomes;
      threads = after.threads;
      audit_events = after.audit_events;
      notification_facts = after.notification_facts;
    }

  create_outcome_row-ok :
      (row : String → Outcome) (o : Outcome) (db db' : Db)
      → create_outcome_row prisma row db ≡ ok (o, db')
      → (id : String) × (db' ≡ record db { outcomes = db.outcomes ++ row id ∷ [] })
  unfolding create_outcome_row
  create_outcome_row-ok row o db db' h =
      elim (Result-cases (prisma.create no_index row db.outcomes)) [
        | inl ((new, os), e) ↦
            let law = prisma.create_ok no_index row db.outcomes new os e in
            (prisma.new_id db.outcomes, ground (arith, law.0, law.1, e))
        | inr (x, e) ↦ cc (rw (e, create_outcome_row) at h)
      ]

  pub written :
      (caller : User) (thread t : Thread) (summary event_id : String) (now : ℕ) (before after : Db)
      → HasGoverned
          (resolve_spec caller thread thread_id)
          (λ _. resolve_tx prisma caller thread summary body now)
          t
          event_id
          before
          after
      → HasWrittenOutcome caller thread summary now before after
  unfolding resolve_tx
  written caller thread t summary event_id now before after h =
      let row = resolve_outcome caller thread.id summary body in
      let (o, mid, first, second) =
        >>=-ok (create_outcome_row prisma row)
          (λ _. update_thread_row prisma (λ t. t.id == thread.id) (set_resolved caller now))
          h.mutation in
      let (id, created) = create_outcome_row-ok row o h.recorded mid first in
      let (old, found, result, stored) =
        update_thread_row-ok prisma mid h.mutated (λ t. t.id == thread.id) (set_resolved caller now)
          t second in
      let spec = resolve_spec caller thread thread_id in
      let (exact, frame) = sent_exact (sends spec) spec event_id h.mutated after h.notices in
      let recorded = h.event in
      record {
        outcome_id = id;
        event_id = event_id;
        outcomes = ground (arith, frame, stored, created, recorded);
        threads = ground (arith, frame, stored, created, recorded);
        notified = λ r k. ground (arith, exact r k, stored, created, recorded);
        audited = ground (arith, frame, stored, created, recorded);
        frame = ground (arith, frame, stored, created, recorded);
      }
