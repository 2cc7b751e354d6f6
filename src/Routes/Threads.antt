-- ===== src/Routes/Threads.antt =====
-- svc-forum/src/routes/threads.ts: deleting and resolving a thread.
pub mod Delete
pub mod Written
pub mod Resolve
pub mod Patch
pub mod Open
use agent_forum.Prelude.{
  ℕ, String, Bool, true, false, not, ◌&&◌, ◌||◌, Option, none, some, List, [], ◌∷◌, ◌==◌, is_none,
  if◌then◌else◌,
}
use agent_forum.Js.{Value, null, template, trimmed_text}
use agent_forum.Http.{http_error, Result, ok, err, require, throw_if}
use agent_forum.Store.{Prisma, Db, Env, Thread, Outcome, Tx, no_index}
use agent_forum.Store.Io.{Io, check, check_db, ◌>>=◌, ◌>>◌}
use agent_forum.Store.{◌>>=◌ as tx_bind}
use agent_forum.Audit.{AuditInput}
use agent_forum.Middleware.{
  User, actor_of, require_governance_scopes, require_write_scope, require_forum_writer,
}
use agent_forum.Messages.{update_thread_row}
use agent_forum.Review.{Readiness, get_thread_review_readiness}
use agent_forum.Requests.{
  Response, reply, thread_body, pending_body, thread_or_404, required_text, value_or_null, found_or,
}
use agent_forum.Governance.Lifecycle.{Action, resolve, soft_delete, assert_lifecycle_transition}
use agent_forum.Governance.Visibility.{has_governance_authority, assert_ordinary_read_visibility}
use agent_forum.Governance.Orchestration.{ActionSpec, apply_governance_action}
use agent_forum.Routes.Moderation.{thread_event, set_status}

pub record ResolveBody : Type 0 where
  pub summary_md : Value
  pub decisions_json : Value
  pub action_items_json : Value
  pub rejected_options_json : Value
  pub open_questions_json : Value

abbrev pub delete_spec : User → Thread → String → String → ActionSpec
delete_spec user thread thread_id reason = record {
  audit = record (thread_event user thread thread_id "thread.soft_delete") {
    from_status = some thread.status;
    to_status = some "deleted";
    reason = some reason;
  };
  notify_reason = some "moderator_notice";
}

abbrev pub resolve_spec : User → Thread → String → ActionSpec
resolve_spec user thread thread_id = record {
  audit = record (thread_event user thread thread_id "thread.resolve") {
    from_status = some thread.status;
    to_status = some "resolved";
  };
  notify_reason = some "thread_notice";
}

abbrev pub resolve_outcome : User → String → String → ResolveBody → String → Outcome
resolve_outcome user thread_id summary body id = record {
  id = id;
  thread_id = thread_id;
  summary_md = summary;
  decisions_json = value_or_null body.decisions_json;
  action_items_json = value_or_null body.action_items_json;
  rejected_options_json = value_or_null body.rejected_options_json;
  open_questions_json = value_or_null body.open_questions_json;
  writeback_target_type = null;
  writeback_target_ref = null;
  created_by_id = user.id;
  created_by_name = user.name;
}

abbrev pub set_resolved : User → ℕ → Thread → Thread
set_resolved user now t = record t {
  status = "resolved";
  resolved_at = some now;
  resolved_by_id = some user.id;
  resolved_by_name = some user.name;
}

-- `readiness && !readiness.ready`
abbrev pub is_blocked : Option Readiness → Bool
is_blocked none = false
is_blocked (some r) = not r.ready

abbrev pub pending_of : Option Readiness → List String
pending_of none = []
pending_of (some r) = r.pending_reviewer_ids

module _ (prisma : Prisma) where
  unfoldable pub create_outcome_row : (String → Outcome) → Tx Outcome
  create_outcome_row row db = elim (prisma.create no_index row db.outcomes) [
    | ok (o, os) ↦ ok (o, record db { outcomes = os })
    | err e ↦ err e
  ]

  -- The mutation of a resolution: the outcome, then the status.
  unfoldable pub resolve_tx : User → Thread → String → ResolveBody → ℕ → Tx Thread
  resolve_tx user thread summary body now =
      tx_bind (create_outcome_row (resolve_outcome user thread.id summary body))
        (λ _. update_thread_row prisma (λ t. t.id == thread.id) (set_resolved user now))

  module _ (env : Env) (user : Option User) (thread_id : String) where
    -- DELETE /api/threads/:threadId
    unfoldable pub delete_handler : Value → Io Response
    delete_handler given = do
      _ ← check (require_governance_scopes user)
      caller ← check (require_write_scope user)
      thread ← check_db (thread_or_404 prisma thread_id)
      reason ←
          check
            (found_or (http_error 400 "reason is required to delete a thread") (trimmed_text given))
      check (assert_lifecycle_transition soft_delete thread.status)
      result ←
          apply_governance_action prisma env (delete_spec caller thread thread_id reason)
            (λ now event_id.
              update_thread_row prisma (λ t. t.id == thread_id) (set_status "deleted"))
      check (reply 200 (thread_body result.0))

    -- The transaction of a resolution, once nothing blocks it.
    abbrev finalize : User → Thread → String → ResolveBody → Option Readiness → Io Response
    finalize caller thread summary body readiness =
        if is_blocked readiness
        then check (reply 409 (pending_body (pending_of readiness)))
        else (apply_governance_action prisma env (resolve_spec caller thread thread_id)
              (λ now event_id. resolve_tx caller thread summary body now)
            >>= λ result. check (reply 200 (thread_body result.0)))

    -- POST /api/threads/:threadId/resolve
    unfoldable pub resolve_handler : ResolveBody → Io Response
    resolve_handler body = do
      _ ← check (require_forum_writer user)
      caller ← check (require_write_scope user)
      thread ← check_db (thread_or_404 prisma thread_id)
      check (assert_ordinary_read_visibility thread.status (some caller.scopes))
      check (
          throw_if
            (not (thread.created_by_id == caller.id)
              && not (has_governance_authority (some caller.scopes)))
            (http_error 403
              "INSUFFICIENT_SCOPE: only the thread creator or a moderator/admin may resolve this thread"))
      check (assert_lifecycle_transition resolve thread.status)
      summary ← check (
          required_text (http_error 400 "summaryMd (outcome summary) is required to resolve thread")
            body.summary_md)
      readiness ← check_db (λ db. ok (get_thread_review_readiness prisma thread_id db))
      finalize caller thread summary body readiness
