-- ===== src/Routes/Reports.antt =====
-- svc-forum/src/routes/reports.ts: submitting a report, and handling one.
use agent_forum.Prelude.{
  ℕ, String, Bool, true, false, not, ◌&&◌, ◌||◌, Option, none, some, [], ◌∷◌, ◌==◌, is_none,
  or_else, if◌then◌else◌,
}
use agent_forum.Js.{Value, str, obj, field, end, template, truthy, trimmed_text, text_given}
use agent_forum.Http.{http_error, Result, ok, err, throw_if}
use agent_forum.Store.{
  Prisma, Db, Env, Tx, Thread, Message, Report, return, lift, ◌>>=◌ as tx_bind, ◌>>◌ as tx_then,
}
use agent_forum.Store.Io.{Io, check, check_db, ◌>>=◌, ◌>>◌}
use agent_forum.Middleware.{User, actor_of, require_governance_scopes, require_write_scope}
use agent_forum.Messages.{
  update_thread_row, update_message_row, repair_thread_message_derived_state,
}
use agent_forum.Notifications.Facts.{FactInput, create_notification_facts}
use agent_forum.Reports.{
  ReportAction, ignore, warn, delete, report_status_for_action, create_report, find_report_by_id,
  thread_by_id, message_by_id, update_report_row,
}
use agent_forum.Requests.{
  Response, reply, report_body, required_text, value_or_null, found_or, text_or_empty,
}
use agent_forum.Governance.Lifecycle.{soft_delete, assert_lifecycle_transition}
use agent_forum.Governance.Orchestration.{ActionSpec, audit_key, apply_governance_action}
use agent_forum.Routes.Moderation.{set_status}
use agent_forum.Routes.Messages.{delete_at}

-- `!action || !['ignore', 'warn', 'delete'].includes(action)`
unfoldable pub report_action_of : Value → Option ReportAction
report_action_of (str s) =
    if s == "ignore"
    then some ignore
    else if s == "warn"
    then some warn
    else if s == "delete"
    then some delete
    else none
report_action_of v = none

abbrev action_text : ReportAction → String
action_text ignore = "ignore"
action_text warn = "warn"
action_text delete = "delete"

abbrev pub is_delete : ReportAction → Bool
is_delete delete = true
is_delete _ = false

abbrev pub thread_of_report : Report → Option String
thread_of_report r = if r.target_type == "thread" then some r.target_id else none

abbrev pub handle_spec : User → Report → String → ReportAction → Option String → ActionSpec
handle_spec user report report_id action reason = record {
  audit = record {
    actor = actor_of user;
    event_type = "report.handle";
    target_type = "report";
    target_id = report_id;
    thread_id = thread_of_report report;
    revision = none;
    from_status = some "pending";
    to_status = some (report_status_for_action action);
    reason = reason;
    metadata = some (
        obj (
          field "reportAction" (str (action_text action)) (
            field "reportedTargetType" (str report.target_type)
              (field "reportedTargetId" (str report.target_id) end))));
  };
  notify_reason = none;
}

abbrev pub handled : User → ReportAction → Value → ℕ → Report → Report
handled user action note now r = record r {
  status = report_status_for_action action;
  handled_by_id = some user.id;
  handled_by_name = some user.name;
  handled_at = some now;
  handle_note = value_or_null note;
}

-- `if (targetThread) assertLifecycleTransition('softDelete', targetThread.status)`
abbrev assert_deletable : Option Thread → Result (Unit {0})
assert_deletable none = ok tt
assert_deletable (some t) = elim (assert_lifecycle_transition soft_delete t.status) [
  | ok status ↦ ok tt
  | err e ↦ err e
]

abbrev reporter_fact : Report → ReportAction → String → String → FactInput
reporter_fact report action event_id thread_id = record {
  recipient_principal_id = report.reporter_id;
  thread_id = thread_id;
  message_id = if report.target_type == "message" then some report.target_id else none;
  reason = "moderator_notice";
  source_event_key = audit_key event_id;
  payload = obj (
      field "action" (str "report.handle") (
        field "reportAction" (str (action_text action))
          (field "reportStatus" (str (report_status_for_action action)) end)));
}

module _ (prisma : Prisma) where
  abbrev repair_parent : Option Message → Tx (Unit {0})
  repair_parent none = return tt
  repair_parent (some m) =
      tx_bind (repair_thread_message_derived_state prisma m.thread_id) (λ _. return tt)

  unfoldable pub delete_reported_thread : String → Tx (Unit {0})
  delete_reported_thread id db =
      tx_then (lift (assert_deletable (thread_by_id prisma id db)))
        (tx_bind (update_thread_row prisma (λ t. t.id == id) (set_status "deleted"))
          (λ _. return tt))
        db

  unfoldable pub delete_reported_message : String → ℕ → Tx (Unit {0})
  delete_reported_message id now =
      tx_bind (update_message_row prisma (λ m. m.id == id) (delete_at now))
        (λ _ db. repair_parent (message_by_id prisma id db) db)

  -- What the action `delete` does to the reported content.
  unfoldable pub delete_reported : Report → ReportAction → ℕ → Tx (Unit {0})
  delete_reported report action now =
      if not (is_delete action)
      then return tt
      else if report.target_type == "thread"
      then delete_reported_thread report.target_id
      else delete_reported_message report.target_id now

  abbrev reported_thread_id : Report → Db → Option String
  reported_thread_id report db =
      if report.target_type == "thread"
      then some report.target_id
      else elim (message_by_id prisma report.target_id db) [
        | none ↦ none
        | some m ↦ some m.thread_id
      ]

  unfoldable pub notify_reporter : User → Report → ReportAction → ℕ → String → Tx (Unit {0})
  notify_reporter user report action now event_id db =
      if report.reporter_id == user.id || not (text_given (reported_thread_id report db))
      then ok (tt, db)
      else create_notification_facts prisma now
          (reporter_fact report action event_id (or_else (reported_thread_id report db) "") ∷ []) db

  -- The mutation of a report's handling.
  unfoldable pub handle_report_tx :
      User → Report → String → ReportAction → Value → ℕ → String → Tx Report
  handle_report_tx user report report_id action note now event_id =
      tx_then (delete_reported report action now) (
        tx_bind (update_report_row prisma (λ r. r.id == report_id) (handled user action note now))
          (λ updated. tx_then (notify_reporter user report action now event_id) (return updated)))

  module _ (user : Option User) where
    -- POST /api/reports
    unfoldable pub create_report_handler :
        (Db → Db) → ℕ → Value → Value → Value → Value → Io Response
    create_report_handler others now target_type target_id reason note = do
      caller ← check (require_write_scope user)
      check (
          throw_if (not (truthy target_type) || not (truthy target_id))
            (http_error 400 "targetType and targetId are required"))
      why ← check (required_text (http_error 400 "reason is required") reason)
      report ← create_report prisma others now (record {
        target_type = text_or_empty target_type;
        target_id = text_or_empty target_id;
        reporter_id = caller.id;
        reporter_name = caller.name;
        reason = why;
        note = value_or_null note;
      })
      check (reply 201 (report_body report))

    -- PATCH /api/reports/:id
    unfoldable pub handle_report_handler : Env → String → Value → Value → Io Response
    handle_report_handler env report_id given note = do
      _ ← check (require_governance_scopes user)
      caller ← check (require_write_scope user)
      action ← check (
          found_or (http_error 400 "action must be one of: ignore, warn, delete")
            (report_action_of given))
      check (
          throw_if (is_delete action && is_none (trimmed_text note))
            (http_error 400 "reason (note) is required to delete reported content"))
      report ← check_db (λ db.
          found_or (http_error 404 "Report not found") (find_report_by_id prisma report_id db))
      check (
          throw_if (not (report.status == "pending")) (
            http_error 409
              (template ("Report already handled (status=" ∷ report.status ∷ ")" ∷ []))))
      result ←
          apply_governance_action prisma env
            (handle_spec caller report report_id action (trimmed_text note))
            (handle_report_tx caller report report_id action note)
      check (reply 200 (report_body result.0))
