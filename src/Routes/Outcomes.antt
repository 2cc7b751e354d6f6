-- ===== src/Routes/Outcomes.antt =====
-- svc-forum/src/routes/outcomes.ts: recording an outcome of a thread.
use agent_forum.Prelude.{String, Option, some, ◌==◌}
use agent_forum.Js.{Value}
use agent_forum.Http.{http_error, throw_if}
use agent_forum.Store.{Prisma, Outcome}
use agent_forum.Store.Io.{Io, check, check_db, write, ◌>>=◌, ◌>>◌}
use agent_forum.Middleware.{User, require_write_scope, require_forum_writer}
use agent_forum.Requests.{
  Response, reply, outcome_body, thread_or_404, required_text, value_or_null,
}
use agent_forum.Governance.Visibility.{assert_ordinary_read_visibility}
use agent_forum.Routes.Threads.{create_outcome_row}

pub record OutcomeBody : Type 0 where
  pub summary_md : Value
  pub decisions_json : Value
  pub action_items_json : Value
  pub rejected_options_json : Value
  pub open_questions_json : Value
  pub writeback_target_type : Value
  pub writeback_target_ref : Value

abbrev pub outcome_row : User → String → String → OutcomeBody → String → Outcome
outcome_row user thread_id summary body id = record {
  id = id;
  thread_id = thread_id;
  summary_md = summary;
  decisions_json = value_or_null body.decisions_json;
  action_items_json = value_or_null body.action_items_json;
  rejected_options_json = value_or_null body.rejected_options_json;
  open_questions_json = value_or_null body.open_questions_json;
  writeback_target_type = value_or_null body.writeback_target_type;
  writeback_target_ref = value_or_null body.writeback_target_ref;
  created_by_id = user.id;
  created_by_name = user.name;
}

-- POST /api/threads/:threadId/outcomes
unfoldable pub create_outcome_handler : Prisma → Option User → String → OutcomeBody → Io Response
create_outcome_handler prisma user thread_id body = do
  _ ← check (require_forum_writer user)
  caller ← check (require_write_scope user)
  thread ← check_db (thread_or_404 prisma thread_id)
  check (assert_ordinary_read_visibility thread.status (some caller.scopes))
  check (throw_if (thread.status == "deleted") (http_error 400 "Cannot append to a deleted thread"))
  summary ← check (required_text (http_error 400 "summaryMd is required") body.summary_md)
  outcome ← write (create_outcome_row prisma (outcome_row caller thread_id summary body))
  check (reply 201 (outcome_body outcome))
