-- ===== src/Routes/Moderation.antt =====
-- svc-forum/src/routes/moderation.ts: close, archive, hide and restore a thread; pin and feature it.
pub mod Lifecycle
use agent_forum.Prelude.{
  ℕ, String, Bool, true, false, not, ◌&&◌, Option, none, some, List, [], ◌∷◌, ◌==◌, is_none,
  if◌then◌else◌,
}
use agent_forum.Js.{Value, template, trimmed_text}
use agent_forum.Http.{http_error, Result, ok, err, require, throw_if}
use agent_forum.Store.{Prisma, Db, Env, Thread, Tx}
use agent_forum.Store.Io.{Io, check, check_db, ◌>>=◌, ◌>>◌}
use agent_forum.Audit.{AuditInput}
use agent_forum.Middleware.{User, actor_of, require_governance_scopes}
use agent_forum.Messages.{update_thread_row}
use agent_forum.Requests.{Response, reply, thread_body, thread_or_404}
use agent_forum.Governance.Lifecycle.{
  Action, close, archive, hide, restore, resolve, soft_delete, action_name,
  assert_lifecycle_transition,
}
use agent_forum.Governance.Orchestration.{ActionSpec, apply_governance_action}

abbrev pub thread_lifecycle_actions : List Action
thread_lifecycle_actions = close ∷ archive ∷ hide ∷ restore ∷ []

abbrev pub is_hide : Action → Bool
is_hide hide = true
is_hide _ = false

-- The audit event of an action on a thread.
abbrev pub thread_event : User → Thread → String → String → AuditInput
thread_event user thread thread_id event_type = record {
  actor = actor_of user;
  event_type = event_type;
  target_type = "thread";
  target_id = thread_id;
  thread_id = some thread_id;
  revision = thread.current_revision;
  from_status = none;
  to_status = none;
  reason = none;
  metadata = none;
}

abbrev pub lifecycle_spec : User → Thread → String → Action → Option String → String → ActionSpec
lifecycle_spec user thread thread_id action reason to_status = record {
  audit =
      record (thread_event user thread thread_id (template ("thread." ∷ action_name action ∷ []))) {
        from_status = some thread.status;
        to_status = some to_status;
        reason = reason;
      };
  notify_reason = some (if is_hide action then "moderator_notice" else "thread_notice");
}

abbrev pub set_status : String → Thread → Thread
set_status status t = record t { status = status }

pub data Flag : Type 0 where
  pinned featured : Flag

abbrev pub flag_of : Flag → Thread → Bool
flag_of pinned t = t.pinned
flag_of featured t = t.featured

abbrev pub set_flag : Flag → Bool → Thread → Thread
set_flag pinned v t = record t { pinned = v }
set_flag featured v t = record t { featured = v }

abbrev pub flag_action : Flag → Bool → String
flag_action pinned true = "pin"
flag_action pinned false = "unpin"
flag_action featured true = "feature"
flag_action featured false = "unfeature"

abbrev flag_name : Flag → String
flag_name pinned = "pinned"
flag_name featured = "featured"

abbrev pub same_flag : Bool → Bool → Bool
same_flag true b = b
same_flag false b = not b

module _ (prisma : Prisma) (env : Env) (user : Option User) (thread_id : String)
    (reason : Value) where
  unfoldable pub lifecycle_handler : Action → Io Response
  lifecycle_handler action = do
    caller ← check (require_governance_scopes user)
    thread ← check_db (thread_or_404 prisma thread_id)
    check (
        throw_if (is_hide action && is_none (trimmed_text reason))
          (http_error 400 "reason is required to hide a thread"))
    to_status ← check (assert_lifecycle_transition action thread.status)
    result ←
        apply_governance_action prisma env
          (lifecycle_spec caller thread thread_id action (trimmed_text reason) to_status)
          (λ now event_id. update_thread_row prisma (λ t. t.id == thread_id) (set_status to_status))
    check (reply 200 (thread_body result.0))

  unfoldable pub flag_handler : Flag → Bool → Io Response
  flag_handler field value = do
    caller ← check (require_governance_scopes user)
    thread ← check_db (thread_or_404 prisma thread_id)
    check (
        throw_if (same_flag (flag_of field thread) value) (
          http_error 400
            (template ("Thread already " ∷ (if value then "" else "un") ∷ flag_name field ∷ []))))
    result ←
        apply_governance_action prisma env
          (record {
            audit =
                record (thread_event caller thread thread_id
                  (template ("thread." ∷ flag_action field value ∷ []))) {
                    reason = trimmed_text reason;
                  };
            notify_reason = none;
          })
          (λ now event_id. update_thread_row prisma (λ t. t.id == thread_id) (set_flag field value))
    check (reply 200 (thread_body result.0))
