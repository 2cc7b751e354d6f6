-- ===== src/Routes/Notifications.antt =====
-- svc-forum/src/routes/notifications.ts: the caller's own notifications. The recipient is always the
-- caller.
pub mod Shown
use agent_forum.Prelude.{
  ℕ, String, Bool, true, false, not, Option, none, some, List, [], ◌∷◌, ◌==◌, contains, any, map,
  length, ltb, if◌then◌else◌,
}
use agent_forum.Js.{Value, str, arr, items, template}
use agent_forum.Http.{http_error, Result, ok, err, throw_if}
use agent_forum.Store.{Prisma}
use agent_forum.Store.Io.{Io, check, check_db, write, ◌>>=◌, ◌>>◌}
use agent_forum.Middleware.{User, join_names, require_read_scope, require_write_scope}
use agent_forum.Governance.Visibility.{has_governance_authority}
use agent_forum.Pagination.{Paging, parse_pagination}
use agent_forum.Notifications.Inbox.{
  Facts, find_notifications_for_principal, mark_notification_fact_read,
  mark_notification_facts_read,
}
use agent_forum.Requests.{Response, reply, found_or, fact_body, updated_body, text_or_empty}

abbrev pub notification_reasons : List String
notification_reasons = "mention" ∷ "thread_notice" ∷ "moderator_notice" ∷ []

abbrev pub one_of : List String → Option String → Bool
one_of names none = true
one_of names (some s) = contains names s

abbrev pub is_true : Option String → Bool
is_true none = false
is_true (some s) = s == "true"

-- `typeof v !== 'string'`
abbrev pub is_no_text : Value → Bool
is_no_text (str s) = false
is_no_text v = true

abbrev pub default_paging : Paging
default_paging = record { page = 1; limit = 20 }

abbrev pub batch_of : Value → Result (List Value)
batch_of (arr vs) =
    if ltb 0 (length (items vs))
    then ok (items vs)
    else err (http_error 400 "ids must be a non-empty array")
batch_of v = err (http_error 400 "ids must be a non-empty array")

module _ (prisma : Prisma) (user : Option User) where
  -- GET /api/notifications
  unfoldable pub notifications_handler :
      (ℕ → String)
      → Option String
      → Option String
      → Option String
      → Option String
      → Option String
      → Io Facts
  notifications_handler shown type unread thread_id page limit = do
    caller ← check (require_read_scope user)
    check (
        throw_if (not (one_of notification_reasons type)) (
          http_error 400
            (template ("type must be one of: " ∷ join_names notification_reasons ∷ []))))
    check (
        throw_if (not (one_of ("true" ∷ "false" ∷ []) unread))
          (http_error 400 "unread must be \"true\" or \"false\""))
    paging ← check (parse_pagination shown page limit default_paging 100)
    check_db (λ db. ok (
        find_notifications_for_principal prisma caller.id
          (record {
            reason = type;
            unread_only = is_true unread;
            thread_id = thread_id;
            page = paging.page;
            limit = paging.limit;
            include_hidden_thread_facts = has_governance_authority (some caller.scopes);
          })
          db))

  -- POST /api/notifications/:id/read
  unfoldable pub read_notification_handler : ℕ → String → Io Response
  read_notification_handler now id = do
    caller ← check (require_write_scope user)
    found ← write (mark_notification_fact_read prisma now id caller.id)
    fact ← check (found_or (http_error 404 "Notification not found") found)
    check (reply 200 (fact_body fact))

  -- POST /api/notifications/read
  unfoldable pub read_notifications_handler : ℕ → Value → Io Response
  read_notifications_handler now given = do
    caller ← check (require_write_scope user)
    ids ← check (batch_of given)
    check
        (throw_if (ltb 100 (length ids)) (http_error 400 "ids must not exceed 100 items per batch"))
    check (throw_if (any is_no_text ids) (http_error 400 "ids must be strings"))
    updated ← write (mark_notification_facts_read prisma now (map text_or_empty ids) caller.id)
    check (reply 200 (updated_body updated))
