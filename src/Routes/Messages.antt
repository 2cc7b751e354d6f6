-- ===== src/Routes/Messages.antt =====
-- svc-forum/src/routes/messages.ts: posting a message, and deleting one.
pub mod Post
use agent_forum.Prelude.{
  ℕ, String, Bool, true, false, not, ◌&&◌, ◌||◌, Option, none, some, List, [], ◌∷◌, ◌++◌, map, ◌==◌,
  is_none, is_some, contains, filter, if◌then◌else◌,
}
use agent_forum.Js.{
  Value, str, obj, field, end, template, text_or_null, trimmed_text, truthy, distinct_from,
}
use agent_forum.Http.{http_error, Result, ok, err, require, throw_if}
use agent_forum.Store.{Prisma, Db, Env, Thread, Message, Principal, Tx, is_visible_in}
use agent_forum.Store.{◌>>=◌ as tx_bind}
use agent_forum.Store.Io.{Io, check, check_db, ◌>>=◌, ◌>>◌}
use agent_forum.Middleware.{
  User, actor_of, require_governance_scopes, require_write_scope, require_forum_writer,
}
use agent_forum.Messages.{
  MentionPrincipal, create_message, update_message_row, repair_thread_message_derived_state,
}
use agent_forum.Mentions.{
  normalize_mentions, extract_mentions_from_content, find_principals_by_agent_ids,
  mention_principals,
}
use agent_forum.Notifications.Facts.{FactInput, create_notification_facts}
use agent_forum.Review.{Readiness, get_thread_review_readiness}
use agent_forum.Requests.{
  Response, reply, message_body, pending_body, done_body, thread_or_404, required_text,
  value_or_null, found_or, text_arg, text_or_default, is_string,
}
use agent_forum.Governance.Visibility.{
  message_blocking_statuses, has_governance_authority, assert_ordinary_read_visibility,
}
use agent_forum.Governance.Orchestration.{ActionSpec, apply_governance_action}
use agent_forum.Routes.Threads.{is_blocked, pending_of}

pub record MessageBody : Type 0 where
  pub content : Value
  pub kind : Value
  pub parent_id : Value
  pub attachments : Value
  pub metadata : Value
  pub mentions : Value

abbrev is_privileged : Value → Bool
is_privileged kind = is_string "system" kind || is_string "decision" kind

-- The names of the explicit mentions that are nobody's.
abbrev pub unknown_of : (String → Option Principal) → List String → List String
unknown_of known ids = filter (λ id. is_none (known id)) ids

abbrev joined : List String → String
joined [] = ""
joined (s ∷ []) = s
joined (s ∷ t ∷ ss) = template (s ∷ "," ∷ joined (t ∷ ss) ∷ [])

abbrev any_unknown : List String → Bool
any_unknown [] = false
any_unknown (id ∷ ids) = true

abbrev mention_fact : User → Thread → String → MentionPrincipal → FactInput
mention_fact user thread message_id m = record {
  recipient_principal_id = m.principal_id;
  thread_id = thread.id;
  message_id = some message_id;
  reason = "mention";
  source_event_key = template ("mention:" ∷ message_id ∷ []);
  payload = obj (
      field "mentionedAgentId" (str m.agent_id) (
        field "authorAgentId" (text_or_null user.agent_id)
          (field "authorName" (str user.name) (field "threadTitle" (str thread.title) end))));
}

-- A write whose failure is only logged.
abbrev best_effort : Tx (Unit {0}) → Io (Unit {0})
best_effort m db = elim (m db) [ ok (_, written) ↦ (ok tt, written) | err e ↦ (ok tt, db) ]

abbrev pub delete_message_spec : User → Thread → String → String → String → ActionSpec
delete_message_spec user thread thread_id message_id reason = record {
  audit = record {
    actor = actor_of user;
    event_type = "message.soft_delete";
    target_type = "message";
    target_id = message_id;
    thread_id = some thread_id;
    revision = thread.current_revision;
    from_status = none;
    to_status = none;
    reason = some reason;
    metadata = none;
  };
  notify_reason = some "moderator_notice";
}

abbrev pub delete_at : ℕ → Message → Message
delete_at now m = record m { deleted_at = some now }

abbrev pub is_message_in : String → String → Message → Bool
is_message_in thread_id id m = m.id == id && is_visible_in thread_id m

module _ (prisma : Prisma) where
  -- The tombstone, then the thread's derived fields.
  unfoldable pub delete_message_tx : String → String → ℕ → Tx Message
  delete_message_tx thread_id message_id now =
      tx_bind (update_message_row prisma (λ m. m.id == message_id) (delete_at now)) (λ updated.
        tx_bind (repair_thread_message_derived_state prisma thread_id) (λ _ db. ok (updated, db)))

  module _ (env : Env) (user : Option User) (thread_id : String) where
    -- The parent of a reply has to be a visible message of the thread.
    unfoldable pub check_parent : Value → Db → Result (Unit {0})
    check_parent parent db = if not (truthy parent) then ok tt else elim (text_arg parent) [
      | err e ↦ err e
      | ok id ↦
          require (is_some (prisma.find_unique (is_message_in thread_id id) db.messages))
            (http_error 400 "parentId not found in this thread")
    ]

    -- Nobody but known agents may be mentioned explicitly.
    unfoldable pub resolve_mentions : List String → String → Db → Result (List MentionPrincipal)
    resolve_mentions explicit content db =
        let candidates = distinct_from [] (explicit ++ extract_mentions_from_content content) in
        let known = find_principals_by_agent_ids prisma candidates db in
        if any_unknown (unknown_of known explicit)
        then err (
            http_error 400 (
              template (
                "UNKNOWN_MENTION_AGENT unknownAgentIds=["
                ∷ joined (unknown_of known explicit)
                ∷ "]"
                ∷ [])))
        else ok (mention_principals known candidates)

    -- The message, then the notices to those who are mentioned.
    unfoldable pub post_and_notify :
        User → Thread → MessageBody → String → List MentionPrincipal → Io Response
    post_and_notify caller thread body content mentioned = do
      kind ← check (text_or_default "comment" body.kind)
      parent ← check (text_or_default "" body.parent_id)
      message ← create_message prisma env (record {
        thread_id = thread_id;
        parent_id = if parent == "" then none else some parent;
        author_id = caller.id;
        author_name = caller.name;
        kind = kind;
        content = content;
        mentions = map (λ m. m.agent_id) mentioned;
        mention_principals = mentioned;
        attachments = value_or_null body.attachments;
        metadata = value_or_null body.metadata;
      })
      best_effort (
          create_notification_facts prisma message.created_at (
            map (mention_fact caller thread message.id)
              (filter (λ m. not (m.principal_id == caller.id)) mentioned)))
      check (reply 201 (message_body message))

    abbrev post_resolved : User → Thread → MessageBody → String → Option Readiness → Io Response
    post_resolved caller thread body content readiness =
        if is_blocked readiness
        then check (reply 409 (pending_body (pending_of readiness)))
        else (check_db (check_parent body.parent_id) >>= λ _.
            check (normalize_mentions body.mentions) >>= λ explicit.
            check_db (resolve_mentions explicit content)
            >>= post_and_notify caller thread body content)

    -- POST /api/threads/:threadId/messages
    unfoldable pub post_message_handler : MessageBody → Io Response
    post_message_handler body = do
      _ ← check (require_forum_writer user)
      caller ← check (require_write_scope user)
      thread ← check_db (thread_or_404 prisma thread_id)
      check (assert_ordinary_read_visibility thread.status (some caller.scopes))
      check (
          throw_if (contains message_blocking_statuses thread.status)
            (http_error 400 (template ("Cannot post to " ∷ thread.status ∷ " thread" ∷ []))))
      content ← check (required_text (http_error 400 "content is required") body.content)
      check (
          throw_if (is_privileged body.kind && not (has_governance_authority (some caller.scopes)))
            (http_error 403
              "INSUFFICIENT_SCOPE: \"forum.moderate\" required for system/decision messages"))
      readiness ← check_db (λ db. ok (
          if is_string "decision" body.kind
          then get_thread_review_readiness prisma thread_id db
          else none))
      post_resolved caller thread body content readiness

    -- DELETE /api/threads/:threadId/messages/:messageId
    unfoldable pub delete_message_handler : String → Value → Io Response
    delete_message_handler message_id given = do
      _ ← check (require_governance_scopes user)
      caller ← check (require_write_scope user)
      thread ← check_db (thread_or_404 prisma thread_id)
      check (assert_ordinary_read_visibility thread.status (some caller.scopes))
      check_db (λ db.
          require (is_some (prisma.find_unique (is_message_in thread_id message_id) db.messages))
            (http_error 404 "Message not found"))
      reason ←
          check (
            found_or (http_error 400 "reason is required to delete a message") (trimmed_text given))
      result ←
          apply_governance_action prisma env
            (delete_message_spec caller thread thread_id message_id reason)
            (λ now event_id. delete_message_tx thread_id message_id now)
      check (reply 200 done_body)
