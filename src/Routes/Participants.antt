-- ===== src/Routes/Participants.antt =====
-- svc-forum/src/routes/participants.ts: adding, changing and removing participants, and waiving a
-- required review. `now` is the time of the request; `parse_date` is the language's `new Date(v)`,
-- for dates from 1970 on.
pub mod Update
use agent_forum.Prelude.{
  ℕ, String, Bool, true, false, not, ◌&&◌, ◌||◌, Option, none, some, List, [], ◌∷◌, ◌==◌, is_none,
  is_some, or_else, contains, if◌then◌else◌,
}
use agent_forum.Js.{Value, str, is_given, text_given, template}
use agent_forum.Http.{http_error, Result, ok, err, require, throw_if, ◌>>=◌ as then_result}
use agent_forum.Ids.{is_uuid, is_valid_agent_id}
use agent_forum.Store.{Prisma, Db, Thread, Participant, Principal, Message}
use agent_forum.Store.Io.{Io, check, check_db, write, ◌>>=◌, ◌>>◌}
use agent_forum.Middleware.{User, require_write_scope, require_forum_writer}
use agent_forum.Messages.{is_row_of, text_or, create_participant, update_participant_row}
use agent_forum.Mentions.{find_principals_by_agent_ids}
use agent_forum.Review.{is_review_in, is_waived}
use agent_forum.Watch.{leave}
use agent_forum.Requests.{
  Response, reply, participant_body, done_body, visible_thread, found_or, required_text,
  text_or_default, is_string,
}
use agent_forum.Governance.Visibility.{
  has_governance_authority, participant_roles, participant_statuses,
}

unfoldable pub can_manage_participants : Thread → User → Bool
unfolding has_governance_authority
can_manage_participants thread user =
    thread.created_by_id == user.id || has_governance_authority (some user.scopes)

abbrev pub is_one_of : List String → Value → Bool
is_one_of names (str s) = contains names s
is_one_of names v = false

unfoldable pub assert_participant_enum : Value → Value → Result (Unit {0})
assert_participant_enum role status =
    then_result
      (throw_if (is_given role && not (is_one_of participant_roles role))
        (http_error 400 "role must be one of: member, required_reviewer, moderator"))
      (λ _.
        throw_if (is_given status && not (is_one_of participant_statuses status))
          (http_error 400 "status must be one of: invited, active, responded"))

abbrev no_agent : {A : Type 0} → Result A
no_agent = err (http_error 400 "UNKNOWN_MENTION_AGENT")

-- The agent id, if it is a text that is not empty.
abbrev given_agent : Value → Result String
given_agent (str s) = if s == "" then err (http_error 400 "agentId is required") else ok s
given_agent v = err (http_error 400 "agentId is required")

-- `updateData`, in which a date that was given has been parsed.
pub record Change : Type 0 where
  pub role : Value
  pub status : Value
  pub last_read_at : Option ℕ

abbrev text_of : Value → String → String
text_of (str s) old = s
text_of v old = old

-- The fields that are given, written over those of the row.
abbrev pub apply_change : Change → Participant → Participant
apply_change c p = record p {
  role = text_of c.role p.role;
  status = text_of c.status p.status;
  last_read_at = elim c.last_read_at [ none ↦ p.last_read_at | some at ↦ some at ];
}

abbrev pub waive : User → ℕ → String → Participant → Participant
waive user now reason p = record p {
  review_waived_at = some now;
  review_waived_by_id = some user.id;
  review_waiver_reason = some reason;
}

-- A message that makes a waiver needless.
abbrev pub is_reply_of : String → String → Message → Bool
is_reply_of thread_id agent_id = λ m. is_review_in thread_id m && m.author_id == agent_id

module _ (prisma : Prisma) where
  unfoldable pub resolve_participant_key : String → Db → Result Principal
  resolve_participant_key agent_id db =
      if not (is_valid_agent_id agent_id)
      then no_agent
      else found_or (http_error 400 "UNKNOWN_MENTION_AGENT")
          (find_principals_by_agent_ids prisma (agent_id ∷ []) db agent_id)

  unfoldable pub find_participant : String → String → Db → Option Participant
  find_participant thread_id agent_id db =
      if not (is_uuid thread_id)
      then none
      else prisma.find_unique (is_row_of thread_id agent_id) db.participants

  -- The row of an id, if it is in the thread of the route.
  unfoldable pub participant_in_thread : String → String → Db → Result Participant
  participant_in_thread thread_id id db =
      then_result
        (found_or (http_error 404 "Participant not found")
          (prisma.find_unique (λ p. p.id == id) db.participants))
        (λ p.
          if not (p.thread_id == thread_id)
          then err (http_error 404 "Participant not found")
          else ok p)

  module _ (user : Option User) (thread_id : String) (now : ℕ) where
    abbrev add_row : Principal → String → Value → Value → String → Participant
    add_row principal name role status id = record {
      id = id;
      thread_id = thread_id;
      agent_id = principal.id;
      agent_name = name;
      role = text_of role "member";
      status = text_of status "invited";
      last_read_at = none;
      joined_at = now;
      left_at = none;
      review_waived_at = none;
      review_waived_by_id = none;
      review_waiver_reason = none;
    }

    -- Somebody who has a row already keeps it as it is.
    abbrev add_unless :
        Principal → String → Value → Value → Value → Option Participant → Io Response
    add_unless principal agent_id agent_name role status (some existing) =
        check (reply 200 (participant_body existing))
    add_unless principal agent_id agent_name role status none = do
      name ← check (text_or_default (text_or principal.display_name agent_id) agent_name)
      participant ← write (create_participant prisma (add_row principal name role status))
      check (reply 201 (participant_body participant))

    -- POST /api/threads/:threadId/participants
    unfoldable pub add_participant_handler : Value → Value → Value → Value → Io Response
    add_participant_handler agent agent_name role status = do
      _ ← check (require_forum_writer user)
      caller ← check (require_write_scope user)
      thread ← check_db (visible_thread prisma thread_id caller.scopes)
      check (
          throw_if (thread.status == "deleted")
            (http_error 400 "Cannot add participants to a deleted thread"))
      agent_id ← check (given_agent agent)
      check (assert_participant_enum role status)
      principal ← check_db (resolve_participant_key agent_id)
      check (
          throw_if (not (principal.id == caller.id) && not (can_manage_participants thread caller))
            (http_error 403
              "Only the thread creator or a moderator/admin may add other participants"))
      check (
          throw_if (principal.id == caller.id && is_given role && not (is_string "member" role)) (
            http_error 403
              "Self-service participation is member-only; role changes require the thread creator or a moderator/admin"))
      existing ← check_db (λ db. ok (find_participant thread_id principal.id db))
      add_unless principal agent_id agent_name role status existing

    abbrev parsed_date : (Value → Option ℕ) → Value → Result (Option ℕ)
    parsed_date parse v = if not (is_given v) then ok none else elim (parse v) [
      | none ↦ err (http_error 400 "lastReadAt must be a valid date")
      | some at ↦ ok (some at)
    ]

    -- PATCH /api/threads/:threadId/participants/:participantId
    unfoldable pub update_participant_handler :
        (Value → Option ℕ) → String → Value → Value → Value → Io Response
    update_participant_handler parse_date id role status last_read_at = do
      _ ← check (require_forum_writer user)
      caller ← check (require_write_scope user)
      thread ← check_db (visible_thread prisma thread_id caller.scopes)
      existing ← check_db (participant_in_thread thread_id id)
      check (assert_participant_enum role status)
      check (
          throw_if
            ((is_given role || is_given status) && not (can_manage_participants thread caller))
            (http_error 403
              "Only the thread creator or a moderator/admin may change participant roles"))
      check (
          throw_if (is_given last_read_at && not (existing.agent_id == caller.id))
            (http_error 403 "lastReadAt is self-service only"))
      at ← check (parsed_date parse_date last_read_at)
      participant ← write (
          update_participant_row prisma (λ p. p.id == id)
            (apply_change (record { role = role; status = status; last_read_at = at })))
      check (reply 200 (participant_body participant))

    -- DELETE /api/threads/:threadId/participants/:participantId
    unfoldable pub remove_participant_handler : String → Io Response
    remove_participant_handler id = do
      _ ← check (require_forum_writer user)
      caller ← check (require_write_scope user)
      thread ← check_db (visible_thread prisma thread_id caller.scopes)
      existing ← check_db (participant_in_thread thread_id id)
      check (
          throw_if
            (not (existing.agent_id == caller.id) && not (can_manage_participants thread caller))
            (http_error 403
              "Only the thread creator or a moderator/admin may remove other participants"))
      _ ← write (update_participant_row prisma (λ p. p.id == id) (leave now))
      check (reply 200 done_body)

    -- The waiver of somebody who has not been waived yet.
    unfoldable pub waive_pending : User → Thread → String → Value → Participant → Io Response
    waive_pending caller thread agent_id reason participant = do
      check_db (λ db.
          throw_if (is_some (prisma.find_unique (is_reply_of thread_id agent_id) db.messages))
            (http_error 409 "Reviewer has already posted a message, waiver not needed"))
      check (
          throw_if
            (not (thread.created_by_id == caller.id)
              && not (has_governance_authority (some caller.scopes)))
            (http_error 403
              "Only the thread creator or forum.moderate/forum.admin authority can waive a reviewer"))
      why ← check (required_text (http_error 400 "waiver reason is required") reason)
      updated ←
          write (update_participant_row prisma (λ p. p.id == participant.id) (waive caller now why))
      check (reply 200 (participant_body (waive caller now why participant)))

    abbrev waive_unless : User → Thread → String → Value → Participant → Io Response
    waive_unless caller thread agent_id reason participant =
        if is_waived participant
        then check (reply 200 (participant_body participant))
        else waive_pending caller thread agent_id reason participant

    -- POST /api/threads/:threadId/participants/:agentId/waive-review
    unfoldable pub waive_review_handler : String → Value → Io Response
    waive_review_handler agent_id reason = do
      _ ← check (require_forum_writer user)
      caller ← check (require_write_scope user)
      thread ← check_db (visible_thread prisma thread_id caller.scopes)
      participant ← check_db (λ db.
          found_or (http_error 404 "Participant not found")
            (find_participant thread_id agent_id db))
      check (
          throw_if (not (participant.role == "required_reviewer"))
            (http_error 400 "Only required_reviewer participants can be waived"))
      waive_unless caller thread agent_id reason participant
