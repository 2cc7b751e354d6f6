-- ===== src/Routes/Threads/Open.antt =====
-- svc-forum/src/routes/threads.ts, POST, and createThread of svc-forum/src/lib/data-access/threads.ts:
-- opening a thread with its first participants. An entry of the body's participants is an object;
-- `lower` is `toLowerCase`. Each write is a transaction of its own, so that what is written before an
-- error stays.
pub mod Stored
pub mod Creator
use agent_forum.Prelude.{
  ℕ, String, Bool, true, false, not, ◌&&◌, ◌||◌, Option, none, some, List, [], ◌∷◌, ◌==◌, is_some,
  is_text, or_else, if◌then◌else◌,
}
use agent_forum.Js.{Value, undefined, str, truthy}
use agent_forum.Http.{
  Error, http_error, db_error, p2002, Result, ok, err, require, ◌>>=◌ as then_result,
}
use agent_forum.Ids.{is_valid_agent_id}
use agent_forum.Store.{Prisma, Db, Env, Thread, Participant, Principal, Tx}
use agent_forum.Store.Io.{Io, check, check_db, write, ◌>>=◌, ◌>>◌}
use agent_forum.Middleware.{User, require_forum_writer, require_write_scope}
use agent_forum.Messages.{text_or, create_participant}
use agent_forum.Mentions.{find_principals_by_agent_ids}
use agent_forum.Requests.{
  Response, reply, thread_body, required_text, text_arg, text_or_default, value_or_null,
}
use agent_forum.Governance.Visibility.{participant_roles, participant_statuses}
use agent_forum.Routes.Participants.{is_one_of, find_participant}
use agent_forum.Routes.Threads.Patch.{nullable_field, tags_field, normalized_tags}

pub record Entry : Type 0 where
  pub agent_id : Value
  pub agent_name : Value
  pub role : Value
  pub status : Value

pub record OpenBody : Type 0 where
  pub title : Value
  pub type : Value
  pub context_type : Value
  pub context_id : Value
  pub pipeline : Value
  pub layer : Value
  pub tags : Value
  -- `none` where it is no array
  pub participants : Option (List Entry)

-- The unique index of the context: a workflow instance has one thread.
abbrev pub same_text : Option String → Option String → Bool
same_text (some a) (some b) = a == b
same_text _ _ = false

abbrev pub same_workflow : Thread → Thread → Bool
same_workflow s t =
    is_text s.context_type "workflow_instance"
    && is_text t.context_type "workflow_instance"
    && same_text s.context_id t.context_id

-- `entry.key || d`
abbrev pub value_or_text : Value → String → Value
value_or_text v d = if truthy v then v else str d

abbrev pub completed : User → Entry → Entry
completed user e = record {
  agent_id = value_or_text e.agent_id user.id;
  agent_name = value_or_text e.agent_name user.name;
  role = value_or_text e.role "member";
  status = value_or_text e.status "invited";
}

abbrev pub completed_all : User → List Entry → List Entry
completed_all user [] = []
completed_all user (e ∷ es) = completed user e ∷ completed_all user es

unfoldable pub check_entries : List Entry → Result (Unit {0})
check_entries [] = ok tt
check_entries (e ∷ es) =
    then_result
      (require (is_one_of participant_roles e.role && is_one_of participant_statuses e.status) (
        http_error 400
          "participant role must be one of: member, required_reviewer, moderator; status must be one of: invited, active, responded"))
      (λ _. check_entries es)

-- The agent ids of the query, which takes texts only.
unfoldable pub agent_ids : List Entry → Result (List String)
agent_ids [] = ok []
agent_ids (e ∷ es) =
    then_result (text_arg e.agent_id) (λ id. then_result (agent_ids es) (λ ids. ok (id ∷ ids)))

unfoldable pub check_known : (String → Option Principal) → List String → Result (Unit {0})
check_known known [] = ok tt
check_known known (id ∷ ids) =
    then_result
      (require (is_valid_agent_id id && is_some (known id))
        (http_error 400 "UNKNOWN_MENTION_AGENT"))
      (λ _. check_known known ids)

abbrev pub participant_row : String → String → String → String → String → ℕ → String → Participant
participant_row thread_id agent_id name role status now id = record {
  id = id;
  thread_id = thread_id;
  agent_id = agent_id;
  agent_name = name;
  role = role;
  status = status;
  last_read_at = none;
  joined_at = now;
  left_at = none;
  review_waived_at = none;
  review_waived_by_id = none;
  review_waiver_reason = none;
}

abbrev pub or_empty : Option (List String) → List String
or_empty o = or_else o []

-- `tags || []`
abbrev pub given_tags : Value → Result (Option (List String))
given_tags v = if truthy v then tags_field v else ok none

-- A second thread of a workflow instance is refused by the index.
abbrev pub as_opened : Result (Thread × Db) → Result (Thread × Db)
as_opened (err (db_error p2002)) = err (http_error 409 "WORKFLOW_CONTEXT_THREAD_EXISTS")
as_opened r = r

abbrev pub text_of_entry : Value → String
text_of_entry (str s) = s
text_of_entry v = ""

module _ (prisma : Prisma) (lower : String → String) (now : ℕ) where
  unfoldable pub create_thread_row : (String → Thread) → Tx Thread
  create_thread_row row db = elim (prisma.create same_workflow row db.threads) [
    | ok (t, ts) ↦ ok (t, record db { threads = ts })
    | err e ↦ err e
  ]

  -- The row of a new thread, with its tags normalised.
  unfoldable pub thread_row : User → String → OpenBody → Result (String → Thread)
  thread_row user title body = then_result (text_or_default "discussion" body.type) λ type.
      then_result (nullable_field (value_or_null body.context_type)) λ context_type.
        then_result (nullable_field (value_or_null body.context_id)) λ context_id.
          then_result (nullable_field (value_or_null body.pipeline)) λ pipeline.
            then_result (nullable_field (value_or_null body.layer)) λ layer.
              then_result (given_tags body.tags) λ tags. ok (λ id. record {
                id = id;
                title = title;
                type = type;
                status = "open";
                context_type = or_else context_type none;
                context_id = or_else context_id none;
                pipeline = or_else pipeline none;
                layer = or_else layer none;
                tags = normalized_tags lower (or_empty tags);
                pinned = false;
                featured = false;
                message_count = 0;
                view_count = 0;
                last_message_at = none;
                created_by_id = user.id;
                created_by_name = user.name;
                created_at = now;
                resolved_at = none;
                resolved_by_id = none;
                resolved_by_name = none;
                current_revision = none;
              })

  -- Participants are added one by one.
  unfoldable pub add_entries : String → (String → Option Principal) → List Entry → Io (Unit {0})
  add_entries thread_id known [] = check (ok tt)
  add_entries thread_id known (e ∷ es) = elim (known (text_of_entry e.agent_id)) [
    | none ↦ check (err (http_error 400 "UNKNOWN_MENTION_AGENT"))
    | some principal ↦ do
      name ←
          check (
            text_or_default (text_or principal.display_name (text_of_entry e.agent_id))
              e.agent_name)
      _ ← write (
          create_participant prisma (
            participant_row thread_id principal.id name (text_of_entry e.role)
              (text_of_entry e.status) now))
      add_entries thread_id known es
  ]

  unfoldable pub add_participants : User → String → Option (List Entry) → Io (Unit {0})
  add_participants user thread_id none = check (ok tt)
  add_participants user thread_id (some given) = do
    let entries = completed_all user given
    check (check_entries entries)
    ids ← check (agent_ids entries)
    known ← check_db (λ db. ok (find_principals_by_agent_ids prisma ids db))
    check (check_known known ids)
    add_entries thread_id known entries

  -- The creator, unless he has a row already.
  unfoldable pub add_creator : User → String → Io (Unit {0})
  add_creator user thread_id db = elim (find_participant prisma thread_id user.id db) [
    | some p ↦ (ok tt, db)
    | none ↦
        (write (
              create_participant prisma
                (participant_row thread_id user.id user.name "creator" "responded" now))
            >>= λ p. check (ok tt))
          db
  ]

  -- POST /api/threads
  unfoldable pub open_handler : Option User → OpenBody → Io Response
  open_handler user body = do
    _ ← check (require_forum_writer user)
    caller ← check (require_write_scope user)
    title ← check (required_text (http_error 400 "title is required") body.title)
    row ← check (thread_row caller title body)
    thread ← write (λ db. as_opened (create_thread_row row db))
    _ ← add_participants caller thread.id body.participants
    _ ← add_creator caller thread.id
    check (reply 201 (thread_body thread))
