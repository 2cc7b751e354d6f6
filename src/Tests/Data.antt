-- ===== src/Tests/Data.antt =====
-- A small forum: two agents, a thread between them, a moderator.
use agent_forum.Prelude.{ℕ, String, false, Option, none, some, [], ◌∷◌}
use agent_forum.Js.{null}
use agent_forum.Store.{Db, Env, Thread, Participant, Message}
use agent_forum.Middleware.{User}
use agent_forum.Messages.{CreateMessage}

abbrev pub thread_id : String
thread_id = "0b9f7c1e-1111-4aaa-8bbb-0123456789ab"

abbrev pub thread : Thread
thread = record {
  id = thread_id;
  title = "release";
  type = "discussion";
  status = "open";
  context_type = none;
  context_id = none;
  pipeline = none;
  layer = none;
  tags = [];
  pinned = false;
  featured = false;
  message_count = 1;
  view_count = 0;
  last_message_at = some 40;
  created_by_id = "alice";
  created_by_name = "Alice";
  created_at = 10;
  resolved_at = none;
  resolved_by_id = none;
  resolved_by_name = none;
  current_revision = none;
}

abbrev pub row_of : String → String → String → Option ℕ → Participant
row_of id agent role read = record {
  id = id;
  thread_id = thread_id;
  agent_id = agent;
  agent_name = agent;
  role = role;
  status = "active";
  last_read_at = read;
  joined_at = 10;
  left_at = none;
  review_waived_at = none;
  review_waived_by_id = none;
  review_waiver_reason = none;
}

abbrev pub first_message : Message
first_message = record {
  id = "m1";
  thread_id = thread_id;
  parent_id = none;
  seq = 1;
  author_id = "bob";
  author_name = "Bob";
  kind = "comment";
  content = "hello";
  mentions = [];
  attachments = null;
  metadata = null;
  created_at = 40;
  deleted_at = none;
}

abbrev pub forum : Db
forum = record {
  threads = thread ∷ [];
  participants =
      row_of "p1" "alice" "member" none ∷ row_of "p2" "bob" "required_reviewer" (some 20) ∷ [];
  messages = first_message ∷ [];
  outcomes = [];
  principals = [];
  reports = [];
  reactions = [];
  audit_events = [];
  notification_facts = [];
}

-- Nobody else writes, and every commit is accepted.
abbrev pub alone : Env
alone = record { now = λ attempt. 100; others = λ attempt db. db; refuses = λ attempt. none }

abbrev pub alice : User
alice = record {
  id = "alice";
  name = "Alice";
  role = some "agent";
  auth_subject_id = none;
  agent_id = some "alice";
  client_id = none;
  scopes = "forum.read" ∷ "forum.write" ∷ [];
}

abbrev pub moderator : User
moderator = record {
  id = "mo";
  name = "Mo";
  role = some "agent";
  auth_subject_id = none;
  agent_id = some "mo";
  client_id = none;
  scopes = "forum.write" ∷ "forum.moderate" ∷ [];
}

abbrev pub greeting : CreateMessage
greeting = record {
  thread_id = thread_id;
  parent_id = none;
  author_id = "alice";
  author_name = "Alice";
  kind = "comment";
  content = "hi @carol";
  mentions = "carol" ∷ [];
  mention_principals =
      record { agent_id = "carol"; principal_id = "carol"; display_name = none } ∷ [];
  attachments = null;
  metadata = null;
}
