-- ===== src/Messages.antt =====
-- svc-forum/src/lib/data-access/messages.ts: messages, and watching a thread on the way.
pub mod Rows
pub mod Kept
pub mod Autowatch
pub mod Written
pub mod Create
pub mod Counted
pub mod Live
use agent_forum.Prelude.{
  ℕ, ◌+◌, max, String, Bool, true, false, not, ◌&&◌, Option, none, some, List, [], ◌∷◌, ◌==◌,
  is_none, or_else, if◌then◌else◌,
}
use agent_forum.Js.{Value, undefined, null}
use agent_forum.Http.{Result, ok, err, http_error}
use agent_forum.Store.{
  Prisma, Tx, Db, Thread, Participant, Message, Env, no_index, same_participant, is_visible_in,
  with_transaction_retry, return, lift, ask, ◌>>=◌, ◌>>◌,
}

pub record MentionPrincipal : Type 0 where
  pub agent_id : String
  pub principal_id : String
  pub display_name : Option String

pub record CreateMessage : Type 0 where
  pub thread_id : String
  pub parent_id : Option String
  pub author_id : String
  pub author_name : String
  pub kind : String
  pub content : String
  pub mentions : List String
  pub mention_principals : List MentionPrincipal
  pub attachments : Value
  pub metadata : Value

-- `v ?? Prisma.JsonNull`
abbrev json_or_null : Value → Value
json_or_null undefined = null
json_or_null v = v

-- `a || b` on an optional text
abbrev pub text_or : Option String → String → String
text_or none d = d
text_or (some s) d = if s == "" then d else s

-- The row of somebody in a thread.
abbrev pub is_row_of : String → String → Participant → Bool
is_row_of thread_id agent_id p = p.thread_id == thread_id && p.agent_id == agent_id

abbrev pub watcher : String → String → String → ℕ → String → Participant
watcher thread_id principal_id agent_name joined id = record {
  id = id;
  thread_id = thread_id;
  agent_id = principal_id;
  agent_name = agent_name;
  role = "member";
  status = "active";
  last_read_at = none;
  joined_at = joined;
  left_at = none;
  review_waived_at = none;
  review_waived_by_id = none;
  review_waiver_reason = none;
}

abbrev pub rejoin : ℕ → Participant → Participant
rejoin joined p = record p { left_at = none; joined_at = joined }

-- `orderBy: { createdAt: 'desc' }` over the visible messages of a thread.
abbrev pub time_or_zero : Option ℕ → ℕ
time_or_zero t = or_else t 0

abbrev pub new_message : CreateMessage → ℕ → ℕ → String → Message
new_message input seq t1 id = record {
  id = id;
  thread_id = input.thread_id;
  parent_id = input.parent_id;
  seq = seq;
  author_id = input.author_id;
  author_name = input.author_name;
  kind = input.kind;
  content = input.content;
  mentions = input.mentions;
  attachments = json_or_null input.attachments;
  metadata = json_or_null input.metadata;
  created_at = t1;
  deleted_at = none;
}

abbrev pub in_thread : String → Message → Bool
in_thread thread_id m = m.thread_id == thread_id

abbrev pub next_seq : Option Message → ℕ
next_seq none = 0 + 1
next_seq (some m) = m.seq + 1

module _ (prisma : Prisma) where
  -- What each write of one table does to the database.
  unfoldable pub create_participant : (String → Participant) → Tx Participant
  create_participant row db = elim (prisma.create same_participant row db.participants) [
    | ok (p, ps) ↦ ok (p, record db { participants = ps })
    | err e ↦ err e
  ]

  unfoldable pub update_participant_row :
      (Participant → Bool) → (Participant → Participant) → Tx Participant
  update_participant_row which change db = elim (prisma.update which change db.participants) [
    | ok (p, ps) ↦ ok (p, record db { participants = ps })
    | err e ↦ err e
  ]

  unfoldable pub create_message_row : (String → Message) → Tx Message
  create_message_row row db = elim (prisma.create no_index row db.messages) [
    | ok (m, ms) ↦ ok (m, record db { messages = ms })
    | err e ↦ err e
  ]

  unfoldable pub update_message_row : (Message → Bool) → (Message → Message) → Tx Message
  update_message_row which change db = elim (prisma.update which change db.messages) [
    | ok (m, ms) ↦ ok (m, record db { messages = ms })
    | err e ↦ err e
  ]

  unfoldable pub update_thread_row : (Thread → Bool) → (Thread → Thread) → Tx Thread
  update_thread_row which change db = elim (prisma.update which change db.threads) [
    | ok (t, ts) ↦ ok (t, record db { threads = ts })
    | err e ↦ err e
  ]

  abbrev watch_existing : ℕ → Option Participant → Tx (Unit {0}) → Tx (Unit {0})
  watch_existing joined none create = create
  watch_existing joined (some existing) create =
      if is_none existing.left_at
      then return tt
      else (update_participant_row (λ p. p.id == existing.id) (rejoin joined) >>= λ _. return tt)

  -- joinedAt = max(t0, prevLastMessageAtMs)
  unfoldable pub autowatch_thread : String → String → String → ℕ → ℕ → Tx (Unit {0})
  autowatch_thread thread_id principal_id agent_name t0 prev_last db =
      watch_existing (max t0 prev_last)
        (prisma.find_unique (is_row_of thread_id principal_id) db.participants)
        (create_participant (watcher thread_id principal_id agent_name (max t0 prev_last)) >>= λ _.
          return tt)
        db

  unfoldable pub watch_mentioned : String → ℕ → ℕ → List MentionPrincipal → Tx (Unit {0})
  watch_mentioned thread_id t0 prev_last [] = return tt
  watch_mentioned thread_id t0 prev_last (m ∷ ms) =
      autowatch_thread thread_id m.principal_id (text_or m.display_name m.agent_id) t0 prev_last
      >> watch_mentioned thread_id t0 prev_last ms

  abbrev found_or_404 : Option Thread → Result Thread
  found_or_404 none = err (http_error 404 "Thread not found")
  found_or_404 (some t) = ok t

  -- The thread counts its visible messages, and its last activity is the new message's time.
  unfoldable pub advance_thread : String → ℕ → Tx Thread
  advance_thread thread_id t1 db =
      let visible = prisma.count (is_visible_in thread_id) db.messages in
      update_thread_row (λ t. t.id == thread_id)
        (λ t. record t { message_count = visible; last_message_at = some t1 }) db

  -- The author watches, then all who are mentioned.
  unfoldable pub watch_all : CreateMessage → ℕ → ℕ → Message → Tx Message
  watch_all input t0 prev message = do
    autowatch_thread input.thread_id input.author_id input.author_name t0 prev
    watch_mentioned input.thread_id t0 prev input.mention_principals
    return message

  unfoldable pub post : CreateMessage → ℕ → ℕ → ℕ → Tx Message
  post input t0 prev seq = do
    let t1 = max (t0 + 1) (prev + 1)
    message ← create_message_row (new_message input seq t1)
    advance_thread input.thread_id t1
    watch_all input t0 prev message

  -- The transaction of one attempt, at time t0.
  unfoldable pub create_message_tx : CreateMessage → ℕ → Tx Message
  create_message_tx input t0 = do
    found ← ask (λ db. prisma.find_unique (λ t. t.id == input.thread_id) db.threads)
    thread ← lift (found_or_404 found)
    last ← ask (λ db. prisma.find_latest (in_thread input.thread_id) (λ m. m.seq) db.messages)
    post input t0 (time_or_zero thread.last_message_at) (next_seq last)

  unfoldable pub create_message : Env → CreateMessage → Db → Result Message × Db
  create_message env input =
      with_transaction_retry env (λ attempt. create_message_tx input (env.now attempt))

  abbrev created_at_of : Option Message → Option ℕ
  created_at_of none = none
  created_at_of (some m) = some m.created_at

  -- The derived fields of a thread, from its visible messages.
  unfoldable pub repair_thread_message_derived_state : String → Tx Thread
  repair_thread_message_derived_state thread_id db =
      let visible = prisma.count (is_visible_in thread_id) db.messages in
      let latest = prisma.find_latest (is_visible_in thread_id) (λ m. m.created_at) db.messages in
      update_thread_row (λ t. t.id == thread_id)
        (λ t. record t { message_count = visible; last_message_at = created_at_of latest }) db
