-- ===== src/Messages/Create.antt =====
-- Posting a message: createMessage.
use agent_forum.Prelude.{
  ℕ, ◌+◌, ◌≤◌, ◌<◌, max, String, true, false, ◌≡◌, ◌∙◌, ap, sym, some, List, [], ◌∷◌, ◌++◌, arith,
  ◌==◌, find, filter, ◌⊎◌, Any, length, map_where, All, All-map, inl, inr, Option-cases,
}
use agent_forum.Http.{ok}
use agent_forum.Store.{Prisma, Db, Thread, Message, is_visible_in}
use agent_forum.Messages.{
  CreateMessage, new_message, in_thread, next_seq, time_or_zero, create_message_tx,
}
use agent_forum.Messages.Written.{post-HasWritten}
use agent_forum.Messages.Kept.{AreKept}
use agent_forum.Messages.Autowatch.{is_watching, BaselinesBefore}

-- What posting a message at time t0 has done.
pub record HasPosted (input : CreateMessage) (t0 : ℕ) (db db' : Db) (m : Message) : Type 0 where
  -- The new message is the last in its thread, and later than all that is known of the thread.
  pub row : m ≡ new_message input m.seq m.created_at m.id
  pub next : All (λ q. in_thread input.thread_id q ≡ true → q.seq < m.seq) db.messages
  -- Its number is the one after another message's, or the first one.
  pub follows :
      (All (λ q. in_thread input.thread_id q ≡ false) db.messages × (m.seq ≡ 1))
      ⊎ Any (λ q. (in_thread input.thread_id q ≡ true) × (m.seq ≡ q.seq + 1)) db.messages
  pub later : t0 < m.created_at
  pub newest :
      (t : Thread) × (find (λ t. t.id == input.thread_id) db.threads ≡ some t)
      × (time_or_zero t.last_message_at < m.created_at)
  pub added : db'.messages ≡ db.messages ++ m ∷ []
  -- The thread counts its visible messages, and knows the last one.
  pub counted :
      db'.threads
      ≡ map_where
          (λ t. t.id == input.thread_id)
          (λ t. record t {
            message_count = length (filter (is_visible_in input.thread_id) db'.messages);
            last_message_at = some m.created_at;
          })
          db.threads
  -- The author and all who are mentioned watch the thread.
  pub author : is_watching input.thread_id input.author_id db'.participants ≡ true
  pub mentioned :
      All
        (λ p. is_watching input.thread_id p.principal_id db'.participants ≡ true)
        input.mention_principals
  -- Rows of participants that were there stay but for coming back to the thread.
  pub rows :
      (joined : ℕ) × (joined < m.created_at)
      × AreKept input.thread_id joined db.participants db'.participants
  pub frame : db' ≡ record db {
    threads = db'.threads;
    participants = db'.participants;
    messages = db'.messages;
  }

all_below_next :
    (prisma : Prisma) (th : String) (ms : List Message)
    → All
        (λ q.
          in_thread th q ≡ true
          → q.seq < next_seq (prisma.find_latest (in_thread th) (λ m. m.seq) ms))
        ms
all_below_next prisma th ms =
    elim (Option-cases (prisma.find_latest (in_thread th) (λ m. m.seq) ms)) [
      | inl e ↦
          All-map {P = λ q. in_thread th q ≡ false} ms (λ q h k. cc)
            (prisma.find_latest_none (in_thread th) (λ m. m.seq) ms e)
      | inr (m, e) ↦ rw e (
          All-map {P = λ q. in_thread th q ≡ true → q.seq ≤ m.seq} ms (λ q h k. omega (arith, h k))
            (prisma.find_latest_some (in_thread th) (λ m. m.seq) ms m e).2)
    ]

Any-map :
    {P Q : Message → Type 0} (ms : List Message) → ((m : Message) → P m → Q m) → Any P ms → Any Q ms
Any-map [] f h = absurd h
Any-map (m ∷ ms) f (inl h) = inl (f m h)
Any-map (m ∷ ms) f (inr h) = inr (Any-map ms f h)

follows_latest :
    (prisma : Prisma) (th : String) (ms : List Message)
    → (All (λ q. in_thread th q ≡ false) ms
        × (next_seq (prisma.find_latest (in_thread th) (λ m. m.seq) ms) ≡ 1))
      ⊎ Any
          (λ q.
            (in_thread th q ≡ true)
            × (next_seq (prisma.find_latest (in_thread th) (λ m. m.seq) ms) ≡ q.seq + 1))
          ms
follows_latest prisma th ms =
    elim (Option-cases (prisma.find_latest (in_thread th) (λ m. m.seq) ms)) [
      | inl e ↦ inl (prisma.find_latest_none (in_thread th) (λ m. m.seq) ms e, rw e (omega arith))
      | inr (m, e) ↦
          let (here, there, _) = prisma.find_latest_some (in_thread th) (λ m. m.seq) ms m e in
          inr (
            Any-map ms
              (λ q same. (
                ap (in_thread th) same ∙ here,
                ap next_seq e ∙ sym (ap (λ (x : Message). x.seq + 1) same),
              ))
              there)
    ]

-- Posting a message in one attempt.
pub create_message_tx-HasPosted :
    (prisma : Prisma) (input : CreateMessage) (t0 : ℕ) (m : Message) (db db' : Db)
    → create_message_tx prisma input t0 db ≡ ok (m, db')
    → HasPosted input t0 db db' m
unfolding create_message_tx
create_message_tx-HasPosted prisma input t0 m db db' h =
    let law = prisma.find_unique_law (λ t. t.id == input.thread_id) db.threads in
    elim (Option-cases (find (λ t. t.id == input.thread_id) db.threads)) [
      | inl missing ↦ cc (rw (law, missing) at h)
      | inr (t, found) ↦
          let last = prisma.find_latest (in_thread input.thread_id) (λ m. m.seq) db.messages in
          let prev = time_or_zero t.last_message_at in
          let w =
            post-HasWritten prisma input t0 prev (next_seq last) m db db' (rw (law, found) at h) in
          let time : m.created_at ≡ max (t0 + 1) (prev + 1) =
            ap (λ (x : Message). x.created_at) w.row in
          let place : m.seq ≡ next_seq last = ap (λ (x : Message). x.seq) w.row in
          record {
            row =
                w.row
                ∙ ap (λ s. new_message input s (max (t0 + 1) (prev + 1)) m.id) (sym place)
                ∙ ap (λ c. new_message input m.seq c m.id) (sym time);
            next = rw place (all_below_next prisma input.thread_id db.messages);
            follows = rw place (follows_latest prisma input.thread_id db.messages);
            later = omega arith;
            newest = (t, found, omega arith);
            added = w.added;
            counted = rw (time, w.added) w.counted;
            author = w.author;
            mentioned = w.mentioned;
            rows = (max t0 prev, omega arith, w.rows);
            frame = w.frame;
          }
    ]

-- If the baseline of every participant, the later one of when he joined and what he has read, lies
-- before a message that is posted, that still holds once it is posted, for the author and those who
-- are mentioned as well.
pub create_message_tx-BaselinesBefore :
    (prisma : Prisma) (input : CreateMessage) (t0 : ℕ) (m : Message) (db db' : Db)
    → create_message_tx prisma input t0 db ≡ ok (m, db')
    → BaselinesBefore m.created_at db.participants
    → BaselinesBefore m.created_at db'.participants
unfolding create_message_tx
create_message_tx-BaselinesBefore prisma input t0 m db db' h before =
    let law = prisma.find_unique_law (λ t. t.id == input.thread_id) db.threads in
    elim (Option-cases (find (λ t. t.id == input.thread_id) db.threads)) [
      | inl missing ↦ cc (rw (law, missing) at h)
      | inr (t, found) ↦
          let last = prisma.find_latest (in_thread input.thread_id) (λ m. m.seq) db.messages in
          let prev = time_or_zero t.last_message_at in
          let w =
            post-HasWritten prisma input t0 prev (next_seq last) m db db' (rw (law, found) at h) in
          let time : m.created_at ≡ max (t0 + 1) (prev + 1) =
            ap (λ (x : Message). x.created_at) w.row in
          w.baseline m.created_at (omega arith) before
    ]
