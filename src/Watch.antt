-- ===== src/Watch.antt =====
-- svc-forum/src/lib/data-access/watch.ts: watching a thread, the read cursor, and the rows of
-- participants.
pub mod Cursor
pub mod Monotone
use agent_forum.Prelude.{
  ℕ, ◌+◌, String, Bool, true, false, not, ◌&&◌, Option, none, some, List, [], ◌∷◌, ◌==◌, ltb,
  nat_eq, is_none, if◌then◌else◌,
}
use agent_forum.Http.{Error, db_error, http_error, p2025, Result, ok, err, throw_if}
use agent_forum.Ids.{is_uuid}
use agent_forum.Store.{
  Prisma, Tx, Db, Env, Thread, Participant, Message, is_visible_in, with_transaction_retry, return,
  lift, ask, ◌>>=◌, ◌>>◌,
}
use agent_forum.Store.Io.{Io, check, write, ◌>>=◌ as io_bind}
use agent_forum.Messages.{
  is_row_of, time_or_zero, autowatch_thread, create_participant, update_participant_row,
}
use agent_forum.Requests.{found_or, no_thread}

abbrev pub not_watching : Error
not_watching = http_error 404 "Not watching this thread"

-- The new cursor: the later one of the old cursor and the latest visible message.
abbrev pub read_target : Option ℕ → Option Message → Option ℕ
read_target read none = read
read_target none (some latest) = some latest.created_at
read_target (some read) (some latest) =
    if ltb latest.created_at read then some read else some latest.created_at

-- `!next || next.getTime() === lastReadAt?.getTime()`
abbrev pub is_read : Option ℕ → Option ℕ → Bool
is_read none read = true
is_read (some next) none = false
is_read (some next) (some read) = nat_eq next read

-- `OR: [{ lastReadAt: null }, { lastReadAt: { lt: next } }]`
abbrev pub is_before : ℕ → Option ℕ → Bool
is_before next none = true
is_before next (some read) = ltb read next

abbrev pub is_behind : String → ℕ → Participant → Bool
is_behind id next p = p.id == id && is_before next p.last_read_at

abbrev pub set_cursor : ℕ → Participant → Participant
set_cursor next p = record p { last_read_at = some next }

abbrev pub leave : ℕ → Participant → Participant
leave now p = record p { left_at = some now }

-- `catch (e) { if (e?.code !== 'P2025') throw e; }`
abbrev pub unless_missing : {A : Type 0} → A → Db → Result (A × Db) → Result (A × Db)
unless_missing a db (err (db_error p2025)) = ok (a, db)
unless_missing a db r = r

module _ (prisma : Prisma) (thread_id principal_id : String) where
  abbrev pub own_row : Db → Option Participant
  own_row db = prisma.find_unique (is_row_of thread_id principal_id) db.participants

  abbrev pub latest_visible : Db → Option Message
  latest_visible db = prisma.find_latest (is_visible_in thread_id) (λ m. m.created_at) db.messages

  unfoldable pub watch_thread_tx : String → ℕ → Tx (Option Participant)
  watch_thread_tx agent_name now = do
    found ← ask (λ db. prisma.find_unique (λ t. t.id == thread_id) db.threads)
    thread ← lift (found_or no_thread found)
    autowatch_thread prisma thread_id principal_id agent_name now
        (time_or_zero thread.last_message_at)
    ask own_row

  abbrev pub unwatch_row : ℕ → Participant → Tx Participant
  unwatch_row now participant =
      if not (is_none participant.left_at)
      then return participant
      else (update_participant_row prisma (λ p. p.id == participant.id) (leave now)
          >> return (leave now participant))

  unfoldable pub unwatch_thread_tx : ℕ → Tx Participant
  unwatch_thread_tx now = do
    found ← ask own_row
    participant ← lift (found_or not_watching found)
    unwatch_row now participant

  -- The guarded write of the cursor, and the row as it is answered.
  unfoldable pub advance_cursor : Participant → ℕ → Tx Participant
  advance_cursor participant next db = unless_missing (set_cursor next participant) db (
      (update_participant_row prisma (is_behind participant.id next) (set_cursor next)
          >> return (set_cursor next participant))
        db)

  abbrev pub read_up_to : Participant → Option ℕ → Tx Participant
  read_up_to participant none = return participant
  read_up_to participant (some next) =
      if is_read (some next) participant.last_read_at
      then return participant
      else advance_cursor participant next

  unfoldable pub mark_thread_read_tx : Tx Participant
  mark_thread_read_tx = do
    found ← ask own_row
    participant ← lift (found_or not_watching found)
    latest ← ask latest_visible
    read_up_to participant (read_target participant.last_read_at latest)

  module _ (env : Env) where
    unfoldable pub watch_thread : String → Io (Option Participant)
    watch_thread agent_name =
        io_bind (check (throw_if (not (is_uuid thread_id)) no_thread)) (λ _.
          with_transaction_retry env (λ attempt. watch_thread_tx agent_name (env.now attempt)))

    unfoldable pub unwatch_thread : Io Participant
    unwatch_thread =
        io_bind (check (throw_if (not (is_uuid thread_id)) no_thread))
          (λ _. with_transaction_retry env (λ attempt. unwatch_thread_tx (env.now attempt)))

    unfoldable pub mark_thread_read : Io Participant
    mark_thread_read =
        io_bind (check (throw_if (not (is_uuid thread_id)) no_thread))
          (λ _. with_transaction_retry env (λ attempt. mark_thread_read_tx))

module _ (prisma : Prisma) where
  unfoldable pub write_cursors : String → ℕ → Tx ℕ
  write_cursors id next db =
      elim (prisma.update_many (is_behind id next) (set_cursor next) db.participants) [
        | ok (n, ps) ↦ ok (n, record db { participants = ps })
        | err e ↦ err e
      ]

  -- Between the reads and the write others may commit.
  abbrev pub batch_write : (Db → Db) → Participant → Option ℕ → Io Bool
  batch_write others participant none = check (ok false)
  batch_write others participant (some next) =
      if is_read (some next) participant.last_read_at then check (ok false) else (λ db.
        write
          (λ seen.
            unless_missing false seen
              ((write_cursors participant.id next >>= λ n. return (ltb 0 n)) seen))
          (others db))

  -- What the batch does for one thread: `true` if it has written.
  unfoldable pub batch_one : String → (Db → Db) → String → Io Bool
  batch_one principal_id others thread_id db =
      if not (is_uuid thread_id)
      then (ok false, db)
      else elim (own_row prisma thread_id principal_id db) [
        | none ↦ (ok false, db)
        | some participant ↦
            batch_write others participant
              (read_target participant.last_read_at
                (latest_visible prisma thread_id principal_id db))
              db
      ]

  -- No transaction: what is written before an error stays.
  unfoldable pub batch_from : String → (String → Db → Db) → ℕ → ℕ → List String → Io (ℕ × ℕ)
  batch_from principal_id others updated skipped [] = check (ok (updated, skipped))
  batch_from principal_id others updated skipped (thread_id ∷ rest) =
      io_bind (batch_one principal_id (others thread_id) thread_id) (λ written.
        batch_from principal_id others (if written then updated + 1 else updated)
          (if written then skipped else skipped + 1) rest)

  unfoldable pub batch_mark_read : String → (String → Db → Db) → List String → Io (ℕ × ℕ)
  unfolding batch_from
  batch_mark_read principal_id others thread_ids = batch_from principal_id others 0 0 thread_ids
