-- ===== src/Routes/Watch.antt =====
-- svc-forum/src/routes/threads.ts: watching a thread, and marking threads as read.
use agent_forum.Prelude.{String, Option, List, [], ◌∷◌, map, length, ltb}
use agent_forum.Js.{Value, arr, items}
use agent_forum.Http.{http_error, Result, ok, err, throw_if}
use agent_forum.Store.{Prisma, Db, Env}
use agent_forum.Store.Io.{Io, check, check_db, ◌>>=◌, ◌>>◌}
use agent_forum.Middleware.{User, require_write_scope}
use agent_forum.Watch.{watch_thread, unwatch_thread, mark_thread_read, batch_mark_read}
use agent_forum.Requests.{
  Response, reply, participant_body, watch_body, counts_body, visible_thread, text_or_empty,
}

abbrev non_empty_batch : List Value → Result (List Value)
non_empty_batch [] = err (http_error 400 "threadIds must be a non-empty array")
non_empty_batch (v ∷ vs) = ok (v ∷ vs)

-- `!Array.isArray(v) || v.length === 0`
abbrev batch_ids : Value → Result (List Value)
batch_ids (arr vs) = non_empty_batch (items vs)
batch_ids v = err (http_error 400 "threadIds must be a non-empty array")

module _ (prisma : Prisma) (user : Option User) where
  -- POST /api/threads/batch-read
  unfoldable pub batch_read_handler : (String → Db → Db) → Value → Io Response
  batch_read_handler others thread_ids = do
    caller ← check (require_write_scope user)
    ids ← check (batch_ids thread_ids)
    check (
        throw_if (ltb 50 (length ids))
          (http_error 400 "threadIds must not exceed 50 items per batch"))
    counts ← batch_mark_read prisma caller.id others (map text_or_empty ids)
    check (reply 200 (counts_body counts.0 counts.1))

  module _ (env : Env) (thread_id : String) where
    -- PUT /api/threads/:threadId/watch
    unfoldable pub watch_handler : Io Response
    watch_handler = do
      caller ← check (require_write_scope user)
      _ ← check_db (visible_thread prisma thread_id caller.scopes)
      participant ← watch_thread prisma thread_id caller.id env caller.name
      check (reply 200 (watch_body participant))

    -- DELETE /api/threads/:threadId/watch
    unfoldable pub unwatch_handler : Io Response
    unwatch_handler = do
      caller ← check (require_write_scope user)
      _ ← check_db (visible_thread prisma thread_id caller.scopes)
      participant ← unwatch_thread prisma thread_id caller.id env
      check (reply 200 (participant_body participant))

    -- PUT /api/threads/:threadId/read
    unfoldable pub read_handler : Io Response
    read_handler = do
      caller ← check (require_write_scope user)
      _ ← check_db (visible_thread prisma thread_id caller.scopes)
      participant ← mark_thread_read prisma thread_id caller.id env
      check (reply 200 (participant_body participant))
