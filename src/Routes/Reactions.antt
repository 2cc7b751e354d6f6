-- ===== src/Routes/Reactions.antt =====
-- svc-forum/src/routes/reactions.ts: reactions to a message of a thread that the caller may see.
use agent_forum.Prelude.{ℕ, String, Option, List, ◌==◌, map, if◌then◌else◌}
use agent_forum.Js.{Value, str, trim}
use agent_forum.Http.{Result, ok, err}
use agent_forum.Store.{Prisma, Db, Reaction}
use agent_forum.Store.Io.{Io, check, check_db, ◌>>=◌}
use agent_forum.Middleware.{User, require_read_scope, require_write_scope}
use agent_forum.Reactions.{
  ReactionSummary, no_emoji, add_reaction, remove_reaction, get_reactions_for_message,
}
use agent_forum.Requests.{
  Response, reply, reaction_body, summary_body, removed_body, visible_thread,
}

-- `!emoji || typeof emoji !== 'string' || !emoji.trim()`
abbrev pub emoji_given : Value → Result String
emoji_given (str s) = if trim s == "" then err no_emoji else ok s
emoji_given v = err no_emoji

abbrev pub summary_row : ReactionSummary → String × ℕ × List (String × String)
summary_row s = (s.emoji, s.count, s.principals)

module _ (prisma : Prisma) (user : Option User) (thread_id message_id : String) where
  -- GET /api/threads/:threadId/messages/:messageId/reactions
  unfoldable pub get_reactions_handler : (List Reaction → List ReactionSummary) → Io Response
  get_reactions_handler summarize = do
    caller ← check (require_read_scope user)
    _ ← check_db (visible_thread prisma thread_id caller.scopes)
    summary ← check_db (get_reactions_for_message prisma summarize thread_id message_id)
    check (reply 200 (summary_body (map summary_row summary)))

  -- POST /api/threads/:threadId/messages/:messageId/reactions
  unfoldable pub add_reaction_handler : (Db → Db) → ℕ → Value → Io Response
  add_reaction_handler others now given = do
    caller ← check (require_write_scope user)
    emoji ← check (emoji_given given)
    _ ← check_db (visible_thread prisma thread_id caller.scopes)
    reaction ← add_reaction prisma others now (record {
      message_id = message_id;
      thread_id = thread_id;
      principal_id = caller.id;
      principal_name = caller.name;
      emoji = emoji;
    })
    check (reply 201 (reaction_body reaction))

  -- DELETE /api/threads/:threadId/messages/:messageId/reactions
  unfoldable pub remove_reaction_handler : Value → Io Response
  remove_reaction_handler given = do
    caller ← check (require_write_scope user)
    emoji ← check (emoji_given given)
    _ ← check_db (visible_thread prisma thread_id caller.scopes)
    removed ← remove_reaction prisma (record {
      message_id = message_id;
      thread_id = thread_id;
      principal_id = caller.id;
      principal_name = caller.name;
      emoji = emoji;
    })
    check (reply 200 (removed_body removed))
