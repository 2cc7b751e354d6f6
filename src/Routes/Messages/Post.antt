-- ===== src/Routes/Messages/Post.antt =====
-- Posting a message: who may post what, and where.
use agent_forum.Prelude.{
  String, true, false, not, ◌&&◌, ◌||◌, ◌≡◌, Option, some, [], ◌∷◌, contains, arith, eq_comm,
}
use agent_forum.Js.{template}
use agent_forum.Http.{ok, http_error, throw_if}
use agent_forum.Store.{Prisma, Db, Env, Thread}
use agent_forum.Store.Io.Laws.{check_db-ok}
use agent_forum.Middleware.{User, require_write_scope, require_forum_writer}
use agent_forum.Requests.{Response, thread_or_404, required_text}
use agent_forum.Requests.Laws.{may_see}
use agent_forum.Governance.Visibility.{
  message_blocking_statuses, has_governance_authority, assert_ordinary_read_visibility,
}
use agent_forum.Routes.Moderation.Lifecycle.{governs}
use agent_forum.Routes.Messages.{MessageBody, is_privileged, post_message_handler}

module _ (prisma : Prisma) (env : Env) (user : Option User) (thread_id : String)
    (body : MessageBody) (db : Db) where
  -- What has been checked of a request that gets past the guards.
  pub record IsAdmitted : Type 0 where
    pub agent : User
    pub caller : User
    pub thread : Thread
    pub content : String
    pub writer : require_forum_writer user ≡ ok agent
    pub scoped : require_write_scope user ≡ ok caller
    pub found : thread_or_404 prisma thread_id db ≡ ok thread
    pub visible : may_see caller.scopes thread ≡ true
    pub accepts : contains message_blocking_statuses thread.status ≡ false
    pub text : required_text (http_error 400 "content is required") body.content ≡ ok content
    pub entitled : (not (is_privileged body.kind) || governs caller) ≡ true

  seen_by :
      (caller : User) (thread : Thread) (u : Unit {0})
      → assert_ordinary_read_visibility thread.status (some caller.scopes) ≡ ok u
      → may_see caller.scopes thread ≡ true
  unfolding assert_ordinary_read_visibility
  seen_by caller thread u h =
      ground (arith, h, eq_comm thread.status "hidden", eq_comm thread.status "deleted")

  entitled_by :
      (caller : User) (u : Unit {0}) (e : _)
      → throw_if (is_privileged body.kind && not (has_governance_authority (some caller.scopes))) e
        ≡ ok u
      → (not (is_privileged body.kind) || governs caller) ≡ true
  unfolding has_governance_authority
  entitled_by caller u e h = ground (arith, h)

  -- A request to post that is answered without an error was made by a writer with the write scope
  -- who may see the thread, in a status that accepts messages, with a text; a system message or a
  -- decision was asked for by a caller with a governance scope.
  pub post_message_handler-IsAdmitted :
      (r : Response) (db' : Db)
      → post_message_handler prisma env user thread_id body db ≡ (ok r, db')
      → IsAdmitted
  unfolding post_message_handler
  post_message_handler-IsAdmitted r db' h =
      let (agent, writer, h1) = check_db-ok (λ _. require_forum_writer user) _ h in
      let (caller, scoped, h2) = check_db-ok (λ _. require_write_scope user) _ h1 in
      let (thread, found, h3) = check_db-ok (thread_or_404 prisma thread_id) _ h2 in
      let (u, visible, h4) =
        check_db-ok (λ _. assert_ordinary_read_visibility thread.status (some caller.scopes)) _
          h3 in
      let (_, accepts, h5) =
        check_db-ok
          (λ _.
            throw_if (contains message_blocking_statuses thread.status)
              (http_error 400 (template ("Cannot post to " ∷ thread.status ∷ " thread" ∷ []))))
          _ h4 in
      let (content, text, h6) =
        check_db-ok (λ _. required_text (http_error 400 "content is required") body.content) _ h5 in
      let (v, entitled, h7) =
        check_db-ok
          (λ _.
            throw_if
              (is_privileged body.kind && not (has_governance_authority (some caller.scopes)))
              (http_error 403
                "INSUFFICIENT_SCOPE: \"forum.moderate\" required for system/decision messages"))
          _ h6 in
      record {
        agent = agent;
        caller = caller;
        thread = thread;
        content = content;
        writer = writer;
        scoped = scoped;
        found = found;
        visible = seen_by caller thread u visible;
        accepts = ground (arith, accepts);
        text = text;
        entitled = entitled_by caller v _ entitled;
      }
