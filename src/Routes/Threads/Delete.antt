-- ===== src/Routes/Threads/Delete.antt =====
-- Deleting a thread: the handler, end to end.
use agent_forum.Prelude.{ℕ, String, true, ◌≤◌, ◌≡◌, refl, Option, some, ◌==◌}
use agent_forum.Js.{Value, trimmed_text}
use agent_forum.Http.{ok, http_error}
use agent_forum.Store.{Prisma, Db, Env, Thread, tx_retry_limit}
use agent_forum.Store.Io.Laws.{
  and_then-last, check_db-ok, Spares, check_db-Spares, transaction-Spares,
}
use agent_forum.Store.Transaction.Laws.{seen}
use agent_forum.Middleware.{User, require_governance_scopes, require_write_scope}
use agent_forum.Messages.{update_thread_row}
use agent_forum.Requests.{Response, thread_body, thread_or_404, found_or, found_or-ok}
use agent_forum.Governance.Lifecycle.{soft_delete, assert_lifecycle_transition}
use agent_forum.Governance.Lifecycle.Reach.{IsLegal, deleting, transition_iff}
use agent_forum.Governance.Orchestration.{apply_governance_action, governance_tx}
use agent_forum.Governance.Orchestration.Laws.{apply-HasGoverned}
use agent_forum.Governance.Orchestration.Threads.{HasUpdatedThread, update_governed}
use agent_forum.Routes.Moderation.{set_status}
use agent_forum.Routes.Moderation.Lifecycle.{governs, require_governance_scopes-ok}
use agent_forum.Routes.Threads.{delete_spec, delete_handler}

deletes : (s t : String) → IsLegal s t soft_delete → IsLegal s "deleted" soft_delete
deletes s t (deleting p q) = deleting p refl

module _ (prisma : Prisma) (env : Env) (user : Option User) (thread_id : String) (given : Value)
    (db : Db) where
  -- What a deletion that was granted has done.
  pub record HasDeleted (r : Response) (db' : Db) : Type 0 where
    pub moderator : User
    pub caller : User
    pub thread : Thread
    pub why : String
    pub signed_in : user ≡ some moderator
    pub authority : governs moderator ≡ true
    pub writer : require_write_scope user ≡ ok caller
    pub found : thread_or_404 prisma thread_id db ≡ ok thread
    pub reason : trimmed_text given ≡ some why
    pub legal : IsLegal thread.status "deleted" soft_delete
    pub attempt : ℕ
    pub bound : attempt ≤ tx_retry_limit
    pub result : Thread
    pub event_id : String
    pub updated :
        HasUpdatedThread
          (delete_spec caller thread thread_id why)
          thread_id
          (set_status "deleted")
          result
          event_id
          (seen env attempt db)
          db'
    pub response : r ≡ record { status = 200; body = thread_body result }

  -- A deletion that is answered without an error was asked for by a caller with a governance scope
  -- and the write scope, with a reason, for a thread that exists and was not deleted when it was
  -- read. It has set the thread's status to `deleted`, added one audit event and sent the notices,
  -- and nothing else: no row is removed.
  pub delete_handler-HasDeleted :
      (r : Response) (db' : Db)
      → delete_handler prisma env user thread_id given db ≡ (ok r, db')
      → HasDeleted r db'
  unfolding delete_handler
  delete_handler-HasDeleted r db' h =
      let (moderator, granted, h1) = check_db-ok (λ _. require_governance_scopes user) _ h in
      let (signed_in, authority) = require_governance_scopes-ok user moderator granted in
      let (caller, writer, h2) = check_db-ok (λ _. require_write_scope user) _ h1 in
      let (thread, found, h3) = check_db-ok (thread_or_404 prisma thread_id) _ h2 in
      let (why, reason, h4) =
        check_db-ok
          (λ _.
            found_or (http_error 400 "reason is required to delete a thread") (trimmed_text given))
          _ h3 in
      let (status, legal, h5) =
        check_db-ok (λ _. assert_lifecycle_transition soft_delete thread.status) _ h4 in
      let ((result, event_id), done, response) =
        and_then-last
          (apply_governance_action prisma env (delete_spec caller thread thread_id why)
            (λ now event_id.
              update_thread_row prisma (λ t. t.id == thread_id) (set_status "deleted"))
            db)
          (λ result. record { status = 200; body = thread_body result.0 }) h5 in
      let (k, low, bound, accepted, governed) =
        apply-HasGoverned prisma env (delete_spec caller thread thread_id why)
          (λ now event_id. update_thread_row prisma (λ t. t.id == thread_id) (set_status "deleted"))
          result event_id db db' done in
      record {
        moderator = moderator;
        caller = caller;
        thread = thread;
        why = why;
        signed_in = signed_in;
        authority = authority;
        writer = writer;
        found = found;
        reason = found_or-ok _ (trimmed_text given) why reason;
        legal =
            deletes thread.status status
              ((transition_iff soft_delete thread.status status).0 legal);
        attempt = k;
        bound = bound;
        result = result;
        event_id = event_id;
        updated =
            update_governed prisma _ thread_id (set_status "deleted") result event_id
              (seen env k db) db' governed;
        response = response;
      }

  -- A deletion that ends in an error has written nothing.
  pub delete_handler-Spares : Spares env db (delete_handler prisma env user thread_id given db)
  unfolding delete_handler apply_governance_action
  delete_handler-Spares =
      check_db-Spares env db (λ _. require_governance_scopes user) _
        (λ _ _.
          check_db-Spares env db (λ _. require_write_scope user) _
            (λ caller _. check_db-Spares env db (thread_or_404 prisma thread_id) _ (λ thread _.
              check_db-Spares env db
                (λ _.
                  found_or (http_error 400 "reason is required to delete a thread")
                    (trimmed_text given))
                _
                (λ why _.
                  check_db-Spares env db
                    (λ _. assert_lifecycle_transition soft_delete thread.status) _
                    (λ status _.
                      transaction-Spares env db
                        (λ attempt.
                          governance_tx prisma (env.now attempt)
                            (delete_spec caller thread thread_id why)
                            (λ event_id.
                              update_thread_row prisma (λ t. t.id == thread_id)
                                (set_status "deleted")))
                        (λ result. record { status = 200; body = thread_body result.0 }))))))
