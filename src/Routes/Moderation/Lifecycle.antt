-- ===== src/Routes/Moderation/Lifecycle.antt =====
-- Closing, archiving, hiding and restoring a thread: the handler, end to end.
use agent_forum.Prelude.{
  ℕ, String, Bool, true, false, ◌&&◌, ◌≤◌, ◌≡◌, Option, none, some, ◌==◌, arith, is_none, contains,
  any,
}
use agent_forum.Js.{Value, trimmed_text}
use agent_forum.Http.{ok, http_error, throw_if}
use agent_forum.Store.{Prisma, Db, Env, Thread, tx_retry_limit}
use agent_forum.Store.Io.Laws.{
  and_then-last, check_db-ok, Spares, check_db-Spares, transaction-Spares,
}
use agent_forum.Store.Transaction.Laws.{seen}
use agent_forum.Middleware.{User, require_governance_scopes}
use agent_forum.Messages.{update_thread_row}
use agent_forum.Requests.{Response, thread_body, thread_or_404}
use agent_forum.Governance.Visibility.{governance_scope_names}
use agent_forum.Governance.Lifecycle.{Action, assert_lifecycle_transition}
use agent_forum.Governance.Lifecycle.Reach.{IsLegal, transition_iff}
use agent_forum.Governance.Orchestration.{apply_governance_action, governance_tx}
use agent_forum.Governance.Orchestration.Laws.{apply-HasGoverned}
use agent_forum.Governance.Orchestration.Threads.{HasUpdatedThread, update_governed}
use agent_forum.Routes.Moderation.{lifecycle_spec, set_status, is_hide, lifecycle_handler}

-- The caller has one of the governance scopes.
abbrev pub governs : User → Bool
governs user = any (contains user.scopes) governance_scope_names

pub require_governance_scopes-ok :
    (user : Option User) (caller : User)
    → require_governance_scopes user ≡ ok caller
    → (user ≡ some caller) × (governs caller ≡ true)
unfolding require_governance_scopes
require_governance_scopes-ok none caller h = cc
require_governance_scopes-ok (some u) caller h = ground arith

module _ (prisma : Prisma) (env : Env) (user : Option User) (thread_id : String) (given : Value)
    (action : Action) (db : Db) where
  -- What a request that was granted has done.
  pub record HasTransitioned (r : Response) (db' : Db) : Type 0 where
    pub caller : User
    pub thread : Thread
    pub status : String
    pub signed_in : user ≡ some caller
    pub authority : governs caller ≡ true
    pub found : thread_or_404 prisma thread_id db ≡ ok thread
    pub reason : (is_hide action && is_none (trimmed_text given)) ≡ false
    pub legal : IsLegal thread.status status action
    pub attempt : ℕ
    pub bound : attempt ≤ tx_retry_limit
    pub result : Thread
    pub event_id : String
    pub updated :
        HasUpdatedThread
          (lifecycle_spec caller thread thread_id action (trimmed_text given) status)
          thread_id
          (set_status status)
          result
          event_id
          (seen env attempt db)
          db'
    pub response : r ≡ record { status = 200; body = thread_body result }

  -- A lifecycle request that is answered without an error was made by a caller with a governance
  -- scope, for a thread that exists, with a reason if it hides, and the change of status was
  -- legal for the status that was read. It has set the status of that thread, added one audit
  -- event and sent the notices, on the database as one attempt saw it, and nothing else.
  pub lifecycle_handler-HasTransitioned :
      (r : Response) (db' : Db)
      → lifecycle_handler prisma env user thread_id given action db ≡ (ok r, db')
      → HasTransitioned r db'
  unfolding lifecycle_handler
  lifecycle_handler-HasTransitioned r db' h =
      let (caller, granted, h1) = check_db-ok (λ _. require_governance_scopes user) _ h in
      let (signed_in, authority) = require_governance_scopes-ok user caller granted in
      let (thread, found, h2) = check_db-ok (thread_or_404 prisma thread_id) _ h1 in
      let (_, reason, h3) =
        check_db-ok
          (λ _.
            throw_if (is_hide action && is_none (trimmed_text given))
              (http_error 400 "reason is required to hide a thread"))
          _ h2 in
      let (status, legal, h4) =
        check_db-ok (λ _. assert_lifecycle_transition action thread.status) _ h3 in
      let ((result, event_id), done, response) =
        and_then-last
          (apply_governance_action prisma env
            (lifecycle_spec caller thread thread_id action (trimmed_text given) status)
            (λ now event_id. update_thread_row prisma (λ t. t.id == thread_id) (set_status status))
            db)
          (λ result. record { status = 200; body = thread_body result.0 }) h4 in
      let (k, low, bound, accepted, governed) =
        apply-HasGoverned prisma env
          (lifecycle_spec caller thread thread_id action (trimmed_text given) status)
          (λ now event_id. update_thread_row prisma (λ t. t.id == thread_id) (set_status status))
          result event_id db db' done in
      record {
        caller = caller;
        thread = thread;
        status = status;
        signed_in = signed_in;
        authority = authority;
        found = found;
        reason = ground (arith, reason);
        legal = (transition_iff action thread.status status).0 legal;
        attempt = k;
        bound = bound;
        result = result;
        event_id = event_id;
        updated =
            update_governed prisma _ thread_id (set_status status) result event_id (seen env k db)
              db' governed;
        response = response;
      }

  -- A lifecycle request that ends in an error has written nothing.
  pub lifecycle_handler-Spares :
      Spares env db (lifecycle_handler prisma env user thread_id given action db)
  unfolding lifecycle_handler apply_governance_action
  lifecycle_handler-Spares =
      check_db-Spares env db (λ _. require_governance_scopes user) _
        (λ caller _. check_db-Spares env db (thread_or_404 prisma thread_id) _ (λ thread _.
          check_db-Spares env db
            (λ _.
              throw_if (is_hide action && is_none (trimmed_text given))
                (http_error 400 "reason is required to hide a thread"))
            _
            (λ _ _.
              check_db-Spares env db (λ _. assert_lifecycle_transition action thread.status) _
                (λ status _.
                  transaction-Spares env db
                    (λ attempt.
                      governance_tx prisma (env.now attempt)
                        (lifecycle_spec caller thread thread_id action (trimmed_text given) status)
                        (λ event_id.
                          update_thread_row prisma (λ t. t.id == thread_id) (set_status status)))
                    (λ result. record { status = 200; body = thread_body result.0 })))))
