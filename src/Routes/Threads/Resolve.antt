-- ===== src/Routes/Threads/Resolve.antt =====
-- Resolving a thread: the handler, end to end.
use agent_forum.Prelude.{
  ℕ, String, true, false, not, ◌&&◌, ◌||◌, ◌≤◌, ◌≡◌, sym, ap, ◌∙◌, Option, some, List, map, ◌==◌,
  arith, all, filter, ◌⊎◌, inl, inr, Bool-cases, Option-cases,
}
use agent_forum.Http.{ok, http_error, throw_if}
use agent_forum.Store.{Prisma, Db, Env, Thread, tx_retry_limit}
use agent_forum.Store.Io.{check}
use agent_forum.Store.Io.Laws.{and_then-last, check_db-ok}
use agent_forum.Store.Transaction.Laws.{seen}
use agent_forum.Middleware.{User, require_write_scope, require_forum_writer}
use agent_forum.Review.{Readiness, get_thread_review_readiness, find_thread_by_id}
use agent_forum.Review.Laws.{is_pending, readiness_exact}
use agent_forum.Requests.{
  Response, reply, thread_body, pending_body, thread_or_404, found_or-ok, required_text,
}
use agent_forum.Governance.Visibility.{has_governance_authority, assert_ordinary_read_visibility}
use agent_forum.Governance.Lifecycle.{resolve, assert_lifecycle_transition}
use agent_forum.Governance.Lifecycle.Reach.{IsLegal, resolving, transition_iff}
use agent_forum.Governance.Orchestration.{apply_governance_action}
use agent_forum.Governance.Orchestration.Laws.{apply-HasGoverned}
use agent_forum.Routes.Moderation.Lifecycle.{governs}
use agent_forum.Routes.Threads.Written.{HasWrittenOutcome, written}
use agent_forum.Routes.Threads.{ResolveBody, resolve_spec, resolve_tx, finalize, resolve_handler}

resolves : (s t : String) → IsLegal s t resolve → s ≡ "open"
resolves s t (resolving p q) = p

module _ (prisma : Prisma) (env : Env) (user : Option User) (thread_id : String)
    (body : ResolveBody) (db : Db) where
  -- What a resolution that was granted has done.
  pub record HasResolved (caller : User) (thread : Thread) (r : Response) (db' : Db) : Type 0 where
    pub summary : String
    -- No required reviewer is pending.
    pub reviewed : all (λ p. not (is_pending thread_id db p)) db.participants ≡ true
    pub attempt : ℕ
    pub bound : attempt ≤ tx_retry_limit
    pub result : Thread
    pub writes :
        HasWrittenOutcome prisma thread_id body caller thread summary
          (env.now attempt)
          (seen env attempt db)
          db'
    pub response : r ≡ record { status = 200; body = thread_body result }

  -- What a resolution that waits for reviewers answers.
  abbrev pub IsWaiting : Response → Db → Type 0
  IsWaiting r db' =
      (r ≡ record {
        status = 409;
        body =
            pending_body (map (λ p. p.agent_id) (filter (is_pending thread_id db) db.participants));
      })
      × (all (λ p. not (is_pending thread_id db p)) db.participants ≡ false)
      × (db' ≡ db)

  -- What has been checked of a request that is answered, and the two ways it is answered.
  pub record IsAnswered (r : Response) (db' : Db) : Type 0 where
    pub agent : User
    pub caller : User
    pub thread : Thread
    pub writer : require_forum_writer user ≡ ok agent
    pub scoped : require_write_scope user ≡ ok caller
    pub found : thread_or_404 prisma thread_id db ≡ ok thread
    pub authority : (thread.created_by_id == caller.id || governs caller) ≡ true
    pub was_open : thread.status ≡ "open"
    pub done : HasResolved caller thread r db' ⊎ IsWaiting r db'

  readiness_of :
      (thread : Thread)
      → thread_or_404 prisma thread_id db ≡ ok thread
      → (v : Readiness) × (get_thread_review_readiness prisma thread_id db ≡ some v)
  unfolding thread_or_404 get_thread_review_readiness
  readiness_of thread h =
      let found : find_thread_by_id prisma thread_id db ≡ some thread = found_or-ok _ _ thread h in
      elim (Option-cases (get_thread_review_readiness prisma thread_id db)) [
        | inl e ↦ cc (rw (get_thread_review_readiness, found) at e)
        | inr (v, e) ↦ (v, e)
      ]

  pending_or_ready :
      (v : Readiness)
      → get_thread_review_readiness prisma thread_id db ≡ some v
      → (v.pending_reviewer_ids
          ≡ map (λ p. p.agent_id) (filter (is_pending thread_id db) db.participants))
        × (v.ready ≡ all (λ p. not (is_pending thread_id db p)) db.participants)
  pending_or_ready v e = readiness_exact prisma thread_id db v e

  authority_of :
      (caller : User) (thread : Thread) (u : Unit {0}) (e : _)
      → throw_if
          (not (thread.created_by_id == caller.id)
            && not (has_governance_authority (some caller.scopes)))
          e
        ≡ ok u
      → (thread.created_by_id == caller.id || governs caller) ≡ true
  unfolding has_governance_authority
  authority_of caller thread u e h = ground (arith, h)

  abbrev pending_reply : List String → Response
  pending_reply ids = record { status = 409; body = pending_body ids }

  waiting :
      (v : Readiness) (r : Response) (db' : Db) {ids : List String}
      → v.pending_reviewer_ids ≡ ids
      → (check (reply 409 (pending_body v.pending_reviewer_ids))) db ≡ (ok r, db')
      → r ≡ pending_reply ids
  waiting v r db' e h = ground (arith, e, ap (λ p. p.0) h)

  finalize-HasResolved :
      (caller : User) (thread : Thread) (summary : String) (r : Response) (db' : Db)
      → (v : Readiness) → get_thread_review_readiness prisma thread_id db ≡ some v
      → finalize prisma env user thread_id caller thread summary body (some v) db ≡ (ok r, db')
      → HasResolved caller thread r db' ⊎ IsWaiting r db'
  finalize-HasResolved caller thread summary r db' v e h =
      let (ids, ready) = pending_or_ready v e in
      elim (Bool-cases v.ready) [
        | inr waits ↦ inr (
          waiting v r db' ids (rw waits at h),
          sym ready ∙ waits,
          ap (λ p. p.1) (sym (rw waits at h)),
        )
        | inl done ↦
            let ((result, event_id), applied, response) =
              and_then-last
                (apply_governance_action prisma env (resolve_spec caller thread thread_id)
                  (λ now event_id. resolve_tx prisma caller thread summary body now) db)
                (λ result. record { status = 200; body = thread_body result.0 }) (rw done at h) in
            let (k, low, bound, accepted, governed) =
              apply-HasGoverned prisma env (resolve_spec caller thread thread_id)
                (λ now event_id. resolve_tx prisma caller thread summary body now) result event_id
                db db' applied in
            inl (record {
              summary = summary;
              reviewed = sym ready ∙ done;
              attempt = k;
              bound = bound;
              result = result;
              writes =
                  written prisma thread_id body caller thread result summary event_id (env.now k)
                    (seen env k db) db' governed;
              response = response;
            })
      ]

  -- A resolution that is answered without an error was asked for by a writer with the write scope,
  -- for a thread that exists and was open when it was read, by its creator or with a governance
  -- scope. Either no required reviewer was pending, and one attempt has written the outcome, the
  -- status with who resolved it and when, one audit event, a notice of it for each participant who
  -- has not left but the caller, and nothing else; or the answer is 409 with the pending reviewers,
  -- there is one, and nothing is written.
  pub resolve_handler-HasResolved :
      (r : Response) (db' : Db)
      → resolve_handler prisma env user thread_id body db ≡ (ok r, db')
      → IsAnswered r db'
  unfolding resolve_handler
  resolve_handler-HasResolved r db' h =
      let (agent, writer, h1) = check_db-ok (λ _. require_forum_writer user) _ h in
      let (caller, scoped, h2) = check_db-ok (λ _. require_write_scope user) _ h1 in
      let (thread, found, h3) = check_db-ok (thread_or_404 prisma thread_id) _ h2 in
      let (_, _, h4) =
        check_db-ok (λ _. assert_ordinary_read_visibility thread.status (some caller.scopes)) _
          h3 in
      let (u, entitled, h5) =
        check_db-ok
          (λ _.
            throw_if
              (not (thread.created_by_id == caller.id)
                && not (has_governance_authority (some caller.scopes)))
              (http_error 403
                "INSUFFICIENT_SCOPE: only the thread creator or a moderator/admin may resolve this thread"))
          _ h4 in
      let (status, legal, h6) =
        check_db-ok (λ _. assert_lifecycle_transition resolve thread.status) _ h5 in
      let (summary, _, h7) =
        check_db-ok
          (λ _.
            required_text
              (http_error 400 "summaryMd (outcome summary) is required to resolve thread")
              body.summary_md)
          _ h6 in
      let (readiness, looked, h8) =
        check_db-ok (λ db. ok (get_thread_review_readiness prisma thread_id db))
          (finalize prisma env user thread_id caller thread summary body) h7 in
      let (v, ready) = readiness_of thread found in
      let same : readiness ≡ some v = ground (arith, looked, ready) in
      record {
        agent = agent;
        caller = caller;
        thread = thread;
        writer = writer;
        scoped = scoped;
        found = found;
        authority = authority_of caller thread u _ entitled;
        was_open =
            resolves thread.status status ((transition_iff resolve thread.status status).0 legal);
        done = finalize-HasResolved caller thread summary r db' v ready (rw same at h8);
      }
