-- ===== src/Routes/Participants/Update.antt =====
-- Changing a participant: who may, and what is written.
use agent_forum.Prelude.{
  ℕ, String, true, not, ◌&&◌, ◌||◌, ◌≡◌, sym, ap, ◌∙◌, Option-cases, Option, some, ◌==◌, find,
  map_where, arith, eq_iff, inl, inr,
}
use agent_forum.Js.{Value, is_given}
use agent_forum.Http.{Result, ok, err, http_error, throw_if}
use agent_forum.Store.{Prisma, Db, Thread, Participant}
use agent_forum.Store.Io.{write, settle}
use agent_forum.Store.Io.Laws.{check_db-ok, and_then-last}
use agent_forum.Middleware.{User, require_write_scope, require_forum_writer}
use agent_forum.Messages.{update_participant_row}
use agent_forum.Messages.Rows.{update_participant_row-ok}
use agent_forum.Requests.{Response, participant_body, visible_thread}
use agent_forum.Routes.Participants.{
  apply_change, can_manage_participants, is_one_of, assert_participant_enum, participant_in_thread,
  parsed_date, update_participant_handler,
}
use agent_forum.Governance.Visibility.{participant_roles, participant_statuses}

write-ok :
    (db db' : Db) (r : Result (Participant × Db)) (p : Participant)
    → settle db r ≡ (ok p, db')
    → r ≡ ok (p, db')
write-ok db db' (ok (q, w)) p h = ground (arith, h)
write-ok db db' (err e) p h = cc

module _ (prisma : Prisma) (user : Option User) (thread_id : String) (now : ℕ)
    (parse_date : Value → Option ℕ) (id : String) (role status last_read_at : Value) (db : Db) where
  -- What a change that was granted has checked and done.
  pub record HasChanged (r : Response) (db' : Db) : Type 0 where
    pub agent : User
    pub caller : User
    pub thread : Thread
    pub existing : Participant
    pub changed : Participant
    pub writer : require_forum_writer user ≡ ok agent
    pub scoped : require_write_scope user ≡ ok caller
    pub visible : visible_thread prisma thread_id caller.scopes db ≡ ok thread
    pub found : find (λ p. p.id == id) db.participants ≡ some existing
    pub inside : existing.thread_id ≡ thread_id
    pub known_role : (not (is_given role) || is_one_of participant_roles role) ≡ true
    pub known_status : (not (is_given status) || is_one_of participant_statuses status) ≡ true
    pub managed :
        (not (is_given role || is_given status) || can_manage_participants thread caller) ≡ true
    pub own : (not (is_given last_read_at) || existing.agent_id == caller.id) ≡ true
    pub at : Option ℕ
    pub parsed : parsed_date prisma user thread_id now parse_date last_read_at ≡ ok at
    pub result :
        changed ≡ apply_change (record { role = role; status = status; last_read_at = at }) existing
    pub stored : db' ≡ record db {
      participants =
          map_where
            (λ p. p.id == id)
            (apply_change (record { role = role; status = status; last_read_at = at }))
            db.participants;
    }
    pub response : r ≡ record { status = 200; body = participant_body changed }

  participant_in_thread-ok :
      (p : Participant)
      → participant_in_thread prisma thread_id id db ≡ ok p
      → (find (λ p. p.id == id) db.participants ≡ some p) × (p.thread_id ≡ thread_id)
  unfolding participant_in_thread
  participant_in_thread-ok p h =
      elim (Option-cases (prisma.find_unique (λ p. p.id == id) db.participants)) [
        | inl e ↦ cc (rw (participant_in_thread, e) at h)
        | inr (q, e) ↦
            let found = sym (prisma.find_unique_law (λ p. p.id == id) db.participants) ∙ e in
            let same : (q ≡ p) × (q.thread_id ≡ thread_id) =
              ground (arith, h, e, eq_iff q.thread_id thread_id) in
            (found ∙ ap some same.0, ap (λ (p : Participant). p.thread_id) (sym same.0) ∙ same.1)
      ]

  enum :
      (u : Unit {0})
      → assert_participant_enum role status ≡ ok u
      → ((not (is_given role) || is_one_of participant_roles role) ≡ true)
        × ((not (is_given status) || is_one_of participant_statuses status) ≡ true)
  unfolding assert_participant_enum
  enum u h = ground (arith, h)

  -- A change of a participant that is answered without an error was asked for by a writer with
  -- the write scope who may see the thread, for a row of that thread. A new role or status is one of the closed set, and
  -- only the thread's creator or somebody with a governance scope gives one; only the participant
  -- himself moves the read cursor. The fields that are given are written, and nothing else.
  pub update_participant_handler-HasChanged :
      (r : Response) (db' : Db)
      → update_participant_handler prisma user thread_id now parse_date id role status last_read_at
          db
        ≡ (ok r, db')
      → HasChanged r db'
  unfolding update_participant_handler
  update_participant_handler-HasChanged r db' h =
      let (agent, writer, h1) = check_db-ok (λ _. require_forum_writer user) _ h in
      let (caller, scoped, h2) = check_db-ok (λ _. require_write_scope user) _ h1 in
      let (thread, visible, h3) =
        check_db-ok (visible_thread prisma thread_id caller.scopes) _ h2 in
      let (existing, located, h4) = check_db-ok (participant_in_thread prisma thread_id id) _ h3 in
      let (u, closed, h5) = check_db-ok (λ _. assert_participant_enum role status) _ h4 in
      let (_, managed, h6) =
        check_db-ok
          (λ _.
            throw_if
              ((is_given role || is_given status) && not (can_manage_participants thread caller))
              (http_error 403
                "Only the thread creator or a moderator/admin may change participant roles"))
          _ h5 in
      let (_, own, h7) =
        check_db-ok
          (λ _.
            throw_if (is_given last_read_at && not (existing.agent_id == caller.id))
              (http_error 403 "lastReadAt is self-service only"))
          _ h6 in
      let (at, parsed, h8) =
        check_db-ok (λ _. parsed_date prisma user thread_id now parse_date last_read_at) _ h7 in
      let change = apply_change (record { role = role; status = status; last_read_at = at }) in
      let (changed, written, response) =
        and_then-last (write (update_participant_row prisma (λ p. p.id == id) change) db)
          (λ p. record { status = 200; body = participant_body p }) h8 in
      let (old, row, result, stored) =
        update_participant_row-ok prisma db db' (λ p. p.id == id) change changed
          (write-ok db db' (update_participant_row prisma (λ p. p.id == id) change db) changed
            written) in
      let (found, inside) = participant_in_thread-ok existing located in
      let same : old ≡ existing = ground (arith, row, found) in
      record {
        agent = agent;
        caller = caller;
        thread = thread;
        existing = existing;
        changed = changed;
        writer = writer;
        scoped = scoped;
        visible = visible;
        found = found;
        inside = inside;
        known_role = (enum u closed).0;
        known_status = (enum u closed).1;
        managed = ground (arith, managed);
        own = ground (arith, own);
        at = at;
        parsed = parsed;
        result = result ∙ ap change same;
        stored = stored;
        response = response;
      }
