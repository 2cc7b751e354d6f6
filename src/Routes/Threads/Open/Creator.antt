-- ===== src/Routes/Threads/Open/Creator.antt =====
-- What opening a thread has checked and written.
use agent_forum.Prelude.{
  ℕ, ◌≡◌, sym, ap, ◌∙◌, arith, String, true, Option, some, [], ◌∷◌, ◌++◌, eq_self, any, Bool-cases,
  Option-cases, inl, inr,
}
use agent_forum.Http.{ok, http_error}
use agent_forum.Ids.{is_uuid}
use agent_forum.Store.{Prisma, Db, Thread, Participant}
use agent_forum.Store.Index.{find-any, find-holds, any-last}
use agent_forum.Store.Io.{write}
use agent_forum.Store.Io.Laws.{check_db-ok, >>=-ok, and_then-last, settle-ok}
use agent_forum.Middleware.{User, require_forum_writer, require_write_scope}
use agent_forum.Messages.{is_row_of, create_participant}
use agent_forum.Messages.Rows.{create_participant-ok}
use agent_forum.Requests.{Response, thread_body, required_text}
use agent_forum.Routes.Participants.{find_participant}
use agent_forum.Routes.Threads.Open.Stored.{
  IsNew, opened-IsNew, add_participants-threads, add_creator-threads,
}
use agent_forum.Routes.Threads.Open.{
  OpenBody, thread_row, as_opened, create_thread_row, add_participants, add_creator,
  participant_row, open_handler,
}

module _ (prisma : Prisma) (lower : String → String) (now : ℕ) where
  -- He has a row in the thread.
  abbrev pub TakesPart : User → String → Db → Type 0
  TakesPart user thread_id db = any (is_row_of thread_id user.id) db.participants ≡ true

  found-TakesPart :
      (user : User) (thread_id : String) (p : Participant) (db : Db)
      → find_participant prisma thread_id user.id db ≡ some p
      → TakesPart user thread_id db
  unfolding find_participant
  found-TakesPart user thread_id p db h = elim (Bool-cases (is_uuid thread_id)) [
    | inr e ↦ cc (rw e at h)
    | inl e ↦
        let here =
          sym (prisma.find_unique_law (is_row_of thread_id user.id) db.participants)
          ∙ (rw e at h) in
        find-any (is_row_of thread_id user.id) (is_row_of thread_id user.id) db.participants p here
          (find-holds (is_row_of thread_id user.id) db.participants p here)
  ]

  add_creator-TakesPart :
      (user : User) (thread_id : String) (db db' : Db)
      → add_creator prisma lower now user thread_id db ≡ (ok tt, db')
      → TakesPart user thread_id db'
  unfolding add_creator
  add_creator-TakesPart user thread_id db db' h =
      elim (Option-cases (find_participant prisma thread_id user.id db)) [
        | inr (p, e) ↦
            let same : db ≡ db' = ap (λ q. q.1) (rw (add_creator, e) at h) in
            rw (← same) (found-TakesPart user thread_id p db e)
        | inl e ↦
            let row = participant_row thread_id user.id user.name "creator" "responded" now in
            let (p, made, _) = and_then-last _ (λ p. tt) (rw (add_creator, e) at h) in
            let (is_row, kept) =
              create_participant-ok prisma db db' row p
                (settle-ok db (create_participant prisma row db) made) in
            let own : is_row_of thread_id user.id p ≡ true =
              rw is_row (ground (arith, eq_self thread_id, eq_self user.id)) in
            rw (kept, any-last (is_row_of thread_id user.id) db.participants p)
              (ground (arith, own))
      ]

  -- A thread that has been opened, and its creator.
  pub record HasOpened (user : Option User) (body : OpenBody) (db db' : Db) (r : Response)
      : Type 0 where
    pub agent : User
    pub caller : User
    pub title : String
    pub thread : Thread
    pub writer : require_forum_writer user ≡ ok agent
    pub scoped : require_write_scope user ≡ ok caller
    pub titled : required_text (http_error 400 "title is required") body.title ≡ ok title
    -- The thread is stored, and of the threads nothing else is changed.
    pub fresh : IsNew caller title thread
    pub stored : db'.threads ≡ db.threads ++ thread ∷ []
    pub answer : r.body ≡ thread_body thread
    pub takes_part : TakesPart caller thread.id db'

  -- A request to open a thread that is answered without an error was made by a writer with the write
  -- scope and gives a title. It has added one thread, which is open, has the title and no messages and
  -- is the caller's, and no other thread is changed; when it is answered the caller has a participant's
  -- row in that thread, which is the one of the answer, whoever else was added.
  pub open_handler-HasOpened :
      (user : Option User) (body : OpenBody) (db db' : Db) (r : Response)
      → open_handler prisma lower now user body db ≡ (ok r, db')
      → HasOpened user body db db' r
  unfolding open_handler
  open_handler-HasOpened user body db db' r h =
      let (agent, writer, h1) = check_db-ok (λ _. require_forum_writer user) _ h in
      let (caller, scoped, h2) = check_db-ok (λ _. require_write_scope user) _ h1 in
      let (title, titled, h3) =
        check_db-ok (λ _. required_text (http_error 400 "title is required") body.title) _ h2 in
      let (row, made, h4) = check_db-ok (λ _. thread_row prisma lower now caller title body) _ h3 in
      let (thread, mid, first, h5) =
        >>=-ok (write (λ db. as_opened (create_thread_row prisma lower now row db))) _ h4 in
      let (u, before, second, h6) =
        >>=-ok (add_participants prisma lower now caller thread.id body.participants) _ h5 in
      let (v, last, is_r) =
        and_then-last (add_creator prisma lower now caller thread.id before)
          (λ u. record { status = 201; body = thread_body thread }) h6 in
      let (fresh, stored) =
        opened-IsNew prisma lower now caller title body row thread db mid made first in
      record {
        agent = agent;
        caller = caller;
        title = title;
        thread = thread;
        writer = writer;
        scoped = scoped;
        titled = titled;
        fresh = fresh;
        stored =
            add_creator-threads prisma lower now caller thread.id before db' last
            ∙ add_participants-threads prisma lower now caller thread.id body.participants mid
                before second
            ∙ stored;
        answer = ap (λ q. q.body) is_r;
        takes_part = add_creator-TakesPart caller thread.id before db' last;
      }
