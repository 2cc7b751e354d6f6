-- ===== src/Messages/Written.antt =====
-- What posting a message writes once its thread is found: post and watchAll's parts.
use agent_forum.Prelude.{
  ℕ, ◌+◌, ◌<◌, max, true, ◌≡◌, refl, ◌∙◌, ap, sym, subst, some, [], ◌∷◌, ◌++◌, arith, ◌==◌, filter,
  length, map_where, All,
}
use agent_forum.Http.{ok}
use agent_forum.Store.{Prisma, Db, Thread, Message, is_visible_in, return, ◌>>◌}
use agent_forum.Store.Transaction.Laws.{>>=-ok}
use agent_forum.Messages.{
  CreateMessage, new_message, create_message_row, autowatch_thread, watch_mentioned, watch_all,
  advance_thread, post,
}
use agent_forum.Messages.Rows.{create_message_row-ok, update_thread_row-ok}
use agent_forum.Messages.Kept.{AreKept, AreKept-trans}
use agent_forum.Messages.Autowatch.{
  is_watching, BaselinesBefore, HasWatched, HaveWatched, autowatch_thread-HasWatched,
  watch_mentioned-HaveWatched,
}

module _ (prisma : Prisma) (input : CreateMessage) (t0 prev seq : ℕ) where
  abbrev written : Db → Message → Db
  written db m = record db {
    messages = db.messages ++ m ∷ [];
    threads =
        map_where (λ t. t.id == input.thread_id)
          (λ t. record t {
            message_count = length (filter (is_visible_in input.thread_id) (db.messages ++ m ∷ []));
            last_message_at = some (max (t0 + 1) (prev + 1));
          })
          db.threads;
  }

  -- What is written once the thread is found.
  pub record HasWritten (db db' : Db) (m : Message) : Type 0 where
    pub row : m ≡ new_message input seq (max (t0 + 1) (prev + 1)) m.id
    pub added : db'.messages ≡ db.messages ++ m ∷ []
    pub counted :
        db'.threads
        ≡ map_where
            (λ t. t.id == input.thread_id)
            (λ t. record t {
              message_count =
                  length (filter (is_visible_in input.thread_id) (db.messages ++ m ∷ []));
              last_message_at = some (max (t0 + 1) (prev + 1));
            })
            db.threads
    pub author : is_watching input.thread_id input.author_id db'.participants ≡ true
    pub mentioned :
        All
          (λ p. is_watching input.thread_id p.principal_id db'.participants ≡ true)
          input.mention_principals
    pub rows : AreKept input.thread_id (max t0 prev) db.participants db'.participants
    pub baseline :
        (t : ℕ)
        → max t0 prev < t
        → BaselinesBefore t db.participants
        → BaselinesBefore t db'.participants
    pub frame : db' ≡ record db {
      threads = db'.threads;
      participants = db'.participants;
      messages = db'.messages;
    }

  watch_all-ok :
      (message m : Message) (db db' : Db)
      → watch_all prisma input t0 prev message db ≡ ok (m, db')
      → (m ≡ message)
        × (mid : Db) × HasWatched input.thread_id input.author_id (max t0 prev) db mid
        × HaveWatched input.thread_id (max t0 prev) input.mention_principals mid db'
  unfolding watch_all
  watch_all-ok message m db db' h =
      let (_, mid, first, rest) =
        >>=-ok (autowatch_thread prisma input.thread_id input.author_id input.author_name t0 prev)
          (λ _.
            watch_mentioned prisma input.thread_id t0 prev input.mention_principals
            >> return message)
          h in
      let (_, last, second, end) =
        >>=-ok (watch_mentioned prisma input.thread_id t0 prev input.mention_principals)
          (λ _. return message) rest in
      let same : last ≡ db' = ground arith in
      let result : m ≡ message = ground arith in
      (
        result,
        mid,
        autowatch_thread-HasWatched prisma input.thread_id input.author_id input.author_name t0 prev
            db mid first,
        watch_mentioned-HaveWatched prisma input.thread_id t0 prev input.mention_principals mid db'
            (rw same at second),
      )

  advance_thread-ok :
      (t1 : ℕ) (t : Thread) (db db' : Db)
      → advance_thread prisma input.thread_id t1 db ≡ ok (t, db')
      → db' ≡ record db {
        threads =
            map_where
              (λ t. t.id == input.thread_id)
              (λ t. record t {
                message_count = length (filter (is_visible_in input.thread_id) db.messages);
                last_message_at = some t1;
              })
              db.threads;
      }
  unfolding advance_thread
  advance_thread-ok t1 t db db' h =
      let (_, _, _, same) =
        update_thread_row-ok prisma db db' (λ t. t.id == input.thread_id)
          (λ t. record t {
            message_count = length (filter (is_visible_in input.thread_id) db.messages);
            last_message_at = some t1;
          })
          t (rw (prisma.count_law (is_visible_in input.thread_id) db.messages) at h) in
      same

  pub post-HasWritten :
      (m : Message) (db db' : Db)
      → post prisma input t0 prev seq db ≡ ok (m, db')
      → HasWritten db db' m
  unfolding post
  post-HasWritten m db db' h =
      let t1 : ℕ = max (t0 + 1) (prev + 1) in
      let (new, db1, created, rest) =
        >>=-ok (create_message_row prisma (new_message input seq t1))
          (λ message.
            advance_thread prisma input.thread_id t1 >> watch_all prisma input t0 prev message)
          h in
      let (row, same1) =
        create_message_row-ok prisma db db1 (new_message input seq t1) new created in
      let (t, db2, advanced, watching) =
        >>=-ok (advance_thread prisma input.thread_id t1) (λ _. watch_all prisma input t0 prev new)
          rest in
      let same2 = advance_thread-ok t1 t db1 db2 advanced in
      let (result, mid, w, ws) = watch_all-ok new m db2 db' watching in
      let before : db2 ≡ written db m = rw (same2, same1, result) refl in
      let whole : db' ≡ record (written db m) { participants = db'.participants } =
        ws.frame
        ∙ ap (λ (d : Db). record d { participants = db'.participants }) w.frame
        ∙ ap (λ (d : Db). record d { participants = db'.participants }) before in
      record {
        row =
            result
            ∙ row
            ∙ ap (new_message input seq t1) (sym (ap (λ (x : Message). x.id) (result ∙ row)));
        added = ap (λ (d : Db). d.messages) whole;
        counted = ap (λ (d : Db). d.threads) whole;
        author = ws.kept input.author_id w.watching;
        mentioned = ws.watching;
        rows =
            subst (λ ps. AreKept input.thread_id (max t0 prev) ps db'.participants)
              (ap (λ (d : Db). d.participants) before)
              (AreKept-trans input.thread_id (max t0 prev) db2.participants mid.participants
                db'.participants w.rows ws.rows);
        baseline = λ t b j.
            ws.baseline t b (w.baseline t b (rw (ap (λ (d : Db). d.participants) before) j));
        frame =
            whole
            ∙ sym (
                ap
                  (λ (d : Db). record db {
                    threads = d.threads;
                    participants = d.participants;
                    messages = d.messages;
                  })
                  whole);
      }
