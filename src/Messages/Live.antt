-- ===== src/Messages/Live.antt =====
-- When posting a message returns.
use agent_forum.Prelude.{
  ℕ, ◌≡◌, ◌≢◌, refl, sym, ap, ◌∙◌, arith, String, Bool, true, false, Option, none, some, List, [],
  ◌∷◌, ◌==◌, eq_comm, eq_self, is_none, find, any, Bool-cases, Option-cases, max, ◌+◌, inl, inr,
}
use agent_forum.Http.{Error, ok, err, Result-cases}
use agent_forum.Store.{
  Prisma, IsReliable, Tx, Db, Env, Thread, Participant, Message, no_index, same_participant, return,
  ◌>>=◌,
}
use agent_forum.Store.Transaction.Laws.{with_transaction_retry-first}
use agent_forum.Store.Index.{find-any, none-find, any-none}
use agent_forum.Messages.{
  MentionPrincipal, CreateMessage, is_row_of, in_thread, watcher, rejoin, text_or, time_or_zero,
  new_message, next_seq, create_participant, update_participant_row, create_message_row,
  update_thread_row, watch_existing, autowatch_thread, watch_mentioned, advance_thread, watch_all,
  post, create_message_tx, create_message,
}
use agent_forum.Messages.Rows.{create_message_row-ok}

-- A transaction's step returns.
abbrev pub Returns {ℓ} : {A : Type ℓ} → Tx A → Db → Type ℓ
Returns {A = A} m db = (a : A) × (db' : Db) × (m db ≡ ok (a, db'))

>>=-Returns :
    {A B : Type 0} (m : Tx A) (f : A → Tx B) (db : Db)
    → Returns m db
    → ((a : A) (db' : Db) → m db ≡ ok (a, db') → Returns (f a) db')
    → Returns (m >>= f) db
>>=-Returns m f db (a, db', e) k = let (b, db2, e2) = k a db' e in (b, db2, rw (◌>>=◌, e) e2)

any-no_index : {Row : Type 0} (r : Row) (t : List Row) → any (no_index r) t ≡ false
any-no_index r [] = refl
any-no_index r (q ∷ qs) = any-no_index r qs

-- It returns if it does not throw.
not_thrown : {A : Type 0} (m : Tx A) (db : Db) → ((x : Error) → m db ≢ err x) → Returns m db
not_thrown m db h = elim (Result-cases (m db)) [
  | inl ((a, db'), e) ↦ (a, db', e)
  | inr (x, e) ↦ absurd (h x e)
]

find-some :
    {Row : Type 0} (p : Row → Bool) (t : List Row)
    → any p t ≡ true
    → (r : Row) × (find p t ≡ some r)
find-some p t h = elim (Option-cases (find p t)) [
  | inl e ↦ cc (none-find p t e, h)
  | inr found ↦ found
]

module _ (prisma : Prisma) (reliable : IsReliable prisma) where
  create_message_row-Returns :
      (row : String → Message) (db : Db) → Returns (create_message_row prisma row) db
  unfolding create_message_row
  create_message_row-Returns row db = not_thrown (create_message_row prisma row) db (λ x e.
      let works =
        reliable.create_works no_index row db.messages
          (any-no_index (row (prisma.new_id db.messages)) db.messages) in
      cc (rw (create_message_row, works) at e))

  create_participant-Returns :
      (row : String → Participant) (db : Db)
      → any (same_participant (row (prisma.new_id db.participants))) db.participants ≡ false
      → Returns (create_participant prisma row) db
  unfolding create_participant
  create_participant-Returns row db h = not_thrown (create_participant prisma row) db (λ x e.
      let works = reliable.create_works same_participant row db.participants h in
      cc (rw (create_participant, works) at e))

  update_participant_row-Returns :
      (which : Participant → Bool) (change : Participant → Participant) (old : Participant)
      (db : Db)
      → find which db.participants ≡ some old
      → Returns (update_participant_row prisma which change) db
  unfolding update_participant_row
  update_participant_row-Returns which change old db h =
      not_thrown (update_participant_row prisma which change) db (λ x e.
        let works = reliable.update_works which change db.participants old h in
        cc (rw (update_participant_row, works) at e))

  update_thread_row-Returns :
      (which : Thread → Bool) (change : Thread → Thread) (old : Thread) (db : Db)
      → find which db.threads ≡ some old
      → Returns (update_thread_row prisma which change) db
  unfolding update_thread_row
  update_thread_row-Returns which change old db h =
      not_thrown (update_thread_row prisma which change) db (λ x e.
        let works = reliable.update_works which change db.threads old h in
        cc (rw (update_thread_row, works) at e))

  -- Somebody has no row, a row he has left, or one that is active.
  watch_existing-Returns :
      (thread_id principal_id agent_name : String) (joined : ℕ) (db : Db)
      (found : Option Participant)
      → find (is_row_of thread_id principal_id) db.participants ≡ found
      → Returns
          (watch_existing prisma joined found (
            create_participant prisma (watcher thread_id principal_id agent_name joined) >>= λ _.
            return tt))
          db
  watch_existing-Returns thread_id principal_id agent_name joined db none h =
      >>=-Returns (create_participant prisma (watcher thread_id principal_id agent_name joined)) _
        db
        (create_participant-Returns (watcher thread_id principal_id agent_name joined) db (
          any-none _ (is_row_of thread_id principal_id)
            (λ q e.
              ground (arith, e, eq_comm thread_id q.thread_id, eq_comm principal_id q.agent_id))
            db.participants (none-find (is_row_of thread_id principal_id) db.participants h)))
        (λ a db' e. (tt, db', refl))
  watch_existing-Returns thread_id principal_id agent_name joined db (some existing) h =
      elim (Bool-cases (is_none existing.left_at)) [
        | inl e ↦ rw e (tt, db, refl)
        | inr e ↦
            let there =
              find-some (λ q. q.id == existing.id) db.participants
                (find-any (is_row_of thread_id principal_id) (λ q. q.id == existing.id)
                  db.participants existing h (eq_self existing.id)) in
            rw e (
              >>=-Returns (update_participant_row prisma (λ q. q.id == existing.id) (rejoin joined))
                _ db
                (update_participant_row-Returns (λ q. q.id == existing.id) (rejoin joined) there.0
                  db there.1)
                (λ a db' e. (tt, db', refl)))
      ]

  autowatch_thread-Returns :
      (thread_id principal_id agent_name : String) (t0 prev : ℕ) (db : Db)
      → Returns (autowatch_thread prisma thread_id principal_id agent_name t0 prev) db
  unfolding autowatch_thread
  autowatch_thread-Returns thread_id principal_id agent_name t0 prev db =
      watch_existing-Returns thread_id principal_id agent_name (max t0 prev) db _
        (sym (prisma.find_unique_law (is_row_of thread_id principal_id) db.participants))

  watch_mentioned-Returns :
      (thread_id : String) (t0 prev : ℕ) (ms : List MentionPrincipal) (db : Db)
      → Returns (watch_mentioned prisma thread_id t0 prev ms) db
  unfolding watch_mentioned
  watch_mentioned-Returns thread_id t0 prev [] db = (tt, db, refl)
  watch_mentioned-Returns thread_id t0 prev (m ∷ ms) db =
      >>=-Returns (autowatch_thread prisma thread_id m.principal_id _ t0 prev) _ db
        (autowatch_thread-Returns thread_id m.principal_id (text_or m.display_name m.agent_id) t0
          prev db)
        (λ a db' e. watch_mentioned-Returns thread_id t0 prev ms db')

  watch_all-Returns :
      (input : CreateMessage) (t0 prev : ℕ) (message : Message) (db : Db)
      → Returns (watch_all prisma input t0 prev message) db
  unfolding watch_all
  watch_all-Returns input t0 prev message db =
      >>=-Returns
        (autowatch_thread prisma input.thread_id input.author_id input.author_name t0 prev) _ db
        (autowatch_thread-Returns input.thread_id input.author_id input.author_name t0 prev db)
        (λ a db1 e1.
          >>=-Returns (watch_mentioned prisma input.thread_id t0 prev input.mention_principals) _
            db1 (watch_mentioned-Returns input.thread_id t0 prev input.mention_principals db1)
            (λ b db2 e2. (message, db2, refl)))

  post-Returns :
      (input : CreateMessage) (t0 prev seq : ℕ) (thread : Thread) (db : Db)
      → find (λ t. t.id == input.thread_id) db.threads ≡ some thread
      → Returns (post prisma input t0 prev seq) db
  unfolding post advance_thread
  post-Returns input t0 prev seq thread db h =
      let t1 = max (t0 + 1) (prev + 1) in
      >>=-Returns (create_message_row prisma (new_message input seq t1)) _ db
        (create_message_row-Returns (new_message input seq t1) db)
        (λ message db1 e1.
          let kept : db1.threads ≡ db.threads =
            ap (λ d. d.threads)
              (create_message_row-ok prisma db db1 (new_message input seq t1) message e1).1 in
          >>=-Returns (advance_thread prisma input.thread_id t1) _ db1
            (update_thread_row-Returns (λ t. t.id == input.thread_id) _ thread db1 (rw kept h))
            (λ a db2 e2. watch_all-Returns input t0 prev message db2))

  create_message_tx-Returns :
      (input : CreateMessage) (t0 : ℕ) (thread : Thread) (db : Db)
      → find (λ t. t.id == input.thread_id) db.threads ≡ some thread
      → Returns (create_message_tx prisma input t0) db
  unfolding create_message_tx
  create_message_tx-Returns input t0 thread db h =
      let found = prisma.find_unique_law (λ t. t.id == input.thread_id) db.threads ∙ h in
      let seq =
        next_seq (prisma.find_latest (in_thread input.thread_id) (λ m. m.seq) db.messages) in
      let (m, db', e) =
        post-Returns input t0 (time_or_zero thread.last_message_at) seq thread db h in
      (m, db', rw (create_message_tx, found) e)

  -- A message is posted: with a reliable driver, in a thread that exists when the transaction begins,
  -- and where the commit is accepted, the call returns a message at its first attempt.
  pub create_message-Returns :
      (env : Env) (input : CreateMessage) (thread : Thread) (db : Db)
      → env.refuses 1 ≡ none
      → find (λ t. t.id == input.thread_id) (env.others 1 db).threads ≡ some thread
      → (m : Message) × (db' : Db) × (create_message prisma env input db ≡ (ok m, db'))
  unfolding create_message
  create_message-Returns env input thread db accepted h =
      let (m, db', e) = create_message_tx-Returns input (env.now 1) thread (env.others 1 db) h in
      (
        m,
        db',
        with_transaction_retry-first env
            (λ attempt. create_message_tx prisma input (env.now attempt)) db db' m accepted e,
      )
