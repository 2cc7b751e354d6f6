-- ===== src/Routes/Threads/Open/Stored.antt =====
-- The row of a thread that is opened, while its participants are added.
use agent_forum.Prelude.{
  ℕ, ◌≡◌, refl, sym, ap, ◌∙◌, arith, String, Option, none, some, List, [], ◌∷◌, ◌++◌, Option-cases,
  inl, inr,
}
use agent_forum.Http.{
  Code, http_error, db_error, type_error, parse_error, zod_error, Result, ok, err, Result-cases,
  ◌>>=◌ as then_result,
}
use agent_forum.Store.{Prisma, Db, Thread, Participant, Principal}
use agent_forum.Store.Io.{check, write, ◌>>◌}
use agent_forum.Store.Io.Laws.{check_db-ok, >>=-ok, and_then-last, settle-ok}
use agent_forum.Mentions.{find_principals_by_agent_ids}
use agent_forum.Middleware.{User}
use agent_forum.Messages.{text_or, create_participant}
use agent_forum.Messages.Rows.{create_participant-ok}
use agent_forum.Requests.{text_or_default, value_or_null}
use agent_forum.Routes.Participants.{find_participant}
use agent_forum.Routes.Threads.Patch.{nullable_field}
use agent_forum.Routes.Threads.Open.{
  OpenBody, Entry, thread_row, given_tags, as_opened, create_thread_row, same_workflow, add_entries,
  add_participants, add_creator, participant_row, completed_all, check_entries, agent_ids,
  check_known, text_of_entry,
}

then-ok :
    {A B : Type 0} (r : Result A) (f : A → Result B) {b : B}
    → then_result r f ≡ ok b
    → (a : A) × (f a ≡ ok b)
then-ok (ok a) f h = (a, h)
then-ok (err e) f h = cc

ok-injective : {A : Type 0} (a b : A) → ok a ≡ ok b → a ≡ b
ok-injective a b h = ap (λ (r : Result _). elim r [ ok x ↦ x | err e ↦ a ]) h

-- An open thread of the caller, with the title.
pub record IsNew (user : User) (title : String) (t : Thread) : Type 0 where
  pub titled : t.title ≡ title
  pub status : t.status ≡ "open"
  pub creator : t.created_by_id ≡ user.id
  pub empty : t.message_count ≡ 0

opened_row :
    (r : Result (Thread × Db)) {t : Thread} {db : Db} → as_opened r ≡ ok (t, db) → r ≡ ok (t, db)
opened_row (ok x) h = h
opened_row (err (db_error Code.p2002)) h = cc
opened_row (err (db_error Code.p2025)) h = cc
opened_row (err (db_error Code.p2034)) h = cc
opened_row (err (db_error (Code.other s))) h = cc
opened_row (err (http_error n m)) h = cc
opened_row (err type_error) h = cc
opened_row (err parse_error) h = cc
opened_row (err zod_error) h = cc

module _ (prisma : Prisma) (lower : String → String) (now : ℕ) where
  thread_row-IsNew :
      (user : User) (title : String) (body : OpenBody) (row : String → Thread)
      → thread_row prisma lower now user title body ≡ ok row
      → (id : String) → IsNew user title (row id)
  unfolding thread_row
  thread_row-IsNew user title body row h id =
      let (_, h1) = then-ok (text_or_default "discussion" body.type) _ h in
      let (_, h2) = then-ok (nullable_field (value_or_null body.context_type)) _ h1 in
      let (_, h3) = then-ok (nullable_field (value_or_null body.context_id)) _ h2 in
      let (_, h4) = then-ok (nullable_field (value_or_null body.pipeline)) _ h3 in
      let (_, h5) = then-ok (nullable_field (value_or_null body.layer)) _ h4 in
      let (_, h6) = then-ok (given_tags body.tags) _ h5 in
      let same = ok-injective _ row h6 in
      record {
        titled = sym (λ i. (same i id).title);
        status = sym (λ i. (same i id).status);
        creator = sym (λ i. (same i id).created_by_id);
        empty = sym (λ i. (same i id).message_count);
      }

  pub opened-IsNew :
      (user : User) (title : String) (body : OpenBody) (row : String → Thread) (t : Thread)
      (db db' : Db)
      → thread_row prisma lower now user title body ≡ ok row
      → write (λ db. as_opened (create_thread_row prisma lower now row db)) db ≡ (ok t, db')
      → IsNew user title t × (db'.threads ≡ db.threads ++ t ∷ [])
  unfolding create_thread_row
  opened-IsNew user title body row t db db' made h =
      let done =
        opened_row _ (settle-ok db (as_opened (create_thread_row prisma lower now row db)) h) in
      elim (Result-cases (prisma.create same_workflow row db.threads)) [
        | inr (x, e) ↦ cc (rw (create_thread_row, e) at done)
        | inl ((new, ts), e) ↦
            let (is_row, kept, _) = prisma.create_ok same_workflow row db.threads new ts e in
            let is_t : new ≡ t = ground (arith, done, e) in
            let left : db'.threads ≡ ts = ground (arith, done, e) in
            (
              rw (← is_t, is_row)
                  (thread_row-IsNew user title body row made (prisma.new_id db.threads)),
              rw (left, kept, is_t) refl,
            )
      ]

  written-threads :
      (row : String → Participant) (p : Participant) (db db' : Db)
      → write (create_participant prisma row) db ≡ (ok p, db')
      → db'.threads ≡ db.threads
  written-threads row p db db' h =
      let (_, kept) =
        create_participant-ok prisma db db' row p
          (settle-ok db (create_participant prisma row db) h) in
      rw kept refl

  add_entries-threads :
      (thread_id : String) (known : String → Option Principal) (es : List Entry) (db db' : Db)
      → add_entries prisma lower now thread_id known es db ≡ (ok tt, db')
      → db'.threads ≡ db.threads
  unfolding add_entries
  add_entries-threads thread_id known [] db db' h = sym (ap (λ p. p.1.threads) h)
  add_entries-threads thread_id known (e ∷ es) db db' h =
      elim (Option-cases (known (text_of_entry e.agent_id))) [
        | inl gone ↦ cc (ap (λ p. p.0) (rw (add_entries, gone) at h))
        | inr (principal, found) ↦
            let (name, _, h1) =
              check_db-ok
                (λ _.
                  text_or_default (text_or principal.display_name (text_of_entry e.agent_id))
                    e.agent_name)
                _ (rw (add_entries, found) at h) in
            let row =
              participant_row thread_id principal.id name (text_of_entry e.role)
                (text_of_entry e.status) now in
            let (p, mid, first, h2) =
              >>=-ok (write (create_participant prisma row))
                (λ p. add_entries prisma lower now thread_id known es) h1 in
            add_entries-threads thread_id known es mid db' h2 ∙ written-threads row p db mid first
      ]

  pub add_participants-threads :
      (user : User) (thread_id : String) (given : Option (List Entry)) (db db' : Db)
      → add_participants prisma lower now user thread_id given db ≡ (ok tt, db')
      → db'.threads ≡ db.threads
  unfolding add_participants
  add_participants-threads user thread_id none db db' h = sym (ap (λ p. p.1.threads) h)
  add_participants-threads user thread_id (some given) db db' h =
      let entries = completed_all user given in
      let (_, _, h1) = check_db-ok (λ _. check_entries entries) _ h in
      let (ids, _, h2) = check_db-ok (λ _. agent_ids entries) _ h1 in
      let (known, _, h3) =
        check_db-ok (λ db. ok (find_principals_by_agent_ids prisma ids db))
          (λ known.
            check (check_known known ids) >> add_entries prisma lower now thread_id known entries)
          h2 in
      let (_, _, h4) =
        check_db-ok (λ _. check_known known ids)
          (λ _. add_entries prisma lower now thread_id known entries) h3 in
      add_entries-threads thread_id known entries db db' h4

  pub add_creator-threads :
      (user : User) (thread_id : String) (db db' : Db)
      → add_creator prisma lower now user thread_id db ≡ (ok tt, db')
      → db'.threads ≡ db.threads
  unfolding add_creator
  add_creator-threads user thread_id db db' h =
      elim (Option-cases (find_participant prisma thread_id user.id db)) [
        | inr (p, e) ↦ sym (ap (λ q. q.1.threads) (rw (add_creator, e) at h))
        | inl e ↦
            let row = participant_row thread_id user.id user.name "creator" "responded" now in
            let (p, made, _) = and_then-last _ (λ p. tt) (rw (add_creator, e) at h) in
            written-threads row p db db' made
      ]
