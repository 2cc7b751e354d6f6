-- ===== src/Routes/Threads/Patch/Recorded.antt =====
-- What changing a thread with flags writes, and which audit events it adds.
use agent_forum.Prelude.{
  ◌≡◌, refl, sym, ap, subst, ◌∙◌, arith, String, Bool, not, some, List, [], ◌∷◌, ◌++◌, ◌==◌, find,
  filter, map, map_where, All, Bool-cases, inl, inr,
}
use mathlib.Core.List.{append-nil, append_assoc}
use agent_forum.Http.{ok}
use agent_forum.Store.{Prisma, Db, Thread, AuditEvent, return}
use agent_forum.Store.Transaction.Laws.{>>=-ok}
use agent_forum.Audit.{audit_row, append_audit_event}
use agent_forum.Middleware.{User}
use agent_forum.Messages.{update_thread_row}
use agent_forum.Messages.Rows.{update_thread_row-ok}
use agent_forum.Governance.Orchestration.Laws.{append_audit_event-ok}
use agent_forum.Routes.Moderation.{Flag, flag_of, same_flag}
use agent_forum.Routes.Threads.Patch.{
  Changes, flag_event, flag_input, audit_flags, patch_flags_tx, apply_changes,
}

-- The flag is not what it was.
abbrev pub is_flipped : Thread → Thread → Flag → Bool
is_flipped existing updated flag = not (same_flag (flag_of flag existing) (flag_of flag updated))

module _ (prisma : Prisma) (caller : User) (thread_id : String) (existing : Thread) where
  -- An event of the caller on the thread.
  abbrev pub IsOnThread : AuditEvent → Type 0
  IsOnThread event =
      (event.actor_principal_id ≡ caller.id)
      × (event.target_type ≡ "thread")
      × (event.target_id ≡ thread_id)

  -- The new events are those of the flags that are not as they were read, in order.
  pub record AreRecorded (updated : Thread) (flags : List Flag) (db db' : Db) : Type 0 where
    pub events : List AuditEvent
    pub kept : db' ≡ record db { audit_events = db.audit_events ++ events }
    pub types :
        map (λ e. e.event_type) events
        ≡ map (λ f. flag_event f updated) (filter (is_flipped existing updated) flags)
    pub on_thread : All IsOnThread events

  audit_flags-AreRecorded :
      (updated : Thread) (flags : List Flag) (db db' : Db)
      → audit_flags prisma caller thread_id existing updated flags db ≡ ok (tt, db')
      → AreRecorded updated flags db db'
  unfolding audit_flags audit_row
  audit_flags-AreRecorded updated [] db db' h =
      let same : db ≡ db' = ground (arith, h) in
      record {
        events = [];
        kept = rw (append-nil db.audit_events) (sym same);
        types = refl;
        on_thread = tt;
      }
  audit_flags-AreRecorded updated (flag ∷ flags) db db' h =
      elim (Bool-cases (same_flag (flag_of flag existing) (flag_of flag updated))) [
        | inl e ↦
            let rest = audit_flags-AreRecorded updated flags db db' (rw e at h) in
            record {
              events = rest.events;
              kept = rest.kept;
              types = rw e rest.types;
              on_thread = rest.on_thread;
            }
        | inr e ↦
            let (event, mid, first, second) =
              >>=-ok
                (append_audit_event prisma
                  (flag_input prisma caller thread_id existing flag updated))
                (λ event. audit_flags prisma caller thread_id existing updated flags) (rw e at h) in
            let rest = audit_flags-AreRecorded updated flags mid db' second in
            let input = flag_input prisma caller thread_id existing flag updated in
            let added = append_audit_event-ok prisma input event db mid first in
            let row = audit_row input event.event_id in
            record {
              events = row ∷ rest.events;
              kept =
                  rest.kept
                  ∙ ap {A = Db} (λ d. record d { audit_events = d.audit_events ++ rest.events })
                      added
                  ∙ ap (λ es. record db { audit_events = es })
                      (append_assoc db.audit_events (row ∷ []) rest.events);
              types = rw e (ap (λ ts. flag_event flag updated ∷ ts) rest.types);
              on_thread = ((refl, refl, refl), rest.on_thread);
            }
      ]

  -- Where a change that gives flags returns, the fields that are given are written to the thread's
  -- row and nothing else of it, and the same transaction has added one audit event, by the caller
  -- and on the thread, for each given flag whose value is now another than in the thread that was read
  -- before the transaction, in order, and no other event. What others have written to the row between
  -- that reading and the transaction is not compared.
  pub patch_flags_tx-AreRecorded :
      (flags : List Flag) (c : Changes) (updated : Thread) (db db' : Db)
      → patch_flags_tx prisma caller thread_id existing flags (ok c) db ≡ ok (updated, db')
      → (old : Thread) × (find (λ t. t.id == thread_id) db.threads ≡ some old)
        × (updated ≡ apply_changes c old)
        × AreRecorded updated flags
            (record db {
              threads = map_where (λ t. t.id == thread_id) (apply_changes c) db.threads;
            })
            db'
  unfolding patch_flags_tx
  patch_flags_tx-AreRecorded flags c updated db db' h =
      let (written, mid, first, rest) =
        >>=-ok (update_thread_row prisma (λ t. t.id == thread_id) (apply_changes c)) _ h in
      let (done, end, second, last) =
        >>=-ok (audit_flags prisma caller thread_id existing written flags) (λ done. return written)
          rest in
      let (old, found, changed, kept) =
        update_thread_row-ok prisma db mid (λ t. t.id == thread_id) (apply_changes c) written
          first in
      let same : written ≡ updated = ground (arith, last) in
      let left : end ≡ db' = ground (arith, last) in
      let between : Db = record db {
        threads = map_where (λ t. t.id == thread_id) (apply_changes c) db.threads;
      } in
      let recorded = audit_flags-AreRecorded written flags mid end second in
      (
        old,
        found,
        sym same ∙ changed,
        subst (λ t. AreRecorded t flags between db') same
            (subst (λ d. AreRecorded written flags between d) left
              (subst (λ d. AreRecorded written flags d end) kept recorded)),
      )
