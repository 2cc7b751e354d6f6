-- ===== src/Messages/Autowatch.antt =====
-- Watching a thread: what autowatchThread and the loop over the mentioned do to the participants.
use agent_forum.Prelude.{
  ℕ, ◌<◌, max, String, Bool, true, ◌&&◌, ◌||◌, ◌≡◌, ◌∙◌, ap, some, List, [], ◌∷◌, ◌++◌, arith, ◌==◌,
  eq_iff, eq_self, is_none, refl, find, any, map_where, All, inl, inr, Bool-cases, Option-cases,
}
use agent_forum.Http.{ok}
use agent_forum.Store.{Prisma, Db, Participant, return, ◌>>=◌}
use agent_forum.Store.Transaction.Laws.{>>=-ok, discarded-ok}
use agent_forum.Messages.{
  MentionPrincipal, is_row_of, watcher, rejoin, watch_existing, create_participant,
  update_participant_row, autowatch_thread, watch_mentioned, text_or, time_or_zero,
}
use agent_forum.Messages.Kept.{AreKept, AreKept-self, AreKept-append, AreKept-rejoin, AreKept-trans}
use agent_forum.Messages.Rows.{create_participant-ok, update_participant_row-ok}

-- Somebody is watching the thread.
abbrev pub is_watching : String → String → List Participant → Bool
is_watching thread_id r = any (λ p. is_row_of thread_id r p && is_none p.left_at)

-- What is later than this in the thread is unread to the participant (notifications.ts): the later
-- one of when he joined and what he has read.
abbrev pub baseline_of : Participant → ℕ
baseline_of p = max p.joined_at (time_or_zero p.last_read_at)

-- The baseline of every row lies below a time.
abbrev pub BaselinesBefore : ℕ → List Participant → Type 0
BaselinesBefore t = All (λ p. baseline_of p < t)

is_watching-append :
    (th r : String) (ps : List Participant) (p : Participant)
    → is_watching th r (ps ++ p ∷ [])
      ≡ (is_watching th r ps || (is_row_of th r p && is_none p.left_at))
is_watching-append th r [] p = ground arith
is_watching-append th r (q ∷ ps) p = ground (arith, is_watching-append th r ps p)

BaselinesBefore-append :
    (t : ℕ) (ps : List Participant) (p : Participant)
    → BaselinesBefore t ps
    → baseline_of p < t
    → BaselinesBefore t (ps ++ p ∷ [])
BaselinesBefore-append t [] p h k = (k, tt)
BaselinesBefore-append t (q ∷ ps) p h k = (h.0, BaselinesBefore-append t ps p h.1 k)

-- Rejoining keeps everybody who watches.
is_watching-rejoin :
    (th r id : String) (joined : ℕ) (ps : List Participant)
    → is_watching th r ps ≡ true
    → is_watching th r (map_where (λ p. p.id == id) (rejoin joined) ps) ≡ true
is_watching-rejoin th r id joined [] h = h
is_watching-rejoin th r id joined (q ∷ ps) h = ground (arith, is_watching-rejoin th r id joined ps)

-- The row that is found watches afterwards.
found-rejoin :
    (th r : String) (joined : ℕ) (ps : List Participant) (old : Participant)
    → find (is_row_of th r) ps ≡ some old
    → is_watching th r (map_where (λ p. p.id == old.id) (rejoin joined) ps) ≡ true
found-rejoin th r joined [] old h = cc
found-rejoin th r joined (q ∷ ps) old h =
    ground (arith, found-rejoin th r joined ps old, eq_iff q.id old.id)

BaselinesBefore-rejoin :
    (t joined : ℕ) (id : String) (ps : List Participant)
    → BaselinesBefore t ps
    → joined < t
    → BaselinesBefore t (map_where (λ p. p.id == id) (rejoin joined) ps)
BaselinesBefore-rejoin t joined id [] h k = tt
BaselinesBefore-rejoin t joined id (q ∷ ps) h k =
    (ground arith, BaselinesBefore-rejoin t joined id ps h.1 k)

found_watches :
    (th r : String) (ps : List Participant) (old : Participant)
    → find (is_row_of th r) ps ≡ some old
    → is_none old.left_at ≡ true
    → is_watching th r ps ≡ true
found_watches th r [] old h k = cc
found_watches th r (q ∷ ps) old h k = ground (arith, found_watches th r ps old)

-- What has happened once somebody has been made to watch a thread at a time.
pub record HasWatched (th who : String) (joined : ℕ) (db db' : Db) : Type 0 where
  pub frame : db' ≡ record db { participants = db'.participants }
  pub watching : is_watching th who db'.participants ≡ true
  pub kept :
      (r : String)
      → is_watching th r db.participants ≡ true
      → is_watching th r db'.participants ≡ true
  pub rows : AreKept th joined db.participants db'.participants
  pub baseline :
      (t : ℕ) → joined < t → BaselinesBefore t db.participants → BaselinesBefore t db'.participants

module _ (prisma : Prisma) (th who name : String) (t0 prev : ℕ) (db db' : Db) where
  watcher_row :
      (p : Participant)
      → p ≡ watcher th who name (max t0 prev) (prisma.new_id db.participants)
      → p ≡ watcher th p.agent_id p.agent_name (max t0 prev) p.id
  watcher_row p h = rw h refl

  created-HasWatched :
      (p : Participant)
      → create_participant prisma (watcher th who name (max t0 prev)) db ≡ ok (p, db')
      → HasWatched th who (max t0 prev) db db'
  created-HasWatched p h =
      let (new, same) =
        create_participant-ok prisma db db' (watcher th who name (max t0 prev)) p h in
      record {
        frame = rw same;
        watching =
            rw (same, is_watching-append th who db.participants p, new)
              (ground (arith, eq_self th, eq_self who));
        kept = λ r k. rw (same, is_watching-append th r db.participants p, k);
        rows = rw same (AreKept-append th (max t0 prev) db.participants p (watcher_row p new));
        baseline = λ t b j.
            rw same (BaselinesBefore-append t db.participants p j (rw new (omega (arith, b))));
      }

  rejoined-HasWatched :
      (old p : Participant)
      → find (is_row_of th who) db.participants ≡ some old
      → update_participant_row prisma (λ q. q.id == old.id) (rejoin (max t0 prev)) db ≡ ok (p, db')
      → HasWatched th who (max t0 prev) db db'
  rejoined-HasWatched old p found h =
      let (was, there, changed, same) =
        update_participant_row-ok prisma db db' (λ q. q.id == old.id) (rejoin (max t0 prev)) p h in
      record {
        frame = rw same;
        watching = rw same (found-rejoin th who (max t0 prev) db.participants old found);
        kept = λ r k. rw same (is_watching-rejoin th r old.id (max t0 prev) db.participants k);
        rows = rw same (AreKept-rejoin th (max t0 prev) old.id db.participants);
        baseline =
            λ t b j. rw same (BaselinesBefore-rejoin t (max t0 prev) old.id db.participants j b);
      }

  -- The row of somebody who watches already is left alone.
  existing-HasWatched :
      (old : Participant)
      → find (is_row_of th who) db.participants ≡ some old
      → watch_existing prisma
          (max t0 prev)
          (some old)
          (create_participant prisma (watcher th who name (max t0 prev)) >>= λ _. return tt)
          db
        ≡ ok (tt, db')
      → HasWatched th who (max t0 prev) db db'
  existing-HasWatched old found h = elim (Bool-cases (is_none old.left_at)) [
    | inl watches ↦
        let same : db' ≡ db = ground (arith) in
        record {
          frame = rw same;
          watching = rw same (found_watches th who db.participants old found watches);
          kept = λ r k. rw same k;
          rows = rw same (AreKept-self th (max t0 prev) db.participants);
          baseline = λ t b j. rw same j;
        }
    | inr left ↦
        let (p, done) =
          discarded-ok (update_participant_row prisma (λ q. q.id == old.id) (rejoin (max t0 prev)))
            (rw (left, watch_existing) at h) in
        rejoined-HasWatched old p found done
  ]

  pub autowatch_thread-HasWatched :
      autowatch_thread prisma th who name t0 prev db ≡ ok (tt, db')
      → HasWatched th who (max t0 prev) db db'
  unfolding autowatch_thread
  autowatch_thread-HasWatched h =
      let law = prisma.find_unique_law (is_row_of th who) db.participants in
      elim (Option-cases (find (is_row_of th who) db.participants)) [
        | inl missing ↦
            let (p, done) =
              discarded-ok (create_participant prisma (watcher th who name (max t0 prev)))
                (rw (law, missing) at h) in
            created-HasWatched p done
        | inr (old, found) ↦ existing-HasWatched old found (rw (law, found) at h)
      ]

-- The same of all who are mentioned.
pub record HaveWatched (th : String) (joined : ℕ) (ms : List MentionPrincipal) (db db' : Db)
    : Type 0 where
  pub frame : db' ≡ record db { participants = db'.participants }
  pub watching : All (λ m. is_watching th m.principal_id db'.participants ≡ true) ms
  pub kept :
      (r : String)
      → is_watching th r db.participants ≡ true
      → is_watching th r db'.participants ≡ true
  pub rows : AreKept th joined db.participants db'.participants
  pub baseline :
      (t : ℕ) → joined < t → BaselinesBefore t db.participants → BaselinesBefore t db'.participants

pub watch_mentioned-HaveWatched :
    (prisma : Prisma) (th : String) (t0 prev : ℕ) (ms : List MentionPrincipal) (db db' : Db)
    → watch_mentioned prisma th t0 prev ms db ≡ ok (tt, db')
    → HaveWatched th (max t0 prev) ms db db'
unfolding watch_mentioned
watch_mentioned-HaveWatched prisma th t0 prev [] db db' h =
    let same : db' ≡ db = ground arith in
    record {
      frame = rw same;
      watching = tt;
      kept = λ r k. rw same k;
      rows = rw same (AreKept-self th (max t0 prev) db.participants);
      baseline = λ t b j. rw same j;
    }
watch_mentioned-HaveWatched prisma th t0 prev (m ∷ ms) db db' h =
    let name = text_or m.display_name m.agent_id in
    let (_, mid, first, rest) =
      >>=-ok (autowatch_thread prisma th m.principal_id name t0 prev)
        (λ _. watch_mentioned prisma th t0 prev ms) h in
    let w = autowatch_thread-HasWatched prisma th m.principal_id name t0 prev db mid first in
    let ih = watch_mentioned-HaveWatched prisma th t0 prev ms mid db' rest in
    record {
      frame = ih.frame ∙ ap (λ (d : Db). record d { participants = db'.participants }) w.frame;
      watching = (ih.kept m.principal_id w.watching, ih.watching);
      kept = λ r k. ih.kept r (w.kept r k);
      rows =
          AreKept-trans th (max t0 prev) db.participants mid.participants db'.participants w.rows
            ih.rows;
      baseline = λ t b j. ih.baseline t b (w.baseline t b j);
    }
