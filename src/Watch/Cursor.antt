-- ===== src/Watch/Cursor.antt =====
-- The read cursor: marking one thread as read.
use agent_forum.Prelude.{
  ℕ, String, Bool, true, false, ◌≡◌, refl, sym, ◌∙◌, Option, none, some, List, [], ◌∷◌, arith,
  eq_self, ◌==◌, not, filter, find, map_where, if◌then◌else◌, inl, inr, Bool-cases, Option-cases,
}
use agent_forum.Http.{Error, ok, err, db_error, p2025, Result-cases, Code}
use agent_forum.Store.{Prisma, Db, Participant, Message}
use agent_forum.Messages.{is_row_of, update_participant_row}
use agent_forum.Messages.Rows.{update_participant_row-ok}
use agent_forum.Watch.{
  read_target, is_read, is_before, is_behind, set_cursor, unless_missing, own_row, latest_visible,
  advance_cursor, read_up_to, mark_thread_read_tx,
}

find-map_where :
    (q w : Participant → Bool) (f : Participant → Participant) (t : List Participant)
    (r : Participant)
    → ((p : Participant) → q (f p) ≡ q p)
    → find q t ≡ some r
    → find q (map_where w f t) ≡ some (if w r then f r else r)
find-map_where q w f [] r same h = cc
find-map_where q w f (x ∷ t) r same h = ground (arith, same x, find-map_where q w f t r same)

find-none :
    (q w : Participant → Bool) (t : List Participant) (r : Participant)
    → find w t ≡ none
    → find q t ≡ some r
    → w r ≡ false
find-none q w [] r h k = cc
find-none q w (x ∷ t) r h k = ground (arith, find-none q w t r)

-- The cursor that is written is later than the one that is there.
target_later :
    (read : Option ℕ) (latest : Option Message) (next : ℕ)
    → read_target read latest ≡ some next
    → is_read (some next) read ≡ false
    → is_before next read ≡ true
target_later none none next h k = refl
target_later none (some m) next h k = refl
target_later (some r) none next h k = ground arith
target_later (some r) (some m) next h k = ground arith

-- A cursor that is kept is the target.
target_kept :
    (read : Option ℕ) (latest : Option Message) (next : ℕ)
    → read_target read latest ≡ some next
    → is_read (some next) read ≡ true
    → read ≡ some next
target_kept none latest next h k = cc
target_kept (some r) latest next h k = ground arith

target_none :
    (read : Option ℕ) (latest : Option Message) → read_target read latest ≡ none → read ≡ none
target_none none latest h = refl
target_none (some r) none h = cc
target_none (some r) (some m) h = ground arith

only_p2025 :
    {A : Type 0} (a : A) (db : Db) (x : Error) (r : A × Db)
    → unless_missing a db (err x) ≡ ok r
    → x ≡ db_error p2025
only_p2025 a db (db_error Code.p2025) r h = refl
only_p2025 a db (db_error Code.p2002) r h = cc
only_p2025 a db (db_error Code.p2034) r h = cc
only_p2025 a db (db_error (Code.other s)) r h = cc
only_p2025 a db (Error.http_error n s) r h = cc
only_p2025 a db Error.type_error r h = cc
only_p2025 a db Error.parse_error r h = cc
only_p2025 a db Error.zod_error r h = cc

row_missing :
    (prisma : Prisma) (db : Db) (w : Participant → Bool) (f : Participant → Participant)
    → update_participant_row prisma w f db ≡ err (db_error p2025)
    → find w db.participants ≡ none
unfolding update_participant_row
row_missing prisma db w f h = elim (Result-cases (prisma.update w f db.participants)) [
  | inl ((r, ps), e) ↦ cc (rw (e, update_participant_row) at h)
  | inr (x, e) ↦
      let same : x ≡ db_error p2025 = ground (arith, e) in
      prisma.update_p2025 w f db.participants (rw same at e)
]

-- The rows but those of an id.
abbrev pub others_of : String → Db → List Participant
others_of id db = filter (λ q. not (q.id == id)) db.participants

others-map_where :
    (id : String) (next : ℕ) (ps : List Participant)
    → filter (λ q. not (q.id == id)) (map_where (is_behind id next) (set_cursor next) ps)
      ≡ filter (λ q. not (q.id == id)) ps
others-map_where id next [] = refl
others-map_where id next (p ∷ ps) = ground (arith, others-map_where id next ps)

module _ (prisma : Prisma) (thread_id me : String) (db : Db) where
  -- What marking as read has done for the row `old`.
  abbrev HasRead : Option ℕ → Participant → Participant → Db → Type 0
  HasRead target old p db' =
      (p.last_read_at ≡ target)
      × (p ≡ record old { last_read_at = p.last_read_at })
      × (find (is_row_of thread_id me) db'.participants ≡ some p)
      × (others_of old.id db' ≡ others_of old.id db)
      × (db' ≡ record db { participants = db'.participants })

  module _ (old : Participant)
      (found : find (is_row_of thread_id me) db.participants ≡ some old) where
    advance_cursor-HasRead :
        (next : ℕ) (p : Participant) (db' : Db)
        → is_before next old.last_read_at ≡ true
        → advance_cursor prisma thread_id me old next db ≡ ok (p, db')
        → HasRead (some next) old p db'
    unfolding advance_cursor
    advance_cursor-HasRead next p db' later h =
        elim (Result-cases
          (update_participant_row prisma (is_behind old.id next) (set_cursor next) db)) [
            | inl ((q, mid), e) ↦
                let (row, _, _, stored) =
                  update_participant_row-ok prisma db mid (is_behind old.id next) (set_cursor next)
                    q e in
                let result : p ≡ set_cursor next old = ground (arith, e) in
                let left : db' ≡ mid = ground (arith, e) in
                let moved =
                  find-map_where (is_row_of thread_id me) (is_behind old.id next) (set_cursor next)
                    db.participants old (λ p. refl) found in
                (
                  rw result,
                  rw result,
                  rw (left, stored, result) (ground (arith, moved, eq_self old.id)),
                  rw (left, stored) (others-map_where old.id next db.participants),
                  rw (left, stored),
                )
            | inr (x, e) ↦
                let failed : unless_missing (set_cursor next old) db (err x) ≡ ok (p, db') =
                  ground (arith, e) in
                let code = only_p2025 (set_cursor next old) db x (p, db') failed in
                let gone =
                  row_missing prisma db (is_behind old.id next) (set_cursor next) (rw code at e) in
                let kept =
                  find-none (is_row_of thread_id me) (is_behind old.id next) db.participants old
                    gone found in
                absurd (ground (arith, kept, later, eq_self old.id))
          ]

    read_up_to-HasRead :
        (latest : Option Message) (p : Participant) (db' : Db)
        → read_up_to prisma thread_id me old (read_target old.last_read_at latest) db ≡ ok (p, db')
        → HasRead (read_target old.last_read_at latest) old p db'
    read_up_to-HasRead latest p db' h = elim (Option-cases (read_target old.last_read_at latest)) [
      | inl e ↦
          let unread = target_none old.last_read_at latest e in
          let same : (old ≡ p) × (db ≡ db') = ground (arith, e) in
          rw (e, ← same.0, ← same.1) (unread, refl, found, refl, refl)
      | inr (next, e) ↦ elim (Bool-cases (is_read (some next) old.last_read_at)) [
        | inl kept ↦
            let same : (old ≡ p) × (db ≡ db') = ground (arith, e, kept) in
            rw (e, ← same.0, ← same.1)
              (target_kept old.last_read_at latest next e kept, refl, found, refl, refl)
        | inr moves ↦ rw e (
            advance_cursor-HasRead next p db' (target_later old.last_read_at latest next e moves)
              (ground (arith, h, e, moves)))
      ]
    ]

  -- Marking a thread as read, when it returns, has found the caller's row and set its cursor to
  -- the later one of the old cursor and the latest visible message's time. Nothing else of the row
  -- is changed, nor any row of another id, nor any table but the participants'.
  pub mark_thread_read_tx-HasRead :
      (p : Participant) (db' : Db)
      → mark_thread_read_tx prisma thread_id me db ≡ ok (p, db')
      → (old : Participant) × (find (is_row_of thread_id me) db.participants ≡ some old)
        × (p.last_read_at ≡ read_target old.last_read_at (latest_visible prisma thread_id me db))
        × (p ≡ record old { last_read_at = p.last_read_at })
        × (find (is_row_of thread_id me) db'.participants ≡ some p)
        × (others_of old.id db' ≡ others_of old.id db)
        × (db' ≡ record db { participants = db'.participants })
  unfolding mark_thread_read_tx
  mark_thread_read_tx-HasRead p db' h = elim (Option-cases (own_row prisma thread_id me db)) [
    | inl e ↦ cc (rw (e, mark_thread_read_tx) at h)
    | inr (old, e) ↦
        let found = sym (prisma.find_unique_law (is_row_of thread_id me) db.participants) ∙ e in
        let (cursor, row, stored, others, frame) =
          read_up_to-HasRead old found (latest_visible prisma thread_id me db) p db' (rw e at h) in
        (old, found, cursor, row, stored, others, frame)
  ]
