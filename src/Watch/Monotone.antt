-- ===== src/Watch/Monotone.antt =====
-- The read cursors through a batch, with what others commit between its reads and its writes.
use agent_forum.Prelude.{
  ℕ, String, Bool, true, false, ◌≡◌, refl, Option, none, some, List, [], ◌∷◌, ◌==◌, arith,
  map_where, All, ltb, leb, if◌then◌else◌, inl, inr, Bool-cases, Option-cases,
}
use agent_forum.Http.{Error, Result, ok, err, db_error, Result-cases, Code}
use agent_forum.Ids.{is_uuid}
use agent_forum.Store.{Prisma, Db, Participant, return, ◌>>=◌}
use agent_forum.Store.Io.{Io, settle, and_then}
use agent_forum.Watch.{
  read_target, is_read, is_behind, set_cursor, unless_missing, own_row, latest_visible,
  write_cursors, batch_write, batch_one, batch_from, batch_mark_read,
}

abbrev pub has_read : ℕ → Option ℕ → Bool
has_read n none = false
has_read n (some read) = leb n read

-- The cursor of the row `id` has come to `n`.
abbrev pub HasCome : String → ℕ → Db → Type 0
HasCome id n db = All (λ p. (p.id == id) ≡ true → has_read n p.last_read_at ≡ true) db.participants

-- Whatever has been read stays read.
abbrev pub Keeps : (Db → Db) → Type 0
Keeps f = (id : String) (n : ℕ) (db : Db) → HasCome id n db → HasCome id n (f db)

row_keeps :
    (who id : String) (next n : ℕ) (p : Participant)
    → ((p.id == id) ≡ true → has_read n p.last_read_at ≡ true)
    → ((if is_behind who next p then set_cursor next p else p).id == id) ≡ true
    → has_read n (if is_behind who next p then set_cursor next p else p).last_read_at ≡ true
row_keeps who id next n p h k = elim (Option-cases p.last_read_at) [
  | inl e ↦ ground (arith, e)
  | inr (r, e) ↦ ground (arith, e)
]

rows_keep :
    (who id : String) (next n : ℕ) (ps : List Participant)
    → All (λ p. (p.id == id) ≡ true → has_read n p.last_read_at ≡ true) ps
    → All
        (λ p. (p.id == id) ≡ true → has_read n p.last_read_at ≡ true)
        (map_where (is_behind who next) (set_cursor next) ps)
rows_keep who id next n [] h = tt
rows_keep who id next n (p ∷ ps) h = (row_keeps who id next n p h.0, rows_keep who id next n ps h.1)

module _ (prisma : Prisma) where
  unless_missing_keeps :
      (id : String) (n : ℕ) (db : Db) (r : Result (Bool × Db))
      → HasCome id n db
      → ((b : Bool) (w : Db) → r ≡ ok (b, w) → HasCome id n w)
      → HasCome id n (settle db (unless_missing false db r)).1
  unless_missing_keeps id n db (ok (b, w)) h k = k b w refl
  unless_missing_keeps id n db (err (db_error Code.p2025)) h k = h
  unless_missing_keeps id n db (err (db_error Code.p2002)) h k = h
  unless_missing_keeps id n db (err (db_error Code.p2034)) h k = h
  unless_missing_keeps id n db (err (db_error (Code.other s))) h k = h
  unless_missing_keeps id n db (err (Error.http_error c s)) h k = h
  unless_missing_keeps id n db (err Error.type_error) h k = h
  unless_missing_keeps id n db (err Error.parse_error) h k = h
  unless_missing_keeps id n db (err Error.zod_error) h k = h

  write_keeps :
      (who : String) (next : ℕ) (id : String) (n : ℕ) (db : Db)
      → HasCome id n db
      → (b : Bool) (w : Db)
      → (write_cursors prisma who next >>= λ k. return (ltb 0 k)) db ≡ ok (b, w)
      → HasCome id n w
  unfolding write_cursors
  write_keeps who next id n db h b w e =
      elim (Result-cases
        (prisma.update_many (is_behind who next) (set_cursor next) db.participants)) [
          | inr (x, failed) ↦ cc (rw (◌>>=◌, write_cursors, failed) at e)
          | inl ((k, ps), done) ↦
              let (_, all) =
                prisma.update_many_ok (is_behind who next) (set_cursor next) db.participants k ps
                  done in
              let stored : w ≡ record db { participants = ps } = ground (arith, done) in
              rw (stored, all) (rows_keep who id next n db.participants h)
        ]

  batch_write-Keeps :
      (others : Db → Db) (p : Participant) (target : Option ℕ)
      → Keeps others
      → Keeps (λ db. (batch_write prisma others p target db).1)
  batch_write-Keeps others p none ks id n db h = h
  batch_write-Keeps others p (some next) ks id n db h =
      elim (Bool-cases (is_read (some next) p.last_read_at)) [
        | inl e ↦ rw e h
        | inr e ↦ rw e (
            unless_missing_keeps id n (others db) _ (ks id n db h)
              (write_keeps p.id next id n (others db) (ks id n db h)))
      ]

  batch_one-Keeps :
      (me : String) (others : Db → Db) (thread_id : String)
      → Keeps others
      → Keeps (λ db. (batch_one prisma me others thread_id db).1)
  unfolding batch_one
  batch_one-Keeps me others thread_id ks id n db h = elim (Bool-cases (is_uuid thread_id)) [
    | inr e ↦ rw (e, batch_one) h
    | inl e ↦ elim (Option-cases (own_row prisma thread_id me db)) [
      | inl gone ↦ rw (e, gone, batch_one) h
      | inr (p, found) ↦
          rw (e, found, batch_one)
            (batch_write-Keeps others p
              (read_target p.last_read_at (latest_visible prisma thread_id me db)) ks id n db h)
    ]
  ]

  and_then_keeps :
      (id : String) (n : ℕ) (r : Result Bool × Db) (f : Bool → Io (ℕ × ℕ))
      → HasCome id n r.1
      → ((b : Bool) (d : Db) → HasCome id n d → HasCome id n (f b d).1)
      → HasCome id n (and_then r f).1
  and_then_keeps id n (ok b, d) f h k = k b d h
  and_then_keeps id n (err e, d) f h k = h

  batch_from-Keeps :
      (me : String) (others : String → Db → Db) (ids : List String) (updated skipped : ℕ)
      → ((t : String) → Keeps (others t))
      → Keeps (λ db. (batch_from prisma me others updated skipped ids db).1)
  unfolding batch_from
  batch_from-Keeps me others [] updated skipped ks id n db h = h
  batch_from-Keeps me others (t ∷ ids) updated skipped ks id n db h =
      and_then_keeps id n (batch_one prisma me (others t) t db) _
        (batch_one-Keeps me (others t) t (ks t) id n db h)
        (λ b d k. batch_from-Keeps me others ids _ _ ks id n d k)

  -- A cursor that has come to a time before a batch has come to it after the batch, also when the
  -- batch fails on the way, if what others commit between its reads and its writes keeps the
  -- cursors as well.
  pub batch_mark_read-HasCome :
      (me : String) (others : String → Db → Db) (ids : List String)
      → ((t : String) → Keeps (others t))
      → (id : String) (n : ℕ) (db : Db) → HasCome id n db
      → HasCome id n (batch_mark_read prisma me others ids db).1
  unfolding batch_mark_read
  batch_mark_read-HasCome me others ids ks id n db h =
      batch_from-Keeps me others ids 0 0 ks id n db h
