-- ===== src/Messages/Rows.antt =====
-- What the writes of one row have done when they return.
use agent_forum.Prelude.{String, Bool, ◌≡◌, some, [], ◌∷◌, ◌++◌, arith, find, map_where, inl, inr}
use agent_forum.Http.{ok, Result-cases}
use agent_forum.Store.{Prisma, Db, Thread, Participant, Message, no_index, same_participant}
use agent_forum.Messages.{
  create_participant, update_participant_row, create_message_row, update_message_row,
  update_thread_row,
}

module _ (prisma : Prisma) (db db' : Db) where
  pub create_message_row-ok :
      (row : String → Message) (m : Message)
      → create_message_row prisma row db ≡ ok (m, db')
      → (m ≡ row (prisma.new_id db.messages))
        × (db' ≡ record db { messages = db.messages ++ m ∷ [] })
  unfolding create_message_row
  create_message_row-ok row m h = elim (Result-cases (prisma.create no_index row db.messages)) [
    | inl ((new, ms), e) ↦
        let law = prisma.create_ok no_index row db.messages new ms e in
        ground (arith, law.0, law.1, e)
    | inr (x, e) ↦ ground (arith, e)
  ]

  pub create_participant-ok :
      (row : String → Participant) (p : Participant)
      → create_participant prisma row db ≡ ok (p, db')
      → (p ≡ row (prisma.new_id db.participants))
        × (db' ≡ record db { participants = db.participants ++ p ∷ [] })
  unfolding create_participant
  create_participant-ok row p h =
      elim (Result-cases (prisma.create same_participant row db.participants)) [
        | inl ((new, ps), e) ↦
            let law = prisma.create_ok same_participant row db.participants new ps e in
            ground (arith, law.0, law.1, e)
        | inr (x, e) ↦ ground (arith, e)
      ]

  pub update_participant_row-ok :
      (which : Participant → Bool) (change : Participant → Participant) (p : Participant)
      → update_participant_row prisma which change db ≡ ok (p, db')
      → (old : Participant) × (find which db.participants ≡ some old)
        × (p ≡ change old)
        × (db' ≡ record db { participants = map_where which change db.participants })
  unfolding update_participant_row
  update_participant_row-ok which change p h =
      elim (Result-cases (prisma.update which change db.participants)) [
        | inl ((new, ps), e) ↦
            let (old, found, changed, all) =
              prisma.update_ok which change db.participants new ps e in
            (old, found, ground (arith, e), ground (arith, e))
        | inr (x, e) ↦ cc (rw (e, update_participant_row) at h)
      ]

  pub update_message_row-ok :
      (which : Message → Bool) (change : Message → Message) (m : Message)
      → update_message_row prisma which change db ≡ ok (m, db')
      → (old : Message) × (find which db.messages ≡ some old)
        × (m ≡ change old)
        × (db' ≡ record db { messages = map_where which change db.messages })
  unfolding update_message_row
  update_message_row-ok which change m h =
      elim (Result-cases (prisma.update which change db.messages)) [
        | inl ((new, ms), e) ↦
            let (old, found, changed, all) = prisma.update_ok which change db.messages new ms e in
            (old, found, ground (arith, e), ground (arith, e))
        | inr (x, e) ↦ cc (rw (e, update_message_row) at h)
      ]

  pub update_thread_row-ok :
      (which : Thread → Bool) (change : Thread → Thread) (t : Thread)
      → update_thread_row prisma which change db ≡ ok (t, db')
      → (old : Thread) × (find which db.threads ≡ some old)
        × (t ≡ change old)
        × (db' ≡ record db { threads = map_where which change db.threads })
  unfolding update_thread_row
  update_thread_row-ok which change t h =
      elim (Result-cases (prisma.update which change db.threads)) [
        | inl ((new, ts), e) ↦
            let (old, found, changed, all) = prisma.update_ok which change db.threads new ts e in
            (old, found, ground (arith, e), ground (arith, e))
        | inr (x, e) ↦ cc (rw (e, update_thread_row) at h)
      ]
