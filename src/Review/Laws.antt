-- ===== src/Review/Laws.antt =====
-- When a thread is ready, and who is pending.
use agent_forum.Prelude.{
  String, Bool, true, false, not, ◌&&◌, ◌||◌, ◌≡◌, refl, none, some, List, [], ◌∷◌, map, ◌==◌, find,
  filter, any, all, nat_eq, length, arith, ap, ◌∙◌, Option-cases, inl, inr,
}
use agent_forum.Ids.{is_uuid}
use agent_forum.Store.{Prisma, Db, Thread, Participant, Message, is_active_in}
use agent_forum.Review.{
  ReviewerStatus, Readiness, is_review_in, is_waived, is_required, reviewer_status,
  find_thread_by_id, find_participants_by_thread_id, verdict, get_thread_review_readiness,
}

-- The reviewer has posted a message that counts, or has been waived with a reason.
abbrev pub is_satisfied : String → Db → Participant → Bool
is_satisfied thread_id db p =
    any (λ m. is_review_in thread_id m && m.author_id == p.agent_id) db.messages || is_waived p

abbrev pub is_pending : String → Db → Participant → Bool
is_pending thread_id db p =
    is_active_in thread_id p && is_required p && not (is_satisfied thread_id db p)

find-filter :
    (p q : Message → Bool) (ms : List Message)
    → (find q (filter p ms) ≡ none → any (λ m. p m && q m) ms ≡ false)
      × ((m : Message) → find q (filter p ms) ≡ some m → any (λ m. p m && q m) ms ≡ true)
find-filter p q [] = (λ h. refl, λ m h. cc)
find-filter p q (x ∷ ms) =
    let ih = find-filter p q ms in (λ h. ground (arith, ih.0), λ m h. ground (arith, ih.1 m))

abbrev pending_ids : List ReviewerStatus → List String
pending_ids ss = map (λ s. s.agent_id) (filter (λ s. not s.satisfied) ss)

module _ (thread_id : String) (db : Db) where
  reviewer_status-satisfied :
      (p : Participant)
      → (reviewer_status (filter (is_review_in thread_id) db.messages) p).satisfied
        ≡ is_satisfied thread_id db p
  unfolding reviewer_status
  reviewer_status-satisfied p =
      let test : Message → Bool = λ m. m.author_id == p.agent_id in
      let (missed, hit) = find-filter (is_review_in thread_id) test db.messages in
      elim (Option-cases (find test (filter (is_review_in thread_id) db.messages))) [
        | inl e ↦ ground (arith, missed e)
        | inr (m, e) ↦ ground (arith, hit m e)
      ]

  abbrev reviews : List Message
  reviews = filter (is_review_in thread_id) db.messages

  reviewer_status-agent_id :
      (ms : List Message) (p : Participant) → (reviewer_status ms p).agent_id ≡ p.agent_id
  unfolding reviewer_status
  reviewer_status-agent_id ms p = ground arith

  pending_of_all :
      (ps : List Participant)
      → map
          (λ s. s.agent_id)
          (filter
            (λ s. not s.satisfied)
            (map
              (reviewer_status reviews)
              (filter is_required (filter (is_active_in thread_id) ps))))
        ≡ map (λ p. p.agent_id) (filter (is_pending thread_id db) ps)
  pending_of_all [] = refl
  pending_of_all (p ∷ ps) =
      ground
        (arith, reviewer_status-satisfied p, reviewer_status-agent_id reviews p, pending_of_all ps)

  none_pending :
      (ps : List Participant)
      → nat_eq (length (map (λ p. p.agent_id) (filter (is_pending thread_id db) ps))) 0
        ≡ all (λ p. not (is_pending thread_id db p)) ps
  none_pending [] = refl
  none_pending (p ∷ ps) = ground (arith, none_pending ps)

  verdict-exact :
      (prisma : Prisma) (rs : List Participant)
      → rs ≡ filter is_required (filter (is_active_in thread_id) db.participants)
      → ((verdict prisma thread_id db rs).pending_reviewer_ids
          ≡ map (λ p. p.agent_id) (filter (is_pending thread_id db) db.participants))
        × ((verdict prisma thread_id db rs).ready
            ≡ nat_eq (length (verdict prisma thread_id db rs).pending_reviewer_ids) 0)
  verdict-exact prisma [] e = (rw (← pending_of_all db.participants) (rw (← e)), refl)
  verdict-exact prisma (r ∷ rs) e =
      let found = prisma.find_many_law (is_review_in thread_id) db.messages in
      (
        ap (λ ms. pending_ids (map (reviewer_status ms) (r ∷ rs))) found
            ∙ ap (λ ps. pending_ids (map (reviewer_status reviews) ps)) e
            ∙ pending_of_all db.participants,
        refl,
      )

uuid_of_found :
    (prisma : Prisma) (id : String) (db : Db) (t : Thread)
    → find_thread_by_id prisma id db ≡ some t
    → is_uuid id ≡ true
unfolding find_thread_by_id
uuid_of_found prisma id db t h = ground arith

active_law :
    (prisma : Prisma) (id : String) (db : Db)
    → is_uuid id ≡ true
    → find_participants_by_thread_id prisma id db ≡ filter (is_active_in id) db.participants
unfolding find_participants_by_thread_id
active_law prisma id db h = ground (arith, prisma.find_many_law (is_active_in id) db.participants)

-- The pending reviewers are, in order, the required reviewers who have not left and have neither
-- posted a visible message other than a system message nor been waived with a reason; the thread is
-- ready exactly if there are none.
pub readiness_exact :
    (prisma : Prisma) (thread_id : String) (db : Db) (v : Readiness)
    → get_thread_review_readiness prisma thread_id db ≡ some v
    → (v.pending_reviewer_ids
        ≡ map (λ p. p.agent_id) (filter (is_pending thread_id db) db.participants))
      × (v.ready ≡ all (λ p. not (is_pending thread_id db p)) db.participants)
unfolding get_thread_review_readiness
readiness_exact prisma thread_id db v h =
    let active = find_participants_by_thread_id prisma thread_id db in
    elim (Option-cases (find_thread_by_id prisma thread_id db)) [
      | inl e ↦ cc (rw (e, get_thread_review_readiness) at h)
      | inr (t, e) ↦
          let exact = verdict-exact thread_id db prisma (filter is_required active) (
            ap (filter is_required)
              (active_law prisma thread_id db (uuid_of_found prisma thread_id db t e))) in
          let same : verdict prisma thread_id db (filter is_required active) ≡ v =
            ground (arith, e) in
          ground (arith, exact.0, exact.1, same, none_pending thread_id db db.participants)
    ]
