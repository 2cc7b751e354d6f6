-- ===== src/Notifications/Facts/Exact.antt =====
-- Who has a notification after a fan-out.
use text.Mathlib.TextLemmas.{append_cancel_right}
use agent_forum.Prelude.{
  ℕ, String, Bool, true, not, ◌&&◌, ◌||◌, ◌≡◌, refl, List, [], ◌∷◌, ◌++◌, map, ◌==◌, eq_iff,
  is_text, contains, filter, any, arith, inl, inr,
}
use agent_forum.Js.Sets.{contains-distinct_from}
use agent_forum.Js.{distinct_from}
use agent_forum.Http.{ok, Result-cases}
use agent_forum.Store.{
  Prisma, Db, Participant, NotificationFact, same_fact, insert_new, is_active_in,
}
use agent_forum.Notifications.Facts.{
  FactInput, FanOut, batch_key, unique_inputs, fact_row, create_notification_facts, recipients,
  input_for, notify_thread_participants,
}

-- Somebody has a fact from a source.
abbrev pub has_fact : String → String → List NotificationFact → Bool
has_fact r k = any (λ f. f.recipient_principal_id == r && f.source_event_key == k)

-- A participant of the thread who has not left, and who is not left out.
abbrev pub is_recipient : FanOut → List Participant → String → Bool
is_recipient opts participants r =
    any (λ p. is_active_in opts.thread_id p && p.agent_id == r) participants
    && not (r == "")
    && not (is_text opts.exclude_principal_id r)

contains-filter :
    (p : String → Bool) (ss : List String) (r : String)
    → contains (filter p ss) r ≡ (contains ss r && p r)
contains-filter p [] r = refl
contains-filter p (s ∷ ss) r = ground (arith, eq_iff s r, contains-filter p ss r)

contains-agents :
    (p : Participant → Bool) (ps : List Participant) (r : String)
    → contains (map (λ q. q.agent_id) (filter p ps)) r ≡ any (λ q. p q && q.agent_id == r) ps
contains-agents p [] r = refl
contains-agents p (q ∷ ps) r = ground (arith, contains-agents p ps r)

contains-recipients :
    (opts : FanOut) (ps : List Participant) (r : String)
    → contains (recipients opts.exclude_principal_id (filter (is_active_in opts.thread_id) ps)) r
      ≡ is_recipient opts ps r
unfolding recipients
contains-recipients opts ps r = ground (
  arith,
  contains-filter (λ id. not (is_text opts.exclude_principal_id id))
      (distinct_from [] (
        filter (λ id. not (id == ""))
          (map (λ p. p.agent_id) (filter (is_active_in opts.thread_id) ps))))
      r,
  contains-distinct_from []
      (filter (λ id. not (id == ""))
        (map (λ p. p.agent_id) (filter (is_active_in opts.thread_id) ps)))
      r,
  contains-filter (λ id. not (id == ""))
      (map (λ p. p.agent_id) (filter (is_active_in opts.thread_id) ps)) r,
  contains-agents (is_active_in opts.thread_id) ps r,
)

-- The batch keys of one fan-out differ where the recipients do.
batch_key-inj :
    (opts : FanOut) (r s : String)
    → batch_key (input_for opts r) ≡ batch_key (input_for opts s)
    → r ≡ s
batch_key-inj opts r s h = append_cancel_right r s _ h

batch_key-eq :
    (opts : FanOut) (r s : String)
    → (batch_key (input_for opts r) == batch_key (input_for opts s)) ≡ (r == s)
batch_key-eq opts r s = ground (
  arith,
  eq_iff r s,
  eq_iff (batch_key (input_for opts r)) (batch_key (input_for opts s)),
  batch_key-inj opts r s,
)

any-unique_inputs :
    (opts : FanOut) (k : String) (seen rs : List String) (r : String)
    → any
        (λ n. n.recipient_principal_id == r && n.source_event_key == k)
        (unique_inputs seen (map (input_for opts) rs))
      ≡ (contains rs r
          && not (contains seen (batch_key (input_for opts r)))
          && opts.source_event_key == k)
unfolding unique_inputs
any-unique_inputs opts k seen [] r = refl
any-unique_inputs opts k seen (s ∷ rs) r = ground (
  arith,
  eq_iff s r,
  batch_key-eq opts s r,
  any-unique_inputs opts k seen rs r,
  any-unique_inputs opts k (batch_key (input_for opts s) ∷ seen) rs r,
)

module _ (new_id : List NotificationFact → String) (now : ℕ) (r k : String) where
  has_fact-clash :
      (x : NotificationFact) (t : List NotificationFact)
      → any (same_fact x) t ≡ true
      → (x.recipient_principal_id == r && x.source_event_key == k) ≡ true
      → has_fact r k t ≡ true
  has_fact-clash x [] h m = h
  has_fact-clash x (y ∷ t) h m = ground (
    arith,
    eq_iff x.recipient_principal_id y.recipient_principal_id,
    eq_iff x.source_event_key y.source_event_key,
    has_fact-clash x t,
  )

  has_fact-append :
      (t : List NotificationFact) (x : NotificationFact)
      → has_fact r k (t ++ x ∷ [])
        ≡ (has_fact r k t || (x.recipient_principal_id == r && x.source_event_key == k))
  has_fact-append [] x = ground arith
  has_fact-append (y ∷ t) x = ground (arith, has_fact-append t x)

  has_fact-insert_new :
      (ns : List FactInput) (t : List NotificationFact)
      → has_fact r k (insert_new new_id same_fact (map (fact_row now) ns) t)
        ≡ (has_fact r k t || any (λ n. n.recipient_principal_id == r && n.source_event_key == k) ns)
  unfolding fact_row
  has_fact-insert_new [] t = ground arith
  has_fact-insert_new (n ∷ ns) t = ground (
    arith,
    has_fact-insert_new ns t,
    has_fact-insert_new ns (t ++ fact_row now n (new_id t) ∷ []),
    has_fact-append t (fact_row now n (new_id t)),
    has_fact-clash (fact_row now n (new_id t)) t,
  )

-- What a fan-out has done when it returns.
pub record HasNotified (opts : FanOut) (db db' : Db) : Type 0 where
  pub exact :
      (r k : String)
      → has_fact r k db'.notification_facts ≡ (
          has_fact r k db.notification_facts
          || (is_recipient opts db.participants r && opts.source_event_key == k))
  pub frame : db' ≡ record db { notification_facts = db'.notification_facts }

module _ (prisma : Prisma) (now : ℕ) (opts : FanOut) (db db' : Db) where
  created_facts :
      (rs : List String)
      → create_notification_facts prisma now (map (input_for opts) rs) db ≡ ok (tt, db')
      → ((r k : String)
          → has_fact r k db'.notification_facts
            ≡ (has_fact r k db.notification_facts || (contains rs r && opts.source_event_key == k)))
        × (db' ≡ record db { notification_facts = db'.notification_facts })
  unfolding create_notification_facts
  created_facts [] h = (λ r k. ground arith, ground arith)
  created_facts (x ∷ rs) h =
      let inputs = unique_inputs [] (map (input_for opts) (x ∷ rs)) in
      elim (Result-cases
        (prisma.create_many same_fact (map (fact_row now) inputs) db.notification_facts)) [
          | inr (e, failed) ↦ cc (rw failed at h)
          | inl (facts, done) ↦
              let exact = prisma.create_many_ok same_fact _ _ facts done in
              let stored : db' ≡ record db { notification_facts = facts } = ground (arith, done) in
              (
                λ r k.
                    rw (stored, exact)
                      (ground (
                        arith,
                        has_fact-insert_new prisma.new_id now r k inputs db.notification_facts,
                        any-unique_inputs opts k [] (x ∷ rs) r,
                      )),
                rw stored,
              )
        ]

  -- After the fan-out somebody has a notification from a source exactly if he had it before, or
  -- the source is the event's and he is a participant of the thread who has not left and is not
  -- the excluded principal. Nothing else is written.
  pub notify_thread_participants-HasNotified :
      notify_thread_participants prisma now opts db ≡ ok (tt, db') → HasNotified opts db db'
  unfolding notify_thread_participants
  notify_thread_participants-HasNotified h =
      let found = prisma.find_many_law (is_active_in opts.thread_id) db.participants in
      let (exact, frame) =
        created_facts
          (recipients opts.exclude_principal_id
            (filter (is_active_in opts.thread_id) db.participants))
          (rw found at h) in
      record {
        exact = λ r k. ground (arith, exact r k, contains-recipients opts db.participants r);
        frame = frame;
      }
