-- ===== src/Notifications/Facts.antt =====
-- Creating notification facts, and the fan-out to a thread's participants
-- (createNotificationFacts of svc-forum/src/lib/data-access/notification-store.ts and
-- notifyThreadParticipants of svc-forum/src/lib/governance.ts).
pub mod Exact
use agent_forum.Prelude.{
  ℕ, String, Bool, not, ◌&&◌, Option, none, List, [], ◌∷◌, map, ◌==◌, is_text, is_none, contains,
  filter, if◌then◌else◌,
}
use agent_forum.Js.{Value, template, distinct_from}
use agent_forum.Http.{ok, err}
use agent_forum.Store.{Prisma, Tx, Participant, NotificationFact, same_fact, is_active_in}

pub record FactInput : Type 0 where
  pub recipient_principal_id : String
  pub thread_id : String
  pub message_id : Option String
  pub reason : String
  pub source_event_key : String
  pub payload : Value

abbrev pub batch_key : FactInput → String
batch_key n = template (n.recipient_principal_id ∷ "|" ∷ n.source_event_key ∷ [])

-- The first input for each key, in order.
unfoldable pub unique_inputs : List String → List FactInput → List FactInput
unique_inputs seen [] = []
unique_inputs seen (n ∷ ns) =
    let skip = unique_inputs seen ns in
    let take = n ∷ unique_inputs (batch_key n ∷ seen) ns in
    if contains seen (batch_key n) then skip else take

unfoldable pub fact_row : ℕ → FactInput → String → NotificationFact
fact_row now n id = record {
  id = id;
  recipient_principal_id = n.recipient_principal_id;
  thread_id = n.thread_id;
  message_id = n.message_id;
  reason = n.reason;
  source_event_key = n.source_event_key;
  created_at = now;
  read_at = none;
  payload = n.payload;
}

unfoldable pub create_notification_facts : Prisma → ℕ → List FactInput → Tx (Unit {0})
unfolding unique_inputs
create_notification_facts prisma now [] db = ok (tt, db)
create_notification_facts prisma now (n ∷ ns) db =
    elim (prisma.create_many same_fact (map (fact_row now) (unique_inputs [] (n ∷ ns)))
      db.notification_facts) [
        | ok facts ↦ ok (tt, record db { notification_facts = facts })
        | err e ↦ err e
      ]

pub record FanOut : Type 0 where
  pub thread_id : String
  pub reason : String
  pub exclude_principal_id : Option String
  pub source_event_key : String
  pub message_id : Option String
  pub payload : Value

unfoldable pub recipients : Option String → List Participant → List String
unfolding distinct_from
recipients exclude participants =
    filter (λ id. not (is_text exclude id))
      (distinct_from [] (filter (λ id. not (id == "")) (map (λ p. p.agent_id) participants)))

abbrev pub input_for : FanOut → String → FactInput
input_for opts recipient = record {
  recipient_principal_id = recipient;
  thread_id = opts.thread_id;
  message_id = opts.message_id;
  reason = opts.reason;
  source_event_key = opts.source_event_key;
  payload = opts.payload;
}

unfoldable pub notify_thread_participants : Prisma → ℕ → FanOut → Tx (Unit {0})
unfolding create_notification_facts recipients
notify_thread_participants prisma now opts db =
    create_notification_facts prisma now
      (map (input_for opts) (
        recipients opts.exclude_principal_id
          (prisma.find_many (is_active_in opts.thread_id) db.participants)))
      db
