-- ===== src/Tests/Stores.antt =====
-- Messages, reviews, notifications, watching and transactions at concrete databases.
use agent_forum.Prelude.{
  ℕ, ◌≡◌, refl, Option, none, some, [], ◌∷◌, ◌+◌, true, not, all, filter, find, map, arith,
}
use agent_forum.Js.{null}
use agent_forum.Http.{Result, ok, err}
use agent_forum.Store.{Tx, Db, Thread, Participant, Message, tx_retry_limit, with_transaction_retry}
use agent_forum.Store.Transaction.{retry}
use agent_forum.Store.Transaction.Laws.{IsAtomic, with_transaction_retry-IsAtomic, retry_enough}
use agent_forum.Messages.{
  is_row_of, create_message_tx, create_message, repair_thread_message_derived_state,
}
use agent_forum.Messages.Autowatch.{BaselinesBefore}
use agent_forum.Messages.Create.{create_message_tx-BaselinesBefore}
use agent_forum.Messages.Counted.{IsCounted, create_message_tx-IsCounted, repair-IsCounted}
use agent_forum.Review.{Readiness, get_thread_review_readiness}
use agent_forum.Review.Laws.{is_pending, readiness_exact}
use agent_forum.Notifications.Facts.{FanOut, notify_thread_participants}
use agent_forum.Notifications.Facts.Exact.{HasNotified, notify_thread_participants-HasNotified}
use agent_forum.Watch.{read_target, latest_visible, mark_thread_read_tx, batch_mark_read}
use agent_forum.Watch.Cursor.{others_of, mark_thread_read_tx-HasRead}
use agent_forum.Watch.Monotone.{HasCome, batch_mark_read-HasCome}
use agent_forum.Tests.Memory.{memory}
use agent_forum.Tests.Data.{thread_id, thread, forum, alone, row_of, first_message, greeting}

abbrev pub value_or : {A : Type 0} → A → Result (A × Db) → A
value_or d (ok (a, db)) = a
value_or d (err e) = d

abbrev pub left_of : {A : Type 0} → Result (A × Db) → Db
left_of (ok (a, db)) = db
left_of (err e) = forum

abbrev pub result_or : {A : Type 0} → A → Result A → A
result_or d (ok a) = a
result_or d (err e) = d

abbrev pub greeted : Result Message × Db
greeted = create_message memory alone greeting forum

abbrev pub greeting_tx : Result (Message × Db)
greeting_tx = create_message_tx memory greeting 100 forum

create_message_tx-BaselinesBefore_example :
    BaselinesBefore
      (value_or first_message greeting_tx).created_at
      (left_of greeting_tx).participants
unfolding create_message_tx agent_forum.Messages.post agent_forum.Messages.create_message_row
    agent_forum.Messages.advance_thread agent_forum.Messages.update_thread_row
    agent_forum.Messages.watch_all agent_forum.Messages.autowatch_thread
    agent_forum.Messages.watch_mentioned agent_forum.Messages.create_participant
create_message_tx-BaselinesBefore_example =
    create_message_tx-BaselinesBefore memory greeting 100 (value_or first_message greeting_tx) forum
      (left_of greeting_tx) refl (omega arith, (omega arith, tt))

create_message_tx-IsCounted_example : IsCounted thread_id (left_of greeting_tx)
unfolding create_message_tx agent_forum.Messages.post agent_forum.Messages.create_message_row
    agent_forum.Messages.advance_thread agent_forum.Messages.update_thread_row
    agent_forum.Messages.watch_all agent_forum.Messages.autowatch_thread
    agent_forum.Messages.watch_mentioned agent_forum.Messages.create_participant
create_message_tx-IsCounted_example =
    create_message_tx-IsCounted memory greeting 100 (value_or first_message greeting_tx) forum
      (left_of greeting_tx) thread_id refl (λ _. refl, tt)

abbrev pub repaired : Result (Thread × Db)
repaired = repair_thread_message_derived_state memory thread_id forum

repair-IsCounted_example : IsCounted thread_id (left_of repaired)
unfolding repair_thread_message_derived_state agent_forum.Messages.update_thread_row
repair-IsCounted_example =
    repair-IsCounted memory thread_id (value_or thread repaired) forum (left_of repaired) refl

abbrev nobody_pending : Readiness
nobody_pending = record { ready = true; required_reviewers = []; pending_reviewer_ids = [] }

abbrev pub given_readiness : Option Readiness → Readiness
given_readiness none = nobody_pending
given_readiness (some v) = v

abbrev pub bob_verdict : Readiness
bob_verdict = given_readiness (get_thread_review_readiness memory thread_id forum)

readiness_exact_example :
    (bob_verdict.pending_reviewer_ids
      ≡ map (λ p. p.agent_id) (filter (is_pending thread_id forum) forum.participants))
    × (bob_verdict.ready ≡ all (λ p. not (is_pending thread_id forum p)) forum.participants)
unfolding get_thread_review_readiness agent_forum.Review.find_thread_by_id agent_forum.Ids.is_uuid
readiness_exact_example = readiness_exact memory thread_id forum bob_verdict refl

abbrev notice : FanOut
notice = record {
  thread_id = thread_id;
  reason = "thread_notice";
  exclude_principal_id = some "alice";
  source_event_key = "audit:1";
  message_id = none;
  payload = null;
}

abbrev pub notified : Db
notified = left_of (notify_thread_participants memory 100 notice forum)

notify_thread_participants-HasNotified_example : HasNotified notice forum notified
unfolding notify_thread_participants
notify_thread_participants-HasNotified_example =
    notify_thread_participants-HasNotified memory 100 notice forum notified refl

abbrev greet : ℕ → Tx Message
greet k = create_message_tx memory greeting 100

with_transaction_retry-IsAtomic_example :
    IsAtomic alone greet forum (with_transaction_retry alone greet forum)
with_transaction_retry-IsAtomic_example = with_transaction_retry-IsAtomic alone greet forum

retry_enough_example :
    retry alone greet (tx_retry_limit + 2) 1 forum ≡ with_transaction_retry alone greet forum
retry_enough_example = retry_enough alone greet forum 2

abbrev bob : Participant
bob = row_of "p2" "bob" "required_reviewer" (some 20)

abbrev pub read : Result (Participant × Db)
read = mark_thread_read_tx memory thread_id "bob" forum

mark_thread_read_tx-HasRead_example :
    (old : Participant) × (find (is_row_of thread_id "bob") forum.participants ≡ some old)
    × ((value_or bob read).last_read_at
        ≡ read_target old.last_read_at (latest_visible memory thread_id "bob" forum))
    × (value_or bob read ≡ record old { last_read_at = (value_or bob read).last_read_at })
    × (find (is_row_of thread_id "bob") (left_of read).participants ≡ some (value_or bob read))
    × (others_of old.id (left_of read) ≡ others_of old.id forum)
    × (left_of read ≡ record forum { participants = (left_of read).participants })
unfolding mark_thread_read_tx agent_forum.Watch.advance_cursor
    agent_forum.Messages.update_participant_row
mark_thread_read_tx-HasRead_example =
    mark_thread_read_tx-HasRead memory thread_id "bob" forum (value_or bob read) (left_of read) refl

batch_mark_read-HasCome_example :
    HasCome "p2" 20 (batch_mark_read memory "bob" (λ t db. db) (thread_id ∷ []) forum).1
batch_mark_read-HasCome_example =
    batch_mark_read-HasCome memory "bob" (λ t db. db) (thread_id ∷ []) (λ t id n db h. h) "p2" 20
      forum (λ k. cc, (λ k. refl, tt))
