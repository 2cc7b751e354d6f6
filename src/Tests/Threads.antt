-- ===== src/Tests/Threads.antt =====
-- The handlers of threads at concrete requests.
use agent_forum.Prelude.{
  ℕ, String, ◌≡◌, refl, ◌⊎◌, inl, ◌↔◌, Option, none, some, [], true, contains,
}
use agent_forum.Js.{Value, null, str, trim, trimmed_text}
use agent_forum.Http.{Result, ok, err}
use agent_forum.Store.{Db}
use agent_forum.Store.Io.Laws.{Spares}
use agent_forum.Requests.{Response}
use agent_forum.Governance.Lifecycle.{hide}
use agent_forum.Routes.Moderation.{lifecycle_handler}
use agent_forum.Routes.Moderation.Lifecycle.{
  HasTransitioned, lifecycle_handler-HasTransitioned, lifecycle_handler-Spares,
}
use agent_forum.Js.{undefined}
use agent_forum.Requests.{visible_thread}
use agent_forum.Requests.Laws.{row_of, told, visible_thread_exact}
use agent_forum.Review.{find_thread_by_id}
use agent_forum.Middleware.{require_scope, require_forum_writer}
use agent_forum.Governance.Lifecycle.{assert_lifecycle_transition, soft_delete}
use agent_forum.Governance.Lifecycle.Reach.{
  IsLegal, transition_iff, Reach, here, next, Reach-final, open-Reach_iff, six_statuses,
}
use agent_forum.Routes.Threads.{ResolveBody, delete_handler, resolve_handler}
use agent_forum.Routes.Threads.Delete.{HasDeleted, delete_handler-HasDeleted, delete_handler-Spares}
use agent_forum.Routes.Threads.Resolve.{IsAnswered, resolve_handler-HasResolved}
use agent_forum.Routes.Participants.{update_participant_handler}
use agent_forum.Routes.Participants.Update.{HasChanged, update_participant_handler-HasChanged}
use agent_forum.Routes.Messages.{MessageBody, post_message_handler}
use agent_forum.Routes.Messages.Post.{IsAdmitted, post_message_handler-IsAdmitted}
use agent_forum.Tests.Memory.{memory}
use agent_forum.Tests.Data.{thread_id, forum, alone, alice, moderator}

abbrev pub hidden_forum : Result Response × Db
hidden_forum = lifecycle_handler memory alone (some moderator) thread_id (str "spam") hide forum

abbrev pub response_of : Result Response × Db → Response
response_of (ok r, db) = r
response_of (err e, db) = record { status = 0; body = agent_forum.Requests.done_body }

lifecycle_handler-HasTransitioned_example :
    HasTransitioned memory alone
      (some moderator)
      thread_id
      (str "spam")
      hide
      forum
      (response_of hidden_forum)
      hidden_forum.1
unfolding lifecycle_handler agent_forum.Middleware.require_governance_scopes
    agent_forum.Requests.thread_or_404 find_thread_by_id agent_forum.Ids.is_uuid trimmed_text trim
    assert_lifecycle_transition agent_forum.Governance.Orchestration.apply_governance_action
    agent_forum.Messages.update_thread_row
lifecycle_handler-HasTransitioned_example =
    lifecycle_handler-HasTransitioned memory alone (some moderator) thread_id (str "spam") hide
      forum (response_of hidden_forum) hidden_forum.1 refl

lifecycle_handler-Spares_example :
    Spares alone forum
      (lifecycle_handler memory alone (some alice) thread_id (str "spam") hide forum)
lifecycle_handler-Spares_example =
    lifecycle_handler-Spares memory alone (some alice) thread_id (str "spam") hide forum

abbrev pub deleted_forum : Result Response × Db
deleted_forum = delete_handler memory alone (some moderator) thread_id (str "spam") forum

delete_handler-HasDeleted_example :
    HasDeleted memory alone
      (some moderator)
      thread_id
      (str "spam")
      forum
      (response_of deleted_forum)
      deleted_forum.1
unfolding delete_handler agent_forum.Middleware.require_governance_scopes
    agent_forum.Middleware.require_write_scope agent_forum.Requests.thread_or_404 find_thread_by_id
    agent_forum.Ids.is_uuid trimmed_text trim assert_lifecycle_transition
    agent_forum.Governance.Orchestration.apply_governance_action
    agent_forum.Messages.update_thread_row
delete_handler-HasDeleted_example =
    delete_handler-HasDeleted memory alone (some moderator) thread_id (str "spam") forum
      (response_of deleted_forum) deleted_forum.1 refl

delete_handler-Spares_example :
    Spares alone forum (delete_handler memory alone (some moderator) thread_id null forum)
delete_handler-Spares_example =
    delete_handler-Spares memory alone (some moderator) thread_id null forum

abbrev summary : ResolveBody
summary = record {
  summary_md = str "done";
  decisions_json = null;
  action_items_json = null;
  rejected_options_json = null;
  open_questions_json = null;
}

abbrev pub resolved_forum : Result Response × Db
resolved_forum = resolve_handler memory alone (some alice) thread_id summary forum

resolve_handler-HasResolved_example :
    IsAnswered memory alone
      (some alice)
      thread_id
      summary
      forum
      (response_of resolved_forum)
      resolved_forum.1
unfolding resolve_handler require_forum_writer agent_forum.Middleware.require_write_scope
    agent_forum.Requests.thread_or_404 find_thread_by_id agent_forum.Ids.is_uuid
    agent_forum.Governance.Visibility.assert_ordinary_read_visibility assert_lifecycle_transition
    agent_forum.Requests.required_text trim agent_forum.Review.get_thread_review_readiness
    agent_forum.Review.find_participants_by_thread_id agent_forum.Review.reviewer_status
    agent_forum.Governance.Orchestration.apply_governance_action
    agent_forum.Routes.Threads.resolve_tx agent_forum.Routes.Threads.create_outcome_row
    agent_forum.Messages.update_thread_row
resolve_handler-HasResolved_example =
    resolve_handler-HasResolved memory alone (some alice) thread_id summary forum
      (response_of resolved_forum) resolved_forum.1 refl

abbrev no_date : Value → Option ℕ
no_date v = none

abbrev pub changed_forum : Result Response × Db
changed_forum =
    update_participant_handler memory (some moderator) thread_id 100 no_date "p2" (str "member")
      undefined undefined forum

update_participant_handler-HasChanged_example :
    HasChanged memory
      (some moderator)
      thread_id
      100
      no_date
      "p2"
      (str "member")
      undefined
      undefined
      forum
      (response_of changed_forum)
      changed_forum.1
unfolding update_participant_handler require_forum_writer agent_forum.Middleware.require_write_scope
    visible_thread agent_forum.Requests.thread_or_404 find_thread_by_id agent_forum.Ids.is_uuid
    agent_forum.Governance.Visibility.assert_ordinary_read_visibility
    agent_forum.Routes.Participants.participant_in_thread
    agent_forum.Routes.Participants.assert_participant_enum
    agent_forum.Routes.Participants.can_manage_participants
    agent_forum.Messages.update_participant_row
update_participant_handler-HasChanged_example =
    update_participant_handler-HasChanged memory (some moderator) thread_id 100 no_date "p2"
      (str "member") undefined undefined forum (response_of changed_forum) changed_forum.1 refl

visible_thread_exact_example :
    visible_thread memory thread_id [] forum ≡ told [] (row_of thread_id forum)
visible_thread_exact_example = visible_thread_exact memory thread_id [] forum

transition_iff_example :
    (assert_lifecycle_transition hide "open" ≡ ok "hidden") ↔ IsLegal "open" "hidden" hide
transition_iff_example = transition_iff hide "open" "hidden"

abbrev gone : String
gone = "deleted"

Reach-final_example : (gone ≡ "resolved") ⊎ (gone ≡ "deleted")
unfolding assert_lifecycle_transition
Reach-final_example = Reach-final (inl refl) (next soft_delete here refl)

open-Reach_iff_example : Reach "open" "hidden" ↔ (contains six_statuses "hidden" ≡ true)
open-Reach_iff_example = open-Reach_iff "hidden"

abbrev decision : MessageBody
decision = record {
  content = str "go";
  kind = str "decision";
  parent_id = undefined;
  attachments = undefined;
  metadata = undefined;
  mentions = undefined;
}

-- The required reviewer has not posted yet.
abbrev pub unreviewed : Db
unreviewed = record forum { messages = [] }

abbrev pub decided : Result Response × Db
decided = post_message_handler memory alone (some moderator) thread_id decision unreviewed

post_message_handler-IsAdmitted_example :
    IsAdmitted memory alone (some moderator) thread_id decision unreviewed
unfolding post_message_handler require_forum_writer agent_forum.Middleware.require_write_scope
    agent_forum.Requests.thread_or_404 find_thread_by_id agent_forum.Ids.is_uuid
    agent_forum.Governance.Visibility.assert_ordinary_read_visibility
    agent_forum.Requests.required_text trim agent_forum.Review.get_thread_review_readiness
    agent_forum.Review.find_participants_by_thread_id agent_forum.Review.reviewer_status
post_message_handler-IsAdmitted_example =
    post_message_handler-IsAdmitted memory alone (some moderator) thread_id decision unreviewed
      (response_of decided) decided.1 refl
