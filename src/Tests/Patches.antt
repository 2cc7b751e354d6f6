-- ===== src/Tests/Patches.antt =====
-- Opening and changing a thread at a concrete database.
use agent_forum.Prelude.{◌≡◌, refl, true, none, some, [], ◌∷◌, ◌==◌, find, map_where}
use agent_forum.Js.{undefined, bool, str}
use agent_forum.Http.{Result, ok}
use agent_forum.Store.{Db, Thread}
use agent_forum.Requests.{Response}
use agent_forum.Routes.Moderation.{pinned}
use agent_forum.Routes.Threads.Patch.{
  PatchBody, Changes, changes_of, apply_changes, patch_flags_tx, patch_handler,
}
use agent_forum.Routes.Threads.Patch.Recorded.{AreRecorded, patch_flags_tx-AreRecorded}
use agent_forum.Routes.Threads.Patch.Allowed.{IsAllowed, patch_handler-IsAllowed}
use agent_forum.Routes.Threads.Open.{OpenBody, open_handler}
use agent_forum.Routes.Threads.Open.Creator.{HasOpened, open_handler-HasOpened}
use agent_forum.Tests.Memory.{memory}
use agent_forum.Tests.Data.{thread_id, thread, forum, alone, alice, moderator}
use agent_forum.Tests.Stores.{left_of, value_or}
use agent_forum.Tests.Threads.{response_of}

abbrev pub pin_it : PatchBody
pin_it = record {
  title = str "pinned";
  type = undefined;
  context_type = undefined;
  context_id = undefined;
  pipeline = undefined;
  layer = undefined;
  tags = undefined;
  pinned_value = bool true;
  featured_value = undefined;
}

abbrev pub pinning : Changes
pinning = record {
  title = some "pinned";
  type = none;
  context_type = none;
  context_id = none;
  pipeline = none;
  layer = none;
  tags = none;
  pinned = some true;
  featured = none;
}

abbrev pub pinned_thread : Result (Thread × Db)
pinned_thread = patch_flags_tx memory moderator thread_id thread (pinned ∷ []) (ok pinning) forum

patch_flags_tx-AreRecorded_example :
    (old : Thread) × (find (λ t. t.id == thread_id) forum.threads ≡ some old)
    × (value_or thread pinned_thread ≡ apply_changes pinning old)
    × AreRecorded memory moderator thread_id thread
        (value_or thread pinned_thread)
        (pinned ∷ [])
        (record forum {
          threads = map_where (λ t. t.id == thread_id) (apply_changes pinning) forum.threads;
        })
        (left_of pinned_thread)
unfolding patch_flags_tx agent_forum.Messages.update_thread_row
    agent_forum.Routes.Threads.Patch.audit_flags apply_changes agent_forum.Audit.append_audit_event
patch_flags_tx-AreRecorded_example =
    patch_flags_tx-AreRecorded memory moderator thread_id thread (pinned ∷ []) pinning
      (value_or thread pinned_thread) forum (left_of pinned_thread) refl

abbrev pub patched : Result Response × Db
patched = patch_handler memory (λ s. s) alone (some moderator) thread_id pin_it forum

patch_handler-IsAllowed_example :
    IsAllowed memory (λ s. s) alone (some moderator) thread_id pin_it forum
unfolding patch_handler agent_forum.Middleware.require_forum_writer
    agent_forum.Middleware.require_write_scope agent_forum.Requests.thread_or_404
    agent_forum.Review.find_thread_by_id agent_forum.Ids.is_uuid
    agent_forum.Governance.Visibility.assert_ordinary_read_visibility
    agent_forum.Store.with_transaction_retry patch_flags_tx changes_of
    agent_forum.Messages.update_thread_row agent_forum.Routes.Threads.Patch.audit_flags
    apply_changes agent_forum.Audit.append_audit_event
patch_handler-IsAllowed_example =
    patch_handler-IsAllowed memory (λ s. s) alone (some moderator) thread_id pin_it forum
      (response_of patched) patched.1 refl

abbrev pub new_thread : OpenBody
new_thread = record {
  title = str "plans";
  type = undefined;
  context_type = undefined;
  context_id = undefined;
  pipeline = undefined;
  layer = undefined;
  tags = undefined;
  participants = none;
}

abbrev pub opened : Result Response × Db
opened = open_handler memory (λ s. s) 100 (some alice) new_thread forum

open_handler-HasOpened_example :
    HasOpened memory (λ s. s) 100 (some alice) new_thread forum opened.1 (response_of opened)
unfolding open_handler agent_forum.Middleware.require_forum_writer
    agent_forum.Middleware.require_write_scope agent_forum.Requests.required_text
    agent_forum.Js.trim agent_forum.Routes.Threads.Open.thread_row
    agent_forum.Routes.Threads.Open.create_thread_row
    agent_forum.Routes.Threads.Open.add_participants agent_forum.Routes.Threads.Open.add_creator
    agent_forum.Routes.Participants.find_participant agent_forum.Ids.is_uuid
    agent_forum.Messages.create_participant
open_handler-HasOpened_example =
    open_handler-HasOpened memory (λ s. s) 100 (some alice) new_thread forum opened.1
      (response_of opened) refl
