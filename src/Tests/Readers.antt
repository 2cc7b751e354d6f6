-- ===== src/Tests/Readers.antt =====
-- Reactions, notifications, paging and posting at concrete databases.
use agent_forum.Prelude.{
  ℕ, ◌≡◌, ◌≤◌, ◌*◌, refl, String, none, some, List, [], ◌∷◌, ◌==◌, false, filter, find, length,
  take, sort_by, arith,
}
use agent_forum.Js.{null, trim}
use agent_forum.Http.{Result, ok, err}
use agent_forum.Store.{Db, Reaction, NotificationFact, Message}
use agent_forum.Reactions.{
  ReactionInput, ReactionSummary, Order, before, summarize_reactions, add_reaction, remove_reaction,
}
use agent_forum.Reactions.Summary.{is_for, shows, tally, AreDistinct}
use agent_forum.Reactions.Sorted.{IsMostUsedFirst, summarize_exact}
use agent_forum.Reactions.Kept.{HasReacted, add_reaction-HasReacted, remove-add_reaction}
use agent_forum.Notifications.Inbox.{
  Filter, Facts, newer, is_listed, is_own_unread, find_notifications_for_principal,
  mark_notification_facts_read,
}
use agent_forum.Notifications.Inbox.Laws.{first_pages, first_pages_exact}
use agent_forum.Routes.Notifications.{notifications_handler}
use agent_forum.Routes.Notifications.Shown.{ShowsOwn, notifications_handler-ShowsOwn}
use agent_forum.Notifications.Inbox.Marked.{mark_notification_facts_read-IsRead}
use agent_forum.Pagination.{Paging, parse_pagination, parse_pagination-bounds}
use agent_forum.Messages.{create_message}
use agent_forum.Messages.Live.{create_message-Returns}
use agent_forum.Tests.Memory.{memory, memory-IsReliable}
use agent_forum.Tests.Data.{thread_id, thread, forum, alone, alice, greeting}
use agent_forum.Tests.Stores.{left_of, result_or, value_or}

abbrev pub cheer : ReactionInput
cheer = record {
  message_id = "m1";
  thread_id = thread_id;
  principal_id = "alice";
  principal_name = "Alice";
  emoji = " + ";
}

abbrev pub cheered : Result Reaction × Db
cheered = add_reaction memory (λ db. db) 100 cheer forum

abbrev pub a_reaction : Reaction
a_reaction = record {
  id = "";
  message_id = "";
  thread_id = "";
  principal_id = "";
  principal_name = "";
  emoji = "+";
  created_at = 0;
}

add_reaction-HasReacted_example :
    HasReacted memory cheer 100 forum forum cheered.1 (result_or a_reaction cheered.0)
unfolding add_reaction trim agent_forum.Reactions.find_visible_message
    agent_forum.Reactions.create_reaction_row
add_reaction-HasReacted_example =
    add_reaction-HasReacted memory (λ db. db) 100 cheer forum cheered.1
      (result_or a_reaction cheered.0) refl

remove-add_reaction_example : remove_reaction memory cheer cheered.1 ≡ (ok (trim " + "), forum)
unfolding add_reaction trim agent_forum.Reactions.find_visible_message
    agent_forum.Reactions.create_reaction_row
remove-add_reaction_example =
    remove-add_reaction memory memory-IsReliable (λ db. db) 100 cheer forum cheered.1
      (result_or a_reaction cheered.0) refl refl

abbrev pub first_order : String → String → Order
first_order a b = before

abbrev pub some_reactions : List Reaction
some_reactions = a_reaction ∷ record a_reaction { emoji = "-" } ∷ a_reaction ∷ []

summarize_exact_example :
    ((emoji : String)
      → find (is_for emoji) (summarize_reactions first_order some_reactions)
        ≡ tally emoji (filter (shows emoji) some_reactions))
    × AreDistinct (summarize_reactions first_order some_reactions)
    × IsMostUsedFirst (summarize_reactions first_order some_reactions)
summarize_exact_example = summarize_exact first_order some_reactions

abbrev pub a_fact : NotificationFact
a_fact = record {
  id = "n1";
  recipient_principal_id = "alice";
  thread_id = thread_id;
  message_id = none;
  reason = "mention";
  source_event_key = "mention:m1";
  created_at = 40;
  read_at = none;
  payload = null;
}

abbrev pub notified_forum : Db
notified_forum = record forum {
  notification_facts =
      a_fact
      ∷ record a_fact { id = "n2"; created_at = 50 }
      ∷ record a_fact { id = "n3"; recipient_principal_id = "bob" }
      ∷ [];
}

abbrev pub all_of_mine : Filter
all_of_mine = record {
  reason = none;
  unread_only = false;
  thread_id = none;
  page = 1;
  limit = 1;
  include_hidden_thread_facts = false;
}

abbrev no_digits : ℕ → String
no_digits n = ""

abbrev pub inbox : Result Facts × Db
inbox = notifications_handler memory (some alice) no_digits none none none none none notified_forum

abbrev facts_of : Result Facts → Facts
facts_of (ok f) = f
facts_of (err e) = find_notifications_for_principal memory "" all_of_mine notified_forum

notifications_handler-ShowsOwn_example :
    ShowsOwn memory
      (some alice)
      no_digits
      none
      none
      none
      none
      none
      notified_forum
      (facts_of inbox.0)
      inbox.1
unfolding notifications_handler agent_forum.Middleware.require_read_scope parse_pagination
notifications_handler-ShowsOwn_example =
    notifications_handler-ShowsOwn memory (some alice) no_digits none none none none none
      notified_forum (facts_of inbox.0) inbox.1 refl

first_pages_exact_example :
    first_pages memory "alice" all_of_mine notified_forum 2
    ≡ take (2 * 1) (
        sort_by newer (
          filter
            (is_listed memory "alice" all_of_mine notified_forum)
            notified_forum.notification_facts))
first_pages_exact_example =
    first_pages_exact memory "alice" all_of_mine notified_forum 2 (omega arith) (omega arith)

abbrev pub marked : Result (ℕ × Db)
marked = mark_notification_facts_read memory 100 ("n1" ∷ "n3" ∷ []) "alice" notified_forum

mark_notification_facts_read-IsRead_example :
    (value_or 0 marked
      ≡ length
          (filter (is_own_unread ("n1" ∷ "n3" ∷ []) "alice") notified_forum.notification_facts))
    × (filter (is_own_unread ("n1" ∷ "n3" ∷ []) "alice") (left_of marked).notification_facts ≡ [])
    × (filter (λ f. f.recipient_principal_id == "bob") (left_of marked).notification_facts
        ≡ filter (λ f. f.recipient_principal_id == "bob") notified_forum.notification_facts)
unfolding mark_notification_facts_read
mark_notification_facts_read-IsRead_example =
    mark_notification_facts_read-IsRead memory "alice" 100 ("n1" ∷ "n3" ∷ []) (value_or 0 marked)
      "bob" notified_forum (left_of marked) (λ e. cc) refl

abbrev pub second_page : Paging
second_page = record { page = 2; limit = 50 }

parse_pagination-bounds_example :
    (1 ≤ second_page.page) × (1 ≤ second_page.limit) × (second_page.limit ≤ 100)
unfolding parse_pagination agent_forum.Pagination.parse_int
parse_pagination-bounds_example =
    parse_pagination-bounds (λ n. "100") (some "2") (some "50") (record { page = 1; limit = 20 })
      100 second_page (omega arith) (omega arith) (omega arith) refl

create_message-Returns_example :
    (m : Message) × (db' : Db) × (create_message memory alone greeting forum ≡ (ok m, db'))
create_message-Returns_example =
    create_message-Returns memory memory-IsReliable alone greeting thread forum refl refl
