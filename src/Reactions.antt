-- ===== src/Reactions.antt =====
-- svc-forum/src/lib/data-access/reactions.ts: reactions to messages.
pub mod Summary
pub mod Sorted
pub mod Kept
use agent_forum.Prelude.{
  ℕ, ◌+◌, String, Bool, true, false, not, ◌&&◌, Option, none, some, List, [], ◌∷◌, ◌++◌, ◌==◌, ltb,
  is_some, find, if◌then◌else◌,
}
use agent_forum.Js.{trim}
use agent_forum.Http.{
  Error, http_error, db_error, p2002, Result, ok, err, throw_if, ◌>>=◌ as result_bind,
}
use agent_forum.Store.{Prisma, Tx, Db, Message, Reaction, same_reaction, is_visible_in}
use agent_forum.Store.Io.{Io, check, check_db, write, ◌>>=◌, ◌>>◌}
use agent_forum.Requests.{found_or}

pub record ReactionSummary : Type 0 where
  pub emoji : String
  pub count : ℕ
  pub principals : List (String × String)

pub data Order : Type 0 where
  before same after : Order

abbrev pub principal_of : Reaction → String × String
principal_of r = (r.principal_id, r.principal_name)

abbrev pub first_of : Reaction → ReactionSummary
first_of r = record { emoji = r.emoji; count = 0 + 1; principals = principal_of r ∷ [] }

abbrev pub one_more : Reaction → ReactionSummary → ReactionSummary
one_more r entry = record entry {
  count = entry.count + 1;
  principals = entry.principals ++ principal_of r ∷ [];
}

-- The map from an emoji to its entry, in order of insertion.
unfoldable pub count_reaction : Reaction → List ReactionSummary → List ReactionSummary
count_reaction r [] = first_of r ∷ []
count_reaction r (entry ∷ entries) =
    let rest = count_reaction r entries in
    if entry.emoji == r.emoji then one_more r entry ∷ entries else entry ∷ rest

unfoldable pub count_from : List ReactionSummary → List Reaction → List ReactionSummary
count_from by_emoji [] = by_emoji
count_from by_emoji (r ∷ rs) = count_from (count_reaction r by_emoji) rs

-- `localeCompare` is a parameter. A sort is stable: an entry stays before those that compare equal.
module _ (locale_compare : String → String → Order) where
  abbrev pub is_after : Order → Bool
  is_after after = true
  is_after o = false

  -- `b.count - a.count || a.emoji.localeCompare(b.emoji)` is positive.
  unfoldable pub comes_after : ReactionSummary → ReactionSummary → Bool
  comes_after a b =
      if ltb a.count b.count
      then true
      else if ltb b.count a.count
      then false
      else is_after (locale_compare a.emoji b.emoji)

  unfoldable pub insert_summary : ReactionSummary → List ReactionSummary → List ReactionSummary
  insert_summary a [] = a ∷ []
  insert_summary a (b ∷ bs) =
      let rest = insert_summary a bs in if comes_after a b then b ∷ rest else a ∷ b ∷ bs

  unfoldable pub sort_summaries : List ReactionSummary → List ReactionSummary
  sort_summaries [] = []
  sort_summaries (a ∷ rest) = insert_summary a (sort_summaries rest)

  unfoldable pub summarize_reactions : List Reaction → List ReactionSummary
  summarize_reactions rows = sort_summaries (count_from [] rows)

pub record ReactionInput : Type 0 where
  pub message_id : String
  pub thread_id : String
  pub principal_id : String
  pub principal_name : String
  pub emoji : String

abbrev pub already_reacted : Error
already_reacted = http_error 409 "ALREADY_REACTED: this emoji has already been added by you"

abbrev pub no_message : Error
no_message = http_error 404 "Message not found"

abbrev pub no_emoji : Error
no_emoji = http_error 400 "emoji is required"

abbrev pub no_reaction : Error
no_reaction = http_error 404 "Reaction not found"

abbrev pub reaction_row : ReactionInput → String → ℕ → String → Reaction
reaction_row input emoji now id = record {
  id = id;
  message_id = input.message_id;
  thread_id = input.thread_id;
  principal_id = input.principal_id;
  principal_name = input.principal_name;
  emoji = emoji;
  created_at = now;
}

-- The key of the unique index, and the conditions of the removal's query.
abbrev pub is_reaction_of : ReactionInput → String → Reaction → Bool
is_reaction_of input emoji r =
    r.message_id == input.message_id && r.principal_id == input.principal_id && r.emoji == emoji

abbrev pub is_removable : ReactionInput → String → Reaction → Bool
is_removable input emoji r = r.thread_id == input.thread_id && is_reaction_of input emoji r

-- { createdAt: 'asc' }
abbrev pub is_older : Reaction → Reaction → Bool
is_older r s = ltb r.created_at s.created_at

-- The index may refuse what the check before it has let through.
abbrev pub as_reacted : Result (Reaction × Db) → Result (Reaction × Db)
as_reacted (err (db_error p2002)) = err already_reacted
as_reacted r = r

module _ (prisma : Prisma) where
  unfoldable pub find_visible_message : String → String → Db → Option Message
  find_visible_message thread_id message_id db =
      prisma.find_unique (λ m. m.id == message_id && is_visible_in thread_id m) db.messages

  unfoldable pub create_reaction_row : (String → Reaction) → Tx Reaction
  create_reaction_row row db = elim (prisma.create same_reaction row db.reactions) [
    | ok (r, rs) ↦ ok (r, record db { reactions = rs })
    | err e ↦ err e
  ]

  unfoldable pub delete_reaction_row : (Reaction → Bool) → Tx Reaction
  delete_reaction_row which db = elim (prisma.delete which db.reactions) [
    | ok (r, rs) ↦ ok (r, record db { reactions = rs })
    | err e ↦ err e
  ]

  -- `others` is what is committed between the checks and the insertion.
  unfoldable pub add_reaction : (Db → Db) → ℕ → ReactionInput → Io Reaction
  add_reaction others now input = do
    let emoji = trim input.emoji
    check (throw_if (emoji == "") no_emoji)
    _ ←
        check_db
          (λ db. found_or no_message (find_visible_message input.thread_id input.message_id db))
    check_db (λ db.
        throw_if (is_some (prisma.find_unique (is_reaction_of input emoji) db.reactions))
          already_reacted)
    λ db.
        write (λ seen. as_reacted (create_reaction_row (reaction_row input emoji now) seen))
          (others db)

  unfoldable pub remove_reaction : ReactionInput → Io String
  remove_reaction input = do
    let emoji = trim input.emoji
    check (throw_if (emoji == "") no_emoji)
    existing ←
        check_db
          (λ db. found_or no_reaction (prisma.find_unique (is_removable input emoji) db.reactions))
    check (throw_if (not (existing.thread_id == input.thread_id)) no_reaction)
    _ ← write (delete_reaction_row (λ r. r.id == existing.id))
    check (ok emoji)

  unfoldable pub get_reactions_for_message :
      (List Reaction → List ReactionSummary) → String → String → Db → Result (List ReactionSummary)
  get_reactions_for_message summarize thread_id message_id db =
      result_bind (found_or no_message (find_visible_message thread_id message_id db)) (λ m.
        ok
          (summarize (prisma.find_ordered is_older (λ r. r.message_id == message_id) db.reactions)))
