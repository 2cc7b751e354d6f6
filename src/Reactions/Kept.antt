-- ===== src/Reactions/Kept.antt =====
-- Adding a reaction and taking it away.
use agent_forum.Prelude.{
  ℕ, ◌≡◌, sym, ap, subst, ◌∙◌, arith, String, Bool, true, false, not, some, List, [], ◌∷◌, ◌++◌,
  ◌==◌, eq_comm, eq_self, is_some, find, filter, any, inl, inr,
}
use agent_forum.Js.{trim}
use agent_forum.Http.{
  Result, ok, err, db_error, http_error, type_error, parse_error, zod_error, p2002, p2025, p2034,
  other, Result-cases, throw_if,
}
use agent_forum.Store.{Prisma, IsReliable, Db, Message, Reaction, same_reaction}
use agent_forum.Store.Index.{IsUnique, create-IsUnique, find-last, filter-last, any-none}
use agent_forum.Store.Io.{and_then, check, settle}
use agent_forum.Store.Io.Laws.{check_db-ok, settle-ok}
use agent_forum.Requests.{found_or, found_or-ok}
use agent_forum.Reactions.{
  ReactionInput, as_reacted, reaction_row, is_reaction_of, is_removable, already_reacted, no_emoji,
  no_message, find_visible_message, create_reaction_row, delete_reaction_row, add_reaction,
  remove_reaction,
}

pub same_reaction_comm : (r s : Reaction) → same_reaction r s ≡ same_reaction s r
same_reaction_comm r s = ground (
  arith,
  eq_comm r.message_id s.message_id,
  eq_comm r.principal_id s.principal_id,
  eq_comm r.emoji s.emoji,
)

module _ (prisma : Prisma) where
  create_reaction_row-ok :
      (row : String → Reaction) (r : Reaction) (db db' : Db)
      → create_reaction_row prisma row db ≡ ok (r, db')
      → (r ≡ row (prisma.new_id db.reactions))
        × (db' ≡ record db { reactions = db.reactions ++ r ∷ [] })
        × (any (same_reaction r) db.reactions ≡ false)
  unfolding create_reaction_row
  create_reaction_row-ok row r db db' h =
      elim (Result-cases (prisma.create same_reaction row db.reactions)) [
        | inl ((new, rs), e) ↦
            let (one, two, three) = prisma.create_ok same_reaction row db.reactions new rs e in
            (ground (arith, e), ground (arith, e), ground (arith, e))
        | inr (x, e) ↦ cc (rw (e, create_reaction_row) at h)
      ]

  delete_reaction_row-ok :
      (which : Reaction → Bool) (r : Reaction) (db db' : Db)
      → delete_reaction_row prisma which db ≡ ok (r, db')
      → (find which db.reactions ≡ some r)
        × (db' ≡ record db { reactions = filter (λ q. not (which q)) db.reactions })
  unfolding delete_reaction_row
  delete_reaction_row-ok which r db db' h = elim (Result-cases (prisma.delete which db.reactions)) [
    | inl ((old, rs), e) ↦
        let (one, two) = prisma.delete_ok which db.reactions old rs e in
        (ground (arith, e), ground (arith, e))
    | inr (x, e) ↦ cc (rw (e, delete_reaction_row) at h)
  ]

  -- What an added reaction says, and what it was added to: the database `seen` at the time of the
  -- insertion, where nobody else's write of the same reaction has come before.
  pub record HasReacted (input : ReactionInput) (now : ℕ) (db seen db' : Db) (r : Reaction)
      : Type 0 where
    pub on_message : Message
    pub visible : find_visible_message prisma input.thread_id input.message_id db ≡ some on_message
    pub given : (trim input.emoji == "") ≡ false
    pub row : r ≡ reaction_row input (trim input.emoji) now (prisma.new_id seen.reactions)
    pub new : any (same_reaction r) seen.reactions ≡ false
    pub kept : db' ≡ record seen { reactions = seen.reactions ++ r ∷ [] }

  as_reacted-ok : (x : Result (Reaction × Db)) (p : Reaction × Db) → as_reacted x ≡ ok p → x ≡ ok p
  as_reacted-ok (ok x) p h = h
  as_reacted-ok (err (db_error p2002)) p h = cc
  as_reacted-ok (err (db_error p2025)) p h = cc
  as_reacted-ok (err (db_error p2034)) p h = cc
  as_reacted-ok (err (db_error (other s))) p h = cc
  as_reacted-ok (err (http_error s m)) p h = cc
  as_reacted-ok (err type_error) p h = cc
  as_reacted-ok (err parse_error) p h = cc
  as_reacted-ok (err zod_error) p h = cc

  -- A reaction is added only to a message of the thread that is not deleted, with the trimmed emoji
  -- that was asked for, and one row is written that is nobody else's: at the time of the insertion no
  -- row was the same person's same reaction to the same message, whatever others have committed
  -- since the checks.
  pub add_reaction-HasReacted :
      (others : Db → Db) (now : ℕ) (input : ReactionInput) (db db' : Db) (r : Reaction)
      → add_reaction prisma others now input db ≡ (ok r, db')
      → HasReacted input now db (others db) db' r
  unfolding add_reaction
  add_reaction-HasReacted others now input db db' r h =
      let (_, given, h1) = check_db-ok (λ _. throw_if (trim input.emoji == "") no_emoji) _ h in
      let (message, visible, h2) =
        check_db-ok
          (λ db.
            found_or no_message (find_visible_message prisma input.thread_id input.message_id db))
          _ h1 in
      let (_, first, h3) =
        check_db-ok
          (λ db.
            throw_if
              (is_some (prisma.find_unique (is_reaction_of input (trim input.emoji)) db.reactions))
              already_reacted)
          _ h2 in
      let made = as_reacted-ok _ (r, db') (settle-ok (others db) _ h3) in
      let (row, kept, new) = create_reaction_row-ok _ r (others db) db' made in
      record {
        on_message = message;
        visible = found_or-ok no_message _ message visible;
        given = ground (arith, given);
        row = row;
        new = new;
        kept = kept;
      }

  -- No two rows are the same person's same reaction to the same message once a reaction has been
  -- added, if no two were when it was inserted.
  pub add_reaction-IsUnique :
      (others : Db → Db) (now : ℕ) (input : ReactionInput) (db db' : Db) (r : Reaction)
      → add_reaction prisma others now input db ≡ (ok r, db')
      → IsUnique same_reaction (others db).reactions
      → IsUnique same_reaction db'.reactions
  add_reaction-IsUnique others now input db db' r h u =
      let reacted = add_reaction-HasReacted others now input db db' r h in
      rw reacted.kept
        (create-IsUnique same_reaction same_reaction_comm (others db).reactions r reacted.new u)

  -- The query of the removal sees what the unique index sees.
  is_removable-same_reaction :
      (input : ReactionInput) (now : ℕ) (id : String) (q : Reaction)
      → is_removable input (trim input.emoji) q ≡ true
      → same_reaction (reaction_row input (trim input.emoji) now id) q ≡ true
  is_removable-same_reaction input now id q h = ground (
    arith,
    h,
    eq_comm q.message_id input.message_id,
    eq_comm q.principal_id input.principal_id,
    eq_comm q.emoji (trim input.emoji),
  )

  abbrev settle_with : String → Db → Result (Reaction × List Reaction) → Result String × Db
  settle_with emoji db x =
      and_then
        (settle db (elim x [ ok (r, rs) ↦ ok (r, record db { reactions = rs }) | err e ↦ err e ]))
        (λ r. check (ok emoji))

  remove_reaction-found :
      (reliable : IsReliable prisma) (input : ReactionInput) (db : Db) (r : Reaction)
      → (trim input.emoji == "") ≡ false
      → (r.thread_id == input.thread_id) ≡ true
      → find (is_removable input (trim input.emoji)) db.reactions ≡ some r
      → find (λ q. q.id == r.id) db.reactions ≡ some r
      → remove_reaction prisma input db ≡ (
        ok (trim input.emoji),
        record db { reactions = filter (λ q. not (q.id == r.id)) db.reactions },
      )
  unfolding remove_reaction delete_reaction_row
  remove_reaction-found reliable input db r given here found same =
      let asked : prisma.find_unique (is_removable input (trim input.emoji)) db.reactions ≡ some r =
        prisma.find_unique_law _ db.reactions ∙ found in
      rw (given, asked, here)
        (ap (settle_with (trim input.emoji) db)
          (reliable.delete_works (λ q. q.id == r.id) db.reactions r same))

  -- Removing a reaction with the same input right after it was added gives back the database to
  -- which it was added, and answers the trimmed emoji, if the driver is reliable and the new row's
  -- primary key is fresh.
  pub remove-add_reaction :
      (reliable : IsReliable prisma) (others : Db → Db) (now : ℕ) (input : ReactionInput)
      (db db' : Db) (r : Reaction)
      → add_reaction prisma others now input db ≡ (ok r, db')
      → any (λ q. q.id == prisma.new_id (others db).reactions) (others db).reactions ≡ false
      → remove_reaction prisma input db' ≡ (ok (trim input.emoji), others db)
  unfolding remove_reaction delete_reaction_row
  remove-add_reaction reliable others now input db db' r h fresh =
      let reacted = add_reaction-HasReacted others now input db db' r h in
      let old = (others db).reactions in
      let id = prisma.new_id old in
      let own = eq_self r.id in
      let here : (is_removable input (trim input.emoji) r) ≡ true = rw reacted.row (
        ground (
          arith,
          eq_self input.thread_id,
          eq_self input.message_id,
          eq_self input.principal_id,
          eq_self (trim input.emoji),
        )) in
      let absent : any (is_removable input (trim input.emoji)) old ≡ false =
        any-none _ (same_reaction (reaction_row input (trim input.emoji) now id))
          (is_removable-same_reaction input now id) old
          (subst (λ q. any (same_reaction q) old ≡ false) reacted.row reacted.new) in
      let unused : any (λ q. q.id == r.id) old ≡ false =
        subst (λ q. any (λ p. p.id == q.id) old ≡ false) (sym reacted.row) fresh in
      let after : db' ≡ record (others db) { reactions = old ++ r ∷ [] } = reacted.kept in
      rw after (
        remove_reaction-found reliable input (record (others db) { reactions = old ++ r ∷ [] }) r
          reacted.given (ground (arith, here))
          (find-last (is_removable input (trim input.emoji)) old r absent here)
          (find-last (λ q. q.id == r.id) old r unused own)
        ∙ ap (λ rs. (ok (trim input.emoji), record (others db) { reactions = rs }))
            (filter-last (λ q. q.id == r.id) old r unused own))
