-- ===== src/Requests/Laws.antt =====
-- Which threads a caller gets, and what he learns of the others.
use agent_forum.Prelude.{
  String, Bool, not, ◌||◌, ◌==◌, ◌≡◌, refl, Option, none, some, List, contains, arith, find,
  eq_comm, Bool-cases, if◌then◌else◌, Option-cases, inl, inr,
}
use agent_forum.Http.{Result, ok, err}
use agent_forum.Store.{Prisma, Db, Thread}
use agent_forum.Ids.{is_uuid}
use agent_forum.Review.{find_thread_by_id}
use agent_forum.Requests.{no_thread, thread_or_404, visible_thread}

-- The caller may see the thread: it is neither hidden nor deleted, or he has a governance scope.
abbrev pub may_see : List String → Thread → Bool
may_see scopes t =
    not (t.status == "hidden" || t.status == "deleted")
    || contains scopes "forum.moderate"
    || contains scopes "forum.admin"

-- The row of an id; an id that is no UUID has none.
abbrev pub row_of : String → Db → Option Thread
row_of id db = if is_uuid id then find (λ t. t.id == id) db.threads else none

-- What a caller is told of the row behind an id.
abbrev pub told : List String → Option Thread → Result Thread
told scopes none = err no_thread
told scopes (some t) = if may_see scopes t then ok t else err no_thread

-- A caller gets a thread exactly if its id is a UUID that has a row, and the row is neither hidden nor
-- deleted or he has a governance scope. In every other case the error is the one for a thread that
-- does not exist.
pub visible_thread_exact :
    (prisma : Prisma) (id : String) (scopes : List String) (db : Db)
    → visible_thread prisma id scopes db ≡ told scopes (row_of id db)
unfolding visible_thread thread_or_404 find_thread_by_id
    agent_forum.Governance.Visibility.assert_ordinary_read_visibility
visible_thread_exact prisma id scopes db =
    let law = prisma.find_unique_law (λ t. t.id == id) db.threads in
    elim (Bool-cases (is_uuid id)) [
      | inr e ↦ rw e refl
      | inl e ↦ elim (Option-cases (find (λ t. t.id == id) db.threads)) [
        | inl f ↦ ground (arith, e, law, f)
        | inr (t, f) ↦
            ground (arith, e, law, f, eq_comm t.status "hidden", eq_comm t.status "deleted")
      ]
    ]
