-- ===== src/Messages/Counted.antt =====
-- The message count of a thread: posting a message, and the repair.
use agent_forum.Prelude.{
  ℕ, String, true, false, ◌≡◌, refl, sym, subst, ap, ◌∙◌, some, List, [], ◌∷◌, ◌++◌, ◌==◌, eq_iff,
  eq_comm, arith, filter, length, map_where, All, if◌then◌else◌, Bool-cases, inl, inr,
}
use agent_forum.Http.{ok}
use agent_forum.Store.{Prisma, Db, Thread, Message, is_visible_in}
use agent_forum.Messages.{
  CreateMessage, create_message_tx, repair_thread_message_derived_state, created_at_of,
}
use agent_forum.Messages.Rows.{update_thread_row-ok}
use agent_forum.Messages.Create.{HasPosted, create_message_tx-HasPosted}

abbrev pub visible_count : String → List Message → ℕ
visible_count id ms = length (filter (is_visible_in id) ms)

-- The row of a thread counts the thread's visible messages.
abbrev pub IsCounted : String → Db → Type 0
IsCounted id db =
    All (λ t. (t.id == id) ≡ true → t.message_count ≡ visible_count id db.messages) db.threads

counted_row :
    (id th : String) (n m : ℕ) (f : Thread → Thread) (t : Thread)
    → (f t).id ≡ t.id
    → ((id == th) ≡ true → (t : Thread) → (f t).message_count ≡ m)
    → ((id == th) ≡ false → n ≡ m)
    → ((t.id == id) ≡ true → t.message_count ≡ n)
    → ((if t.id == th then f t else t).id == id) ≡ true
    → (if t.id == th then f t else t).message_count ≡ m
counted_row id th n m f t same sets keeps h = elim (Bool-cases (t.id == th)) [
  | inl e ↦ rw e (λ k.
      let home : id ≡ th = ground (arith, e, k, same, eq_iff t.id th, eq_iff (f t).id id) in
      sets ((eq_iff id th).1 home) t)
  | inr e ↦ rw e (λ k.
      let away : (id == th) ≡ false =
        ground (arith, e, k, eq_iff t.id id, eq_iff id th, eq_iff t.id th) in
      h k ∙ keeps away)
]

-- The count of one thread after the rows of a thread have been changed.
counted_rows :
    (id th : String) (n m : ℕ) (f : Thread → Thread) (ts : List Thread)
    → ((t : Thread) → (f t).id ≡ t.id)
    → ((id == th) ≡ true → (t : Thread) → (f t).message_count ≡ m)
    → ((id == th) ≡ false → n ≡ m)
    → All (λ t. (t.id == id) ≡ true → t.message_count ≡ n) ts
    → All (λ t. (t.id == id) ≡ true → t.message_count ≡ m) (map_where (λ t. t.id == th) f ts)
counted_rows id th n m f [] same sets keeps h = tt
counted_rows id th n m f (t ∷ ts) same sets keeps h = (
  counted_row id th n m f t (same t) sets keeps h.0,
  counted_rows id th n m f ts same sets keeps h.1,
)

visible_count-append :
    (id : String) (ms : List Message) (m : Message)
    → (m.thread_id == id) ≡ false
    → visible_count id (ms ++ m ∷ []) ≡ visible_count id ms
visible_count-append id [] m h = ground arith
visible_count-append id (x ∷ ms) m h = ground (arith, visible_count-append id ms m h)

HasPosted-IsCounted :
    (input : CreateMessage) (t0 : ℕ) (db db' : Db) (m : Message)
    → HasPosted input t0 db db' m
    → (id : String) → IsCounted id db
    → IsCounted id db'
HasPosted-IsCounted input t0 db db' m h id counted =
    let f : Thread → Thread = λ t. record t {
      message_count = visible_count input.thread_id db'.messages;
      last_message_at = some m.created_at;
    } in
    let home : m.thread_id ≡ input.thread_id = ap (λ (m : Message). m.thread_id) h.row in
    subst
      (λ ts. All (λ t. (t.id == id) ≡ true → t.message_count ≡ visible_count id db'.messages) ts)
      (sym h.counted)
      (counted_rows id input.thread_id (visible_count id db.messages)
        (visible_count id db'.messages) f db.threads (λ t. refl)
        (λ e t. ap (λ i. visible_count i db'.messages) (sym ((eq_iff id input.thread_id).0 e)))
        (λ e. sym (
          ap (visible_count id) h.added
          ∙ visible_count-append id db.messages m
              (ground (arith, e, home, eq_comm id input.thread_id))))
        counted)

repaired_row :
    (id : String) (n : ℕ) (f : Thread → Thread) (t : Thread)
    → (f t).id ≡ t.id
    → (f t).message_count ≡ n
    → ((if t.id == id then f t else t).id == id) ≡ true
    → (if t.id == id then f t else t).message_count ≡ n
repaired_row id n f t same sets = elim (Bool-cases (t.id == id)) [
  | inl e ↦ rw e (λ k. sets)
  | inr e ↦ rw e (λ k. cc)
]

repaired :
    (id : String) (n : ℕ) (f : Thread → Thread) (ts : List Thread)
    → ((t : Thread) → (f t).id ≡ t.id)
    → ((t : Thread) → (f t).message_count ≡ n)
    → All (λ t. (t.id == id) ≡ true → t.message_count ≡ n) (map_where (λ t. t.id == id) f ts)
repaired id n f [] same sets = tt
repaired id n f (t ∷ ts) same sets =
    (repaired_row id n f t (same t) (sets t), repaired id n f ts same sets)

-- A message that is posted keeps the count of every thread true.
pub create_message_tx-IsCounted :
    (prisma : Prisma) (input : CreateMessage) (t0 : ℕ) (m : Message) (db db' : Db) (id : String)
    → create_message_tx prisma input t0 db ≡ ok (m, db')
    → IsCounted id db
    → IsCounted id db'
create_message_tx-IsCounted prisma input t0 m db db' id h counted =
    HasPosted-IsCounted input t0 db db' m (create_message_tx-HasPosted prisma input t0 m db db' h)
      id counted

-- The repair makes the count of its thread true, whatever it was before.
pub repair-IsCounted :
    (prisma : Prisma) (id : String) (t : Thread) (db db' : Db)
    → repair_thread_message_derived_state prisma id db ≡ ok (t, db')
    → IsCounted id db'
unfolding repair_thread_message_derived_state
repair-IsCounted prisma id t db db' h =
    let latest = prisma.find_latest (is_visible_in id) (λ m. m.created_at) db.messages in
    let f : Thread → Thread = λ t. record t {
      message_count = visible_count id db.messages;
      last_message_at = created_at_of prisma latest;
    } in
    let (_, _, _, stored) =
      update_thread_row-ok prisma db db' (λ t. t.id == id) f t
        (rw (prisma.count_law (is_visible_in id) db.messages) at h) in
    subst (IsCounted id) (sym stored)
      (repaired id (visible_count id db.messages) f db.threads (λ t. refl) (λ t. refl))
