-- ===== src/Store/Driver.antt =====
-- The database driver (@prisma/client), which is not part of the repository: its calls are
-- parameters, and what the program relies on are the laws below. A call acts on one table, the list
-- of its rows; a write may fail at any time, and the laws say what a write that succeeds has done.
use agent_forum.Prelude.{
  ℕ, ◌≤◌, ◌≡◌, String, Bool, true, false, Option, none, some, List, [], ◌∷◌, ◌++◌, find, filter,
  any, length, map_where, All, Any, if◌then◌else◌, not, take, drop, sort_by,
}
use agent_forum.Http.{Result, ok, err, db_error, p2002, p2025}

-- The table with those of the new rows that clash with no row before them. A new row waits for the
-- primary key that the database generates.
abbrev pub insert_new :
    {Row : Type 0}
    → (List Row → String)
    → (Row → Row → Bool)
    → List (String → Row)
    → List Row
    → List Row
insert_new new_id clash [] t = t
insert_new new_id clash (r ∷ rs) t =
    insert_new new_id clash rs (if any (clash (r (new_id t))) t then t else t ++ r (new_id t) ∷ [])

pub record Prisma : Type 1 where
  -- findUnique, and findFirst without an order
  pub find_unique : {Row : Type 0} → (Row → Bool) → List Row → Option Row
  -- findMany without an order
  pub find_many : {Row : Type 0} → (Row → Bool) → List Row → List Row
  -- findMany with an order
  pub find_ordered : {Row : Type 0} → (Row → Row → Bool) → (Row → Bool) → List Row → List Row
  -- findMany with an order, skip and take
  pub find_page : {Row : Type 0} → (Row → Row → Bool) → (Row → Bool) → ℕ → ℕ → List Row → List Row
  -- findFirst by a key, descending
  pub find_latest : {Row : Type 0} → (Row → Bool) → (Row → ℕ) → List Row → Option Row
  pub count : {Row : Type 0} → (Row → Bool) → List Row → ℕ
  -- create, in a table with a unique index
  pub create :
      {Row : Type 0} → (Row → Row → Bool) → (String → Row) → List Row → Result (Row × List Row)
  -- update of the row that a test selects
  pub update : {Row : Type 0} → (Row → Bool) → (Row → Row) → List Row → Result (Row × List Row)
  pub update_many : {Row : Type 0} → (Row → Bool) → (Row → Row) → List Row → Result (ℕ × List Row)
  pub delete : {Row : Type 0} → (Row → Bool) → List Row → Result (Row × List Row)
  -- createMany with skipDuplicates
  pub create_many :
      {Row : Type 0} → (Row → Row → Bool) → List (String → Row) → List Row → Result (List Row)
  -- the generated primary key of the row that is created next
  pub new_id : {Row : Type 0} → List Row → String
  pub find_unique_law : {Row : Type 0} (p : Row → Bool) (t : List Row) → find_unique p t ≡ find p t
  pub find_many_law : {Row : Type 0} (p : Row → Bool) (t : List Row) → find_many p t ≡ filter p t
  pub find_ordered_law :
      {Row : Type 0} (before : Row → Row → Bool) (p : Row → Bool) (t : List Row)
      → find_ordered before p t ≡ sort_by before (filter p t)
  pub find_page_law :
      {Row : Type 0} (before : Row → Row → Bool) (p : Row → Bool) (skip n : ℕ) (t : List Row)
      → find_page before p skip n t ≡ take n (drop skip (sort_by before (filter p t)))
  pub count_law : {Row : Type 0} (p : Row → Bool) (t : List Row) → count p t ≡ length (filter p t)
  pub find_latest_some :
      {Row : Type 0} (p : Row → Bool) (key : Row → ℕ) (t : List Row) (r : Row)
      → find_latest p key t ≡ some r
      → (p r ≡ true) × Any (λ q. q ≡ r) t × All (λ q. p q ≡ true → key q ≤ key r) t
  pub find_latest_none :
      {Row : Type 0} (p : Row → Bool) (key : Row → ℕ) (t : List Row)
      → find_latest p key t ≡ none
      → All (λ q. p q ≡ false) t
  pub create_ok :
      {Row : Type 0} (clash : Row → Row → Bool) (r : String → Row) (t : List Row) (new : Row)
      (t' : List Row)
      → create clash r t ≡ ok (new, t')
      → (new ≡ r (new_id t)) × (t' ≡ t ++ new ∷ []) × (any (clash new) t ≡ false)
  pub create_clash :
      {Row : Type 0} (clash : Row → Row → Bool) (r : String → Row) (t : List Row)
      → any (clash (r (new_id t))) t ≡ true
      → create clash r t ≡ err (db_error p2002)
  pub update_ok :
      {Row : Type 0} (p : Row → Bool) (f : Row → Row) (t : List Row) (r : Row) (t' : List Row)
      → update p f t ≡ ok (r, t')
      → (old : Row) × (find p t ≡ some old) × (r ≡ f old) × (t' ≡ map_where p f t)
  pub update_missing :
      {Row : Type 0} (p : Row → Bool) (f : Row → Row) (t : List Row)
      → find p t ≡ none
      → update p f t ≡ err (db_error p2025)
  pub update_p2025 :
      {Row : Type 0} (p : Row → Bool) (f : Row → Row) (t : List Row)
      → update p f t ≡ err (db_error p2025)
      → find p t ≡ none
  pub delete_ok :
      {Row : Type 0} (p : Row → Bool) (t : List Row) (r : Row) (t' : List Row)
      → delete p t ≡ ok (r, t')
      → (find p t ≡ some r) × (t' ≡ filter (λ q. not (p q)) t)
  pub delete_missing :
      {Row : Type 0} (p : Row → Bool) (t : List Row)
      → find p t ≡ none
      → delete p t ≡ err (db_error p2025)
  pub update_many_ok :
      {Row : Type 0} (p : Row → Bool) (f : Row → Row) (t : List Row) (n : ℕ) (t' : List Row)
      → update_many p f t ≡ ok (n, t')
      → (n ≡ length (filter p t)) × (t' ≡ map_where p f t)
  pub create_many_ok :
      {Row : Type 0} (clash : Row → Row → Bool) (rs : List (String → Row)) (t t' : List Row)
      → create_many clash rs t ≡ ok t'
      → t' ≡ insert_new new_id clash rs t

-- A driver whose writes fail only where the database refuses them: a clash with a unique index, or
-- no row to update.
pub record IsReliable (prisma : Prisma) : Type 1 where
  pub create_works :
      {Row : Type 0} (clash : Row → Row → Bool) (r : String → Row) (t : List Row)
      → any (clash (r (prisma.new_id t))) t ≡ false
      → prisma.create clash r t ≡ ok (r (prisma.new_id t), t ++ r (prisma.new_id t) ∷ [])
  pub update_works :
      {Row : Type 0} (p : Row → Bool) (f : Row → Row) (t : List Row) (old : Row)
      → find p t ≡ some old
      → prisma.update p f t ≡ ok (f old, map_where p f t)
  pub delete_works :
      {Row : Type 0} (p : Row → Bool) (t : List Row) (old : Row)
      → find p t ≡ some old
      → prisma.delete p t ≡ ok (old, filter (λ q. not (p q)) t)
  pub update_many_works :
      {Row : Type 0} (p : Row → Bool) (f : Row → Row) (t : List Row)
      → prisma.update_many p f t ≡ ok (length (filter p t), map_where p f t)
  pub create_many_works :
      {Row : Type 0} (clash : Row → Row → Bool) (rs : List (String → Row)) (t : List Row)
      → prisma.create_many clash rs t ≡ ok (insert_new prisma.new_id clash rs t)
