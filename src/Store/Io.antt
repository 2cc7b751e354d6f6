-- ===== src/Store/Io.antt =====
-- A request handler: it reads and writes the database step by step, and what it has written before
pub mod Laws
-- an error stays.
use agent_forum.Prelude.{ℕ}
use agent_forum.Http.{Result, ok, err}
use agent_forum.Store.Rows.{Db}
use agent_forum.Store.Transaction.{Tx}

abbrev pub Io {ℓ} : Type ℓ → Type ℓ
Io A = Db → Result A × Db

abbrev pub and_then {ℓ κ} : {A : Type ℓ} {B : Type κ} → Result A × Db → (A → Io B) → Result B × Db
and_then (ok a, db) f = f a db
and_then (err e, db) f = (err e, db)

infixl 5 ◌>>=◌ ◌>>◌
abbrev pub ◌>>=◌ {ℓ κ} : {A : Type ℓ} {B : Type κ} → Io A → (A → Io B) → Io B
◌>>=◌ m f db = and_then (m db) f

abbrev pub ◌>>◌ {ℓ κ} : {A : Type ℓ} {B : Type κ} → Io A → Io B → Io B
m >> k = m >>= λ _. k

-- A guard, or a value that is computed from the request alone.
abbrev pub check {ℓ} : {A : Type ℓ} → Result A → Io A
check r db = (r, db)

-- A guard on what a query has found.
abbrev pub check_db {ℓ} : {A : Type ℓ} → (Db → Result A) → Io A
check_db q db = (q db, db)

-- One write outside a transaction.
abbrev pub settle {ℓ} : {A : Type ℓ} → Db → Result (A × Db) → Result A × Db
settle db (ok (a, written)) = (ok a, written)
settle db (err e) = (err e, db)

abbrev pub write {ℓ} : {A : Type ℓ} → Tx A → Io A
write m db = settle db (m db)
