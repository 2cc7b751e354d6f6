-- ===== src/Store/Io/Laws.antt =====
-- How a request handler returns, step by step, and what it leaves when it fails.
use agent_forum.Prelude.{ℕ, ◌≤◌, ◌≡◌, refl, ap, arith}
use agent_forum.Http.{Result, ok, err}
use agent_forum.Store.Rows.{Db}
use agent_forum.Store.Transaction.{Tx, Env, tx_retry_limit, with_transaction_retry}
use agent_forum.Store.Transaction.Laws.{IsAtomic, seen, with_transaction_retry-IsAtomic}
use agent_forum.Store.Io.{Io, and_then, ◌>>=◌, check, check_db, settle}

-- The parts of a handler that has returned.
pub and_then-ok {ℓ κ} :
    {A : Type ℓ} {B : Type κ} (p : Result A × Db) (f : A → Io B) {b : B} {db' : Db}
    → and_then p f ≡ (ok b, db')
    → (a : A) × (p.0 ≡ ok a) × (f a p.1 ≡ (ok b, db'))
and_then-ok (ok a, db) f h = (a, refl, h)
and_then-ok (err e, db) f h = cc (ap (λ p. p.0) h)

-- A guard that has let the request through.
pub check_db-ok {ℓ κ} :
    {A : Type ℓ} {B : Type κ} (q : Db → Result A) (f : A → Io B) {b : B} {db db' : Db}
    → (check_db q >>= f) db ≡ (ok b, db')
    → (a : A) × (q db ≡ ok a) × (f a db ≡ (ok b, db'))
check_db-ok q f {db} h = and_then-ok (q db, db) f h

-- The last step of a handler: a transaction, and the reply with its value.
pub and_then-last {ℓ κ} :
    {A : Type ℓ} {B : Type κ} (p : Result A × Db) (f : A → B) {b : B} {db' : Db}
    → and_then p (λ a. check (ok (f a))) ≡ (ok b, db')
    → (a : A) × (p ≡ (ok a, db')) × (b ≡ f a)
and_then-last (ok a, db) f h = (a, ap (λ p. (ok a, p.1)) h, ground (arith, h))
and_then-last (err e, db) f h = cc (ap (λ p. p.0) h)

-- Only what others have committed is left after an error.
abbrev pub Spares : {A : Type 0} → Env → Db → Result A × Db → Type 0
Spares env db (ok a, left) = Unit
Spares env db (err e, left) = (k : ℕ) × (k ≤ tx_retry_limit) × (left ≡ seen env k db)

and_then-Spares :
    {A B : Type 0} (env : Env) (db : Db) (r : Result A) (f : A → Io B)
    → ((a : A) → r ≡ ok a → Spares env db (f a db))
    → Spares env db (and_then (r, db) f)
and_then-Spares env db (ok a) f h = h a refl
and_then-Spares env db (err e) f h = (0, omega arith, refl)

pub check_db-Spares :
    {A B : Type 0} (env : Env) (db : Db) (q : Db → Result A) (f : A → Io B)
    → ((a : A) → q db ≡ ok a → Spares env db (f a db))
    → Spares env db ((check_db q >>= f) db)
check_db-Spares env db q f h = and_then-Spares env db (q db) f h

atomic-Spares :
    {A B : Type 0} (env : Env) (db : Db) (fn : ℕ → Tx A) (r : Result A × Db) (f : A → B)
    → IsAtomic env fn db r
    → Spares env db (and_then r (λ a. check (ok (f a))))
atomic-Spares env db fn (ok a, left) f h = tt
atomic-Spares env db fn (err e, left) f h = h

-- A transaction at the end of a handler.
pub transaction-Spares :
    {A B : Type 0} (env : Env) (db : Db) (fn : ℕ → Tx A) (f : A → B)
    → Spares env db ((with_transaction_retry env fn >>= λ a. check (ok (f a))) db)
transaction-Spares env db fn f =
    atomic-Spares env db fn (with_transaction_retry env fn db) f
      (with_transaction_retry-IsAtomic env fn db)

-- A write that has succeeded.
pub settle-ok {ℓ} :
    {A : Type ℓ} (db : Db) (r : Result (A × Db)) {a : A} {db' : Db}
    → settle db r ≡ (ok a, db')
    → r ≡ ok (a, db')
settle-ok db (ok (a, written)) h = ground (arith, h)
settle-ok db (err e) h = cc (ap (λ p. p.0) h)

-- The steps of a handler that has returned.
pub >>=-ok {ℓ κ} :
    {A : Type ℓ} {B : Type κ} (m : Io A) (f : A → Io B) {b : B} {db db' : Db}
    → (m >>= f) db ≡ (ok b, db')
    → (a : A) × (mid : Db) × (m db ≡ (ok a, mid)) × (f a mid ≡ (ok b, db'))
>>=-ok m f {db} h =
    let (a, first, rest) = and_then-ok (m db) f h in (a, (m db).1, (λ i. (first i, (m db).1)), rest)
