-- ===== src/Store/Transaction.antt =====
-- svc-forum/src/lib/data-access/shared.ts: a transaction, and its retries.
pub mod Laws
use agent_forum.Prelude.{
  ℕ, zero, suc, Bool, true, false, ◌&&◌, Option, none, some, ltb, if◌then◌else◌,
}
use agent_forum.Http.{Code, p2002, p2034, other, Error, db_error, Result, ok, err}
use agent_forum.Store.Rows.{Db}

-- A computation on the database inside a transaction: what it has written is lost on an error.
abbrev pub Tx {ℓ} : Type ℓ → Type ℓ
Tx A = Db → Result (A × Db)

infixl 5 ◌>>=◌ ◌>>◌
abbrev pub ◌>>=◌ {ℓ κ} : {A : Type ℓ} {B : Type κ} → Tx A → (A → Tx B) → Tx B
◌>>=◌ m f db = elim (m db) [ ok (a, db') ↦ f a db' | err e ↦ err e ]

abbrev pub ◌>>◌ {ℓ κ} : {A : Type ℓ} {B : Type κ} → Tx A → Tx B → Tx B
m >> k = m >>= λ _. k

abbrev pub return {ℓ} : {A : Type ℓ} → A → Tx A
return a db = ok (a, db)

abbrev pub lift {ℓ} : {A : Type ℓ} → Result A → Tx A
lift (ok a) db = ok (a, db)
lift (err e) db = err e

-- The value of a query, which changes nothing.
abbrev pub ask {ℓ} : {A : Type ℓ} → (Db → A) → Tx A
ask q db = ok (q db, db)

-- What surrounds a request. Attempt k of its transaction runs at time `now k`, sees the database
-- after `others k` (what other transactions have committed since), and its commit may be refused.
pub record Env : Type 0 where
  pub now : ℕ → ℕ
  pub others : ℕ → Db → Db
  pub refuses : ℕ → Option Code

abbrev pub tx_retry_limit : ℕ
tx_retry_limit = 3

unfoldable pub is_retryable_tx_error : Error → Bool
is_retryable_tx_error (db_error p2002) = true
is_retryable_tx_error (db_error p2034) = true
is_retryable_tx_error e = false

-- prisma.$transaction: the writes are kept if the function returns and the commit is accepted.
abbrev pub commit {ℓ} : {A : Type ℓ} → Option Code → Result (A × Db) → Result (A × Db)
commit none r = r
commit (some code) (ok r) = err (db_error code)
commit (some code) (err e) = err e

-- The end of one attempt: return, go round again, or throw.
settle {ℓ} : {A : Type ℓ} → ℕ → Db → Result A × Db → Result (A × Db) → Result A × Db
settle attempt seen again (ok (a, written)) = (ok a, written)
settle attempt seen again (err e) =
    if is_retryable_tx_error e && ltb attempt tx_retry_limit then again else (err e, seen)

-- The result and the database that is left. Attempts start at 1; `fuel` is the attempts left.
pub retry {ℓ} : {A : Type ℓ} → Env → (ℕ → Tx A) → ℕ → ℕ → Db → Result A × Db
unfolding settle is_retryable_tx_error
retry env fn zero attempt db = (err (db_error (other "no attempt left")), db)
retry env fn (suc fuel) attempt db =
    let seen = env.others attempt db in
    let again = retry env fn fuel (suc attempt) seen in
    settle attempt seen again (commit (env.refuses attempt) (fn attempt seen))

unfoldable pub with_transaction_retry {ℓ} : {A : Type ℓ} → Env → (ℕ → Tx A) → Db → Result A × Db
unfolding retry
with_transaction_retry env fn db = retry env fn tx_retry_limit 1 db
