-- ===== src/Store/Transaction/Laws.antt =====
-- What is left of a transaction and its retries.
use agent_forum.Prelude.{
  ℕ, zero, suc, ◌+◌, ◌≤◌, ◌<◌, ◌≡◌, refl, Bool, true, false, ◌&&◌, Option, none, some, arith, ltb,
  Bool-cases, inl, inr,
}
use agent_forum.Http.{Code, Error, Result, ok, err, Result-cases, throw_if}
use agent_forum.Store.Rows.{Db}
use agent_forum.Store.Transaction.{
  Tx, ◌>>=◌, ◌>>◌, lift, return, Env, tx_retry_limit, is_retryable_tx_error, commit, settle, retry,
  with_transaction_retry,
}

-- The parts of a computation that has returned.
pub >>=-ok {ℓ κ} :
    {A : Type ℓ} {B : Type κ} (m : Tx A) (f : A → Tx B) {b : B} {db db' : Db}
    → (m >>= f) db ≡ ok (b, db')
    → (a : A) × (mid : Db) × (m db ≡ ok (a, mid)) × (f a mid ≡ ok (b, db'))
>>=-ok m f {db} h = elim (Result-cases (m db)) [
  | inl ((a, mid), e) ↦ (a, mid, e, rw (e, ◌>>=◌) at h)
  | inr (x, e) ↦ cc (rw (e, ◌>>=◌) at h)
]

-- A computation whose result is thrown away.
pub discarded-ok {ℓ} :
    {A : Type ℓ} (m : Tx A) {db db' : Db}
    → (m >>= λ _. return {A = Unit {0}} tt) db ≡ ok (tt, db')
    → (a : A) × (m db ≡ ok (a, db'))
discarded-ok m {db} {db'} h =
    let (a, mid, e, same) = >>=-ok m (λ _. return {A = Unit {0}} tt) h in
    let last : mid ≡ db' = ground arith in (a, rw last at e)

-- What attempt k sees: the database after all that others have committed by then.
abbrev pub seen : Env → ℕ → Db → Db
seen env zero db = db
seen env (suc k) db = env.others (suc k) (seen env k db)

-- A result comes from one attempt whose commit was accepted, on the database which it saw; an
-- error leaves the database as the last attempt saw it.
abbrev pub IsAtomic : {A : Type 0} → Env → (ℕ → Tx A) → Db → Result A × Db → Type 0
IsAtomic env fn db (ok a, left) =
    (k : ℕ) × (1 ≤ k)
    × (k ≤ tx_retry_limit)
    × (env.refuses k ≡ none)
    × (fn k (seen env k db) ≡ ok (a, left))
IsAtomic env fn db (err e, left) = (k : ℕ) × (k ≤ tx_retry_limit) × (left ≡ seen env k db)

pub commit-ok :
    {A : Type 0} (c : Option Code) (r : Result (A × Db)) (a : A) (w : Db)
    → commit c r ≡ ok (a, w)
    → (c ≡ none) × (r ≡ ok (a, w))
commit-ok none r a w h = (refl, h)
commit-ok (some code) (ok r) a w h = cc
commit-ok (some code) (err e) a w h = cc

module _ {A : Type 0} (env : Env) (fn : ℕ → Tx A) (db : Db) where
  settle-IsAtomic :
      (j : ℕ) (again : Result A × Db) (r : Result (A × Db))
      → j < tx_retry_limit
      → commit (env.refuses (suc j)) (fn (suc j) (seen env (suc j) db)) ≡ r
      → (suc j < tx_retry_limit → IsAtomic env fn db again)
      → IsAtomic env fn db (settle (suc j) (seen env (suc j) db) again r)
  unfolding settle
  settle-IsAtomic j again (ok (a, w)) h e more =
      let (accepted, ran) =
        commit-ok (env.refuses (suc j)) (fn (suc j) (seen env (suc j) db)) a w e in
      (suc j, omega arith, omega arith, accepted, ran)
  settle-IsAtomic j again (err x) h e more =
      elim (Bool-cases (is_retryable_tx_error x && ltb (suc j) tx_retry_limit)) [
        | inl round ↦ rw (round, IsAtomic) (more (ground arith))
        | inr over ↦ rw (over, IsAtomic) (suc j, omega arith, refl)
      ]

  retry-IsAtomic :
      (fuel j : ℕ)
      → j + fuel ≡ tx_retry_limit
      → IsAtomic env fn db (retry env fn fuel (suc j) (seen env j db))
  unfolding retry
  retry-IsAtomic zero j h = (j, omega arith, refl)
  retry-IsAtomic (suc fuel) j h =
      settle-IsAtomic j _ _ (omega arith) refl (λ _. retry-IsAtomic fuel (suc j) (omega arith))

  -- A transaction with its retries returns what a single attempt out of at most three has computed
  -- from the committed state before it, or throws and leaves no write of its own.
  pub with_transaction_retry-IsAtomic : IsAtomic env fn db (with_transaction_retry env fn db)
  unfolding with_transaction_retry
  with_transaction_retry-IsAtomic = retry-IsAtomic tx_retry_limit 0 refl

  settle-fuel :
      (j : ℕ) (seen : Db) (again again' : Result A × Db) (r : Result (A × Db))
      → (ltb j tx_retry_limit ≡ true → again ≡ again')
      → settle j seen again r ≡ settle j seen again' r
  unfolding settle
  settle-fuel j seen again again' (ok (a, w)) h = refl
  settle-fuel j seen again again' (err x) h = ground arith

  retry-fuel :
      (extra fuel j : ℕ) (left : Db)
      → j + fuel ≡ tx_retry_limit
      → 0 < fuel
      → retry env fn (fuel + extra) (suc j) left ≡ retry env fn fuel (suc j) left
  unfolding retry
  retry-fuel extra zero j left h pos = absurd (omega arith)
  retry-fuel extra (suc fuel) j left h pos =
      let seen = env.others (suc j) left in
      let more : suc fuel + extra ≡ suc (fuel + extra) = omega arith in
      rw more (
        settle-fuel (suc j) seen (retry env fn (fuel + extra) (suc (suc j)) seen)
          (retry env fn fuel (suc (suc j)) seen) (commit (env.refuses (suc j)) (fn (suc j) seen))
          (λ round. retry-fuel extra fuel (suc j) seen (omega arith) (ground arith)))

  -- Three rounds are enough: with more fuel the loop gives the same.
  pub retry_enough :
      (extra : ℕ) → retry env fn (tx_retry_limit + extra) 1 db ≡ with_transaction_retry env fn db
  unfolding with_transaction_retry
  retry_enough extra = retry-fuel extra tx_retry_limit 0 db refl (omega arith)

-- A guard that has let a transaction go on.
pub lift-throw_if-ok {ℓ} :
    {A : Type ℓ} (b : Bool) (thrown : Error) (next : Tx A) (db : Db) {a : A} {db' : Db}
    → (lift (throw_if b thrown) >> next) db ≡ ok (a, db')
    → (b ≡ false) × (next db ≡ ok (a, db'))
lift-throw_if-ok true thrown next db h = cc
lift-throw_if-ok false thrown next db h = (refl, h)

-- A transaction that returns at once and whose commit is accepted.
pub with_transaction_retry-first :
    {A : Type 0} (env : Env) (fn : ℕ → Tx A) (db written : Db) (a : A)
    → env.refuses 1 ≡ none
    → fn 1 (env.others 1 db) ≡ ok (a, written)
    → with_transaction_retry env fn db ≡ (ok a, written)
unfolding with_transaction_retry retry settle
with_transaction_retry-first env fn db written a accepted h = rw (accepted, h) refl
