-- ===== src/Http.antt =====
-- svc-forum/src/utils/http-error.ts and svc-forum/src/middleware/error-handler.ts: what a handler
-- throws, and the response that it becomes.
use agent_forum.Prelude.{ℕ, String, Bool, true, false, ◌≡◌, refl, ◌⊎◌, inl, inr}

-- The driver's error codes that the source looks at.
pub data Code : Type 0 where
  p2002 p2025 p2034 : Code
  other : String → Code

-- `http_error` is HttpError; `db_error` comes from the database driver; `type_error` is the
-- language's own, as from `.trim()` on a number.
pub data Error : Type 0 where
  http_error : ℕ → String → Error
  db_error : Code → Error
  type_error parse_error zod_error : Error

pub data Result {ℓ} (A : Type ℓ) : Type ℓ where
  ok : A → Result A
  err : Error → Result A

-- To split on a computed result and keep the equation.
pub Result-cases {κ} :
    {X : Type κ} (given : Result X)
    → ((x : X) × (given ≡ ok x)) ⊎ ((thrown : Error) × (given ≡ err thrown))
Result-cases (err thrown) = inr (thrown, refl)
Result-cases (ok x) = inl (x, refl)

infixl 5 ◌>>◌ ◌>>=◌
-- The next step runs on what the one before has returned.
abbrev pub ◌>>=◌ {κ μ} : {X : Type κ} {Y : Type μ} → Result X → (X → Result Y) → Result Y
(err thrown) >>= next = err thrown
(ok x) >>= next = next x

-- `if (!b) throw e`
abbrev pub require : Bool → Error → Result (Unit {0})
require true e = ok tt
require false e = err e

-- `if (b) throw e`
abbrev pub throw_if : Bool → Error → Result (Unit {0})
throw_if true e = err e
throw_if false e = ok tt

abbrev pub ◌>>◌ {μ} : {Y : Type μ} → Result (Unit {0}) → Result Y → Result Y
guard >> next = guard >>= λ passed. next

-- The status and the text of the response to an error.
unfoldable pub error_handler : Error → ℕ × String
error_handler parse_error = (400, "Invalid JSON body")
error_handler (http_error status message) = (status, message)
error_handler (db_error code) = (500, "Internal Server Error")
error_handler type_error = (500, "Internal Server Error")
error_handler zod_error = (400, "请求参数校验失败")
