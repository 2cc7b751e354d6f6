-- ===== src/Auth/Answers.antt =====
-- How a caller who is refused, or who sends no token, is answered.
use agent_forum.Prelude.{
  ℕ, ◌≡◌, refl, sym, ap, arith, String, false, Option, none, some, List, nat_eq, Bool-cases,
  Option-cases, inl, inr, ◌⊎◌, ◌≢◌, [], ◌∷◌,
}
use agent_forum.Http.{
  Error, http_error, db_error, type_error, parse_error, zod_error, Result, ok, err,
}
use agent_forum.Js.{template}
use agent_forum.Principals.{resolve_principal}
use agent_forum.Store.{Prisma, Db, Env, Principal}
use agent_forum.Store.Io.{Io, check, and_then, ◌>>=◌}
use agent_forum.Middleware.{User}
use agent_forum.Auth.Tokens.{
  VerifyError, token_invalid, contract_invalid, jwks_unavailable, Verification, Verified, Verdict,
  accepted, refused, verify_auth_access_token,
}
use agent_forum.Auth.{
  extract_token, verify_error_to_http, identity_error, accept, or_identity_error,
  verify_and_resolve, auth_required, auth_optional, params_of, build_agent_user, resolve_caller,
}

-- A resolution's error, and what the caller is told of it: a conflict of identities becomes a 401,
-- any other error of the service's own stays what it is, and every other error becomes a 500.
pub data IsAnswerTo : Error → Error → Type 0 where
  conflict :
      (m : String)
      → IsAnswerTo (http_error 409 m) (http_error 401 (template ("Identity conflict: " ∷ m ∷ [])))
  same :
      (status : ℕ) (m : String)
      → (nat_eq status 409 ≡ false)
      → IsAnswerTo (http_error status m) (http_error status m)
  broken :
      (x : Error)
      → ((status : ℕ) (m : String) → x ≢ http_error status m)
      → IsAnswerTo x (http_error 500 "Failed to resolve agent identity")

identity_error-IsAnswerTo : (e : Error) → IsAnswerTo e (identity_error e)
identity_error-IsAnswerTo (http_error status message) = elim (Bool-cases (nat_eq status 409)) [
  | inl e ↦ let is_409 : status ≡ 409 = ground (arith, e) in rw (e, is_409) (conflict message)
  | inr e ↦ rw e (same status message e)
]
identity_error-IsAnswerTo (db_error c) = broken (db_error c) (λ s m h. cc)
identity_error-IsAnswerTo type_error = broken type_error (λ s m h. cc)
identity_error-IsAnswerTo parse_error = broken parse_error (λ s m h. cc)
identity_error-IsAnswerTo zod_error = broken zod_error (λ s m h. cc)

module _ (operators : List String) (prisma : Prisma) (jwt_verify : String → Verification)
    (env : Env) (meanwhile : ℕ → Db → Db) where
  auth_required-some :
      (header : Option String) (token : String)
      → extract_token header ≡ some token
      → auth_required operators prisma jwt_verify env meanwhile header
        ≡ verify_and_resolve operators prisma jwt_verify env meanwhile token
  unfolding auth_required
  auth_required-some header token e = rw (auth_required, e) refl

  -- Why a caller is refused, and how he is answered.
  pub data IsRefused (header : Option String) (db : Db) : Error → Type 0 where
    no_token : extract_token header ≡ none → IsRefused header db (http_error 401 "请先登录")
    no_keys :
        (token : String)
        → extract_token header ≡ some token
        → verify_auth_access_token jwt_verify token ≡ refused jwks_unavailable
        → IsRefused header db (http_error 503 "AUTH_JWKS_UNAVAILABLE")
    bad_token :
        (token : String) (code : String)
        → extract_token header ≡ some token
        → (verify_auth_access_token jwt_verify token ≡ refused token_invalid)
          ⊎ (verify_auth_access_token jwt_verify token ≡ refused contract_invalid)
        → IsRefused header db (http_error 401 code)
    no_principal :
        (token : String) (v : Verified) (x e : Error)
        → extract_token header ≡ some token
        → verify_auth_access_token jwt_verify token ≡ accepted v
        → (resolve_principal prisma env meanwhile (params_of operators v) db).0 ≡ err x
        → IsAnswerTo x e
        → IsRefused header db e

  module _ (header : Option String) (token : String) (db : Db)
      (sent : extract_token header ≡ some token) where
    bad_token-IsRefused :
        (f : VerifyError)
        → verify_auth_access_token jwt_verify token ≡ refused f
        → IsRefused header db (verify_error_to_http f)
    unfolding verify_error_to_http
    bad_token-IsRefused jwks_unavailable h = no_keys token sent h
    bad_token-IsRefused token_invalid h = bad_token token _ sent (inl h)
    bad_token-IsRefused contract_invalid h = bad_token token _ sent (inr h)

    unresolved-IsRefused :
        (v : Verified) (e : Error)
        → verify_auth_access_token jwt_verify token ≡ accepted v
        → (r : Result Principal × Db)
        → (resolve_principal prisma env meanwhile (params_of operators v) db).0 ≡ r.0
        → (or_identity_error
            (and_then r (λ principal. check (ok (build_agent_user operators v principal))))).0
          ≡ err e
        → IsRefused header db e
    unresolved-IsRefused v e good (ok p, left) k h = cc
    unresolved-IsRefused v e good (err x, left) k h =
        let is_e : identity_error x ≡ e = ground (arith, h) in
        no_principal token v x e sent good k (rw (← is_e) (identity_error-IsAnswerTo x))

    verdict-IsRefused :
        (e : Error) (verdict : Verdict)
        → verify_auth_access_token jwt_verify token ≡ verdict
        → ((check (accept verdict) >>= resolve_caller operators prisma jwt_verify env meanwhile)
            db).0
          ≡ err e
        → IsRefused header db e
    verdict-IsRefused e (refused f) good h =
        let is_e : verify_error_to_http f ≡ e = ground (arith, h) in
        rw (← is_e) (bad_token-IsRefused f good)
    verdict-IsRefused e (accepted v) good h =
        unresolved-IsRefused v e good
          (resolve_principal prisma env meanwhile (params_of operators v) db) refl h

  -- A caller is refused because he sends no token (401), because the keys are not available (503),
  -- because the token does not verify or breaks the contract (401), or because his principal is not
  -- resolved; then a conflict of identities is answered with 401, any other error of the service's own
  -- as it is, and every other error with 500.
  pub auth_required-IsRefused :
      (header : Option String) (db db' : Db) (e : Error)
      → auth_required operators prisma jwt_verify env meanwhile header db ≡ (err e, db')
      → IsRefused header db e
  unfolding auth_required verify_and_resolve
  auth_required-IsRefused header db db' e h = elim (Option-cases (extract_token header)) [
    | inl none_sent ↦
        let is_e : http_error 401 "请先登录" ≡ e =
          ground (arith, ap (λ p. p.0) (rw (auth_required, none_sent) at h)) in
        rw (← is_e) (no_token none_sent)
    | inr (token, sent) ↦
        verdict-IsRefused header token db sent e (verify_auth_access_token jwt_verify token) refl
          (ap (λ p. p.0) (rw (auth_required, sent, verify_and_resolve) at h))
  ]

  -- Optional authentication differs from the required one only where no token is sent: then nobody
  -- is the caller, and nothing is read or written. A token that is sent is never ignored.
  pub auth_optional_exact :
      (header : Option String) (db : Db)
      → auth_optional operators prisma jwt_verify env meanwhile header db
        ≡ elim (extract_token header) [
          | none ↦ (ok none, db)
          | some token ↦
              (auth_required operators prisma jwt_verify env meanwhile header >>= λ user.
              check (ok (some user)))
                db
        ]
  unfolding auth_optional auth_required
  auth_optional_exact header db = elim (Option-cases (extract_token header)) [
    | inl e ↦ rw (auth_optional, e) refl
    | inr (token, e) ↦
        rw (auth_optional, e)
          (ap (λ (m : Io User). (m >>= λ user. check (ok (some user))) db)
            (sym (auth_required-some header token e)))
  ]
