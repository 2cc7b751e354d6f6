-- ===== src/Auth.antt =====
-- svc-forum/src/middleware/auth.ts: the caller behind a request's token. The log lines are left out.
pub mod Scopes
pub mod Tokens
pub mod Caller
pub mod Answers
use Prim.Native.Char.{Char, code}
use Prim.Native.String
use agent_forum.Prelude.{
  ℕ, ◌≡◌, refl, String, Bool, true, false, not, ◌&&◌, ◌||◌, Option, none, some, List, [], ◌∷◌, ◌==◌,
  contains, any, nat_eq, or_else, if◌then◌else◌,
}
use agent_forum.Js.{is_space, template}
use agent_forum.Http.{
  Error, http_error, db_error, type_error, parse_error, zod_error, Result, ok, err,
}
use agent_forum.Store.{Prisma, Db, Env, Principal}
use agent_forum.Store.Io.{Io, check, ◌>>=◌}
use agent_forum.Middleware.{User}
use agent_forum.Messages.{text_or}
use agent_forum.Principals.{ResolveParams, resolve_principal}
use agent_forum.Auth.Scopes.{join_words, parse_scope}
use agent_forum.Auth.Tokens.{
  Verified, VerifyError, jwks_unavailable, error_code, Verification, Verdict, accepted, refused,
  verify_auth_access_token,
}

-- What `.` does not match.
abbrev is_line_end : ℕ → Bool
is_line_end c = any (nat_eq c) (10 ∷ 13 ∷ 0x2028 ∷ 0x2029 ∷ [])

has_line_end : String → Bool
has_line_end String.[] = false
has_line_end (String.◌∷◌ c s) = is_line_end (code c) || has_line_end s

-- `.+` up to the end
line : String → Option String
unfolding has_line_end
line s = if has_line_end s then none else some s

-- `\s+(.+)$` after the white space `last`: the spaces end before something else, or else the last of
-- several is given back.
after_spaces : Char → Bool → String → Option String
unfolding is_space line
after_spaces last several String.[] = if several then line (String.◌∷◌ last String.[]) else none
after_spaces last several (String.◌∷◌ c s) =
    let rest = after_spaces c true s in if is_space (code c) then rest else line (String.◌∷◌ c s)

-- The letters of a word, in either case, then white space.
after_word : List (ℕ × ℕ) → String → Option String
unfolding after_spaces is_space
after_word [] String.[] = none
after_word [] (String.◌∷◌ c s) = if is_space (code c) then after_spaces c false s else none
after_word (l ∷ ls) String.[] = none
after_word (l ∷ ls) (String.◌∷◌ c s) =
    if nat_eq (code c) l.0 || nat_eq (code c) l.1 then after_word ls s else none

abbrev bearer : List (ℕ × ℕ)
bearer =
    (b'b', b'B') ∷ (b'e', b'E') ∷ (b'a', b'A') ∷ (b'r', b'R') ∷ (b'e', b'E') ∷ (b'r', b'R') ∷ []

-- The header `authorization`: `/^Bearer\s+(.+)$/i`.
unfoldable pub extract_token : Option String → Option String
unfolding after_word
extract_token none = none
extract_token (some auth) = if auth == "" then none else after_word bearer auth

extract_test : extract_token (some "bearer  a.b.c") ≡ some "a.b.c"
unfolding extract_token
extract_test = refl

unfoldable pub verify_error_to_http : VerifyError → Error
verify_error_to_http jwks_unavailable = http_error 503 "AUTH_JWKS_UNAVAILABLE"
verify_error_to_http e = http_error 401 (error_code e)

-- What the caller is told when his principal cannot be resolved.
abbrev pub identity_error : Error → Error
identity_error (http_error status message) =
    if nat_eq status 409
    then http_error 401 (template ("Identity conflict: " ∷ message ∷ []))
    else http_error status message
identity_error e = http_error 500 "Failed to resolve agent identity"

abbrev pub accept : Verdict → Result Verified
accept (accepted v) = ok v
accept (refused e) = err (verify_error_to_http e)

abbrev pub or_identity_error : {A : Type 0} → Result A × Db → Result A × Db
or_identity_error (ok a, db) = (ok a, db)
or_identity_error (err e, db) = (err (identity_error e), db)

module _ (operators : List String) where
  abbrev pub is_operator : Verified → Bool
  is_operator v = not (v.agent_id == "") && contains operators v.agent_id

  abbrev pub role_of : Verified → String
  role_of v = if is_operator v then "operator" else "agent"

  unfoldable pub build_agent_user : Verified → Principal → User
  build_agent_user v principal = record {
    id = principal.id;
    name = text_or (some v.agent_id) (text_or principal.display_name principal.id);
    role = some (role_of v);
    auth_subject_id = some v.principal_id;
    agent_id = some v.agent_id;
    client_id = some v.client_id;
    scopes = parse_scope (join_words v.scopes);
  }

  abbrev pub params_of : Verified → ResolveParams
  params_of v = record {
    auth_subject = v.principal_id;
    agent_id = some v.agent_id;
    display_name = some v.agent_id;
    principal_type = role_of v;
  }

  module _ (prisma : Prisma) (jwt_verify : String → Verification) (env : Env)
      (meanwhile : ℕ → Db → Db) where
    abbrev pub resolve_caller : Verified → Io User
    resolve_caller v db = or_identity_error (
        (resolve_principal prisma env meanwhile (params_of v) >>= λ principal.
        check (ok (build_agent_user v principal)))
          db)

    unfoldable pub verify_and_resolve : String → Io User
    verify_and_resolve token =
        check (accept (verify_auth_access_token jwt_verify token)) >>= resolve_caller

    -- The caller that is left in req.user.
    unfoldable pub auth_required : Option String → Io User
    auth_required header = elim (extract_token header) [
      | none ↦ check (err (http_error 401 "请先登录"))
      | some token ↦ verify_and_resolve token
    ]

    unfoldable pub auth_optional : Option String → Io (Option User)
    auth_optional header = elim (extract_token header) [
      | none ↦ check (ok none)
      | some token ↦ verify_and_resolve token >>= λ user. check (ok (some user))
    ]
