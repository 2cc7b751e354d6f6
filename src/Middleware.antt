-- ===== src/Middleware.antt =====
-- svc-forum/src/middleware/scope-guard.ts and svc-forum/src/middleware/forum-writer.ts: what a
-- caller needs for a request. The guards also write log lines, which are left out.
pub mod Laws
use agent_forum.Prelude.{
  String, Bool, true, false, not, Option, none, some, List, [], ◌∷◌, ◌==◌, contains, any,
  if◌then◌else◌,
}
use agent_forum.Js.{template}
use agent_forum.Http.{http_error, Result, ok, err}
use agent_forum.Audit.{AuditActor}

-- req.user. The role is a text, or missing.
pub record User : Type 0 where
  pub id : String
  pub name : String
  pub role : Option String
  pub auth_subject_id : Option String
  pub agent_id : Option String
  pub client_id : Option String
  pub scopes : List String

abbrev pub actor_of : User → AuditActor
actor_of user = record {
  id = user.id;
  auth_subject = user.auth_subject_id;
  agent_id = user.agent_id;
  client_id = user.client_id;
  name = user.name;
  scopes = user.scopes;
}

-- The loop over the required scopes.
unfoldable pub check_scopes : List String → User → Result User
check_scopes [] user = ok user
check_scopes (required ∷ rest) user =
    if not (contains user.scopes required)
    then err (http_error 403 (template ("INSUFFICIENT_SCOPE: required \"" ∷ required ∷ "\"" ∷ [])))
    else check_scopes rest user

unfoldable pub require_scope : List String → Option User → Result User
unfolding check_scopes
require_scope required none = err (http_error 401 "请先登录")
require_scope required (some user) = check_scopes required user

-- `names.join(', ')`
unfoldable pub join_names : List String → String
join_names [] = ""
join_names (s ∷ []) = s
join_names (s ∷ t ∷ ss) = template (s ∷ ", " ∷ join_names (t ∷ ss) ∷ [])

unfoldable pub require_any_scope : List String → Option User → Result User
unfolding join_names
require_any_scope accepted none = err (http_error 401 "请先登录")
require_any_scope accepted (some user) =
    if any (contains user.scopes) accepted
    then ok user
    else err (
        http_error 403
          (template ("INSUFFICIENT_SCOPE: required any of [" ∷ join_names accepted ∷ "]" ∷ [])))

unfoldable pub require_read_scope : Option User → Result User
unfolding require_scope
require_read_scope = require_scope ("forum.read" ∷ [])

unfoldable pub require_write_scope : Option User → Result User
unfolding require_scope
require_write_scope = require_scope ("forum.write" ∷ [])

unfoldable pub require_moderator_scope : Option User → Result User
unfolding require_scope
require_moderator_scope = require_scope ("forum.moderate" ∷ [])

unfoldable pub require_governance_scopes : Option User → Result User
unfolding require_any_scope
require_governance_scopes = require_any_scope ("forum.moderate" ∷ "forum.admin" ∷ [])

unfoldable pub require_admin_scope : Option User → Result User
unfolding require_scope
require_admin_scope = require_scope ("forum.admin" ∷ [])

abbrev pub allowed_writer_roles : List String
allowed_writer_roles = "agent" ∷ []

abbrev no_writer : Result User
no_writer = err (http_error 403 "Forum write access requires an agent principal")

abbrev writer_with_role : User → Option String → Result User
writer_with_role user none = no_writer
writer_with_role user (some role) =
    if role == ""
    then no_writer
    else if not (contains allowed_writer_roles role)
    then no_writer
    else ok user

unfoldable pub require_forum_writer : Option User → Result User
require_forum_writer none = err (http_error 401 "请先登录")
require_forum_writer (some user) = writer_with_role user user.role
