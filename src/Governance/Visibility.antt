-- ===== src/Governance/Visibility.antt =====
-- svc-forum/src/lib/governance.ts: who may read a hidden or deleted thread, and the closed sets of
-- values.
use agent_forum.Prelude.{
  String, Bool, false, not, ◌||◌, Option, none, some, List, [], ◌∷◌, contains, any,
}
use agent_forum.Http.{http_error, Result, require}

abbrev pub message_blocking_statuses : List String
message_blocking_statuses = "closed" ∷ "archived" ∷ "hidden" ∷ "deleted" ∷ []

abbrev pub governance_scope_names : List String
governance_scope_names = "forum.moderate" ∷ "forum.admin" ∷ []

abbrev pub ordinary_invisible_statuses : List String
ordinary_invisible_statuses = "hidden" ∷ "deleted" ∷ []

abbrev pub participant_roles : List String
participant_roles = "member" ∷ "required_reviewer" ∷ "moderator" ∷ []

abbrev pub participant_statuses : List String
participant_statuses = "invited" ∷ "active" ∷ "responded" ∷ []

-- `none` is a caller with no scopes at all.
unfoldable pub has_governance_authority : Option (List String) → Bool
has_governance_authority none = false
has_governance_authority (some scopes) = any (contains scopes) governance_scope_names

unfoldable pub is_visible_to_ordinary_readers : String → Bool
is_visible_to_ordinary_readers status = not (contains ordinary_invisible_statuses status)

unfoldable pub assert_ordinary_read_visibility : String → Option (List String) → Result (Unit {0})
unfolding has_governance_authority is_visible_to_ordinary_readers
assert_ordinary_read_visibility status scopes =
    require (is_visible_to_ordinary_readers status || has_governance_authority scopes)
      (http_error 404 "Thread not found")
