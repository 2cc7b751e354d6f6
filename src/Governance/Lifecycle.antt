-- ===== src/Governance/Lifecycle.antt =====
-- svc-forum/src/lib/governance.ts: the state machine of a thread's status.
pub mod Reach
use agent_forum.Prelude.{String, not, List, [], ◌∷◌, ◌==◌, contains, if◌then◌else◌}
use agent_forum.Js.{template}
use agent_forum.Http.{http_error, Result, ok, err}

pub data Action : Type 0 where
  close archive hide restore resolve soft_delete : Action

abbrev pub action_name : Action → String
action_name close = "close"
action_name archive = "archive"
action_name hide = "hide"
action_name restore = "restore"
action_name resolve = "resolve"
action_name soft_delete = "softDelete"

unfoldable pub target : Action → String
target close = "closed"
target archive = "archived"
target hide = "hidden"
target restore = "open"
target resolve = "resolved"
target soft_delete = "deleted"

unfoldable pub sources : Action → List String
sources close = "open" ∷ []
sources archive = "open" ∷ "closed" ∷ []
sources hide = "open" ∷ "closed" ∷ []
sources restore = "hidden" ∷ "archived" ∷ "closed" ∷ []
sources resolve = "open" ∷ []
sources soft_delete = "open" ∷ "closed" ∷ "resolved" ∷ "archived" ∷ "hidden" ∷ []

-- The status that the action leads to from the current one.
unfoldable pub assert_lifecycle_transition : Action → String → Result String
unfolding target sources
assert_lifecycle_transition action current =
    if current == target action
    then err (http_error 400 (template ("Thread already " ∷ target action ∷ [])))
    else if not (contains (sources action) current)
    then err (
        http_error 400 (
          template
            ("Cannot " ∷ action_name action ∷ " a thread in status \"" ∷ current ∷ "\"" ∷ [])))
    else ok (target action)
