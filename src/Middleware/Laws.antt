-- ===== src/Middleware/Laws.antt =====
-- Who passes the guards of the middleware.
use agent_forum.Prelude.{
  String, true, ◌≡◌, refl, ap, ◌∙◌, Option, none, some, List, [], ◌∷◌, ◌↔◌, all, contains, eq_iff,
  arith, Option-cases, inl, inr,
}
use agent_forum.Http.{ok}
use agent_forum.Middleware.{
  User, writer_with_role, check_scopes, require_scope, require_forum_writer,
}

check_scopes_iff :
    (required : List String) (user caller : User)
    → (check_scopes required user ≡ ok caller)
      ↔ ((user ≡ caller) × (all (contains user.scopes) required ≡ true))
unfolding check_scopes
check_scopes_iff [] user caller = (λ h. (ground (arith, h), refl), λ h. rw h.0)
check_scopes_iff (s ∷ ss) user caller =
    let (to, from) = check_scopes_iff ss user caller in
    (λ h. ground (arith, h, to), λ h. ground (arith, h.0, h.1, from))

-- A guard by scopes lets a request through, as the caller it came from, exactly if somebody is
-- signed in and has every required scope.
pub require_scope_iff :
    (required : List String) (user : Option User) (caller : User)
    → (require_scope required user ≡ ok caller)
      ↔ ((user ≡ some caller) × (all (contains caller.scopes) required ≡ true))
unfolding require_scope
require_scope_iff required none caller = (λ h. cc, λ h. cc (h.0))
require_scope_iff required (some u) caller =
    let (to, from) = check_scopes_iff required u caller in
    (λ h. let (e, a) = to h in (ap some e, rw e at a), λ h. ground (arith, h.0, h.1, from))

agent_writes :
    (u caller : User)
    → u ≡ caller
    → u.role ≡ some "agent"
    → require_forum_writer (some u) ≡ ok caller
unfolding require_forum_writer
agent_writes u caller same role = ap (writer_with_role u) role ∙ ap ok same

-- Only a signed-in caller whose role is `agent` may write.
pub require_forum_writer_iff :
    (user : Option User) (caller : User)
    → (require_forum_writer user ≡ ok caller)
      ↔ ((user ≡ some caller) × (caller.role ≡ some "agent"))
unfolding require_forum_writer
require_forum_writer_iff none caller = (λ h. cc, λ h. cc (h.0))
require_forum_writer_iff (some u) caller = elim (Option-cases u.role) [
  | inl e ↦ (λ h. ground (arith, e), λ h. ground (arith, e, h.0, h.1))
  | inr (r, e) ↦ (
    λ h. ground (arith, e, eq_iff "agent" r),
    λ h.
        let same : u ≡ caller = ground (arith, h.0) in
        agent_writes u caller same (ap (λ (v : User). v.role) same ∙ h.1),
  )
]
