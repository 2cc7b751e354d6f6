-- ===== src/Routes/Threads/Patch/Allowed.antt =====
-- Who may change a thread.
use agent_forum.Prelude.{
  ◌≡◌, refl, arith, eq_comm, String, Bool, none, sym, ap, ◌⊎◌, inl, inr, eq_self, eq_iff, true,
  false, not, ◌&&◌, ◌||◌, Option, some, ◌==◌, is_text, length, ltb,
}
use agent_forum.Js.{Value, undefined, null, bool, num, str, arr, obj}
use agent_forum.Http.{Error, ok, throw_if, http_error}
use agent_forum.Store.{Prisma, Db, Env, Thread}
use agent_forum.Store.Io.Laws.{check_db-ok}
use agent_forum.Middleware.{User, require_forum_writer, require_write_scope}
use agent_forum.Requests.{Response, thread_or_404}
use agent_forum.Requests.Laws.{may_see}
use agent_forum.Routes.Moderation.Lifecycle.{governs}
use agent_forum.Governance.Visibility.{has_governance_authority, assert_ordinary_read_visibility}
use agent_forum.Routes.Threads.Patch.{PatchBody, drifts, requested_flags, patch_handler}

throw_if-ok : (b : Bool) (e : Error) (u : Unit {0}) → throw_if b e ≡ ok u → b ≡ false
throw_if-ok true e u h = cc
throw_if-ok false e u h = refl

-- What a body gives for a text of the row leaves it as it is: nothing, or the same.
abbrev pub LeavesAlone : Value → Option String → Type 0
LeavesAlone given old =
    (given ≡ undefined)
    ⊎ ((given ≡ null) × (old ≡ none))
    ⊎ ((s : String) × (given ≡ str s) × (old ≡ some s))

leaves_alone :
    (given : Value) (old : Option String) → drifts given old ≡ false → LeavesAlone given old
leaves_alone undefined old h = inl refl
leaves_alone null none h = inr (inl (refl, refl))
leaves_alone null (some t) h = cc
leaves_alone (str s) none h = cc
leaves_alone (str s) (some t) h =
    inr (inr (s, refl, ap some (sym ((eq_iff s t).0 (ground (arith, h))))))
leaves_alone (bool b) none h = cc
leaves_alone (bool b) (some t) h = cc
leaves_alone (num n) none h = cc
leaves_alone (num n) (some t) h = cc
leaves_alone (arr vs) none h = cc
leaves_alone (arr vs) (some t) h = cc
leaves_alone (obj fs) none h = cc
leaves_alone (obj fs) (some t) h = cc

-- `if (existing.contextType === 'workflow_instance')`, and the given binding is another one.
abbrev breaks_binding : Thread → PatchBody → Bool
breaks_binding existing body =
    is_text existing.context_type "workflow_instance"
    && (drifts body.context_type existing.context_type
        || drifts body.context_id existing.context_id)

abbrev pub gives_flags : PatchBody → Bool
gives_flags body = ltb 0 (length (requested_flags body))

module _ (prisma : Prisma) (lower : String → String) (env : Env) (user : Option User)
    (thread_id : String) (body : PatchBody) (db : Db) where
  -- What has been checked of a change that is let through.
  pub record IsAllowed : Type 0 where
    pub agent : User
    pub caller : User
    pub existing : Thread
    pub writer : require_forum_writer user ≡ ok agent
    pub scoped : require_write_scope user ≡ ok caller
    pub found : thread_or_404 prisma thread_id db ≡ ok existing
    pub visible : may_see caller.scopes existing ≡ true
    pub alive : (existing.status == "deleted") ≡ false
    -- A thread of a workflow instance is asked for no other instance and no other kind.
    pub bound :
        existing.context_type ≡ some "workflow_instance"
        → LeavesAlone body.context_type existing.context_type
          × LeavesAlone body.context_id existing.context_id
    pub owner : (existing.created_by_id == caller.id || governs caller) ≡ true
    pub flags : (not (gives_flags body) || governs caller) ≡ true

  seen_by :
      (caller : User) (t : Thread) (u : Unit {0})
      → assert_ordinary_read_visibility t.status (some caller.scopes) ≡ ok u
      → may_see caller.scopes t ≡ true
  unfolding assert_ordinary_read_visibility
  seen_by caller t u h = ground (arith, h, eq_comm t.status "hidden", eq_comm t.status "deleted")

  bound_by :
      (t : Thread)
      → breaks_binding t body ≡ false
      → t.context_type ≡ some "workflow_instance"
      → LeavesAlone body.context_type t.context_type × LeavesAlone body.context_id t.context_id
  bound_by t h e =
      let bound : is_text t.context_type "workflow_instance" ≡ true =
        rw e (eq_self "workflow_instance") in
      (
        leaves_alone body.context_type t.context_type (ground (arith, h, bound)),
        leaves_alone body.context_id t.context_id (ground (arith, h, bound)),
      )

  owned_by :
      (caller : User) (t : Thread)
      → (not (t.created_by_id == caller.id) && not (has_governance_authority (some caller.scopes)))
        ≡ false
      → (t.created_by_id == caller.id || governs caller) ≡ true
  unfolding has_governance_authority
  owned_by caller t h = ground (arith, h)

  flagged_by :
      (caller : User)
      → (gives_flags body && not (has_governance_authority (some caller.scopes))) ≡ false
      → (not (gives_flags body) || governs caller) ≡ true
  unfolding has_governance_authority
  flagged_by caller h = ground (arith, h)

  -- A change of a thread that is answered without an error was asked for by a writer with the write
  -- scope who may see the thread and is its creator or has a governance scope, for a thread that
  -- exists and is not deleted; for a thread of a workflow instance it gives no context but the one that
  -- the row had when it was read, and it gives a flag only with a governance scope.
  pub patch_handler-IsAllowed :
      (r : Response) (db' : Db)
      → patch_handler prisma lower env user thread_id body db ≡ (ok r, db')
      → IsAllowed
  unfolding patch_handler
  patch_handler-IsAllowed r db' h =
      let (agent, writer, h1) = check_db-ok (λ _. require_forum_writer user) _ h in
      let (caller, scoped, h2) = check_db-ok (λ _. require_write_scope user) _ h1 in
      let (existing, found, h3) = check_db-ok (thread_or_404 prisma thread_id) _ h2 in
      let (u, visible, h4) =
        check_db-ok (λ _. assert_ordinary_read_visibility existing.status (some caller.scopes)) _
          h3 in
      let (u4, alive, h5) =
        check_db-ok
          (λ _.
            throw_if (existing.status == "deleted")
              (http_error 400 "Cannot update a deleted thread"))
          _ h4 in
      let (u5, bound, h6) =
        check_db-ok
          (λ _.
            throw_if (breaks_binding existing body) (http_error 409 "WORKFLOW_CONTEXT_IMMUTABLE"))
          _ h5 in
      let (u6, owner, h7) =
        check_db-ok
          (λ _.
            throw_if
              (not (existing.created_by_id == caller.id)
                && not (has_governance_authority (some caller.scopes)))
              (http_error 403
                "INSUFFICIENT_SCOPE: only the thread creator or a moderator/admin may update this thread"))
          _ h6 in
      let (u7, flags, h8) =
        check_db-ok
          (λ _.
            throw_if (gives_flags body && not (has_governance_authority (some caller.scopes))) (
              http_error 403 "INSUFFICIENT_SCOPE: required \"forum.moderate\" for pinned/featured"))
          _ h7 in
      record {
        agent = agent;
        caller = caller;
        existing = existing;
        writer = writer;
        scoped = scoped;
        found = found;
        visible = seen_by caller existing u visible;
        alive = throw_if-ok _ _ u4 alive;
        bound = bound_by existing (throw_if-ok _ _ u5 bound);
        owner = owned_by caller existing (throw_if-ok _ _ u6 owner);
        flags = flagged_by caller (throw_if-ok _ _ u7 flags);
      }
