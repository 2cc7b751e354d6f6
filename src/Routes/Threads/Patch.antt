-- ===== src/Routes/Threads/Patch.antt =====
-- svc-forum/src/routes/threads.ts, PATCH, and updateThread of svc-forum/src/lib/data-access/threads.ts:
-- changing a thread's metadata and its flags. `lower` is `toLowerCase`. A field that the driver does
-- not accept makes the write throw.
pub mod Recorded
pub mod Allowed
use agent_forum.Prelude.{
  ℕ, String, Bool, true, false, not, ◌&&◌, ◌||◌, Option, none, some, List, [], ◌∷◌, ◌++◌, ◌==◌,
  is_text, or_else, length, ltb, map, if◌then◌else◌,
}
use agent_forum.Js.{
  Value, Items, cons, nil, undefined, null, bool, str, arr, is_given, items, template, trim,
}
use agent_forum.Http.{
  Error, http_error, db_error, other, Result, ok, err, throw_if, ◌>>=◌ as then_result,
}
use agent_forum.Store.{
  Prisma, Db, Env, Thread, Tx, return, lift, with_transaction_retry, ◌>>=◌ as tx_bind,
}
use agent_forum.Store.Io.{Io, check, check_db, write, ◌>>=◌, ◌>>◌}
use agent_forum.Audit.{AuditInput, append_audit_event}
use agent_forum.Middleware.{User, require_forum_writer, require_write_scope}
use agent_forum.Messages.{update_thread_row}
use agent_forum.Requests.{Response, reply, thread_body, thread_or_404, is_string}
use agent_forum.Governance.Visibility.{has_governance_authority, assert_ordinary_read_visibility}
use agent_forum.Routes.Moderation.{
  Flag, pinned, featured, flag_of, flag_action, same_flag, thread_event,
}

pub record PatchBody : Type 0 where
  pub title : Value
  pub type : Value
  pub context_type : Value
  pub context_id : Value
  pub pipeline : Value
  pub layer : Value
  pub tags : Value
  pub pinned_value : Value
  pub featured_value : Value

-- The fields that are written; `none` is a field that is not given.
pub record Changes : Type 0 where
  pub title : Option String
  pub type : Option String
  pub context_type : Option (Option String)
  pub context_id : Option (Option String)
  pub pipeline : Option (Option String)
  pub layer : Option (Option String)
  pub tags : Option (List String)
  pub pinned : Option Bool
  pub featured : Option Bool

abbrev pub invalid_argument : Error
invalid_argument = db_error (other "invalid argument")

abbrev pub text_field : Value → Result (Option String)
text_field undefined = ok none
text_field (str s) = ok (some s)
text_field v = err invalid_argument

abbrev pub nullable_field : Value → Result (Option (Option String))
nullable_field undefined = ok none
nullable_field null = ok (some none)
nullable_field (str s) = ok (some (some s))
nullable_field v = err invalid_argument

abbrev pub bool_field : Value → Result (Option Bool)
bool_field undefined = ok none
bool_field (bool b) = ok (some b)
bool_field v = err invalid_argument

abbrev pub texts_of : List Value → Result (List String)
texts_of [] = ok []
texts_of (str s ∷ vs) = then_result (texts_of vs) (λ ss. ok (s ∷ ss))
texts_of (v ∷ vs) = err invalid_argument

abbrev pub tags_field : Value → Result (Option (List String))
tags_field undefined = ok none
tags_field (arr vs) = then_result (texts_of (items vs)) (λ ss. ok (some ss))
tags_field v = err invalid_argument

unfoldable pub changes_of : PatchBody → Result Changes
changes_of body = then_result (text_field body.title) λ title.
    then_result (text_field body.type) λ type.
      then_result (nullable_field body.context_type) λ context_type.
        then_result (nullable_field body.context_id) λ context_id.
          then_result (nullable_field body.pipeline) λ pipeline.
            then_result (nullable_field body.layer) λ layer.
              then_result (tags_field body.tags) λ tags.
                then_result (bool_field body.pinned_value) λ is_pinned.
                  then_result (bool_field body.featured_value) λ is_featured. ok (record {
                    title = title;
                    type = type;
                    context_type = context_type;
                    context_id = context_id;
                    pipeline = pipeline;
                    layer = layer;
                    tags = tags;
                    pinned = is_pinned;
                    featured = is_featured;
                  })

unfoldable pub apply_changes : Changes → Thread → Thread
apply_changes c t = record t {
  title = or_else c.title t.title;
  type = or_else c.type t.type;
  context_type = or_else c.context_type t.context_type;
  context_id = or_else c.context_id t.context_id;
  pipeline = or_else c.pipeline t.pipeline;
  layer = or_else c.layer t.layer;
  tags = or_else c.tags t.tags;
  pinned = or_else c.pinned t.pinned;
  featured = or_else c.featured t.featured;
}

-- `tags.map(t => t.trim().toLowerCase()).filter(Boolean)`
unfoldable pub normalized_tags : (String → String) → List String → List String
normalized_tags lower [] = []
normalized_tags lower (t ∷ ts) =
    let rest = normalized_tags lower ts in
    if lower (trim t) == "" then rest else lower (trim t) ∷ rest

abbrev pub normalized : (String → String) → Changes → Changes
normalized lower c = record c { tags = normalized_option c.tags }
  where
    normalized_option : Option (List String) → Option (List String)
    normalized_option none = none
    normalized_option (some ts) = some (normalized_tags lower ts)

-- `req.body.key !== undefined && req.body.key !== existing.key`
abbrev pub drifts : Value → Option String → Bool
drifts undefined old = false
drifts null none = false
drifts (str s) (some t) = not (s == t)
drifts v old = true

abbrev pub given_flag : Flag → Value → List Flag
given_flag flag v = if is_given v then flag ∷ [] else []

abbrev pub requested_flags : PatchBody → List Flag
requested_flags body =
    given_flag pinned body.pinned_value ++ given_flag featured body.featured_value

abbrev pub flag_event : Flag → Thread → String
flag_event flag updated = template ("thread." ∷ flag_action flag (flag_of flag updated) ∷ [])

module _ (prisma : Prisma) (caller : User) (thread_id : String) (existing : Thread) where
  abbrev pub flag_input : Flag → Thread → AuditInput
  flag_input flag updated =
      record (thread_event caller existing thread_id (flag_event flag updated)) { revision = none }

  -- An audit event for each flag that is not what it was.
  unfoldable pub audit_flags : Thread → List Flag → Tx (Unit {0})
  audit_flags updated [] = return tt
  audit_flags updated (flag ∷ flags) =
      let rest = audit_flags updated flags in
      if same_flag (flag_of flag existing) (flag_of flag updated)
      then rest
      else tx_bind (append_audit_event prisma (flag_input flag updated)) (λ event. rest)

  unfoldable pub patch_flags_tx : List Flag → Result Changes → Tx Thread
  patch_flags_tx flags changes = tx_bind (lift changes) λ c.
      tx_bind (update_thread_row prisma (λ t. t.id == thread_id) (apply_changes c))
        λ updated. tx_bind (audit_flags updated flags) λ done. return updated

unfoldable pub update_thread : Prisma → (String → String) → String → Result Changes → Tx Thread
update_thread prisma lower thread_id changes =
    tx_bind (lift changes)
      λ c. update_thread_row prisma (λ t. t.id == thread_id) (apply_changes (normalized lower c))

module _ (prisma : Prisma) (lower : String → String) (env : Env) (user : Option User)
    (thread_id : String) where
  abbrev pub patch_thread : User → Thread → PatchBody → Io Thread
  patch_thread caller existing body =
      if ltb 0 (length (requested_flags body))
      then with_transaction_retry env (λ attempt.
        patch_flags_tx prisma caller thread_id existing (requested_flags body) (changes_of body))
      else write (update_thread prisma lower thread_id (changes_of body))

  -- PATCH /api/threads/:threadId
  unfoldable pub patch_handler : PatchBody → Io Response
  patch_handler body = do
    _ ← check (require_forum_writer user)
    caller ← check (require_write_scope user)
    existing ← check_db (thread_or_404 prisma thread_id)
    check (assert_ordinary_read_visibility existing.status (some caller.scopes))
    check
        (throw_if (existing.status == "deleted") (http_error 400 "Cannot update a deleted thread"))
    check (
        throw_if
          (is_text existing.context_type "workflow_instance"
            && (drifts body.context_type existing.context_type
                || drifts body.context_id existing.context_id))
          (http_error 409 "WORKFLOW_CONTEXT_IMMUTABLE"))
    check (
        throw_if
          (not (existing.created_by_id == caller.id)
            && not (has_governance_authority (some caller.scopes)))
          (http_error 403
            "INSUFFICIENT_SCOPE: only the thread creator or a moderator/admin may update this thread"))
    check (
        throw_if
          (ltb 0 (length (requested_flags body))
            && not (has_governance_authority (some caller.scopes)))
          (http_error 403 "INSUFFICIENT_SCOPE: required \"forum.moderate\" for pinned/featured"))
    updated ← patch_thread caller existing body
    check (reply 200 (thread_body updated))
