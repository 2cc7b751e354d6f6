-- ===== src/Principals.antt =====
-- svc-forum/src/lib/forum-principal.ts: the local principal behind the subject of a token. The log
-- lines are left out.
pub mod Resolved
pub mod Attempts
pub mod Enough
pub mod Refused
use agent_forum.Prelude.{
  ℕ, zero, suc, String, Bool, true, false, not, ◌&&◌, Option, none, some, List, [], ◌∷◌, ◌==◌,
  is_some, is_text, if◌then◌else◌,
}
use agent_forum.Js.{template, text_given}
use agent_forum.Http.{Error, http_error, db_error, p2002, other, Result, ok, err, throw_if}
use agent_forum.Ids.{is_valid_agent_id}
use agent_forum.Auth.Tokens.{includes}
use agent_forum.Store.{
  Prisma, Tx, Db, Env, Principal, same_principal, return, lift, ask, commit, ◌>>=◌, ◌>>◌,
}
use agent_forum.Store.Io.{Io, check, check_db, write, ◌>>=◌ as io_bind}
use agent_forum.Requests.{found_or}

pub record ResolveParams : Type 0 where
  pub auth_subject : String
  pub agent_id : Option String
  pub display_name : Option String
  pub principal_type : String

-- `a && b && a !== b`
abbrev pub differ : Option String → Option String → Bool
differ (some a) (some b) = not (a == "") && not (b == "") && not (a == b)
differ _ _ = false

-- `a || null`
abbrev pub given_text : Option String → Option String
given_text none = none
given_text (some s) = if s == "" then none else some s

abbrev pub has_subject : String → Principal → Bool
has_subject subject p = p.auth_subject == subject

abbrev pub has_agent_id : String → Principal → Bool
has_agent_id agent_id p = is_text p.agent_id agent_id

abbrev pub alias_changed : Error
alias_changed =
    http_error 409 "Identity alias conflict: authSubject already mapped to different agentId"

abbrev pub is_disabled : Error
is_disabled = http_error 403 "Principal is disabled"

abbrev pub agent_id_taken : String → Error
agent_id_taken agent_id =
    http_error 409
      (template ("Agent ID \"" ∷ agent_id ∷ "\" is already mapped to another principal" ∷ []))

abbrev pub unresolved : Error
unresolved = http_error 500 "Failed to resolve principal"

abbrev pub seen_at : ℕ → Principal → Principal
seen_at now p = record p { last_seen_at = now }

abbrev pub disable : Principal → Principal
disable p = record p { status = "disabled" }

abbrev pub principal_row : ResolveParams → ℕ → String → Principal
principal_row params now id = record {
  id = id;
  auth_subject = params.auth_subject;
  principal_type = if params.principal_type == "" then "agent" else params.principal_type;
  agent_id = given_text params.agent_id;
  display_name = given_text params.display_name;
  source = "jit";
  status = "active";
  first_seen_at = now;
  last_seen_at = now;
}

-- A row of the same subject or agent id has been inserted by somebody else: the code, or the words
-- in the message of another error of the driver. An error of the service's own is no clash.
abbrev pub is_clash : Error → Bool
is_clash (db_error p2002) = true
is_clash (db_error (other s)) = includes s "Unique constraint"
is_clash e = false

-- The end of an attempt whose transaction saw the database `seen`; a clash looks the subject up
-- once more, after what others have committed since.
abbrev pub settled :
    Db
    → Db
    → Option Principal
    → Result Principal × Db
    → Result (Principal × Db)
    → Result Principal × Db
settled seen after found again (ok (p, written)) = (ok p, written)
settled seen after found again (err e) =
    if is_clash e then (if is_some found then again else (err unresolved, after)) else (err e, seen)

module _ (prisma : Prisma) where
  unfoldable pub find_principal : String → Db → Option Principal
  find_principal subject db = prisma.find_unique (has_subject subject) db.principals

  unfoldable pub find_principal_by_agent_id : String → Db → Option Principal
  find_principal_by_agent_id agent_id db = prisma.find_unique (has_agent_id agent_id) db.principals

  unfoldable pub create_principal_row : (String → Principal) → Tx Principal
  create_principal_row row db = elim (prisma.create same_principal row db.principals) [
    | ok (p, ps) ↦ ok (p, record db { principals = ps })
    | err e ↦ err e
  ]

  unfoldable pub update_principal_row : (Principal → Bool) → (Principal → Principal) → Tx Principal
  update_principal_row which change db = elim (prisma.update which change db.principals) [
    | ok (p, ps) ↦ ok (p, record db { principals = ps })
    | err e ↦ err e
  ]

  -- The subject is known.
  unfoldable pub touch : ResolveParams → ℕ → Principal → Tx Principal
  touch params now existing = do
    lift (throw_if (differ params.agent_id existing.agent_id) alias_changed)
    updated ← update_principal_row (λ p. p.id == existing.id) (seen_at now)
    lift (throw_if (updated.status == "disabled") is_disabled)
    return updated

  abbrev pub agent_id_free : Option String → Db → Result (Unit {0})
  agent_id_free none db = ok tt
  agent_id_free (some agent_id) db =
      throw_if
        (not (agent_id == "")
          && is_valid_agent_id agent_id
          && is_some (find_principal_by_agent_id agent_id db))
        (agent_id_taken agent_id)

  unfoldable pub create : ResolveParams → ℕ → Tx Principal
  create params now = do
    free ← ask (agent_id_free params.agent_id)
    lift free
    create_principal_row (principal_row params now)

  abbrev pub touch_or_create : ResolveParams → ℕ → Option Principal → Tx Principal
  touch_or_create params now (some existing) = touch params now existing
  touch_or_create params now none = create params now

  unfoldable pub resolve_tx : ResolveParams → ℕ → Tx Principal
  resolve_tx params now =
      ask (find_principal params.auth_subject) >>= λ found. touch_or_create params now found

  module _ (env : Env) (meanwhile : ℕ → Db → Db) (params : ResolveParams) where
    -- An attempt runs as if alone. Its transaction asks for no isolation level, so that others may
    -- commit between its queries and its write; a row with the same subject or agent id which they
    -- insert there makes the write clash, and that is a refused attempt of `env` here. No row is ever
    -- removed, and no subject or agent id changed; a row that is disabled in between is updated and
    -- answered as if it had been disabled before.
    -- The call again has no bound of its own; `fuel` bounds it.
    unfoldable pub resolve_from : ℕ → ℕ → Io Principal
    resolve_from zero attempt db = (err (db_error (other "no attempt left")), db)
    resolve_from (suc fuel) attempt db =
        let seen = env.others attempt db in
        let after = meanwhile attempt seen in
        let again = resolve_from fuel (suc attempt) after in
        settled seen after (find_principal params.auth_subject after) again
          (commit (env.refuses attempt) (resolve_tx params (env.now attempt) seen))

    -- Two attempts: Principals/Enough says when no third one is made.
    unfoldable pub resolve_principal : Io Principal
    resolve_principal = resolve_from 2 1

  unfoldable pub disable_principal : String → Io (Unit {0})
  disable_principal subject =
      io_bind
        (check_db
          (λ db. found_or (http_error 404 "Principal not found") (find_principal subject db)))
        (λ existing.
          io_bind (write (update_principal_row (λ p. p.id == existing.id) disable))
            (λ p. check (ok tt)))
