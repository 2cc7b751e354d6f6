-- ===== src/Audit.antt =====
-- svc-forum/src/lib/data-access/audit-store.ts: the writer of audit events.
use agent_forum.Prelude.{ℕ, String, Option, none, some, List, if◌then◌else◌}
use agent_forum.Js.{Value, truthy}
use agent_forum.Http.{ok, err}
use agent_forum.Store.{Prisma, Tx, AuditEvent, Payload, no_index}

pub record AuditActor : Type 0 where
  pub id : String
  pub auth_subject : Option String
  pub agent_id : Option String
  pub client_id : Option String
  pub name : String
  pub scopes : List String

pub record AuditInput : Type 0 where
  pub actor : AuditActor
  pub event_type : String
  pub target_type : String
  pub target_id : String
  pub thread_id : Option String
  pub revision : Option ℕ
  pub from_status : Option String
  pub to_status : Option String
  pub reason : Option String
  pub metadata : Option Value

-- `if (input.metadata) payload.metadata = input.metadata`
abbrev given_metadata : Option Value → Option Value
given_metadata none = none
given_metadata (some v) = if truthy v then some v else none

unfoldable pub build_payload : AuditInput → Payload
build_payload input = record {
  from_status = input.from_status;
  to_status = input.to_status;
  reason = input.reason;
  actor_name = input.actor.name;
  actor_scopes = input.actor.scopes;
  metadata = given_metadata input.metadata;
}

unfoldable pub audit_row : AuditInput → String → AuditEvent
unfolding build_payload
audit_row input event_id = record {
  event_id = event_id;
  event_type = input.event_type;
  actor_principal_id = input.actor.id;
  auth_subject = input.actor.auth_subject;
  agent_id = input.actor.agent_id;
  client_id = input.actor.client_id;
  target_type = input.target_type;
  target_id = input.target_id;
  thread_id = input.thread_id;
  revision = input.revision;
  payload = build_payload input;
  provenance = "runtime";
}

unfoldable pub append_audit_event : Prisma → AuditInput → Tx AuditEvent
append_audit_event prisma input db =
    elim (prisma.create no_index (audit_row input) db.audit_events) [
      | ok (event, events) ↦ ok (event, record db { audit_events = events })
      | err e ↦ err e
    ]
