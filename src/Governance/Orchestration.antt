-- ===== src/Governance/Orchestration.antt =====
-- applyGovernanceAction of svc-forum/src/lib/governance.ts: audit event, mutation and notices in
-- one transaction.
pub mod Laws
pub mod Threads
use agent_forum.Prelude.{ℕ, String, ◌&&◌, Option, none, some, [], ◌∷◌, if◌then◌else◌, or_else}
use agent_forum.Js.{Value, str, obj, field, end, template, text_given, text_or_null}
use agent_forum.Http.{Result}
use agent_forum.Store.{Prisma, Tx, Db, Env, with_transaction_retry, return, ◌>>=◌, ◌>>◌}
use agent_forum.Audit.{AuditInput, append_audit_event}
use agent_forum.Notifications.Facts.{FanOut, notify_thread_participants}

-- A governance action: what its audit event says, and the reason of its notices, if any.
pub record ActionSpec : Type 0 where
  pub audit : AuditInput
  pub notify_reason : Option String

abbrev pub notice_payload : AuditInput → Value
notice_payload input = obj (
    field "action" (str input.event_type) (
      field "fromStatus" (text_or_null input.from_status) (
        field "toStatus" (text_or_null input.to_status)
          (field "reason" (text_or_null input.reason) end))))

abbrev pub audit_key : String → String
audit_key event_id = template ("audit:" ∷ event_id ∷ [])

abbrev pub fan_out : AuditInput → String → String → String → FanOut
fan_out input thread_id reason event_id = record {
  thread_id = thread_id;
  reason = reason;
  exclude_principal_id = some input.actor.id;
  source_event_key = audit_key event_id;
  message_id = none;
  payload = notice_payload input;
}

module _ (prisma : Prisma) where
  unfoldable pub send_notices : ℕ → ActionSpec → String → Tx (Unit {0})
  unfolding notify_thread_participants
  send_notices now spec event_id =
      if text_given spec.audit.thread_id && text_given spec.notify_reason
      then notify_thread_participants prisma now (
          fan_out spec.audit (or_else spec.audit.thread_id "") (or_else spec.notify_reason "")
            event_id)
      else return tt

  -- The transaction of one attempt: the audit event comes first, since its id keys the notices.
  unfoldable pub governance_tx {ℓ} :
      {A : Type ℓ} → ℕ → ActionSpec → (String → Tx A) → Tx (A × String)
  unfolding send_notices append_audit_event
  governance_tx now spec mutate = do
    event ← append_audit_event prisma spec.audit
    mutated ← mutate event.event_id
    send_notices now spec event.event_id
    return (mutated, event.event_id)

  unfoldable pub apply_governance_action {ℓ} :
      {A : Type ℓ} → Env → ActionSpec → (ℕ → String → Tx A) → Db → Result (A × String) × Db
  unfolding governance_tx with_transaction_retry
  apply_governance_action env spec mutate =
      with_transaction_retry env
        (λ attempt. governance_tx (env.now attempt) spec (mutate (env.now attempt)))
