-- ===== src/Reports.antt =====
-- svc-forum/src/lib/data-access/reports.ts: what may be reported, and a new report.
use agent_forum.Prelude.{
  ℕ, String, Bool, not, ◌&&◌, Option, none, some, List, [], ◌∷◌, ◌==◌, is_some, contains,
  if◌then◌else◌,
}
use agent_forum.Js.{Value}
use agent_forum.Http.{Error, http_error, db_error, p2002, Result, ok, err, require, throw_if}
use agent_forum.Ids.{is_uuid}
use agent_forum.Store.{Prisma, Db, Tx, Thread, Message, Report, same_report}
use agent_forum.Store.Io.{Io, check, check_db, write, ◌>>◌}

pub record CreateReport : Type 0 where
  pub target_type : String
  pub target_id : String
  pub reporter_id : String
  pub reporter_name : String
  pub reason : String
  pub note : Value

pub data ReportAction : Type 0 where
  ignore warn delete : ReportAction

unfoldable pub report_status_for_action : ReportAction → String
report_status_for_action ignore = "ignored"
report_status_for_action warn = "warned"
report_status_for_action delete = "deleted"

abbrev pub report_reasons : List String
report_reasons = "spam" ∷ "abuse" ∷ "off_topic" ∷ "violation" ∷ "other" ∷ []

abbrev pub already_reported : Error
already_reported = http_error 409 "ALREADY_REPORTED: this target has already been reported by you"

abbrev pub is_report_of : CreateReport → Report → Bool
is_report_of input r =
    r.target_type == input.target_type
    && r.target_id == input.target_id
    && r.reporter_id == input.reporter_id

abbrev pub report_row : CreateReport → ℕ → String → Report
report_row input now id = record {
  id = id;
  target_type = input.target_type;
  target_id = input.target_id;
  reporter_id = input.reporter_id;
  reporter_name = input.reporter_name;
  reason = input.reason;
  note = input.note;
  status = "pending";
  handled_by_id = none;
  handled_by_name = none;
  handled_at = none;
  handle_note = Value.null;
  created_at = now;
}

-- A hidden thread is reported as missing.
abbrev thread_target : Option Thread → Result (Unit {0})
thread_target none = err (http_error 404 "Reported thread not found")
thread_target (some t) =
    if t.status == "hidden"
    then err (http_error 404 "Reported thread not found")
    else throw_if (t.status == "deleted") (http_error 400 "Cannot report a deleted thread")

abbrev message_target : Message → Option Thread → Result (Unit {0})
message_target m none = err (http_error 404 "Reported message not found")
message_target m (some t) =
    if t.status == "hidden"
    then err (http_error 404 "Reported message not found")
    else throw_if (is_some m.deleted_at) (http_error 400 "Cannot report a deleted message")

-- The index may refuse what the check before it has let through.
abbrev pub as_reported : Result (Report × Db) → Result (Report × Db)
as_reported (err (db_error p2002)) = err already_reported
as_reported r = r

module _ (prisma : Prisma) where
  abbrev pub thread_by_id : String → Db → Option Thread
  thread_by_id id db = prisma.find_unique (λ t. t.id == id) db.threads

  abbrev pub message_by_id : String → Db → Option Message
  message_by_id id db = prisma.find_unique (λ m. m.id == id) db.messages

  unfoldable pub assert_report_target_exists : String → String → Db → Result (Unit {0})
  assert_report_target_exists target_type target_id db =
      if not (is_uuid target_id)
      then err (http_error 400 "targetId must be a valid UUID")
      else if target_type == "thread"
      then thread_target (thread_by_id target_id db)
      else if target_type == "message"
      then elim (message_by_id target_id db) [
        | none ↦ err (http_error 404 "Reported message not found")
        | some m ↦ message_target m (thread_by_id m.thread_id db)
      ]
      else err (http_error 400 "targetType must be one of: thread, message")

  unfoldable pub create_report_row : (String → Report) → Tx Report
  create_report_row row db = elim (prisma.create same_report row db.reports) [
    | ok (r, rs) ↦ ok (r, record db { reports = rs })
    | err e ↦ err e
  ]

  unfoldable pub update_report_row : (Report → Bool) → (Report → Report) → Tx Report
  update_report_row which change db = elim (prisma.update which change db.reports) [
    | ok (r, rs) ↦ ok (r, record db { reports = rs })
    | err e ↦ err e
  ]

  -- `others` is what is committed between the check and the insertion.
  unfoldable pub create_report : (Db → Db) → ℕ → CreateReport → Io Report
  create_report others now input = do
    check (
        require (contains report_reasons input.reason)
          (http_error 400 "reason must be one of: spam, abuse, off_topic, violation, other"))
    check_db (assert_report_target_exists input.target_type input.target_id)
    check_db (λ db.
        throw_if (is_some (prisma.find_unique (is_report_of input) db.reports)) already_reported)
    λ db. write (λ seen. as_reported (create_report_row (report_row input now) seen)) (others db)

  unfoldable pub find_report_by_id : String → Db → Option Report
  find_report_by_id id db =
      if not (is_uuid id) then none else prisma.find_unique (λ r. r.id == id) db.reports
