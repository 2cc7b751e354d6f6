-- ===== src/Store/Rows.antt =====
-- The rows of the tables that the modelled code touches, and the state of the database: its tables.
-- Times are milliseconds since the epoch. Columns that no modelled code reads or writes are left out.
use agent_forum.Prelude.{ℕ, String, Bool, false, Option, some, List, ◌&&◌, ◌||◌, ◌==◌, is_none}
use agent_forum.Js.{Value}

pub record Thread : Type 0 where
  pub id : String
  pub title : String
  pub type : String
  pub status : String
  pub context_type : Option String
  pub context_id : Option String
  pub pipeline : Option String
  pub layer : Option String
  pub tags : List String
  pub pinned : Bool
  pub featured : Bool
  pub message_count : ℕ
  pub view_count : ℕ
  pub last_message_at : Option ℕ
  pub created_by_id : String
  pub created_by_name : String
  pub created_at : ℕ
  pub resolved_at : Option ℕ
  pub resolved_by_id : Option String
  pub resolved_by_name : Option String
  pub current_revision : Option ℕ

pub record Participant : Type 0 where
  pub id : String
  pub thread_id : String
  pub agent_id : String
  pub agent_name : String
  pub role : String
  pub status : String
  pub last_read_at : Option ℕ
  pub joined_at : ℕ
  pub left_at : Option ℕ
  pub review_waived_at : Option ℕ
  pub review_waived_by_id : Option String
  pub review_waiver_reason : Option String

pub record Message : Type 0 where
  pub id : String
  pub thread_id : String
  pub parent_id : Option String
  pub seq : ℕ
  pub author_id : String
  pub author_name : String
  pub kind : String
  pub content : String
  pub mentions : List String
  pub attachments : Value
  pub metadata : Value
  pub created_at : ℕ
  pub deleted_at : Option ℕ

pub record Outcome : Type 0 where
  pub id : String
  pub thread_id : String
  pub summary_md : String
  pub decisions_json : Value
  pub action_items_json : Value
  pub rejected_options_json : Value
  pub open_questions_json : Value
  pub writeback_target_type : Value
  pub writeback_target_ref : Value
  pub created_by_id : String
  pub created_by_name : String

pub record Principal : Type 0 where
  pub id : String
  pub auth_subject : String
  pub principal_type : String
  pub agent_id : Option String
  pub display_name : Option String
  pub source : String
  pub status : String
  pub first_seen_at : ℕ
  pub last_seen_at : ℕ

pub record Report : Type 0 where
  pub id : String
  pub target_type : String
  pub target_id : String
  pub reporter_id : String
  pub reporter_name : String
  pub reason : String
  pub note : Value
  pub status : String
  pub handled_by_id : Option String
  pub handled_by_name : Option String
  pub handled_at : Option ℕ
  pub handle_note : Value
  pub created_at : ℕ

pub record Reaction : Type 0 where
  pub id : String
  pub message_id : String
  pub thread_id : String
  pub principal_id : String
  pub principal_name : String
  pub emoji : String
  pub created_at : ℕ

-- The payload of an audit event: the allowlisted keys.
pub record Payload : Type 0 where
  pub from_status : Option String
  pub to_status : Option String
  pub reason : Option String
  pub actor_name : String
  pub actor_scopes : List String
  pub metadata : Option Value

pub record AuditEvent : Type 0 where
  pub event_id : String
  pub event_type : String
  pub actor_principal_id : String
  pub auth_subject : Option String
  pub agent_id : Option String
  pub client_id : Option String
  pub target_type : String
  pub target_id : String
  pub thread_id : Option String
  pub revision : Option ℕ
  pub payload : Payload
  pub provenance : String

pub record NotificationFact : Type 0 where
  pub id : String
  pub recipient_principal_id : String
  pub thread_id : String
  pub message_id : Option String
  pub reason : String
  pub source_event_key : String
  pub created_at : ℕ
  pub read_at : Option ℕ
  pub payload : Value

pub record Db : Type 0 where
  pub threads : List Thread
  pub participants : List Participant
  pub messages : List Message
  pub outcomes : List Outcome
  pub principals : List Principal
  pub reports : List Report
  pub reactions : List Reaction
  pub audit_events : List AuditEvent
  pub notification_facts : List NotificationFact

-- Conditions that several queries share: a participant who has not left, a message that is not
-- deleted.
abbrev pub is_active_in : String → Participant → Bool
is_active_in thread_id p = p.thread_id == thread_id && is_none p.left_at

abbrev pub is_visible_in : String → Message → Bool
is_visible_in thread_id m = m.thread_id == thread_id && is_none m.deleted_at

-- The unique indexes: when two rows clash. A primary key clashes with no new row, since the
-- database generates it.
abbrev pub no_index : {Row : Type 0} → Row → Row → Bool
no_index r s = false

abbrev pub same_participant : Participant → Participant → Bool
same_participant r s = r.thread_id == s.thread_id && r.agent_id == s.agent_id

abbrev pub same_report : Report → Report → Bool
same_report r s =
    r.target_type == s.target_type && r.target_id == s.target_id && r.reporter_id == s.reporter_id

abbrev pub same_reaction : Reaction → Reaction → Bool
same_reaction r s =
    r.message_id == s.message_id && r.principal_id == s.principal_id && r.emoji == s.emoji

abbrev pub same_agent : Option String → Option String → Bool
same_agent (some a) (some b) = a == b
same_agent _ _ = false

abbrev pub same_principal : Principal → Principal → Bool
same_principal r s = r.auth_subject == s.auth_subject || same_agent r.agent_id s.agent_id

abbrev pub same_fact : NotificationFact → NotificationFact → Bool
same_fact r s =
    r.recipient_principal_id == s.recipient_principal_id && r.source_event_key == s.source_event_key
