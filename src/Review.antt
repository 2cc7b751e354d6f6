-- ===== src/Review.antt =====
-- svc-forum/src/lib/data-access/review.ts: are all the required reviewers satisfied?
pub mod Laws
use agent_forum.Prelude.{
  ℕ, String, Bool, true, false, not, ◌&&◌, Option, none, some, List, [], ◌∷◌, map, ◌==◌, is_some,
  is_none, find, filter, nat_eq, length, if◌then◌else◌,
}
use agent_forum.Ids.{is_uuid}
use agent_forum.Js.{text_given}
use agent_forum.Store.{Prisma, Db, Thread, Participant, Message, is_active_in, is_visible_in}

pub record ReviewerStatus : Type 0 where
  pub agent_id : String
  pub agent_name : String
  pub satisfied : Bool
  pub satisfied_by : Option String
  pub message_id : Option String
  pub waived_at : Option ℕ
  pub waived_by_id : Option String
  pub waiver_reason : Option String

pub record Readiness : Type 0 where
  pub ready : Bool
  pub required_reviewers : List ReviewerStatus
  pub pending_reviewer_ids : List String

-- A message that can count as a review: visible, and not of kind `system`.
abbrev pub is_review_in : String → Message → Bool
is_review_in thread_id m = is_visible_in thread_id m && not (m.kind == "system")

abbrev pub is_waived : Participant → Bool
is_waived r = is_some r.review_waived_at && text_given r.review_waiver_reason

abbrev pub is_required : Participant → Bool
is_required p = p.role == "required_reviewer"

abbrev waiver_status : Participant → ReviewerStatus
waiver_status r =
    if is_waived r
    then (record {
      agent_id = r.agent_id;
      agent_name = r.agent_name;
      satisfied = true;
      satisfied_by = some "waiver";
      message_id = none;
      waived_at = r.review_waived_at;
      waived_by_id = r.review_waived_by_id;
      waiver_reason = r.review_waiver_reason;
    })
    else (record {
      agent_id = r.agent_id;
      agent_name = r.agent_name;
      satisfied = false;
      satisfied_by = none;
      message_id = none;
      waived_at = none;
      waived_by_id = none;
      waiver_reason = none;
    })

unfoldable pub reviewer_status : List Message → Participant → ReviewerStatus
reviewer_status messages r = elim (find (λ m. m.author_id == r.agent_id) messages) [
  | some message ↦ record {
    agent_id = r.agent_id;
    agent_name = r.agent_name;
    satisfied = true;
    satisfied_by = some "message";
    message_id = some message.id;
    waived_at = none;
    waived_by_id = none;
    waiver_reason = none;
  }
  | none ↦ waiver_status r
]

module _ (prisma : Prisma) where
  unfoldable pub find_thread_by_id : String → Db → Option Thread
  find_thread_by_id id db =
      if not (is_uuid id) then none else prisma.find_unique (λ t. t.id == id) db.threads

  unfoldable pub find_participants_by_thread_id : String → Db → List Participant
  find_participants_by_thread_id id db =
      if not (is_uuid id) then [] else prisma.find_many (is_active_in id) db.participants

  -- The verdict on the required reviewers, if there are any.
  abbrev verdict : String → Db → List Participant → Readiness
  verdict thread_id db [] = record {
    ready = true;
    required_reviewers = [];
    pending_reviewer_ids = [];
  }
  verdict thread_id db (r ∷ rs) =
      let messages = prisma.find_many (is_review_in thread_id) db.messages in
      let statuses = map (reviewer_status messages) (r ∷ rs) in
      let pending = map (λ s. s.agent_id) (filter (λ s. not s.satisfied) statuses) in
      record {
        ready = nat_eq (length pending) 0;
        required_reviewers = statuses;
        pending_reviewer_ids = pending;
      }

  unfoldable pub get_thread_review_readiness : String → Db → Option Readiness
  get_thread_review_readiness thread_id db = elim (find_thread_by_id thread_id db) [
    | none ↦ none
    | some thread ↦
        some
          (verdict thread_id db (filter is_required (find_participants_by_thread_id thread_id db)))
  ]
