-- ===== src/Requests.antt =====
-- What the request handlers share: checks of a body's fields, the lookup of a thread that the
-- caller may see, and the responses.
pub mod Laws
use agent_forum.Prelude.{
  ℕ, ◌≡◌, arith, String, Bool, true, false, not, Option, none, some, List, [], ◌∷◌, ◌==◌, is_none,
  if◌then◌else◌,
}
use agent_forum.Js.{Value, undefined, null, bool, num, str, arr, obj, truthy, trim}
use agent_forum.Http.{Error, http_error, db_error, other, type_error, Result, ok, err, ◌>>=◌, ◌>>◌}
use agent_forum.Store.{
  Prisma, Db, Thread, Participant, Message, Outcome, Report, Reaction, NotificationFact,
}
use agent_forum.Review.{find_thread_by_id}
use agent_forum.Governance.Visibility.{assert_ordinary_read_visibility}

abbrev non_empty : Error → String → Result String
non_empty e t = if t == "" then err e else ok t

-- `if (!v || !v.trim()) throw e`, and then `v.trim()`; a truthy value that is no text has no `trim`.
unfoldable pub required_text : Error → Value → Result String
required_text e (str s) = if s == "" then err e else non_empty e (trim s)
required_text e v = if truthy v then err type_error else err e

-- An argument of the driver that has to be a text; it refuses any other value.
abbrev pub text_arg : Value → Result String
text_arg (str s) = ok s
text_arg v = err (db_error (other "invalid argument"))

-- `v || d`, where the driver wants a text.
abbrev pub text_or_default : String → Value → Result String
text_or_default d v = if truthy v then text_arg v else ok d

-- A value that is only compared with texts, or tested against the pattern of a UUID. One that is no
-- text equals none of them.
abbrev pub text_or_empty : Value → String
text_or_empty (str s) = s
text_or_empty v = ""

-- `v === s`
abbrev pub is_string : String → Value → Bool
is_string s (str t) = t == s
is_string s v = false

-- `v || null`
abbrev pub value_or_null : Value → Value
value_or_null v = if truthy v then v else null

pub data Body : Type 0 where
  thread_body : Thread → Body
  participant_body : Participant → Body
  message_body : Message → Body
  outcome_body : Outcome → Body
  report_body : Report → Body
  reaction_body : Reaction → Body
  pending_body : List String → Body
  error_body : String → Body
  watch_body : Option Participant → Body
  counts_body : ℕ → ℕ → Body
  -- the emoji, how often, and whose
  summary_body : List (String × ℕ × List (String × String)) → Body
  removed_body : String → Body
  fact_body : NotificationFact → Body
  updated_body : ℕ → Body
  done_body : Body

pub record Response : Type 0 where
  pub status : ℕ
  pub body : Body

abbrev pub reply : ℕ → Body → Result Response
reply status body = ok (record { status = status; body = body })

abbrev pub found_or : {A : Type 0} → Error → Option A → Result A
found_or e none = err e
found_or e (some a) = ok a

pub found_or-ok : {A : Type 0} (e : Error) (o : Option A) (a : A) → found_or e o ≡ ok a → o ≡ some a
found_or-ok e none a h = cc
found_or-ok e (some b) a h = ground (arith, h)

abbrev pub no_thread : Error
no_thread = http_error 404 "Thread not found"

module _ (prisma : Prisma) where
  -- findThreadById, then 404.
  unfoldable pub thread_or_404 : String → Db → Result Thread
  thread_or_404 id db = found_or no_thread (find_thread_by_id prisma id db)

  -- The thread, if it exists and the caller may see it.
  unfoldable pub visible_thread : String → List String → Db → Result Thread
  visible_thread id scopes db = do
    thread ← thread_or_404 id db
    assert_ordinary_read_visibility thread.status (some scopes)
    ok thread
