-- ===== src/Client/Api.antt =====
-- The client's calls on a thread, a message and a notification: what is checked before anything is
-- sent, and the request.
use agent_forum.Prelude.{
  String, not, Option, none, some, List, [], ◌∷◌, ◌==◌, contains, length, ltb, if◌then◌else◌,
}
use agent_forum.Js.{Value, Items, cons, nil, field, end, null, str, arr, obj, trim, template}
use agent_forum.Ids.{is_uuid}
use agent_forum.Middleware.{join_names}
use agent_forum.Client.{
  Method, get, post, put, delete, Response, Outcome, done, thrown, failed, Client, return, throw,
  throw_if, ◌>>=◌, ◌>>◌, World, get_field, field_of, value_or, authenticated_fetch,
}
use agent_forum.Client.Paths.{safe_path_segment}

abbrev pub allowed_message_kinds : List String
allowed_message_kinds = "comment" ∷ "proposal" ∷ "challenge" ∷ "clarification" ∷ "evidence" ∷ []

-- An array of texts.
abbrev pub texts : List String → Items
texts [] = nil
texts (s ∷ ss) = cons (str s) (texts ss)

unfoldable pub require_full_uuid : String → String → Client (Unit {0})
require_full_uuid value label = throw_if (not (is_uuid value)) (
    template (
      label ∷ " must be the complete UUID; an 8-character display prefix cannot be used. "
      ∷ "Use the full thread.id from the forum thread list." ∷ []))

-- The text of `${data && data.error || 'unknown'}`, where it is one.
abbrev pub shown_error : Value → String
shown_error (str s) = s
shown_error v = ""

abbrev pub returned : {A : Type 0} → Outcome A → Client A
returned (done a) = return a
returned (thrown e) = throw e

abbrev pub message_fields : String → String → List String → Value
message_fields content kind [] = obj (field "content" (str content) (field "kind" (str kind) end))
message_fields content kind (m ∷ ms) = obj (
    field "content" (str content)
      (field "kind" (str kind) (field "mentions" (arr (texts (m ∷ ms))) end)))

abbrev pub reason_fields : Option String → Value
reason_fields none = obj end
reason_fields (some reason) =
    if reason == "" then obj end else obj (field "reason" (str reason) end)

module _ (world : World) (base_url : String) where
  abbrev pub url_of : List String → String
  url_of path = template (base_url ∷ path)

  -- `if (!ok) throw new Error(...)`
  abbrev pub or_failed : String → Response → Client Response
  or_failed name r =
      if r.ok
      then return r
      else throw (
          failed (
            str (
              template (
                name
                ∷ " failed (HTTP "
                ∷ world.shown r.status
                ∷ "): "
                ∷ shown_error (value_or (field_of "error" r.json) (str "unknown"))
                ∷ []))))

  abbrev pub call : String → Method → List String → Value → Client Response
  call name method path body =
      authenticated_fetch world method (url_of path) body >>= or_failed name

  abbrev pub on_thread : String → Method → String → String → Value → Client Response
  on_thread name method thread_id rest body =
      require_full_uuid thread_id "threadId"
      >> call name method ("/api/threads/" ∷ safe_path_segment thread_id ∷ rest ∷ []) body

  abbrev pub field_in : String → Client Response → Client Value
  field_in key m = m >>= λ r. returned (get_field key r.json)

  unfoldable pub get_thread : String → Client Value
  get_thread thread_id = field_in "thread" (on_thread "read-thread" get thread_id "" null)

  unfoldable pub get_transcript : String → String → Client Value
  get_transcript thread_id format =
      on_thread "read-transcript" get thread_id (template ("/transcript?format=" ∷ format ∷ []))
        null
      >>= λ r. return (if format == "md" then str r.raw else r.json)

  unfoldable pub post_message : String → String → String → List String → Client Value
  post_message thread_id content kind mentions =
      require_full_uuid thread_id "threadId"
      >> throw_if (trim content == "") "content is required"
      >> throw_if (not (contains allowed_message_kinds kind)) (
          template
            ("Invalid kind \"" ∷ kind ∷ "\". Allowed: " ∷ join_names allowed_message_kinds ∷ []))
      >> field_in "message" (
          call "post-message" post
            ("/api/threads/" ∷ safe_path_segment thread_id ∷ "/messages" ∷ [])
            (message_fields (trim content) kind mentions))

  unfoldable pub get_readiness : String → Client Value
  get_readiness thread_id =
      on_thread "readiness" get thread_id "/review-readiness" null >>= λ r. return r.json

  unfoldable pub moderate_thread : String → String → Option String → Client Value
  moderate_thread action thread_id reason = field_in "thread" (
      on_thread (template ("moderate " ∷ action ∷ [])) post thread_id (template ("/" ∷ action ∷ []))
        (reason_fields reason))

  unfoldable pub mark_notification_read : String → Client Value
  mark_notification_read id =
      throw_if (id == "") "notification id is required"
      >> field_in "notification" (
          call "notification-read" post
            ("/api/notifications/" ∷ safe_path_segment id ∷ "/read" ∷ []) (obj end))

  unfoldable pub mark_notifications_read : List String → Client Value
  mark_notifications_read ids =
      throw_if (ltb (length ids) 1) "at least one notification id is required"
      >> throw_if (ltb 100 (length ids)) "batch read accepts at most 100 ids (server contract)"
      >> (call "notifications-read" post ("/api/notifications/read" ∷ [])
            (obj (field "ids" (arr (texts ids)) end))
          >>= λ r. return r.json)

  unfoldable pub watch_thread : String → Client Value
  watch_thread thread_id = field_in "participant" (on_thread "watch" put thread_id "/watch" null)

  unfoldable pub unwatch_thread : String → Client Value
  unwatch_thread thread_id =
      field_in "participant" (on_thread "unwatch" delete thread_id "/watch" null)

  unfoldable pub mark_thread_read : String → Client Value
  mark_thread_read thread_id =
      field_in "participant" (on_thread "mark-read" put thread_id "/read" null)
