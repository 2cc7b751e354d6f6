-- ===== src/Client.antt =====
-- openclaw-skills/agent-forum-access/scripts/forum-access.mjs: the agents' client. The network is a
-- parameter: what is answered to a request depends on all that was sent before. One command runs at
-- a time, so the promise that concurrent callers share is left out; so are the constant headers and
-- the body of the token request, which hold the credentials.
pub mod Retry
pub mod Paths
pub mod Api
use Prim.Native.Char.{Char, code}
use Prim.Native.String
use agent_forum.Prelude.{
  ℕ, ◌+◌, ◌*◌, ◌≡◌, refl, String, Bool, true, false, not, ◌&&◌, ◌||◌, Option, none, some, List, [],
  ◌∷◌, ◌++◌, ◌==◌, length, leb, ltb, nat_eq, if◌then◌else◌,
}
use agent_forum.Js.{Value, Fields, field, end, undefined, null, num, str, obj, truthy, template}
use agent_forum.Ids.{codes, is_alnum}
use agent_forum.Requests.{is_string}

pub data Method : Type 0 where
  get post put delete : Method

abbrev pub is_get : Method → Bool
is_get get = true
is_get m = false

-- A request for a token, or one to the forum with its method, URL, token and body.
pub data Request : Type 0 where
  token_request : Request
  forum_request : Method → String → String → Value → Request

abbrev pub is_forum : Request → Bool
is_forum token_request = false
is_forum (forum_request method url token body) = true

pub record Response : Type 0 where
  pub ok : Bool
  pub status : ℕ
  pub json : Value
  pub raw : String

-- No reply within the time, or a reply.
pub data Reply : Type 0 where
  no_reply : Reply
  reply : Response → Reply

-- An Error with its message, the language's own TypeError, or no reply.
pub data Failure : Type 0 where
  failed : Value → Failure
  type_failure network_failure : Failure

pub data Outcome {ℓ} (A : Type ℓ) : Type ℓ where
  done : A → Outcome A
  thrown : Failure → Outcome A

pub record State : Type 0 where
  pub token : Option String
  -- seconds; 0 is unknown
  pub expires_at : ℕ
  pub sent : List Request

abbrev pub Client : Type 0 → Type 0
Client A = State → Outcome A × State

abbrev pub and_then : {A B : Type 0} → Outcome A × State → (A → Client B) → Outcome B × State
and_then (done a, s) f = f a s
and_then (thrown e, s) f = (thrown e, s)

infixl 5 ◌>>=◌ ◌>>◌
abbrev pub ◌>>=◌ : {A B : Type 0} → Client A → (A → Client B) → Client B
◌>>=◌ m f s = and_then (m s) f

abbrev pub ◌>>◌ : {A B : Type 0} → Client A → Client B → Client B
m >> k = m >>= λ _. k

abbrev pub return : {A : Type 0} → A → Client A
return a s = (done a, s)

abbrev pub throw : {A : Type 0} → Failure → Client A
throw e s = (thrown e, s)

-- `if (b) throw new Error(message)`
abbrev pub throw_if : Bool → String → Client (Unit {0})
throw_if true message = throw (failed (str message))
throw_if false message = return tt

abbrev pub in_fields : String → Fields → Value
in_fields key end = undefined
in_fields key (field k v fs) = let rest = in_fields key fs in if k == key then v else rest

-- `v.key`, which throws on `null` and `undefined`
abbrev pub get_field : String → Value → Outcome Value
get_field key undefined = thrown type_failure
get_field key null = thrown type_failure
get_field key (obj fs) = done (in_fields key fs)
get_field key v = done undefined

-- `v && v.key`
abbrev pub field_of : String → Value → Value
field_of key (obj fs) = in_fields key fs
field_of key v = if truthy v then undefined else v

-- `a || b`
abbrev pub value_or : Value → Value → Value
value_or a b = if truthy a then a else b

abbrev pub max_response_size : ℕ
max_response_size = 500000

abbrev pub pre_refresh_seconds : ℕ
pre_refresh_seconds = 60

-- `token.split('.')`
unfoldable pub split_dots : String → List String
split_dots String.[] = "" ∷ []
split_dots (String.◌∷◌ c s) =
    let rest = split_dots s in
    if nat_eq (code c) b'.'
    then "" ∷ rest
    else elim rest [ [] ↦ String.◌∷◌ c String.[] ∷ [] | p ∷ ps ↦ String.◌∷◌ c p ∷ ps ]

abbrev pub exp_of : Value → ℕ
exp_of (num n) = n
exp_of v = 0

abbrev pub exp_in : Option Value → ℕ
exp_in none = 0
exp_in (some payload) = exp_of (field_of "exp" payload)

-- `decode_payload` is base64url and JSON, which fail on what is neither.
unfoldable pub decode_exp : (String → Option Value) → String → ℕ
decode_exp decode_payload token = elim (split_dots token) [
  | head ∷ payload ∷ signature ∷ [] ↦ exp_in (decode_payload payload)
  | parts ↦ 0
]

-- Only this error tells that a new token could help.
unfoldable pub is_refreshable_token_error : Response → Bool
is_refreshable_token_error r =
    nat_eq r.status 401 && is_string "TOKEN_INVALID_OR_EXPIRED" (field_of "error" r.json)

abbrev pub remember : String → ℕ → State → State
remember token expires_at s = record s { token = some token; expires_at = expires_at }

abbrev pub forget : State → State
forget s = record s { token = none; expires_at = 0 }

abbrev pub clear_token_cache : Client (Unit {0})
clear_token_cache s = (done tt, forget s)

abbrev pub retry_failed : Failure
retry_failed = failed (str "Token refresh failed after retry — authentication rejected")

abbrev pub write_refused : Failure
write_refused =
    failed (str "Authentication expired (HTTP 401) — token refreshed, please retry operation")

-- The network, the clock in milliseconds, the decoding of a token, and a number's text.
pub record World : Type 0 where
  pub server : List Request → Request → Reply
  pub now : List Request → ℕ
  pub decode_payload : String → Option Value
  pub shown : ℕ → String

module _ (world : World) where
  abbrev pub received : Reply → Client Response
  received no_reply = throw network_failure
  received (reply r) =
      if ltb max_response_size (length (codes r.raw))
      then throw (
          failed (
            str (
              template (
                "Response too large: "
                ∷ world.shown (length (codes r.raw))
                ∷ " bytes (max "
                ∷ world.shown max_response_size
                ∷ ")"
                ∷ []))))
      else return r

  unfoldable pub fetch_response : Request → Client Response
  fetch_response request s =
      received (world.server s.sent request) (record s { sent = s.sent ++ request ∷ [] })

  abbrev pub login_error : Response → Value
  login_error r =
      value_or (value_or (field_of "error_description" r.json) (field_of "message" r.json)) (
        value_or (field_of "error" r.json)
          (str (template ("Login failed (HTTP " ∷ world.shown r.status ∷ ")" ∷ []))))

  abbrev pub take_token : Outcome Value → Client String
  take_token (thrown e) = throw e
  take_token (done (str t)) =
      if t == ""
      then throw (failed (str "Login response missing access_token"))
      else (λ s. (done t, remember t (decode_exp world.decode_payload t) s))
  take_token (done v) = throw (failed (str "Login response missing access_token"))

  unfoldable pub do_login : Client String
  do_login = fetch_response token_request >>= λ r.
      if not r.ok
      then throw (failed (login_error r))
      else take_token (get_field "access_token" r.json)

  -- `!token || (expiresAt > 0 && now >= expiresAt - 60)`
  abbrev pub needs_refresh : State → Bool
  needs_refresh s = elim s.token [
    | none ↦ true
    | some t ↦
        t == ""
        || (ltb 0 s.expires_at
            && leb (s.expires_at * 1000) (world.now s.sent + pre_refresh_seconds * 1000))
  ]

  abbrev pub cached : Option String → String
  cached none = ""
  cached (some t) = t

  unfoldable pub get_access_token : Client String
  get_access_token s = if needs_refresh s then do_login s else (done (cached s.token), s)

  abbrev pub send_once : Method → String → Value → Client Response
  send_once method url body =
      get_access_token >>= λ token. fetch_response (forum_request method url token body)

  -- A second refusal stops.
  abbrev pub retried : Response → Client Response
  retried r = if is_refreshable_token_error r then throw retry_failed else return r

  abbrev pub refused : Method → String → Value → Client Response
  refused method url body =
      clear_token_cache
      >> (if is_get method then (send_once method url body >>= retried) else throw write_refused)

  unfoldable pub authenticated_fetch : Method → String → Value → Client Response
  authenticated_fetch method url body = send_once method url body >>= λ r.
      if is_refreshable_token_error r then refused method url body else return r
