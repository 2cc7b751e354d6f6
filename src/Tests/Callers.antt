-- ===== src/Tests/Callers.antt =====
-- Principals, callers and the client at concrete tokens, databases and servers.
use agent_forum.Prelude.{
  ℕ, suc, ◌≡◌, ◌≤◌, refl, String, none, some, [], ◌∷◌, ◌++◌, nat_eq, arith, Bool-cases, inl, inr,
  true, false, if◌then◌else◌, leb, length,
}
use agent_forum.Js.{undefined, null, str, num, obj, field, end}
use agent_forum.Http.{Result, ok, http_error, p2002}
use agent_forum.Mentions.{sort}
use agent_forum.Js.{distinct_from}
use agent_forum.Store.{Db, Env, Principal}
use agent_forum.Middleware.{User}
use agent_forum.Principals.{
  ResolveParams, resolve_tx, resolve_from, resolve_principal, seen_at, principal_row,
}
use agent_forum.Principals.Resolved.{HasResolved, resolve_tx-HasResolved}
use agent_forum.Principals.Enough.{resolve_principal_enough}
use agent_forum.Auth.Tokens.{Payload, Verification, valid, invalid, failure, jwt_expired}
use agent_forum.Auth.{extract_token, auth_required, auth_optional}
use agent_forum.Auth.Caller.{IsCaller, auth_required-IsCaller}
use agent_forum.Auth.Answers.{IsRefused, auth_required-IsRefused}
use agent_forum.Auth.Scopes.{join_words, parse_scope}
use agent_forum.Auth.Scopes.Same.{parse_scope-join_words}
use agent_forum.Client.{
  Method, get, post, Request, token_request, forum_request, Reply, reply, World, State, Outcome,
  done, thrown, authenticated_fetch, is_refreshable_token_error, Response,
}
use agent_forum.Client.Retry.{
  forum_requests, authenticated_fetch-SendsAtMost, authenticated_fetch-IsAccepted,
}
use agent_forum.Tests.Memory.{memory, memory-IsReliable}
use agent_forum.Tests.Data.{forum, alone, alice}
use agent_forum.Tests.Stores.{left_of, result_or, value_or}

abbrev pub subject : String
subject = "0b9f7c1e-2222-4aaa-8bbb-0123456789ab"

abbrev pub agent : ResolveParams
agent = record {
  auth_subject = subject;
  agent_id = some "alice";
  display_name = none;
  principal_type = "agent";
}

abbrev pub nobody : Principal
nobody = record {
  id = "";
  auth_subject = "";
  principal_type = "";
  agent_id = none;
  display_name = none;
  source = "";
  status = "";
  first_seen_at = 0;
  last_seen_at = 0;
}

-- The principal has been seen before.
abbrev known : Db
known = record forum { principals = seen_at 100 (principal_row agent 90 "known") ∷ [] }

abbrev pub resolved : Result (Principal × Db)
resolved = resolve_tx memory agent 100 forum

resolve_tx-HasResolved_example : HasResolved agent 100 (left_of resolved) (value_or nobody resolved)
unfolding resolve_tx agent_forum.Principals.find_principal agent_forum.Principals.create
    agent_forum.Ids.is_valid_agent_id agent_forum.Js.trim
    agent_forum.Principals.find_principal_by_agent_id agent_forum.Principals.create_principal_row
resolve_tx-HasResolved_example =
    resolve_tx-HasResolved memory agent 100 (value_or nobody resolved) forum (left_of resolved) tt
      refl

-- A new subject asks for an agent id that is another's.
abbrev impostor : ResolveParams
impostor = record agent { auth_subject = "0b9f7c1e-9999-4aaa-8bbb-0123456789ab" }

-- While the first attempt runs, somebody else inserts the principal, and it clashes.
abbrev raced : Env
raced = record alone { refuses = λ k. if nat_eq k 1 then some p2002 else none }

abbrev insert_agent : ℕ → Db → Db
insert_agent k db = record db { principals = db.principals ++ principal_row agent 90 "raced" ∷ [] }

resolve_principal_enough_example :
    resolve_from memory raced insert_agent agent (suc (suc 3)) 1 forum
    ≡ resolve_principal memory raced insert_agent agent forum
resolve_principal_enough_example =
    resolve_principal_enough memory memory-IsReliable raced insert_agent agent
      (λ k later. elim (Bool-cases (nat_eq k 1)) [
        | inl e ↦ ground (arith, later, e)
        | inr e ↦ rw e tt
      ])
      (λ k db known. known) 3 forum

-- The retry finds him and returns him.
raced_id :
    (resolve_principal memory raced insert_agent agent forum).0
    ≡ ok (seen_at (raced.now 2) (principal_row agent 90 "raced"))
unfolding resolve_principal resolve_from resolve_tx agent_forum.Principals.find_principal
    agent_forum.Principals.create agent_forum.Ids.is_valid_agent_id agent_forum.Js.trim
    agent_forum.Principals.find_principal_by_agent_id agent_forum.Principals.create_principal_row
    agent_forum.Principals.touch agent_forum.Principals.update_principal_row
raced_id = refl

abbrev pub claims : Payload
claims = record {
  type = str "access";
  version = str "v1";
  principal_type = str "agent";
  sub = str subject;
  agent_id = str "alice";
  client_id = str "c1";
  scope = str "forum.write forum.read";
}

abbrev pub jose : String → Verification
jose token = valid claims (str "k1")

abbrev pub let_in : Result User × Db
let_in = auth_required [] memory jose alone (λ k db. db) (some "Bearer t") forum

auth_required-IsCaller_example :
    IsCaller [] memory jose alone
      (λ k db. db)
      (some "Bearer t")
      forum
      let_in.1
      (result_or alice let_in.0)
unfolding auth_required extract_token agent_forum.Auth.verify_and_resolve
    agent_forum.Auth.Tokens.verify_auth_access_token agent_forum.Ids.is_uuid resolve_principal
    resolve_from resolve_tx agent_forum.Principals.find_principal agent_forum.Principals.create
    agent_forum.Ids.is_valid_agent_id agent_forum.Js.trim
    agent_forum.Principals.find_principal_by_agent_id agent_forum.Principals.create_principal_row
auth_required-IsCaller_example =
    auth_required-IsCaller [] memory jose alone (λ k db. db) (some "Bearer t") forum let_in.1
      (result_or alice let_in.0) refl

abbrev pub expired : String → Verification
expired token = invalid (failure jwt_expired "" [])

auth_required-IsRefused_example :
    IsRefused [] memory expired alone
      (λ k db. db)
      (some "Bearer t")
      forum
      (http_error 401 "TOKEN_INVALID_OR_EXPIRED")
unfolding auth_required extract_token agent_forum.Auth.verify_and_resolve
    agent_forum.Auth.Tokens.verify_auth_access_token agent_forum.Auth.verify_error_to_http
    agent_forum.Auth.Tokens.classify_verify_error agent_forum.Auth.Tokens.is_infrastructure_error
    agent_forum.Auth.Tokens.includes
auth_required-IsRefused_example =
    auth_required-IsRefused [] memory expired alone (λ k db. db) (some "Bearer t") forum forum
      (http_error 401 "TOKEN_INVALID_OR_EXPIRED") refl

parse_scope-join_words_example :
    parse_scope (join_words ("w" ∷ "r" ∷ "w" ∷ [])) ≡ sort (distinct_from [] ("w" ∷ "r" ∷ "w" ∷ []))
unfolding agent_forum.Js.is_space
parse_scope-join_words_example =
    parse_scope-join_words ("w" ∷ "r" ∷ "w" ∷ []) ((refl, tt), ((refl, tt), ((refl, tt), tt)))

-- A server that gives a token and refuses the first one.
abbrev pub answer : ℕ → Request → Reply
answer n token_request =
    reply (record {
      ok = true;
      status = 200;
      json = obj (field "access_token" (str "t") end);
      raw = "";
    })
answer n (forum_request method url token body) =
    if leb n 1
    then reply (record {
      ok = false;
      status = 401;
      json = obj (field "error" (str "TOKEN_INVALID_OR_EXPIRED") end);
      raw = "";
    })
    else reply (record { ok = true; status = 200; json = null; raw = "" })

abbrev pub world : World
world = record {
  server = λ sent request. answer (length sent) request;
  now = λ sent. 0;
  decode_payload = λ token. none;
  shown = λ n. "n";
}

abbrev pub start : State
start = record { token = none; expires_at = 0; sent = [] }

authenticated_fetch-SendsAtMost_example :
    forum_requests (authenticated_fetch world post "u" null start).1.sent ≤ 1
authenticated_fetch-SendsAtMost_example = authenticated_fetch-SendsAtMost world post "u" null start

abbrev pub fine : Response
fine = record { ok = true; status = 200; json = null; raw = "" }

authenticated_fetch-IsAccepted_example : is_refreshable_token_error fine ≡ false
unfolding authenticated_fetch agent_forum.Client.get_access_token agent_forum.Client.do_login
    agent_forum.Client.fetch_response is_refreshable_token_error
authenticated_fetch-IsAccepted_example =
    authenticated_fetch-IsAccepted world get "u" null start fine refl
