-- ===== src/Client/Retry.antt =====
-- How often a request is sent, and what the client makes of a refused token.
use agent_forum.Prelude.{
  ℕ, ◌+◌, ◌≤◌, ◌≡◌, refl, arith, String, Bool, true, false, not, List, [], ◌∷◌, ◌++◌, ◌==◌, filter,
  length, ltb, if◌then◌else◌, Bool-cases, inl, inr,
}
use agent_forum.Js.{Value, undefined, null, bool, num, str, arr, obj}
use agent_forum.Ids.{codes}
use agent_forum.Client.{
  Method, get, post, put, delete, is_get, Request, token_request, forum_request, is_forum, Response,
  Reply, no_reply, reply, Outcome, done, thrown, State, Client, and_then, return, forget, ◌>>=◌,
  World, received, fetch_response, take_token, get_field, do_login, get_access_token, needs_refresh,
  send_once, retried, refused, is_refreshable_token_error, authenticated_fetch, max_response_size,
}

-- The requests to the forum among those that were sent.
abbrev pub forum_requests : List Request → ℕ
forum_requests sent = length (filter is_forum sent)

forum_requests-last :
    (sent : List Request) (r : Request)
    → forum_requests (sent ++ r ∷ []) ≡ forum_requests sent + (if is_forum r then 1 else 0)
forum_requests-last [] r = ground arith
forum_requests-last (q ∷ qs) r = let rest = forum_requests-last qs r in ground (arith, rest)

-- A computation sends at most so many requests to the forum, whatever it ends in.
abbrev pub SendsAtMost : {A : Type 0} → ℕ → Client A → Type 0
SendsAtMost n m = (s : State) → forum_requests (m s).1.sent ≤ n + forum_requests s.sent

and_then-SendsAtMost :
    {A B : Type 0} (a b n : ℕ) (p : Outcome A × State) (f : A → Client B)
    → ((x : A) → SendsAtMost b (f x))
    → forum_requests p.1.sent ≤ a + n
    → forum_requests (and_then p f).1.sent ≤ a + b + n
and_then-SendsAtMost a b n (thrown e, t) f k le = omega (arith, le)
and_then-SendsAtMost a b n (done x, t) f k le = let more = k x t in omega (arith, le, more)

>>=-SendsAtMost :
    {A B : Type 0} (a b : ℕ) (m : Client A) (f : A → Client B)
    → SendsAtMost a m
    → ((x : A) → SendsAtMost b (f x))
    → SendsAtMost (a + b) (m >>= f)
>>=-SendsAtMost a b m f h k s = and_then-SendsAtMost a b (forum_requests s.sent) (m s) f k (h s)

if-SendsAtMost :
    {A : Type 0} (n : ℕ) (b : Bool) (m k : Client A)
    → (b ≡ true → SendsAtMost n m)
    → (b ≡ false → SendsAtMost n k)
    → SendsAtMost n (if b then m else k)
if-SendsAtMost n true m k h h' = h refl
if-SendsAtMost n false m k h h' = h' refl

module _ (world : World) where
  received-SendsAtMost : (r : Reply) → SendsAtMost 0 (received world r)
  received-SendsAtMost no_reply s = omega arith
  received-SendsAtMost (reply r) s =
      if-SendsAtMost 0 (ltb max_response_size (length (codes r.raw))) _ _ (λ e s. omega arith)
        (λ e s. omega arith) s

  fetch_response-sends :
      (request : Request) (s : State)
      → forum_requests (fetch_response world request s).1.sent
        ≤ (if is_forum request then 1 else 0) + forum_requests s.sent
  unfolding fetch_response
  fetch_response-sends request s =
      let one = forum_requests-last s.sent request in
      let rest =
        received-SendsAtMost (world.server s.sent request)
          (record s { sent = s.sent ++ request ∷ [] }) in
      omega (arith, one, rest)

  take_token-SendsAtMost : (x : Outcome Value) → SendsAtMost 0 (take_token world x)
  take_token-SendsAtMost (thrown e) s = omega arith
  take_token-SendsAtMost (done (str t)) s =
      if-SendsAtMost 0 (t == "") _ _ (λ e s. omega arith) (λ e s. omega arith) s
  take_token-SendsAtMost (done undefined) s = omega arith
  take_token-SendsAtMost (done null) s = omega arith
  take_token-SendsAtMost (done (bool b)) s = omega arith
  take_token-SendsAtMost (done (num n)) s = omega arith
  take_token-SendsAtMost (done (arr vs)) s = omega arith
  take_token-SendsAtMost (done (obj fs)) s = omega arith

  get_access_token-SendsAtMost : SendsAtMost 0 (get_access_token world)
  unfolding get_access_token do_login
  get_access_token-SendsAtMost s = elim (Bool-cases (needs_refresh world s)) [
    | inl e ↦ rw e (
        >>=-SendsAtMost 0 0 (fetch_response world token_request) _
          (fetch_response-sends token_request)
          (λ r.
            if-SendsAtMost 0 (not r.ok) _ _ (λ k s. omega arith)
              (λ k. take_token-SendsAtMost (get_field "access_token" r.json)))
          s)
    | inr e ↦ rw e (omega arith)
  ]

  send_once-SendsAtMost :
      (method : Method) (url : String) (body : Value)
      → SendsAtMost 1 (send_once world method url body)
  send_once-SendsAtMost method url body =
      >>=-SendsAtMost 0 1 (get_access_token world) _ get_access_token-SendsAtMost
        (λ token. fetch_response-sends (forum_request method url token body))

  abbrev more_of : Method → ℕ
  more_of method = if is_get method then 1 else 0

  refused-SendsAtMost :
      (method : Method) (url : String) (body : Value)
      → SendsAtMost (more_of method) (refused world method url body)
  refused-SendsAtMost get url body s =
      >>=-SendsAtMost 1 0 (send_once world get url body) _ (send_once-SendsAtMost get url body)
        (λ r.
          if-SendsAtMost 0 (is_refreshable_token_error r) _ _ (λ e t. omega arith)
            (λ e t. omega arith))
        (forget s)
  refused-SendsAtMost post url body s = omega arith
  refused-SendsAtMost put url body s = omega arith
  refused-SendsAtMost delete url body s = omega arith

  -- A write is sent to the forum at most once, and a read at most twice, whatever the servers answer
  -- and however the call ends.
  pub authenticated_fetch-SendsAtMost :
      (method : Method) (url : String) (body : Value)
      → SendsAtMost (if is_get method then 2 else 1) (authenticated_fetch world method url body)
  unfolding authenticated_fetch
  authenticated_fetch-SendsAtMost method url body s =
      let most =
        >>=-SendsAtMost 1 (more_of method) (send_once world method url body)
          (λ r. if is_refreshable_token_error r then refused world method url body else return r)
          (send_once-SendsAtMost method url body)
          (λ r.
            if-SendsAtMost (more_of method) (is_refreshable_token_error r)
              (refused world method url body) (return r) (λ e. refused-SendsAtMost method url body)
              (λ e t. omega arith))
          s in
      ground (arith, most)

-- A call that returns has not returned a refused token.
abbrev pub IsAccepted : Outcome Response × State → Type 0
IsAccepted p = (r : Response) → p.0 ≡ done r → is_refreshable_token_error r ≡ false

and_then-IsAccepted :
    {A : Type 0} (p : Outcome A × State) (f : A → Client Response)
    → ((x : A) (s : State) → IsAccepted (f x s))
    → IsAccepted (and_then p f)
and_then-IsAccepted (thrown e, s) f h r eq = cc
and_then-IsAccepted (done x, s) f h r eq = h x s r eq

retried-IsAccepted : (world : World) (r : Response) (s : State) → IsAccepted (retried world r s)
retried-IsAccepted world r s q eq = elim (Bool-cases (is_refreshable_token_error r)) [
  | inl e ↦ cc (rw e at eq)
  | inr e ↦ let same : r ≡ q = ground (arith, rw e at eq) in rw (← same) e
]

refused-IsAccepted :
    (world : World) (method : Method) (url : String) (body : Value) (s : State)
    → IsAccepted (refused world method url body s)
refused-IsAccepted world get url body s r eq =
    and_then-IsAccepted (send_once world get url body (forget s)) (retried world)
      (retried-IsAccepted world) r eq
refused-IsAccepted world post url body s r eq = cc
refused-IsAccepted world put url body s r eq = cc
refused-IsAccepted world delete url body s r eq = cc

-- A response that the call returns, for a read as for a write and after a retry as well, is never one
-- that refuses the token as invalid or expired.
pub authenticated_fetch-IsAccepted :
    (world : World) (method : Method) (url : String) (body : Value) (s : State) (r : Response)
    → (authenticated_fetch world method url body s).0 ≡ done r
    → is_refreshable_token_error r ≡ false
unfolding authenticated_fetch
authenticated_fetch-IsAccepted world method url body s =
    and_then-IsAccepted (send_once world method url body s) _ (λ r t q eq.
      elim (Bool-cases (is_refreshable_token_error r)) [
        | inl e ↦ refused-IsAccepted world method url body t q (rw e at eq)
        | inr e ↦ let same : r ≡ q = ground (arith, rw e at eq) in rw (← same) e
      ])
