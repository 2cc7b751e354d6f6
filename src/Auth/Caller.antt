-- ===== src/Auth/Caller.antt =====
-- What a request's token makes of its caller.
use agent_forum.Prelude.{
  ℕ, ◌≡◌, refl, ap, subst, arith, String, true, false, Option, some, List, ◌==◌, contains, ltb,
  length, if◌then◌else◌, Bool-cases, Option-cases, inl, inr,
}
use agent_forum.Js.{Value, undefined, null, bool, num, str, arr, obj}
use agent_forum.Ids.{codes}
use agent_forum.Http.{Result, ok, err}
use agent_forum.Store.{Prisma, Db, Env, Principal}
use agent_forum.Store.Io.Laws.{and_then-ok, and_then-last}
use agent_forum.Principals.{resolve_principal}
use agent_forum.Auth.Scopes.{scopes_of}
use agent_forum.Auth.Scopes.Same.{contains-parse_scope}
use agent_forum.Middleware.{User}
use agent_forum.Auth.Tokens.{
  Verified, Payload, Verification, max_token_size, valid, invalid, Verdict, accepted, refused,
  is_given_text, text_of, has_contract, verified_of, checked, verify_auth_access_token,
}
use agent_forum.Auth.{
  extract_token, build_agent_user, accept, or_identity_error, resolve_caller, verify_and_resolve,
  auth_required, params_of,
}

or_identity_error-ok :
    {A : Type 0} (r : Result A × Db) (a : A) (db : Db)
    → or_identity_error r ≡ (ok a, db)
    → r ≡ (ok a, db)
or_identity_error-ok (ok b, left) a db h = h
or_identity_error-ok (err x, left) a db h = cc (ap (λ p. p.0) h)

given_text-not_empty : (v : Value) → is_given_text v ≡ true → (text_of v == "") ≡ false
given_text-not_empty (str s) h = ground (arith, h)
given_text-not_empty undefined h = cc
given_text-not_empty null h = cc
given_text-not_empty (bool b) h = cc
given_text-not_empty (num n) h = cc
given_text-not_empty (arr vs) h = cc
given_text-not_empty (obj fs) h = cc

module _ (operators : List String) (prisma : Prisma) (jwt_verify : String → Verification)
    (env : Env) (meanwhile : ℕ → Db → Db) where
  -- Who the caller is: the header carries a token, jose has verified it, its payload meets the
  -- forum's contract, and the caller is the principal of its subject, under its agent id and client,
  -- and with its scopes.
  pub record IsCaller (header : Option String) (db db' : Db) (user : User) : Type 0 where
    pub token : String
    pub payload : Payload
    pub kid : Value
    pub principal : Principal
    pub sent : extract_token header ≡ some token
    pub short : ltb max_token_size (length (codes token)) ≡ false
    pub verified : jwt_verify token ≡ valid payload kid
    pub contract : has_contract payload kid ≡ true
    pub resolved :
        resolve_principal prisma env meanwhile (params_of operators (verified_of payload)) db
        ≡ (ok principal, db')
    pub id : user.id ≡ principal.id
    pub agent : user.agent_id ≡ some (verified_of payload).agent_id
    pub client : user.client_id ≡ some (verified_of payload).client_id
    pub role :
        user.role
        ≡ some (if contains operators (verified_of payload).agent_id then "operator" else "agent")
    pub scopes : (s : String) → contains user.scopes s ≡ contains (scopes_of payload.scope) s

  accept-ok : (x : Verdict) (v : Verified) → accept x ≡ ok v → x ≡ accepted v
  accept-ok (accepted w) v h = ground (arith, h)
  accept-ok (refused e) v h = cc

  checked-accepted :
      (x : Verification) (v : Verified)
      → checked x ≡ accepted v
      → (payload : Payload) × (kid : Value) × (x ≡ valid payload kid)
        × (has_contract payload kid ≡ true)
        × (v ≡ verified_of payload)
  checked-accepted (invalid thrown) v h = cc
  checked-accepted (valid payload kid) v h = elim (Bool-cases (has_contract payload kid)) [
    | inl e ↦ (payload, kid, refl, e, ground (arith, e, h))
    | inr e ↦ cc (rw e at h)
  ]

  verified_token :
      (token : String) (v : Verified)
      → verify_auth_access_token jwt_verify token ≡ accepted v
      → (ltb max_token_size (length (codes token)) ≡ false)
        × (payload : Payload) × (kid : Value) × (jwt_verify token ≡ valid payload kid)
        × (has_contract payload kid ≡ true)
        × (v ≡ verified_of payload)
  unfolding verify_auth_access_token
  verified_token token v h = elim (Bool-cases (ltb max_token_size (length (codes token)))) [
    | inl e ↦ cc (rw e at h)
    | inr e ↦
        let (payload, kid, one, two, three) = checked-accepted (jwt_verify token) v (rw e at h) in
        (e, payload, kid, one, two, three)
  ]

  build_agent_user-HasVerified :
      (payload : Payload) (kid : Value) (principal : Principal) (user : User)
      → has_contract payload kid ≡ true
      → user ≡ build_agent_user operators (verified_of payload) principal
      → (user.id ≡ principal.id)
        × (user.agent_id ≡ some (verified_of payload).agent_id)
        × (user.client_id ≡ some (verified_of payload).client_id)
        × (user.role
            ≡ some
                (if contains operators (verified_of payload).agent_id then "operator" else "agent"))
        × ((s : String) → contains user.scopes s ≡ contains (scopes_of payload.scope) s)
  unfolding build_agent_user
  build_agent_user-HasVerified payload kid principal user h built =
      let asked : (is_given_text payload.agent_id) ≡ true = ground (arith, h) in
      let named = given_text-not_empty payload.agent_id asked in
      rw built (refl, refl, refl, ground (arith, named), contains-parse_scope payload.scope)

  resolve_caller-IsCaller :
      (header : Option String) (token : String) (payload : Payload) (kid : Value) (db db' : Db)
      (user : User)
      → extract_token header ≡ some token
      → ltb max_token_size (length (codes token)) ≡ false
      → jwt_verify token ≡ valid payload kid
      → has_contract payload kid ≡ true
      → resolve_caller operators prisma jwt_verify env meanwhile (verified_of payload) db
        ≡ (ok user, db')
      → IsCaller header db db' user
  resolve_caller-IsCaller header token payload kid db db' user sent short verified contract h =
      let (principal, resolved, built) =
        and_then-last _ (build_agent_user operators (verified_of payload))
          (or_identity_error-ok _ user db' h) in
      let (id, agent, client, role, scopes) =
        build_agent_user-HasVerified payload kid principal user contract built in
      record {
        token = token;
        payload = payload;
        kid = kid;
        principal = principal;
        sent = sent;
        short = short;
        verified = verified;
        contract = contract;
        resolved = resolved;
        id = id;
        agent = agent;
        client = client;
        role = role;
        scopes = scopes;
      }

  -- A caller is let in only by a token that jose has verified and whose payload meets the contract;
  -- he is then the principal of the token's subject, with its agent id and client and exactly the
  -- scopes of its claim, and an operator exactly if his agent id is one of the operators'.
  pub auth_required-IsCaller :
      (header : Option String) (db db' : Db) (user : User)
      → auth_required operators prisma jwt_verify env meanwhile header db ≡ (ok user, db')
      → IsCaller header db db' user
  unfolding auth_required verify_and_resolve
  auth_required-IsCaller header db db' user h = elim (Option-cases (extract_token header)) [
    | inl e ↦ cc (ap (λ p. p.0) (rw (auth_required, e) at h))
    | inr (token, sent) ↦
        let h1 : verify_and_resolve operators prisma jwt_verify env meanwhile token db
            ≡ (ok user, db') =
          rw (auth_required, sent) at h in
        let (v, got, h2) =
          and_then-ok (accept (verify_auth_access_token jwt_verify token), db) _ h1 in
        let (short, payload, kid, verified, contract, is_v) =
          verified_token token v (accept-ok _ v got) in
        resolve_caller-IsCaller header token payload kid db db' user sent short verified contract (
          subst
            (λ w. resolve_caller operators prisma jwt_verify env meanwhile w db ≡ (ok user, db'))
            is_v h2)
  ]
