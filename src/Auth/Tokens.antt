-- ===== src/Auth/Tokens.antt =====
-- svc-forum/src/lib/auth-jwt.ts: the verification of an access token. `jwtVerify` of the package jose,
-- which fetches the keys and checks the signature, the issuer, the audience and the expiry, is a
-- parameter: it gives the payload and the header's `kid`, or throws.
use agent_forum.Prelude.{
  ℕ, ◌≡◌, refl, String, Bool, true, false, not, ◌&&◌, ◌||◌, List, [], ◌∷◌, ◌==◌, any, length, ltb,
  nat_eq, if◌then◌else◌,
}
use agent_forum.Js.{Value, str, truthy}
use agent_forum.Ids.{codes, is_uuid}
use agent_forum.Requests.{is_string}
use agent_forum.Auth.Scopes.{scopes_of}

pub record Verified : Type 0 where
  pub principal_id : String
  pub agent_id : String
  pub client_id : String
  pub scopes : List String

-- VerifyErrorCode
pub data VerifyError : Type 0 where
  token_invalid contract_invalid jwks_unavailable : VerifyError

abbrev pub error_code : VerifyError → String
error_code token_invalid = "TOKEN_INVALID_OR_EXPIRED"
error_code contract_invalid = "TOKEN_CONTRACT_INVALID"
error_code jwks_unavailable = "AUTH_JWKS_UNAVAILABLE"

pub record Payload : Type 0 where
  pub type : Value
  pub version : Value
  pub principal_type : Value
  pub sub : Value
  pub agent_id : Value
  pub client_id : Value
  pub scope : Value

-- The class of what jose throws. `jose` is any other JOSEError, `plain_type_error` a TypeError.
pub data Class : Type 0 where
  jwks_timeout jwks_invalid jwks_no_matching_key jwt_expired : Class
  jws_bad_signature jws_invalid jose plain_type_error plain_error : Class
  jwt_claim_invalid : String → Class

-- An error with its message and the messages of its causes, or one that the availability probe has
-- classified.
pub data Thrown : Type 0 where
  classified : VerifyError → Thrown
  failure : Class → String → List String → Thrown

pub data Verification : Type 0 where
  valid : Payload → Value → Verification
  invalid : Thrown → Verification

pub data Verdict : Type 0 where
  accepted : Verified → Verdict
  refused : VerifyError → Verdict

abbrev starts_with : List ℕ → List ℕ → Bool
starts_with [] ds = true
starts_with (c ∷ cs) [] = false
starts_with (c ∷ cs) (d ∷ ds) = nat_eq c d && starts_with cs ds

abbrev includes_codes : List ℕ → List ℕ → Bool
includes_codes cs [] = starts_with cs []
includes_codes cs (d ∷ ds) = starts_with cs (d ∷ ds) || includes_codes cs ds

-- `message.includes(part)`
unfoldable pub includes : String → String → Bool
includes message part = includes_codes (codes part) (codes message)

abbrev message_marks : List String
message_marks =
    "fetch failed" ∷ "fetch" ∷ "ECONNREFUSED" ∷ "ENOTFOUND" ∷ "ECONNRESET" ∷ "ETIMEDOUT" ∷ "network"
    ∷ "timeout" ∷ "Failed to parse" ∷ "Unexpected token" ∷ "bad port" ∷ []

abbrev cause_marks : List String
cause_marks = "ECONNREFUSED" ∷ "ENOTFOUND" ∷ "ECONNRESET" ∷ "ETIMEDOUT" ∷ "bad port" ∷ "fetch" ∷ []

unfoldable pub is_infrastructure_error : String → List String → Bool
is_infrastructure_error message causes =
    any (includes message) message_marks || any (λ c. any (includes c) cause_marks) causes

-- `err instanceof JOSEError`
abbrev is_jose : Class → Bool
is_jose plain_type_error = false
is_jose plain_error = false
is_jose c = true

-- What the classes decide where the endpoint of the keys is not to blame.
abbrev token_error : Class → VerifyError
token_error (jwt_claim_invalid claim) =
    if claim == "iss" || claim == "aud" then contract_invalid else token_invalid
token_error c = token_invalid

abbrev is_plain_type_error : Class → Bool
is_plain_type_error plain_type_error = true
is_plain_type_error c = false

unfoldable pub classify_verify_error : Thrown → VerifyError
classify_verify_error (classified e) = e
classify_verify_error (failure jwks_timeout message causes) = jwks_unavailable
classify_verify_error (failure jwks_invalid message causes) = jwks_unavailable
classify_verify_error (failure c message causes) =
    if (is_jose c || is_plain_type_error c) && is_infrastructure_error message causes
    then jwks_unavailable
    else token_error c

abbrev pub max_token_size : ℕ
max_token_size = 16384

abbrev pub is_given_text : Value → Bool
is_given_text (str s) = not (s == "")
is_given_text v = false

abbrev is_uuid_text : Value → Bool
is_uuid_text (str s) = is_uuid s
is_uuid_text v = false

abbrev pub has_contract : Payload → Value → Bool
has_contract payload kid =
    truthy kid
    && is_string "access" payload.type
    && is_string "v1" payload.version
    && is_string "agent" payload.principal_type
    && is_uuid_text payload.sub
    && is_given_text payload.agent_id
    && is_given_text payload.client_id

abbrev pub text_of : Value → String
text_of (str s) = s
text_of v = ""

abbrev pub verified_of : Payload → Verified
verified_of payload = record {
  principal_id = text_of payload.sub;
  agent_id = text_of payload.agent_id;
  client_id = text_of payload.client_id;
  scopes = scopes_of payload.scope;
}

-- The checks one after another; each failure is the same error.
abbrev pub checked : Verification → Verdict
checked (invalid thrown) = refused (classify_verify_error thrown)
checked (valid payload kid) =
    if has_contract payload kid then accepted (verified_of payload) else refused contract_invalid

-- createAccessTokenVerifier. A token comes from a header and has one code unit to a character.
unfoldable pub verify_auth_access_token : (String → Verification) → String → Verdict
verify_auth_access_token jwt_verify token =
    if ltb max_token_size (length (codes token))
    then refused token_invalid
    else checked (jwt_verify token)

includes_test : includes "getaddrinfo ENOTFOUND auth" "ENOTFOUND" ≡ true
unfolding includes
includes_test = refl
