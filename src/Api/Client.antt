-- ===== src/Api/Client.antt =====
-- frontend/app/lib/api/client.ts: one request of the client. The server, `fetch` and the JSON
-- codec are arguments.
pub mod Routes
pub mod Calls
pub mod Laws
use scholarmatch_ai.Base.{
  ℕ, Bool, true, false, not, List, [], ◌∷◌, ◌++◌, ◌&&◌, Option, none, some, if◌then◌else◌, ◌==◌,
  leb, or_else,
}
use scholarmatch_ai.Base.Text.{Text, codes}
use scholarmatch_ai.Api.Errors.{
  ApiErrorKind, unauthorized, not_found, ApiError, ErrorEnvelope, FailedResponse, truthy,
  api_error_from_response, api_error_from_network,
}

pub data Method : Type 0 where
  get put post patch delete : Method

-- `RequestOptions`; `Body` is the type of the values that are sent as JSON.
pub record RequestOptions (Body : Type 0) : Type 0 where
  pub method : Method
  pub path : Text
  pub body : Option Body
  pub idempotency_key : Option Text
  pub require_auth : Option Bool

-- What goes to `fetch`.
pub record HttpRequest (Body : Type 0) : Type 0 where
  pub method : Method
  pub url : Text
  pub headers : List (Text × Text)
  pub body : Option Body

-- A response that arrived: its body's text, `none` where reading the body fails.
pub record HttpResponse : Type 0 where
  pub status : ℕ
  pub retry_after : Option Text
  pub text : Option Text

-- How `fetch` settles: it rejects, by an abort or not, or a response arrives.
pub data Fetched : Type 0 where
  rejected : Bool → Fetched
  responded : HttpResponse → Fetched

-- How the method settles: with a value or `null`, with an `ApiError`, or with another error.
pub data Outcome (A : Type 0) : Type 0 where
  returned : Option A → Outcome A
  failed : ApiError → Outcome A
  threw : Outcome A

abbrev pub session_expired_error : ApiError
session_expired_error = record {
  kind = unauthorized;
  status = 401;
  message = codes "Your session has expired. Please sign in again to continue.";
  code = codes "UNAUTHORIZED";
  details = [];
  request_id = none;
  retry_after_seconds = none;
}

-- `baseUrl.replace(/\/$/, "")`
unfoldable pub strip_slash : Text → Text
strip_slash [] = []
strip_slash (c ∷ []) = if c == b'/' then [] else c ∷ []
strip_slash (c ∷ d ∷ s) = c ∷ strip_slash (d ∷ s)

abbrev key_header : Option Text → List (Text × Text)
key_header none = []
key_header (some key) = (codes "Idempotency-Key", key) ∷ []

abbrev body_header : {Body : Type 0} → Option Body → List (Text × Text)
body_header none = []
body_header (some body) = (codes "Content-Type", codes "application/json") ∷ []

abbrev token_header : Option Text → List (Text × Text)
token_header none = []
token_header (some token) = (codes "Authorization", codes "Bearer " ++ token) ∷ []

module _ {Body : Type 0} where
  -- The request that is built once there is a token or none is needed.
  abbrev pub http_request : Text → Option Text → RequestOptions Body → HttpRequest Body
  http_request base_url token options = record {
    method = options.method;
    url = base_url ++ options.path;
    headers =
        (codes "Accept", codes "application/json")
        ∷ (token_header token
            ++ (key_header (truthy options.idempotency_key) ++ body_header options.body));
    body = options.body;
  }

  -- `none` where the method fails before it calls `fetch`.
  unfoldable pub request_sent : Text → Option Text → RequestOptions Body → Option (HttpRequest Body)
  request_sent base_url token options = elim (truthy token) [
    | some t ↦ some (http_request base_url (some t) options)
    | none ↦
        if or_else options.require_auth true
        then none
        else some (http_request base_url none options)
  ]

-- `response.ok`
abbrev pub is_ok : ℕ → Bool
is_ok status = leb 200 status && leb status 299

-- Reads the error body; `parse_envelope` gives what `isErrorEnvelope` accepts of it.
abbrev pub failed_response : (Text → Option ErrorEnvelope) → HttpResponse → FailedResponse
failed_response parse_envelope response = record {
  status = response.status;
  retry_after = response.retry_after;
  envelope = elim response.text [ none ↦ none | some s ↦ parse_envelope s ];
}

abbrev returned_or_threw : {A : Type 0} → Option (Option A) → Outcome A
returned_or_threw none = threw
returned_or_threw (some value) = returned value

-- `text.length > 0 ? JSON.parse(text) : null`; `parse` is `none` where `JSON.parse` throws.
abbrev pub parsed_body : {A : Type 0} → (Text → Option (Option A)) → Option Text → Outcome A
parsed_body parse none = threw
parsed_body parse (some []) = returned none
parsed_body parse (some (c ∷ s)) = returned_or_threw (parse (c ∷ s))

module _ {A : Type 0} (parse_envelope : Text → Option ErrorEnvelope)
    (parse : Text → Option (Option A)) where
  unfoldable pub settle : Fetched → Outcome A
  settle (rejected aborted) = failed (api_error_from_network aborted)
  settle (responded response) =
      if not (is_ok response.status)
      then failed (api_error_from_response (failed_response parse_envelope response))
      else if response.status == 204
      then returned none
      else parsed_body parse response.text

  module _ {Body : Type 0} (fetch : HttpRequest Body → Fetched) where
    unfoldable pub request : Text → Option Text → RequestOptions Body → Outcome A
    unfolding request_sent settle
    request base_url token options = elim (request_sent base_url token options) [
      | none ↦ failed session_expired_error
      | some r ↦ settle (fetch r)
    ]

-- `isNotFound(error)`
abbrev pub is_not_found : ApiError → Bool
is_not_found error = elim error.kind [ not_found ↦ true | _ ↦ false ]

-- The `catch` of `getProfile`: a profile that is not found is `null`.
unfoldable pub null_if_not_found : {A : Type 0} → Outcome A → Outcome A
null_if_not_found (returned value) = returned value
null_if_not_found (failed error) = if is_not_found error then returned none else failed error
null_if_not_found threw = threw
