-- ===== src/Documents/Upload.antt =====
-- frontend/app/lib/documents/upload.ts: the checks on a file, the request of an upload, and how
-- the events of its `XMLHttpRequest` settle the promise.
use scholarmatch_ai.Base.{
  Bool, true, false, not, ◌||◌, List, [], ◌∷◌, ◌++◌, Option, none, some, if◌then◌else◌, ℕ, ◌+◌, ◌*◌,
  ◌/◌, ◌%◌, ltb, leb, ◌==◌, is_some,
}
use scholarmatch_ai.Base.Text.{Text, codes, member}
use scholarmatch_ai.Base.Text.Decimal.{decimal}
use scholarmatch_ai.Base.Url.{encode_uri_component}
use scholarmatch_ai.Api.Errors.{
  ApiError, ErrorEnvelope, truthy, api_error_from_response, api_error_from_network,
}
use scholarmatch_ai.Api.Client.{strip_slash, is_ok}
use scholarmatch_ai.Documents.{DocumentResponse, DocumentUploadPolicy, File}

-- `bytes / 1024 / 1024 * 10`, rounded to the nearest whole number, halves up; exact in the
-- source's numbers below 2^49 bytes.
abbrev tenths : ℕ → ℕ
tenths bytes = (bytes * 20 + 1048576) / 2097152

-- `String(n / 10)`
abbrev tenths_text : ℕ → Text
tenths_text n =
    if n % 10 == 0 then decimal (n / 10) else decimal (n / 10) ++ (codes "." ++ decimal (n % 10))

unfoldable pub format_bytes : ℕ → Text
unfolding decimal
format_bytes bytes = tenths_text (tenths bytes) ++ codes " MB"

-- `items.join(separator)`
unfoldable pub join : Text → List Text → Text
join separator [] = []
join separator (s ∷ []) = s
join separator (s ∷ t ∷ rest) = s ++ (separator ++ join separator (t ∷ rest))

unfoldable pub validate_document_file : File → DocumentUploadPolicy → Option Text
unfolding format_bytes member join
validate_document_file file policy =
    if ltb policy.max_size_bytes file.size
    then some
        (codes "Choose a file smaller than " ++ (format_bytes policy.max_size_bytes ++ codes "."))
    else if not (member file.mime policy.allowed_mime_types)
    then some (
        codes "Choose an approved file type: "
        ++ (join (codes ", ") policy.accepted_extensions ++ codes "."))
    else none

-- `isSignedUrlExpired`; the platform's `Date.parse` gives milliseconds, `none` for `NaN`.
unfoldable pub is_signed_url_expired : (Text → Option ℕ) → Text → ℕ → Bool
is_signed_url_expired date_parse expires_at now = elim (date_parse expires_at) [
  | none ↦ true
  | some expires ↦ leb expires (now + 5000)
]

pub data UploadMethod : Type 0 where
  post : UploadMethod
  put : UploadMethod

pub record UploadInput : Type 0 where
  pub file : File
  pub document_type : Option Text
  pub document_id : Option Text
  pub idempotency_key : Text

-- What `xhrUpload` is called with, its headers written out; the form holds the type, if any, and
-- the file.
pub record XhrRequest : Type 0 where
  pub url : Text
  pub method : UploadMethod
  pub form_type : Option Text
  pub form_file : File
  pub headers : List (Text × Text)

-- How the upload starts: it throws where there is no session, or where the id cannot be encoded.
pub data Started : Type 0 where
  no_session : Text → Started
  uri_error : Started
  opened : XhrRequest → Started

abbrev id_suffix : Option Text → Option Text
id_suffix none = some []
id_suffix (some id) = elim (encode_uri_component id) [
  | none ↦ none
  | some e ↦ some (codes "/" ++ e)
]

unfoldable pub upload_private_document : Option Text → Text → UploadInput → Started
unfolding strip_slash encode_uri_component
upload_private_document token base_url input = elim (truthy token) [
  | none ↦ no_session (codes "Your session has expired. Sign in again to upload.")
  | some access_token ↦ elim (id_suffix (truthy input.document_id)) [
    | none ↦ uri_error
    | some suffix ↦ opened record {
      url = strip_slash base_url ++ (codes "/profile/documents" ++ suffix);
      method = if is_some (truthy input.document_id) then put else post;
      form_type = truthy input.document_type;
      form_file = input.file;
      headers =
          (codes "Accept", codes "application/json")
          ∷ (codes "Authorization", codes "Bearer " ++ access_token)
          ∷ (codes "Idempotency-Key", input.idempotency_key)
          ∷ [];
    }
  ]
]

-- The events that are listened to: progress, with what is loaded and the total where these are
-- known, and the end of the request.
pub data XhrEvent : Type 0 where
  progress : Option (ℕ × ℕ) → XhrEvent
  loaded : ℕ → Text → XhrEvent
  errored : XhrEvent
  aborted : XhrEvent

pub data Promise : Type 0 where
  waiting : Promise
  resolved : DocumentResponse → Promise
  rejected : ApiError → Promise

-- `new Response(text, { status })` throws on a status outside of 200 to 599, and on one that has no
-- body, since the text is one.
unfoldable pub response_throws : ℕ → Bool
response_throws status =
    ltb status 200 || ltb 599 status || status == 204 || status == 205 || status == 304

-- The response that is rebuilt has no `Retry-After`.
unfoldable pub upload_error : (Text → Option ErrorEnvelope) → ℕ → Text → ApiError
unfolding api_error_from_response
upload_error parse_envelope status text =
    api_error_from_response
      record { status = status; retry_after = none; envelope = parse_envelope text }

-- A promise settles once.
abbrev settle_once : Promise → Promise → Promise
settle_once waiting next = next
settle_once settled next = settled

-- The `load` listener is an `async` function: where it throws, nothing settles the promise.
unfoldable pub on_load :
    (Text → Option ErrorEnvelope) → (Text → Option DocumentResponse) → ℕ → Text → Promise × List ℕ
unfolding response_throws upload_error
on_load parse_envelope parse status text =
    if response_throws status
    then (waiting, [])
    else if not (is_ok status)
    then (rejected (upload_error parse_envelope status text), [])
    else elim (parse text) [
      | none ↦ (waiting, 100 ∷ [])
      | some document ↦ (resolved document, 100 ∷ [])
    ]

-- One event: the promise, and what `onProgress` is called with; the percentage is the platform's
-- arithmetic on doubles.
unfoldable pub on_event :
    (ℕ → ℕ → ℕ)
    → (Text → Option ErrorEnvelope)
    → (Text → Option DocumentResponse)
    → Promise
    → XhrEvent
    → Promise × List ℕ
unfolding on_load api_error_from_network
on_event percent parse_envelope parse promise (progress none) = (promise, [])
on_event percent parse_envelope parse promise (progress (some (done, total))) =
    (promise, percent done total ∷ [])
on_event percent parse_envelope parse promise (loaded status text) =
    let answer = on_load parse_envelope parse status text in
    (settle_once promise answer.0, answer.1)
on_event percent parse_envelope parse promise errored =
    (settle_once promise (rejected (api_error_from_network false)), [])
on_event percent parse_envelope parse promise aborted =
    (settle_once promise (rejected (api_error_from_network true)), [])

unfoldable pub on_events :
    (ℕ → ℕ → ℕ)
    → (Text → Option ErrorEnvelope)
    → (Text → Option DocumentResponse)
    → Promise
    → List XhrEvent
    → Promise × List ℕ
unfolding on_event
on_events percent parse_envelope parse promise [] = (promise, [])
on_events percent parse_envelope parse promise (e ∷ events) =
    let first = on_event percent parse_envelope parse promise e in
    let rest = on_events percent parse_envelope parse first.0 events in (rest.0, first.1 ++ rest.1)
