-- ===== src/Api/Errors.antt =====
-- frontend/app/lib/api/errors.ts
pub mod Laws
use scholarmatch_ai.Base.{
  ℕ, Bool, true, false, not, List, [], ◌∷◌, ◌++◌, ◌||◌, ◌&&◌, Option, none, some, any,
  if◌then◌else◌, ◌==◌, leb, or_else, is_some,
}
use scholarmatch_ai.Base.Text.{Text, codes, text_eq, is_empty, member}
use scholarmatch_ai.Base.Text.Decimal.{decimal, parse_int}

pub data ApiErrorKind : Type 0 where
  offline unauthorized forbidden not_found conflict validation rate_limited server unknown :
      ApiErrorKind

-- A field problem of the envelope; `none` is an absent or `null` field.
pub record ErrorDetail : Type 0 where
  pub field : Option Text
  pub message : Option Text

pub record ApiError : Type 0 where
  pub kind : ApiErrorKind
  pub status : ℕ
  pub message : Text
  pub code : Text
  pub details : List ErrorDetail
  pub request_id : Option Text
  pub retry_after_seconds : Option (Bool × ℕ)

-- `get isRecoverable()`
unfoldable pub is_recoverable : ApiError → Bool
is_recoverable error = elim error.kind [
  | offline ↦ true
  | rate_limited ↦ true
  | server ↦ true
  | _ ↦ false
]

-- The keys that an object literal inherits, so that reading one of them is not `undefined`.
abbrev pub inherited_keys : List Text
inherited_keys =
    codes "constructor"
    ∷ codes "__defineGetter__"
    ∷ codes "__defineSetter__"
    ∷ codes "hasOwnProperty"
    ∷ codes "__lookupGetter__"
    ∷ codes "__lookupSetter__"
    ∷ codes "isPrototypeOf"
    ∷ codes "propertyIsEnumerable"
    ∷ codes "toString"
    ∷ codes "valueOf"
    ∷ codes "__proto__"
    ∷ codes "toLocaleString"
    ∷ []

unfoldable pub is_inherited : Text → Bool
unfolding member
is_inherited key = member key inherited_keys

abbrev pub FieldMap : Type 0
FieldMap = List (Text × Text)

-- The object's own entry.
unfoldable pub lookup : Text → FieldMap → Option Text
unfolding text_eq
lookup key [] = none
lookup key ((k, v) ∷ map) = if text_eq k key then some v else lookup key map

-- `Boolean(map[key])`: an own value that is not empty, or an inherited function.
abbrev pub is_set : Text → FieldMap → Bool
is_set key map = elim (lookup key map) [ none ↦ is_inherited key | some v ↦ not (is_empty v) ]

-- A text that is there and not empty.
abbrev pub truthy : Option Text → Option Text
truthy none = none
truthy (some []) = none
truthy (some (c ∷ s)) = some (c ∷ s)

abbrev pub add_message : Option Text → Option Text → FieldMap → FieldMap
add_message (some field) (some message) map =
    if is_set field map then map else map ++ ((field, message) ∷ [])
add_message _ _ map = map

-- The body of the loop of `fieldErrors`.
unfoldable pub add_detail : ErrorDetail → FieldMap → FieldMap
unfolding lookup is_inherited
add_detail detail map = add_message (truthy detail.field) (truthy detail.message) map

unfoldable pub add_details : List ErrorDetail → FieldMap → FieldMap
unfolding add_detail
add_details [] map = map
add_details (detail ∷ details) map = add_details details (add_detail detail map)

unfoldable pub field_errors : ApiError → FieldMap
unfolding add_details
field_errors error = add_details error.details []

unfoldable pub kind_for_status : ℕ → ApiErrorKind
kind_for_status status =
    if status == 400 || status == 422
    then validation
    else if status == 401
    then unauthorized
    else if status == 403
    then forbidden
    else if status == 404
    then not_found
    else if status == 409
    then conflict
    else if status == 429
    then rate_limited
    else if leb 500 status
    then server
    else unknown

-- `FRIENDLY_MESSAGES`
unfoldable pub friendly_message : ApiErrorKind → Option Text
friendly_message offline =
    some (codes "You appear to be offline. Check your connection — your answers are saved.")
friendly_message unauthorized =
    some (codes "Your session has expired. Please sign in again to continue.")
friendly_message forbidden = some (codes "You do not have permission to do that.")
friendly_message rate_limited =
    some (codes "Too many attempts. Please wait a moment and try again.")
friendly_message server = some (codes "Something went wrong on our side. Please try again.")
friendly_message unknown = some (codes "Something went wrong. Please try again.")
friendly_message not_found = none
friendly_message conflict = none
friendly_message validation = none

-- The `error` object of a body that `isErrorEnvelope` accepts.
pub record ErrorEnvelope : Type 0 where
  pub code : Text
  pub message : Option Text
  pub details : Option (List ErrorDetail)
  pub request_id : Option Text

-- A failed response: its status, its `retry-after` header, and its body, `none` where the body is
-- no JSON or no envelope.
pub record FailedResponse : Type 0 where
  pub status : ℕ
  pub retry_after : Option Text
  pub envelope : Option ErrorEnvelope

-- Zero, like NaN, counts as no number of seconds.
abbrev pub non_zero : Option (Bool × ℕ) → Option (Bool × ℕ)
non_zero none = none
non_zero (some (sign, n)) = if n == 0 then none else some (sign, n)

unfoldable pub retry_seconds : Option Text → Option (Bool × ℕ)
unfolding parse_int
retry_seconds none = none
retry_seconds (some []) = none
retry_seconds (some (c ∷ header)) = non_zero (parse_int (c ∷ header))

-- `payload.error.message || FRIENDLY_MESSAGES[kind] || "Request failed."`
unfoldable pub envelope_message : Option Text → ApiErrorKind → Text
unfolding friendly_message
envelope_message message kind =
    or_else (truthy message) (or_else (friendly_message kind) (codes "Request failed."))

-- "FRIENDLY_MESSAGES[kind] ?? `Request failed (${status}).`"
unfoldable pub plain_message : ApiErrorKind → ℕ → Text
unfolding friendly_message decimal
plain_message kind status =
    or_else (friendly_message kind) (codes "Request failed (" ++ (decimal status ++ codes ")."))

abbrev error_of_envelope : FailedResponse → ErrorEnvelope → ApiError
error_of_envelope response envelope = record {
  kind = kind_for_status response.status;
  status = response.status;
  message = envelope_message envelope.message (kind_for_status response.status);
  code = envelope.code;
  details = or_else envelope.details [];
  request_id = envelope.request_id;
  retry_after_seconds = retry_seconds response.retry_after;
}

abbrev error_without_envelope : FailedResponse → ApiError
error_without_envelope response = record {
  kind = kind_for_status response.status;
  status = response.status;
  message = plain_message (kind_for_status response.status) response.status;
  code = codes "UNKNOWN";
  details = [];
  request_id = none;
  retry_after_seconds = retry_seconds response.retry_after;
}

unfoldable pub api_error_from_response : FailedResponse → ApiError
unfolding kind_for_status envelope_message plain_message retry_seconds
api_error_from_response response = elim response.envelope [
  | none ↦ error_without_envelope response
  | some envelope ↦ error_of_envelope response envelope
]

-- `apiErrorFromNetwork`, by whether the cause is an `AbortError`.
unfoldable pub api_error_from_network : Bool → ApiError
unfolding friendly_message
api_error_from_network aborted = record {
  kind = if aborted then unknown else offline;
  status = 0;
  message =
      if aborted then codes "The request was cancelled." else or_else (friendly_message offline) [];
  code = codes "UNKNOWN";
  details = [];
  request_id = none;
  retry_after_seconds = none;
}
