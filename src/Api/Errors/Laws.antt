-- ===== src/Api/Errors/Laws.antt =====
-- How failures are classified, and what a form shows of them.
use scholarmatch_ai.Base.{
  ℕ, zero, suc, Bool, true, false, not, List, [], ◌∷◌, ◌++◌, ◌||◌, Option, none, some,
  if◌then◌else◌, ◌==◌, leb, or_else, holds, All, All-append, ◌≡◌, ◌≢◌, refl, sym, ap, ◌∙◌, arith,
  Bool-cases, Option-cases, inl, inr,
}
use scholarmatch_ai.Base.Text.{
  Text, codes, text_eq, text_eq_sound, text_eq_refl, text_eq_comm, is_empty,
}
use scholarmatch_ai.Base.Text.Decimal.{parse_int}
use scholarmatch_ai.Api.Errors.{
  ApiErrorKind, offline, unauthorized, forbidden, not_found, conflict, validation, rate_limited,
  server, unknown, ErrorDetail, ApiError, ErrorEnvelope, non_zero, is_recoverable, is_inherited,
  FieldMap, lookup, is_set, truthy, add_message, add_detail, add_details, field_errors,
  kind_for_status, friendly_message, FailedResponse, retry_seconds, envelope_message, plain_message,
  api_error_from_response, api_error_from_network,
}

-- A failed response is worth a retry exactly when it reports a rate limit or a server error; a
-- failed request is, unless it was cancelled.
pub is_recoverable_lem :
    (response : FailedResponse) (aborted : Bool)
    → (is_recoverable (api_error_from_response response)
        ≡ (response.status == 429 || leb 500 response.status))
      × (is_recoverable (api_error_from_network aborted) ≡ not aborted)
unfolding is_recoverable api_error_from_response api_error_from_network
is_recoverable_lem response aborted = ground arith

truthy-ne-nil : (m : Option Text) (s : Text) → s ≢ [] → or_else (truthy m) s ≢ []
truthy-ne-nil none s h e = h e
truthy-ne-nil (some []) s h e = h e
truthy-ne-nil (some (c ∷ m)) s h e = cc

friendly-ne-nil : (kind : ApiErrorKind) (s : Text) → s ≢ [] → or_else (friendly_message kind) s ≢ []
unfolding friendly_message
friendly-ne-nil offline s h e = cc
friendly-ne-nil unauthorized s h e = cc
friendly-ne-nil forbidden s h e = cc
friendly-ne-nil rate_limited s h e = cc
friendly-ne-nil server s h e = cc
friendly-ne-nil unknown s h e = cc
friendly-ne-nil not_found s h e = h e
friendly-ne-nil conflict s h e = h e
friendly-ne-nil validation s h e = h e

envelope-ne-nil : (m : Option Text) (kind : ApiErrorKind) → envelope_message m kind ≢ []
unfolding envelope_message
envelope-ne-nil m kind =
    truthy-ne-nil m _ (friendly-ne-nil kind (codes "Request failed.") (λ e. cc))

plain-ne-nil : (kind : ApiErrorKind) (status : ℕ) → plain_message kind status ≢ []
unfolding plain_message
plain-ne-nil kind status = friendly-ne-nil kind _ (λ e. cc)

shown : (response : FailedResponse) → (api_error_from_response response).message ≢ []
unfolding api_error_from_response
shown response e = ground (
  arith,
  plain-ne-nil (kind_for_status response.status) response.status,
  λ (envelope : ErrorEnvelope). envelope-ne-nil envelope.message (kind_for_status response.status),
)

non_zero-ne : (n : Option (Bool × ℕ)) (sign : Bool) → non_zero n ≢ some (sign, 0)
non_zero-ne none sign e = cc
non_zero-ne (some (s, zero)) sign e = cc
non_zero-ne (some (s, suc n)) sign e = ground arith

retry-ne : (header : Option Text) (sign : Bool) → retry_seconds header ≢ some (sign, 0)
unfolding retry_seconds
retry-ne none sign e = cc
retry-ne (some []) sign e = cc
retry-ne (some (c ∷ h)) sign e = non_zero-ne (parse_int (c ∷ h)) sign e

waits :
    (response : FailedResponse) (sign : Bool)
    → (api_error_from_response response).retry_after_seconds ≢ some (sign, 0)
unfolding api_error_from_response
waits response sign e = ground (arith, retry-ne response.retry_after sign)

-- Every failed response gives an error with a message to show, whatever its status is, and with
-- or without an envelope that has a message of its own; and its seconds to wait are never zero.
pub api_error_from_response-message :
    (response : FailedResponse)
    → ((api_error_from_response response).message ≢ [])
      × ((sign : Bool) → (api_error_from_response response).retry_after_seconds ≢ some (sign, 0))
api_error_from_response-message response = (shown response, λ sign. waits response sign)

-- The message of one detail about the field: both are there and not empty.
abbrev pub own_message : Text → ErrorDetail → Option Text
own_message f detail =
    if holds (text_eq f) (truthy detail.field) then truthy detail.message else none

abbrev pub or_first : Option Text → Option Text → Option Text
or_first none later = later
or_first (some m) later = some m

-- The first message that a list of details has about the field.
abbrev pub first_message : Text → List ErrorDetail → Option Text
first_message f [] = none
first_message f (detail ∷ details) = or_first (own_message f detail) (first_message f details)

-- No value of the map is empty.
abbrev IsFilled : FieldMap → Type 0
IsFilled = All (λ entry. is_empty entry.1 ≡ false)

lookup-concat :
    (f k v : Text) (map : FieldMap)
    → lookup f (map ++ ((k, v) ∷ []))
      ≡ or_first (lookup f map) (if text_eq k f then some v else none)
unfolding lookup
lookup-concat f k v [] = refl
lookup-concat f k v ((j, w) ∷ map) = ground (arith, lookup-concat f k v map)

lookup-IsFilled :
    (f v : Text) (map : FieldMap) → IsFilled map → lookup f map ≡ some v → is_empty v ≡ false
unfolding lookup
lookup-IsFilled f v [] h e = cc
lookup-IsFilled f v ((j, w) ∷ map) (p, h) e = ground (arith, lookup-IsFilled f v map h)

-- One message is added at the end unless the field is set.
add_message-IsFilled :
    (f m : Option Text) (map : FieldMap)
    → IsFilled map
    → IsFilled (add_message (truthy f) (truthy m) map)
add_message-IsFilled none m map h = h
add_message-IsFilled (some []) m map h = h
add_message-IsFilled (some (c ∷ f)) none map h = h
add_message-IsFilled (some (c ∷ f)) (some []) map h = h
add_message-IsFilled (some (c ∷ f)) (some (d ∷ m)) map h = elim (Bool-cases (is_set (c ∷ f) map)) [
  | inl set ↦ rw set h
  | inr unset ↦
      rw unset (All-append (λ e. is_empty e.1 ≡ false) map ((c ∷ f, d ∷ m) ∷ []) h (refl, tt))
]

lookup-same_key :
    (f v : Text) (map : FieldMap)
    → IsFilled map
    → lookup f (if is_set f map then map else map ++ ((f, v) ∷ []))
      ≡ or_first (lookup f map) (if is_inherited f then none else some v)
lookup-same_key f v map h = elim (Option-cases (lookup f map)) [
  | inl absent ↦ ground (arith, lookup-concat f f v map, text_eq_refl f)
  | inr (w, found) ↦ ground (arith, lookup-IsFilled f w map h found)
]

lookup-other_key :
    (f k v : Text) (map : FieldMap)
    → text_eq f k ≡ false
    → lookup f (if is_set k map then map else map ++ ((k, v) ∷ []))
      ≡ or_first (lookup f map) (if is_inherited f then none else none)
lookup-other_key f k v map differs = ground (arith, lookup-concat f k v map, text_eq_comm f k)

lookup-add_message :
    (f : Text) (k m : Option Text) (map : FieldMap)
    → IsFilled map
    → lookup f (add_message (truthy k) (truthy m) map)
      ≡ or_first
          (lookup f map)
          (if is_inherited f then none else if holds (text_eq f) (truthy k) then truthy m else none)
lookup-add_message f none m map h = ground arith
lookup-add_message f (some []) m map h = ground arith
lookup-add_message f (some (c ∷ k)) none map h = ground arith
lookup-add_message f (some (c ∷ k)) (some []) map h = ground arith
lookup-add_message f (some (c ∷ k)) (some (d ∷ m)) map h = elim (Bool-cases (text_eq f (c ∷ k))) [
  | inl same ↦ rw same (rw (← text_eq_sound f (c ∷ k) same) (lookup-same_key f (d ∷ m) map h))
  | inr differs ↦ rw differs (lookup-other_key f (c ∷ k) (d ∷ m) map differs)
]

or_first_assoc : (a b c : Option Text) → or_first (or_first a b) c ≡ or_first a (or_first b c)
or_first_assoc none b c = refl
or_first_assoc (some m) b c = refl

lookup-add_details :
    (f : Text) (ds : List ErrorDetail) (map : FieldMap)
    → IsFilled map
    → is_inherited f ≡ false
    → lookup f (add_details ds map) ≡ or_first (lookup f map) (first_message f ds)
unfolding add_details
lookup-add_details f [] map h e = sym (or_first_none (lookup f map))
  where
    or_first_none : (o : Option Text) → or_first o none ≡ o
    or_first_none none = refl
    or_first_none (some m) = refl
lookup-add_details f (d ∷ ds) map h e =
    lookup-add_details f ds (add_detail d map) (add_message-IsFilled d.field d.message map h) e
    ∙ (ap (λ o. or_first o (first_message f ds))
          (lookup-add_message f d.field d.message map h ∙ own_part)
        ∙ or_first_assoc (lookup f map) (own_message f d) (first_message f ds))
  where
    own_part :
        or_first (lookup f map) (if is_inherited f then none else own_message f d)
        ≡ or_first (lookup f map) (own_message f d)
    own_part = ap (λ b. or_first (lookup f map) (if b then none else own_message f d)) e

lookup-inherited :
    (f : Text) (ds : List ErrorDetail) (map : FieldMap)
    → IsFilled map
    → is_inherited f ≡ true
    → lookup f map ≡ none
    → lookup f (add_details ds map) ≡ none
unfolding add_details
lookup-inherited f [] map h e absent = absent
lookup-inherited f (d ∷ ds) map h e absent =
    lookup-inherited f ds (add_detail d map) (add_message-IsFilled d.field d.message map h) e
      (lookup-add_message f d.field d.message map h ∙ no_part)
  where
    no_part : or_first (lookup f map) (if is_inherited f then none else own_message f d) ≡ none
    no_part = rw (absent, e)

-- The form shows for each field the first message that the server sent about it, and none where it
-- sent none. For a field that is named like a property that every object inherits, such as
-- "constructor", it shows nothing at all.
pub lookup-field_errors :
    (f : Text) (error : ApiError)
    → (is_inherited f ≡ false → lookup f (field_errors error) ≡ first_message f error.details)
      × (is_inherited f ≡ true → lookup f (field_errors error) ≡ none)
unfolding field_errors
lookup-field_errors f error = (
  λ plain. lookup-add_details f error.details [] tt plain,
  λ inherited. lookup-inherited f error.details [] tt inherited refl,
)
