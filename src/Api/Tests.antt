-- ===== src/Api/Tests.antt =====
-- Runs of the client and of its errors, and the theorems at concrete calls and responses.
use scholarmatch_ai.Base.{
  ℕ, true, false, [], ◌∷◌, Option, none, some, ◌≡◌, refl, ◌==◌, if◌then◌else◌,
}
use scholarmatch_ai.Base.Text.{Text, codes}
use scholarmatch_ai.Api.Errors.{
  ErrorDetail, ErrorEnvelope, FailedResponse, ApiError, is_inherited, lookup, field_errors,
  api_error_from_response,
}
use scholarmatch_ai.Api.Errors.Laws.{lookup-field_errors, first_message}
use scholarmatch_ai.Api.Client.{RequestOptions, HttpResponse, responded, threw, get, settle}
use scholarmatch_ai.Api.Client.Routes.{render}
use scholarmatch_ai.Api.Client.Calls.{Call, student, route_of}
use scholarmatch_ai.Api.Client.Calls.Student.{update_application_checklist_item}
use scholarmatch_ai.Api.Client.Calls.Laws.{count, fixed_text, route_of-separators}

abbrev detail : Text → Text → ErrorDetail
detail field message = record { field = some field; message = some message }

abbrev rejected_body : ErrorEnvelope
rejected_body = record {
  code = codes "VALIDATION_ERROR";
  message = some [];
  details = some (
      detail (codes "gpa") (codes "Too high.")
      ∷ detail (codes "gpa") (codes "Not a number.")
      ∷ detail (codes "constructor") (codes "Unknown.")
      ∷ []);
  request_id = none;
}

abbrev rejected_response : FailedResponse
rejected_response = record {
  status = 422;
  retry_after = some (codes "0");
  envelope = some rejected_body;
}

abbrev rejection : ApiError
rejection = api_error_from_response rejected_response

error_tests :
    (rejection.message ≡ codes "Request failed.")
    × (rejection.retry_after_seconds ≡ none)
    × (field_errors rejection ≡ (codes "gpa", codes "Too high.") ∷ [])
unfolding api_error_from_response field_errors
error_tests = (refl, refl, refl)

lookup-field_errors_example :
    (is_inherited (codes "gpa") ≡ false
      → lookup (codes "gpa") (field_errors rejection)
        ≡ first_message (codes "gpa") rejection.details)
    × (is_inherited (codes "gpa") ≡ true → lookup (codes "gpa") (field_errors rejection) ≡ none)
lookup-field_errors_example = lookup-field_errors (codes "gpa") rejection

abbrev ask_profile : RequestOptions ℕ
ask_profile = record {
  method = get;
  path = codes "/profile";
  body = none;
  idempotency_key = none;
  require_auth = none;
}

abbrev no_envelope : Text → Option ErrorEnvelope
no_envelope s = none

-- A codec that reads a body as its first unit, and fails on one that starts with a bracket.
abbrev read_first : Text → Option (Option ℕ)
read_first [] = none
read_first (c ∷ s) = if c == b'<' then none else some (some c)

abbrev html_page : HttpResponse
html_page = record { status = 200; retry_after = none; text = some (codes "<html>") }

settle_test : settle no_envelope read_first (responded html_page) ≡ threw
unfolding settle
settle_test = refl

abbrev missing_page : HttpResponse
missing_page = record { status = 404; retry_after = none; text = none }

abbrev checklist_call : Call ℕ
checklist_call =
    student (update_application_checklist_item (codes "a/b") (codes "c?d#") 7 (codes "key"))

checklist_path :
    render (route_of checklist_call).template
    ≡ some (codes "/applications/a%2Fb/checklist/c%3Fd%23")
unfolding route_of render
checklist_path = refl

route_of-separators_example :
    (count b'/' (codes "/applications/a%2Fb/checklist/c%3Fd%23")
      ≡ count b'/' (fixed_text (route_of checklist_call).template))
    × (count b'?' (codes "/applications/a%2Fb/checklist/c%3Fd%23") ≡ 0)
    × (count b'#' (codes "/applications/a%2Fb/checklist/c%3Fd%23") ≡ 0)
route_of-separators_example =
    route_of-separators checklist_call (codes "/applications/a%2Fb/checklist/c%3Fd%23")
      checklist_path
