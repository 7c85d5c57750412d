-- ===== src/Auth/Tests.antt =====
-- Runs of the guards and of the failures, and the theorems at concrete sessions and errors.
use scholarmatch_ai.Base.{ℕ, Option, none, some, [], ◌≡◌, ◌≢◌, ◌↔◌, refl}
use scholarmatch_ai.Base.Text.{Text, codes, text_eq}
use scholarmatch_ai.Base.Text.Trim.{trim}
use scholarmatch_ai.Auth.Access.{named, can_access_student_workspace, can_access_admin_workspace}
use scholarmatch_ai.Auth.ServerSession.{
  AuthenticatedSession, granted, redirected, current_session, require_student_session,
  require_admin_session, session_display_name,
}
use scholarmatch_ai.Auth.ServerSession.Laws.{IsStudent, IsAdmin, require_session_iff}
use scholarmatch_ai.Auth.Failures.{
  auth_api_error, invalid_credentials, rate_limited, unknown, weak_password, to_auth_failure,
}
use scholarmatch_ai.Auth.Validate.{validate_email, email_pattern, is_plain, validate_password}
use scholarmatch_ai.Auth.Validate.Laws.{IsEmail, validate_email_iff}
use scholarmatch_ai.Auth.Failures.Laws.{IsKnown, IsTooMany, IsWeak, to_auth_failure-IsKnown}

abbrev officer : AuthenticatedSession
officer = record {
  user = record {
    role = named (codes "admin");
    preferred_name = some (codes "  ");
    full_name = some (codes " Eve ");
  };
  access_token = codes "jwt";
}

guard_tests :
    (current_session (some officer.user) (some []) ≡ none)
    × (require_student_session (some officer) (codes "/matches")
        ≡ redirected (codes "/access-denied"))
    × (require_admin_session (some officer) (codes "/admin") ≡ granted officer)
    × (session_display_name officer.user (codes "Student") ≡ codes "Eve")
unfolding current_session require_student_session require_admin_session session_display_name trim
    text_eq can_access_student_workspace can_access_admin_workspace
guard_tests = (refl, refl, refl, refl)

require_session_iff_example :
    ((require_student_session (some officer) (codes "/admin") ≡ granted officer)
      ↔ ((some officer ≡ some officer) × IsStudent (named (codes "admin"))))
    × ((require_admin_session (some officer) (codes "/admin") ≡ granted officer)
        ↔ ((some officer ≡ some officer) × IsAdmin (named (codes "admin"))))
require_session_iff_example = require_session_iff (some officer) (codes "/admin") officer

failure_tests :
    ((to_auth_failure (auth_api_error (some 400) (some (codes "weak_password")) [])).kind
      ≡ invalid_credentials)
    × ((to_auth_failure (auth_api_error (some 429) none [])).kind ≡ rate_limited)
unfolding to_auth_failure text_eq
failure_tests = (refl, refl)

abbrev address : Text
address = codes " ada@mail.example.org "

form_tests :
    (validate_email address ≡ none)
    × (validate_email (codes "ada@example") ≡ some (codes "Enter a valid email address."))
    × (validate_email (codes "a@b@c.org") ≡ some (codes "Enter a valid email address."))
    × (validate_password (codes "1234567") ≡ some (codes "Use at least 8 characters."))
unfolding validate_email email_pattern is_plain validate_password trim
form_tests = (refl, refl, refl, refl)

validate_email_iff_example : (validate_email address ≡ none) ↔ IsEmail (trim address)
validate_email_iff_example = validate_email_iff address

abbrev taken : Text
taken = codes "User already registered"

abbrev taken_status : Option ℕ
taken_status = some 422

abbrev taken_code : Option Text
taken_code = some (codes "user_already_exists")

to_auth_failure-IsKnown_example :
    let failure = to_auth_failure (auth_api_error taken_status taken_code taken) in
    ((failure.kind ≡ unknown) ↔ (¬ IsKnown taken_status taken_code))
    × ((failure.kind ≡ rate_limited) ↔ IsTooMany taken_status taken_code)
    × ((failure.kind ≡ weak_password)
        ↔ (IsWeak taken_code × (taken_status ≢ some 429) × (taken_status ≢ some 400)))
    × ((¬ IsKnown taken_status taken_code) → failure.message ≡ taken)
    × (IsKnown taken_status taken_code
        → failure ≡ to_auth_failure (auth_api_error taken_status taken_code []))
to_auth_failure-IsKnown_example = to_auth_failure-IsKnown taken_status taken_code taken []
