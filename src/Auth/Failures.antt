-- ===== src/Auth/Failures.antt =====
-- frontend/app/lib/auth/errors.ts: what a form is told of a failed call of Supabase.
pub mod Laws
use scholarmatch_ai.Base.{
  ℕ, Bool, true, false, List, [], ◌∷◌, ◌||◌, Option, none, some, if◌then◌else◌, or_else, holds,
  ◌==◌,
}
use scholarmatch_ai.Base.Text.{Text, codes, text_eq}

pub data AuthErrorKind : Type 0 where
  invalid_credentials rate_limited offline weak_password expired_link validation unknown :
      AuthErrorKind

pub record AuthFailure : Type 0 where
  pub kind : AuthErrorKind
  pub message : Text
  pub field_errors : List (Text × Text)

-- The value that was thrown: an `AuthApiError` with its status, code and message, another
-- `AuthError`, a `TypeError`, or anything else.
pub data Thrown : Type 0 where
  auth_api_error : Option ℕ → Option Text → Text → Thrown
  auth_error : Text → Thrown
  type_error something : Thrown

abbrev pub failure : AuthErrorKind → Text → AuthFailure
failure kind message = record { kind = kind; message = message; field_errors = [] }

abbrev pub weak_password_failure : AuthFailure
weak_password_failure = record {
  kind = weak_password;
  message = codes "Choose a stronger password with at least 8 characters.";
  field_errors = (codes "password", codes "Choose a stronger password.") ∷ [];
}

abbrev pub has_status : ℕ → Option ℕ → Bool
has_status n = holds (λ s. s == n)

-- The branches on an `AuthApiError`, `none` where none of them returns.
unfoldable pub api_failure : Option ℕ → Text → Option AuthFailure
unfolding text_eq
api_failure status code =
    if has_status 429 status
      || (text_eq code (codes "over_request_rate_limit")
          || text_eq code (codes "over_email_send_rate_limit"))
    then some (
        failure rate_limited (codes "Too many attempts. Please wait a minute before trying again."))
    else if text_eq code (codes "invalid_credentials") || has_status 400 status
    then some
        (failure invalid_credentials (codes "That email and password combination is not correct."))
    else if text_eq code (codes "weak_password")
    then some weak_password_failure
    else if text_eq code (codes "otp_expired") || text_eq code (codes "flow_state_expired")
    then some (failure expired_link (codes "That link has expired. Request a new one to continue."))
    else none

unfoldable pub to_auth_failure : Thrown → AuthFailure
unfolding api_failure
to_auth_failure (auth_api_error status code message) =
    or_else (api_failure status (or_else code [])) (failure unknown message)
to_auth_failure (auth_error message) = failure unknown message
to_auth_failure type_error =
    failure offline (codes "You appear to be offline. Check your connection and try again.")
to_auth_failure something = failure unknown (codes "Something went wrong. Please try again.")
