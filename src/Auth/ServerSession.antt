-- ===== src/Auth/ServerSession.antt =====
-- frontend/app/lib/auth/server-session.ts. What `getUser()` and `getSession()` give is an argument.
pub mod Laws
use scholarmatch_ai.Base.{Bool, true, false, not, [], ◌∷◌, Option, none, some, if◌then◌else◌}
use scholarmatch_ai.Base.Text.{Text, codes}
use scholarmatch_ai.Base.Text.Trim.{trim}
use scholarmatch_ai.Routing.SafeRedirect.{build_sign_in_url}
use scholarmatch_ai.Auth.Access.{Role, can_access_student_workspace, can_access_admin_workspace}

-- The user: the role of `app_metadata` and the names of `user_metadata`, `none` where the value is
-- no string.
pub record User : Type 0 where
  pub role : Role
  pub preferred_name : Option Text
  pub full_name : Option Text

pub record AuthenticatedSession : Type 0 where
  pub user : User
  pub access_token : Text

-- A call that returns, or that redirects by throwing.
pub data Guarded : Type 0 where
  granted : AuthenticatedSession → Guarded
  redirected : Text → Guarded

unfoldable pub current_session : Option User → Option Text → Option AuthenticatedSession
current_session none token = none
current_session (some user) none = none
current_session (some user) (some []) = none
current_session (some user) (some (c ∷ token)) =
    some (record { user = user; access_token = c ∷ token })

unfoldable pub require_authenticated_session : Option AuthenticatedSession → Text → Guarded
require_authenticated_session none return_to = redirected (build_sign_in_url return_to none)
require_authenticated_session (some session) return_to = granted session

-- The role check after `requireAuthenticatedSession`.
abbrev pub require_role : (Role → Bool) → Guarded → Guarded
require_role allowed (redirected path) = redirected path
require_role allowed (granted session) =
    if not (allowed session.user.role) then redirected (codes "/access-denied") else granted session

unfoldable pub require_student_session : Option AuthenticatedSession → Text → Guarded
unfolding require_authenticated_session
require_student_session session return_to =
    require_role can_access_student_workspace (require_authenticated_session session return_to)

unfoldable pub require_admin_session : Option AuthenticatedSession → Text → Guarded
unfolding require_authenticated_session
require_admin_session session return_to =
    require_role can_access_admin_workspace (require_authenticated_session session return_to)

-- `typeof name === "string" && name.trim()`, or the rest.
abbrev trimmed_or : Text → Text → Text
trimmed_or [] rest = rest
trimmed_or (c ∷ s) rest = c ∷ s

abbrev named_or : Option Text → Text → Text
named_or none rest = rest
named_or (some name) rest = trimmed_or (trim name) rest

unfoldable pub session_display_name : User → Text → Text
session_display_name user fallback = named_or user.preferred_name (named_or user.full_name fallback)
