-- ===== src/Routing/SafeRedirect.antt =====
-- frontend/app/lib/routing/safe-redirect.ts
pub mod Laws
pub mod Remembered
use scholarmatch_ai.Base.{
  ℕ, Bool, true, false, not, List, [], ◌∷◌, ◌++◌, ◌||◌, Option, none, some, any, leb, if◌then◌else◌,
}
use scholarmatch_ai.Base.Text.{Text, codes, text_eq, starts_with, includes, is_empty}
use scholarmatch_ai.Base.Url.{form_serialize}

abbrev pub default_destination : Text
default_destination = codes "/dashboard"

-- `/[\x00-\x1f]/.test(candidate)`
unfoldable pub has_control : Text → Bool
has_control = any (λ c. leb c 0x1f)

-- The chain of guards on a candidate that is a string.
unfoldable pub sanitize_text : Text → Text → Text
unfolding starts_with includes has_control
sanitize_text candidate fallback =
    if is_empty candidate
    then fallback
    else if not (starts_with candidate (codes "/"))
    then fallback
    else if starts_with candidate (codes "//") || starts_with candidate (codes "/\\")
    then fallback
    else if has_control candidate || includes candidate (codes "://")
    then fallback
    else candidate

-- `none` is a candidate that is no string: `null` or `undefined`.
unfoldable pub sanitize_redirect_path : Option Text → Text → Text
unfolding sanitize_text
sanitize_redirect_path none fallback = fallback
sanitize_redirect_path (some candidate) fallback = sanitize_text candidate fallback

-- The `reason` option of `buildSignInUrl`.
pub data SignInReason : Type 0 where
  session_expired : SignInReason

abbrev pub reason_param : Option SignInReason → List (Text × Text)
reason_param none = []
reason_param (some session_expired) = (codes "reason", codes "session-expired") ∷ []

-- The parameters that `buildSignInUrl` sets, in order; the reason is its option.
unfoldable pub sign_in_params : Text → Option SignInReason → List (Text × Text)
unfolding sanitize_redirect_path text_eq
sign_in_params intended_path reason =
    let next = sanitize_redirect_path (some intended_path) default_destination in
    (if text_eq next default_destination then [] else (codes "next", next) ∷ [])
    ++ reason_param reason

-- `query ? "/sign-in?" + query : "/sign-in"`
abbrev pub with_query : Text → Text → Text
with_query path [] = path
with_query path (c ∷ query) = path ++ (codes "?" ++ (c ∷ query))

unfoldable pub build_sign_in_url : Text → Option SignInReason → Text
unfolding sign_in_params form_serialize
build_sign_in_url intended_path reason =
    with_query (codes "/sign-in") (form_serialize (sign_in_params intended_path reason))
