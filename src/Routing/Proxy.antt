-- ===== src/Routing/Proxy.antt =====
-- frontend/proxy.ts and frontend/app/lib/supabase/proxy-session.ts. A cookie jar is a list of
-- names and values in the order of insertion, as the `Map` behind a response's cookies keeps it.
pub mod Laws
pub mod Return
use scholarmatch_ai.Base.{
  ℕ, Bool, true, false, not, List, [], ◌∷◌, ◌++◌, ◌&&◌, Option, none, some, if◌then◌else◌, is_some,
}
use scholarmatch_ai.Base.Text.{Text, text_eq}
use scholarmatch_ai.Routing.Routes.{is_protected_path, is_auth_entry_path}
use scholarmatch_ai.Routing.SafeRedirect.{
  sanitize_redirect_path, build_sign_in_url, default_destination,
}

abbrev pub Cookie : Type 0
Cookie = Text × Text

-- `cookies.set(name, value)`: a known name keeps its place.
unfoldable pub set_cookie : Cookie → List Cookie → List Cookie
unfolding text_eq
set_cookie (name, value) [] = (name, value) ∷ []
set_cookie (name, value) ((other, old) ∷ jar) =
    if text_eq other name then (name, value) ∷ jar else (other, old) ∷ set_cookie (name, value) jar

-- `for (const cookie of cookies) jar.set(cookie)`
unfoldable pub set_cookies : List Cookie → List Cookie → List Cookie
unfolding set_cookie
set_cookies [] jar = jar
set_cookies (cookie ∷ cookies) jar = set_cookies cookies (set_cookie cookie jar)

-- A response of the proxy: it lets the request through, or redirects to a path of the site.
pub record NextResponse : Type 0 where
  pub location : Option Text
  pub cookies : List Cookie

-- `NextResponse.next({ request })`
abbrev pub next_response : NextResponse
next_response = record { location = none; cookies = [] }

-- `NextResponse.redirect(new URL(path, request.url))`
abbrev pub redirect_response : Text → NextResponse
redirect_response path = record { location = some path; cookies = [] }

-- What the request carries, and the decoded `next` parameter of its query.
pub record NextRequest : Type 0 where
  pub pathname : Text
  pub search : Text
  pub next : Option Text
  pub request_cookies : List Cookie

-- `setAll(cookiesToSet)`: the request's cookies are rotated, and a fresh response replaces the one
-- that was there.
unfoldable pub set_all : NextRequest × NextResponse → List Cookie → NextRequest × NextResponse
unfolding set_cookies
set_all (request, response) cookies_to_set = (
  record request { request_cookies = set_cookies cookies_to_set request.request_cookies },
  record { location = none; cookies = set_cookies cookies_to_set [] },
)

unfoldable pub set_batches :
    NextRequest × NextResponse → List (List Cookie) → NextRequest × NextResponse
unfolding set_all
set_batches state [] = state
set_batches state (batch ∷ batches) = set_batches (set_all state batch) batches

-- What the call of `supabase.auth.getUser()` does: the batches of cookies that it rotates, and
-- its outcome, `none` where it throws.
pub record GetUser {ℓ} (User : Type ℓ) : Type ℓ where
  pub rotated : List (List Cookie)
  pub outcome : Option (Option User)

abbrev pub user_of {ℓ} : {User : Type ℓ} → Option (Option User) → Option User
user_of none = none
user_of (some user) = user

pub record Refreshed {ℓ} (User : Type ℓ) : Type ℓ where
  pub response : NextResponse
  pub user : Option User

module _ {ℓ} {User : Type ℓ} where
  unfoldable pub refresh_session : NextRequest → GetUser User → Refreshed User
  unfolding set_batches
  refresh_session request call = record {
    response = (set_batches (request, next_response) call.rotated).1;
    user = user_of call.outcome;
  }

unfoldable pub redirect_preserving_cookies : Text → NextResponse → NextResponse
unfolding set_cookies
redirect_preserving_cookies path source = record {
  location = some path;
  cookies = set_cookies source.cookies (redirect_response path).cookies;
}

module _ {ℓ} {User : Type ℓ} where
  -- The proxy after the session refresh.
  unfoldable pub respond : NextRequest → Refreshed User → NextResponse
  unfolding redirect_preserving_cookies
  respond request refreshed =
      if not (is_some refreshed.user) && is_protected_path request.pathname
      then redirect_preserving_cookies (build_sign_in_url (request.pathname ++ request.search) none)
          refreshed.response
      else if is_some refreshed.user && is_auth_entry_path request.pathname
      then redirect_preserving_cookies (sanitize_redirect_path request.next default_destination)
          refreshed.response
      else refreshed.response

  unfoldable pub proxy : NextRequest → GetUser User → NextResponse
  unfolding respond refresh_session
  proxy request call = respond request (refresh_session request call)
