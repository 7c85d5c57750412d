-- ===== src/Routing/Tests.antt =====
-- Runs of the routing code, and the theorems at concrete requests.
use scholarmatch_ai.Base.{
  ℕ, true, false, List, [], ◌∷◌, none, some, ◌≡◌, refl, ◌↔◌, is_some, ◌⊎◌, ◌++◌,
}
use scholarmatch_ai.Base.Text.{Text, codes}
use scholarmatch_ai.Base.Url.{search_param}
use scholarmatch_ai.Routing.Routes.{is_protected_path, is_auth_entry_path}
use scholarmatch_ai.Routing.SafeRedirect.{
  sanitize_redirect_path, build_sign_in_url, default_destination, session_expired,
}
use scholarmatch_ai.Routing.SafeRedirect.Laws.{IsSafePath, sanitize_redirect_path_lem}
use scholarmatch_ai.Routing.SafeRedirect.Remembered.{build_sign_in_url-search_param}
use scholarmatch_ai.Routing.Proxy.{NextRequest, GetUser, refresh_session, proxy, user_of}
use scholarmatch_ai.Routing.Proxy.Laws.{proxy-cookies, proxy-IsSafePath, proxy-passes_iff}
use scholarmatch_ai.Routing.Proxy.Return.{IsVisit, proxy-sign_in_returns}

abbrev host_path : Text
host_path = codes "//evil.example"

abbrev detail_path : Text
detail_path = codes "/matches/42?tab=a b&x=1"

sanitize_tests :
    (sanitize_redirect_path (some host_path) default_destination ≡ default_destination)
    × (sanitize_redirect_path (some (codes "/\\evil")) default_destination ≡ default_destination)
    × (sanitize_redirect_path (some (codes "/a?u=https://b")) default_destination
        ≡ default_destination)
    × (sanitize_redirect_path (some detail_path) default_destination ≡ detail_path)
unfolding sanitize_redirect_path
sanitize_tests = (refl, refl, refl, refl)

sign_in_url_test :
    build_sign_in_url detail_path (some session_expired)
    ≡ codes "/sign-in?next=%2Fmatches%2F42%3Ftab%3Da+b%26x%3D1&reason=session-expired"
unfolding build_sign_in_url
sign_in_url_test = refl

route_tests :
    (is_protected_path (codes "/administrator") ≡ false)
    × (is_protected_path (codes "/admin/audit") ≡ true)
    × (is_auth_entry_path (codes "/reset-password") ≡ false)
unfolding is_protected_path is_auth_entry_path
route_tests = (refl, refl, refl)

sign_up_entry : is_auth_entry_path (codes "/sign-up") ≡ true
unfolding is_auth_entry_path
sign_up_entry = refl

sanitize_redirect_path_lem_example :
    (IsSafePath host_path → sanitize_redirect_path (some host_path) default_destination ≡ host_path)
    × ((¬ IsSafePath host_path)
        → sanitize_redirect_path (some host_path) default_destination ≡ default_destination)
    × (sanitize_redirect_path none default_destination ≡ default_destination)
sanitize_redirect_path_lem_example = sanitize_redirect_path_lem host_path default_destination

abbrev no_text : List ℕ → Text
no_text bytes = []

build_sign_in_url-search_param_example :
    sanitize_redirect_path
      (search_param no_text (codes "next") (build_sign_in_url detail_path (some session_expired)))
      default_destination
    ≡ sanitize_redirect_path (some detail_path) default_destination
build_sign_in_url-search_param_example =
    build_sign_in_url-search_param no_text detail_path (some session_expired) refl

abbrev ask_profile : NextRequest
ask_profile = record {
  pathname = codes "/profile";
  search = codes "?edit=1";
  next = none;
  request_cookies = (codes "sb", codes "old") ∷ [];
}

abbrev ask_sign_in : NextRequest
ask_sign_in = record {
  pathname = codes "/sign-in";
  search = codes "?next=//evil.example";
  next = some host_path;
  request_cookies = [];
}

abbrev rotation : List (List (Text × Text))
rotation = ((codes "sb", codes "new") ∷ (codes "sb", codes "newer") ∷ []) ∷ []

abbrev nobody : GetUser ℕ
nobody = record { rotated = rotation; outcome = none }

abbrev somebody : GetUser ℕ
somebody = record { rotated = rotation; outcome = some (some 7) }

cookie_test : (proxy ask_profile nobody).cookies ≡ (codes "sb", codes "newer") ∷ []
unfolding proxy is_protected_path
cookie_test = refl

proxy-cookies_example :
    (proxy ask_profile nobody).cookies ≡ (refresh_session ask_profile nobody).response.cookies
proxy-cookies_example = proxy-cookies ask_profile nobody

hosted_redirect : (proxy ask_sign_in somebody).location ≡ some default_destination
unfolding proxy is_auth_entry_path sanitize_redirect_path
hosted_redirect = refl

proxy-IsSafePath_example : IsSafePath default_destination
proxy-IsSafePath_example = proxy-IsSafePath ask_sign_in somebody default_destination hosted_redirect

proxy-passes_iff_example : ((proxy ask_profile nobody).location ≡ none) ↔ (
    (is_some (user_of nobody.outcome) ≡ false → is_protected_path (codes "/profile") ≡ false)
    × (is_some (user_of nobody.outcome) ≡ true → is_auth_entry_path (codes "/profile") ≡ false))
proxy-passes_iff_example = proxy-passes_iff ask_profile nobody

profile_protected : is_protected_path (codes "/profile") ≡ true
unfolding is_protected_path
profile_protected = refl

proxy-sign_in_returns_example :
    (url : Text) × ((proxy ask_profile nobody).location ≡ some url)
    × ((rest : Text) × (url ≡ codes "/sign-in" ++ rest)
        × ((rest ≡ []) ⊎ ((pairs : Text) × (rest ≡ b'?' ∷ pairs))))
    × ((later : NextRequest) (again : GetUser ℕ)
        → IsVisit no_text url later
        → (user_of again.outcome ≡ none → (proxy later again).location ≡ none)
          × (is_some (user_of again.outcome) ≡ true
              → (IsSafePath (codes "/profile?edit=1")
                  → (proxy later again).location ≡ some (codes "/profile?edit=1"))
                × ((¬ IsSafePath (codes "/profile?edit=1"))
                    → (proxy later again).location ≡ some (codes "/dashboard"))))
proxy-sign_in_returns_example =
    proxy-sign_in_returns no_text ask_profile nobody refl profile_protected refl

abbrev visit : NextRequest
visit = record {
  pathname = codes "/sign-in";
  search = codes "?next=%2Fprofile%3Fedit%3D1";
  next = some (codes "/profile?edit=1");
  request_cookies = [];
}

-- The URL of the redirect is visited, and leads back with a session.
visit_tests :
    ((proxy ask_profile nobody).location ≡ some (visit.pathname ++ visit.search))
    × (search_param no_text (codes "next") (visit.pathname ++ visit.search) ≡ visit.next)
    × ((proxy visit somebody).location ≡ some (codes "/profile?edit=1"))
unfolding proxy build_sign_in_url search_param is_protected_path is_auth_entry_path
    sanitize_redirect_path
visit_tests = (refl, refl, refl)
