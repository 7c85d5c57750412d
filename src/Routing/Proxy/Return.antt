-- ===== src/Routing/Proxy/Return.antt =====
-- A visitor who is sent to sign in comes back to the page that was asked for.
use scholarmatch_ai.Base.{
  ℕ, List, true, false, [], ◌∷◌, ◌++◌, none, some, is_some, ◌≡◌, refl, arith, ◌⊎◌, ap, ◌∙◌,
}
use scholarmatch_ai.Base.Text.{Text, codes, is_ascii}
use scholarmatch_ai.Base.Url.{search_param}
use scholarmatch_ai.Routing.Routes.{is_protected_path, is_auth_entry_path}
use scholarmatch_ai.Routing.SafeRedirect.{
  sanitize_redirect_path, build_sign_in_url, default_destination,
}
use scholarmatch_ai.Routing.SafeRedirect.Laws.{IsSafePath, sanitize_redirect_path_lem}
use scholarmatch_ai.Routing.SafeRedirect.Remembered.{
  build_sign_in_url-search_param, build_sign_in_url-page,
}
use scholarmatch_ai.Routing.Proxy.{NextRequest, GetUser, proxy, user_of}
use scholarmatch_ai.Routing.Proxy.Laws.{proxy-passes_iff}

sign_in_open : is_protected_path (codes "/sign-in") ≡ false
unfolding is_protected_path
sign_in_open = refl

sign_in_entry : is_auth_entry_path (codes "/sign-in") ≡ true
unfolding is_auth_entry_path
sign_in_entry = refl

-- A request for the sign-in page whose query is that of a URL.
pub record IsVisit (other : List ℕ → Text) (url : Text) (later : NextRequest) : Type 0 where
  pub at_page : later.pathname ≡ codes "/sign-in"
  pub at_url : url ≡ later.pathname ++ later.search
  pub reads_next : later.next ≡ search_param other (codes "next") url

module _ {ℓ} {User : Type ℓ} where
  sent :
      (request : NextRequest) (call : GetUser User)
      → user_of call.outcome ≡ none
      → is_protected_path request.pathname ≡ true
      → (proxy request call).location
        ≡ some (build_sign_in_url (request.pathname ++ request.search) none)
  unfolding proxy
  sent request call anonymous closed = ground arith

  signed_in :
      (request : NextRequest) (call : GetUser User)
      → is_some (user_of call.outcome) ≡ true
      → is_auth_entry_path request.pathname ≡ true
      → (proxy request call).location
        ≡ some (sanitize_redirect_path request.next default_destination)
  unfolding proxy
  signed_in request call user entry = ground arith

  back :
      (other : List ℕ → Text) (request : NextRequest) (later : NextRequest) (again : GetUser User)
      → is_ascii (request.pathname ++ request.search) ≡ true
      → IsVisit other (build_sign_in_url (request.pathname ++ request.search) none) later
      → is_some (user_of again.outcome) ≡ true
      → (proxy later again).location
        ≡ some
            (sanitize_redirect_path (some (request.pathname ++ request.search)) default_destination)
  back other request later again ascii visit user =
      signed_in later again user (rw visit.at_page sign_in_entry)
      ∙ (ap (λ next. some (sanitize_redirect_path next default_destination)) visit.reads_next
          ∙ ap some (
              build_sign_in_url-search_param other (request.pathname ++ request.search) none ascii))

  -- A visitor without a session who asks for a protected page is redirected to the sign-in page. A
  -- request for the URL of the redirect passes while there is no session, so that the redirects do
  -- not loop; and with a session it is redirected to the path and query that were first asked for
  -- where these are a safe path, and to the dashboard where they are not. They are ASCII, as those
  -- of a parsed URL are.
  pub proxy-sign_in_returns :
      (other : List ℕ → Text) (request : NextRequest) (call : GetUser User)
      → user_of call.outcome ≡ none
      → is_protected_path request.pathname ≡ true
      → is_ascii (request.pathname ++ request.search) ≡ true
      → let asked = request.pathname ++ request.search in
        (url : Text) × ((proxy request call).location ≡ some url)
        × ((rest : Text) × (url ≡ codes "/sign-in" ++ rest)
            × ((rest ≡ []) ⊎ ((pairs : Text) × (rest ≡ b'?' ∷ pairs))))
        × ((later : NextRequest) (again : GetUser User)
            → IsVisit other url later
            → (user_of again.outcome ≡ none → (proxy later again).location ≡ none)
              × (is_some (user_of again.outcome) ≡ true
                  → (IsSafePath asked → (proxy later again).location ≡ some asked)
                    × ((¬ IsSafePath asked)
                        → (proxy later again).location ≡ some (codes "/dashboard"))))
  proxy-sign_in_returns other request call anonymous closed ascii =
      let asked = request.pathname ++ request.search in
      (
        build_sign_in_url asked none,
        sent request call anonymous closed,
        build_sign_in_url-page asked none,
        λ later again visit. (
          λ still.
              (proxy-passes_iff later again).1 (λ _. rw (visit.at_page) sign_in_open, λ there. cc),
          λ user.
              let returned = back other request later again ascii visit user in
              (
                λ safe.
                    returned
                    ∙ ap some ((sanitize_redirect_path_lem asked default_destination).0 safe),
                λ unsafe.
                    returned
                    ∙ ap some ((sanitize_redirect_path_lem asked default_destination).1 unsafe),
              ),
        ),
      )
