-- ===== src/Routing/Proxy/Laws.antt =====
-- Where the proxy sends a request, and what becomes of the cookies.
use scholarmatch_ai.Base.{
  true, false, List, [], ◌∷◌, ◌++◌, none, some, is_some, ◌≡◌, refl, ◌↔◌, arith, ◌⊎◌, inl, inr, All,
  All-append, Bool-cases, some_inj, ap, sym, ◌∙◌,
}
use mathlib.Core.Path.{subst}
use mathlib.Core.List.{append-nil, append_assoc}
use scholarmatch_ai.Base.Text.{Text, codes, text_eq, text_eq_sound, text_eq_comm}
use scholarmatch_ai.Routing.Routes.{is_protected_path, is_auth_entry_path}
use scholarmatch_ai.Routing.SafeRedirect.{
  sanitize_redirect_path, build_sign_in_url, default_destination,
}
use scholarmatch_ai.Routing.SafeRedirect.Laws.{
  IsSafePath, tame_path, sanitize_redirect_path-IsSafePath, build_sign_in_url-IsSafePath,
}
use scholarmatch_ai.Routing.Proxy.{
  Cookie, set_cookie, set_cookies, NextResponse, next_response, NextRequest, set_all, set_batches,
  GetUser, Refreshed, refresh_session, respond, proxy, user_of,
}

-- No cookie of the jar has this name.
abbrev pub Absent : Text → List Cookie → Type 0
Absent name = All (λ c. text_eq c.0 name ≡ false)

-- A jar holds each name once: the later cookies do not have the name of an earlier one.
abbrev pub IsJar : List Cookie → Type 0
IsJar [] = Unit {0}
IsJar (c ∷ jar) = Absent c.0 jar × IsJar jar

set_cookie-fresh :
    (c : Cookie) (jar : List Cookie) → Absent c.0 jar → set_cookie c jar ≡ jar ++ (c ∷ [])
unfolding set_cookie
set_cookie-fresh (name, value) [] h = refl
set_cookie-fresh (name, value) ((other, old) ∷ jar) (p, h) =
    rw p (ap (λ r. (other, old) ∷ r) (set_cookie-fresh (name, value) jar h))

Absent-set :
    (name : Text) (c : Cookie) (jar : List Cookie)
    → text_eq c.0 name ≡ false
    → Absent name jar
    → Absent name (set_cookie c jar)
unfolding set_cookie
Absent-set name (n, v) [] h a = (h, tt)
Absent-set name (n, v) ((other, old) ∷ jar) h (p, a) =
    ground (arith, Absent-set name (n, v) jar h a)

set_cookie-IsJar : (c : Cookie) (jar : List Cookie) → IsJar jar → IsJar (set_cookie c jar)
unfolding set_cookie
set_cookie-IsJar (n, v) [] h = (tt, tt)
set_cookie-IsJar (n, v) ((other, old) ∷ jar) (a, h) = elim (Bool-cases (text_eq other n)) [
  | inl same ↦ rw same (rw (← text_eq_sound other n same) a, h)
  | inr differs ↦ rw differs (
    Absent-set other (n, v) jar (text_eq_comm n other ∙ differs) a,
    set_cookie-IsJar (n, v) jar h,
  )
]

set_cookies-IsJar : (cs jar : List Cookie) → IsJar jar → IsJar (set_cookies cs jar)
unfolding set_cookies
set_cookies-IsJar [] jar h = h
set_cookies-IsJar (c ∷ cs) jar h =
    set_cookies-IsJar cs (set_cookie c jar) (set_cookie-IsJar c jar h)

set_all-IsJar :
    (state : NextRequest × NextResponse) (batch : List Cookie)
    → IsJar (set_all state batch).1.cookies
unfolding set_all
set_all-IsJar (request, response) batch = set_cookies-IsJar batch [] tt

set_batches-IsJar :
    (state : NextRequest × NextResponse) (batches : List (List Cookie))
    → IsJar state.1.cookies
    → IsJar (set_batches state batches).1.cookies
unfolding set_batches
set_batches-IsJar state [] h = h
set_batches-IsJar state (batch ∷ batches) h =
    set_batches-IsJar (set_all state batch) batches (set_all-IsJar state batch)

-- The names of the second jar are not in the first.
Apart : List Cookie → List Cookie → Type 0
Apart jar = All (λ c. Absent c.0 jar)

Apart-concat :
    (jar cs : List Cookie) (c : Cookie) → Absent c.0 cs → Apart jar cs → Apart (jar ++ (c ∷ [])) cs
unfolding Apart
Apart-concat jar [] c a h = tt
Apart-concat jar (d ∷ cs) c (p, a) (q, h) =
    (All-append _ jar (c ∷ []) q (text_eq_comm c.0 d.0 ∙ p, tt), Apart-concat jar cs c a h)

copy_jar : (cs jar : List Cookie) → IsJar cs → Apart jar cs → set_cookies cs jar ≡ jar ++ cs
unfolding set_cookies Apart
copy_jar [] jar h a = sym (append-nil jar)
copy_jar (c ∷ cs) jar (absent, h) (q, a) =
    ap (set_cookies cs) (set_cookie-fresh c jar q)
    ∙ (copy_jar cs (jar ++ (c ∷ [])) h (Apart-concat jar cs c absent a)
        ∙ append_assoc jar (c ∷ []) cs)

Apart-nil : (cs : List Cookie) → Apart [] cs
unfolding Apart
Apart-nil [] = tt
Apart-nil (c ∷ cs) = (tt, Apart-nil cs)

copy_self : (cs : List Cookie) → IsJar cs → set_cookies cs [] ≡ cs
copy_self cs h = copy_jar cs [] h (Apart-nil cs)

set_batches-location :
    (state : NextRequest × NextResponse) (batches : List (List Cookie))
    → state.1.location ≡ none
    → (set_batches state batches).1.location ≡ none
unfolding set_batches
set_batches-location state [] h = h
set_batches-location state (batch ∷ batches) h =
    set_batches-location (set_all state batch) batches refl

default-IsSafePath : IsSafePath default_destination
default-IsSafePath = tame_path b'd' (codes "ashboard") (omega arith) (omega arith) (omega arith)

module _ {ℓ} {User : Type ℓ} where
  refresh-IsJar :
      (request : NextRequest) (call : GetUser User)
      → IsJar (refresh_session request call).response.cookies
  unfolding refresh_session
  refresh-IsJar request call = set_batches-IsJar (request, next_response) call.rotated tt

  pub refresh-location :
      (request : NextRequest) (call : GetUser User)
      → (refresh_session request call).response.location ≡ none
  unfolding refresh_session
  refresh-location request call = set_batches-location (request, next_response) call.rotated refl

  respond-cookies :
      (request : NextRequest) (refreshed : Refreshed User)
      → IsJar refreshed.response.cookies
      → (respond request refreshed).cookies ≡ refreshed.response.cookies
  unfolding respond
  respond-cookies request refreshed h = ground (arith, copy_self refreshed.response.cookies h)

  -- On every branch, a redirect included, the response carries exactly the cookies that the
  -- session refresh left on its response.
  pub proxy-cookies :
      (request : NextRequest) (call : GetUser User)
      → (proxy request call).cookies ≡ (refresh_session request call).response.cookies
  unfolding proxy
  proxy-cookies request call =
      respond-cookies request (refresh_session request call) (refresh-IsJar request call)

  respond_targets :
      (request : NextRequest) (refreshed : Refreshed User)
      → refreshed.response.location ≡ none
      → ((respond request refreshed).location ≡ none)
        ⊎ (((respond request refreshed).location
              ≡ some (build_sign_in_url (request.pathname ++ request.search) none))
            ⊎ ((respond request refreshed).location
                ≡ some (sanitize_redirect_path request.next default_destination)))
  unfolding respond
  respond_targets request refreshed h = ground arith

  respond-IsSafePath :
      (request : NextRequest) (refreshed : Refreshed User) (path : Text)
      → refreshed.response.location ≡ none
      → (respond request refreshed).location ≡ some path
      → IsSafePath path
  respond-IsSafePath request refreshed path h e = elim (respond_targets request refreshed h) [
    | inl none_there ↦ absurd (cc)
    | inr (inl url) ↦
        subst IsSafePath (some_inj (sym url ∙ e))
          (build_sign_in_url-IsSafePath (request.pathname ++ request.search) none)
    | inr (inr next) ↦
        subst IsSafePath (some_inj (sym next ∙ e))
          (sanitize_redirect_path-IsSafePath request.next default_destination default-IsSafePath)
  ]

  -- Wherever the proxy redirects to, the target is a safe path of the site, whatever the request
  -- and its `next` parameter hold.
  pub proxy-IsSafePath :
      (request : NextRequest) (call : GetUser User) (path : Text)
      → (proxy request call).location ≡ some path
      → IsSafePath path
  unfolding proxy
  proxy-IsSafePath request call path e =
      respond-IsSafePath request (refresh_session request call) path (refresh-location request call)
        e

  respond-location :
      (request : NextRequest) (refreshed : Refreshed User)
      → refreshed.response.location ≡ none
      → ((respond request refreshed).location ≡ none) ↔ (
          (is_some refreshed.user ≡ false → is_protected_path request.pathname ≡ false)
          × (is_some refreshed.user ≡ true → is_auth_entry_path request.pathname ≡ false))
  unfolding respond
  respond-location request refreshed h = ground arith

  -- A request passes without a redirect exactly when a visitor without a session asks for no
  -- protected page, and a user with one for no entry page of authentication. A failing session
  -- lookup counts as no session.
  pub proxy-passes_iff :
      (request : NextRequest) (call : GetUser User)
      → ((proxy request call).location ≡ none) ↔ (
          (is_some (user_of call.outcome) ≡ false → is_protected_path request.pathname ≡ false)
          × (is_some (user_of call.outcome) ≡ true → is_auth_entry_path request.pathname ≡ false))
  unfolding proxy
  proxy-passes_iff request call =
      respond-location request (refresh_session request call) (refresh-location request call)
