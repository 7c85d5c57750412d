-- ===== src/Routing/SafeRedirect/Remembered.antt =====
-- The destination that `buildSignInUrl` stores is the one that is read back after the sign-in.
use scholarmatch_ai.Base.{
  ℕ, true, false, List, [], ◌∷◌, ◌++◌, Option, none, some, ◌==◌, ◌≡◌, refl, sym, arith, All,
  Bool-cases, inl, inr, ◌<◌, ◌∙◌, ◌⊎◌,
}
use mathlib.Core.List.{append-nil}
use scholarmatch_ai.Base.Text.{Text, codes, text_eq, text_eq_sound, is_ascii}
use scholarmatch_ai.Base.Url.{
  form_encode, form_serialize, form_decode, search_param, find_param, split_on, split_first,
}
use scholarmatch_ai.Base.Url.Laws.{
  utf8_ascii, form_decode-encode, form_encode_plain, split_on-plain, split_on-last, is_piece_unit,
}
use scholarmatch_ai.Routing.SafeRedirect.{
  sanitize_redirect_path, default_destination, SignInReason, session_expired, reason_param,
  build_sign_in_url, with_query,
}
use scholarmatch_ai.Routing.SafeRedirect.Laws.{
  sanitize_redirect_path_idempotent, sanitize_text_value,
}

ascii_bytes : (s : Text) → is_ascii s ≡ true → All (λ b. b < 256) s
ascii_bytes [] h = tt
ascii_bytes (c ∷ s) h = (ground arith, ascii_bytes s (ground arith))

ascii_decode : (s : Text) → is_ascii s ≡ true → form_decode (form_encode s) ≡ s
unfolding form_encode
ascii_decode s h = rw (utf8_ascii s h) (form_decode-encode s (ascii_bytes s h))

ascii_plain : (s : Text) → is_ascii s ≡ true → All (λ c. is_piece_unit c ≡ true) (form_encode s)
unfolding form_encode
ascii_plain s h = rw (utf8_ascii s h) (form_encode_plain s (ascii_bytes s h))

no_ampersand : (s : Text) → All (λ c. is_piece_unit c ≡ true) s → All (λ c. (c == b'&') ≡ false) s
no_ampersand [] h = tt
no_ampersand (c ∷ s) (p, h) = (ground arith, no_ampersand s h)

sanitize-ascii :
    (path : Text)
    → is_ascii path ≡ true
    → is_ascii (sanitize_redirect_path (some path) default_destination) ≡ true
unfolding sanitize_redirect_path
sanitize-ascii path h = elim (sanitize_text_value path default_destination) [
  | inl e ↦ rw e h
  | inr e ↦ rw e
]

search_param_lem :
    (other : List ℕ → Text) (key url : Text)
    → search_param other key url ≡ find_param other key (split_on b'&' (split_first b'?' url).1)
unfolding search_param
search_param_lem other key url = refl

abbrev reason_suffix : Option SignInReason → Text
reason_suffix none = []
reason_suffix (some session_expired) = codes "&reason=session-expired"

abbrev next_piece : Text → Text
next_piece next = codes "next=" ++ form_encode next

serialize_next :
    (next : Text) (reason : Option SignInReason)
    → form_serialize ((codes "next", next) ∷ reason_param reason)
      ≡ next_piece next ++ reason_suffix reason
unfolding form_serialize
serialize_next next none = sym (append-nil _)
serialize_next next (some session_expired) = refl

module _ (other : List ℕ → Text) (next : Text) (ascii : is_ascii next ≡ true) where
  piece_units : All (λ c. (c == b'&') ≡ false) (next_piece next)
  piece_units = (refl, (refl, (refl, (refl, (refl, no_ampersand _ (ascii_plain next ascii))))))

  -- The first piece of the query gives the destination back.
  find_next :
      (pieces : List Text) → find_param other (codes "next") (next_piece next ∷ pieces) ≡ some next
  unfolding search_param
  find_next pieces = rw (ascii_decode next ascii, ascii)

  search_next :
      (reason : Option SignInReason)
      → search_param other (codes "next") (
          with_query
            (codes "/sign-in")
            (form_serialize ((codes "next", next) ∷ reason_param reason)))
        ≡ some next
  unfolding split_first
  search_next none =
      rw (search_param_lem, serialize_next next none, append-nil, split_on-last b'&' _ piece_units)
        (find_next [])
  search_next (some session_expired) =
      rw (search_param_lem, serialize_next next (some session_expired))
        (rw (split_on-plain b'&' (next_piece next) (codes "reason=session-expired") piece_units)
          (find_next _))

search_default :
    (other : List ℕ → Text) (reason : Option SignInReason)
    → search_param other
        (codes "next")
        (with_query (codes "/sign-in") (form_serialize (reason_param reason)))
      ≡ none
unfolding search_param form_serialize
search_default other none = refl
search_default other (some session_expired) = refl

module _ (path : Text) (reason : Option SignInReason) where
  build_default :
      text_eq (sanitize_redirect_path (some path) default_destination) default_destination ≡ true
      → build_sign_in_url path reason
        ≡ with_query (codes "/sign-in") (form_serialize (reason_param reason))
  build_default same = unfold build_sign_in_url in rw same

  build_next :
      text_eq (sanitize_redirect_path (some path) default_destination) default_destination ≡ false
      → build_sign_in_url path reason
        ≡ with_query (codes "/sign-in") (
            form_serialize (
              (codes "next", sanitize_redirect_path (some path) default_destination)
              ∷ reason_param reason))
  build_next differs = unfold build_sign_in_url in rw differs

with_query-page :
    (query : Text)
    → (rest : Text) × (with_query (codes "/sign-in") query ≡ codes "/sign-in" ++ rest)
      × ((rest ≡ []) ⊎ ((pairs : Text) × (rest ≡ b'?' ∷ pairs)))
with_query-page [] = ([], refl, inl refl)
with_query-page (c ∷ query) = (b'?' ∷ c ∷ query, refl, inr (c ∷ query, refl))

-- The URL is that of the sign-in page, with a query or none.
pub build_sign_in_url-page :
    (path : Text) (reason : Option SignInReason)
    → (rest : Text) × (build_sign_in_url path reason ≡ codes "/sign-in" ++ rest)
      × ((rest ≡ []) ⊎ ((pairs : Text) × (rest ≡ b'?' ∷ pairs)))
unfolding build_sign_in_url
build_sign_in_url-page path reason = with_query-page _

default_kept : sanitize_redirect_path none default_destination ≡ default_destination
unfolding sanitize_redirect_path
default_kept = refl

-- Reading `next` back from the sign-in URL and sanitizing it gives the destination that the user
-- was heading for, sanitized: also where the default was left out of the URL, and with or without
-- a reason. The path is ASCII, as the path and query of a parsed request URL are.
pub build_sign_in_url-search_param :
    (other : List ℕ → Text) (path : Text) (reason : Option SignInReason)
    → is_ascii path ≡ true
    → sanitize_redirect_path
        (search_param other (codes "next") (build_sign_in_url path reason))
        default_destination
      ≡ sanitize_redirect_path (some path) default_destination
build_sign_in_url-search_param other path reason ascii =
    let next = sanitize_redirect_path (some path) default_destination in
    elim (Bool-cases (text_eq next default_destination)) [
      | inl same ↦
          rw (build_default path reason same, search_default other reason)
            (default_kept ∙ sym (text_eq_sound next default_destination same))
      | inr differs ↦
          rw
            (
              build_next path reason differs,
              search_next other next (sanitize-ascii path ascii) reason,
            )
            (sanitize_redirect_path_idempotent (some path) default_destination)
    ]
