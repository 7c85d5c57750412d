-- ===== src/Routing/SafeRedirect/Laws.antt =====
-- Which candidates survive `sanitizeRedirectPath`, and where a browser takes the result.
use scholarmatch_ai.Base.{
  ℕ, true, false, [], ◌∷◌, ◌++◌, Option, none, some, ◌≡◌, ◌≢◌, refl, arith, All, All-map,
  All-middle, All-append, inl, inr, ◌⊎◌, ◌<◌,
}
use mathlib.Core.Path.{subst}
use scholarmatch_ai.Base.Text.{
  Text, codes, starts_with, includes, starts_with_sound, starts_with-append, includes_sound,
  includes-append,
}
use scholarmatch_ai.Base.Url.{form_serialize}
use scholarmatch_ai.Base.Url.Laws.{IsTame, form_serialize-IsTame}
use scholarmatch_ai.Routing.SafeRedirect.{
  sanitize_text, sanitize_redirect_path, has_control, SignInReason, build_sign_in_url,
  sign_in_params, with_query,
}

-- The path does not leave the site: one slash, then neither a slash nor a backslash, no control
-- character, and no scheme separator anywhere.
pub record IsSafePath (path : Text) : Type 0 where
  pub rest : Text
  pub absolute : path ≡ b'/' ∷ rest
  pub no_slash : (tail : Text) → rest ≢ b'/' ∷ tail
  pub no_backslash : (tail : Text) → rest ≢ b'\\' ∷ tail
  pub printable : All (λ c. 0x1f < c) path
  pub no_scheme : (before after : Text) → path ≢ before ++ (codes "://" ++ after)

has_control-All : (s : Text) → has_control s ≡ false → All (λ c. 0x1f < c) s
unfolding has_control
has_control-All [] h = tt
has_control-All (c ∷ s) h = (ground arith, has_control-All s (ground arith))

All-has_control : (s : Text) → All (λ c. 0x1f < c) s → has_control s ≡ false
unfolding has_control
All-has_control [] h = refl
All-has_control (c ∷ s) (p, h) = ground (arith, All-has_control s h)

no_scheme_of_includes :
    (path : Text)
    → includes path (codes "://") ≡ false
    → (before after : Text) → path ≢ before ++ (codes "://" ++ after)
no_scheme_of_includes path h before after e =
    let found : includes path (codes "://") ≡ true =
      rw e (includes-append before (codes "://") after) in
    cc

starts_with_single :
    (s : Text) → starts_with s (codes "/") ≡ true → (rest : Text) × (s ≡ b'/' ∷ rest)
starts_with_single s h = starts_with_sound s (codes "/") h

-- Two units in front, refused as a prefix, do not stand there.
not_second :
    (path rest : Text) (d : ℕ)
    → path ≡ b'/' ∷ rest
    → starts_with path (b'/' ∷ d ∷ []) ≡ false
    → (tail : Text) → rest ≢ d ∷ tail
not_second path rest d absolute refused tail e =
    let found : starts_with path (b'/' ∷ d ∷ []) ≡ true =
      rw (absolute, e) (starts_with-append (b'/' ∷ d ∷ []) tail) in
    cc

is_safe_path :
    (path : Text)
    → starts_with path (codes "/") ≡ true
    → starts_with path (codes "//") ≡ false
    → starts_with path (codes "/\\") ≡ false
    → has_control path ≡ false
    → includes path (codes "://") ≡ false
    → IsSafePath path
is_safe_path path root slashes backslash control scheme =
    let (rest, absolute) = starts_with_sound path (codes "/") root in
    record {
      rest = rest;
      absolute = absolute;
      no_slash = not_second path rest b'/' absolute slashes;
      no_backslash = not_second path rest b'\\' absolute backslash;
      printable = has_control-All path control;
      no_scheme = no_scheme_of_includes path scheme;
    }

module _ (path : Text) (safe : IsSafePath path) where
  open safe use {rest, absolute, no_slash, no_backslash, printable, no_scheme}

  safe-root : starts_with path (codes "/") ≡ true
  safe-root = rw absolute (starts_with-append (codes "/") rest)

  safe-slashes : starts_with path (codes "//") ≢ true
  safe-slashes h =
      let (tail, e) = starts_with_sound path (codes "//") h in no_slash tail (ground arith)

  safe-backslash : starts_with path (codes "/\\") ≢ true
  safe-backslash h =
      let (tail, e) = starts_with_sound path (codes "/\\") h in no_backslash tail (ground arith)

  safe-scheme : includes path (codes "://") ≢ true
  safe-scheme h =
      let (before, after, e) = includes_sound path (codes "://") h in no_scheme before after e

  sanitize_of_IsSafePath : (fallback : Text) → sanitize_text path fallback ≡ path
  unfolding sanitize_text
  sanitize_of_IsSafePath fallback =
      ground (
        arith,
        safe-root,
        safe-slashes,
        safe-backslash,
        safe-scheme,
        All-has_control path printable,
      )

-- The guards of the code are passed by safe paths only.
sanitize_text_cases :
    (candidate fallback : Text)
    → (IsSafePath candidate × (sanitize_text candidate fallback ≡ candidate))
      ⊎ (sanitize_text candidate fallback ≡ fallback)
unfolding sanitize_text
sanitize_text_cases c fb = ground (arith, is_safe_path c)

pub sanitize_text_value :
    (candidate fallback : Text)
    → (sanitize_text candidate fallback ≡ candidate) ⊎ (sanitize_text candidate fallback ≡ fallback)
sanitize_text_value c fb = elim (sanitize_text_cases c fb) [ inl (_, e) ↦ inl e | inr e ↦ inr e ]

-- A candidate is kept exactly when it is a safe path; every other candidate, and no candidate at
-- all, gives the fallback.
pub sanitize_redirect_path_lem :
    (candidate fallback : Text)
    → (IsSafePath candidate → sanitize_redirect_path (some candidate) fallback ≡ candidate)
      × ((¬ IsSafePath candidate) → sanitize_redirect_path (some candidate) fallback ≡ fallback)
      × (sanitize_redirect_path none fallback ≡ fallback)
unfolding sanitize_redirect_path
sanitize_redirect_path_lem c fb = (
  λ safe. sanitize_of_IsSafePath c safe fb,
  λ unsafe. elim (sanitize_text_cases c fb) [
    | inl (safe, _) ↦ absurd (unsafe safe)
    | inr kept ↦ kept
  ],
  refl,
)

pub sanitize_redirect_path-IsSafePath :
    (candidate : Option Text) (fallback : Text)
    → IsSafePath fallback
    → IsSafePath (sanitize_redirect_path candidate fallback)
unfolding sanitize_redirect_path
sanitize_redirect_path-IsSafePath none fb safe = safe
sanitize_redirect_path-IsSafePath (some c) fb safe = elim (sanitize_text_cases c fb) [
  | inl (kept, e) ↦ rw e kept
  | inr e ↦ rw e safe
]

fallback_fixed : (fallback : Text) → sanitize_text fallback fallback ≡ fallback
fallback_fixed fb = elim (sanitize_text_cases fb fb) [ inl (_, e) ↦ e | inr e ↦ e ]

-- Sanitizing a second time, with the same fallback, changes nothing.
pub sanitize_redirect_path_idempotent :
    (candidate : Option Text) (fallback : Text)
    → let path = sanitize_redirect_path candidate fallback in
      sanitize_redirect_path (some path) fallback ≡ path
unfolding sanitize_redirect_path
sanitize_redirect_path_idempotent none fb = fallback_fixed fb
sanitize_redirect_path_idempotent (some c) fb = elim (sanitize_text_cases c fb) [
  | inl (_, e) ↦ rw (e, e)
  | inr e ↦ rw e (fallback_fixed fb)
]

-- A path with a word after its slash and no colon is safe.
pub tame_path :
    (c : ℕ) (s : Text) → c ≢ b'/' → c ≢ b'\\' → All IsTame (c ∷ s) → IsSafePath (b'/' ∷ c ∷ s)
tame_path c s slash backslash tame = record {
  rest = c ∷ s;
  absolute = refl;
  no_slash = λ tail e. ground arith;
  no_backslash = λ tail e. ground arith;
  printable = (omega arith, All-map IsTame (λ x. 0x1f < x) (c ∷ s) (λ x t. t.1) tame);
  no_scheme = λ before after e. no_colon before after e;
}
  where
    no_colon : (before after : Text) → b'/' ∷ c ∷ s ≢ before ++ (codes "://" ++ after)
    no_colon before after e =
        let all_tame : All IsTame (b'/' ∷ c ∷ s) = (omega arith, tame) in
        let found =
          All-middle IsTame before (codes "//" ++ after) (subst (All IsTame) e all_tame) in
        found.0 refl

query_IsSafePath :
    (query : Text) → All IsTame query → IsSafePath (with_query (codes "/sign-in") query)
query_IsSafePath [] h = tame_path b's' (codes "ign-in") (omega arith) (omega arith) (omega arith)
query_IsSafePath (c ∷ query) h =
    tame_path b's' (codes "ign-in?" ++ (c ∷ query)) (omega arith) (omega arith)
      (All-append IsTame (codes "sign-in?") (c ∷ query) (omega arith) h)

-- Whatever destination it remembers, the sign-in URL is a path of the site.
pub build_sign_in_url-IsSafePath :
    (path : Text) (reason : Option SignInReason) → IsSafePath (build_sign_in_url path reason)
build_sign_in_url-IsSafePath path reason =
    unfold build_sign_in_url in
    query_IsSafePath (form_serialize (sign_in_params path reason))
      (form_serialize-IsTame (sign_in_params path reason))
