-- ===== src/Auth/Validate/Laws.antt =====
-- Which texts the forms accept.
use scholarmatch_ai.Base.{
  ℕ, Bool, true, false, not, [], ◌∷◌, ◌++◌, ◌&&◌, none, ◌==◌, all, length, ◌≡◌, refl, sym, ap, ◌∙◌,
  ◌≤◌, ◌↔◌, arith, Bool-cases, inl, inr,
}
use scholarmatch_ai.Base.Text.{Text, text_eq, text_eq_sound, text_eq_refl, is_empty}
use scholarmatch_ai.Base.Text.Trim.{trim, is_space}
use scholarmatch_ai.Auth.Validate.{
  is_plain, has_top, is_domain, is_rest, email_pattern, validate_email, validate_password,
  validate_password_confirmation,
}

-- A word: not empty, without white space and without an at sign.
abbrev pub is_word : Text → Bool
is_word s = not (is_empty s) && all is_plain s

-- One word, an at sign, and two words with a dot between them.
pub record IsEmail (s : Text) : Type 0 where
  pub user : Text
  pub host : Text
  pub top : Text
  pub parts : s ≡ user ++ (b'@' ∷ (host ++ (b'.' ∷ top)))
  pub user_word : is_word user ≡ true
  pub host_word : is_word host ≡ true
  pub top_word : is_word top ≡ true

all-append : (p : ℕ → Bool) (s t : Text) → all p (s ++ t) ≡ (all p s && all p t)
all-append p [] t = refl
all-append p (c ∷ s) t = ground (arith, all-append p s t)

has_top_sound :
    (s : Text) → has_top s ≡ true → (a t : Text) × (s ≡ a ++ (b'.' ∷ t)) × (is_empty t ≡ false)
unfolding has_top
has_top_sound [] h = absurd (cc)
has_top_sound (c ∷ s) h = elim (Bool-cases (has_top s)) [
  | inl later ↦ let (a, t, e, full) = has_top_sound s later in (c ∷ a, t, ap (λ r. c ∷ r) e, full)
  | inr none_later ↦ ([], s, ground (arith, h, none_later), ground (arith, h, none_later))
]

has_top_complete : (a t : Text) → is_empty t ≡ false → has_top (a ++ (b'.' ∷ t)) ≡ true
unfolding has_top
has_top_complete [] t h = ground (arith, h)
has_top_complete (c ∷ a) t h = ground (arith, has_top_complete a t h)

is_domain_sound :
    (s : Text)
    → is_domain s ≡ true
    → (h t : Text) × (s ≡ h ++ (b'.' ∷ t)) × (is_word h ≡ true) × (is_word t ≡ true)
unfolding is_domain
is_domain_sound [] e = absurd (cc)
is_domain_sound (c ∷ s) e =
    let (a, t, split, full) = has_top_sound s (ground (arith, e)) in
    let plain : all is_plain (c ∷ (a ++ (b'.' ∷ t))) ≡ true =
      ap (λ r. all is_plain (c ∷ r)) (sym split) ∙ ground (arith, e) in
    let parted = all-append is_plain (c ∷ a) (b'.' ∷ t) in
    (
      c ∷ a,
      t,
      ap (λ r. c ∷ r) split,
      ground (arith, plain, parted),
      ground (arith, plain, parted, full),
    )

dot_plain : is_plain b'.' ≡ true
unfolding is_plain is_space
dot_plain = refl

is_domain_complete :
    (h t : Text) → is_word h ≡ true → is_word t ≡ true → is_domain (h ++ (b'.' ∷ t)) ≡ true
unfolding is_domain
is_domain_complete [] t p q = absurd (cc)
is_domain_complete (c ∷ h) t p q = ground (
  arith,
  all-append is_plain h (b'.' ∷ t),
  has_top_complete h t (ground (arith, q)),
  dot_plain,
  p,
  q,
)

is_rest_sound :
    (s : Text)
    → is_rest s ≡ true
    → (u d : Text) × (s ≡ u ++ (b'@' ∷ d)) × (all is_plain u ≡ true) × (is_domain d ≡ true)
unfolding is_rest
is_rest_sound [] e = absurd (cc)
is_rest_sound (c ∷ s) e = elim (Bool-cases (c == b'@')) [
  | inl at ↦ ([], s, ground (arith, at), refl, ground (arith, e, at))
  | inr before ↦
      let (u, d, split, plain, domain) = is_rest_sound s (ground (arith, e, before)) in
      (c ∷ u, d, ap (λ r. c ∷ r) split, ground (arith, e, before, plain), domain)
]

is_rest_complete :
    (u d : Text) → all is_plain u ≡ true → is_domain d ≡ true → is_rest (u ++ (b'@' ∷ d)) ≡ true
unfolding is_rest is_plain
is_rest_complete [] d p q = q
is_rest_complete (c ∷ u) d p q = ground (arith, is_rest_complete u d)

email_pattern_sound : (s : Text) → email_pattern s ≡ true → IsEmail s
unfolding email_pattern
email_pattern_sound [] e = absurd (cc)
email_pattern_sound (c ∷ s) e =
    let (u, d, split, plain, domain) = is_rest_sound s (ground (arith, e)) in
    let (h, t, parted, host, top) = is_domain_sound d domain in
    record {
      user = c ∷ u;
      host = h;
      top = t;
      parts = ap (λ r. c ∷ r) (split ∙ ap (λ r. u ++ (b'@' ∷ r)) parted);
      user_word = ground (arith, e, plain);
      host_word = host;
      top_word = top;
    }

email_pattern_parts :
    (u h t : Text)
    → is_word u ≡ true
    → is_word h ≡ true
    → is_word t ≡ true
    → email_pattern (u ++ (b'@' ∷ (h ++ (b'.' ∷ t)))) ≡ true
unfolding email_pattern
email_pattern_parts [] h t p q r = absurd (cc)
email_pattern_parts (c ∷ u) h t p q r = ground (
  arith,
  p,
  is_rest_complete u (h ++ (b'.' ∷ t)) (ground (arith, p)) (is_domain_complete h t q r),
)

email_pattern_complete : (s : Text) → IsEmail s → email_pattern s ≡ true
email_pattern_complete s email =
    ap email_pattern email.parts
    ∙ email_pattern_parts email.user email.host email.top email.user_word email.host_word
        email.top_word

pattern_full : (s : Text) → email_pattern s ≡ true → is_empty s ≡ false
unfolding email_pattern
pattern_full [] e = cc
pattern_full (c ∷ s) e = refl

validate_email-pattern :
    (email : Text) → (validate_email email ≡ none) ↔ (email_pattern (trim email) ≡ true)
unfolding validate_email
validate_email-pattern email = ground (arith, pattern_full (trim email))

-- An e-mail address is accepted exactly when, without the white space around it, it is a word, an
-- at sign and two words with a dot between them, where a word is not empty and has neither white
-- space nor an at sign.
pub validate_email_iff : (email : Text) → (validate_email email ≡ none) ↔ IsEmail (trim email)
validate_email_iff email = (
  λ e. email_pattern_sound (trim email) ((validate_email-pattern email).0 e),
  λ valid. (validate_email-pattern email).1 (email_pattern_complete (trim email) valid),
)

confirmation_iff :
    (password confirmation : Text)
    → (validate_password_confirmation password confirmation ≡ none)
      ↔ ((is_empty confirmation ≡ false) × (text_eq password confirmation ≡ true))
unfolding validate_password_confirmation
confirmation_iff p c = ground arith

password_iff : (password : Text) → (validate_password password ≡ none) ↔ (8 ≤ length password)
unfolding validate_password
password_iff [] = ground arith
password_iff (c ∷ p) = ground arith

-- A password and its confirmation are both accepted exactly when they are the same text of at least
-- eight units.
pub validate_password_iff :
    (password confirmation : Text)
    → ((validate_password password ≡ none)
        × (validate_password_confirmation password confirmation ≡ none))
      ↔ ((8 ≤ length password) × (password ≡ confirmation))
validate_password_iff p c = (
  λ (long, same). ((password_iff p).0 long, text_eq_sound p c ((confirmation_iff p c).0 same).1),
  λ (long, same). (
    (password_iff p).1 long,
    (confirmation_iff p c).1
        (ap is_empty (sym same) ∙ not_empty p long, ap (text_eq p) (sym same) ∙ text_eq_refl p),
  ),
)
  where
    not_empty : (s : Text) → 8 ≤ length s → is_empty s ≡ false
    not_empty [] h = absurd (omega arith)
    not_empty (c ∷ s) h = refl
