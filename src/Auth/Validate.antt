-- ===== src/Auth/Validate.antt =====
-- frontend/app/lib/auth/validate.ts
pub mod Laws
use scholarmatch_ai.Base.{
  ℕ, Bool, true, false, not, List, [], ◌∷◌, ◌&&◌, ◌||◌, Option, none, some, if◌then◌else◌, ◌==◌,
  ltb, all, length,
}
use scholarmatch_ai.Base.Text.{Text, codes, text_eq, is_empty}
use scholarmatch_ai.Base.Text.Trim.{trim, is_space}

abbrev pub min_password_length : ℕ
min_password_length = 8

-- `[^\s@]`
unfoldable pub is_plain : ℕ → Bool
is_plain c = not (is_space c) && not (c == b'@')

-- A dot with something after it.
unfoldable pub has_top : Text → Bool
has_top [] = false
has_top (c ∷ s) = c == b'.' && not (is_empty s) || has_top s

-- `[^\s@]+\.[^\s@]+$`
unfoldable pub is_domain : Text → Bool
unfolding has_top
is_domain [] = false
is_domain (c ∷ s) = all is_plain (c ∷ s) && has_top s

-- `[^\s@]*@[^\s@]+\.[^\s@]+$`
unfoldable pub is_rest : Text → Bool
unfolding is_domain
is_rest [] = false
is_rest (c ∷ s) = let later = is_rest s in if c == b'@' then is_domain s else is_plain c && later

-- `EMAIL_PATTERN.test(s)`
unfoldable pub email_pattern : Text → Bool
unfolding is_rest
email_pattern [] = false
email_pattern (c ∷ s) = is_plain c && is_rest s

unfoldable pub validate_email : Text → Option Text
unfolding trim
validate_email email =
    let trimmed = trim email in
    if is_empty trimmed
    then some (codes "Enter your email address.")
    else if not (email_pattern trimmed)
    then some (codes "Enter a valid email address.")
    else none

unfoldable pub validate_password : Text → Option Text
validate_password password =
    if is_empty password
    then some (codes "Enter a password.")
    else if ltb (length password) min_password_length
    then some (codes "Use at least 8 characters.")
    else none

unfoldable pub validate_password_confirmation : Text → Text → Option Text
unfolding text_eq
validate_password_confirmation password confirmation =
    if is_empty confirmation
    then some (codes "Re-enter your password.")
    else if not (text_eq password confirmation)
    then some (codes "Passwords do not match.")
    else none
