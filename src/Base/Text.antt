-- ===== src/Base/Text.antt =====
-- Text of the source: a JavaScript string is a list of UTF-16 code units, `length` counts the
-- units, and equality compares them one by one.
pub mod Trim
pub mod Decimal
use Prim.Native.Char.{code}
use Prim.Native.String.{String}
use Prim.Native.Nat.{ℕ, ◌+◌, ◌-◌}
use mathlib.Core.Path.{◌≡◌, refl, sym, ◌∙◌, ap, ap₂}
use mathlib.Core.Logic.{◌≢◌, ◌↔◌, inl, inr}
use mathlib.Core.Bool.{Bool, true, false, not, ◌&&◌, ◌||◌}
use mathlib.Core.List.{List, [], ◌∷◌, ◌++◌, map}
use native.Mathlib.Omega.{arith}
use scholarmatch_ai.Base.Tests.{true-false, ◌==◌, leb, if◌then◌else◌, Bool-cases}
use scholarmatch_ai.Base.Lists.{all, any}

abbrev pub Text : Type 0
Text = List ℕ

-- The code units of a literal of the source; the literals that it is used for are ASCII.
abbrev pub codes : String → Text
codes String.[] = []
codes (String.◌∷◌ c s) = code c ∷ codes s

-- `===` on strings
unfoldable pub text_eq : Text → Text → Bool
text_eq [] [] = true
text_eq (c ∷ s) (d ∷ t) = c == d && text_eq s t
text_eq _ _ = false

pub text_eq_sound : (s t : Text) → text_eq s t ≡ true → s ≡ t
unfolding text_eq
text_eq_sound [] [] h = refl
text_eq_sound (c ∷ s) (d ∷ t) h = ground (arith, text_eq_sound s t)
text_eq_sound [] (d ∷ t) h = cc
text_eq_sound (c ∷ s) [] h = cc

pub text_eq_refl : (s : Text) → text_eq s s ≡ true
unfolding text_eq
text_eq_refl [] = refl
text_eq_refl (c ∷ s) = ground (arith, text_eq_refl s)

pub text_eq_comm : (s t : Text) → text_eq s t ≡ text_eq t s
unfolding text_eq
text_eq_comm [] [] = refl
text_eq_comm (c ∷ s) (d ∷ t) = ground (arith, text_eq_comm s t)
text_eq_comm [] (d ∷ t) = refl
text_eq_comm (c ∷ s) [] = refl

-- `Set.has` and `includes` on a list of strings
unfoldable pub member : Text → List Text → Bool
unfolding text_eq
member s = any (text_eq s)

unfoldable pub starts_with : Text → Text → Bool
starts_with s [] = true
starts_with [] (d ∷ t) = false
starts_with (c ∷ s) (d ∷ t) = c == d && starts_with s t

-- `includes` on a string
unfoldable pub includes : Text → Text → Bool
unfolding starts_with
includes [] t = starts_with [] t
includes (c ∷ s) t = starts_with (c ∷ s) t || includes s t

pub starts_with_sound : (s t : Text) → starts_with s t ≡ true → (rest : Text) × (s ≡ t ++ rest)
unfolding starts_with
starts_with_sound s [] h = (s, refl)
starts_with_sound [] (d ∷ t) h = absurd (cc)
starts_with_sound (c ∷ s) (d ∷ t) h =
    let (rest, e) = starts_with_sound s t (ground arith) in (rest, ground arith)

pub starts_with-append : (t rest : Text) → starts_with (t ++ rest) t ≡ true
unfolding starts_with
starts_with-append [] rest = refl
starts_with-append (d ∷ t) rest = ground (arith, starts_with-append t rest)

pub includes_of_starts_with : (s t : Text) → starts_with s t ≡ true → includes s t ≡ true
unfolding includes
includes_of_starts_with [] t h = h
includes_of_starts_with (c ∷ s) t h = rw h

pub includes-append : (before t after : Text) → includes (before ++ (t ++ after)) t ≡ true
unfolding includes
includes-append [] t after = includes_of_starts_with _ t (starts_with-append t after)
includes-append (c ∷ before) t after = ground (arith, includes-append before t after)

pub includes_sound :
    (s t : Text) → includes s t ≡ true → (before after : Text) × (s ≡ before ++ (t ++ after))
unfolding includes
includes_sound [] t h = let (after, e) = starts_with_sound [] t h in ([], after, e)
includes_sound (c ∷ s) t h = elim (Bool-cases (starts_with (c ∷ s) t)) [
  | inl front ↦ let (after, e) = starts_with_sound (c ∷ s) t front in ([], after, e)
  | inr later ↦
      let (before, after, e) = includes_sound s t (ground arith) in
      (c ∷ before, after, ap (λ r. c ∷ r) e)
]

abbrev pub is_empty : Text → Bool
is_empty [] = true
is_empty (c ∷ s) = false

abbrev pub ascii_upper : ℕ → ℕ
ascii_upper c = if leb b'a' c && leb c b'z' then c - 32 else c

abbrev pub ascii_lower : ℕ → ℕ
ascii_lower c = if leb b'A' c && leb c b'Z' then c + 32 else c

abbrev pub is_ascii : Text → Bool
is_ascii = all (λ c. leb c 127)

-- `toUpperCase` and `toLowerCase`: exact on ASCII text; `other` is the engine's Unicode tables,
-- which text with any other unit goes by.
abbrev pub to_upper_case : (Text → Text) → Text → Text
to_upper_case other s = if is_ascii s then map ascii_upper s else other s

abbrev pub to_lower_case : (Text → Text) → Text → Text
to_lower_case other s = if is_ascii s then map ascii_lower s else other s

pub text_eq_ne : (s t : Text) → text_eq s t ≡ false → s ≢ t
text_eq_ne s t differs e =
    true-false (sym (text_eq_refl t) ∙ (sym (ap (λ x. text_eq x t) e) ∙ differs))

pub text_eq_iff : (s t : Text) → (text_eq s t ≡ true) ↔ (s ≡ t)
text_eq_iff s t = (text_eq_sound s t, λ e. ap (λ x. text_eq x t) e ∙ text_eq_refl t)
