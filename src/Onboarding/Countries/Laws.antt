-- ===== src/Onboarding/Countries/Laws.antt =====
-- What the list of countries gives to the code that validates by it.
use scholarmatch_ai.Base.{
  Bool, true, List, [], ◌∷◌, is_some, any, all, find, map, length, ◌==◌, leb, ◌&&◌, ◌≡◌, refl, ◌∙◌,
  ap, arith, Bool-cases, inl, inr,
}
use scholarmatch_ai.Base.Text.{Text, text_eq, text_eq_sound, text_eq_comm, to_upper_case}
use scholarmatch_ai.Onboarding.Countries.{
  Country, countries, country_codes, is_valid_country_code, name_of, country_name,
}

-- Two capital letters.
abbrev pub is_alpha2 : Text → Bool
is_alpha2 s = length s == 2 && all (λ c. leb b'A' c && leb c b'Z') s

all_alpha2 : all is_alpha2 country_codes ≡ true
unfolding country_codes
all_alpha2 = refl

member_all :
    (p : Text → Bool) (s : Text) (xs : List Text)
    → all p xs ≡ true
    → any (text_eq s) xs ≡ true
    → p s ≡ true
member_all p s [] h m = absurd (cc)
member_all p s (x ∷ xs) h m = elim (Bool-cases (text_eq s x)) [
  | inl same ↦ ap p (text_eq_sound s x same) ∙ ground arith
  | inr other ↦ member_all p s xs (ground arith) (ground arith)
]

-- A valid code, once in upper case, is two capital letters.
pub is_valid_country_code-alpha2 :
    (upper : Text → Text) (code : Text)
    → is_valid_country_code upper code ≡ true
    → is_alpha2 (to_upper_case upper code) ≡ true
unfolding is_valid_country_code
is_valid_country_code-alpha2 upper code h =
    member_all is_alpha2 (to_upper_case upper code) country_codes all_alpha2 h

find-any :
    (s : Text) (cs : List Country)
    → is_some (name_of (find (λ c. text_eq c.code s) cs)) ≡ any (text_eq s) (map (λ c. c.code) cs)
find-any s [] = refl
find-any s (c ∷ cs) = ground (arith, text_eq_comm c.code s, find-any s cs)

-- The two readers of the list agree: a code has a name exactly when it is valid.
pub country_name-is_valid :
    (upper : Text → Text) (code : Text)
    → is_some (country_name upper code) ≡ is_valid_country_code upper code
unfolding is_valid_country_code country_name
country_name-is_valid upper code = find-any (to_upper_case upper code) countries
