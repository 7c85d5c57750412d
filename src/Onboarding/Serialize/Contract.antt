-- ===== src/Onboarding/Serialize/Contract.antt =====
-- A draft that reaches the review can be submitted, and what is submitted keeps the bounds of the
-- wire contract.
use scholarmatch_ai.Base.{
  ℕ, true, false, not, List, [], ◌∷◌, Option, none, some, keep, map, or_else, length, ◌≡◌, refl,
  ◌≤◌, ◌<◌, arith, All, length-keep-le,
}
use scholarmatch_ai.Base.Text.{Text, is_empty, to_upper_case}
use scholarmatch_ai.Base.Text.Trim.{trim, trim-length}
use scholarmatch_ai.Base.Number.{Number}
use scholarmatch_ai.Onboarding.Countries.Laws.{is_alpha2, is_valid_country_code-alpha2}
use scholarmatch_ai.Onboarding.Types.{
  Disclosure, provided, unknown, prefer_not_to_say, provided_value, OnboardingDraft, identity,
  location, education, results, goals, review,
}
use scholarmatch_ai.Onboarding.Validation.{is_study_level}
use scholarmatch_ai.Onboarding.Validation.Rules.{
  IfGiven, IfProvided, Given, LengthIn, IsGpa, IsCountry, InterestsIn, study_level_given,
}
use scholarmatch_ai.Onboarding.Steps.{first_incomplete_step}
use scholarmatch_ai.Onboarding.Steps.Laws.{first_incomplete_step-review_iff}
use scholarmatch_ai.Onboarding.Serialize.{
  ProfileWrite, null_if_empty, trimmed_or_null, write_interests, write_required, write_body,
  map_text, incomplete, draft_to_profile_write,
}

-- The bounds of `ProfileWrite`, but for that of `field_of_study`.
pub record KeepsContract (body : ProfileWrite) : Type 0 where
  pub name_length : LengthIn 1 200 body.full_name
  pub country_code : is_alpha2 body.country ≡ true
  pub known_level : is_study_level body.study_level ≡ true
  pub gpa_range : IfGiven IsGpa body.gpa
  pub interest_count : length body.interests ≤ 50
  pub interest_lengths : All (LengthIn 1 100) body.interests
  pub goals_length : IfGiven (LengthIn 1 4000) body.goals

trimmed_bound :
    (n : ℕ) (o : Option Text)
    → IfGiven (LengthIn 0 n) o
    → IfGiven (LengthIn 1 n) (trimmed_or_null o)
trimmed_bound n none h = tt
trimmed_bound n (some s) h = bound (trim s) (omega (arith, trim-length s))
  where
    bound : (t : Text) → length t ≤ n → IfGiven (LengthIn 1 n) (null_if_empty t)
    bound [] h = tt
    bound (c ∷ t) h = omega arith

interests_bound :
    (xs : List Text)
    → All (λ i. length i ≤ 100) xs
    → All (LengthIn 1 100) (keep (λ i. not (is_empty i)) (map trim xs))
interests_bound [] h = tt
interests_bound (x ∷ xs) (p, h) =
    kept (trim x) (omega (arith, trim-length x)) (interests_bound xs h)
  where
    kept :
        (t : Text)
        → length t ≤ 100
        → All (LengthIn 1 100) (keep (λ i. not (is_empty i)) (map trim xs))
        → All (LengthIn 1 100) (keep (λ i. not (is_empty i)) (t ∷ map trim xs))
    kept [] h rest = rest
    kept (c ∷ t) h rest = (omega arith, rest)

length-map-trim : (xs : List Text) → length (map trim xs) ≡ length xs
length-map-trim [] = refl
length-map-trim (x ∷ xs) = omega (arith, length-map-trim xs)

write_interests-bounds :
    (o : Option (List Text))
    → InterestsIn (or_else o [])
    → (length (write_interests o) ≤ 50) × All (LengthIn 1 100) (write_interests o)
unfolding write_interests
write_interests-bounds o (some_there, at_most, short) = (
  omega (
    arith,
    length-keep-le (λ i. not (is_empty i)) (map trim (or_else o [])),
    length-map-trim (or_else o []),
  ),
  interests_bound (or_else o []) short,
)

complete :
    (n k v : Text) → 0 < length n → 0 < length k → is_empty v ≡ false → incomplete n k v ≡ false
complete (a ∷ n) (b ∷ k) (c ∷ v) p q r = refl
complete [] k v p q r = absurd (omega arith)
complete (a ∷ n) [] v p q r = absurd (omega arith)
complete (a ∷ n) (b ∷ k) [] p q r = absurd (cc)

alpha2_length : (k : Text) → is_alpha2 k ≡ true → 0 < length k
alpha2_length k h = ground arith

module _ (upper : Text → Text) (d : OnboardingDraft) where
  written_texts :
      (fn c l : Option Text)
      → LengthIn 1 200 (trim (or_else fn []))
      → Given (λ t. (0 < length t) × IsCountry upper t) c
      → Given (λ t. is_study_level t ≡ true) l
      → (n k v : Text) × (write_required d (map_text trim fn) (map_text (to_upper_case upper) c) l
          ≡ some (write_body d n k v))
        × LengthIn 1 200 n
        × (is_alpha2 k ≡ true)
        × (is_study_level v ≡ true)
  written_texts (some s) (some c) (some l) hn hc hl =
      let code = is_valid_country_code-alpha2 upper c hc.1 in
      (
        trim s,
        to_upper_case upper c,
        l,
        rw (
            complete (trim s) (to_upper_case upper c) l hn.0 (alpha2_length _ code)
              (study_level_given l hl)),
        hn,
        code,
        hl,
      )
  written_texts none c l hn hc hl = absurd (no_name hn.0)
    where
      no_name : ¬ (1 ≤ length (trim []))
      no_name h = unfold trim in omega arith
  written_texts (some s) none l hn hc hl = absurd hc
  written_texts (some s) (some c) none hn hc hl = absurd hl

  IsGpa-bound :
      (g : Option (Disclosure Number)) → IfProvided IsGpa g → IfGiven IsGpa (provided_value g)
  IsGpa-bound none h = tt
  IsGpa-bound (some (provided x)) h = h
  IsGpa-bound (some unknown) h = tt
  IsGpa-bound (some prefer_not_to_say) h = tt

  pub draft_to_profile_write-KeepsContract :
      first_incomplete_step upper d ≡ review
      → (body : ProfileWrite) × (draft_to_profile_write upper d ≡ some body) × KeepsContract body
  unfolding draft_to_profile_write
  draft_to_profile_write-KeepsContract e =
      let rules = (first_incomplete_step-review_iff upper d).0 e in
      let (n, k, v, written, name, country, level) =
        written_texts d.full_name d.country_of_residence d.study_level (rules identity refl).0
          (rules location refl).0 (rules education refl) in
      let (count, lengths) = write_interests-bounds d.interests (rules goals refl).0 in
      (
        write_body d n k v,
        written,
        record {
          name_length = name;
          country_code = country;
          known_level = level;
          gpa_range = IsGpa-bound d.gpa (rules results refl).1;
          interest_count = count;
          interest_lengths = lengths;
          goals_length = trimmed_bound 4000 d.goals (rules goals refl).1;
        },
      )
