-- ===== src/Onboarding/Validation/Rules.antt =====
-- What a valid step says of the draft: a description of each step's rules that does not mention
-- the error messages, and its agreement with the validators.
use Prim.Native.String.{String}
use scholarmatch_ai.Base.{
  ℕ, Bool, true, false, not, List, [], ◌∷◌, ◌&&◌, Option, none, some, any, length, ltb, ◌*◌,
  or_else, holds, ◌≡◌, ◌≢◌, refl, ◌≤◌, ◌<◌, ◌↔◌, arith, All, ◌⊎◌,
}
use scholarmatch_ai.Base.Text.{Text, is_empty}
use scholarmatch_ai.Base.Text.Trim.{trim}
use scholarmatch_ai.Base.Number.{Number, nan, infinite, finite, one_units}
use scholarmatch_ai.Onboarding.Countries.{is_valid_country_code}
use scholarmatch_ai.Onboarding.Types.{
  Disclosure, provided, unknown, prefer_not_to_say, OnboardingDraft, DraftField, StepId, consent,
  identity, location, education, field, results, goals, experience, preferences, review,
}
use scholarmatch_ai.Onboarding.Validation.{
  FieldErrors, set_error, check, longer, no_errors, is_step_valid, is_study_level,
  is_experience_status, gpa_out_of_range, validate_consent, validate_identity, validate_location,
  validate_education, validate_field, validate_results, validate_goals, validate_experience,
  validate_preferences, gpa_errors, interest_errors,
}

-- A property of the value, if there is one; of the answer, if one is provided.
abbrev pub IfGiven {ℓ} : {T : Type ℓ} → (T → Type 0) → Option T → Type 0
IfGiven P none = Unit {0}
IfGiven P (some value) = P value

abbrev pub IfProvided {ℓ} : {T : Type ℓ} → (T → Type 0) → Option (Disclosure T) → Type 0
IfProvided P (some (provided value)) = P value
IfProvided P _ = Unit {0}

abbrev pub Given {ℓ} : {T : Type ℓ} → (T → Type 0) → Option T → Type 0
Given P none = ⊥
Given P (some value) = P value

abbrev pub LengthIn : ℕ → ℕ → Text → Type 0
LengthIn lo hi s = (lo ≤ length s) × (length s ≤ hi)

-- A grade point average from zero to four, minus zero included.
abbrev pub IsGpa : Number → Type 0
IsGpa nan = ⊥
IsGpa (infinite sign) = ⊥
IsGpa (finite true units) = units ≡ 0
IsGpa (finite false units) = units ≤ 4 * one_units

-- The interests: one to fifty, each of at most a hundred units.
abbrev pub InterestsIn : List Text → Type 0
InterestsIn xs = (0 < length xs) × (length xs ≤ 50) × All (λ i. length i ≤ 100) xs

module _ (upper : Text → Text) where
  abbrev pub IsCountry : Text → Type 0
  IsCountry code = is_valid_country_code upper code ≡ true

  -- The rules of each step.
  abbrev pub Rules : StepId → OnboardingDraft → Type 0
  Rules consent d = d.consent_accepted ≡ some true
  Rules identity d =
      LengthIn 1 200 (trim (or_else d.full_name []))
      × IfGiven (LengthIn 0 200) d.preferred_name
      × IfProvided (λ v. LengthIn 1 100 (trim v)) d.pronouns
  Rules location d =
      Given (λ c. (0 < length c) × IsCountry c) d.country_of_residence
      × IfProvided IsCountry d.nationality
  Rules education d = Given (λ s. is_study_level s ≡ true) d.study_level
  Rules field d =
      (d.field_of_study_undecided ≡ some true) ⊎ IfGiven (LengthIn 0 200) d.field_of_study
  Rules results d =
      (d.gpa ≢ none) × IfProvided IsGpa d.gpa × IfGiven (LengthIn 0 200) d.grading_scale_note
  Rules goals d = InterestsIn (or_else d.interests []) × IfGiven (LengthIn 0 4000) d.goals
  Rules experience d =
      Given (λ s. is_experience_status s ≡ true) d.experience_status
      × IfGiven (LengthIn 0 2000) d.experience_summary
  Rules preferences d = IfProvided (λ v. (0 < length (trim v)) × (length v ≤ 2000)) d.accommodations
  Rules review d = Unit {0}

set_error_errs :
    (f : DraftField) (m : String) (es : FieldErrors) → no_errors (set_error f m es) ≡ false
unfolding set_error
set_error_errs f m [] = refl
set_error_errs f m ((g, old) ∷ es) = ground arith

no_errors-check :
    (failed : Bool) (f : DraftField) (m : String) (es : FieldErrors)
    → no_errors (check failed f m es) ≡ (not failed && no_errors es)
no_errors-check true f m es = set_error_errs f m es
no_errors-check false f m es = refl

empty_length : (s : Text) → (is_empty s ≡ false) ↔ (0 < length s)
empty_length [] = ground arith
empty_length (c ∷ s) = ground arith

longer_iff : (n : ℕ) (o : Option Text) → (longer n o ≡ false) ↔ IfGiven (LengthIn 0 n) o
longer_iff n none = ground arith
longer_iff n (some s) = ground arith

IsGpa-iff : (x : Number) → (gpa_out_of_range x ≡ false) ↔ IsGpa x
unfolding gpa_out_of_range
IsGpa-iff nan = ground arith
IsGpa-iff (infinite sign) = ground arith
IsGpa-iff (finite true units) = ground arith
IsGpa-iff (finite false units) = ground arith

any-All :
    (n : ℕ) (xs : List Text) → (any (λ i. ltb n (length i)) xs ≡ false) ↔ All (λ i. length i ≤ n) xs
any-All n [] = ground arith
any-All n (x ∷ xs) = ground (arith, any-All n xs)

consent_iff :
    (u : Text → Text) (d : OnboardingDraft)
    → (no_errors (validate_consent d) ≡ true) ↔ Rules u consent d
unfolding validate_consent set_error
consent_iff u d = ground arith

identity_iff :
    (u : Text → Text) (d : OnboardingDraft)
    → (no_errors (validate_identity d) ≡ true) ↔ Rules u identity d
unfolding validate_identity set_error
identity_iff u d = ground arith

location_iff :
    (u : Text → Text) (d : OnboardingDraft)
    → (no_errors (validate_location u d) ≡ true) ↔ Rules u location d
unfolding validate_location set_error
location_iff u d = ground arith

pub study_level_given : (s : Text) → is_study_level s ≡ true → is_empty s ≡ false
unfolding is_study_level
study_level_given [] h = cc
study_level_given (c ∷ s) h = refl

experience_status_given : (s : Text) → is_experience_status s ≡ true → is_empty s ≡ false
unfolding is_experience_status
experience_status_given [] h = cc
experience_status_given (c ∷ s) h = refl

-- A choice that must be given: no empty text passes the test.
choice_iff :
    (p : Text → Bool)
    → ((s : Text) → p s ≡ true → is_empty s ≡ false)
    → (o : Option Text)
    → (holds (λ s. not (is_empty s) && p s) o ≡ true) ↔ Given (λ s. p s ≡ true) o
choice_iff p h none = ground arith
choice_iff p h (some s) = ground (arith, h s)

gpa_errors_iff :
    (g : Option (Disclosure Number)) (scale_note : Option Text)
    → (no_errors (gpa_errors g scale_note) ≡ true)
      ↔ ((g ≢ none) × IfProvided IsGpa g × IfGiven (LengthIn 0 200) scale_note)
unfolding set_error
gpa_errors_iff none n = ground arith
gpa_errors_iff (some (provided x)) n = ground (arith, IsGpa-iff x)
gpa_errors_iff (some unknown) n = ground arith
gpa_errors_iff (some prefer_not_to_say) n = ground arith

interest_errors_iff : (xs : List Text) → (no_errors (interest_errors xs) ≡ true) ↔ InterestsIn xs
unfolding set_error
interest_errors_iff [] = ground arith
interest_errors_iff (x ∷ xs) = ground (arith, any-All 100 xs)

education_iff :
    (u : Text → Text) (d : OnboardingDraft)
    → (no_errors (validate_education d) ≡ true) ↔ Rules u education d
unfolding validate_education set_error
education_iff u d = ground (arith, choice_iff is_study_level study_level_given d.study_level)

field_iff :
    (u : Text → Text) (d : OnboardingDraft)
    → (no_errors (validate_field d) ≡ true) ↔ Rules u field d
unfolding validate_field set_error
field_iff u d = ground arith

results_iff :
    (u : Text → Text) (d : OnboardingDraft)
    → (no_errors (validate_results d) ≡ true) ↔ Rules u results d
unfolding validate_results set_error
results_iff u d = gpa_errors_iff d.gpa d.grading_scale_note

goals_iff :
    (u : Text → Text) (d : OnboardingDraft)
    → (no_errors (validate_goals d) ≡ true) ↔ Rules u goals d
unfolding validate_goals
goals_iff u d = ground (
  arith,
  interest_errors_iff (or_else d.interests []),
  set_error_errs DraftField.goals "Goals must be 4000 characters or fewer."
      (interest_errors (or_else d.interests [])),
  longer_iff 4000 d.goals,
)

experience_iff :
    (u : Text → Text) (d : OnboardingDraft)
    → (no_errors (validate_experience d) ≡ true) ↔ Rules u experience d
unfolding validate_experience set_error
experience_iff u d =
    ground (arith, choice_iff is_experience_status experience_status_given d.experience_status)

preferences_iff :
    (u : Text → Text) (d : OnboardingDraft)
    → (no_errors (validate_preferences d) ≡ true) ↔ Rules u preferences d
unfolding validate_preferences set_error
preferences_iff u d = ground arith

-- A step is valid, so that its validator reports no error, exactly when the draft keeps the step's
-- rules.
pub is_step_valid_iff :
    (upper : Text → Text) (step : StepId) (d : OnboardingDraft)
    → (is_step_valid upper step d ≡ true) ↔ Rules upper step d
unfolding is_step_valid
is_step_valid_iff u consent d = consent_iff u d
is_step_valid_iff u identity d = identity_iff u d
is_step_valid_iff u location d = location_iff u d
is_step_valid_iff u education d = education_iff u d
is_step_valid_iff u field d = field_iff u d
is_step_valid_iff u results d = results_iff u d
is_step_valid_iff u goals d = goals_iff u d
is_step_valid_iff u experience d = experience_iff u d
is_step_valid_iff u preferences d = preferences_iff u d
is_step_valid_iff u review d = ground arith
