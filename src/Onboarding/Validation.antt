-- ===== src/Onboarding/Validation.antt =====
-- frontend/app/lib/onboarding/validation.ts
pub mod Rules
use Prim.Native.String.{String}
use scholarmatch_ai.Base.{
  ℕ, Bool, true, false, not, List, [], ◌∷◌, ◌&&◌, ◌||◌, Option, none, some, any, length, ltb,
  if◌then◌else◌, or_else, holds,
}
use scholarmatch_ai.Base.Text.{Text, codes, is_empty, member}
use scholarmatch_ai.Base.Text.Trim.{trim}
use scholarmatch_ai.Base.Number.{Number, is_finite, lt_zero, gt_whole, one_units}
use scholarmatch_ai.Onboarding.Countries.{is_valid_country_code}
use scholarmatch_ai.Onboarding.Types.{
  Disclosure, provided, provided_value, same_field, OnboardingDraft, DraftField, StepId, consent,
  identity, location, education, field, results, goals, experience, preferences, review,
}

-- Messages by field, in the order in which the fields were set.
abbrev pub FieldErrors : Type 0
FieldErrors = List (DraftField × String)

-- `errors[field] = message`: a field that has a message keeps its place.
unfoldable pub set_error : DraftField → String → FieldErrors → FieldErrors
unfolding same_field
set_error f message [] = (f, message) ∷ []
set_error f message ((g, old) ∷ errors) =
    if same_field g f then (f, message) ∷ errors else (g, old) ∷ set_error f message errors

-- `if (failed) errors[field] = message`
abbrev pub check : Bool → DraftField → String → FieldErrors → FieldErrors
check failed f message errors = if failed then set_error f message errors else errors

-- `(text?.length ?? 0) > limit`
abbrev pub longer : ℕ → Option Text → Bool
longer limit = holds (λ s. ltb limit (length s))

abbrev pub study_levels : List Text
study_levels = codes "undergraduate" ∷ codes "postgraduate" ∷ codes "doctoral" ∷ codes "other" ∷ []

abbrev pub experience_statuses : List Text
experience_statuses = codes "has" ∷ codes "none" ∷ codes "unknown" ∷ codes "prefer_not_to_say" ∷ []

unfoldable pub is_study_level : Text → Bool
unfolding member
is_study_level s = member s study_levels

unfoldable pub is_experience_status : Text → Bool
unfolding member
is_experience_status s = member s experience_statuses

abbrev accepted : Option Bool → Bool
accepted (some b) = b
accepted none = false

unfoldable pub validate_consent : OnboardingDraft → FieldErrors
validate_consent draft =
    check (not (accepted draft.consent_accepted)) DraftField.consent_accepted
      "Please confirm you understand how your information is used to continue." []

-- The errors of a text that must be given and has a limit.
abbrev required_text : DraftField → ℕ → String → String → Text → FieldErrors → FieldErrors
required_text f limit missing too_long s errors =
    if is_empty s
    then set_error f missing errors
    else check (ltb limit (length s)) f too_long errors

abbrev pronoun_errors : Option (Disclosure Text) → FieldErrors → FieldErrors
pronoun_errors (some (provided value)) errors =
    required_text DraftField.pronouns 100 "Enter your pronouns, or choose to skip this question."
      "Pronouns must be 100 characters or fewer." (trim value) errors
pronoun_errors _ errors = errors

unfoldable pub validate_identity : OnboardingDraft → FieldErrors
validate_identity draft = pronoun_errors draft.pronouns (
    check (longer 200 draft.preferred_name) DraftField.preferred_name
      "Preferred name must be 200 characters or fewer."
      (required_text DraftField.full_name 200
        "Enter your full name so providers can identify your application."
        "Name must be 200 characters or fewer." (trim (or_else draft.full_name [])) []))

-- `upper` is the case mapping of text that is not ASCII.
unfoldable pub validate_location : (Text → Text) → OnboardingDraft → FieldErrors
validate_location upper draft =
    let country = or_else draft.country_of_residence [] in
    let errors =
      (if is_empty country
        then set_error DraftField.country_of_residence "Select your country of residence." []
        else check (not (is_valid_country_code upper country)) DraftField.country_of_residence
            "Choose a country from the list." []) in
    check (holds (λ v. not (is_valid_country_code upper v)) (provided_value draft.nationality))
      DraftField.nationality "Choose a nationality from the list." errors

unfoldable pub validate_education : OnboardingDraft → FieldErrors
validate_education draft =
    check (not (holds (λ s. not (is_empty s) && is_study_level s) draft.study_level))
      DraftField.study_level "Select the level you are studying at or applying for." []

unfoldable pub validate_field : OnboardingDraft → FieldErrors
validate_field draft =
    if accepted draft.field_of_study_undecided
    then []
    else check (longer 200 draft.field_of_study) DraftField.field_of_study
        "Field of study must be 200 characters or fewer." []

unfoldable pub gpa_out_of_range : Number → Bool
unfolding one_units
gpa_out_of_range value = not (is_finite value) || lt_zero value || gt_whole value 4

abbrev pub gpa_errors : Option (Disclosure Number) → Option Text → FieldErrors
gpa_errors none scale_note =
    set_error DraftField.gpa
      "Choose one option — enter your GPA, or tell us it's unknown or private." []
gpa_errors (some disclosure) scale_note =
    check (longer 200 scale_note) DraftField.grading_scale_note
      "Note must be 200 characters or fewer."
      (check (holds gpa_out_of_range (provided_value (some disclosure))) DraftField.gpa
        "Enter a GPA between 0.0 and 4.0." [])

unfoldable pub validate_results : OnboardingDraft → FieldErrors
validate_results draft = gpa_errors draft.gpa draft.grading_scale_note

abbrev pub interest_errors : List Text → FieldErrors
interest_errors [] =
    set_error DraftField.interests "Add at least one interest so we can match your goals." []
interest_errors (x ∷ xs) =
    if ltb 50 (length (x ∷ xs))
    then set_error DraftField.interests "Add up to 50 interests." []
    else check (any (λ i. ltb 100 (length i)) (x ∷ xs)) DraftField.interests
        "Each interest must be 100 characters or fewer." []

unfoldable pub validate_goals : OnboardingDraft → FieldErrors
validate_goals draft =
    check (longer 4000 draft.goals) DraftField.goals "Goals must be 4000 characters or fewer."
      (interest_errors (or_else draft.interests []))

unfoldable pub validate_experience : OnboardingDraft → FieldErrors
validate_experience draft =
    check (longer 2000 draft.experience_summary) DraftField.experience_summary
      "Summary must be 2000 characters or fewer."
      (check (not (holds (λ s. not (is_empty s) && is_experience_status s) draft.experience_status))
        DraftField.experience_status "Choose the option that best describes your experience." [])

unfoldable pub validate_preferences : OnboardingDraft → FieldErrors
validate_preferences draft =
    check (longer 2000 (provided_value draft.accommodations)) DraftField.accommodations
      "Please keep this under 2000 characters."
      (check (holds (λ v. is_empty (trim v)) (provided_value draft.accommodations))
        DraftField.accommodations
        "Describe the support you'd like, or choose to skip this question." [])

-- `STEP_VALIDATORS` has no entry for the review.
unfoldable pub validate_step : (Text → Text) → StepId → OnboardingDraft → FieldErrors
unfolding validate_consent validate_identity validate_location validate_education validate_field
    validate_results validate_goals validate_experience validate_preferences set_error trim
    is_valid_country_code is_study_level is_experience_status gpa_out_of_range
validate_step upper consent draft = validate_consent draft
validate_step upper identity draft = validate_identity draft
validate_step upper location draft = validate_location upper draft
validate_step upper education draft = validate_education draft
validate_step upper field draft = validate_field draft
validate_step upper results draft = validate_results draft
validate_step upper goals draft = validate_goals draft
validate_step upper experience draft = validate_experience draft
validate_step upper preferences draft = validate_preferences draft
validate_step upper review draft = []

-- `Object.keys(errors).length === 0`
abbrev pub no_errors : FieldErrors → Bool
no_errors [] = true
no_errors (e ∷ es) = false

unfoldable pub is_step_valid : (Text → Text) → StepId → OnboardingDraft → Bool
unfolding validate_step
is_step_valid upper step draft = no_errors (validate_step upper step draft)
