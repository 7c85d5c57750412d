-- ===== src/Onboarding/Patch.antt =====
-- The partial drafts of the wizard's `update` callback in
-- frontend/app/(app)/onboarding/onboarding-wizard.tsx.
use scholarmatch_ai.Base.{Bool, not, List, [], ◌∷◌, Option, keep, any}
use scholarmatch_ai.Base.Text.{Text}
use scholarmatch_ai.Base.Number.{Number}
use scholarmatch_ai.Onboarding.Types.{Disclosure, OnboardingDraft, DraftField, same_field}
use scholarmatch_ai.Onboarding.Validation.{FieldErrors}

-- One entry of a `Partial<OnboardingDraft>`: a key with its new value.
pub data Assign : Type 0 where
  consent_accepted : Option Bool → Assign
  consent_accepted_at : Option Text → Assign
  full_name : Option Text → Assign
  preferred_name : Option Text → Assign
  pronouns : Option (Disclosure Text) → Assign
  country_of_residence : Option Text → Assign
  nationality : Option (Disclosure Text) → Assign
  study_level : Option Text → Assign
  field_of_study : Option Text → Assign
  field_of_study_undecided : Option Bool → Assign
  gpa : Option (Disclosure Number) → Assign
  grading_scale_note : Option Text → Assign
  goals : Option Text → Assign
  interests : Option (List Text) → Assign
  experience_status : Option Text → Assign
  experience_summary : Option Text → Assign
  accommodations : Option (Disclosure Text) → Assign
  contact_preference : Option Text → Assign

abbrev pub key_of : Assign → DraftField
key_of (consent_accepted v) = DraftField.consent_accepted
key_of (consent_accepted_at v) = DraftField.consent_accepted_at
key_of (full_name v) = DraftField.full_name
key_of (preferred_name v) = DraftField.preferred_name
key_of (pronouns v) = DraftField.pronouns
key_of (country_of_residence v) = DraftField.country_of_residence
key_of (nationality v) = DraftField.nationality
key_of (study_level v) = DraftField.study_level
key_of (field_of_study v) = DraftField.field_of_study
key_of (field_of_study_undecided v) = DraftField.field_of_study_undecided
key_of (gpa v) = DraftField.gpa
key_of (grading_scale_note v) = DraftField.grading_scale_note
key_of (goals v) = DraftField.goals
key_of (interests v) = DraftField.interests
key_of (experience_status v) = DraftField.experience_status
key_of (experience_summary v) = DraftField.experience_summary
key_of (accommodations v) = DraftField.accommodations
key_of (contact_preference v) = DraftField.contact_preference

unfoldable pub assign : Assign → OnboardingDraft → OnboardingDraft
assign (consent_accepted v) draft = record draft { consent_accepted = v }
assign (consent_accepted_at v) draft = record draft { consent_accepted_at = v }
assign (full_name v) draft = record draft { full_name = v }
assign (preferred_name v) draft = record draft { preferred_name = v }
assign (pronouns v) draft = record draft { pronouns = v }
assign (country_of_residence v) draft = record draft { country_of_residence = v }
assign (nationality v) draft = record draft { nationality = v }
assign (study_level v) draft = record draft { study_level = v }
assign (field_of_study v) draft = record draft { field_of_study = v }
assign (field_of_study_undecided v) draft = record draft { field_of_study_undecided = v }
assign (gpa v) draft = record draft { gpa = v }
assign (grading_scale_note v) draft = record draft { grading_scale_note = v }
assign (goals v) draft = record draft { goals = v }
assign (interests v) draft = record draft { interests = v }
assign (experience_status v) draft = record draft { experience_status = v }
assign (experience_summary v) draft = record draft { experience_summary = v }
assign (accommodations v) draft = record draft { accommodations = v }
assign (contact_preference v) draft = record draft { contact_preference = v }

-- `{ ...current, ...patch }`
unfoldable pub apply_patch : List Assign → OnboardingDraft → OnboardingDraft
unfolding assign
apply_patch [] draft = draft
apply_patch (a ∷ patch) draft = apply_patch patch (assign a draft)

-- `delete nextErrors[key]` for every key of the patch.
unfoldable pub clear_errors : List Assign → FieldErrors → FieldErrors
unfolding same_field
clear_errors patch errors = keep (λ e. not (any (λ a. same_field (key_of a) e.0) patch)) errors
