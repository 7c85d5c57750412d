-- ===== src/Onboarding/Serialize.antt =====
-- frontend/app/lib/onboarding/serialize.ts
pub mod Contract
pub mod Skipped
use scholarmatch_ai.Base.{
  ℕ, Bool, true, false, not, List, [], ◌∷◌, Option, none, some, keep, map, if◌then◌else◌, or_else,
}
use scholarmatch_ai.Base.Text.{Text, is_empty, to_upper_case}
use scholarmatch_ai.Base.Text.Trim.{trim}
use scholarmatch_ai.Base.Number.{Number}
use scholarmatch_ai.Onboarding.Types.{OnboardingDraft, provided_value}

-- The body of `PUT /profile`; `none` is `null`.
pub record ProfileWrite : Type 0 where
  pub full_name : Text
  pub country : Text
  pub study_level : Text
  pub field_of_study : Option Text
  pub gpa : Option Number
  pub interests : List Text
  pub goals : Option Text

-- `s && s.length > 0 ? s : null`
abbrev pub null_if_empty : Text → Option Text
null_if_empty [] = none
null_if_empty (c ∷ s) = some (c ∷ s)

abbrev pub trimmed_or_null : Option Text → Option Text
trimmed_or_null none = none
trimmed_or_null (some s) = null_if_empty (trim s)

abbrev pub write_field_of_study : OnboardingDraft → Option Text
write_field_of_study draft =
    if or_else draft.field_of_study_undecided false
    then none
    else trimmed_or_null draft.field_of_study

unfoldable pub write_interests : Option (List Text) → List Text
unfolding trim
write_interests interests = keep (λ i. not (is_empty i)) (map trim (or_else interests []))

-- The body, once the three required texts are there.
abbrev pub write_body : OnboardingDraft → Text → Text → Text → ProfileWrite
write_body draft full_name country study_level = record {
  full_name = full_name;
  country = country;
  study_level = study_level;
  field_of_study = write_field_of_study draft;
  gpa = provided_value draft.gpa;
  interests = write_interests draft.interests;
  goals = trimmed_or_null draft.goals;
}

-- `!fullName || !country || !studyLevel` on values that are not undefined.
abbrev pub incomplete : Text → Text → Text → Bool
incomplete (_ ∷ _) (_ ∷ _) (_ ∷ _) = false
incomplete _ _ _ = true

abbrev pub write_required :
    OnboardingDraft → Option Text → Option Text → Option Text → Option ProfileWrite
write_required draft (some full_name) (some country) (some study_level) =
    if incomplete full_name country study_level
    then none
    else some (write_body draft full_name country study_level)
write_required draft _ _ _ = none

abbrev pub map_text : (Text → Text) → Option Text → Option Text
map_text f none = none
map_text f (some s) = some (f s)

-- `none` where the function throws.
unfoldable pub draft_to_profile_write : (Text → Text) → OnboardingDraft → Option ProfileWrite
unfolding write_interests
draft_to_profile_write upper draft =
    write_required draft (map_text trim draft.full_name)
      (map_text (to_upper_case upper) draft.country_of_residence) draft.study_level
