-- ===== src/Onboarding/Types.antt =====
-- frontend/app/lib/onboarding/types.ts. An optional field is an `Option`, `none` where it is
-- undefined; a field that the types restrict to a few words is any text, since a stored draft is
-- not checked.
use scholarmatch_ai.Base.{
  ℕ, zero, suc, Bool, true, false, List, Option, none, some, ◌==◌, ==_iff, ◌≡◌, refl, sym, ap, ◌∙◌,
}
use scholarmatch_ai.Base.Text.{Text}
use scholarmatch_ai.Base.Number.{Number}

pub data Disclosure {ℓ} (T : Type ℓ) : Type ℓ where
  provided : T → Disclosure T
  unknown : Disclosure T
  prefer_not_to_say : Disclosure T

abbrev pub is_provided {ℓ} : {T : Type ℓ} → Option (Disclosure T) → Bool
is_provided (some (provided value)) = true
is_provided _ = false

abbrev pub provided_value {ℓ} : {T : Type ℓ} → Option (Disclosure T) → Option T
provided_value (some (provided value)) = some value
provided_value _ = none

pub record OnboardingDraft : Type 0 where
  pub consent_accepted : Option Bool
  pub consent_accepted_at : Option Text
  pub full_name : Option Text
  pub preferred_name : Option Text
  pub pronouns : Option (Disclosure Text)
  pub country_of_residence : Option Text
  pub nationality : Option (Disclosure Text)
  pub study_level : Option Text
  pub field_of_study : Option Text
  pub field_of_study_undecided : Option Bool
  pub gpa : Option (Disclosure Number)
  pub grading_scale_note : Option Text
  pub goals : Option Text
  pub interests : Option (List Text)
  pub experience_status : Option Text
  pub experience_summary : Option Text
  pub accommodations : Option (Disclosure Text)
  pub contact_preference : Option Text

-- The empty draft `{}`.
abbrev pub empty_draft : OnboardingDraft
empty_draft = record {
  consent_accepted = none;
  consent_accepted_at = none;
  full_name = none;
  preferred_name = none;
  pronouns = none;
  country_of_residence = none;
  nationality = none;
  study_level = none;
  field_of_study = none;
  field_of_study_undecided = none;
  gpa = none;
  grading_scale_note = none;
  goals = none;
  interests = none;
  experience_status = none;
  experience_summary = none;
  accommodations = none;
  contact_preference = none;
}

-- The keys of the draft, which field errors go by as well.
pub data DraftField : Type 0 where
  consent_accepted consent_accepted_at full_name preferred_name pronouns : DraftField
  country_of_residence nationality study_level field_of_study field_of_study_undecided : DraftField
  gpa grading_scale_note goals interests experience_status experience_summary : DraftField
  accommodations contact_preference : DraftField

-- Keys are compared by their place among the draft's fields.
unfoldable pub field_key : DraftField → ℕ
field_key consent_accepted = 0
field_key consent_accepted_at = 1
field_key full_name = 2
field_key preferred_name = 3
field_key pronouns = 4
field_key country_of_residence = 5
field_key nationality = 6
field_key study_level = 7
field_key field_of_study = 8
field_key field_of_study_undecided = 9
field_key gpa = 10
field_key grading_scale_note = 11
field_key goals = 12
field_key interests = 13
field_key experience_status = 14
field_key experience_summary = 15
field_key accommodations = 16
field_key contact_preference = 17

unfoldable pub same_field : DraftField → DraftField → Bool
unfolding field_key
same_field f g = field_key f == field_key g

field_at : ℕ → DraftField
field_at zero = DraftField.consent_accepted
field_at (suc zero) = DraftField.consent_accepted_at
field_at (suc (suc zero)) = DraftField.full_name
field_at (suc (suc (suc zero))) = DraftField.preferred_name
field_at (suc (suc (suc (suc zero)))) = DraftField.pronouns
field_at (suc (suc (suc (suc (suc zero))))) = DraftField.country_of_residence
field_at (suc (suc (suc (suc (suc (suc zero)))))) = DraftField.nationality
field_at (suc (suc (suc (suc (suc (suc (suc zero))))))) = DraftField.study_level
field_at (suc (suc (suc (suc (suc (suc (suc (suc zero)))))))) = DraftField.field_of_study
field_at (suc (suc (suc (suc (suc (suc (suc (suc (suc zero))))))))) =
    DraftField.field_of_study_undecided
field_at (suc (suc (suc (suc (suc (suc (suc (suc (suc (suc zero)))))))))) = DraftField.gpa
field_at (suc (suc (suc (suc (suc (suc (suc (suc (suc (suc (suc zero))))))))))) =
    DraftField.grading_scale_note
field_at (suc (suc (suc (suc (suc (suc (suc (suc (suc (suc (suc (suc zero)))))))))))) =
    DraftField.goals
field_at (suc (suc (suc (suc (suc (suc (suc (suc (suc (suc (suc (suc (suc zero))))))))))))) =
    DraftField.interests
field_at (suc (suc (suc (suc (suc (suc (suc (suc (suc (suc (suc (suc (suc (suc zero)))))))))))))) =
    DraftField.experience_status
field_at
      (suc
        (suc (suc (suc (suc (suc (suc (suc (suc (suc (suc (suc (suc (suc (suc zero))))))))))))))) =
    DraftField.experience_summary
field_at
      (suc (
        suc (
          suc
            (suc (suc (suc (suc (suc (suc (suc (suc (suc (suc (suc (suc (suc zero)))))))))))))))) =
    DraftField.accommodations
field_at _ = DraftField.contact_preference

field_at-key : (f : DraftField) → field_at (field_key f) ≡ f
unfolding field_at field_key
field_at-key consent_accepted = refl
field_at-key consent_accepted_at = refl
field_at-key full_name = refl
field_at-key preferred_name = refl
field_at-key pronouns = refl
field_at-key country_of_residence = refl
field_at-key nationality = refl
field_at-key study_level = refl
field_at-key field_of_study = refl
field_at-key field_of_study_undecided = refl
field_at-key gpa = refl
field_at-key grading_scale_note = refl
field_at-key goals = refl
field_at-key interests = refl
field_at-key experience_status = refl
field_at-key experience_summary = refl
field_at-key accommodations = refl
field_at-key contact_preference = refl

pub same_field_sound : (f g : DraftField) → same_field f g ≡ true → f ≡ g
unfolding same_field
same_field_sound f g h =
    sym (field_at-key f) ∙ (ap field_at ((==_iff (field_key f) (field_key g)).0 h) ∙ field_at-key g)

pub same_field_refl : (f : DraftField) → same_field f f ≡ true
unfolding same_field
same_field_refl f = (==_iff (field_key f) (field_key f)).1 refl

-- `StepId` of steps.ts.
pub data StepId : Type 0 where
  consent identity location education field results goals experience preferences review : StepId
