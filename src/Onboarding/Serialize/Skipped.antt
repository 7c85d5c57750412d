-- ===== src/Onboarding/Serialize/Skipped.antt =====
-- The answers of the optional steps do not count for the resume point, so that their limits are
-- not checked before a submission.
use scholarmatch_ai.Base.{Bool, [], ◌∷◌, Option, none, some, length, ◌≡◌, refl, ◌<◌, arith, ◌∙◌}
use scholarmatch_ai.Base.Text.{Text}
use scholarmatch_ai.Base.Text.Trim.{trim}
use scholarmatch_ai.Onboarding.Types.{Disclosure, OnboardingDraft, review}
use scholarmatch_ai.Onboarding.Validation.{is_step_valid}
use scholarmatch_ai.Onboarding.Validation.Rules.{IfGiven, LengthIn}
use scholarmatch_ai.Onboarding.Steps.{first_incomplete_step}
use scholarmatch_ai.Onboarding.Serialize.{
  ProfileWrite, null_if_empty, write_required, write_field_of_study, draft_to_profile_write,
}
use scholarmatch_ai.Onboarding.Serialize.Contract.{draft_to_profile_write-KeepsContract}

-- The draft with other answers at the steps `field` and `preferences`.
abbrev pub with_optional :
    OnboardingDraft
    → Option Text
    → Option Bool
    → Option (Disclosure Text)
    → Option Text
    → OnboardingDraft
with_optional d field_of_study undecided accommodations contact = record d {
  field_of_study = field_of_study;
  field_of_study_undecided = undecided;
  accommodations = accommodations;
  contact_preference = contact;
}

required_field :
    (d : OnboardingDraft) (n k v : Option Text) (body : ProfileWrite)
    → write_required d n k v ≡ some body
    → body.field_of_study ≡ write_field_of_study d
required_field d (some n) (some k) (some v) body e = ground arith
required_field d none k v body e = cc
required_field d (some n) none v body e = cc
required_field d (some n) (some k) none body e = cc

field_of_study_written :
    (upper : Text → Text) (d : OnboardingDraft) (body : ProfileWrite)
    → draft_to_profile_write upper d ≡ some body
    → body.field_of_study ≡ write_field_of_study d
unfolding draft_to_profile_write
field_of_study_written upper d body e = required_field d _ _ _ body e

module _ (upper : Text → Text) (d : OnboardingDraft) where
  -- Whatever the optional steps hold, valid or not, the resume point is the same.
  pub first_incomplete_step-with_optional :
      (field_of_study : Option Text) (undecided : Option Bool)
      (accommodations : Option (Disclosure Text)) (contact : Option Text)
      → first_incomplete_step upper
          (with_optional d field_of_study undecided accommodations contact)
        ≡ first_incomplete_step upper d
  unfolding first_incomplete_step is_step_valid
  first_incomplete_step-with_optional f u a c = refl

  too_long : (t : Text) → 200 < length t → ¬ IfGiven (LengthIn 0 200) (null_if_empty t)
  too_long [] h bound = absurd (omega arith)
  too_long (c ∷ t) h bound = omega arith

  -- A complete draft whose field of study, trimmed, is longer than the 200 units of its step and of
  -- the contract still counts as complete, and the conversion gives a body whose field of study is
  -- over that limit.
  pub field_of_study_unchecked :
      (s : Text) (a : Option (Disclosure Text)) (contact : Option Text)
      → first_incomplete_step upper d ≡ review
      → 200 < length (trim s)
      → let d' = with_optional d (some s) none a contact in
        (first_incomplete_step upper d' ≡ review)
        × ((body : ProfileWrite) × (draft_to_profile_write upper d' ≡ some body)
            × (¬ IfGiven (LengthIn 0 200) body.field_of_study))
  field_of_study_unchecked s a contact e h =
      let d' = with_optional d (some s) none a contact in
      let e' = first_incomplete_step-with_optional (some s) none a contact ∙ e in
      let (body, written, _) = draft_to_profile_write-KeepsContract upper d' e' in
      (e', (body, written, rw (field_of_study_written upper d' body written) (too_long (trim s) h)))
