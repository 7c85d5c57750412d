-- ===== src/Onboarding/Tests.antt =====
-- Runs of the onboarding code, and the theorems at a concrete draft and wizard.
use scholarmatch_ai.Base.{
  true, false, [], ◌∷◌, ◌++◌, none, some, ◌≡◌, refl, ◌↔◌, ◌≤◌, ◌<◌, All, arith, length, In,
}
use scholarmatch_ai.Base.Text.{Text, codes}
use scholarmatch_ai.Base.Text.Trim.{trim}
use scholarmatch_ai.Onboarding.Countries.{is_valid_country_code}
use scholarmatch_ai.Onboarding.Types.{
  prefer_not_to_say, OnboardingDraft, empty_draft, StepId, consent, identity, results, review,
}
use scholarmatch_ai.Onboarding.Validation.{is_step_valid}
use scholarmatch_ai.Onboarding.Validation.Rules.{Rules, IfGiven, LengthIn, is_step_valid_iff}
use scholarmatch_ai.Onboarding.Steps.{first_incomplete_step, step_index, step_place, step_of_word}
use scholarmatch_ai.Onboarding.Steps.Laws.{IsRequired, first_incomplete_step-review_iff}
use scholarmatch_ai.Onboarding.Serialize.{ProfileWrite, draft_to_profile_write}
use scholarmatch_ai.Onboarding.Serialize.Skipped.{with_optional, field_of_study_unchecked}
use scholarmatch_ai.Onboarding.Wizard.{
  Wizard, press_submit, submit_profile, clamped_step, handle_submit, step,
}
use scholarmatch_ai.Onboarding.Wizard.Laws.{clamped_step_lem}
use scholarmatch_ai.Onboarding.Wizard.Posts.{handle_submit-posts_iff}
use scholarmatch_ai.Onboarding.Wizard.Runs.{
  mounted, FlagsAgree, Reached, mount, event, Reached-FlagsAgree,
}
use scholarmatch_ai.Onboarding.Wizard.Effects.{Justified, step-Justified}

-- No text of these runs leaves ASCII.
abbrev no_tables : Text → Text
no_tables s = s

abbrev ada : OnboardingDraft
ada = record empty_draft {
  consent_accepted = some true;
  full_name = some (codes " Ada ");
  country_of_residence = some (codes "ke");
  study_level = some (codes "undergraduate");
  gpa = some prefer_not_to_say;
  interests = some (codes " art " ∷ codes " " ∷ []);
  experience_status = some (codes "none");
}

abbrev ada_body : ProfileWrite
ada_body = record {
  full_name = codes "Ada";
  country = codes "KE";
  study_level = codes "undergraduate";
  field_of_study = none;
  gpa = none;
  interests = codes "art" ∷ [];
  goals = none;
}

ada_complete : first_incomplete_step no_tables ada ≡ review
unfolding first_incomplete_step is_step_valid
ada_complete = refl

ada_written : draft_to_profile_write no_tables ada ≡ some ada_body
unfolding draft_to_profile_write
ada_written = refl

resume_tests :
    (first_incomplete_step no_tables empty_draft ≡ consent)
    × (first_incomplete_step no_tables (record ada { gpa = none }) ≡ results)
    × (step_of_word (codes "identity") ≡ some identity)
    × (step_of_word (codes "Identity") ≡ none)
unfolding first_incomplete_step is_step_valid step_of_word
resume_tests = (refl, refl, refl, refl)

kenya : is_valid_country_code no_tables (codes "ke") ≡ true
unfolding is_valid_country_code
kenya = refl

is_step_valid_iff_example :
    (is_step_valid no_tables identity ada ≡ true) ↔ Rules no_tables identity ada
is_step_valid_iff_example = is_step_valid_iff no_tables identity ada

first_incomplete_step-review_iff_example :
    (first_incomplete_step no_tables ada ≡ review)
    ↔ ((s : StepId) → IsRequired s → Rules no_tables s ada)
first_incomplete_step-review_iff_example = first_incomplete_step-review_iff no_tables ada

abbrev fifty : Text
fifty = codes "xxxxxxxxxxxxxxxxxxxxxxxxxxxxxxxxxxxxxxxxxxxxxxxxxx"

-- A text of 202 units.
abbrev long_text : Text
long_text = fifty ++ (fifty ++ (fifty ++ (fifty ++ codes "xx")))

long_text_trimmed : 200 < length (trim long_text)
unfolding trim
long_text_trimmed = omega arith

field_of_study_unchecked_example :
    let d = with_optional ada (some long_text) none none none in
    (first_incomplete_step no_tables d ≡ review)
    × ((body : ProfileWrite) × (draft_to_profile_write no_tables d ≡ some body)
        × (¬ IfGiven (LengthIn 0 200) body.field_of_study))
field_of_study_unchecked_example =
    field_of_study_unchecked no_tables ada long_text none none ada_complete long_text_trimmed

-- The wizard of the complete draft, opened at a step of the URL.
abbrev opened : StepId → Wizard
opened s = mounted ada (some s)

clamp_tests :
    (clamped_step no_tables (opened identity) ≡ identity)
    × (clamped_step no_tables (mounted empty_draft (some review)) ≡ consent)
unfolding clamped_step first_incomplete_step is_step_valid step_index
clamp_tests = (refl, refl)

clamped_step_lem_example :
    (step_place (clamped_step no_tables (opened review))
      ≤ step_place (first_incomplete_step no_tables ada))
    × ((s : StepId)
        → some review ≡ some s
        → step_place s ≤ step_place (first_incomplete_step no_tables ada)
        → clamped_step no_tables (opened review) ≡ s)
    × ((s : StepId)
        → IsRequired s
        → step_place s < step_place (clamped_step no_tables (opened review))
        → Rules no_tables s ada)
clamped_step_lem_example = clamped_step_lem no_tables (opened review)

handle_submit-posts_iff_example :
    ((body : ProfileWrite) × In (submit_profile body) (handle_submit no_tables (opened review)).1)
    ↔ (((opened review).submitting ≡ false) × ((s : StepId) → IsRequired s → Rules no_tables s ada))
handle_submit-posts_iff_example = handle_submit-posts_iff no_tables (opened review)

-- The state after one press of the submit button at the review.
abbrev pressed : Wizard
pressed = (step no_tables (opened review) press_submit).0

submission_test :
    (pressed.submitting ≡ true)
    × ((step no_tables (opened review) press_submit).1 ≡ submit_profile ada_body ∷ [])
    × ((step no_tables pressed press_submit).1 ≡ [])
unfolding step first_incomplete_step is_step_valid draft_to_profile_write step_index
submission_test = (refl, refl, refl)

pressed-Reached : Reached no_tables pressed
pressed-Reached = event (mount ada (some review)) press_submit

Reached-FlagsAgree_example : FlagsAgree pressed
Reached-FlagsAgree_example = Reached-FlagsAgree no_tables pressed pressed-Reached

step-Justified_example :
    All (Justified no_tables (opened review)) (step no_tables (opened review) press_submit).1
step-Justified_example =
    step-Justified no_tables (opened review) press_submit (mount ada (some review))
