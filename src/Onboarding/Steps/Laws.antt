-- ===== src/Onboarding/Steps/Laws.antt =====
-- Where a draft may resume, in terms of the rules of the steps.
use scholarmatch_ai.Base.{Bool, true, false, some, ◌≡◌, refl, ◌<◌, arith, ◌↔◌, inl, inr, ◌⊎◌}
use scholarmatch_ai.Base.Text.{Text}
use scholarmatch_ai.Onboarding.Types.{
  OnboardingDraft, StepId, consent, identity, location, education, field, results, goals,
  experience, preferences, review,
}
use scholarmatch_ai.Onboarding.Validation.{is_step_valid}
use scholarmatch_ai.Onboarding.Validation.Rules.{Rules, is_step_valid_iff}
use scholarmatch_ai.Onboarding.Steps.{step_place, step_index, first_incomplete_step}

-- The steps that cannot be skipped: all but the optional ones and the review.
abbrev pub is_required : StepId → Bool
is_required consent = true
is_required identity = true
is_required location = true
is_required education = true
is_required field = false
is_required results = true
is_required goals = true
is_required experience = true
is_required preferences = false
is_required review = false

abbrev pub IsRequired : StepId → Type 0
IsRequired s = is_required s ≡ true

pub step_index-place : (s : StepId) → step_index s ≡ some (step_place s)
unfolding step_index
step_index-place consent = refl
step_index-place identity = refl
step_index-place location = refl
step_index-place education = refl
step_index-place field = refl
step_index-place results = refl
step_index-place goals = refl
step_index-place experience = refl
step_index-place preferences = refl
step_index-place review = refl

module _ (upper : Text → Text) (d : OnboardingDraft) where
  stops_at :
      let r = first_incomplete_step upper d in
      (r ≡ review) ⊎ (IsRequired r × (is_step_valid upper r d ≡ false))
  unfolding first_incomplete_step
  stops_at = ground arith

  passes :
      (s : StepId)
      → IsRequired s
      → step_place s < step_place (first_incomplete_step upper d)
      → is_step_valid upper s d ≡ true
  unfolding first_incomplete_step
  passes consent q h = ground arith
  passes _ q h = ground arith

  review_last : (s : StepId) → IsRequired s → step_place s < step_place review
  review_last consent q = omega arith
  review_last identity q = omega arith
  review_last location q = omega arith
  review_last education q = omega arith
  review_last field q = omega arith
  review_last results q = omega arith
  review_last goals q = omega arith
  review_last experience q = omega arith
  review_last preferences q = omega arith
  review_last review q = cc

  breaks : (s : StepId) → is_step_valid upper s d ≡ false → ¬ Rules upper s d
  breaks s h rules = let valid = (is_step_valid_iff upper s d).1 rules in cc

  -- The resume point is the review, or a required step whose rules the draft breaks; and the draft
  -- keeps the rules of every required step before it.
  pub first_incomplete_step_lem :
      let r = first_incomplete_step upper d in
      ((r ≡ review) ⊎ (IsRequired r × (¬ Rules upper r d)))
      × ((s : StepId) → IsRequired s → step_place s < step_place r → Rules upper s d)
  first_incomplete_step_lem = (
    elim stops_at [ inl e ↦ inl e | inr (required, invalid) ↦ inr (required, breaks _ invalid) ],
    λ s required before. (is_step_valid_iff upper s d).0 (passes s required before),
  )

  -- A draft resumes at the review exactly when it keeps the rules of every required step.
  pub first_incomplete_step-review_iff :
      (first_incomplete_step upper d ≡ review) ↔ ((s : StepId) → IsRequired s → Rules upper s d)
  first_incomplete_step-review_iff = (
    λ e s required. first_incomplete_step_lem.1 s required (rw e (review_last s required)),
    λ all. elim first_incomplete_step_lem.0 [
      | inl e ↦ e
      | inr (required, broken) ↦ absurd (broken (all _ required))
    ],
  )
