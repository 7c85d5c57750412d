-- ===== src/Onboarding/Wizard/Posts.antt =====
-- When a press of the submit button posts a profile.
use scholarmatch_ai.Base.{
  false, List, ◌≡◌, ◌≢◌, ◌↔◌, refl, sym, In, here, there, Bool-cases, inl, inr,
}
use mathlib.Core.Path.{subst}
use scholarmatch_ai.Base.Text.{Text}
use scholarmatch_ai.Onboarding.Types.{StepId, review}
use scholarmatch_ai.Onboarding.Validation.Rules.{Rules}
use scholarmatch_ai.Onboarding.Steps.{first_incomplete_step}
use scholarmatch_ai.Onboarding.Steps.Laws.{IsRequired, first_incomplete_step-review_iff}
use scholarmatch_ai.Onboarding.Serialize.{ProfileWrite}
use scholarmatch_ai.Onboarding.Wizard.{Wizard, Effect, submit_profile, go_to_step, handle_submit}
use scholarmatch_ai.Onboarding.Wizard.Laws.{
  review-cases, handle_submit-posts, handle_submit-refuses,
}

move_ne : (s : StepId) (focus : _) (body : ProfileWrite) → submit_profile body ≢ go_to_step s focus
move_ne s focus body e = cc

module _ (upper : Text → Text) (w : Wizard) where
  posted_idle :
      {body : ProfileWrite}
      → In (submit_profile body) (handle_submit upper w).1
      → w.submitting ≡ false
  posted_idle {body} m = elim (Bool-cases w.submitting) [
    | inl running ↦
        elim (subst (λ (r : _ × List Effect). In (submit_profile body) r.1)
          ((handle_submit-refuses upper w).0 running) m) [ ]
    | inr idle ↦ idle
  ]

  posted_complete :
      {body : ProfileWrite}
      → In (submit_profile body) (handle_submit upper w).1
      → first_incomplete_step upper w.draft ≡ review
  posted_complete {body} m = elim (review-cases (first_incomplete_step upper w.draft)) [
    | inl complete ↦ complete
    | inr early ↦
        elim (subst (λ (r : _ × List Effect). In (submit_profile body) r.1)
          ((handle_submit-refuses upper w).1 (posted_idle m) early) m) [
            | here e ↦ absurd (move_ne _ _ body e)
            | there n ↦ elim n [ ]
          ]
  ]

  -- A press of the submit button at the review posts a profile exactly when no submission is running
  -- and the draft keeps the rules of every required step.
  pub handle_submit-posts_iff :
      ((body : ProfileWrite) × In (submit_profile body) (handle_submit upper w).1)
      ↔ ((w.submitting ≡ false) × ((s : StepId) → IsRequired s → Rules upper s w.draft))
  handle_submit-posts_iff = (
    λ (body, m).
        (posted_idle m, (first_incomplete_step-review_iff upper w.draft).0 (posted_complete m)),
    λ (idle, all).
        let complete = (first_incomplete_step-review_iff upper w.draft).1 all in
        let (body, written, kept, sent) = handle_submit-posts upper w idle complete in
        (
          body,
          subst (λ (r : _ × List Effect). In (submit_profile body) r.1) (sym sent) (here refl),
        ),
  )
