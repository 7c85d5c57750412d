-- ===== src/Onboarding/Wizard/Laws.antt =====
-- What the wizard shows and sends.
use scholarmatch_ai.Base.{
  true, false, [], ◌∷◌, Option, none, some, leb, ◌≡◌, ◌≢◌, refl, ◌≤◌, ◌<◌, arith, Bool-cases, inl,
  inr, ◌⊎◌, some_inj, ap,
}
use scholarmatch_ai.Base.Text.{Text}
use scholarmatch_ai.Onboarding.Types.{StepId, review}
use scholarmatch_ai.Onboarding.Validation.Rules.{Rules}
use scholarmatch_ai.Onboarding.Steps.{step_index, step_place, first_incomplete_step, same_step}
use scholarmatch_ai.Onboarding.Steps.Laws.{IsRequired, step_index-place, first_incomplete_step_lem}
use scholarmatch_ai.Onboarding.Serialize.{ProfileWrite, draft_to_profile_write}
use scholarmatch_ai.Onboarding.Serialize.Contract.{
  KeepsContract, draft_to_profile_write-KeepsContract,
}
use scholarmatch_ai.Onboarding.Wizard.{
  Wizard, submit_profile, go_to_step, clamped_step, handle_submit, index_le, posting,
}

index_le_places :
    (s t : StepId) → index_le (step_index s) (step_index t) ≡ leb (step_place s) (step_place t)
index_le_places s t = rw (step_index-place s, step_index-place t)

beyond :
    (t s r : StepId)
    → leb (step_place t) (step_place r) ≡ false
    → some t ≡ some s
    → step_place s ≤ step_place r
    → ⊥
beyond t s r past e h = let same : t ≡ s = some_inj e in ground (arith, ap step_place same)

module _ (upper : Text → Text) (w : Wizard) where
  clamped_at :
      (target : Option StepId)
      → w.url_step ≡ target
      → (step_place (clamped_step upper w) ≤ step_place (first_incomplete_step upper w.draft))
        × ((s : StepId)
            → target ≡ some s
            → step_place s ≤ step_place (first_incomplete_step upper w.draft)
            → clamped_step upper w ≡ s)
  unfolding clamped_step
  clamped_at none e = (rw e (omega arith), λ s e'. absurd (cc))
  clamped_at (some t) e =
      let r = first_incomplete_step upper w.draft in
      elim (Bool-cases (leb (step_place t) (step_place r))) [
        | inl within ↦ rw (e, index_le_places t r, within) (ground arith, λ s e' h. some_inj e')
        | inr past ↦
            rw (e, index_le_places t r, past)
              (omega arith, λ s e' h. absurd (beyond t s r past e' h))
      ]

  -- The step that is shown is never past the resume point, whatever step the URL asks for; and a
  -- step that is not past it is shown as asked. So the draft keeps the rules of every required
  -- step before the one that is shown.
  pub clamped_step_lem :
      (step_place (clamped_step upper w) ≤ step_place (first_incomplete_step upper w.draft))
      × ((s : StepId)
          → w.url_step ≡ some s
          → step_place s ≤ step_place (first_incomplete_step upper w.draft)
          → clamped_step upper w ≡ s)
      × ((s : StepId)
          → IsRequired s
          → step_place s < step_place (clamped_step upper w)
          → Rules upper s w.draft)
  clamped_step_lem =
      let (bound, kept) = clamped_at w.url_step refl in
      (
        bound,
        kept,
        λ s required before. (first_incomplete_step_lem upper w.draft).1 s required (omega arith),
      )

-- What `handleSubmit` does to a draft that resumes at the review while nothing is submitted: it posts
-- the converted draft, which is within the contract's bounds but for the field of study, and marks
-- the submission as running.
pub handle_submit-posts :
    (upper : Text → Text) (w : Wizard)
    → w.submitting ≡ false
    → first_incomplete_step upper w.draft ≡ review
    → (body : ProfileWrite) × (draft_to_profile_write upper w.draft ≡ some body)
      × KeepsContract body
      × (handle_submit upper w ≡ (
        record w { submit_error = none; submitting = true; submission = posting },
        submit_profile body ∷ [],
      ))
unfolding handle_submit
handle_submit-posts upper w idle complete =
    let (body, written, kept) = draft_to_profile_write-KeepsContract upper w.draft complete in
    (body, written, kept, rw (idle, complete, written))

pub review-cases : (s : StepId) → (s ≡ review) ⊎ (s ≢ review)
review-cases review = inl refl
review-cases _ = inr (λ e. cc)

same_step-review : (s : StepId) → s ≢ review → same_step s review ≡ false
unfolding same_step
same_step-review review h = absurd (h refl)
same_step-review _ h = refl

-- A press while a submission runs, or on a draft that is not complete, posts nothing: the form goes
-- to the first incomplete step in the second case.
pub handle_submit-refuses :
    (upper : Text → Text) (w : Wizard)
    → (w.submitting ≡ true → handle_submit upper w ≡ (w, []))
      × (w.submitting ≡ false
          → first_incomplete_step upper w.draft ≢ review
          → handle_submit upper w
            ≡ (w, go_to_step (first_incomplete_step upper w.draft) false ∷ []))
unfolding handle_submit
handle_submit-refuses upper w = (
  λ running. rw running refl,
  λ idle early. rw (idle, same_step-review (first_incomplete_step upper w.draft) early) refl,
)
