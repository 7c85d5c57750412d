-- ===== src/Onboarding/Wizard/Effects.antt =====
-- What the wizard's events cause in the states of its runs.
use scholarmatch_ai.Base.{
  Bool, true, false, not, Option, none, some, ◌≡◌, refl, sym, All, Option-cases, ◌∙◌, arith,
  Bool-cases, inl, inr,
}
use scholarmatch_ai.Base.Text.{Text}
use scholarmatch_ai.Onboarding.Types.{StepId, review}
use scholarmatch_ai.Onboarding.Serialize.{draft_to_profile_write}
use scholarmatch_ai.Onboarding.Serialize.Contract.{KeepsContract}
use scholarmatch_ai.Onboarding.Steps.{same_step, first_incomplete_step}
use scholarmatch_ai.Onboarding.Validation.{no_errors, validate_step, is_step_valid}
use scholarmatch_ai.Onboarding.Validation.Rules.{Rules, is_step_valid_iff}
use scholarmatch_ai.Onboarding.Wizard.Laws.{
  review-cases, handle_submit-posts, handle_submit-refuses,
}
use scholarmatch_ai.Onboarding.Wizard.{
  Wizard, Effect, save, submit_profile, Event, update, press_submit, press_back, render,
  select_step, navigated, save_settled, submit_settled, clear_settled, complete, handle_back,
  back_disabled, is_at, go_if, clamped_step, Submission, not_running, posting, clearing,
  SubmitResult, succeeded, failed, threw, is_unauthorized, finish_save, finish_submit, finish_clear,
  handle_submit, handle_continue, step,
}
use scholarmatch_ai.Onboarding.Wizard.Runs.{
  is_running, FlagsAgree, if_cases, Reached, Reached-FlagsAgree,
}

module _ (upper : Text → Text) where
  -- What an effect stands for in the state where it is caused.
  abbrev pub Justified : Wizard → Effect → Type 0
  Justified w (save draft s) =
      (w.pending_save ≡ none) × (draft ≡ w.draft) × (s ≡ clamped_step upper w) × Rules upper s draft
  Justified w (submit_profile body) =
      (w.submission ≡ not_running)
      × (first_incomplete_step upper w.draft ≡ review)
      × (draft_to_profile_write upper w.draft ≡ some body)
      × KeepsContract body
  Justified w complete = w.submission ≡ clearing
  Justified w _ = Unit {0}

  free_save : (w : Wizard) → FlagsAgree w → w.advancing ≡ false → w.pending_save ≡ none
  free_save w h free = elim (Option-cases w.pending_save) [
    | inl e ↦ e
    | inr (s, e) ↦ absurd (let flag = h.save_flag in cc)
  ]

  free_submission : (s : Submission) → is_running s ≡ false → s ≡ not_running
  free_submission not_running h = refl
  free_submission posting h = cc
  free_submission clearing h = cc

  idle_submission : (w : Wizard) → FlagsAgree w → w.submitting ≡ false → w.submission ≡ not_running
  idle_submission w h free = free_submission w.submission (sym h.submit_flag ∙ free)

  continue-Justified : (w : Wizard) → FlagsAgree w → All (Justified w) (handle_continue upper w).1
  unfolding handle_continue
  continue-Justified w h =
      let s = clamped_step upper w in
      if_cases (λ r. All (Justified w) r.1) w.advancing (λ busy. tt)
        (λ free.
          if_cases (λ r. All (Justified w) r.1) (not (no_errors (validate_step upper s w.draft)))
            (λ bad. (tt, tt))
            (λ good. (
              (free_save w h free, refl, refl, (is_step_valid_iff upper s w.draft).0 (valid good)),
              tt,
            )))
    where
      valid :
          not (no_errors (validate_step upper (clamped_step upper w) w.draft)) ≡ false
          → is_step_valid upper (clamped_step upper w) w.draft ≡ true
      valid good = unfold is_step_valid in ground arith

  submit-Justified : (w : Wizard) → FlagsAgree w → All (Justified w) (handle_submit upper w).1
  submit-Justified w h = elim (Bool-cases w.submitting) [
    | inl busy ↦ rw ((handle_submit-refuses upper w).0 busy) tt
    | inr free ↦ elim (review-cases (first_incomplete_step upper w.draft)) [
      | inl ready ↦
          let (body, written, kept, posted) = handle_submit-posts upper w free ready in
          rw posted ((idle_submission w h free, ready, written, kept), tt)
      | inr early ↦ rw ((handle_submit-refuses upper w).1 free early) (tt, tt)
    ]
  ]

  go-Justified : (w : Wizard) (s : Option StepId) → All (Justified w) (go_if s)
  go-Justified w none = tt
  go-Justified w (some s) = (tt, tt)

  saved-Justified :
      (w : Wizard) (pending : Option StepId) (settled : Option Bool)
      → All (Justified w) (finish_save w pending settled).1
  unfolding finish_save
  saved-Justified w none settled = tt
  saved-Justified w (some s) none = tt
  saved-Justified w (some s) (some remote) = go-Justified w _

  submitted-Justified :
      (w : Wizard) (submission : Submission) (result : SubmitResult)
      → All (Justified w) (finish_submit w submission result).1
  unfolding finish_submit
  submitted-Justified w not_running result = tt
  submitted-Justified w clearing result = tt
  submitted-Justified w posting succeeded = (tt, tt)
  submitted-Justified w posting (failed error) =
      if_cases (λ r. All (Justified w) r.1) (is_unauthorized error) (λ yes_it. (tt, tt))
        (λ no_it. tt)
  submitted-Justified w posting threw = tt

  cleared-Justified :
      (w : Wizard) (submission : Submission) (done : Bool)
      → w.submission ≡ submission
      → All (Justified w) (finish_clear w submission done).1
  unfolding finish_clear
  cleared-Justified w not_running done e = tt
  cleared-Justified w posting done e = tt
  cleared-Justified w clearing true e = (e, tt)
  cleared-Justified w clearing false e = tt

  event-Justified : (w : Wizard) (e : Event) → FlagsAgree w → All (Justified w) (step upper w e).1
  unfolding step
  event-Justified w (update patch) h = tt
  event-Justified w press_submit h =
      if_cases (λ r. All (Justified w) r.1) (same_step (clamped_step upper w) review)
        (λ last. submit-Justified w h) (λ before. continue-Justified w h)
  event-Justified w press_back h =
      if_cases (λ r. All (Justified w) r.1) (back_disabled upper w) (λ off. tt)
        (λ on. unfold handle_back in go-Justified w _)
  event-Justified w render h =
      if_cases (λ r. All (Justified w) r.1) (is_at (clamped_step upper w) w.url_step) (λ same. tt)
        (λ other. (tt, tt))
  event-Justified w (select_step s) h = (tt, tt)
  event-Justified w (navigated target) h = tt
  event-Justified w (save_settled settled) h = saved-Justified w w.pending_save settled
  event-Justified w (submit_settled result) h = submitted-Justified w w.submission result
  event-Justified w (clear_settled done) h = cleared-Justified w w.submission done refl

  -- Whatever the student does in a reached state: a save starts only while no other is awaited, and
  -- it writes the draft at the step that is shown, whose rules the draft keeps; a profile is posted
  -- only while no submission runs, from a draft that resumes at the review, and its body is the
  -- converted draft, within the contract's bounds but for the field of study; and the wizard
  -- completes only where the clear of the store after a posted profile is awaited.
  pub step-Justified :
      (w : Wizard) (e : Event) → Reached upper w → All (Justified w) (step upper w e).1
  step-Justified w e run = event-Justified w e (Reached-FlagsAgree upper w run)
