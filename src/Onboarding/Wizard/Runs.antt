-- ===== src/Onboarding/Wizard/Runs.antt =====
-- The states that a sequence of events can bring the wizard to.
use scholarmatch_ai.Base.{
  Bool, true, false, not, List, [], Option, none, some, is_some, ◌≡◌, refl, ap, sym, if◌then◌else◌,
  ◌∙◌, Bool-cases, inl, inr,
}
use scholarmatch_ai.Base.Text.{Text}
use scholarmatch_ai.Onboarding.Types.{OnboardingDraft, StepId, review}
use scholarmatch_ai.Onboarding.Serialize.{ProfileWrite, draft_to_profile_write}
use scholarmatch_ai.Onboarding.Steps.{same_step, first_incomplete_step}
use scholarmatch_ai.Onboarding.Validation.{no_errors, validate_step}
use scholarmatch_ai.Onboarding.Wizard.{
  Wizard, Effect, Event, update, press_submit, press_back, render, select_step, navigated,
  save_settled, submit_settled, clear_settled, handle_back, back_disabled, is_at, post_or_fail,
  clamped_step, Submission, not_running, posting, clearing, SubmitResult, succeeded, failed, threw,
  is_unauthorized, finish_save, finish_submit, finish_clear, handle_submit, handle_continue, step,
  idle,
}

-- The component as it mounts: a loaded draft, and the step of the URL.
abbrev pub mounted : OnboardingDraft → Option StepId → Wizard
mounted draft url_step = record {
  draft = draft;
  errors = [];
  save_state = idle;
  advancing = false;
  submitting = false;
  submit_error = none;
  url_step = url_step;
  pending_save = none;
  submission = not_running;
}

abbrev pub is_running : Submission → Bool
is_running not_running = false
is_running _ = true

-- The flags tell what runs.
pub record FlagsAgree (w : Wizard) : Type 0 where
  pub save_flag : w.advancing ≡ is_some w.pending_save
  pub submit_flag : w.submitting ≡ is_running w.submission

pub if_cases :
    (P : Wizard × List Effect → Type 0) (b : Bool) {x y : Wizard × List Effect}
    → (b ≡ true → P x)
    → (b ≡ false → P y)
    → P (if b then x else y)
if_cases P true f g = f refl
if_cases P false f g = g refl

module _ (upper : Text → Text) where
  -- A run from the mounted component, its last event last.
  pub data Reached : Wizard → Type 0 where
    mount : (draft : OnboardingDraft) (url_step : Option StepId) → Reached (mounted draft url_step)
    event : {w : Wizard} → Reached w → (e : Event) → Reached (step upper w e).0

  saved_flags :
      (w : Wizard) (pending : Option StepId) (settled : Option Bool)
      → FlagsAgree w
      → w.pending_save ≡ pending
      → FlagsAgree (finish_save w pending settled).0
  unfolding finish_save
  saved_flags w none settled h e = h
  saved_flags w (some s) none h e = record { save_flag = refl; submit_flag = h.submit_flag }
  saved_flags w (some s) (some remote) h e = record {
    save_flag = refl;
    submit_flag = h.submit_flag;
  }

  submitted_flags :
      (w : Wizard) (submission : Submission) (result : SubmitResult)
      → FlagsAgree w
      → w.submission ≡ submission
      → FlagsAgree (finish_submit w submission result).0
  unfolding finish_submit
  submitted_flags w not_running result h e = h
  submitted_flags w clearing result h e = h
  submitted_flags w posting succeeded h e = record {
    save_flag = h.save_flag;
    submit_flag = h.submit_flag ∙ ap is_running e;
  }
  submitted_flags w posting (failed error) h e = elim (Bool-cases (is_unauthorized error)) [
    | inl yes_it ↦ rw yes_it (record { save_flag = h.save_flag; submit_flag = refl })
    | inr no_it ↦ rw no_it (record { save_flag = h.save_flag; submit_flag = refl })
  ]
  submitted_flags w posting threw h e = record { save_flag = h.save_flag; submit_flag = refl }

  cleared_flags :
      (w : Wizard) (submission : Submission) (done : Bool)
      → FlagsAgree w
      → FlagsAgree (finish_clear w submission done).0
  unfolding finish_clear
  cleared_flags w not_running done h = h
  cleared_flags w posting done h = h
  cleared_flags w clearing true h = record { save_flag = h.save_flag; submit_flag = refl }
  cleared_flags w clearing false h = record { save_flag = h.save_flag; submit_flag = refl }

  continue_flags : (w : Wizard) → FlagsAgree w → FlagsAgree (handle_continue upper w).0
  unfolding handle_continue
  continue_flags w h =
      if_cases (λ r. FlagsAgree r.0) w.advancing (λ busy. h)
        (λ free.
          elim (Bool-cases (no_errors (validate_step upper (clamped_step upper w) w.draft))) [
            | inl good ↦ rw good (record { save_flag = refl; submit_flag = h.submit_flag })
            | inr bad ↦ rw bad (record { save_flag = h.save_flag; submit_flag = h.submit_flag })
          ])

  written_flags :
      (w : Wizard) (body : Option ProfileWrite)
      → FlagsAgree w
      → w.submitting ≡ false
      → FlagsAgree (post_or_fail w body).0
  written_flags w none h free = record {
    save_flag = h.save_flag;
    submit_flag = sym free ∙ h.submit_flag;
  }
  written_flags w (some body) h free = record { save_flag = h.save_flag; submit_flag = refl }

  submit_flags : (w : Wizard) → FlagsAgree w → FlagsAgree (handle_submit upper w).0
  unfolding handle_submit
  submit_flags w h =
      if_cases (λ r. FlagsAgree r.0) w.submitting (λ busy. h)
        (λ free.
          if_cases (λ r. FlagsAgree r.0)
            (not (same_step (first_incomplete_step upper w.draft) review)) (λ early. h)
            (λ ready. written_flags w (draft_to_profile_write upper w.draft) h free))

  step_flags : (w : Wizard) (e : Event) → FlagsAgree w → FlagsAgree (step upper w e).0
  unfolding step
  step_flags w (update patch) h = record { save_flag = h.save_flag; submit_flag = h.submit_flag }
  step_flags w press_submit h =
      if_cases (λ r. FlagsAgree r.0) (same_step (clamped_step upper w) review)
        (λ last. submit_flags w h) (λ before. continue_flags w h)
  step_flags w press_back h =
      if_cases (λ r. FlagsAgree r.0) (back_disabled upper w) (λ off. h)
        (λ on. unfold handle_back in h)
  step_flags w render h =
      if_cases (λ r. FlagsAgree r.0) (is_at (clamped_step upper w) w.url_step) (λ same. h)
        (λ other. h)
  step_flags w (select_step s) h = h
  step_flags w (navigated target) h = record {
    save_flag = h.save_flag;
    submit_flag = h.submit_flag;
  }
  step_flags w (save_settled settled) h = saved_flags w w.pending_save settled h refl
  step_flags w (submit_settled result) h = submitted_flags w w.submission result h refl
  step_flags w (clear_settled done) h = cleared_flags w w.submission done h

  -- In every state that a run reaches, `advancing` is set exactly while a save is awaited, and
  -- `submitting` exactly while a submission is.
  pub Reached-FlagsAgree : (w : Wizard) → Reached w → FlagsAgree w
  Reached-FlagsAgree _ (mount draft url_step) = record { save_flag = refl; submit_flag = refl }
  Reached-FlagsAgree _ (event {w} run e) = step_flags w e (Reached-FlagsAgree w run)
