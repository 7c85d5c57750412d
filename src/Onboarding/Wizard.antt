-- ===== src/Onboarding/Wizard.antt =====
-- frontend/app/(app)/onboarding/onboarding-wizard.tsx: the state of the wizard and its handlers. An
-- `await` cuts a handler in two: the first part runs at the event, the rest when the promise
-- settles, with the values that the first part had captured.
pub mod Laws
pub mod Posts
pub mod Runs
pub mod Effects
use scholarmatch_ai.Base.{
  ℕ, zero, suc, ◌-◌, Bool, true, false, not, List, [], ◌∷◌, ◌||◌, Option, none, some, if◌then◌else◌,
  get_elem?, leb, ◌==◌,
}
use scholarmatch_ai.Base.Text.{Text}
use scholarmatch_ai.Api.Errors.{ApiErrorKind, unauthorized, ApiError}
use scholarmatch_ai.Onboarding.Types.{OnboardingDraft, StepId, review}
use scholarmatch_ai.Onboarding.Validation.{FieldErrors, no_errors, validate_step}
use scholarmatch_ai.Onboarding.Steps.{step_order, step_index, first_incomplete_step, same_step}
use scholarmatch_ai.Onboarding.Serialize.{ProfileWrite, draft_to_profile_write}
use scholarmatch_ai.Onboarding.Patch.{Assign, apply_patch, clear_errors}

pub data SaveState : Type 0 where
  idle saving saved local_only : SaveState

-- The error of a submission that the form shows.
pub data SubmitError : Type 0 where
  api : ApiError → SubmitError
  unexpected : SubmitError

-- Where a submission stands that has not settled: waiting for `submitProfile` or `store.clear`.
pub data Submission : Type 0 where
  not_running posting clearing : Submission

-- The component's state; `url_step` is `navigation.currentStep`, and the last two fields are the
-- suspended handlers: the step that a running save has captured, and the running submission.
pub record Wizard : Type 0 where
  pub draft : OnboardingDraft
  pub errors : FieldErrors
  pub save_state : SaveState
  pub advancing : Bool
  pub submitting : Bool
  pub submit_error : Option SubmitError
  pub url_step : Option StepId
  pub pending_save : Option StepId
  pub submission : Submission

pub data Effect : Type 0 where
  go_to_step : StepId → Bool → Effect
  save : OnboardingDraft → StepId → Effect
  submit_profile : ProfileWrite → Effect
  clear_store complete session_expired focus_first_error : Effect

-- How a call of `submitProfile` settles.
pub data SubmitResult : Type 0 where
  succeeded : SubmitResult
  failed : ApiError → SubmitResult
  threw : SubmitResult

pub data Event : Type 0 where
  update : List Assign → Event
  press_submit press_back render : Event
  select_step : StepId → Event
  navigated : Option StepId → Event
  save_settled : Option Bool → Event
  submit_settled : SubmitResult → Event
  clear_settled : Bool → Event

-- `stepIndex(a) <= stepIndex(b)`, where `none` is -1.
abbrev index_le : Option ℕ → Option ℕ → Bool
index_le none j = true
index_le (some i) none = false
index_le (some i) (some j) = leb i j

-- `STEP_ORDER[index + 1]` and `STEP_ORDER[index - 1]`
abbrev next_step : Option ℕ → Option StepId
next_step none = get_elem? step_order 0
next_step (some i) = get_elem? step_order (suc i)

abbrev previous_step : Option ℕ → Option StepId
previous_step none = none
previous_step (some zero) = none
previous_step (some (suc i)) = get_elem? step_order i

abbrev pub go_if : Option StepId → List Effect
go_if none = []
go_if (some s) = go_to_step s false ∷ []

abbrev pub is_at : StepId → Option StepId → Bool
is_at s none = false
is_at s (some t) = same_step t s

-- The `try` of `handleSubmit` up to its first `await`.
abbrev pub post_or_fail : Wizard → Option ProfileWrite → Wizard × List Effect
post_or_fail w none = (record w { submit_error = some unexpected; submitting = false }, [])
post_or_fail w (some body) = (
  record w { submit_error = none; submitting = true; submission = posting },
  submit_profile body ∷ [],
)

module _ (upper : Text → Text) where
  unfoldable pub clamped_step : Wizard → StepId
  clamped_step w =
      let resume = first_incomplete_step upper w.draft in
      elim w.url_step [
        | none ↦ resume
        | some requested ↦
            if index_le (step_index requested) (step_index resume) then requested else resume
      ]

  unfoldable pub handle_continue : Wizard → Wizard × List Effect
  unfolding clamped_step
  handle_continue w =
      let step = clamped_step w in
      let step_errors = validate_step upper step w.draft in
      if w.advancing
      then (w, [])
      else if not (no_errors step_errors)
      then (record w { errors = step_errors }, focus_first_error ∷ [])
      else (
        record w { errors = []; advancing = true; save_state = saving; pending_save = some step },
        save w.draft step ∷ [],
      )

  unfoldable pub handle_back : Wizard → Wizard × List Effect
  unfolding clamped_step
  handle_back w = (w, go_if (previous_step (step_index (clamped_step w))))

  -- The first part of `handleSubmit`; the conversion stands inside its `try`.
  unfoldable pub handle_submit : Wizard → Wizard × List Effect
  unfolding same_step
  handle_submit w =
      let incomplete = first_incomplete_step upper w.draft in
      if w.submitting
      then (w, [])
      else if not (same_step incomplete review)
      then (w, go_to_step incomplete false ∷ [])
      else post_or_fail w (draft_to_profile_write upper w.draft)

  -- The back button is disabled at the first step and while something runs.
  abbrev pub back_disabled : Wizard → Bool
  back_disabled w = is_at (clamped_step w) (get_elem? step_order 0) || (w.advancing || w.submitting)

-- The rest of `handleContinue`: `some remote` where the save resolves, `none` where it rejects.
unfoldable pub finish_save : Wizard → Option StepId → Option Bool → Wizard × List Effect
finish_save w none settled = (w, [])
finish_save w (some step) none = (record w { advancing = false; pending_save = none }, [])
finish_save w (some step) (some remote) = (
  record w {
    advancing = false;
    pending_save = none;
    save_state = if remote then saved else local_only;
  },
  go_if (next_step (step_index step)),
)

abbrev pub is_unauthorized : ApiError → Bool
is_unauthorized error = elim error.kind [ unauthorized ↦ true | _ ↦ false ]

-- The rest of `handleSubmit`, with its `catch` and `finally`.
unfoldable pub finish_submit : Wizard → Submission → SubmitResult → Wizard × List Effect
finish_submit w posting succeeded = (record w { submission = clearing }, clear_store ∷ [])
finish_submit w posting (failed error) =
    if is_unauthorized error
    then (record w { submitting = false; submission = not_running }, session_expired ∷ [])
    else (
      record w { submitting = false; submission = not_running; submit_error = some (api error) },
      [],
    )
finish_submit w posting threw =
    (record w { submitting = false; submission = not_running; submit_error = some unexpected }, [])
finish_submit w _ result = (w, [])

unfoldable pub finish_clear : Wizard → Submission → Bool → Wizard × List Effect
finish_clear w clearing true =
    (record w { submitting = false; submission = not_running }, complete ∷ [])
finish_clear w clearing false =
    (record w { submitting = false; submission = not_running; submit_error = some unexpected }, [])
finish_clear w _ done = (w, [])

module _ (upper : Text → Text) where
  -- One event: a handler with the guards of the form's markup.
  unfoldable pub step : Wizard → Event → Wizard × List Effect
  unfolding clamped_step handle_continue handle_back handle_submit finish_save finish_submit
      finish_clear same_step
  step w (update patch) = (
    record w {
      draft = apply_patch patch w.draft;
      errors = clear_errors patch w.errors;
      save_state = idle;
    },
    [],
  )
  step w press_submit =
      if same_step (clamped_step upper w) review
      then handle_submit upper w
      else handle_continue upper w
  step w press_back = if back_disabled upper w then (w, []) else handle_back upper w
  step w render =
      let current = clamped_step upper w in
      if is_at current w.url_step then (w, []) else (w, go_to_step current true ∷ [])
  step w (select_step s) = (w, go_to_step s false ∷ [])
  step w (navigated target) = (record w { url_step = target }, [])
  step w (save_settled settled) = finish_save w w.pending_save settled
  step w (submit_settled result) = finish_submit w w.submission result
  step w (clear_settled done) = finish_clear w w.submission done
