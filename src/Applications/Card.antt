-- ===== src/Applications/Card.antt =====
-- `ApplicationActions` and `ReminderControl` of
-- frontend/app/components/applications/application-workspace.tsx: the state of a card, what a
-- press asks for, and what the answer changes.
use scholarmatch_ai.Base.{
  Bool, true, false, not, ◌||◌, List, [], ◌∷◌, ◌++◌, Option, none, some, if◌then◌else◌, ℕ, any,
  or_else, is_some, get_elem?,
}
use scholarmatch_ai.Base.Text.{Text, codes, text_eq}
use scholarmatch_ai.Applications.{
  ApplicationStatus, ChecklistItem, status_word, ApplicationResponse, ApplicationRequest,
  set_status, check_item, save_notes, set_reminder, delete_reminder, operation_id, label,
}
use mathlib.Core.Option
use scholarmatch_ai.Mutations.{Runner, idle_runner, begin, succeed, fail}

-- The platform's clock and calendar: the zone, `formatToParts` of a time as its list of type and
-- value, and `new Date(value).toISOString()`, which throws on an invalid date.
pub record Calendar : Type 0 where
  pub timezone : Text
  pub format_to_parts : Text → Text → List (Text × Text)
  pub to_iso_string : Text → Option Text

-- `parts.find((item) => item.type === type)?.value ?? ""`
unfoldable pub part : Text → List (Text × Text) → Text
unfolding text_eq
part kind [] = []
part kind ((k, v) ∷ parts) = if text_eq k kind then v else part kind parts

unfoldable pub iso_to_local_input : Calendar → Option Text → Text
unfolding part
iso_to_local_input calendar none = []
iso_to_local_input calendar (some []) = []
iso_to_local_input calendar (some (c ∷ s)) =
    let parts = calendar.format_to_parts (c ∷ s) calendar.timezone in
    part (codes "year") parts
    ++ (codes "-"
        ++ (part (codes "month") parts
            ++ (codes "-"
                ++ (part (codes "day") parts
                    ++ (codes "T"
                        ++ (part (codes "hour") parts
                            ++ (codes ":" ++ part (codes "minute") parts)))))))

-- A card with its reminder control; a draft is what was typed, for the reminder that it replaces.
pub record Card : Type 0 where
  pub application : ApplicationResponse
  pub runner : Runner
  pub notes : Text
  pub draft : Option (Option Text × Text)

unfoldable pub opened : ApplicationResponse → Card
opened application = record {
  application = application;
  runner = idle_runner;
  notes = or_else application.notes [];
  draft = none;
}

-- `===` on optional strings
unfoldable pub option_eq : Option Text → Option Text → Bool
unfolding text_eq
option_eq none none = true
option_eq (some s) (some t) = text_eq s t
option_eq _ _ = false

-- The value in the reminder's field.
unfoldable pub reminder_value : Calendar → Card → Text
unfolding option_eq iso_to_local_input
reminder_value calendar card = elim card.draft [
  | none ↦ iso_to_local_input calendar card.application.reminder
  | some (source, value) ↦
      if option_eq source card.application.reminder
      then value
      else iso_to_local_input calendar card.application.reminder
]

pub data Action : Type 0 where
  choose_status : ApplicationStatus → Action
  toggle_item : ℕ → Action
  press_save_notes : Action
  press_set_reminder : Action
  press_delete_reminder : Action

unfoldable pub includes_status : ApplicationStatus → List ApplicationStatus → Bool
unfolding text_eq status_word
includes_status status = any (λ s. text_eq (status_word s) (status_word status))

-- `new Date(value).toISOString()` where the field holds a value.
unfoldable pub iso_of : Calendar → Text → Option Text
iso_of calendar [] = none
iso_of calendar (c ∷ s) = calendar.to_iso_string (c ∷ s)

-- The request that a press asks for; `none` where the control is disabled or not shown, where its
-- handler returns at once, and where it throws. Every control is disabled while one is pending.
unfoldable pub wanted : Calendar → Action → Card → Option ApplicationRequest
unfolding includes_status iso_of reminder_value text_eq
wanted calendar (choose_status status) card =
    if is_some card.runner.pending
    then none
    else if includes_status status card.application.allowed_transitions
    then some (set_status status)
    else none
wanted calendar (toggle_item i) card =
    if is_some card.runner.pending
    then none
    else Option.map (λ (item : ChecklistItem). check_item item.id (not item.completed))
        (get_elem? card.application.checklist i)
wanted calendar press_save_notes card =
    if is_some card.runner.pending || text_eq card.notes (or_else card.application.notes [])
    then none
    else some (save_notes card.notes)
wanted calendar press_set_reminder card =
    if is_some card.runner.pending
    then none
    else Option.map (λ iso. set_reminder iso calendar.timezone)
        (iso_of calendar (reminder_value calendar card))
wanted calendar press_delete_reminder card =
    if is_some card.runner.pending || not (is_some card.application.reminder)
    then none
    else some delete_reminder

-- `mutate` up to its `await`: the card with the request and the key that were sent.
unfoldable pub mutate : Text → ApplicationRequest → Card → Card × Option (ApplicationRequest × Text)
unfolding begin operation_id label
mutate fresh request card =
    let begun = begin fresh (operation_id request) (label request) card.runner in
    (record card { runner = begun.0 }, Option.map (λ key. (request, key)) begun.1)

unfoldable pub press : Calendar → Text → Action → Card → Card × Option (ApplicationRequest × Text)
unfolding wanted mutate
press calendar fresh action card = elim (wanted calendar action card) [
  | none ↦ (card, none)
  | some request ↦ mutate fresh request card
]

-- The handlers of the two fields.
unfoldable pub edit_notes : Text → Card → Card
edit_notes notes card = record card { notes = notes }

unfoldable pub edit_reminder : Text → Card → Card
edit_reminder value card = record card { draft = some (card.application.reminder, value) }

-- The rest of `mutate`, for the request that was sent: the workspace hands the card the
-- application that came back, or the card shows what went wrong.
unfoldable pub answered : ApplicationRequest → ApplicationResponse → Card → Card
unfolding succeed operation_id
answered request next card = record card {
  application = next;
  runner = succeed (operation_id request) card.runner;
}

unfoldable pub refused : Text → Card → Card
unfolding fail
refused message card = record card { runner = fail message card.runner }
