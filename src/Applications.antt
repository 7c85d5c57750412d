-- ===== src/Applications.antt =====
-- The workspace that tracks applications, of
-- frontend/app/components/applications/application-workspace.tsx: its data, the requests of a card
-- and the board.
pub mod Card
pub mod Requests
pub mod Presses
pub mod Runs
pub mod Board
mod Tests
use scholarmatch_ai.Base.{Bool, true, false, List, [], ◌∷◌, ◌++◌, Option, none, some}
use scholarmatch_ai.Base.Text.{Text, codes}
use scholarmatch_ai.Api.Client.Calls.Student.{
  StudentCall, update_application, update_application_checklist_item, set_application_reminder,
  delete_application_reminder,
}

pub data ApplicationStatus : Type 0 where
  saved : ApplicationStatus
  preparing : ApplicationStatus
  ready : ApplicationStatus
  submitted : ApplicationStatus
  interview : ApplicationStatus
  awarded : ApplicationStatus
  unsuccessful : ApplicationStatus
  withdrawn : ApplicationStatus

abbrev pub statuses : List ApplicationStatus
statuses =
    saved ∷ preparing ∷ ready ∷ submitted ∷ interview ∷ awarded ∷ unsuccessful ∷ withdrawn ∷ []

-- The text of a status.
unfoldable pub status_word : ApplicationStatus → Text
status_word saved = codes "saved"
status_word preparing = codes "preparing"
status_word ready = codes "ready"
status_word submitted = codes "submitted"
status_word interview = codes "interview"
status_word awarded = codes "awarded"
status_word unsuccessful = codes "unsuccessful"
status_word withdrawn = codes "withdrawn"

pub record ChecklistItem : Type 0 where
  pub id : Text
  pub label : Text
  pub required : Bool
  pub completed : Bool

-- The fields of an application that a card and the dashboard read; `reminder` is the time of its reminder.
pub record ApplicationResponse : Type 0 where
  pub id : Text
  pub scholarship_id : Text
  pub status : ApplicationStatus
  pub allowed_transitions : List ApplicationStatus
  pub notes : Option Text
  pub checklist : List ChecklistItem
  pub reminder : Option Text

-- What a card asks the service for, with what its request closes over.
pub data ApplicationRequest : Type 0 where
  set_status : ApplicationStatus → ApplicationRequest
  check_item : Text → Bool → ApplicationRequest
  save_notes : Text → ApplicationRequest
  set_reminder : Text → Text → ApplicationRequest
  delete_reminder : ApplicationRequest

-- The bodies that are sent.
pub data ApplicationBody : Type 0 where
  status_update : ApplicationStatus → ApplicationBody
  notes_update : Option Text → ApplicationBody
  item_update : Bool → ApplicationBody
  reminder_write : Text → Text → ApplicationBody

-- `String(value)` of a Boolean
unfoldable pub bool_text : Bool → Text
bool_text true = codes "true"
bool_text false = codes "false"

-- The first argument of `mutate`.
unfoldable pub operation_id : ApplicationRequest → Text
unfolding status_word bool_text
operation_id (set_status status) = codes "status-" ++ status_word status
operation_id (check_item id completed) =
    codes "check-" ++ (id ++ (codes "-" ++ bool_text completed))
operation_id (save_notes notes) = codes "notes-" ++ notes
operation_id (set_reminder remind_at timezone) =
    codes "reminder-" ++ (remind_at ++ (codes "-" ++ timezone))
operation_id delete_reminder = codes "reminder-delete"

-- The second one.
unfoldable pub label : ApplicationRequest → Text
label (set_status status) = codes "status"
label (check_item id completed) = codes "checklist"
label (save_notes notes) = codes "notes"
label (set_reminder remind_at timezone) = codes "reminder"
label delete_reminder = codes "reminder"

-- `notes || null`
unfoldable pub notes_or_null : Text → Option Text
notes_or_null [] = none
notes_or_null (c ∷ s) = some (c ∷ s)

-- The call of the API that the third one makes, with the key.
unfoldable pub call_of : Text → ApplicationRequest → Text → StudentCall ApplicationBody
unfolding notes_or_null
call_of id (set_status status) key = update_application id (status_update status) key
call_of id (check_item item completed) key =
    update_application_checklist_item id item (item_update completed) key
call_of id (save_notes notes) key = update_application id (notes_update (notes_or_null notes)) key
call_of id (set_reminder remind_at timezone) key =
    set_application_reminder id (reminder_write remind_at timezone) key
call_of id delete_reminder key = delete_application_reminder id key
