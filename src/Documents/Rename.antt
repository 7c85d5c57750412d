-- ===== src/Documents/Rename.antt =====
-- `RenameControl` and `ReadinessPanel` of
-- frontend/app/components/documents/document-manager.tsx.
use scholarmatch_ai.Base.{
  and_iff, Bool, true, false, List, ◌&&◌, ◌≡◌, ◌↔◌, any, Some, Some-map, In_of_any, any_of_In,
}
use scholarmatch_ai.Base.Text.{text_eq_iff, Text, text_eq}
use scholarmatch_ai.Documents.{DocumentResponse}
use scholarmatch_ai.Documents.Manager.{has_id}
use scholarmatch_ai.Documents.Handlers.{Action, submit_name, is_ready}

pub record RenameControl : Type 0 where
  pub editing : Bool
  pub name : Text

abbrev pub opened_control : DocumentResponse → RenameControl
opened_control document = record { editing = false; name = document.display_name }

unfoldable pub start_editing : RenameControl → RenameControl
start_editing control = record control { editing = true }

unfoldable pub type_name : Text → RenameControl → RenameControl
type_name name control = record control { name = name }

unfoldable pub cancel_editing : RenameControl → RenameControl
cancel_editing control = record control { editing = false }

-- The form closes, and its name goes to the manager's handler.
unfoldable pub submit_control : DocumentResponse → RenameControl → RenameControl × Action
submit_control document control =
    (record control { editing = false }, submit_name document control.name)

pub record ReadinessItem : Type 0 where
  pub required_document : Text
  pub ready : Bool
  pub matched_document_ids : List Text

-- Whether the panel shows an item as ready.
unfoldable pub shown_ready : List DocumentResponse → ReadinessItem → Bool
unfolding text_eq is_ready
shown_ready documents item =
    item.ready
    && any (λ id. any (λ (d : DocumentResponse). has_id id d && is_ready d.status) documents)
        item.matched_document_ids

any_iff :
    {A : Type 0} (p : A → Bool) (P : A → Type 0)
    → ((x : A) → (p x ≡ true) ↔ P x)
    → (xs : List A) → (any p xs ≡ true) ↔ Some P xs
any_iff p P same xs = (
  λ e. Some-map _ P xs (λ x. (same x).0) (In_of_any p xs e),
  λ m. any_of_In p xs (Some-map P _ xs (λ x. (same x).1) m),
)

held_iff :
    (d : DocumentResponse) (id : Text)
    → (has_id id d && is_ready d.status ≡ true) ↔ ((d.id ≡ id) × (is_ready d.status ≡ true))
held_iff d id =
    let both = and_iff (has_id id d) (is_ready d.status) in
    let same = text_eq_iff d.id id in
    ((λ e. let (a, b) = both.0 e in (same.0 a, b)), λ h. both.1 (same.1 h.0, h.1))

-- An item is shown as ready exactly where the service calls it ready and one of its matched
-- documents is still held and ready.
pub shown_ready_iff :
    (documents : List DocumentResponse) (item : ReadinessItem)
    → (shown_ready documents item ≡ true) ↔ (
        (item.ready ≡ true)
        × Some
            (λ id.
              Some (λ (d : DocumentResponse). (d.id ≡ id) × (is_ready d.status ≡ true)) documents)
            item.matched_document_ids)
unfolding shown_ready
shown_ready_iff documents item =
    let held =
      any_iff (λ id. any (λ (d : DocumentResponse). has_id id d && is_ready d.status) documents)
        (λ id. Some (λ (d : DocumentResponse). (d.id ≡ id) × (is_ready d.status ≡ true)) documents)
        (λ id. any_iff _ _ (λ d. held_iff d id) documents) item.matched_document_ids in
    let both = and_iff item.ready _ in
    ((λ e. let (a, b) = both.0 e in (a, held.0 b)), λ h. both.1 (h.0, held.1 h.1))
