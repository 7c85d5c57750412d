-- ===== src/Documents/Tests.antt =====
-- The document manager and an upload on small inputs.
use scholarmatch_ai.Base.{List, [], ◌∷◌, Option, none, some, ℕ, ◌≡◌, ◌≢◌, ◌↔◌, refl}
use scholarmatch_ai.Base.Text.{Text, codes, text_eq}
use scholarmatch_ai.Api.Errors.{ErrorEnvelope}
use scholarmatch_ai.Mutations.{idle_runner}
use scholarmatch_ai.Documents.{DocumentResponse, DocumentStatus, DocumentUploadPolicy}
use scholarmatch_ai.Documents.Manager.{Manager, rename_document}
use scholarmatch_ai.Documents.Handlers.{confirm_delete, act, document_answer, deleted_answer}
use scholarmatch_ai.Documents.Upload.{loaded, errored, waiting, on_events}
use scholarmatch_ai.Documents.Library.{library_of}
use scholarmatch_ai.Documents.Runs.{IsJustified, act-IsJustified}
use scholarmatch_ai.Documents.Refinement.{
  Input, does, gets, input_steps, answers, meanings, IsUnique, library_of-input_steps,
  input_steps-IsUnique,
}
use scholarmatch_ai.Documents.Settling.{progresses, expected, IsStuck, upload-IsStuck}

abbrev policy : DocumentUploadPolicy
policy = record {
  max_size_bytes = 1000;
  allowed_mime_types = codes "application/pdf" ∷ [];
  allowed_document_types = codes "cv" ∷ [];
  accepted_extensions = codes ".pdf" ∷ [];
}

abbrev never : Text → Option ℕ
never s = none

abbrev cv : DocumentResponse
cv = record {
  id = codes "d1";
  document_type = codes "cv";
  display_name = codes "CV";
  size_bytes = 10;
  status = DocumentStatus.ready;
}

abbrev essay : DocumentResponse
essay = record cv { id = codes "d2"; display_name = codes "Essay" }

abbrev manager : Manager
manager = record {
  documents = cv ∷ essay ∷ [];
  document_type = codes "cv";
  file = none;
  progress = none;
  runner = idle_runner;
  confirming_delete = some (codes "d1");
  signed_urls = [];
}

act-IsJustified_example :
    let after = act policy never 5 (codes "k") (confirm_delete cv) manager in
    (after.0.documents ≡ manager.documents) × IsJustified policy never 5 manager after.1
act-IsJustified_example = act-IsJustified policy never 5 (codes "k") (confirm_delete cv) manager

abbrev inputs : List Input
inputs =
    does (confirm_delete cv) 5 (codes "k")
    ∷ gets (deleted_answer (codes "d1")) 6
    ∷ gets (document_answer (rename_document (codes "d2") (codes "Letter")) essay) 7
    ∷ []

library_of-input_steps_example :
    library_of (input_steps policy never inputs manager).documents
    ≡ meanings policy never (answers policy never inputs) (library_of manager.documents)
library_of-input_steps_example = library_of-input_steps policy never inputs manager

manager-IsUnique : IsUnique manager.documents
unfolding text_eq
manager-IsUnique = (refl, (refl, tt))

input_steps-IsUnique_example : IsUnique (input_steps policy never inputs manager).documents
input_steps-IsUnique_example = input_steps-IsUnique policy never inputs manager manager-IsUnique

abbrev percent : ℕ → ℕ → ℕ
percent done total = 50

abbrev no_envelope : Text → Option ErrorEnvelope
no_envelope s = none

abbrev no_document : Text → Option DocumentResponse
no_document s = none

errored_ne : expected no_envelope no_document errored ≢ waiting
errored_ne e = absurd (cc)

upload-IsStuck_example :
    ((on_events percent no_envelope no_document waiting
        (progresses (some (1, 2) ∷ []) (loaded 200 (codes "<html>") ∷ []))).0
      ≡ waiting)
    ↔ IsStuck percent no_envelope no_document (loaded 200 (codes "<html>"))
upload-IsStuck_example =
    upload-IsStuck percent no_envelope no_document (some (1, 2) ∷ []) (loaded 200 (codes "<html>"))
