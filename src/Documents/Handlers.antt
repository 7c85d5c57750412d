-- ===== src/Documents/Handlers.antt =====
-- The handlers of frontend/app/components/documents/document-manager.tsx up to their `await`, and
-- what an answer changes. `now` is what `Date.now()` gives.
use scholarmatch_ai.Base.{
  Bool, true, false, not, ◌||◌, ◌&&◌, [], Option, none, some, if◌then◌else◌, ℕ, keep, is_some,
  holds,
}
use scholarmatch_ai.Base.Text.{Text, codes, text_eq}
use scholarmatch_ai.Base.Text.Trim.{trim}
use scholarmatch_ai.Mutations.{Runner, begin, succeed, fail, remove}
use scholarmatch_ai.Documents.{
  DocumentStatus, DocumentResponse, DocumentUploadPolicy, File, SignedDocumentUrl,
}
use scholarmatch_ai.Documents.Upload.{validate_document_file, is_signed_url_expired}
use scholarmatch_ai.Documents.Manager.{
  Manager, DocumentRequest, upload_file, replace_file, rename_document, sign_download,
  delete_document, operation_id, label, has_id, replace_document, signed_url, set_signed_url,
}

-- What the manager does besides changing its state.
pub data ManagerEffect : Type 0 where
  nothing : ManagerEffect
  sent : DocumentRequest → Text → ManagerEffect
  window_open : Text → ManagerEffect

-- `validate`: the message is shown, and the shown one is cleared where there is none.
unfoldable pub validated : DocumentUploadPolicy → File → Manager → Manager
unfolding validate_document_file
validated policy file m = record m {
  runner = record m.runner { error = validate_document_file file policy };
}

abbrev pub is_valid : DocumentUploadPolicy → File → Bool
is_valid policy file = not (is_some (validate_document_file file policy))

-- `run` up to the request, which the action of an upload precedes by `setProgress(0)`.
unfoldable pub started : DocumentRequest → Manager → Manager
started (upload_file file kind) m = record m { progress = some 0 }
started (replace_file id file) m = record m { progress = some 0 }
started (rename_document id name) m = m
started (sign_download id) m = m
started (delete_document id) m = m

unfoldable pub went : DocumentRequest → Manager → Runner × Option Text → Manager × ManagerEffect
unfolding started
went request m (runner, none) = (m, nothing)
went request m (runner, some key) =
    (started request (record m { runner = runner }), sent request key)

unfoldable pub run : Text → DocumentRequest → Manager → Manager × ManagerEffect
unfolding begin operation_id label went
run fresh request m = went request m (begin fresh (operation_id request) (label request) m.runner)

-- The action of `download`: a kept link that is still good is opened, and the run is over.
unfoldable pub use_link :
    (Text → Option ℕ)
    → ℕ
    → Option SignedDocumentUrl
    → Manager × ManagerEffect
    → Manager × ManagerEffect
unfolding is_signed_url_expired succeed operation_id
use_link date_parse now (some signed) (m, sent request key) =
    if is_signed_url_expired date_parse signed.expires_at now
    then (m, sent request key)
    else (record m { runner = succeed (operation_id request) m.runner }, window_open signed.url)
use_link date_parse now _ asked = asked

unfoldable pub download :
    (Text → Option ℕ) → ℕ → Text → DocumentResponse → Manager → Manager × ManagerEffect
unfolding run signed_url use_link
download date_parse now fresh document m =
    use_link date_parse now (signed_url document.id m.signed_urls)
      (run fresh (sign_download document.id) m)

unfoldable pub upload :
    DocumentUploadPolicy → Text → Option File → Manager → Manager × ManagerEffect
unfolding run validated
upload policy fresh none m = (m, nothing)
upload policy fresh (some file) m =
    if is_valid policy file
    then run fresh (upload_file file m.document_type) (validated policy file m)
    else (validated policy file m, nothing)

-- `replace`
unfoldable pub replace :
    DocumentUploadPolicy → Text → DocumentResponse → File → Manager → Manager × ManagerEffect
unfolding run validated
replace policy fresh document file m =
    if is_valid policy file
    then run fresh (replace_file document.id file) (validated policy file m)
    else (validated policy file m, nothing)

-- The presses and choices; those that name a document come from its row.
pub data Action : Type 0 where
  choose_type : Text → Action
  choose_file : Option File → Action
  press_upload : Action
  choose_replacement : DocumentResponse → File → Action
  press_download : DocumentResponse → Action
  submit_name : DocumentResponse → Text → Action
  press_delete : DocumentResponse → Action
  press_keep : Action
  confirm_delete : DocumentResponse → Action

unfoldable pub is_ready : DocumentStatus → Bool
is_ready DocumentStatus.ready = true
is_ready _ = false

-- A handler's effect where its control is enabled; the row of the confirmation is the one that is
-- being confirmed.
unfoldable pub handle :
    DocumentUploadPolicy → (Text → Option ℕ) → ℕ → Text → Action → Manager → Manager × ManagerEffect
unfolding run download upload replace validated is_ready trim text_eq
handle policy date_parse now fresh (choose_type kind) m =
    (record m { document_type = kind }, nothing)
handle policy date_parse now fresh (choose_file none) m = (record m { file = none }, nothing)
handle policy date_parse now fresh (choose_file (some file)) m =
    (validated policy file (record m { file = some file }), nothing)
handle policy date_parse now fresh press_upload m = upload policy fresh m.file m
handle policy date_parse now fresh (choose_replacement document file) m =
    replace policy fresh document file m
handle policy date_parse now fresh (press_download document) m =
    if is_ready document.status then download date_parse now fresh document m else (m, nothing)
handle policy date_parse now fresh (submit_name document name) m =
    if text_eq (trim name) [] || text_eq (trim name) document.display_name
    then (m, nothing)
    else run fresh (rename_document document.id (trim name)) m
handle policy date_parse now fresh (press_delete document) m =
    (record m { confirming_delete = some document.id }, nothing)
handle policy date_parse now fresh press_keep m = (record m { confirming_delete = none }, nothing)
handle policy date_parse now fresh (confirm_delete document) m =
    if holds (λ id. text_eq id document.id) m.confirming_delete
    then run fresh (delete_document document.id) m
    else (m, nothing)

-- The controls that stay enabled while something is pending.
abbrev pub is_free : Action → Bool
is_free press_keep = true
is_free (submit_name document name) = true
is_free _ = false

unfoldable pub act :
    DocumentUploadPolicy → (Text → Option ℕ) → ℕ → Text → Action → Manager → Manager × ManagerEffect
unfolding handle
act policy date_parse now fresh action m =
    if is_some m.runner.pending && not (is_free action)
    then (m, nothing)
    else handle policy date_parse now fresh action m

-- What comes back for a request that was sent.
pub data Answer : Type 0 where
  document_answer : DocumentRequest → DocumentResponse → Answer
  url_answer : Text → SignedDocumentUrl → Answer
  deleted_answer : Text → Answer
  progress_answer : ℕ → Answer
  failed_answer : Text → Answer

abbrev finished : DocumentRequest → Manager → Manager
finished request m = record m { runner = succeed (operation_id request) m.runner }

-- The rest of the action and of `run`. A new link that has expired is thrown away, with its key.
unfoldable pub answered : (Text → Option ℕ) → ℕ → Answer → Manager → Manager × ManagerEffect
unfolding replace_document succeed fail remove operation_id is_signed_url_expired text_eq
answered date_parse now (document_answer (upload_file file kind) next) m = (
  finished (upload_file file kind)
      (record m { documents = replace_document next m.documents; file = none; progress = none }),
  nothing,
)
answered date_parse now (document_answer (replace_file id file) next) m = (
  finished (replace_file id file)
      (record m { documents = replace_document next m.documents; progress = none }),
  nothing,
)
answered date_parse now (document_answer (rename_document id name) next) m = (
  finished (rename_document id name) (record m { documents = replace_document next m.documents }),
  nothing,
)
answered date_parse now (document_answer (sign_download id) next) m = (m, nothing)
answered date_parse now (document_answer (delete_document id) next) m = (m, nothing)
answered date_parse now (url_answer id signed) m =
    if is_signed_url_expired date_parse signed.expires_at now
    then (
      record m {
        runner =
            fail (codes "The download link expired before it could be used. Try again.")
              (record m.runner {
                retry_keys = remove (operation_id (sign_download id)) m.runner.retry_keys;
              });
      },
      nothing,
    )
    else (
      finished (sign_download id)
          (record m { signed_urls = set_signed_url id signed m.signed_urls }),
      window_open signed.url,
    )
answered date_parse now (deleted_answer id) m = (
  finished (delete_document id) (record m {
    documents = keep (λ (d : DocumentResponse). not (has_id id d)) m.documents;
    confirming_delete = none;
  }),
  nothing,
)
answered date_parse now (progress_answer percent) m =
    (record m { progress = some percent }, nothing)
answered date_parse now (failed_answer message) m =
    (record m { runner = fail message m.runner }, nothing)
