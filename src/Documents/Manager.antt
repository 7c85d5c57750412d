-- ===== src/Documents/Manager.antt =====
-- `DocumentManager` of frontend/app/components/documents/document-manager.tsx: its state
-- and the requests that it makes.
use scholarmatch_ai.Base.{Bool, List, [], ◌∷◌, ◌++◌, Option, none, some, if◌then◌else◌, ℕ, any, map}
use scholarmatch_ai.Base.Text.{Text, codes, text_eq}
use scholarmatch_ai.Base.Text.Decimal.{decimal}
use scholarmatch_ai.Mutations.{Runner}
use scholarmatch_ai.Documents.{DocumentResponse, File, SignedDocumentUrl}
use scholarmatch_ai.Documents.Upload.{join}

pub record Manager : Type 0 where
  pub documents : List DocumentResponse
  pub document_type : Text
  pub file : Option File
  pub progress : Option ℕ
  pub runner : Runner
  pub confirming_delete : Option Text
  pub signed_urls : List (Text × SignedDocumentUrl)

-- What a handler asks the service for, with what its action closes over.
pub data DocumentRequest : Type 0 where
  upload_file : File → Text → DocumentRequest
  replace_file : Text → File → DocumentRequest
  rename_document : Text → Text → DocumentRequest
  sign_download : Text → DocumentRequest
  delete_document : Text → DocumentRequest

-- `fileOperationId`
unfoldable pub file_operation_id : Text → File → Option Text → Text
unfolding join decimal
file_operation_id prefix file none =
    join (codes ":")
      (prefix ∷ file.name ∷ file.mime ∷ decimal file.size ∷ decimal file.last_modified ∷ [])
file_operation_id prefix file (some kind) =
    join (codes ":")
      (prefix ∷ kind ∷ file.name ∷ file.mime ∷ decimal file.size ∷ decimal file.last_modified ∷ [])

unfoldable pub operation_id : DocumentRequest → Text
unfolding file_operation_id
operation_id (upload_file file kind) = file_operation_id (codes "upload") file (some kind)
operation_id (replace_file id file) = file_operation_id (codes "replace-" ++ id) file none
operation_id (rename_document id name) = codes "rename-" ++ (id ++ (codes "-" ++ name))
operation_id (sign_download id) = codes "download-" ++ id
operation_id (delete_document id) = codes "delete-" ++ id

unfoldable pub label : DocumentRequest → Text
label (upload_file file kind) = codes "upload"
label (replace_file id file) = codes "replace-" ++ id
label (rename_document id name) = codes "rename-" ++ id
label (sign_download id) = codes "download-" ++ id
label (delete_document id) = codes "delete-" ++ id

-- `replaceDocument`
abbrev pub has_id : Text → DocumentResponse → Bool
has_id id document = text_eq document.id id

unfoldable pub replace_document : DocumentResponse → List DocumentResponse → List DocumentResponse
unfolding text_eq
replace_document next documents =
    if any (has_id next.id) documents
    then map (λ (d : DocumentResponse). if has_id next.id d then next else d) documents
    else next ∷ documents

-- `setSignedUrls((current) => ({ ...current, [id]: signed }))`, and its reading.
unfoldable pub signed_url : Text → List (Text × SignedDocumentUrl) → Option SignedDocumentUrl
unfolding text_eq
signed_url id [] = none
signed_url id ((k, signed) ∷ urls) = if text_eq k id then some signed else signed_url id urls

abbrev pub set_signed_url :
    Text → SignedDocumentUrl → List (Text × SignedDocumentUrl) → List (Text × SignedDocumentUrl)
set_signed_url id signed urls = (id, signed) ∷ urls
