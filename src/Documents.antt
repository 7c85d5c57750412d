-- ===== src/Documents.antt =====
-- The private documents: frontend/app/lib/documents/upload.ts and
-- frontend/app/components/documents/document-manager.tsx, and the data that both share.
pub mod Upload
pub mod Manager
pub mod Handlers
pub mod Rename
pub mod Library
pub mod Runs
pub mod Refinement
pub mod Settling
mod Tests
use scholarmatch_ai.Base.{List, ℕ}
use scholarmatch_ai.Base.Text.{Text}

pub data DocumentStatus : Type 0 where
  pending : DocumentStatus
  scanning : DocumentStatus
  processing : DocumentStatus
  ready : DocumentStatus
  rejected : DocumentStatus
  failed : DocumentStatus

-- The fields of a document that the manager reads.
pub record DocumentResponse : Type 0 where
  pub id : Text
  pub document_type : Text
  pub display_name : Text
  pub size_bytes : ℕ
  pub status : DocumentStatus

pub record DocumentUploadPolicy : Type 0 where
  pub max_size_bytes : ℕ
  pub allowed_mime_types : List Text
  pub allowed_document_types : List Text
  pub accepted_extensions : List Text

-- A file of the browser, as far as it is read.
pub record File : Type 0 where
  pub name : Text
  pub mime : Text
  pub size : ℕ
  pub last_modified : ℕ

pub record SignedDocumentUrl : Type 0 where
  pub url : Text
  pub expires_at : Text
