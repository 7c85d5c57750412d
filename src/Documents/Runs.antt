-- ===== src/Documents/Runs.antt =====
-- What a press of the document manager may send or open.
use scholarmatch_ai.Base.{
  true, false, true-false, not, ◌||◌, ◌&&◌, [], Option, none, some, ℕ, ◌≤◌, ◌≡◌, ◌≢◌, refl, sym, ap,
  ◌∙◌, arith, Bool-cases, inl, inr, is_some, some_inj, none-some, holds, ltb,
}
use scholarmatch_ai.Base.Text.{Text, text_eq, text_eq_sound, member}
use scholarmatch_ai.Base.Text.Trim.{trim}
use scholarmatch_ai.Mutations.{Runner, begin, is_pending}
use scholarmatch_ai.Documents.{DocumentResponse, DocumentUploadPolicy, File, SignedDocumentUrl}
use scholarmatch_ai.Documents.Manager.{
  Manager, DocumentRequest, upload_file, replace_file, rename_document, sign_download,
  delete_document, signed_url, operation_id, label,
}
use scholarmatch_ai.Documents.Handlers.{
  Action, choose_type, choose_file, press_upload, choose_replacement, press_download, submit_name,
  press_delete, press_keep, confirm_delete, act, handle, run, download, validated, is_valid,
  is_free, is_ready, ManagerEffect, nothing, sent, window_open, started, went, use_link, upload,
  replace,
}
use scholarmatch_ai.Documents.Upload.{is_signed_url_expired, validate_document_file}

holds-eq : (id : Text) (o : Option Text) → holds (λ x. text_eq x id) o ≡ true → o ≡ some id
holds-eq id none h = absurd (cc)
holds-eq id (some x) h = ap some (text_eq_sound x id h)

module _ (policy : DocumentUploadPolicy) (date_parse : Text → Option ℕ) where
  -- A file that the policy accepts.
  abbrev pub IsAccepted : File → Type 0
  IsAccepted file =
      (file.size ≤ policy.max_size_bytes) × (member file.mime policy.allowed_mime_types ≡ true)

  -- What the manager shows where a request is sent.
  unfoldable pub Wants : ℕ → Manager → DocumentRequest → Type 0
  Wants now m (upload_file file kind) =
      (m.file ≡ some file) × (kind ≡ m.document_type) × IsAccepted file
  Wants now m (replace_file id file) = IsAccepted file
  Wants now m (rename_document id name) = name ≢ []
  Wants now m (sign_download id) =
      (signed : SignedDocumentUrl)
      → signed_url id m.signed_urls ≡ some signed
      → is_signed_url_expired date_parse signed.expires_at now ≡ true
  Wants now m (delete_document id) = m.confirming_delete ≡ some id

  unfoldable pub IsJustified : ℕ → Manager → ManagerEffect → Type 0
  unfolding Wants
  IsJustified now m nothing = Unit {0}
  IsJustified now m (sent request key) = (is_pending m.runner ≡ false) × Wants now m request
  IsJustified now m (window_open url) =
      (is_pending m.runner ≡ false)
      × (id : Text) × (signed : SignedDocumentUrl) × (signed_url id m.signed_urls ≡ some signed)
      × (url ≡ signed.url)
      × (is_signed_url_expired date_parse signed.expires_at now ≡ false)

  Fine : ℕ → Manager → Manager × ManagerEffect → Type 0
  Fine now m after = (after.0.documents ≡ m.documents) × IsJustified now m after.1

  quiet-Fine : (now : ℕ) (m m' : Manager) → m'.documents ≡ m.documents → Fine now m (m', nothing)
  unfolding Fine IsJustified
  quiet-Fine now m m' same = (same, tt)

  started-documents :
      (request : DocumentRequest) (m : Manager) → (started request m).documents ≡ m.documents
  unfolding started
  started-documents (upload_file file kind) m = refl
  started-documents (replace_file id file) m = refl
  started-documents (rename_document id name) m = refl
  started-documents (sign_download id) m = refl
  started-documents (delete_document id) m = refl

  went-Fine :
      (now : ℕ) (request : DocumentRequest) (m m' : Manager) (begun : Runner × Option Text)
      → m'.documents ≡ m.documents
      → ((key : Text) → begun.1 ≡ some key → (is_pending m.runner ≡ false) × Wants now m request)
      → Fine now m (went request m' begun)
  unfolding went Fine IsJustified
  went-Fine now request m m' (runner, none) same h = (same, tt)
  went-Fine now request m m' (runner, some key) same h =
      (started-documents request (record m' { runner = runner }) ∙ same, h key refl)

  begin-IsIdle :
      (fresh operation shown key : Text) (r : Runner)
      → (begin fresh operation shown r).1 ≡ some key
      → is_pending r ≡ false
  unfolding begin
  begin-IsIdle fresh operation shown key r e = elim (Bool-cases (is_pending r)) [
    | inl busy ↦ absurd (none-some (sym (rw busy refl) ∙ e))
    | inr idle ↦ idle
  ]

  run-Fine :
      (now : ℕ) (fresh : Text) (request : DocumentRequest) (m m' : Manager)
      → m'.documents ≡ m.documents
      → is_pending m'.runner ≡ is_pending m.runner
      → Wants now m request
      → Fine now m (run fresh request m')
  unfolding run
  run-Fine now fresh request m m' same idle h = went-Fine now request m m' _ same (λ key e.
      (sym idle ∙ begin-IsIdle fresh (operation_id request) (label request) key m'.runner e, h))

  valid-IsAccepted : (file : File) → is_valid policy file ≡ true → IsAccepted file
  unfolding validate_document_file
  valid-IsAccepted file h = elim (Bool-cases (ltb policy.max_size_bytes file.size)) [
    | inl big ↦ absurd (true-false (sym h ∙ rw big refl))
    | inr fits ↦ elim (Bool-cases (member file.mime policy.allowed_mime_types)) [
      | inl listed ↦ (ground arith, listed)
      | inr other ↦ absurd (true-false (sym h ∙ rw (fits, other) refl))
    ]
  ]

  upload-Fine :
      (now : ℕ) (fresh : Text) (file : Option File) (m : Manager)
      → m.file ≡ file
      → Fine now m (upload policy fresh file m)
  unfolding upload validated Wants
  upload-Fine now fresh none m e = quiet-Fine now m m refl
  upload-Fine now fresh (some file) m e =
      let checked = validated policy file m in
      elim (Bool-cases (is_valid policy file)) [
        | inl valid ↦ rw valid (
            run-Fine now fresh (upload_file file m.document_type) m checked refl refl
              (e, refl, valid-IsAccepted file valid))
        | inr refused ↦ rw refused (quiet-Fine now m checked refl)
      ]

  replace-Fine :
      (now : ℕ) (fresh : Text) (document : DocumentResponse) (file : File) (m : Manager)
      → Fine now m (replace policy fresh document file m)
  unfolding replace validated Wants
  replace-Fine now fresh document file m =
      let checked = validated policy file m in
      elim (Bool-cases (is_valid policy file)) [
        | inl valid ↦ rw valid (
            run-Fine now fresh (replace_file document.id file) m checked refl refl
              (valid-IsAccepted file valid))
        | inr refused ↦ rw refused (quiet-Fine now m checked refl)
      ]

  -- What a download yields, by the kept link.
  use_link-Fine :
      (now : ℕ) (id : Text) (link : Option SignedDocumentUrl) (m : Manager)
      (begun : Runner × Option Text)
      → signed_url id m.signed_urls ≡ link
      → ((key : Text) → begun.1 ≡ some key → is_pending m.runner ≡ false)
      → Fine now m (use_link date_parse now link (went (sign_download id) m begun))
  unfolding use_link went started Fine IsJustified Wants
  use_link-Fine now id none m (runner, none) e h = (refl, tt)
  use_link-Fine now id (some signed) m (runner, none) e h = (refl, tt)
  use_link-Fine now id none m (runner, some key) e h =
      (refl, (h key refl, λ signed found. absurd (none-some (sym e ∙ found))))
  use_link-Fine now id (some signed) m (runner, some key) e h =
      elim (Bool-cases (is_signed_url_expired date_parse signed.expires_at now)) [
        | inl expired ↦ rw expired (
          refl,
          (
            h key refl,
            λ other found.
                ap (λ (l : SignedDocumentUrl). is_signed_url_expired date_parse l.expires_at now)
                  (some_inj (sym found ∙ e))
                ∙ expired,
          ),
        )
        | inr good ↦ rw good (refl, (h key refl, id, signed, e, refl, good))
      ]

  download-Fine :
      (now : ℕ) (fresh : Text) (document : DocumentResponse) (m : Manager)
      → Fine now m (download date_parse now fresh document m)
  unfolding download run
  download-Fine now fresh document m =
      use_link-Fine now document.id (signed_url document.id m.signed_urls) m _ refl
        (λ key e. begin-IsIdle fresh _ _ key m.runner e)

  handle-Fine :
      (now : ℕ) (fresh : Text) (action : Action) (m : Manager)
      → Fine now m (handle policy date_parse now fresh action m)
  unfolding handle validated Wants
  handle-Fine now fresh (choose_type kind) m = quiet-Fine now m _ refl
  handle-Fine now fresh (choose_file none) m = quiet-Fine now m _ refl
  handle-Fine now fresh (choose_file (some file)) m = quiet-Fine now m _ refl
  handle-Fine now fresh press_upload m = upload-Fine now fresh m.file m refl
  handle-Fine now fresh (choose_replacement document file) m =
      replace-Fine now fresh document file m
  handle-Fine now fresh (press_download document) m = elim (Bool-cases (is_ready document.status)) [
    | inl ready ↦ rw ready (download-Fine now fresh document m)
    | inr waits ↦ rw waits (quiet-Fine now m m refl)
  ]
  handle-Fine now fresh (submit_name document name) m =
      elim (Bool-cases (text_eq (trim name) [] || text_eq (trim name) document.display_name)) [
        | inl same ↦ rw same (quiet-Fine now m m refl)
        | inr changed ↦ rw changed (
            run-Fine now fresh (rename_document document.id (trim name)) m m refl refl
              (λ e. true-false (sym (rw e refl) ∙ changed)))
      ]
  handle-Fine now fresh (press_delete document) m = quiet-Fine now m _ refl
  handle-Fine now fresh press_keep m = quiet-Fine now m _ refl
  handle-Fine now fresh (confirm_delete document) m =
      elim (Bool-cases (holds (λ id. text_eq id document.id) m.confirming_delete)) [
        | inl shown ↦ rw shown (
            run-Fine now fresh (delete_document document.id) m m refl refl
              (holds-eq document.id m.confirming_delete shown))
        | inr hidden ↦ rw hidden (quiet-Fine now m m refl)
      ]

  act-Fine :
      (now : ℕ) (fresh : Text) (action : Action) (m : Manager)
      → Fine now m (act policy date_parse now fresh action m)
  unfolding act
  act-Fine now fresh action m =
      elim (Bool-cases (is_some m.runner.pending && not (is_free action))) [
        | inl off ↦ rw off (quiet-Fine now m m refl)
        | inr on ↦ rw on (handle-Fine now fresh action m)
      ]

  -- A press changes no document, and sends a request or opens a link only while nothing is
  -- pending: an upload of the chosen file and a replacement are within the policy's size and of
  -- one of its types, a new name is not empty, a document is deleted only while its deletion is
  -- being confirmed, a new link is asked for only where the kept one is missing or has expired,
  -- and what is opened is a kept link that is good for more than five seconds.
  pub act-IsJustified :
      (now : ℕ) (fresh : Text) (action : Action) (m : Manager)
      → let after = act policy date_parse now fresh action m in
        (after.0.documents ≡ m.documents) × IsJustified now m after.1
  unfolding Fine
  act-IsJustified now fresh action m = act-Fine now fresh action m
