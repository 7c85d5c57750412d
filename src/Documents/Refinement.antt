-- ===== src/Documents/Refinement.antt =====
-- Runs of the document manager, with presses and answers in any order: the abstract library that
-- the list of documents implements, and that no id is there twice.
use scholarmatch_ai.Base.{
  false, List, [], ◌∷◌, Option, ℕ, ◌≡◌, refl, sym, ap, ◌∙◌, arith, if◌then◌else◌, any, map,
  Bool-cases, inl, inr,
}
use mathlib.Core.Path.{subst}
use scholarmatch_ai.Base.Text.{Text, text_eq, text_eq_sound}
use scholarmatch_ai.Documents.{DocumentResponse, DocumentUploadPolicy}
use scholarmatch_ai.Documents.Manager.{
  Manager, has_id, replace_document, upload_file, replace_file, rename_document, sign_download,
  delete_document,
}
use scholarmatch_ai.Documents.Handlers.{
  Answer, document_answer, url_answer, deleted_answer, progress_answer, failed_answer, answered,
  Action, act, ManagerEffect,
}
use scholarmatch_ai.Documents.Upload.{is_signed_url_expired}
use scholarmatch_ai.Documents.Library.{Library, library_of, meaning, library_of-answered, without}
use scholarmatch_ai.Documents.Runs.{act-IsJustified}

-- What happens to the manager, with the time: a press with a key at hand, or an answer.
pub data Input : Type 0 where
  does : Action → ℕ → Text → Input
  gets : Answer → ℕ → Input

-- No id is there twice.
abbrev pub IsUnique : List DocumentResponse → Type 0
IsUnique [] = Unit
IsUnique (d ∷ documents) = (any (has_id d.id) documents ≡ false) × IsUnique documents

any-swap :
    (id : Text) (next : DocumentResponse) (documents : List DocumentResponse)
    → any
        (has_id id)
        (map (λ (d : DocumentResponse). if has_id next.id d then next else d) documents)
      ≡ any (has_id id) documents
any-swap id next [] = refl
any-swap id next (d ∷ documents) =
    let rest = any-swap id next documents in
    elim (Bool-cases (text_eq d.id next.id)) [
      | inl same ↦ rw (same, rest, ap (λ x. text_eq x id) (text_eq_sound d.id next.id same)) refl
      | inr other ↦ rw (other, rest) refl
    ]

swap-IsUnique :
    (next : DocumentResponse) (documents : List DocumentResponse)
    → IsUnique documents
    → IsUnique (map (λ (d : DocumentResponse). if has_id next.id d then next else d) documents)
swap-IsUnique next [] h = tt
swap-IsUnique next (d ∷ documents) (h, hs) = elim (Bool-cases (text_eq d.id next.id)) [
  | inl same ↦ rw same (
    any-swap next.id next documents
        ∙ (ap (λ x. any (has_id x) documents) (sym (text_eq_sound d.id next.id same)) ∙ h),
    swap-IsUnique next documents hs,
  )
  | inr other ↦ rw other (any-swap d.id next documents ∙ h, swap-IsUnique next documents hs)
]

replace_document-IsUnique :
    (next : DocumentResponse) (documents : List DocumentResponse)
    → IsUnique documents
    → IsUnique (replace_document next documents)
unfolding replace_document
replace_document-IsUnique next documents h = elim (Bool-cases (any (has_id next.id) documents)) [
  | inl found ↦ rw found (swap-IsUnique next documents h)
  | inr absent ↦ rw absent (absent, h)
]

any-without :
    (id gone : Text) (documents : List DocumentResponse)
    → any (has_id id) documents ≡ false
    → any (has_id id) (without gone documents) ≡ false
any-without id gone [] h = refl
any-without id gone (d ∷ documents) h = ground (arith, any-without id gone documents)

without-IsUnique :
    (gone : Text) (documents : List DocumentResponse)
    → IsUnique documents
    → IsUnique (without gone documents)
without-IsUnique gone [] h = tt
without-IsUnique gone (d ∷ documents) (h, hs) =
    let rest = without-IsUnique gone documents hs in
    elim (Bool-cases (text_eq d.id gone)) [
      | inl same ↦ rw same rest
      | inr other ↦ rw other (any-without d.id gone documents h, rest)
    ]

answered-IsUnique :
    (date_parse : Text → Option ℕ) (now : ℕ) (answer : Answer) (m : Manager)
    → IsUnique m.documents
    → IsUnique (answered date_parse now answer m).0.documents
unfolding answered
answered-IsUnique date_parse now (document_answer (upload_file file kind) next) m h =
    replace_document-IsUnique next m.documents h
answered-IsUnique date_parse now (document_answer (replace_file _ file) next) m h =
    replace_document-IsUnique next m.documents h
answered-IsUnique date_parse now (document_answer (rename_document _ name) next) m h =
    replace_document-IsUnique next m.documents h
answered-IsUnique date_parse now (document_answer (sign_download _) next) m h = h
answered-IsUnique date_parse now (document_answer (delete_document _) next) m h = h
answered-IsUnique date_parse now (url_answer _ signed) m h =
    elim (Bool-cases (is_signed_url_expired date_parse signed.expires_at now)) [
      | inl expired ↦ rw expired h
      | inr good ↦ rw good h
    ]
answered-IsUnique date_parse now (deleted_answer gone) m h = without-IsUnique gone m.documents h
answered-IsUnique date_parse now (progress_answer percent) m h = h
answered-IsUnique date_parse now (failed_answer message) m h = h

module _ (policy : DocumentUploadPolicy) (date_parse : Text → Option ℕ) where
  unfoldable pub input_step : Input → Manager → Manager × ManagerEffect
  unfolding act answered
  input_step (does action now fresh) m = act policy date_parse now fresh action m
  input_step (gets answer now) m = answered date_parse now answer m

  unfoldable pub input_steps : List Input → Manager → Manager
  unfolding input_step
  input_steps [] m = m
  input_steps (input ∷ inputs) m = input_steps inputs (input_step input m).0

  -- The answers of a run, in their order.
  abbrev pub answers : List Input → List Answer
  answers [] = []
  answers (does action now fresh ∷ inputs) = answers inputs
  answers (gets answer now ∷ inputs) = answer ∷ answers inputs

  abbrev pub meanings : List Answer → Library → Library
  meanings [] library = library
  meanings (answer ∷ rest) library = meanings rest (meaning answer library)

  -- Along every run of presses and answers, the list of documents implements the abstract library:
  -- looking up any id in it gives what the answers alone, read as stores and erasures, make of the
  -- library at the start.
  pub library_of-input_steps :
      (inputs : List Input) (m : Manager)
      → library_of (input_steps inputs m).documents
        ≡ meanings (answers inputs) (library_of m.documents)
  unfolding input_steps input_step
  library_of-input_steps [] m = refl
  library_of-input_steps (does action now fresh ∷ inputs) m =
      library_of-input_steps inputs _
      ∙ ap (λ documents. meanings (answers inputs) (library_of documents))
          (act-IsJustified policy date_parse now fresh action m).0
  library_of-input_steps (gets answer now ∷ inputs) m =
      library_of-input_steps inputs _
      ∙ ap (meanings (answers inputs)) (library_of-answered date_parse now answer m)

  -- Along every run of presses and answers, a list of documents in which no id is twice stays so.
  pub input_steps-IsUnique :
      (inputs : List Input) (m : Manager)
      → IsUnique m.documents
      → IsUnique (input_steps inputs m).documents
  unfolding input_steps input_step
  input_steps-IsUnique [] m h = h
  input_steps-IsUnique (does action now fresh ∷ inputs) m h =
      input_steps-IsUnique inputs _
        (subst IsUnique (sym (act-IsJustified policy date_parse now fresh action m).0) h)
  input_steps-IsUnique (gets answer now ∷ inputs) m h =
      input_steps-IsUnique inputs _ (answered-IsUnique date_parse now answer m h)
