-- ===== src/Documents/Library.antt =====
-- The library that the document manager shows, as a map from ids to documents: what each answer
-- does to it, and that the list of documents implements it.
use scholarmatch_ai.Base.{
  true, false, not, List, [], ◌∷◌, Option, none, some, ℕ, ◌≡◌, refl, sym, ap, ◌∙◌, arith,
  if◌then◌else◌, any, find, keep, map, Bool-cases, inl, inr,
}
use scholarmatch_ai.Base.Text.{Text, text_eq, text_eq_sound}
use scholarmatch_ai.Documents.{DocumentResponse}
use scholarmatch_ai.Documents.Manager.{
  Manager, upload_file, replace_file, rename_document, sign_download, delete_document, has_id,
  replace_document,
}
use scholarmatch_ai.Documents.Handlers.{
  Answer, document_answer, url_answer, deleted_answer, progress_answer, failed_answer, answered,
}
use scholarmatch_ai.Documents.Upload.{is_signed_url_expired}

abbrev pub Library : Type 0
Library = Text → Option DocumentResponse

-- The abstract operations.
abbrev pub store : DocumentResponse → Library → Library
store next library id = if text_eq next.id id then some next else library id

abbrev pub erase : Text → Library → Library
erase gone library id = if text_eq gone id then none else library id

-- What an answer means for the library.
unfoldable pub meaning : Answer → Library → Library
unfolding text_eq
meaning (document_answer (upload_file file kind) next) library = store next library
meaning (document_answer (replace_file id file) next) library = store next library
meaning (document_answer (rename_document id name) next) library = store next library
meaning (document_answer (sign_download id) next) library = library
meaning (document_answer (delete_document id) next) library = library
meaning (url_answer id signed) library = library
meaning (deleted_answer id) library = erase id library
meaning (progress_answer percent) library = library
meaning (failed_answer message) library = library

-- The library that a list of documents stands for.
abbrev pub library_of : List DocumentResponse → Library
library_of documents id = find (has_id id) documents

swap : DocumentResponse → List DocumentResponse → List DocumentResponse
unfolding text_eq
swap next = map (λ (d : DocumentResponse). if has_id next.id d then next else d)

-- Texts that are equal compare alike.
alike : (s t u : Text) → text_eq s t ≡ true → text_eq s u ≡ text_eq t u
alike s t u e = ap (λ x. text_eq x u) (text_eq_sound s t e)

alike_right : (s t u : Text) → text_eq s t ≡ true → text_eq u s ≡ text_eq u t
alike_right s t u e = ap (λ x. text_eq u x) (text_eq_sound s t e)

library_of-swap_self :
    (next : DocumentResponse) (documents : List DocumentResponse) (id : Text)
    → text_eq next.id id ≡ true
    → any (has_id next.id) documents ≡ true
    → library_of (swap next documents) id ≡ some next
unfolding swap
library_of-swap_self next [] id same h = absurd (cc)
library_of-swap_self next (d ∷ documents) id same h = elim (Bool-cases (text_eq d.id next.id)) [
  | inl e ↦ rw (e, same) refl
  | inr e ↦
      let other = sym (alike_right next.id id d.id same) ∙ e in
      rw (e, other) (library_of-swap_self next documents id same (ground arith))
]

library_of-swap_other :
    (next : DocumentResponse) (documents : List DocumentResponse) (id : Text)
    → text_eq next.id id ≡ false
    → library_of (swap next documents) id ≡ library_of documents id
unfolding swap
library_of-swap_other next [] id other = refl
library_of-swap_other next (d ∷ documents) id other =
    let rest = library_of-swap_other next documents id other in
    elim (Bool-cases (text_eq d.id next.id)) [
      | inl e ↦ rw (e, alike d.id next.id id e, other) rest
      | inr e ↦ rw e (ap (λ x. if text_eq d.id id then some d else x) rest)
    ]

library_of-replace_document :
    (next : DocumentResponse) (documents : List DocumentResponse) (id : Text)
    → library_of (replace_document next documents) id ≡ store next (library_of documents) id
unfolding replace_document swap
library_of-replace_document next documents id = elim (Bool-cases (any (has_id next.id) documents)) [
  | inr absent ↦ rw absent refl
  | inl found ↦ rw found (elim (Bool-cases (text_eq next.id id)) [
    | inl same ↦ library_of-swap_self next documents id same found ∙ rw same refl
    | inr other ↦ library_of-swap_other next documents id other ∙ rw other refl
  ])
]

abbrev pub without : Text → List DocumentResponse → List DocumentResponse
without id = keep (λ (d : DocumentResponse). not (has_id id d))

library_of-without :
    (gone : Text) (documents : List DocumentResponse) (id : Text)
    → library_of (without gone documents) id ≡ erase gone (library_of documents) id
library_of-without gone [] id = ground arith
library_of-without gone (d ∷ documents) id =
    let rest = library_of-without gone documents id in
    elim (Bool-cases (text_eq d.id gone)) [
      | inl e ↦ rw e (
          rest ∙ elim (Bool-cases (text_eq gone id)) [
            | inl same ↦ rw same refl
            | inr other ↦ rw (other, alike d.id gone id e, other) refl
          ])
      | inr e ↦ rw e (elim (Bool-cases (text_eq gone id)) [
        | inl same ↦
            let differs = sym (alike_right gone id d.id same) ∙ e in
            rw (differs, same) (rest ∙ ap (λ b. if b then none else library_of documents id) same)
        | inr other ↦ rw other (
            ap (λ x. if text_eq d.id id then some d else x)
              (rest ∙ ap (λ b. if b then none else library_of documents id) other))
      ])
    ]

-- The manager's list implements the library: each answer does to what is found under an id what
-- it means for the library.
pub library_of-answered :
    (date_parse : Text → Option ℕ) (now : ℕ) (answer : Answer) (m : Manager)
    → library_of (answered date_parse now answer m).0.documents
      ≡ meaning answer (library_of m.documents)
unfolding answered meaning
library_of-answered date_parse now (document_answer (upload_file file kind) next) m =
    λ i id. library_of-replace_document next m.documents id i
library_of-answered date_parse now (document_answer (replace_file _ file) next) m =
    λ i id. library_of-replace_document next m.documents id i
library_of-answered date_parse now (document_answer (rename_document _ name) next) m =
    λ i id. library_of-replace_document next m.documents id i
library_of-answered date_parse now (document_answer (sign_download _) next) m = refl
library_of-answered date_parse now (document_answer (delete_document _) next) m = refl
library_of-answered date_parse now (url_answer _ signed) m =
    elim (Bool-cases (is_signed_url_expired date_parse signed.expires_at now)) [
      | inl expired ↦ rw expired refl
      | inr good ↦ rw good refl
    ]
library_of-answered date_parse now (deleted_answer gone) m =
    λ i id. library_of-without gone m.documents id i
library_of-answered date_parse now (progress_answer percent) m = refl
library_of-answered date_parse now (failed_answer message) m = refl
