-- ===== src/Applications/Board.antt =====
-- The board and the list of applications of
-- frontend/app/components/applications/application-workspace.tsx.
use scholarmatch_ai.Base.{
  Bool, true, List, [], ◌∷◌, ◌++◌, map, ◌≡◌, ◌≢◌, ◌↔◌, refl, sym, ap, ◌∙◌, arith, ℕ, ◌+◌,
  if◌then◌else◌, In, here, there, All, keep, ◌⊎◌, Bool-cases, inl, inr,
}
use mathlib.Core.Path.{ap₂}
use mathlib.Core.List.{perm_middle, Perm}
use mathlib.Core.List.Perm
use scholarmatch_ai.Applications.Requests.{status_word_inj}
use scholarmatch_ai.Base.Text.{text_eq_ne, Text, text_eq, text_eq_sound, text_eq_refl}
use scholarmatch_ai.Applications.{
  ApplicationStatus, saved, preparing, ready, submitted, interview, awarded, unsuccessful,
  withdrawn, statuses, status_word, ApplicationResponse,
}

-- `===` on statuses
unfoldable pub status_eq : ApplicationStatus → ApplicationStatus → Bool
unfolding text_eq status_word
status_eq s t = text_eq (status_word s) (status_word t)

-- `replaceApplication`
unfoldable pub replace_application :
    ApplicationResponse → List ApplicationResponse → List ApplicationResponse
unfolding text_eq
replace_application next [] = []
replace_application next (a ∷ applications) =
    (if text_eq a.id next.id then next else a) ∷ replace_application next applications

-- The items of a column.
unfoldable pub column : ApplicationStatus → List ApplicationResponse → List ApplicationResponse
unfolding status_eq
column status applications =
    keep (λ (a : ApplicationResponse). status_eq a.status status) applications

-- The board, column by column, each with its status.
unfoldable pub board :
    List ApplicationResponse → List (ApplicationStatus × List ApplicationResponse)
unfolding column
board applications = map (λ status. (status, column status applications)) statuses

pub data View : Type 0 where
  board_view : View
  list_view : View

-- The state of `ApplicationWorkspace`.
pub record Workspace : Type 0 where
  pub applications : List ApplicationResponse
  pub view : View

unfoldable pub opened_workspace : List ApplicationResponse → Workspace
opened_workspace initial = record { applications = initial; view = board_view }

unfoldable pub set_view : View → Workspace → Workspace
set_view view workspace = record workspace { view = view }

-- `onChange` of a card.
unfoldable pub changed : ApplicationResponse → Workspace → Workspace
unfolding replace_application
changed next workspace = record workspace {
  applications = replace_application next workspace.applications;
}

-- The board's items, column after column.
abbrev pub flatten : List (ApplicationStatus × List ApplicationResponse) → List ApplicationResponse
flatten [] = []
flatten ((status, items) ∷ columns) = items ++ flatten columns

-- Every item stands in the column of its status.
abbrev pub IsSorted : List (ApplicationStatus × List ApplicationResponse) → Type 0
IsSorted = All (λ (column : ApplicationStatus × List ApplicationResponse).
    All (λ (a : ApplicationResponse). a.status ≡ column.0) column.1)

status_eq_iff : (s t : ApplicationStatus) → (status_eq s t ≡ true) ↔ (s ≡ t)
unfolding status_eq
status_eq_iff s t = (
  λ e. status_word_inj s t (text_eq_sound _ _ e),
  λ e. ap (λ x. text_eq (status_word s) (status_word x)) (sym e) ∙ text_eq_refl (status_word s),
)

abbrev columns_of :
    List ApplicationStatus
    → List ApplicationResponse
    → List (ApplicationStatus × List ApplicationResponse)
columns_of ss applications = map (λ s. (s, column s applications)) ss

column-All :
    (s : ApplicationStatus) (applications : List ApplicationResponse)
    → All (λ (a : ApplicationResponse). a.status ≡ s) (column s applications)
unfolding column
column-All s [] = tt
column-All s (a ∷ applications) = elim (Bool-cases (status_eq a.status s)) [
  | inl same ↦ rw same ((status_eq_iff a.status s).0 same, column-All s applications)
  | inr differs ↦ rw differs (column-All s applications)
]

columns-IsSorted :
    (ss : List ApplicationStatus) (applications : List ApplicationResponse)
    → IsSorted (columns_of ss applications)
columns-IsSorted [] applications = tt
columns-IsSorted (s ∷ ss) applications =
    (column-All s applications, columns-IsSorted ss applications)

-- How often a list of statuses holds one.
abbrev count : ApplicationStatus → List ApplicationStatus → ℕ
count s [] = 0
count s (t ∷ ss) = (if status_eq s t then 1 else 0) + count s ss

absent :
    (a : ApplicationResponse) (ss : List ApplicationStatus)
    (applications : List ApplicationResponse)
    → count a.status ss ≡ 0
    → flatten (columns_of ss (a ∷ applications)) ≡ flatten (columns_of ss applications)
unfolding column
absent a [] applications e = refl
absent a (s ∷ ss) applications e = elim (Bool-cases (status_eq a.status s)) [
  | inl same ↦ absurd (ground arith)
  | inr differs ↦
      rw differs (ap (λ x. column s applications ++ x) (absent a ss applications (ground arith)))
]

present :
    (a : ApplicationResponse) (ss : List ApplicationStatus)
    (applications : List ApplicationResponse)
    → count a.status ss ≡ 1
    → Perm (flatten (columns_of ss (a ∷ applications))) (a ∷ flatten (columns_of ss applications))
unfolding column
present a [] applications e = absurd (omega arith)
present a (s ∷ ss) applications e = elim (Bool-cases (status_eq a.status s)) [
  | inl same ↦ rw (same, absent a ss applications (ground arith)) (Perm.refl _)
  | inr differs ↦ rw differs (
      Perm.trans
        (Perm.append_left (column s applications) (present a ss applications (ground arith)))
        (perm_middle (column s applications) _))
]

once : (s : ApplicationStatus) → count s statuses ≡ 1
unfolding status_eq status_word text_eq
once saved = refl
once preparing = refl
once ready = refl
once submitted = refl
once interview = refl
once awarded = refl
once unsuccessful = refl
once withdrawn = refl

flatten-Perm :
    (applications : List ApplicationResponse)
    → Perm (flatten (columns_of statuses applications)) applications
unfolding column
flatten-Perm [] = Perm.nil
flatten-Perm (a ∷ applications) =
    Perm.trans (present a statuses applications (once a.status))
      (Perm.cons a (flatten-Perm applications))

-- The board shows every application exactly as often as the list view does, and each in the
-- column of its status: the columns, one after the other, are a permutation of the applications,
-- and what stands in a column has its status.
pub board-Perm :
    (applications : List ApplicationResponse)
    → Perm (flatten (board applications)) applications × IsSorted (board applications)
unfolding board
board-Perm applications = (flatten-Perm applications, columns-IsSorted statuses applications)

abbrev pub ids : List ApplicationResponse → List Text
ids = map (λ (a : ApplicationResponse). a.id)

ids-replace_application :
    (next : ApplicationResponse) (applications : List ApplicationResponse)
    → ids (replace_application next applications) ≡ ids applications
unfolding replace_application
ids-replace_application next [] = refl
ids-replace_application next (b ∷ applications) =
    let rest = ids-replace_application next applications in
    elim (Bool-cases (text_eq b.id next.id)) [
      | inl same ↦ rw same (ap₂ (λ x y. x ∷ y) (sym (text_eq_sound b.id next.id same)) rest)
      | inr differs ↦ rw differs (ap (λ x. b.id ∷ x) rest)
    ]

-- Where an item of the new list comes from.
CameFrom : ApplicationResponse → ApplicationResponse → List ApplicationResponse → Type 0
CameFrom a next applications = (a ≡ next) ⊎ ((a.id ≢ next.id) × In a applications)

replace_application-CameFrom :
    (a next : ApplicationResponse) (applications : List ApplicationResponse)
    → In a (replace_application next applications)
    → CameFrom a next applications
unfolding replace_application CameFrom
replace_application-CameFrom a next [] m = elim m [ ]
replace_application-CameFrom a next (b ∷ applications) (here e) =
    elim (Bool-cases (text_eq b.id next.id)) [
      | inl same ↦ inl (e ∙ ap (λ t. if t then next else b) same)
      | inr differs ↦
          let is_b = e ∙ ap (λ t. if t then next else b) differs in
          inr (
            λ x.
                text_eq_ne b.id next.id differs
                  (sym (ap (λ (y : ApplicationResponse). y.id) is_b) ∙ x),
            here is_b,
          )
    ]
replace_application-CameFrom a next (b ∷ applications) (there m) =
    elim (replace_application-CameFrom a next applications m) [
      | inl e ↦ inl e
      | inr (h, n) ↦ inr (h, there n)
    ]

others_stay :
    (a next : ApplicationResponse) (applications : List ApplicationResponse)
    → a.id ≢ next.id
    → In a applications
    → In a (replace_application next applications)
unfolding replace_application
others_stay a next [] h m = elim m [ ]
others_stay a next (b ∷ applications) h (here e) = elim (Bool-cases (text_eq b.id next.id)) [
  | inl same ↦
      absurd (h (ap (λ (y : ApplicationResponse). y.id) e ∙ text_eq_sound b.id next.id same))
  | inr differs ↦ here (e ∙ sym (ap (λ t. if t then next else b) differs))
]
others_stay a next (b ∷ applications) h (there m) = there (others_stay a next applications h m)

-- An answer changes no application's place in the list and no other application: the ids stay in
-- their order, each item is then the answer or an item of before with another id, and every item
-- of before with another id is still there.
pub replace_application-ids :
    (next : ApplicationResponse) (applications : List ApplicationResponse)
    → (ids (replace_application next applications) ≡ ids applications)
      × ((a : ApplicationResponse)
          → In a (replace_application next applications)
          → (a ≡ next) ⊎ ((a.id ≢ next.id) × In a applications))
      × ((a : ApplicationResponse)
          → a.id ≢ next.id
          → In a applications
          → In a (replace_application next applications))
unfolding CameFrom
replace_application-ids next applications = (
  ids-replace_application next applications,
  (λ a m. replace_application-CameFrom a next applications m),
  λ a h m. others_stay a next applications h m,
)
