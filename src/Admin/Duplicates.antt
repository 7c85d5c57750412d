-- ===== src/Admin/Duplicates.antt =====
-- `DuplicateWorkspace` of frontend/app/components/admin/duplicate-workspace.tsx, with the typed
-- confirmation of frontend/app/components/admin/exact-confirmation.tsx. An `await` cuts `merge`.
pub mod Laws
use scholarmatch_ai.Base.{
  Bool, true, false, not, ◌||◌, List, [], ◌∷◌, ◌++◌, Option, none, some, if◌then◌else◌, map, keep,
  find, first?, or_else, is_some,
}
use mathlib.Core.Option
use scholarmatch_ai.Base.Text.{Text, codes, text_eq}
use scholarmatch_ai.Base.Text.Trim.{trim}
use scholarmatch_ai.Api.Errors.{truthy}
use scholarmatch_ai.Mutations.{TextMap, get, put, remove}

pub record DuplicateCandidate : Type 0 where
  pub scholarship_id : Text
  pub title : Text

pub record DuplicateGroup : Type 0 where
  pub id : Text
  pub candidates : List DuplicateCandidate

-- The state, with what stands in the field of the confirmation; `canonical` and `notes` are by
-- group.
pub record Duplicates : Type 0 where
  pub groups : List DuplicateGroup
  pub canonical : TextMap
  pub notes : TextMap
  pub confirming : Option Text
  pub typed : Text
  pub pending : Bool
  pub error : Option Text
  pub retry_keys : TextMap

pub record MergeRequest : Type 0 where
  pub group_id : Text
  pub canonical_scholarship_id : Text
  pub duplicate_scholarship_ids : List Text
  pub reviewer_notes : Text

abbrev pub confirmed_group : Option Text → List DuplicateGroup → Option DuplicateGroup
confirmed_group none groups = none
confirmed_group (some id) groups = find (λ (g : DuplicateGroup). text_eq g.id id) groups

-- `canonical[group.id] ?? group.candidates[0]?.scholarship_id`
abbrev pub or_first_candidate : Option Text → List DuplicateCandidate → Option Text
or_first_candidate (some id) candidates = some id
or_first_candidate none candidates =
    Option.map (λ (c : DuplicateCandidate). c.scholarship_id) (first? candidates)

unfoldable pub canonical_id : Duplicates → DuplicateGroup → Option Text
unfolding get
canonical_id m group = or_first_candidate (get group.id m.canonical) group.candidates

-- `notes[group.id]?.trim()`
unfoldable pub trimmed_notes : Duplicates → DuplicateGroup → Option Text
unfolding get trim
trimmed_notes m group = truthy (Option.map trim (get group.id m.notes))

unfoldable pub merge_operation : Text → Text → Text
merge_operation group canonical = codes "merge-" ++ (group ++ (codes "-" ++ canonical))

unfoldable pub duplicates_of : Text → List DuplicateCandidate → List Text
unfolding text_eq
duplicates_of canonical candidates =
    map (λ (c : DuplicateCandidate). c.scholarship_id)
      (keep (λ (c : DuplicateCandidate). not (text_eq c.scholarship_id canonical)) candidates)

abbrev pub merge_request : DuplicateGroup → Text → Text → MergeRequest
merge_request group canonical notes = record {
  group_id = group.id;
  canonical_scholarship_id = canonical;
  duplicate_scholarship_ids = duplicates_of canonical group.candidates;
  reviewer_notes = notes;
}

-- `merge` up to its request, on the group, the canonical id and the notes that it finds.
unfoldable pub merge_found :
    Text
    → Duplicates
    → Option DuplicateGroup
    → (DuplicateGroup → Option Text)
    → (DuplicateGroup → Option Text)
    → Duplicates × Option (MergeRequest × Text)
unfolding get put merge_operation duplicates_of
merge_found fresh m none canonical notes = (m, none)
merge_found fresh m (some group) canonical notes = elim (canonical group) [
  | none ↦ (m, none)
  | some id ↦ elim (notes group) [
    | none ↦ (m, none)
    | some text ↦
        let operation = merge_operation group.id id in
        let key = or_else (get operation m.retry_keys) fresh in
        (
          record m { retry_keys = put operation key m.retry_keys; pending = true; error = none },
          some (merge_request group id text, key),
        )
  ]
]

unfoldable pub merge : Text → Duplicates → Duplicates × Option (MergeRequest × Text)
unfolding merge_found canonical_id trimmed_notes
merge fresh m =
    merge_found fresh m (confirmed_group m.confirming m.groups)
      (λ group. truthy (canonical_id m group)) (trimmed_notes m)

-- The rest of it.
unfoldable pub merged : MergeRequest → Duplicates → Duplicates
unfolding remove merge_operation text_eq
merged request m = record m {
  retry_keys =
      remove (merge_operation request.group_id request.canonical_scholarship_id) m.retry_keys;
  groups = keep (λ (g : DuplicateGroup). not (text_eq g.id request.group_id)) m.groups;
  confirming = none;
  pending = false;
}

unfoldable pub merge_failed : Text → Duplicates → Duplicates
merge_failed message m = record m { error = some message; pending = false }

-- The other handlers.
unfoldable pub choose_canonical : Text → Text → Duplicates → Duplicates
unfolding put
choose_canonical group id m = record m { canonical = put group id m.canonical }

unfoldable pub type_notes : Text → Text → Duplicates → Duplicates
unfolding put
type_notes group text m = record m { notes = put group text m.notes }

unfoldable pub preview_merge : DuplicateGroup → Duplicates → Duplicates
unfolding trimmed_notes
preview_merge group m = elim (trimmed_notes m group) [
  | none ↦ m
  | some text ↦ record m {
    confirming = some group.id;
    typed = if is_some m.confirming then m.typed else [];
  }
]

unfoldable pub cancel_merge : Duplicates → Duplicates
cancel_merge m = record m { confirming = none }

-- `canonicalName`, where the confirmation is shown.
unfoldable pub canonical_name : Duplicates → DuplicateGroup → Option Text
unfolding canonical_id text_eq
canonical_name m group = elim (canonical_id m group) [
  | none ↦ none
  | some id ↦
      Option.map (λ (c : DuplicateCandidate). c.title)
        (find (λ (c : DuplicateCandidate). text_eq c.scholarship_id id) group.candidates)
]

unfoldable pub type_confirmation : Text → Duplicates → Duplicates
type_confirmation text m = record m { typed = text }

-- The confirmation's button, enabled where the typed text is the name.
unfoldable pub confirm_merge : Text → Duplicates → Duplicates × Option (MergeRequest × Text)
unfolding merge canonical_name text_eq
confirm_merge fresh m = elim (confirmed_group m.confirming m.groups) [
  | none ↦ (m, none)
  | some group ↦ elim (truthy (canonical_name m group)) [
    | none ↦ (m, none)
    | some name ↦ if m.pending || not (text_eq m.typed name) then (m, none) else merge fresh m
  ]
]
