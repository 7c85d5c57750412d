-- ===== src/Admin/Duplicates/Laws.antt =====
-- What a merge asks for, and a key that stands for two different merges.
use scholarmatch_ai.Base.{
  true, false, List, [], ◌∷◌, none, some, ◌≡◌, ◌≢◌, refl, sym, ap, ◌∙◌, In, here, there, Bool-cases,
  inl, inr, ◌⊎◌, or_else, All, is_some, if◌then◌else◌,
}
use mathlib.Core.Path.{subst}
use mathlib.Core.Option
use scholarmatch_ai.Base.Text.{text_eq_ne, Text, text_eq, text_eq_sound}
use scholarmatch_ai.Base.Text.Trim.{trim}
use scholarmatch_ai.Api.Errors.{truthy}
use scholarmatch_ai.Mutations.{get, put}
use scholarmatch_ai.Mutations.Keys.{get-put_self}
use scholarmatch_ai.Admin.Duplicates.{
  DuplicateCandidate, DuplicateGroup, MergeRequest, confirmed_group, canonical_id, trimmed_notes,
  merge_operation, duplicates_of, merge_request, merge_found, merge, merge_failed, type_notes,
  preview_merge, cancel_merge, Duplicates,
}

Placed : Text → List Text → DuplicateCandidate → Type 0
Placed canonical ids c = (c.scholarship_id ≡ canonical) ⊎ In c.scholarship_id ids

more-Placed :
    (canonical more : Text) (ids : List Text) (candidates : List DuplicateCandidate)
    → All (Placed canonical ids) candidates
    → All (Placed canonical (more ∷ ids)) candidates
unfolding Placed
more-Placed canonical more ids [] h = tt
more-Placed canonical more ids (c ∷ candidates) (inl e, h) =
    (inl e, more-Placed canonical more ids candidates h)
more-Placed canonical more ids (c ∷ candidates) (inr m, h) =
    (inr (there m), more-Placed canonical more ids candidates h)

skipped :
    (canonical : Text) (c : DuplicateCandidate) (candidates : List DuplicateCandidate)
    → text_eq c.scholarship_id canonical ≡ true
    → duplicates_of canonical (c ∷ candidates) ≡ duplicates_of canonical candidates
unfolding duplicates_of
skipped canonical c candidates same = rw same refl

listed :
    (canonical : Text) (c : DuplicateCandidate) (candidates : List DuplicateCandidate)
    → text_eq c.scholarship_id canonical ≡ false
    → duplicates_of canonical (c ∷ candidates)
      ≡ c.scholarship_id ∷ duplicates_of canonical candidates
unfolding duplicates_of
listed canonical c candidates differs = rw differs refl

duplicates_of-split :
    (canonical : Text) (candidates : List DuplicateCandidate)
    → All (λ id. id ≢ canonical) (duplicates_of canonical candidates)
      × All (Placed canonical (duplicates_of canonical candidates)) candidates
unfolding duplicates_of Placed
duplicates_of-split canonical [] = (tt, tt)
duplicates_of-split canonical (c ∷ candidates) =
    let (others, rest) = duplicates_of-split canonical candidates in
    let goal = λ (ids : List Text).
      All (λ id. id ≢ canonical) ids × All (Placed canonical ids) (c ∷ candidates) in
    elim (Bool-cases (text_eq c.scholarship_id canonical)) [
      | inl same ↦
          subst goal (sym (skipped canonical c candidates same))
            (others, (inl (text_eq_sound _ _ same), rest))
      | inr differs ↦ subst goal (sym (listed canonical c candidates differs)) (
        (text_eq_ne _ _ differs, others),
        (inr (here refl), more-Placed canonical c.scholarship_id _ candidates rest),
      )
    ]

-- The state after a merge was sent with a key.
merge-sent :
    (fresh : Text) (m : Duplicates) (group : DuplicateGroup) (id text : Text)
    → confirmed_group m.confirming m.groups ≡ some group
    → truthy (canonical_id m group) ≡ some id
    → trimmed_notes m group ≡ some text
    → let key = or_else (get (merge_operation group.id id) m.retry_keys) fresh in
      merge fresh m ≡ (
        record m {
          retry_keys = put (merge_operation group.id id) key m.retry_keys;
          pending = true;
          error = none;
        },
        some (merge_request group id text, key),
      )
unfolding merge
merge-sent fresh m group id text g c n = rw (g, merge_found, c, n) refl

noted :
    (m : Duplicates) (group : DuplicateGroup) (text : Text)
    → trimmed_notes (type_notes group.id text m) group ≡ truthy (some (trim text))
unfolding trimmed_notes type_notes
noted m group text = ap (λ o. truthy (Option.map trim o)) (get-put_self group.id text m.notes)

previewed :
    (m : Duplicates) (group : DuplicateGroup) (text : Text)
    → trimmed_notes m group ≡ some text
    → preview_merge group m ≡ record m {
      confirming = some group.id;
      typed = if is_some m.confirming then m.typed else [];
    }
unfolding preview_merge
previewed m group text e = rw (preview_merge, e) refl

-- A merge of a group that is being confirmed and whose request has failed, confirmed again after
-- the confirmation was cancelled and the notes of the group were changed to ones that read
-- differently when trimmed, goes out under the same idempotency key with another body, whatever
-- keys are made: one key reaches the service with two different requests.
pub merge-key_reused :
    (m : Duplicates) (group : DuplicateGroup) (id text new text' message fresh fresh' : Text)
    → m.confirming ≡ some group.id
    → confirmed_group (some group.id) m.groups ≡ some group
    → truthy (canonical_id m group) ≡ some id
    → trimmed_notes m group ≡ some text
    → truthy (some (trim new)) ≡ some text'
    → text ≢ text'
    → let sent = merge fresh m in
      let edited = type_notes group.id new (cancel_merge (merge_failed message sent.0)) in
      let again = merge fresh' (preview_merge group edited) in
      (request other : MergeRequest) × (key : Text) × (sent.1 ≡ some (request, key))
      × (again.1 ≡ some (other, key))
      × (request ≢ other)
unfolding canonical_id trimmed_notes type_notes cancel_merge merge_failed
merge-key_reused m group id text new text' message fresh fresh' conf found c n n' differs =
    let operation = merge_operation group.id id in
    let key = or_else (get operation m.retry_keys) fresh in
    let found_now = ap (λ x. confirmed_group x m.groups) conf ∙ found in
    let sent = merge-sent fresh m group id text found_now c n in
    let rest =
      λ (d : Duplicates). type_notes group.id new (cancel_merge (merge_failed message d)) in
    let kept = record m {
      retry_keys = put operation key m.retry_keys;
      pending = true;
      error = none;
    } in
    let noted_now = noted (cancel_merge (merge_failed message kept)) group new ∙ n' in
    let shown = previewed (rest kept) group text' noted_now in
    let ready = record (rest kept) {
      confirming = some group.id;
      typed = if is_some (rest kept).confirming then (rest kept).typed else [];
    } in
    let second = merge-sent fresh' ready group id text' found c noted_now in
    (
      merge_request group id text,
      merge_request group id text',
      key,
      ap (λ x. x.1) sent,
      ap (λ x. (merge fresh' (preview_merge group (rest x.0))).1) sent
          ∙ (ap (λ x. (merge fresh' x).1) shown
              ∙ (ap (λ x. x.1) second
                  ∙ ap (λ o. some (merge_request group id text', or_else o fresh'))
                      (get-put_self operation key m.retry_keys))),
      λ same. differs (ap (λ (r : MergeRequest). r.reviewer_notes) same),
    )

-- Where a group is being confirmed that has a canonical record, and its notes are not empty when
-- trimmed, a merge is sent into that record; each candidate of the group is that record or one of
-- the duplicates that the request names, and the record is none of these.
pub merge_complete :
    (fresh : Text) (m : Duplicates) (group : DuplicateGroup) (id text : Text)
    → confirmed_group m.confirming m.groups ≡ some group
    → truthy (canonical_id m group) ≡ some id
    → trimmed_notes m group ≡ some text
    → (request : MergeRequest) × (key : Text) × ((merge fresh m).1 ≡ some (request, key))
      × (request.canonical_scholarship_id ≡ id)
      × All (λ other. other ≢ id) request.duplicate_scholarship_ids
      × All
          (λ (c : DuplicateCandidate).
            (c.scholarship_id ≡ id) ⊎ In c.scholarship_id request.duplicate_scholarship_ids)
          group.candidates
unfolding Placed
merge_complete fresh m group id text found c n =
    let (others, placed) = duplicates_of-split id group.candidates in
    (
      merge_request group id text,
      _,
      ap (λ x. x.1) (merge-sent fresh m group id text found c n),
      refl,
      others,
      placed,
    )
