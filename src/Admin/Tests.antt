-- ===== src/Admin/Tests.antt =====
-- A merge of duplicates on small inputs.
use scholarmatch_ai.Base.{[], ◌∷◌, none, some, false, ◌≡◌, ◌≢◌, refl, ap, true-false}
use scholarmatch_ai.Base.Text.{Text, codes, text_eq}
use scholarmatch_ai.Base.Text.Trim.{trim}
use scholarmatch_ai.Mutations.{get}
use scholarmatch_ai.Admin.Duplicates.{
  DuplicateGroup, Duplicates, MergeRequest, merge, merge_failed, type_notes, cancel_merge,
  preview_merge, canonical_id, trimmed_notes,
}
use scholarmatch_ai.Admin.Duplicates.Laws.{merge-key_reused}

abbrev group : DuplicateGroup
group = record {
  id = codes "g";
  candidates =
      record { scholarship_id = codes "s1"; title = codes "Grant" }
      ∷ record { scholarship_id = codes "s2"; title = codes "Grant" }
      ∷ [];
}

abbrev duplicates : Duplicates
duplicates = record {
  groups = group ∷ [];
  canonical = [];
  notes = (codes "g", codes "same") ∷ [];
  confirming = some (codes "g");
  typed = [];
  pending = false;
  error = none;
  retry_keys = [];
}

same_checked : codes "same" ≢ codes "checked"
unfolding text_eq
same_checked e = true-false (ap (λ s. text_eq s (codes "same")) e)

merge-key_reused_example :
    let sent = merge (codes "k1") duplicates in
    let edited =
      type_notes
        (codes "g")
        (codes "checked")
        (cancel_merge (merge_failed (codes "offline") sent.0)) in
    let again = merge (codes "k2") (preview_merge group edited) in
    (request other : MergeRequest) × (key : Text) × (sent.1 ≡ some (request, key))
    × (again.1 ≡ some (other, key))
    × (request ≢ other)
unfolding canonical_id trimmed_notes get trim text_eq
merge-key_reused_example =
    merge-key_reused duplicates group (codes "s1") (codes "same") (codes "checked")
      (codes "checked") (codes "offline") (codes "k1") (codes "k2") refl refl refl refl refl
      same_checked
