-- ===== src/Profile/Tests.antt =====
-- A half complete profile, and the theorem at it.
use scholarmatch_ai.Base.{[], none, some, ◌+◌, length, ◌≡◌, refl, ◌≤◌, ◌↔◌, All, true, false}
use scholarmatch_ai.Base.Text.{codes}
use scholarmatch_ai.Base.Text.Trim.{trim}
use scholarmatch_ai.Base.Number.{finite}
use scholarmatch_ai.Profile.Completeness.{ProfileResponse, profile_completeness}
use scholarmatch_ai.Profile.Completeness.Laws.{profile_completeness_lem}

abbrev ada : ProfileResponse
ada = record {
  full_name = codes "Ada";
  country = codes "KE";
  study_level = codes "doctoral";
  field_of_study = some (codes "  ");
  gpa = some (finite false 0);
  interests = [];
  goals = none;
}

completeness_test :
    ((profile_completeness ada).completed ≡ 4) × ((profile_completeness ada).percent ≡ 57)
unfolding profile_completeness trim
completeness_test = (refl, refl)

profile_completeness_lem_example :
    ((profile_completeness ada).completed + length (profile_completeness ada).missing
      ≡ (profile_completeness ada).total)
    × ((profile_completeness ada).percent ≤ 100)
    × (((profile_completeness ada).percent ≡ 100)
        ↔ All (λ f. f.complete ≡ true) (profile_completeness ada).facts)
profile_completeness_lem_example = profile_completeness_lem ada
