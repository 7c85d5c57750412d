-- ===== src/Onboarding/Store/Tests.antt =====
-- A save and a load with a codec that reads one progress back, and the theorems at it.
use scholarmatch_ai.Base.{true, false, Option, none, some, ◌≡◌, refl, ◌⊎◌, inl}
use scholarmatch_ai.Base.Text.{Text, codes}
use scholarmatch_ai.Onboarding.Types.{empty_draft, consent}
use scholarmatch_ai.Onboarding.Store.{
  OnboardingProgress, Value, versioned, make_progress, progress_of, candidate, Places, Storage,
  reached, refused, applied, text_ge, read_local, load, save, clear,
}
use scholarmatch_ai.Onboarding.Store.Laws.{IsRecent, load-IsRecent, load-save, save-load_elsewhere}

abbrev written : OnboardingProgress
written = make_progress (codes "2026-02-01T00:00:00.000Z") empty_draft (some consent)

abbrev older : OnboardingProgress
older = make_progress (codes "2026-01-31T00:00:00.000Z") empty_draft none

abbrev stringify : OnboardingProgress → Text
stringify p = codes "{}"

abbrev parse : Text → Option Value
parse s = some (versioned written)

abbrev browser : Storage
browser = record { has_window = true; works = true }

abbrev private_mode : Storage
private_mode = record { has_window = true; works = false }

abbrev stale : Places
stale = record { local = none; remote = some (versioned older) }

offline_save :
    load parse browser reached (save parse stringify browser refused written stale).0 ≡ some written
unfolding load save make_progress text_ge
offline_save = refl

lost_save :
    load parse private_mode reached (save parse stringify private_mode refused written stale).0
    ≡ some older
unfolding load save make_progress text_ge
lost_save = refl

cleared : load parse browser reached (clear browser applied stale) ≡ none
unfolding load clear
cleared = refl

remote_copy : progress_of (candidate reached stale.remote) ≡ some older
unfolding progress_of make_progress
remote_copy = refl

version_of_written : written.version ≡ 1
unfolding make_progress
version_of_written = refl

load-IsRecent_example :
    (q : OnboardingProgress) × (load parse browser reached stale ≡ some q)
    × ((progress_of (candidate reached stale.remote) ≡ some q)
        ⊎ (read_local parse browser stale.local ≡ some q))
    × IsRecent q older
load-IsRecent_example = load-IsRecent parse stringify browser reached stale older (inl remote_copy)

load-save_example :
    (q : OnboardingProgress) × (load parse browser reached
        (save parse stringify browser refused written stale).0
      ≡ some q)
    × ((q ≡ written) ⊎ (progress_of stale.remote ≡ some q))
    × IsRecent q written
load-save_example =
    load-save parse stringify browser refused reached stale written refl version_of_written refl

save-load_elsewhere_example :
    (q : OnboardingProgress) × (load parse browser reached
        (record (save parse stringify private_mode applied written stale).0 {
          local = some (codes "x");
        })
      ≡ some q)
    × ((q ≡ written) ⊎ (read_local parse browser (some (codes "x")) ≡ some q))
    × IsRecent q written
save-load_elsewhere_example =
    save-load_elsewhere parse stringify private_mode browser stale written (some (codes "x"))
      version_of_written refl
