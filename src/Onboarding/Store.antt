-- ===== src/Onboarding/Store.antt =====
-- frontend/app/lib/onboarding/store.ts: progress on this device and in the user's metadata. The
-- JSON codec, the clock, the browser's storage and the calls of Supabase are arguments.
pub mod Laws
mod Tests
use scholarmatch_ai.Base.{
  ℕ, Bool, true, false, List, [], ◌∷◌, ◌&&◌, Option, none, some, if◌then◌else◌, ltb, ◌==◌,
}
use scholarmatch_ai.Base.Text.{Text}
use scholarmatch_ai.Onboarding.Types.{OnboardingDraft, StepId}

-- `OnboardingProgress`; a stored value is checked for its version only, so `updatedAt` may be
-- absent.
pub record OnboardingProgress : Type 0 where
  pub draft : OnboardingDraft
  pub last_completed_step : Option StepId
  pub updated_at : Option Text
  pub version : ℕ

-- A value that JSON gives, or that the metadata holds: an object with a draft and a version, or
-- anything else.
pub data Value : Type 0 where
  versioned : OnboardingProgress → Value
  other : Value

abbrev pub onboarding_version : ℕ
onboarding_version = 1

unfoldable pub make_progress : Text → OnboardingDraft → Option StepId → OnboardingProgress
make_progress now draft step = record {
  draft = draft;
  last_completed_step = step;
  updated_at = some now;
  version = onboarding_version;
}

-- `isProgress(value) ? value : null`
unfoldable pub progress_of : Option Value → Option OnboardingProgress
progress_of none = none
progress_of (some other) = none
progress_of (some (versioned p)) = if p.version == onboarding_version then some p else none

-- `s >= t` on strings: by the first unit that differs.
unfoldable pub text_ge : Text → Text → Bool
text_ge s [] = true
text_ge [] (d ∷ t) = false
text_ge (c ∷ s) (d ∷ t) = let rest = text_ge s t in if c == d then rest else ltb d c

-- `a.updatedAt >= b.updatedAt`, which is false where one is undefined.
unfoldable pub updated_ge : OnboardingProgress → OnboardingProgress → Bool
updated_ge p q = elim p.updated_at [
  | none ↦ false
  | some s ↦ elim q.updated_at [ none ↦ false | some t ↦ text_ge s t ]
]

-- What the two places hold: the text under `LOCAL_KEY`, and the metadata under `METADATA_KEY`.
pub record Places : Type 0 where
  pub local : Option Text
  pub remote : Option Value

-- The browser's side of a call: whether there is a window, and whether the storage answers without
-- an exception.
pub record Storage : Type 0 where
  pub has_window : Bool
  pub works : Bool

-- How `getUser()` settles.
pub data Read : Type 0 where
  reached signed_out unreachable : Read

-- How `updateUser()` settles: it is applied, it gives an error, or it throws, and then the server
-- may have applied it or not.
pub data Update : Type 0 where
  applied refused : Update
  lost : Bool → Update

-- `remote.updatedAt >= local.updatedAt ? remote : local`, where both are there.
unfoldable pub newer :
    Option OnboardingProgress → Option OnboardingProgress → Option OnboardingProgress
unfolding updated_ge
newer none local = local
newer (some r) none = some r
newer (some r) (some l) = if updated_ge r l then some r else some l

-- The candidate of `load`.
abbrev pub candidate : Read → Option Value → Option Value
candidate reached value = value
candidate _ value = none

-- What the metadata holds once `updateUser` has settled, given what it is sent.
abbrev pub settled_remote : Update → Option Value → Option Value → Option Value
settled_remote applied sent old = sent
settled_remote refused sent old = old
settled_remote (lost true) sent old = sent
settled_remote (lost false) sent old = old

abbrev pub is_applied : Update → Bool
is_applied applied = true
is_applied _ = false

-- What the metadata holds once `clear` has sent its `null`.
abbrev pub cleared_remote : Update → Option Value → Option Value
cleared_remote applied old = none
cleared_remote refused old = old
cleared_remote (lost true) old = none
cleared_remote (lost false) old = old

unfoldable pub clear_local : Storage → Option Text → Option Text
clear_local storage slot = if storage.has_window && storage.works then none else slot

-- The places after a clear.
unfoldable pub clear : Storage → Update → Places → Places
unfolding clear_local
clear storage update places = record {
  local = clear_local storage places.local;
  remote = cleared_remote update places.remote;
}

module _ (parse : Text → Option Value) where
  abbrev pub parsed : Option Text → Option Value
  parsed none = none
  parsed (some []) = none
  parsed (some (c ∷ raw)) = parse (c ∷ raw)

  unfoldable pub read_local : Storage → Option Text → Option OnboardingProgress
  unfolding progress_of
  read_local storage slot =
      if storage.has_window && storage.works then progress_of (parsed slot) else none

  unfoldable pub load : Storage → Read → Places → Option OnboardingProgress
  unfolding newer progress_of read_local
  load storage read places =
      newer (progress_of (candidate read places.remote)) (read_local storage places.local)

module _ (stringify : OnboardingProgress → Text) where
  unfoldable pub write_local : Storage → OnboardingProgress → Option Text → Option Text
  write_local storage progress slot =
      if storage.has_window && storage.works then some (stringify progress) else slot

module _ (parse : Text → Option Value) (stringify : OnboardingProgress → Text) where
  -- The places after a save, and its `remote`. The metadata goes to the server and comes back as
  -- JSON, so that they hold what the codec makes of the progress, as the local copy does: a `NaN`
  -- among its numbers is not read back.
  unfoldable pub save : Storage → Update → OnboardingProgress → Places → Places × Bool
  unfolding write_local
  save storage update progress places = (
    record {
      local = write_local stringify storage progress places.local;
      remote = settled_remote update (parsed parse (some (stringify progress))) places.remote;
    },
    is_applied update,
  )
