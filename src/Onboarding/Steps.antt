-- ===== src/Onboarding/Steps.antt =====
-- frontend/app/lib/onboarding/steps.ts
pub mod Laws
use Prim.Native.String.{String}
use scholarmatch_ai.Base.{
  ℕ, Bool, true, false, not, List, [], ◌∷◌, Option, none, some, any, find, keep, map, zero, suc,
  if◌then◌else◌, ◌==◌,
}
use scholarmatch_ai.Base.Text.{Text, codes, text_eq}
use scholarmatch_ai.Onboarding.Types.{
  OnboardingDraft, StepId, consent, identity, location, education, field, results, goals,
  experience, preferences, review,
}
use scholarmatch_ai.Onboarding.Validation.{is_step_valid}

pub record StepMeta : Type 0 where
  pub id : StepId
  pub label : String
  pub title : String
  pub help : String
  pub sensitive : Bool
  pub optional : Bool

abbrev consent_meta : StepMeta
consent_meta = record {
  id = consent;
  label = "Privacy";
  title = "Before we begin";
  help =
      "We use your answers only to check scholarship eligibility and explain your matches. You control what you share, and you can edit or delete it later.";
  sensitive = false;
  optional = false;
}

abbrev identity_meta : StepMeta
identity_meta = record {
  id = identity;
  label = "You";
  title = "What should we call you?";
  help =
      "Your name appears on applications you choose to start. Pronouns are optional and never affect matching.";
  sensitive = false;
  optional = false;
}

abbrev location_meta : StepMeta
location_meta = record {
  id = location;
  label = "Location";
  title = "Where are you based?";
  help =
      "Many scholarships are limited to residents or nationals of certain countries. Nationality is optional and helps widen the checks we can run for you.";
  sensitive = true;
  optional = false;
}

abbrev education_meta : StepMeta
education_meta = record {
  id = education;
  label = "Level";
  title = "What level are you studying at?";
  help = "Eligibility usually depends on your current or intended study level.";
  sensitive = false;
  optional = false;
}

abbrev field_meta : StepMeta
field_meta = record {
  id = field;
  label = "Field";
  title = "What do you want to study?";
  help = "Field-specific awards match on subject area. It's fine to be undecided.";
  sensitive = false;
  optional = true;
}

abbrev results_meta : StepMeta
results_meta = record {
  id = results;
  label = "Results";
  title = "Your academic results";
  help =
      "Some awards set a minimum GPA. Sharing yours is optional — an unknown or private result never counts against you.";
  sensitive = true;
  optional = false;
}

abbrev goals_meta : StepMeta
goals_meta = record {
  id = goals;
  label = "Goals";
  title = "Your goals and interests";
  help = "Interests power semantic matching beyond hard eligibility rules.";
  sensitive = false;
  optional = false;
}

abbrev experience_meta : StepMeta
experience_meta = record {
  id = experience;
  label = "Experience";
  title = "Relevant experience";
  help =
      "Work, research, volunteering, or leadership can unlock specific awards. Telling us you have none is a valid answer.";
  sensitive = true;
  optional = false;
}

abbrev preferences_meta : StepMeta
preferences_meta = record {
  id = preferences;
  label = "Support";
  title = "Accessibility & preferences";
  help =
      "Optional. If you'd like accommodations or have a contact preference, share it here. This is sensitive information and is never used for matching.";
  sensitive = true;
  optional = true;
}

abbrev review_meta : StepMeta
review_meta = record {
  id = review;
  label = "Review";
  title = "Review and submit";
  help = "Check everything looks right. You can go back to any step to change an answer.";
  sensitive = false;
  optional = false;
}

abbrev pub steps : List StepMeta
steps =
    consent_meta ∷ identity_meta ∷ location_meta ∷ education_meta ∷ field_meta ∷ results_meta
    ∷ goals_meta ∷ experience_meta ∷ preferences_meta ∷ review_meta ∷ []

-- The words that stand for the steps in a URL.
abbrev pub step_word : StepId → Text
step_word consent = codes "consent"
step_word identity = codes "identity"
step_word location = codes "location"
step_word education = codes "education"
step_word field = codes "field"
step_word results = codes "results"
step_word goals = codes "goals"
step_word experience = codes "experience"
step_word preferences = codes "preferences"
step_word review = codes "review"

-- `===` on steps, which are compared by their words in the source.
abbrev pub step_place : StepId → ℕ
step_place consent = 0
step_place identity = 1
step_place location = 2
step_place education = 3
step_place field = 4
step_place results = 5
step_place goals = 6
step_place experience = 7
step_place preferences = 8
step_place review = 9

unfoldable pub same_step : StepId → StepId → Bool
same_step s t = step_place s == step_place t

abbrev pub step_order : List StepId
step_order = map (λ m. m.id) steps

-- `PROGRESS_STEPS`
abbrev pub progress_steps : List StepMeta
progress_steps = keep (λ m. not (same_step m.id review)) steps

-- `indexOf`, `none` for its -1.
unfoldable pub index_of : StepId → List StepId → Option ℕ
unfolding same_step
index_of id [] = none
index_of id (s ∷ ss) =
    if same_step s id
    then some 0
    else (elim (index_of id ss) [ none ↦ none | some i ↦ some (suc i) ])

unfoldable pub step_index : StepId → Option ℕ
unfolding index_of
step_index id = index_of id step_order

-- `stepMeta`, `none` where it throws.
unfoldable pub step_meta : StepId → Option StepMeta
unfolding same_step
step_meta id = find (λ m. same_step m.id id) steps

-- `isStepId` on a text of the URL, with the step that it names.
abbrev pub find_word : Text → List StepId → Option StepId
find_word s [] = none
find_word s (id ∷ ids) = if text_eq (step_word id) s then some id else find_word s ids

unfoldable pub step_of_word : Text → Option StepId
unfolding text_eq
step_of_word s = find_word s step_order

-- The loop of `firstIncompleteStep` over the steps left.
unfoldable pub first_incomplete : (Text → Text) → List StepMeta → OnboardingDraft → StepId
unfolding same_step
first_incomplete upper [] draft = review
first_incomplete upper (step ∷ rest) draft =
    let later = first_incomplete upper rest draft in
    if same_step step.id review
    then review
    else if step.optional
    then later
    else if not (is_step_valid upper step.id draft)
    then step.id
    else later

unfoldable pub first_incomplete_step : (Text → Text) → OnboardingDraft → StepId
unfolding first_incomplete
first_incomplete_step upper draft = first_incomplete upper steps draft
