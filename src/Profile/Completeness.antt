-- ===== src/Profile/Completeness.antt =====
-- frontend/app/lib/profile/completeness.ts. The fields of the response that the code reads are
-- `ProfileResponse`; `none` is `null` or `undefined`.
pub mod Laws
use Prim.Native.String.{String}
use scholarmatch_ai.Base.{
  ℕ, ◌+◌, ◌*◌, ◌/◌, Bool, true, false, not, List, [], ◌∷◌, Option, none, some, keep, length, ltb,
  ◌==◌, is_some,
}
use scholarmatch_ai.Base.Text.{Text, is_empty}
use scholarmatch_ai.Base.Text.Trim.{trim}
use scholarmatch_ai.Base.Number.{Number}

pub record ProfileResponse : Type 0 where
  pub full_name : Text
  pub country : Text
  pub study_level : Text
  pub field_of_study : Option Text
  pub gpa : Option Number
  pub interests : List Text
  pub goals : Option Text

pub data FactId : Type 0 where
  full_name country study_level field_of_study gpa interests goals : FactId

pub record CompletenessFact : Type 0 where
  pub id : FactId
  pub label : String
  pub complete : Bool

pub record ProfileCompleteness : Type 0 where
  pub percent : ℕ
  pub completed : ℕ
  pub total : ℕ
  pub facts : List CompletenessFact
  pub missing : List CompletenessFact

abbrev fact : FactId → String → Bool → CompletenessFact
fact id label complete = record { id = id; label = label; complete = complete }

-- `Boolean(text?.trim())`
abbrev pub has_text : Option Text → Bool
has_text none = false
has_text (some s) = not (is_empty (trim s))

abbrev pub facts_of : ProfileResponse → List CompletenessFact
facts_of profile =
    fact FactId.full_name "Name" (ltb 0 (length (trim profile.full_name)))
    ∷ fact FactId.country "Country" (length (trim profile.country) == 2)
    ∷ fact FactId.study_level "Study level" (not (is_empty profile.study_level))
    ∷ fact FactId.field_of_study "Field of study" (has_text profile.field_of_study)
    ∷ fact FactId.gpa "Academic result" (is_some profile.gpa)
    ∷ fact FactId.interests "Interests" (ltb 0 (length profile.interests))
    ∷ fact FactId.goals "Study goals" (has_text profile.goals)
    ∷ []

-- `Math.round((part / whole) * 100)`: the nearest whole number, a half rounded up.
abbrev pub rounded_percent : ℕ → ℕ → ℕ
rounded_percent part whole = (200 * part + whole) / (2 * whole)

unfoldable pub profile_completeness : ProfileResponse → ProfileCompleteness
profile_completeness profile =
    let facts = facts_of profile in
    let completed = length (keep (λ f. f.complete) facts) in
    record {
      percent = rounded_percent completed (length facts);
      completed = completed;
      total = length facts;
      facts = facts;
      missing = keep (λ f. not f.complete) facts;
    }
