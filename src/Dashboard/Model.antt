-- ===== src/Dashboard/Model.antt =====
-- frontend/app/lib/dashboard/model.ts. A time is the number of milliseconds since the platform's
-- earliest date, which is a whole number of days before 1970.
use scholarmatch_ai.Base.{
  Bool, true, false, not, ◌||◌, ◌&&◌, List, [], ◌∷◌, ◌++◌, Option, none, some, if◌then◌else◌, ℕ,
  ◌+◌, ◌-◌, ◌*◌, ◌/◌, ◌%◌, ltb, leb, keep, or_else, holds,
}
use mathlib.Core.Option
use scholarmatch_ai.Base.Text.{Text, codes, text_eq}
use scholarmatch_ai.Api.Errors.{truthy}
use scholarmatch_ai.Applications.{
  ApplicationStatus, saved, preparing, submitted, interview, awarded, unsuccessful, withdrawn,
  ApplicationResponse,
}
use scholarmatch_ai.Applications.Board.{status_eq}
use scholarmatch_ai.Dashboard.Sorting.{sort}

abbrev pub day_ms : ℕ
day_ms = 86400000

-- The fields of a match that the dashboard reads, with those of its scholarship.
pub record Scholarship : Type 0 where
  pub id : Text
  pub title : Text
  pub provider : Text
  pub deadline : Option Text
  pub status : Text

pub record MatchResponse : Type 0 where
  pub id : Text
  pub calculated_at : Text
  pub scholarship : Scholarship

pub data DashboardSource : Type 0 where
  matches : DashboardSource
  applications : DashboardSource

-- `daysRemaining` is `none` for `NaN`.
pub record DashboardDeadline : Type 0 where
  pub scholarship_id : Text
  pub title : Text
  pub provider : Text
  pub deadline : Text
  pub days_remaining : Option ℕ
  pub application_status : Option ApplicationStatus

pub record DashboardNextAction : Type 0 where
  pub eyebrow : Text
  pub title : Text
  pub description : Text
  pub href : Text
  pub label : Text

-- `applicationsByScholarship.get(id)`: of two tracked for one scholarship the later is kept.
unfoldable pub application_for : Text → List ApplicationResponse → Option ApplicationResponse
unfolding text_eq
application_for id [] = none
application_for id (a ∷ rest) = elim (application_for id rest) [
  | some later ↦ some later
  | none ↦ if text_eq a.scholarship_id id then some a else none
]

unfoldable pub start_of_utc_day : ℕ → ℕ
start_of_utc_day time = time - time % day_ms

-- `Math.ceil((deadline - start) / DAY_MS)`.
pub data Days : Type 0 where
  nan : Days
  negative : Days
  days : ℕ → Days

unfoldable pub days_between : ℕ → Option ℕ → Days
days_between start none = nan
days_between start (some time) =
    if ltb time start
    then if ltb (start - time) day_ms then days 0 else negative
    else days ((time - start + (day_ms - 1)) / day_ms)

unfoldable pub is_finished : ApplicationStatus → Bool
is_finished submitted = true
is_finished interview = true
is_finished awarded = true
is_finished unsuccessful = true
is_finished withdrawn = true
is_finished _ = false

abbrev pub finished : Option ApplicationResponse → Bool
finished application = holds (λ (a : ApplicationResponse). is_finished a.status) application

-- `daysRemaining < 0 || daysRemaining > 30` keeps a `NaN`.
unfoldable pub within_days : Days → Option (Option ℕ)
within_days nan = some none
within_days negative = none
within_days (days n) = if ltb 30 n then none else some (some n)

-- `getTime` of the date that a text reads as; `none` for `NaN`.
abbrev pub DateParse : Type 0
DateParse = Text → Option ℕ

unfoldable pub parse_date_only : DateParse → Text → Option ℕ
parse_date_only date_parse value = date_parse (value ++ codes "T00:00:00.000Z")

abbrev pub deadline_of :
    Scholarship → Text → Option ApplicationResponse → Option (Option ℕ) → List DashboardDeadline
deadline_of scholarship deadline application none = []
deadline_of scholarship deadline application (some days_remaining) =
    if finished application
    then []
    else record {
      scholarship_id = scholarship.id;
      title = scholarship.title;
      provider = scholarship.provider;
      deadline = deadline;
      days_remaining = days_remaining;
      application_status = Option.map (λ (a : ApplicationResponse). a.status) application;
    }
      ∷ []

abbrev pub published_deadline :
    DateParse → ℕ → List ApplicationResponse → Scholarship → Option Text → List DashboardDeadline
published_deadline date_parse now tracked scholarship none = []
published_deadline date_parse now tracked scholarship (some deadline) =
    if not (text_eq scholarship.status (codes "published"))
    then []
    else deadline_of scholarship deadline (application_for scholarship.id tracked)
        (within_days (days_between (start_of_utc_day now) (parse_date_only date_parse deadline)))

-- What `flatMap` makes of one match.
unfoldable pub urgent_of :
    DateParse → ℕ → List ApplicationResponse → MatchResponse → List DashboardDeadline
unfolding start_of_utc_day days_between is_finished within_days parse_date_only application_for
    text_eq
urgent_of date_parse now tracked match =
    published_deadline date_parse now tracked match.scholarship (truthy match.scholarship.deadline)

unfoldable pub all_urgent :
    DateParse → ℕ → List ApplicationResponse → List MatchResponse → List DashboardDeadline
unfolding urgent_of
all_urgent date_parse now tracked [] = []
all_urgent date_parse now tracked (match ∷ rest) =
    urgent_of date_parse now tracked match ++ all_urgent date_parse now tracked rest

-- `left.daysRemaining - right.daysRemaining <= 0`, where a `NaN` counts as 0.
abbrev pub days_option_le : Option ℕ → Option ℕ → Bool
days_option_le (some m) (some n) = leb m n
days_option_le _ _ = true

abbrev pub days_le : DashboardDeadline → DashboardDeadline → Bool
days_le left right = days_option_le left.days_remaining right.days_remaining

unfoldable pub urgent_deadlines :
    DateParse → ℕ → List ApplicationResponse → List MatchResponse → List DashboardDeadline
unfolding all_urgent
urgent_deadlines date_parse now tracked matches_found =
    sort days_le (all_urgent date_parse now tracked matches_found)

-- The time of a match, 0 where it is no time; only those that have one are compared.
abbrev pub calculated : DateParse → MatchResponse → ℕ
calculated date_parse match = or_else (date_parse match.calculated_at) 0

abbrev pub is_recent : DateParse → ℕ → MatchResponse → Bool
is_recent date_parse now match =
    holds (λ at. leb now (at + 14 * day_ms) && leb at now) (date_parse match.calculated_at)

abbrev pub newer_first : DateParse → MatchResponse → MatchResponse → Bool
newer_first date_parse left right = leb (calculated date_parse right) (calculated date_parse left)

unfoldable pub recent_matches : DateParse → ℕ → List MatchResponse → List MatchResponse
recent_matches date_parse now matches_found =
    sort (newer_first date_parse) (keep (is_recent date_parse now) matches_found)

unfoldable pub is_active : ApplicationResponse → Bool
unfolding status_eq
is_active application = status_eq application.status saved || status_eq application.status preparing

-- `countApplications`: the counts are a function of the status.
abbrev pub Counts : Type 0
Counts = ApplicationStatus → ℕ

unfoldable pub count_one : ApplicationStatus → Counts → Counts
unfolding status_eq
count_one status counts other = if status_eq status other then counts other + 1 else counts other

unfoldable pub count_from : Counts → List ApplicationResponse → Counts
unfolding count_one
count_from counts [] = counts
count_from counts (a ∷ rest) = count_from (count_one a.status counts) rest

unfoldable pub count_applications : List ApplicationResponse → Counts
unfolding count_from
count_applications tracked = count_from (λ status. 0) tracked
