-- ===== src/Dashboard/Tests.antt =====
-- The dashboard on small inputs.
use scholarmatch_ai.Base.{
  ◌+◌, if◌then◌else◌, map, ◌*◌, true, List, [], ◌∷◌, none, some, ◌≡◌, ◌↔◌, refl, sym, In, here,
  none-some,
}
use scholarmatch_ai.Base.Text.{codes, text_eq}
use scholarmatch_ai.Applications.{preparing, ApplicationResponse}
use scholarmatch_ai.Dashboard.Model.{
  MatchResponse, DashboardDeadline, DateParse, day_ms, recent_matches, urgent_deadlines, all_urgent,
  urgent_of, application_for, start_of_utc_day, days_between, within_days, parse_date_only,
  is_finished, matches, applications,
}
use scholarmatch_ai.Dashboard.Deadlines.{IsUrgent}
use scholarmatch_ai.Dashboard.Shown.{urgent_deadlines-IsUrgent_iff}
use scholarmatch_ai.Dashboard.Recent.{IsRecent, AreNewestFirst, recent_matches-AreNewestFirst}
use scholarmatch_ai.Dashboard.Order.{AreDates, AreNearestFirst, urgent_deadlines-AreNearestFirst}
use scholarmatch_ai.Dashboard.Load.{
  LacksMatches, LacksApplications, load_dashboard-degrades, urgent_deadlines-unreadable,
}
use scholarmatch_ai.Dashboard.View.{
  DashboardView, DashboardLoadState, load_dashboard, fulfilled, rejected, is_rejected,
}
use scholarmatch_ai.Api.Client.{returned}
use scholarmatch_ai.Auth.Access.{absent, can_access_student_workspace}
use scholarmatch_ai.Auth.ServerSession.{AuthenticatedSession, granted, require_student_session}
use scholarmatch_ai.Profile.Completeness.{ProfileResponse}

abbrev application : ApplicationResponse
application = record {
  id = codes "a1";
  scholarship_id = codes "s1";
  status = preparing;
  allowed_transitions = [];
  notes = none;
  checklist = [];
  reminder = none;
}

abbrev found_match : MatchResponse
found_match = record {
  id = codes "m1";
  calculated_at = codes "now";
  scholarship = record {
    id = codes "s1";
    title = codes "Grant";
    provider = codes "Fund";
    deadline = some (codes "d");
    status = codes "published";
  };
}

abbrev today : DateParse
today text = some day_ms

abbrev never : DateParse
never text = none

abbrev deadline : DashboardDeadline
deadline = record {
  scholarship_id = codes "s1";
  title = codes "Grant";
  provider = codes "Fund";
  deadline = codes "d";
  days_remaining = some 0;
  application_status = some preparing;
}

urgent_deadlines-IsUrgent_iff_example :
    In deadline (urgent_deadlines today day_ms (application ∷ []) (found_match ∷ [])) ↔ (
      (match : MatchResponse) × In match (found_match ∷ [])
      × IsUrgent today day_ms (application ∷ []) match deadline)
urgent_deadlines-IsUrgent_iff_example =
    urgent_deadlines-IsUrgent_iff today day_ms (application ∷ []) (found_match ∷ []) deadline

deadline-In : In deadline (urgent_deadlines today day_ms (application ∷ []) (found_match ∷ []))
unfolding urgent_deadlines all_urgent urgent_of text_eq application_for start_of_utc_day
    days_between within_days parse_date_only
deadline-In = here refl

-- A second match, whose deadline is a day before that of the first.
abbrev sooner_match : MatchResponse
sooner_match = record found_match {
  id = codes "m2";
  scholarship = record found_match.scholarship { id = codes "s2"; deadline = some (codes "e") };
}

abbrev two_dates : DateParse
unfolding text_eq
two_dates text = some (if text_eq text (codes "dT00:00:00.000Z") then 3 * day_ms else 2 * day_ms)

two_dates-AreDates : AreDates two_dates (found_match ∷ sooner_match ∷ [])
unfolding two_dates
two_dates-AreDates match text m e filled h = none-some (sym h)

order_test :
    map
      (λ (d : DashboardDeadline). d.days_remaining)
      (urgent_deadlines two_dates day_ms [] (found_match ∷ sooner_match ∷ []))
    ≡ some 1 ∷ some 2 ∷ []
unfolding urgent_deadlines two_dates
order_test = refl

urgent_deadlines-AreNearestFirst_example :
    AreNearestFirst two_dates
      (urgent_deadlines two_dates day_ms [] (found_match ∷ sooner_match ∷ []))
urgent_deadlines-AreNearestFirst_example =
    urgent_deadlines-AreNearestFirst two_dates day_ms [] (found_match ∷ sooner_match ∷ [])
      two_dates-AreDates

recent_matches-AreNewestFirst_example :
    ((match : MatchResponse)
      → In match (recent_matches today (2 * day_ms) (found_match ∷ []))
        ↔ (In match (found_match ∷ []) × IsRecent today (2 * day_ms) match))
    × AreNewestFirst today (recent_matches today (2 * day_ms) (found_match ∷ []))
recent_matches-AreNewestFirst_example =
    recent_matches-AreNewestFirst today (2 * day_ms) (found_match ∷ [])

recency_tests :
    (recent_matches today (15 * day_ms) (found_match ∷ []) ≡ found_match ∷ [])
    × (recent_matches today (15 * day_ms + 1) (found_match ∷ []) ≡ [])
    × (recent_matches never day_ms (found_match ∷ []) ≡ [])
unfolding recent_matches
recency_tests = (refl, refl, refl)

abbrev student : AuthenticatedSession
student = record {
  user = record { role = absent; preferred_name = none; full_name = none };
  access_token = codes "t";
}

abbrev profile : ProfileResponse
profile = record {
  full_name = codes "Ada";
  country = codes "KE";
  study_level = codes "doctoral";
  field_of_study = none;
  gpa = none;
  interests = [];
  goals = none;
}

allowed : require_student_session (some student) (codes "/dashboard") ≡ granted student
unfolding require_student_session can_access_student_workspace
allowed = refl

load_dashboard-degrades_example :
    (view : DashboardView) × (load_dashboard today day_ms
        (some student)
        (returned (some profile))
        rejected
        (fulfilled (application ∷ []))
      ≡ DashboardLoadState.ready view)
    × (view.profile ≡ profile)
    × (In matches view.unavailable_sources ↔ (is_rejected {A = List MatchResponse} rejected ≡ true))
    × (In applications view.unavailable_sources
        ↔ (is_rejected (fulfilled (application ∷ [])) ≡ true))
    × (is_rejected {A = List MatchResponse} rejected ≡ true → LacksMatches view)
    × (is_rejected (fulfilled (application ∷ [])) ≡ true → LacksApplications view)
load_dashboard-degrades_example =
    load_dashboard-degrades today day_ms (some student) student profile rejected
      (fulfilled (application ∷ [])) allowed

urgent_deadlines-unreadable_example :
    (d : DashboardDeadline) × In d
      (urgent_deadlines never day_ms (application ∷ []) (found_match ∷ []))
    × (d.scholarship_id ≡ found_match.scholarship.id)
    × (d.deadline ≡ codes "d")
    × (d.days_remaining ≡ none)
unfolding text_eq parse_date_only application_for is_finished
urgent_deadlines-unreadable_example =
    urgent_deadlines-unreadable never day_ms (application ∷ []) (found_match ∷ []) found_match
      (codes "d") (here refl) refl refl refl refl
