-- ===== src/Dashboard/View.antt =====
-- `chooseNextAction` and `buildDashboardViewModel` of frontend/app/lib/dashboard/model.ts, and
-- `loadDashboard` of frontend/app/lib/dashboard/server.ts.
use scholarmatch_ai.Base.{
  Bool, true, false, List, [], ◌∷◌, ◌++◌, Option, none, some, if◌then◌else◌, ℕ, ltb, ◌==◌, map,
  keep, holds, any, first?,
}
use scholarmatch_ai.Base.Text.{Text, codes, ascii_lower}
use scholarmatch_ai.Api.Errors.{ApiErrorKind, offline}
use scholarmatch_ai.Api.Client.{Outcome, returned, failed, threw}
use scholarmatch_ai.Auth.ServerSession.{
  AuthenticatedSession, Guarded, granted, redirected, require_student_session,
}
use scholarmatch_ai.Profile.Completeness.{
  ProfileResponse, ProfileCompleteness, CompletenessFact, profile_completeness,
}
use scholarmatch_ai.Applications.{ApplicationStatus, preparing, ApplicationResponse}
use scholarmatch_ai.Applications.Board.{status_eq}
use scholarmatch_ai.Dashboard.Model.{
  MatchResponse, DashboardSource, matches, applications, DashboardDeadline, DashboardNextAction,
  DateParse, urgent_deadlines, recent_matches, is_active, Counts, count_applications,
}

pub record DashboardView : Type 0 where
  pub profile : ProfileResponse
  pub completeness : ProfileCompleteness
  pub urgent_deadlines : List DashboardDeadline
  pub recent_matches : List MatchResponse
  pub active_applications : List ApplicationResponse
  pub application_counts : Counts
  pub next_action : DashboardNextAction
  pub unavailable_sources : List DashboardSource

-- `toLowerCase` of a label, which is ASCII, is `ascii_lower` of its units.
abbrev profile_action : Option CompletenessFact → DashboardNextAction
profile_action missing = record {
  eyebrow = codes "Best next step";
  title = elim missing [
    | none ↦ codes "Complete your profile"
    | some fact ↦ codes "Add your " ++ map ascii_lower (codes fact.label)
  ];
  description =
      codes
        "More current profile facts can improve match confidence and reduce unknown eligibility checks. They do not guarantee eligibility.";
  href = codes "/profile?edit=1";
  label = codes "Complete profile";
}

abbrev is_preparing : Option ApplicationStatus → Bool
is_preparing status = holds (λ s. status_eq s preparing) status

abbrev deadline_action : DashboardDeadline → DashboardNextAction
deadline_action deadline =
    let going_on = is_preparing deadline.application_status in
    record {
      eyebrow =
          if holds (λ n. n == 0) deadline.days_remaining
          then codes "Due today"
          else codes "Deadline priority";
      title = deadline.title;
      description =
          if going_on
          then codes "Continue the application with the nearest confirmed deadline."
          else codes "Review the nearest confirmed deadline before starting an application.";
      href =
          if going_on
          then codes "/applications"
          else codes "/scholarships?focus=" ++ deadline.scholarship_id;
      label = if going_on then codes "Continue application" else codes "Review scholarship";
    }

abbrev pub applications_action : DashboardNextAction
applications_action = record {
  eyebrow = codes "Keep moving";
  title = codes "Continue an application in progress";
  description =
      codes "Pick up your most recently updated application and check its remaining tasks.";
  href = codes "/applications";
  label = codes "View applications";
}

abbrev pub matches_action : DashboardNextAction
matches_action = record {
  eyebrow = codes "New match activity";
  title = codes "Review your latest matches";
  description =
      codes "See the profile facts behind each result and confirm any information marked unknown.";
  href = codes "/matches";
  label = codes "Review matches";
}

abbrev pub refresh_action : DashboardNextAction
refresh_action = record {
  eyebrow = codes "Data needs attention";
  title = codes "Refresh your match activity";
  description =
      codes "Match data is temporarily unavailable. Your saved profile has not been changed.";
  href = codes "/dashboard";
  label = codes "Try again";
}

abbrev pub explore_action : DashboardNextAction
explore_action = record {
  eyebrow = codes "Ready when you are";
  title = codes "Explore published scholarships";
  description =
      codes
        "Browse available opportunities while ScholarMatch prepares profile-based recommendations.";
  href = codes "/scholarships";
  label = codes "Browse scholarships";
}

abbrev is_matches : DashboardSource → Bool
is_matches matches = true
is_matches applications = false

-- The choice among the last three.
abbrev activity_action : List MatchResponse → List DashboardSource → DashboardNextAction
activity_action [] unavailable =
    if any is_matches unavailable then refresh_action else explore_action
activity_action (match ∷ recent) unavailable = matches_action

abbrev work_action :
    List DashboardDeadline
    → List MatchResponse
    → List ApplicationResponse
    → List DashboardSource
    → DashboardNextAction
work_action (deadline ∷ urgent) recent active unavailable = deadline_action deadline
work_action [] recent (a ∷ active) unavailable = applications_action
work_action [] recent [] unavailable = activity_action recent unavailable

unfoldable pub choose_next_action :
    ProfileCompleteness
    → List DashboardDeadline
    → List MatchResponse
    → List ApplicationResponse
    → List DashboardSource
    → DashboardNextAction
unfolding status_eq
choose_next_action completeness urgent recent active unavailable =
    if ltb completeness.percent 100
    then profile_action (first? completeness.missing)
    else work_action urgent recent active unavailable

unfoldable pub build_dashboard_view_model :
    DateParse
    → ℕ
    → ProfileResponse
    → List MatchResponse
    → List ApplicationResponse
    → List DashboardSource
    → DashboardView
unfolding profile_completeness urgent_deadlines recent_matches is_active count_applications
    choose_next_action
build_dashboard_view_model date_parse now profile found tracked unavailable =
    let completeness = profile_completeness profile in
    let urgent = urgent_deadlines date_parse now tracked found in
    let recent = recent_matches date_parse now found in
    let active = keep is_active tracked in
    record {
      profile = profile;
      completeness = completeness;
      urgent_deadlines = urgent;
      recent_matches = recent;
      active_applications = active;
      application_counts = count_applications tracked;
      next_action = choose_next_action completeness urgent recent active unavailable;
      unavailable_sources = unavailable;
    }

-- A result of `Promise.allSettled` for a page, by its data.
pub data Settled (A : Type 0) : Type 0 where
  fulfilled : A → Settled A
  rejected : Settled A

abbrev pub is_rejected : {A : Type 0} → Settled A → Bool
is_rejected (fulfilled a) = false
is_rejected rejected = true

abbrev pub value_or_none : {A : Type 0} → Settled (List A) → List A
value_or_none (fulfilled items) = items
value_or_none rejected = []

pub data DashboardLoadState : Type 0 where
  sign_in : Text → DashboardLoadState
  first_use : DashboardLoadState
  error : Text → DashboardLoadState
  ready : DashboardView → DashboardLoadState

abbrev is_offline : ApiErrorKind → Bool
is_offline offline = true
is_offline _ = false

-- `safeLoadMessage`, by the `kind` of what was thrown, if it has one.
unfoldable pub safe_load_message : Option ApiErrorKind → Text
safe_load_message kind =
    if holds is_offline kind
    then codes
        "ScholarMatch could not reach the profile service. Check your connection and try again."
    else codes "We couldn"
      ++ (0x2019
          ∷ codes "t load your profile right now. Your saved information has not been changed.")

unfoldable pub unavailable_of :
    Settled (List MatchResponse) → Settled (List ApplicationResponse) → List DashboardSource
unavailable_of matches_result applications_result =
    (if is_rejected matches_result then matches ∷ [] else [])
    ++ (if is_rejected applications_result then applications ∷ [] else [])

-- `loadDashboard` after the session guard, whose redirect ends it, on what the three calls give.
abbrev pub load_guarded :
    DateParse
    → ℕ
    → Guarded
    → Outcome ProfileResponse
    → Settled (List MatchResponse)
    → Settled (List ApplicationResponse)
    → DashboardLoadState
load_guarded date_parse now (redirected path) profile_result m a = sign_in path
load_guarded date_parse now (granted student) (failed cause) m a =
    error (safe_load_message (some cause.kind))
load_guarded date_parse now (granted student) threw m a = error (safe_load_message none)
load_guarded date_parse now (granted student) (returned none) m a = first_use
load_guarded date_parse now (granted student) (returned (some profile)) m a = ready (
    build_dashboard_view_model date_parse now profile (value_or_none m) (value_or_none a)
      (unavailable_of m a))

unfoldable pub load_dashboard :
    DateParse
    → ℕ
    → Option AuthenticatedSession
    → Outcome ProfileResponse
    → Settled (List MatchResponse)
    → Settled (List ApplicationResponse)
    → DashboardLoadState
unfolding require_student_session safe_load_message unavailable_of build_dashboard_view_model
load_dashboard date_parse now session profile_result matches_result applications_result =
    load_guarded date_parse now (require_student_session session (codes "/dashboard"))
      profile_result matches_result applications_result
