-- ===== src/Dashboard/Load.antt =====
-- What the dashboard shows where a part of it could not be loaded, and two things that it overlooks.
use scholarmatch_ai.Base.{
  true, false, List, [], ◌∷◌, Option, none, some, ℕ, ◌≡◌, ◌↔◌, refl, sym, ap, In, here, there,
}
use mathlib.Core.Path.{subst}
use mathlib.Core.Option
use scholarmatch_ai.Base.Text.{Text, codes, text_eq}
use scholarmatch_ai.Api.Errors.{truthy}
use scholarmatch_ai.Api.Client.{returned}
use scholarmatch_ai.Auth.ServerSession.{AuthenticatedSession, granted, require_student_session}
use scholarmatch_ai.Profile.Completeness.{ProfileResponse}
use scholarmatch_ai.Applications.{ApplicationStatus, ApplicationResponse}
use scholarmatch_ai.Dashboard.Model.{
  MatchResponse, DashboardSource, matches, applications, DashboardDeadline, DateParse,
  urgent_deadlines, all_urgent, recent_matches, count_applications, count_from, application_for,
  urgent_of, within_days, days_between, parse_date_only, days_le, finished,
}
use scholarmatch_ai.Dashboard.Sorting.{sort-In}
use scholarmatch_ai.Dashboard.Shown.{all_urgent-In}
use scholarmatch_ai.Dashboard.View.{
  DashboardView, Settled, fulfilled, rejected, is_rejected, value_or_none, unavailable_of,
  build_dashboard_view_model, load_dashboard, load_guarded, DashboardLoadState,
}

-- What a part that could not be loaded leaves of the view.
abbrev pub LacksMatches : DashboardView → Type 0
LacksMatches view = (view.urgent_deadlines ≡ []) × (view.recent_matches ≡ [])

abbrev pub LacksApplications : DashboardView → Type 0
LacksApplications view =
    (view.active_applications ≡ []) × ((s : ApplicationStatus) → view.application_counts s ≡ 0)

unavailable_iff :
    (m : Settled (List MatchResponse)) (a : Settled (List ApplicationResponse))
    → (In matches (unavailable_of m a) ↔ (is_rejected m ≡ true))
      × (In applications (unavailable_of m a) ↔ (is_rejected a ≡ true))
unfolding unavailable_of
unavailable_iff (fulfilled x) (fulfilled y) =
    (((λ m. elim m [ ]), λ e. absurd (cc)), ((λ m. elim m [ ]), λ e. absurd (cc)))
unavailable_iff (fulfilled x) rejected = (
  ((λ m. elim m [ here e ↦ absurd (cc) | there n ↦ elim n [ ] ]), λ e. absurd (cc)),
  ((λ m. refl), λ e. here refl),
)
unavailable_iff rejected (fulfilled y) = (
  ((λ m. refl), λ e. here refl),
  ((λ m. elim m [ here e ↦ absurd (cc) | there n ↦ elim n [ ] ]), λ e. absurd (cc)),
)
unavailable_iff rejected rejected =
    (((λ m. refl), λ e. here refl), ((λ m. refl), λ e. there (here refl)))

no_value : {A : Type 0} (m : Settled (List A)) → is_rejected m ≡ true → value_or_none m ≡ []
no_value (fulfilled items) h = absurd (cc)
no_value rejected h = refl

build-LacksMatches :
    (date_parse : DateParse) (now : ℕ) (profile : ProfileResponse)
    (tracked : List ApplicationResponse) (unavailable : List DashboardSource)
    → LacksMatches (build_dashboard_view_model date_parse now profile [] tracked unavailable)
unfolding build_dashboard_view_model urgent_deadlines all_urgent recent_matches
build-LacksMatches date_parse now profile tracked unavailable = (refl, refl)

build-LacksApplications :
    (date_parse : DateParse) (now : ℕ) (profile : ProfileResponse) (found : List MatchResponse)
    (unavailable : List DashboardSource)
    → LacksApplications (build_dashboard_view_model date_parse now profile found [] unavailable)
unfolding build_dashboard_view_model count_applications count_from
build-LacksApplications date_parse now profile found unavailable = (refl, λ s. refl)

-- A student whose profile is loaded sees the dashboard, whichever of the two other parts failed:
-- exactly the failed parts are named as unavailable, without the matches no deadline and no recent
-- match is shown, and without the applications none is active and each status counts none.
pub load_dashboard-degrades :
    (date_parse : DateParse) (now : ℕ) (session : Option AuthenticatedSession)
    (student : AuthenticatedSession) (profile : ProfileResponse) (m : Settled (List MatchResponse))
    (a : Settled (List ApplicationResponse))
    → require_student_session session (codes "/dashboard") ≡ granted student
    → (view : DashboardView) × (load_dashboard date_parse now session (returned (some profile)) m a
        ≡ DashboardLoadState.ready view)
      × (view.profile ≡ profile)
      × (In matches view.unavailable_sources ↔ (is_rejected m ≡ true))
      × (In applications view.unavailable_sources ↔ (is_rejected a ≡ true))
      × (is_rejected m ≡ true → LacksMatches view)
      × (is_rejected a ≡ true → LacksApplications view)
unfolding load_dashboard build_dashboard_view_model
load_dashboard-degrades date_parse now session student profile m a allowed =
    let view =
      build_dashboard_view_model date_parse now profile (value_or_none m) (value_or_none a)
        (unavailable_of m a) in
    let (named_matches, named_applications) = unavailable_iff m a in
    (
      view,
      ap (λ guarded. load_guarded date_parse now guarded (returned (some profile)) m a) allowed,
      refl,
      named_matches,
      named_applications,
      (λ failed.
          rw (no_value m failed)
            (build-LacksMatches date_parse now profile (value_or_none a) (unavailable_of m a))),
      λ failed.
          rw (no_value a failed)
            (build-LacksApplications date_parse now profile (value_or_none m) (unavailable_of m a)),
    )

undated : MatchResponse → Text → Option ApplicationResponse → DashboardDeadline
undated match deadline application = record {
  scholarship_id = match.scholarship.id;
  title = match.scholarship.title;
  provider = match.scholarship.provider;
  deadline = deadline;
  days_remaining = none;
  application_status = Option.map (λ (a : ApplicationResponse). a.status) application;
}

urgent_of-undated :
    (date_parse : DateParse) (now : ℕ) (tracked : List ApplicationResponse) (match : MatchResponse)
    (deadline : Text)
    → truthy match.scholarship.deadline ≡ some deadline
    → text_eq match.scholarship.status (codes "published") ≡ true
    → parse_date_only date_parse deadline ≡ none
    → finished (application_for match.scholarship.id tracked) ≡ false
    → urgent_of date_parse now tracked match
      ≡ undated match deadline (application_for match.scholarship.id tracked) ∷ []
unfolding urgent_of undated days_between within_days
urgent_of-undated date_parse now tracked match deadline e p np going = rw (e, p, np, going) refl

-- A deadline that reads as no date is shown as an urgent one: the deadline of every published
-- scholarship among the matches whose text is not empty and reads as no date, and whose
-- application, if there is one, is not finished, is among the dashboard's deadlines, with no
-- number of days.
pub urgent_deadlines-unreadable :
    (date_parse : DateParse) (now : ℕ) (tracked : List ApplicationResponse)
    (found : List MatchResponse) (match : MatchResponse) (deadline : Text)
    → In match found
    → truthy match.scholarship.deadline ≡ some deadline
    → text_eq match.scholarship.status (codes "published") ≡ true
    → parse_date_only date_parse deadline ≡ none
    → finished (application_for match.scholarship.id tracked) ≡ false
    → (d : DashboardDeadline) × In d (urgent_deadlines date_parse now tracked found)
      × (d.scholarship_id ≡ match.scholarship.id)
      × (d.deadline ≡ deadline)
      × (d.days_remaining ≡ none)
unfolding urgent_deadlines undated
urgent_deadlines-unreadable date_parse now tracked found match deadline m e p np going =
    let d = undated match deadline (application_for match.scholarship.id tracked) in
    let one = urgent_of-undated date_parse now tracked match deadline e p np going in
    (
      d,
      sort-In days_le _ (
          all_urgent-In date_parse now tracked found match d m
            (subst (In d) (sym one) (here refl))),
      refl,
      refl,
      refl,
    )
