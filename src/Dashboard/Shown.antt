-- ===== src/Dashboard/Shown.antt =====
-- Which deadlines the dashboard shows.
use scholarmatch_ai.Base.{
  In-append_left, In-append_right, true, false, List, [], ◌∷◌, ◌++◌, Option, none, some, ℕ, ◌+◌,
  ◌-◌, ◌/◌, ◌≡◌, ◌≢◌, ◌↔◌, inl, inr, refl, sym, ap, ◌∙◌, arith, ltb, In, here, there, All,
  Bool-cases,
}
use mathlib.Core.Path.{subst}
use mathlib.Core.Option
use scholarmatch_ai.Base.Text.{Text, codes, text_eq, text_eq_iff}
use scholarmatch_ai.Api.Errors.{truthy}
use scholarmatch_ai.Applications.{ApplicationResponse}
use scholarmatch_ai.Dashboard.Model.{
  MatchResponse, DashboardDeadline, DateParse, application_for, start_of_utc_day, days_between,
  is_finished, within_days, parse_date_only, urgent_of, finished, all_urgent, days_le,
  urgent_deadlines, day_ms,
}
use scholarmatch_ai.Dashboard.Deadlines.{
  IsDays, IsDayStart, IsOpen, TracksLast, IsUrgent, time_of, all_urgent-IsUrgent, start-IsDayStart,
}
use scholarmatch_ai.Dashboard.Sorting.{In-sort, sort-In}

pub all_urgent-In :
    (date_parse : DateParse) (now : ℕ) (tracked : List ApplicationResponse)
    (found : List MatchResponse) (match : MatchResponse) (d : DashboardDeadline)
    → In match found
    → In d (urgent_of date_parse now tracked match)
    → In d (all_urgent date_parse now tracked found)
unfolding all_urgent
all_urgent-In date_parse now tracked [] match d m n = elim m [ ]
all_urgent-In date_parse now tracked (other ∷ rest) match d (here e) n =
    In-append_left _ _ (subst (λ x. In d (urgent_of date_parse now tracked x)) e n)
all_urgent-In date_parse now tracked (other ∷ rest) match d (there m) n =
    In-append_right (urgent_of date_parse now tracked other) _
      (all_urgent-In date_parse now tracked rest match d m n)

absent-application_for :
    (id : Text) (tracked : List ApplicationResponse)
    → All (λ (a : ApplicationResponse). a.scholarship_id ≢ id) tracked
    → application_for id tracked ≡ none
unfolding application_for
absent-application_for id [] h = refl
absent-application_for id (a ∷ rest) (differs, h) =
    elim (Bool-cases (text_eq a.scholarship_id id)) [
      | inl same ↦ absurd (differs ((text_eq_iff a.scholarship_id id).0 same))
      | inr other ↦ rw (absent-application_for id rest h, other) refl
    ]

last-application_for :
    (id : Text) (a : ApplicationResponse) (before after : List ApplicationResponse)
    → a.scholarship_id ≡ id
    → All (λ (b : ApplicationResponse). b.scholarship_id ≢ id) after
    → application_for id (before ++ (a ∷ after)) ≡ some a
unfolding application_for
last-application_for id a [] after same h =
    rw (absent-application_for id after h, (text_eq_iff a.scholarship_id id).1 same) refl
last-application_for id a (b ∷ before) after same h =
    rw (last-application_for id a before after same h) refl

TracksLast-application_for :
    (id : Text) (tracked : List ApplicationResponse) (application : Option ApplicationResponse)
    → TracksLast id tracked application
    → application_for id tracked ≡ application
TracksLast-application_for id tracked none h = absent-application_for id tracked h
TracksLast-application_for id tracked (some a) (before, after, e, same, h) =
    ap (application_for id) e ∙ last-application_for id a before after same h

IsOpen-finished :
    (application : Option ApplicationResponse) → IsOpen application → finished application ≡ false
unfolding is_finished
IsOpen-finished none h = refl
IsOpen-finished (some a) (inl e) = rw e refl
IsOpen-finished (some a) (inr (inl e)) = rw e refl
IsOpen-finished (some a) (inr (inr e)) = rw e refl

day_start_unique : (now start : ℕ) → IsDayStart now start → start ≡ start_of_utc_day now
day_start_unique now start (i, at, after, before) =
    let (j, at', after', before') = start-IsDayStart now in omega arith

truthy-filled : (o : Option Text) (s : Text) → o ≡ some s → s ≢ [] → truthy o ≡ some s
truthy-filled o [] e filled = absurd (filled refl)
truthy-filled o (c ∷ s) e filled = rw e refl

IsDays-within :
    (start : ℕ) (time shown : Option ℕ)
    → IsDays start time shown
    → within_days (days_between start time) ≡ some shown
unfolding IsDays within_days days_between
IsDays-within start time none e = rw e refl
IsDays-within start time (some n) (t, e, within, above, below) = elim (Bool-cases (ltb t start)) [
  | inl past ↦
      let today : ltb (start - t) day_ms ≡ true = ground arith in
      let none_left : n ≡ 0 = ground arith in rw (e, past, today, none_left) refl
  | inr ahead ↦
      let counted : (t - start + (day_ms - 1)) / day_ms ≡ n = ground arith in
      let soon : ltb 30 n ≡ false = ground arith in rw (e, ahead, counted, soon) refl
]

-- A deadline, with what comes from the scholarship and the application taken from there.
abbrev deadline_with :
    MatchResponse → DashboardDeadline → Option ApplicationResponse → DashboardDeadline
deadline_with match d application = record {
  scholarship_id = match.scholarship.id;
  title = match.scholarship.title;
  provider = match.scholarship.provider;
  deadline = d.deadline;
  days_remaining = d.days_remaining;
  application_status = Option.map (λ (a : ApplicationResponse). a.status) application;
}

-- The deadline that a match stands behind is what it gives.
IsUrgent-urgent_of :
    (date_parse : DateParse) (now : ℕ) (tracked : List ApplicationResponse) (match : MatchResponse)
    (d : DashboardDeadline)
    → IsUrgent date_parse now tracked match d
    → urgent_of date_parse now tracked match ≡ d ∷ []
unfolding urgent_of parse_date_only
IsUrgent-urgent_of date_parse now tracked match d u =
    let set = truthy-filled match.scholarship.deadline d.deadline u.is_set u.not_empty in
    let published = (text_eq_iff match.scholarship.status (codes "published")).1 u.is_published in
    let last =
      TracksLast-application_for match.scholarship.id tracked u.application u.tracks_last in
    let going = IsOpen-finished u.application u.is_open in
    let start = day_start_unique now u.start u.starts_day in
    let near =
      IsDays-within (start_of_utc_day now) (time_of date_parse d.deadline) d.days_remaining
        (subst (λ s. IsDays s (time_of date_parse d.deadline) d.days_remaining) start u.near_now) in
    rw (set, published, last, near, going) (ap (λ x. x ∷ []) same)
  where
    same : deadline_with match d u.application ≡ d
    same i = record {
      scholarship_id = sym u.same_id i;
      title = sym u.same_title i;
      provider = sym u.same_provider i;
      deadline = d.deadline;
      days_remaining = d.days_remaining;
      application_status = sym u.same_status i;
    }

-- The dashboard shows exactly the deadlines that a match stands behind: that of its published
-- scholarship, with its title and provider, where the last application that is tracked for it, if
-- there is one, is saved, preparing or ready; its status is shown. The number of days is at most 30
-- and is the number of days from the start of today, in UTC, to the start of the deadline's day,
-- rounded up, or it is no number, and then the deadline's text reads as no date.
pub urgent_deadlines-IsUrgent_iff :
    (date_parse : DateParse) (now : ℕ) (tracked : List ApplicationResponse)
    (found : List MatchResponse) (d : DashboardDeadline)
    → In d (urgent_deadlines date_parse now tracked found)
      ↔ ((match : MatchResponse) × In match found × IsUrgent date_parse now tracked match d)
unfolding urgent_deadlines
urgent_deadlines-IsUrgent_iff date_parse now tracked found d = (
  λ m. all_urgent-IsUrgent date_parse now tracked found d (In-sort days_le _ m),
  λ (match, m, u). sort-In days_le _ (
      all_urgent-In date_parse now tracked found match d m
        (subst (In d) (sym (IsUrgent-urgent_of date_parse now tracked match d u)) (here refl))),
)
