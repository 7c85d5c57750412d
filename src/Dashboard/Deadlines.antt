-- ===== src/Dashboard/Deadlines.antt =====
-- Where the dashboard's deadlines come from.
use scholarmatch_ai.Base.{
  In-append_cases, Bool, true, false, none-some, not, List, [], ◌∷◌, Option, none, some,
  if◌then◌else◌, ℕ, ◌+◌, ◌-◌, ◌*◌, ◌/◌, ◌≤◌, ◌<◌, ◌≡◌, inl, inr, refl, sym, ap, ◌∙◌, arith, ltb, In,
  here, there, ◌≢◌, ◌++◌, ◌⊎◌, All, Bool-cases, some_inj, when_false,
}
use mathlib.Core.Path.{subst}
use mathlib.Core.Option
use scholarmatch_ai.Base.Text.{Text, codes, text_eq, text_eq_sound, text_eq_ne}
use scholarmatch_ai.Api.Errors.{truthy}
use scholarmatch_ai.Applications.{ApplicationResponse, ApplicationStatus, saved, preparing, ready}
use scholarmatch_ai.Dashboard.Model.{
  MatchResponse, DashboardDeadline, DateParse, day_ms, application_for, start_of_utc_day,
  days_between, is_finished, within_days, parse_date_only, urgent_of, deadline_of, finished,
  published_deadline, all_urgent,
}

-- A number of days that is shown, between the start of today and a time.
unfoldable pub IsDays : ℕ → Option ℕ → Option ℕ → Type 0
IsDays start time none = time ≡ none
IsDays start time (some n) =
    (t : ℕ) × (time ≡ some t)
    × (n ≤ 30)
    × (t ≤ start + n * 86400000)
    × (start + n * 86400000 < t + 86400000)

ceil_le : (x : ℕ) → x ≤ (x + (day_ms - 1)) / day_ms * day_ms
ceil_le x = omega arith

ceil_lt : (x : ℕ) → (x + (day_ms - 1)) / day_ms * day_ms < x + day_ms
ceil_lt x = omega arith

near :
    (start t : ℕ)
    → ltb t start ≡ false
    → ltb 30 ((t - start + (day_ms - 1)) / day_ms) ≡ false
    → IsDays start (some t) (some ((t - start + (day_ms - 1)) / day_ms))
unfolding IsDays
near start t ahead soon =
    let low = ceil_le (t - start) in
    let high = ceil_lt (t - start) in (t, refl, ground arith, ground arith, ground arith)

shown-today :
    (start t : ℕ)
    → ltb t start ≡ true
    → ltb (start - t) day_ms ≡ true
    → within_days (days_between start (some t)) ≡ some (some 0)
unfolding within_days days_between
shown-today start t past today = rw (past, today) refl

shown-past :
    (start t : ℕ)
    → ltb t start ≡ true
    → ltb (start - t) day_ms ≡ false
    → within_days (days_between start (some t)) ≡ none
unfolding within_days days_between
shown-past start t past before = rw (past, before) refl

shown-ahead :
    (start t : ℕ)
    → ltb t start ≡ false
    → let n = (t - start + (day_ms - 1)) / day_ms in
      within_days (days_between start (some t)) ≡ (if ltb 30 n then none else some (some n))
unfolding within_days days_between
shown-ahead start t ahead = rw ahead refl

within-IsDays :
    (start : ℕ) (time shown : Option ℕ)
    → within_days (days_between start time) ≡ some shown
    → IsDays start time shown
unfolding within_days days_between IsDays
within-IsDays start none shown e = subst (IsDays start none) (some_inj e) refl
within-IsDays start (some t) shown e = elim (Bool-cases (ltb t start)) [
  | inl past ↦ elim (Bool-cases (ltb (start - t) day_ms)) [
    | inl today ↦
        subst (IsDays start (some t)) (some_inj (sym (shown-today start t past today) ∙ e))
          (t, refl, omega arith, ground arith, ground arith)
    | inr before ↦ absurd (none-some (sym (shown-past start t past before) ∙ e))
  ]
  | inr ahead ↦
      let (soon, same) = when_false _ (sym (shown-ahead start t ahead) ∙ e) in
      subst (IsDays start (some t)) (some_inj same) (near start t ahead soon)
]

-- The application that counts for a scholarship: the last one that is tracked for it.
abbrev pub TracksLast : Text → List ApplicationResponse → Option ApplicationResponse → Type 0
TracksLast id tracked none = All (λ (a : ApplicationResponse). a.scholarship_id ≢ id) tracked
TracksLast id tracked (some a) =
    (before after : List ApplicationResponse) × (tracked ≡ before ++ (a ∷ after))
    × (a.scholarship_id ≡ id)
    × All (λ (b : ApplicationResponse). b.scholarship_id ≢ id) after

-- The application, if there is one, is still to be submitted.
abbrev pub IsOpen : Option ApplicationResponse → Type 0
IsOpen none = Unit
IsOpen (some a) = (a.status ≡ saved) ⊎ ((a.status ≡ preparing) ⊎ (a.status ≡ ready))

-- The start of the UTC day of a time.
abbrev pub IsDayStart : ℕ → ℕ → Type 0
IsDayStart now start =
    (day : ℕ) × (start ≡ day * 86400000) × (start ≤ now) × (now < start + 86400000)

-- When a date reads as in UTC.
abbrev pub time_of : DateParse → Text → Option ℕ
time_of date_parse date = date_parse (date ++ codes "T00:00:00.000Z")

-- A deadline that a match stands behind.
pub record IsUrgent (date_parse : DateParse) (now : ℕ) (tracked : List ApplicationResponse)
    (match : MatchResponse) (d : DashboardDeadline) : Type 0 where
  pub is_set : match.scholarship.deadline ≡ some d.deadline
  pub not_empty : d.deadline ≢ []
  pub is_published : match.scholarship.status ≡ codes "published"
  pub same_id : d.scholarship_id ≡ match.scholarship.id
  pub same_title : d.title ≡ match.scholarship.title
  pub same_provider : d.provider ≡ match.scholarship.provider
  pub application : Option ApplicationResponse
  pub tracks_last : TracksLast match.scholarship.id tracked application
  pub is_open : IsOpen application
  pub same_status :
      d.application_status ≡ Option.map (λ (a : ApplicationResponse). a.status) application
  pub start : ℕ
  pub starts_day : IsDayStart now start
  pub near_now : IsDays start (time_of date_parse d.deadline) d.days_remaining

application_for-TracksLast :
    (id : Text) (tracked : List ApplicationResponse)
    → TracksLast id tracked (application_for id tracked)
unfolding application_for
application_for-TracksLast id [] = tt
application_for-TracksLast id (a ∷ rest) =
    with_rest (application_for id rest) (application_for-TracksLast id rest)
  where
    with_rest :
        (later : Option ApplicationResponse)
        → TracksLast id rest later
        → TracksLast id (a ∷ rest) (elim later [
          | some b ↦ some b
          | none ↦ if text_eq a.scholarship_id id then some a else none
        ])
    with_rest (some b) (before, after, e, same, new) =
        (a ∷ before, after, ap (λ r. a ∷ r) e, same, new)
    with_rest none absent = elim (Bool-cases (text_eq a.scholarship_id id)) [
      | inl same ↦ rw same ([], rest, refl, text_eq_sound a.scholarship_id id same, absent)
      | inr differs ↦ rw differs (text_eq_ne a.scholarship_id id differs, absent)
    ]

unfinished-IsOpen :
    (application : Option ApplicationResponse) → finished application ≡ false → IsOpen application
unfolding is_finished
unfinished-IsOpen none e = tt
unfinished-IsOpen (some a) e = status-cases a.status e
  where
    status-cases :
        (s : ApplicationStatus)
        → is_finished s ≡ false
        → (s ≡ saved) ⊎ ((s ≡ preparing) ⊎ (s ≡ ready))
    status-cases saved h = inl refl
    status-cases preparing h = inr (inl refl)
    status-cases ready h = inr (inr refl)
    status-cases _ h = absurd (cc)

pub start-IsDayStart : (now : ℕ) → IsDayStart now (start_of_utc_day now)
unfolding start_of_utc_day
start-IsDayStart now = (now / 86400000, omega arith, omega arith, omega arith)

truthy-some : (o : Option Text) (s : Text) → truthy o ≡ some s → (o ≡ some s) × (s ≢ [])
truthy-some none s e = absurd (none-some e)
truthy-some (some []) s e = absurd (none-some e)
truthy-some (some (c ∷ t)) s e = (e, λ empty. let same : c ∷ t ≡ s = some_inj e in cc)

In-when :
    {A : Type 0} (b : Bool) {x y : A} → In x (if b then [] else y ∷ []) → (b ≡ false) × (x ≡ y)
In-when true m = elim m [ ]
In-when false (here e) = (refl, e)
In-when false (there m) = elim m [ ]

In-unless :
    {A : Type 0} (b : Bool) {x : A} {xs : List A}
    → In x (if not b then [] else xs)
    → (b ≡ true) × In x xs
In-unless true m = (refl, m)
In-unless false m = elim m [ ]

deadline_of-IsUrgent :
    (date_parse : DateParse) (now : ℕ) (tracked : List ApplicationResponse) (match : MatchResponse)
    (deadline : Text) (shown : Option (Option ℕ)) (d : DashboardDeadline)
    → truthy match.scholarship.deadline ≡ some deadline
    → text_eq match.scholarship.status (codes "published") ≡ true
    → ((n : Option ℕ)
        → shown ≡ some n
        → IsDays (start_of_utc_day now) (time_of date_parse deadline) n)
    → In d (
        deadline_of match.scholarship deadline (application_for match.scholarship.id tracked) shown)
    → IsUrgent date_parse now tracked match d
deadline_of-IsUrgent date_parse now tracked match deadline none d e p h m = elim m [ ]
deadline_of-IsUrgent date_parse now tracked match deadline (some n) d e p h m =
    let (going, same) = In-when (finished (application_for match.scholarship.id tracked)) m in
    let (set, filled) = truthy-some match.scholarship.deadline deadline e in
    subst (IsUrgent date_parse now tracked match) (sym same) record {
      is_set = set;
      not_empty = filled;
      is_published = text_eq_sound match.scholarship.status (codes "published") p;
      same_id = refl;
      same_title = refl;
      same_provider = refl;
      application = application_for match.scholarship.id tracked;
      tracks_last = application_for-TracksLast match.scholarship.id tracked;
      is_open = unfinished-IsOpen (application_for match.scholarship.id tracked) going;
      same_status = refl;
      start = start_of_utc_day now;
      starts_day = start-IsDayStart now;
      near_now = h n refl;
    }

published-IsUrgent :
    (date_parse : DateParse) (now : ℕ) (tracked : List ApplicationResponse) (match : MatchResponse)
    (deadline : Option Text) (d : DashboardDeadline)
    → truthy match.scholarship.deadline ≡ deadline
    → In d (published_deadline date_parse now tracked match.scholarship deadline)
    → IsUrgent date_parse now tracked match d
unfolding parse_date_only
published-IsUrgent date_parse now tracked match none d e m = elim m [ ]
published-IsUrgent date_parse now tracked match (some deadline) d e m =
    let (published, n) = In-unless (text_eq match.scholarship.status (codes "published")) m in
    deadline_of-IsUrgent date_parse now tracked match deadline _ d e published
      (λ shown w.
        within-IsDays (start_of_utc_day now) (parse_date_only date_parse deadline) shown w)
      n

pub all_urgent-IsUrgent :
    (date_parse : DateParse) (now : ℕ) (tracked : List ApplicationResponse)
    (found : List MatchResponse) (d : DashboardDeadline)
    → In d (all_urgent date_parse now tracked found)
    → (match : MatchResponse) × In match found × IsUrgent date_parse now tracked match d
unfolding all_urgent urgent_of
all_urgent-IsUrgent date_parse now tracked [] d m = elim m [ ]
all_urgent-IsUrgent date_parse now tracked (match ∷ rest) d m =
    elim (In-append_cases (urgent_of date_parse now tracked match) m) [
      | inl here_now ↦
          (match, here refl, published-IsUrgent date_parse now tracked match _ d refl here_now)
      | inr later ↦
          let (other, n, u) = all_urgent-IsUrgent date_parse now tracked rest d later in
          (other, there n, u)
    ]
