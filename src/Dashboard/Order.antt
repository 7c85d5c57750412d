-- ===== src/Dashboard/Order.antt =====
-- The order of the dashboard's deadlines.
use scholarmatch_ai.Base.{
  In-All, true, false, List, Option, none, some, ℕ, ◌≡◌, ◌≢◌, refl, arith, In, is_some, [], ◌∷◌,
  ◌≤◌, ◌<◌, ◌+◌, ◌*◌, leb, All, sym, ◌∙◌,
}
use mathlib.Core.Path.{ap₂}
use scholarmatch_ai.Base.Text.{Text}
use scholarmatch_ai.Applications.{ApplicationResponse}
use scholarmatch_ai.Dashboard.Model.{
  MatchResponse, DashboardDeadline, DateParse, all_urgent, days_le, days_option_le,
  urgent_deadlines,
}
use scholarmatch_ai.Dashboard.Deadlines.{IsDays, IsDayStart, time_of, all_urgent-IsUrgent}
use scholarmatch_ai.Dashboard.Sorting.{IsOrdered, sort-IsOrdered, sort, In-sort}

-- A deadline whose days are a number.
abbrev IsDated : DashboardDeadline → Type 0
IsDated d = is_some d.days_remaining ≡ true

option_le_total : (x y : Option ℕ) → days_option_le x y ≡ false → days_option_le y x ≡ true
option_le_total none y h = absurd (cc)
option_le_total (some m) none h = absurd (cc)
option_le_total (some m) (some n) h = ground arith

option_le_trans :
    (x y z : Option ℕ)
    → is_some y ≡ true
    → days_option_le x y ≡ true
    → days_option_le y z ≡ true
    → days_option_le x z ≡ true
option_le_trans none y z dated xy yz = refl
option_le_trans (some m) none z dated xy yz = absurd (cc)
option_le_trans (some m) (some n) none dated xy yz = refl
option_le_trans (some m) (some n) (some k) dated xy yz = ground arith

-- Every deadline text of the matches reads as a date.
abbrev pub AreDates : DateParse → List MatchResponse → Type 0
AreDates date_parse found =
    (match : MatchResponse) (deadline : Text)
    → In match found
    → match.scholarship.deadline ≡ some deadline
    → deadline ≢ []
    → time_of date_parse deadline ≢ none

-- One deadline is on an earlier day than another, or on the same one: both have a number of days,
-- and the later one's time is not a day or more before the earlier one's.
abbrev pub IsNoLater : DateParse → DashboardDeadline → DashboardDeadline → Type 0
IsNoLater date_parse d e =
    (m n t u : ℕ) × (d.days_remaining ≡ some m)
    × (e.days_remaining ≡ some n)
    × (m ≤ n)
    × (time_of date_parse d.deadline ≡ some t)
    × (time_of date_parse e.deadline ≡ some u)
    × (t < u + 86400000)

-- Every deadline stands before the ones that are no earlier.
abbrev pub AreNearestFirst : DateParse → List DashboardDeadline → Type 0
AreNearestFirst date_parse [] = Unit
AreNearestFirst date_parse (d ∷ rest) =
    All (IsNoLater date_parse d) rest × AreNearestFirst date_parse rest

module _ (date_parse : DateParse) (now : ℕ) where
  -- A deadline with a date, and its number of days from the start of today.
  IsCounted : DashboardDeadline → Type 0
  IsCounted d =
      (start n t : ℕ) × IsDayStart now start
      × (d.days_remaining ≡ some n)
      × (time_of date_parse d.deadline ≡ some t)
      × (t ≤ start + n * 86400000)
      × (start + n * 86400000 < t + 86400000)

  days-IsCounted :
      (start : ℕ) (d : DashboardDeadline) (shown : Option ℕ)
      → d.days_remaining ≡ shown
      → IsDayStart now start
      → IsDays start (time_of date_parse d.deadline) shown
      → time_of date_parse d.deadline ≢ none
      → IsCounted d
  unfolding IsDays IsCounted
  days-IsCounted start d none e day h dated = absurd (dated h)
  days-IsCounted start d (some n) e day (t, read, within, above, below) dated =
      (start, n, t, day, e, read, above, below)

  IsCounted-IsDated : (d : DashboardDeadline) → IsCounted d → IsDated d
  unfolding IsCounted
  IsCounted-IsDated d (start, n, t, day, e, read, above, below) = rw e refl

  counted-IsNoLater :
      (d e : DashboardDeadline)
      → IsCounted d
      → IsCounted e
      → days_le d e ≡ true
      → IsNoLater date_parse d e
  unfolding IsCounted
  counted-IsNoLater d e (s, m, t, (i, at, after, before), shown, read, above, below)
        (s', n, u, (j, at', after', before'), shown', read', above', below') h =
      let ordered : leb m n ≡ true = order shown shown' h in
      let le : m ≤ n = ground arith in (m, n, t, u, shown, shown', le, read, read', omega arith)
    where
      order :
          {m n : ℕ}
          → d.days_remaining ≡ some m
          → e.days_remaining ≡ some n
          → days_le d e ≡ true
          → leb m n ≡ true
      order x y h = sym (ap₂ days_option_le x y) ∙ h

  ordered-AreNearestFirst :
      (ds : List DashboardDeadline)
      → All IsCounted ds
      → IsOrdered days_le ds
      → AreNearestFirst date_parse ds
  ordered-AreNearestFirst [] counted h = tt
  ordered-AreNearestFirst (d ∷ ds) (c, counted) (first, h) =
      (all_later ds counted first, ordered-AreNearestFirst ds counted h)
    where
      all_later :
          (es : List DashboardDeadline)
          → All IsCounted es
          → All (λ e. days_le d e ≡ true) es
          → All (IsNoLater date_parse d) es
      all_later [] cs hs = tt
      all_later (e ∷ es) (x, cs) (y, hs) = (counted-IsNoLater d e c x y, all_later es cs hs)

  all_urgent-IsCounted :
      (tracked : List ApplicationResponse) (found : List MatchResponse)
      → AreDates date_parse found
      → (d : DashboardDeadline) → In d (all_urgent date_parse now tracked found)
      → IsCounted d
  all_urgent-IsCounted tracked found dates d m =
      let (match, n, u) = all_urgent-IsUrgent date_parse now tracked found d m in
      days-IsCounted u.start d d.days_remaining refl u.starts_day u.near_now
        (dates match d.deadline n u.is_set u.not_empty)

  -- Where the deadlines of all matches read as dates, the dashboard shows its deadlines in the order
  -- of their days, the nearest first: each has a number of days, which is at most that of every later
  -- one, and its date is never a day or more after the date of a later one.
  pub urgent_deadlines-AreNearestFirst :
      (tracked : List ApplicationResponse) (found : List MatchResponse)
      → AreDates date_parse found
      → AreNearestFirst date_parse (urgent_deadlines date_parse now tracked found)
  unfolding urgent_deadlines
  urgent_deadlines-AreNearestFirst tracked found dates =
      let counted = all_urgent-IsCounted tracked found dates in
      let all = all_urgent date_parse now tracked found in
      ordered-AreNearestFirst (sort days_le all)
        (In-All IsCounted (sort days_le all) (λ d m. counted d (In-sort days_le all m)))
        (sort-IsOrdered days_le IsDated
          (λ x y h. option_le_total x.days_remaining y.days_remaining h)
          (λ x y z px py pz xy yz.
            option_le_trans x.days_remaining y.days_remaining z.days_remaining py xy yz)
          all (In-All IsDated all (λ d m. IsCounted-IsDated d (counted d m))))
