-- ===== src/Dashboard/Recent.antt =====
-- Which matches the dashboard calls recent, and in which order.
use scholarmatch_ai.Base.{
  true, List, [], ◌∷◌, Option, none, some, ℕ, ◌+◌, ◌≤◌, ◌≡◌, ◌↔◌, refl, sym, ◌∙◌, ◌*◌, ◌&&◌,
  none-some, some_inj, or_else, arith, In, All, In-All, In-keep, keep-In, keep, holds, leb,
}
use mathlib.Core.Path.{ap₂}
use scholarmatch_ai.Dashboard.Model.{
  MatchResponse, DateParse, recent_matches, is_recent, newer_first,
}
use scholarmatch_ai.Dashboard.Sorting.{sort, In-sort, sort-In, IsOrdered, sort-IsOrdered}

module _ (date_parse : DateParse) where
  -- A match that was calculated in the last 14 days.
  abbrev pub IsRecent : ℕ → MatchResponse → Type 0
  IsRecent now match =
      (t : ℕ) × (date_parse match.calculated_at ≡ some t) × (t ≤ now) × (now ≤ t + 1209600000)

  -- One match was calculated no earlier than another.
  abbrev pub IsNoOlder : MatchResponse → MatchResponse → Type 0
  IsNoOlder a b =
      (t u : ℕ) × (date_parse a.calculated_at ≡ some t)
      × (date_parse b.calculated_at ≡ some u)
      × (u ≤ t)

  abbrev pub AreNewestFirst : List MatchResponse → Type 0
  AreNewestFirst [] = Unit
  AreNewestFirst (a ∷ rest) = All (IsNoOlder a) rest × AreNewestFirst rest

  module _ (now : ℕ) where
    in_days_iff :
        (time : Option ℕ)
        → (holds (λ at. leb now (at + 14 * 86400000) && leb at now) time ≡ true)
          ↔ ((t : ℕ) × (time ≡ some t) × (t ≤ now) × (now ≤ t + 1209600000))
    in_days_iff none = (λ h. absurd (cc), λ (t, e, after, before). absurd (none-some e))
    in_days_iff (some at) = (
      λ h. (at, refl, ground arith, ground arith),
      λ (t, e, after, before). let same : at ≡ t = some_inj e in ground arith,
    )

    newer-IsNoOlder :
        (a b : MatchResponse)
        → IsRecent now a
        → IsRecent now b
        → newer_first date_parse a b ≡ true
        → IsNoOlder a b
    newer-IsNoOlder a b (t, e, after, before) (u, f, after', before') h =
        let ordered : leb u t ≡ true = sym (ap₂ (λ x y. leb (or_else y 0) (or_else x 0)) e f) ∙ h in
        (t, u, e, f, ground arith)

    ordered-AreNewestFirst :
        (ms : List MatchResponse)
        → All (IsRecent now) ms
        → IsOrdered (newer_first date_parse) ms
        → AreNewestFirst ms
    ordered-AreNewestFirst [] recent h = tt
    ordered-AreNewestFirst (a ∷ ms) (r, recent) (first, h) =
        (all_older ms recent first, ordered-AreNewestFirst ms recent h)
      where
        all_older :
            (bs : List MatchResponse)
            → All (IsRecent now) bs
            → All (λ b. newer_first date_parse a b ≡ true) bs
            → All (IsNoOlder a) bs
        all_older [] rs hs = tt
        all_older (b ∷ bs) (x, rs) (y, hs) = (newer-IsNoOlder a b r x y, all_older bs rs hs)

    -- The dashboard calls a match recent exactly when the time at which it was calculated reads as a
    -- time that is not in the future and at most 14 days ago; and it shows the recent matches with
    -- the newest first.
    pub recent_matches-AreNewestFirst :
        (found : List MatchResponse)
        → ((match : MatchResponse)
            → In match (recent_matches date_parse now found)
              ↔ (In match found × IsRecent now match))
          × AreNewestFirst (recent_matches date_parse now found)
    unfolding recent_matches
    recent_matches-AreNewestFirst found =
        let le = newer_first date_parse in
        let kept = keep (is_recent date_parse now) found in
        let recent : (m : MatchResponse) → In m kept → IsRecent now m =
          λ m n. (in_days_iff (date_parse m.calculated_at)).0 (In-keep _ found n).1 in
        (
          λ match. (
            λ m. let n = In-sort le kept m in ((In-keep _ found n).0, recent match n),
            λ (m, r).
                sort-In le kept
                  (keep-In _ found m ((in_days_iff (date_parse match.calculated_at)).1 r)),
          ),
          ordered-AreNewestFirst (sort le kept)
              (In-All (IsRecent now) (sort le kept) (λ m n. recent m (In-sort le kept n)))
              (sort-IsOrdered le (IsRecent now) (λ x y h. ground arith)
                (λ x y z px py pz xy yz. ground arith) kept (In-All (IsRecent now) kept recent)),
        )
