-- ===== src/Profile/Completeness/Laws.antt =====
-- What the completeness of a profile adds up to.
use scholarmatch_ai.Base.{
  ℕ, ◌+◌, Bool, true, not, List, [], ◌∷◌, keep, length, ◌≡◌, ap, ◌≤◌, ◌↔◌, arith, All,
  length-eq-zero,
}
use scholarmatch_ai.Profile.Completeness.{
  ProfileResponse, facts_of, rounded_percent, profile_completeness,
}

split-length :
    {A : Type 0} (p : A → Bool) (xs : List A)
    → length (keep p xs) + length (keep (λ x. not (p x)) xs) ≡ length xs
split-length p [] = omega arith
split-length p (x ∷ xs) = ground (arith, split-length p xs)

kept_by-All :
    {A : Type 0} (p : A → Bool) (xs : List A)
    → (keep (λ x. not (p x)) xs ≡ []) ↔ All (λ x. p x ≡ true) xs
kept_by-All p [] = ground arith
kept_by-All p (x ∷ xs) = ground (arith, kept_by-All p xs)

percent_full :
    (done open_facts : ℕ)
    → done + open_facts ≡ 7
    → (rounded_percent done 7 ≤ 100) × ((rounded_percent done 7 ≡ 100) ↔ (open_facts ≡ 0))
percent_full done open_facts h = (omega arith, (λ e. omega arith, λ e. omega arith))

-- A fact is either counted as completed or listed as missing; the share is at most a hundred
-- percent, and it is a hundred exactly when all facts are complete.
pub profile_completeness_lem :
    (profile : ProfileResponse)
    → let c = profile_completeness profile in
      (c.completed + length c.missing ≡ c.total)
      × (c.percent ≤ 100)
      × ((c.percent ≡ 100) ↔ All (λ f. f.complete ≡ true) c.facts)
unfolding profile_completeness
profile_completeness_lem profile =
    let facts = facts_of profile in
    let counts = split-length (λ f. f.complete) facts in
    let (bound, full) = percent_full _ (length (keep (λ f. not f.complete) facts)) counts in
    (
      counts,
      bound,
      (
        λ e. (kept_by-All (λ f. f.complete) facts).0 (length-eq-zero _ (full.0 e)),
        λ all. full.1 (ap length ((kept_by-All (λ f. f.complete) facts).1 all)),
      ),
    )
