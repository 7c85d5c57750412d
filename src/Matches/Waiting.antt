-- ===== src/Matches/Waiting.antt =====
-- The wait for a job ends.
use scholarmatch_ai.Base.{
  true, false, ℕ, zero, suc, ◌<◌, ◌≡◌, refl, sym, ap, arith, Bool-cases, inl, inr, ◌⊎◌,
}
use mathlib.Core.Path.{subst}
use scholarmatch_ai.Matches.{
  JobResponse, is_over, other_error, Result, returned, threw, after_poll, poll_from, wait_for_job,
  JobStatus, completed, failed,
}

-- The statuses of a job that is done.
abbrev pub IsDone : JobStatus → Type 0
IsDone status = (status ≡ completed) ⊎ (status ≡ JobStatus.failed)

-- A poll that goes on: a job that is neither completed nor failed.
abbrev pub GoesOn : Result JobResponse → Type 0
GoesOn (threw error) = ⊥
GoesOn (returned job) = ¬ IsDone job.status

-- A poll that ends the wait: a job that is completed or failed, or an error.
abbrev pub Ends : Result JobResponse → Type 0
Ends (threw error) = Unit
Ends (returned job) = IsDone job.status

is_over-IsDone : (status : JobStatus) → is_over status ≡ true → IsDone status
unfolding is_over
is_over-IsDone completed e = inl refl
is_over-IsDone failed e = inr refl
is_over-IsDone _ e = absurd (cc)

is_over-false : (status : JobStatus) → is_over status ≡ false → ¬ IsDone status
is_over-false status e (inl same) = unfold is_over in cc
is_over-false status e (inr same) = unfold is_over in cc

-- How a wait with some attempts left ends, with its number of calls.
unfoldable pub Waits : (ℕ → Result JobResponse) → ℕ → Result JobResponse × ℕ → Type 0
Waits poll left outcome =
    ((k : ℕ) × (k < left)
      × (outcome.0 ≡ poll k)
      × Ends (poll k)
      × ((i : ℕ) → i < k → GoesOn (poll i))
      × (outcome.1 ≡ suc k))
    ⊎ ((outcome.0 ≡ threw other_error)
        × ((i : ℕ) → i < left → GoesOn (poll i))
        × (outcome.1 ≡ left))

before_first :
    (poll : ℕ → Result JobResponse) (n : ℕ)
    → GoesOn (poll 0)
    → ((i : ℕ) → i < n → GoesOn (poll (suc i)))
    → (i : ℕ) → i < suc n
    → GoesOn (poll i)
before_first poll n first rest zero h = first
before_first poll n first rest (suc i) h = rest i (omega arith)

after_poll-Waits :
    (poll : ℕ → Result JobResponse) (left : ℕ) (answer : Result JobResponse)
    (later : Result JobResponse × ℕ)
    → poll 0 ≡ answer
    → Waits (λ k. poll (suc k)) left later
    → Waits poll (suc left) (after_poll answer later)
unfolding Waits is_over
after_poll-Waits poll left (threw error) later e w =
    inl (0, omega arith, sym e, subst Ends (sym e) tt, (λ i h. absurd (omega arith)), refl)
after_poll-Waits poll left (returned job) (outcome, calls) e w =
    elim (Bool-cases (is_over job.status)) [
      | inl over ↦ rw over (
          inl (
            0,
            omega arith,
            sym e,
            subst Ends (sym e) (is_over-IsDone job.status over),
            (λ i h. absurd (omega arith)),
            refl,
          ))
      | inr not_over ↦
          let first = subst GoesOn (sym e) (is_over-false job.status not_over) in
          rw not_over (elim w [
            | inl (k, below, same, ends, before, called) ↦
                inl
                  (suc k, omega arith, same, ends, before_first poll k first before, ap suc called)
            | inr (same, all, called) ↦ inr (same, before_first poll left first all, ap suc called)
          ])
    ]

poll_from-Waits : (poll : ℕ → Result JobResponse) (left : ℕ) → Waits poll left (poll_from poll left)
unfolding poll_from
poll_from-Waits poll zero = unfold Waits in inr (refl, (λ i h. absurd (omega arith)), refl)
poll_from-Waits poll (suc left) =
    after_poll-Waits poll left (poll 0) _ refl (poll_from-Waits (λ k. poll (suc k)) left)

-- The wait for a job always ends, after at most 40 calls: with what the first call gives that
-- finds the job completed or failed, or that throws, where one of 40 does, and else, where all 40
-- find the job neither completed nor failed, with the time-out after exactly 40.
pub wait_for_job-Waits : (poll : ℕ → Result JobResponse) → Waits poll 40 (wait_for_job poll)
unfolding wait_for_job
wait_for_job-Waits poll = poll_from-Waits poll 40
