-- ===== src/Matches.antt =====
-- The ranked matches of frontend/app/components/matches/ranked-match-list.tsx: a recalculation with
-- the wait for its job, and the loading of further pages. The list uses the API client, no
-- injected `actions`; an `await` cuts a handler in two.
pub mod Waiting
pub mod Paging
mod Tests
use scholarmatch_ai.Base.{
  Bool, true, false, not, ◌||◌, List, [], ◌∷◌, ◌++◌, Option, none, some, if◌then◌else◌, ℕ, ◌+◌,
  or_else, is_some, zero, suc, ◌==◌,
}
use scholarmatch_ai.Base.Text.{Text, codes}
use scholarmatch_ai.Base.Text.Decimal.{decimal}
use scholarmatch_ai.Api.Errors.{ApiError, ApiErrorKind, rate_limited, truthy}

pub data JobStatus : Type 0 where
  queued : JobStatus
  running : JobStatus
  completed : JobStatus
  failed : JobStatus

pub record JobResponse : Type 0 where
  pub id : Text
  pub status : JobStatus
  pub matches_updated_at : Option Text
  pub updated_at : Text

-- `job.status === "completed" || job.status === "failed"`
unfoldable pub is_over : JobStatus → Bool
is_over completed = true
is_over failed = true
is_over _ = false

-- What is thrown: an `ApiError` or another error.
pub data Reason : Type 0 where
  api_error : ApiError → Reason
  other_error : Reason

pub data Result (A : Type 0) : Type 0 where
  returned : A → Result A
  threw : Reason → Result A

-- One attempt of `waitForJob`, on its poll and on what the later attempts give.
abbrev pub after_poll : Result JobResponse → Result JobResponse × ℕ → Result JobResponse × ℕ
after_poll (threw error) later = (threw error, 1)
after_poll (returned job) (outcome, calls) =
    if is_over job.status then (returned job, 1) else (outcome, suc calls)

-- `waitForJob` with some attempts left, and the number of calls that it makes; `poll k` is what the
-- call after k more ones gives. The loop makes 40 attempts.
abbrev pub attempts : ℕ
attempts = 40

unfoldable pub poll_from : (ℕ → Result JobResponse) → ℕ → Result JobResponse × ℕ
unfolding is_over
poll_from poll zero = (threw other_error, 0)
poll_from poll (suc left) = after_poll (poll 0) (poll_from (λ k. poll (suc k)) left)

unfoldable pub wait_for_job : (ℕ → Result JobResponse) → Result JobResponse × ℕ
unfolding poll_from
wait_for_job poll = poll_from poll attempts

-- The job that `recalculate` goes on with.
unfoldable pub completed_job : Result JobResponse → (ℕ → Result JobResponse) → Result JobResponse
unfolding wait_for_job is_over
completed_job (threw error) poll = threw error
completed_job (returned job) poll =
    if is_over job.status then returned job else (wait_for_job poll).0

unfoldable pub is_failed : JobStatus → Bool
is_failed failed = true
is_failed _ = false

pub record Page (A : Type 0) : Type 0 where
  pub items : List A
  pub next_cursor : Option Text
  pub has_more : Bool

-- What the `try` of `recalculate` gives: the page and the time of the update, or what was thrown.
unfoldable pub recalculated :
    {A : Type 0}
    → Result JobResponse
    → (ℕ → Result JobResponse)
    → Result (Page A)
    → Result (Page A × Text)
unfolding completed_job is_failed
recalculated job poll page = elim (completed_job job poll) [
  | threw error ↦ threw error
  | returned done ↦ if is_failed done.status then threw other_error else elim page [
    | threw error ↦ threw error
    | returned p ↦ returned (p, or_else done.matches_updated_at done.updated_at)
  ]
]

pub record MatchList (A : Type 0) : Type 0 where
  pub items : List A
  pub next_cursor : Option Text
  pub has_more : Bool
  pub pending : Bool
  pub loading_more : Bool
  pub status : Text
  pub error : Text

abbrev pub opened : {A : Type 0} → Page A → MatchList A
opened page = record {
  items = page.items;
  next_cursor = page.next_cursor;
  has_more = page.has_more;
  pending = false;
  loading_more = false;
  status = [];
  error = [];
}

unfoldable pub press_recalculate : {A : Type 0} → MatchList A → MatchList A × Bool
press_recalculate m = if m.pending then (m, false) else (
  record m {
    pending = true;
    error = [];
    status = codes "Recalculation queued. You can keep reviewing these matches.";
  },
  true,
)

-- `retryAfterSeconds`, a sign and a number, where it is truthy.
abbrev seconds_text : Bool × ℕ → Text
seconds_text (minus, n) = (if minus then codes "-" else []) ++ decimal n

abbrev rate_message : Option (Bool × ℕ) → Text
rate_message none = codes "Recalculation is rate limited. Please wait and try again."
rate_message (some (minus, n)) =
    if n == 0
    then codes "Recalculation is rate limited. Please wait and try again."
    else codes "Recalculation is rate limited. Try again in "
      ++ (seconds_text (minus, n) ++ codes " seconds.")

unfoldable pub is_rate_limited : ApiErrorKind → Bool
is_rate_limited rate_limited = true
is_rate_limited _ = false

abbrev kept_message : Text
kept_message =
    codes "Matches could not be recalculated. Existing deterministic results remain available."

unfoldable pub recalculation_error : Reason → Text
unfolding is_rate_limited decimal
recalculation_error other_error = kept_message
recalculation_error (api_error e) =
    if is_rate_limited e.kind then rate_message e.retry_after_seconds else kept_message

-- The rest of `recalculate`; `format_timestamp` is `formatMatchTimestamp`.
unfoldable pub finish_recalculate :
    {A : Type 0} → (Text → Text) → Result (Page A × Text) → MatchList A → MatchList A
unfolding recalculation_error
finish_recalculate format_timestamp (returned (page, updated)) m = record m {
  items = page.items;
  next_cursor = page.next_cursor;
  has_more = page.has_more;
  status =
      codes "Recalculation complete. Matches updated " ++ (format_timestamp updated ++ codes ".");
  pending = false;
}
finish_recalculate format_timestamp (threw reason) m = record m {
  error = recalculation_error reason;
  status = [];
  pending = false;
}

-- `loadMore` up to its request, with the cursor that it asks for.
abbrev pub load_more_at : {A : Type 0} → Option Text → MatchList A → MatchList A × Option Text
load_more_at none m = (m, none)
load_more_at (some cursor) m =
    if m.loading_more
    then (m, none)
    else (record m { loading_more = true; error = [] }, some cursor)

unfoldable pub press_load_more : {A : Type 0} → MatchList A → MatchList A × Option Text
press_load_more m = load_more_at (truthy m.next_cursor) m

-- The rest of it.
unfoldable pub finish_load_more : {A : Type 0} → Option (Page A) → MatchList A → MatchList A
finish_load_more (some page) m = record m {
  items = m.items ++ page.items;
  next_cursor = page.next_cursor;
  has_more = page.has_more;
  loading_more = false;
}
finish_load_more none m = record m {
  error = codes "The next page could not be loaded. Current matches remain available.";
  loading_more = false;
}
