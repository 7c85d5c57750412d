-- ===== src/Matches/Tests.antt =====
-- The ranked list on small inputs.
use scholarmatch_ai.Base.{true, false, [], ◌∷◌, ◌++◌, none, some, ℕ, ◌≡◌, ◌≢◌, refl, zero, suc}
use scholarmatch_ai.Base.Text.{Text, codes}
use scholarmatch_ai.Matches.{
  JobResponse, running, completed, Page, MatchList, opened, Result, returned, wait_for_job,
  press_recalculate, finish_recalculate, press_load_more, finish_load_more,
}
use scholarmatch_ai.Matches.Waiting.{Waits, wait_for_job-Waits}
use scholarmatch_ai.Matches.Paging.{
  Ranking, first_only, HoldsList, load_more-Holds, recalculate-load_more,
}

abbrev job : JobResponse
job = record { id = codes "j"; status = running; matches_updated_at = none; updated_at = codes "t" }

abbrev poll : ℕ → Result JobResponse
poll zero = returned job
poll (suc k) = returned (record job { status = completed })

wait_for_job-Waits_example : Waits poll 40 (wait_for_job poll)
wait_for_job-Waits_example = wait_for_job-Waits poll

abbrev last_page : Page ℕ
last_page = record { items = 3 ∷ []; next_cursor = none; has_more = false }

abbrev ranking : Ranking ℕ
ranking = record {
  first_page = record { items = 1 ∷ 2 ∷ []; next_cursor = some (codes "c"); has_more = true };
  page_at = λ cursor. last_page;
}

abbrev match_list : MatchList ℕ
match_list = opened ranking.first_page

asks : (press_load_more match_list).1 ≡ some (codes "c")
unfolding press_load_more
asks = refl

load_more-Holds_example :
    let asked = (press_load_more match_list).0 in
    let loaded = finish_load_more (some (ranking.page_at (codes "c"))) asked in
    let unloaded = finish_load_more none asked in
    HoldsList ranking loaded
    × (loaded.items ≡ match_list.items ++ (ranking.page_at (codes "c")).items)
    × HoldsList ranking unloaded
    × (unloaded.items ≡ match_list.items)
    × (loaded.loading_more ≡ false)
    × (unloaded.loading_more ≡ false)
load_more-Holds_example = load_more-Holds ranking match_list (codes "c") first_only asks

last_page_ne : last_page.items ≢ []
last_page_ne e = absurd (cc)

abbrev plain : Text → Text
plain time = time

recalculate-load_more_example :
    let asked = (press_load_more match_list).0 in
    let pressed = press_recalculate asked in
    let fresh = finish_recalculate plain (returned (ranking.first_page, codes "t")) in
    let crossed = finish_load_more (some last_page) (fresh pressed.0) in
    let ordered = fresh (finish_load_more (some last_page) pressed.0) in
    (pressed.1 ≡ true)
    × HoldsList ranking (fresh pressed.0)
    × HoldsList ranking ordered
    × (crossed.items ≡ ranking.first_page.items ++ last_page.items)
    × (crossed.next_cursor ≡ last_page.next_cursor)
    × (crossed.items ≢ ordered.items)
recalculate-load_more_example =
    recalculate-load_more plain match_list (codes "c") (codes "t") ranking last_page refl asks
      last_page_ne
