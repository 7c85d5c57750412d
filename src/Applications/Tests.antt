-- ===== src/Applications/Tests.antt =====
-- The card and the board on small inputs.
use scholarmatch_ai.Base.{
  true-false, ap, [], ◌∷◌, none, some, ◌≡◌, ◌≢◌, ◌⊎◌, refl, sym, arith, here, there, some_inj,
}
use mathlib.Core.List.{Perm}
use scholarmatch_ai.Base.Text.{Text, codes, text_eq}
use scholarmatch_ai.Mutations.{begin, get, put, fail, key_for}
use scholarmatch_ai.Applications.{
  saved, preparing, submitted, ApplicationResponse, ApplicationRequest, set_status, operation_id,
  status_word, label,
}
use scholarmatch_ai.Applications.Card.{
  Calendar, Card, opened, choose_status, press, refused, includes_status, wanted, mutate,
}
use scholarmatch_ai.Applications.Requests.{IsIsoText}
use scholarmatch_ai.Applications.Runs.{
  IsIsoCalendar, Log, CardReached, mounted, pressed, failure, key-request,
}
use scholarmatch_ai.Applications.Presses.{press-IsJustified, IsJustified}
use scholarmatch_ai.Applications.Board.{board, flatten, IsSorted, board-Perm}

abbrev calendar : Calendar
calendar = record {
  timezone = codes "UTC";
  format_to_parts = λ value zone. [];
  to_iso_string = λ value. some (codes "9Z");
}

abbrev application : ApplicationResponse
application = record {
  id = codes "a1";
  scholarship_id = codes "s1";
  status = saved;
  allowed_transitions = preparing ∷ [];
  notes = none;
  checklist = [];
  reminder = none;
}

calendar-IsIso : IsIsoCalendar calendar
unfolding IsIsoText
calendar-IsIso value iso e = (codes "9", sym (some_inj e), ((λ x. absurd (omega arith)), tt))

-- A status is asked for, fails, and is asked for again, with another key at hand.
abbrev twice : Log
twice = (set_status preparing, codes "k1") ∷ (set_status preparing, codes "k1") ∷ []

abbrev ask : Text → Card → Card
ask fresh card = (press calendar fresh (choose_status preparing) card).0

k1_k2 : codes "k1" ≢ codes "k2"
unfolding text_eq
k1_k2 e = true-false (ap (λ s. text_eq s (codes "k1")) e)

twice-CardReached :
    CardReached calendar
      (ask (codes "k2") (refused (codes "offline") (ask (codes "k1") (opened application))))
      twice
unfolding press wanted mutate opened refused includes_status begin get put fail operation_id
    status_word label text_eq
twice-CardReached =
    pressed
      (failure (pressed (mounted application) (choose_status preparing) (codes "k1") tt)
        (codes "offline"))
      (choose_status preparing) (codes "k2") (k1_k2, tt)

key-request_example : set_status preparing ≡ set_status preparing
key-request_example =
    key-request calendar-IsIso twice-CardReached (set_status preparing) (set_status preparing)
      (codes "k1") (here refl) (there (here refl))

press-IsJustified_example :
    let after = press calendar (codes "k1") (choose_status preparing) (opened application) in
    ((after.0 ≡ opened application) × (after.1 ≡ none))
    ⊎ ((request : ApplicationRequest) × (after.1
          ≡ some (request, key_for (codes "k1") (operation_id request) (opened application).runner))
        × ((opened application).runner.pending ≡ none)
        × (after.0.runner.pending ≡ some (label request))
        × IsJustified calendar (opened application) request)
press-IsJustified_example =
    press-IsJustified calendar (codes "k1") (choose_status preparing) (opened application)

abbrev moved : ApplicationResponse
moved = record application { status = preparing; allowed_transitions = submitted ∷ [] }

abbrev other : ApplicationResponse
other = record application { id = codes "a2" }

board-Perm_example :
    Perm (flatten (board (application ∷ moved ∷ other ∷ []))) (application ∷ moved ∷ other ∷ [])
    × IsSorted (board (application ∷ moved ∷ other ∷ []))
board-Perm_example = board-Perm (application ∷ moved ∷ other ∷ [])
