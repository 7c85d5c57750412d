-- ===== src/Applications/Runs.antt =====
-- What a card sends along its runs.
use scholarmatch_ai.Base.{
  List, [], ◌∷◌, Option, none, some, ◌≡◌, ◌≢◌, refl, sym, In, inl, inr, All, All-In, Option-cases,
}
use mathlib.Core.Path.{subst}
use scholarmatch_ai.Base.Text.{Text}
use scholarmatch_ai.Applications.{
  ApplicationResponse, ApplicationRequest, set_status, check_item, save_notes, set_reminder,
  delete_reminder, operation_id, label,
}
use scholarmatch_ai.Applications.Card.{
  Calendar, Card, opened, Action, wanted, press, edit_notes, edit_reminder, answered, refused,
}
use scholarmatch_ai.Applications.Requests.{IsIsoText, IsTimed, operation_id_inj}
use scholarmatch_ai.Mutations.{Runner, key_for, begin}
use scholarmatch_ai.Mutations.Runs.{
  Happening, succeeded, failed, react, sent, Reached, start, next, key-operation,
}
use scholarmatch_ai.Applications.Presses.{
  IsJustified, Asks, wanted-IsJustified, press-quiet, press-sends, press-IsJustified,
}

-- `toISOString` makes texts that end with their only `Z`.
abbrev pub IsIsoCalendar : Calendar → Type 0
IsIsoCalendar calendar =
    (value iso : Text) → calendar.to_iso_string value ≡ some iso → IsIsoText iso

abbrev pub Log : Type 0
Log = List (ApplicationRequest × Text)

abbrev pub logged : Option (ApplicationRequest × Text) → Log → Log
logged none log = log
logged (some entry) log = entry ∷ log

-- A card that was reached, with what it sent, the last first: presses, with keys that are made
-- anew, typing, answers and failures in any order.
pub data CardReached (calendar : Calendar) : Card → Log → Type 0 where
  mounted : (application : ApplicationResponse) → CardReached calendar (opened application) []
  pressed :
      {card : Card} {log : Log}
      → CardReached calendar card log
      → (action : Action) (fresh : Text) → All (λ entry. entry.1 ≢ fresh) log
      → CardReached calendar
          (press calendar fresh action card).0
          (logged (press calendar fresh action card).1 log)
  typed_notes :
      {card : Card} {log : Log}
      → CardReached calendar card log
      → (notes : Text) → CardReached calendar (edit_notes notes card) log
  typed_reminder :
      {card : Card} {log : Log}
      → CardReached calendar card log
      → (value : Text) → CardReached calendar (edit_reminder value card) log
  answer :
      {card : Card} {log : Log}
      → CardReached calendar card log
      → (request : ApplicationRequest) (next : ApplicationResponse)
      → CardReached calendar (answered request next card) log
  failure :
      {card : Card} {log : Log}
      → CardReached calendar card log
      → (message : Text) → CardReached calendar (refused message card) log

begin-idle :
    (fresh operation shown : Text) (runner : Runner)
    → runner.pending ≡ none
    → (begin fresh operation shown runner).1 ≡ some (key_for fresh operation runner)
unfolding begin
begin-idle fresh operation shown runner idle = rw idle refl

-- One press, on the card's runner and log.
pressed-Reached :
    (calendar : Calendar) (card : Card) (log : Log) (action : Action) (fresh : Text)
    → All (λ entry. entry.1 ≢ fresh) log
    → Reached operation_id card.runner log
    → Reached operation_id
        (press calendar fresh action card).0.runner
        (logged (press calendar fresh action card).1 log)
unfolding Asks react
pressed-Reached calendar card log action fresh new h =
    let motive = λ (x : Card × Option (ApplicationRequest × Text)).
      Reached operation_id x.0.runner (logged x.1 log) in
    elim (Option-cases (wanted calendar action card)) [
      | inl e ↦ subst motive (sym (press-quiet calendar fresh action card e)) h
      | inr (request, e) ↦
          let (idle, _) = wanted-IsJustified calendar action card request e in
          let begun = begin fresh (operation_id request) (label request) card.runner in
          let event = Happening.press request (label request) fresh in
          let sending =
            subst (λ o. Reached operation_id begun.0 (sent operation_id event o log))
              (begin-idle fresh (operation_id request) (label request) card.runner idle)
              (next h event new) in
          subst motive (sym (press-sends calendar fresh action card request e)) sending
    ]

-- A card's runner and log are those of a run of the shared runner.
card-Reached :
    {calendar : Calendar} {card : Card} {log : Log}
    → CardReached calendar card log
    → Reached operation_id card.runner log
unfolding opened edit_notes edit_reminder answered refused react
card-Reached (mounted application) = start
card-Reached (pressed h action fresh new) = pressed-Reached _ _ _ action fresh new (card-Reached h)
card-Reached (typed_notes h notes) = card-Reached h
card-Reached (typed_reminder h value) = card-Reached h
card-Reached (answer h request next_one) = next (card-Reached h) (succeeded request) tt
card-Reached (failure h message) = next (card-Reached h) (failed delete_reminder message) tt

justified-IsTimed :
    (calendar : Calendar) (card : Card) (request : ApplicationRequest)
    → IsIsoCalendar calendar
    → IsJustified calendar card request
    → IsTimed request
unfolding IsJustified IsTimed
justified-IsTimed calendar card (set_reminder iso zone) exact h = exact _ iso h.1
justified-IsTimed calendar card (set_status status) exact h = tt
justified-IsTimed calendar card (check_item id completed) exact h = tt
justified-IsTimed calendar card (save_notes notes) exact h = tt
justified-IsTimed calendar card delete_reminder exact h = tt

card-IsTimed :
    {calendar : Calendar} {card : Card} {log : Log}
    → IsIsoCalendar calendar
    → CardReached calendar card log
    → All (λ entry. IsTimed entry.0) log
card-IsTimed exact (mounted application) = tt
card-IsTimed {calendar} exact (pressed {card} {log} h action fresh new) =
    elim (press-IsJustified calendar fresh action card) [
      | inl (_, quiet) ↦ rw quiet (card-IsTimed exact h)
      | inr (request, sends, _, _, j) ↦
          rw sends (justified-IsTimed calendar card request exact j, card-IsTimed exact h)
    ]
card-IsTimed exact (typed_notes h notes) = card-IsTimed exact h
card-IsTimed exact (typed_reminder h value) = card-IsTimed exact h
card-IsTimed exact (answer h request next_one) = card-IsTimed exact h
card-IsTimed exact (failure h message) = card-IsTimed exact h

-- On every run of a card, with keys that are made anew and reminders' times as `toISOString`
-- writes them, two requests that were sent with one idempotency key are the same request.
pub key-request :
    {calendar : Calendar} {card : Card} {log : Log}
    → IsIsoCalendar calendar
    → CardReached calendar card log
    → (request other : ApplicationRequest) (key : Text) → In (request, key) log
    → In (other, key) log
    → request ≡ other
key-request exact h request other key m n =
    let timed = card-IsTimed exact h in
    operation_id_inj request other
      (All-In (λ (entry : ApplicationRequest × Text). IsTimed entry.0) _ timed m)
      (All-In (λ (entry : ApplicationRequest × Text). IsTimed entry.0) _ timed n)
      (key-operation operation_id (card-Reached h) request other key m n)
