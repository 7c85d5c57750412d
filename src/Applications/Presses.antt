-- ===== src/Applications/Presses.antt =====
-- What one press on a card may send.
use scholarmatch_ai.Base.{
  get_elem?-In, or_false, true-false, true, false, not, List, [], ◌∷◌, Option, none, some, ◌≡◌, ◌≢◌,
  refl, sym, ap, ◌∙◌, arith, In, here, there, inl, inr, Bool-cases, Option-cases, some_inj, or_else,
  is_some, when_false, when_true, is_some-none, ◌⊎◌,
}
use mathlib.Core.Path.{subst}
use mathlib.Core.Option
use scholarmatch_ai.Base.Text.{Text, text_eq, text_eq_sound, text_eq_refl}
use scholarmatch_ai.Applications.{
  ApplicationStatus, status_word, ChecklistItem, ApplicationRequest, set_status, check_item,
  save_notes, set_reminder, delete_reminder, operation_id, label,
}
use scholarmatch_ai.Applications.Card.{
  Calendar, Card, Action, choose_status, toggle_item, press_save_notes, press_set_reminder,
  press_delete_reminder, wanted, mutate, press, includes_status, iso_of, reminder_value,
}
use scholarmatch_ai.Applications.Requests.{status_word_inj}
use scholarmatch_ai.Mutations.{Runner, key_for, begin}

-- What the requests of a press come from.
unfoldable pub IsJustified : Calendar → Card → ApplicationRequest → Type 0
IsJustified calendar card (set_status status) = In status card.application.allowed_transitions
IsJustified calendar card (check_item id completed) =
    (item : ChecklistItem) × In item card.application.checklist
    × (id ≡ item.id)
    × (completed ≡ not item.completed)
IsJustified calendar card (save_notes notes) =
    (notes ≡ card.notes) × (notes ≢ or_else card.application.notes [])
IsJustified calendar card (set_reminder remind_at timezone) =
    (reminder_value calendar card ≢ [])
    × (calendar.to_iso_string (reminder_value calendar card) ≡ some remind_at)
    × (timezone ≡ calendar.timezone)
IsJustified calendar card delete_reminder = card.application.reminder ≢ none

includes_status-In :
    (s : ApplicationStatus) (ss : List ApplicationStatus) → includes_status s ss ≡ true → In s ss
unfolding includes_status
includes_status-In s [] h = absurd (cc)
includes_status-In s (t ∷ ss) h = elim (Bool-cases (text_eq (status_word t) (status_word s))) [
  | inl same ↦ here (sym (status_word_inj t s (text_eq_sound _ _ same)))
  | inr differs ↦ there (includes_status-In s ss (ground arith))
]

unfoldable pub Asks : Calendar → Card → ApplicationRequest → Type 0
Asks calendar card request = (card.runner.pending ≡ none) × IsJustified calendar card request

map-some :
    {A B : Type 0} (f : A → B) (o : Option A) {y : B}
    → Option.map f o ≡ some y
    → (a : A) × (o ≡ some a) × (f a ≡ y)
map-some f none e = absurd (cc)
map-some f (some a) e = (a, refl, some_inj e)

-- A request that a control yields where it is enabled.
asks :
    (calendar : Calendar) (card : Card) {request other : ApplicationRequest}
    → is_some card.runner.pending ≡ false
    → request ≡ other
    → IsJustified calendar card request
    → Asks calendar card other
unfolding Asks
asks calendar card idle same h =
    (is_some-none card.runner.pending idle, subst (IsJustified calendar card) same h)

iso_of-some :
    (calendar : Calendar) (value iso : Text)
    → iso_of calendar value ≡ some iso
    → (value ≢ []) × (calendar.to_iso_string value ≡ some iso)
unfolding iso_of
iso_of-some calendar [] iso e = absurd (cc)
iso_of-some calendar (c ∷ s) iso e = ((λ x. absurd (cc)), e)

pub wanted-IsJustified :
    (calendar : Calendar) (action : Action) (card : Card) (request : ApplicationRequest)
    → wanted calendar action card ≡ some request
    → Asks calendar card request
unfolding wanted IsJustified
wanted-IsJustified calendar (choose_status status) card request e =
    let (idle, rest) = when_false _ e in
    let (allowed, same) = when_true _ rest in
    asks calendar card idle same (includes_status-In status _ allowed)
wanted-IsJustified calendar (toggle_item i) card request e =
    let (idle, rest) = when_false _ e in
    let (item, found, same) = map-some _ _ rest in
    asks calendar card idle same (item, get_elem?-In _ i found, refl, refl)
wanted-IsJustified calendar press_save_notes card request e =
    let (off, same) = when_false _ e in
    let (idle, differs) = or_false _ _ off in
    asks calendar card idle (some_inj same) (
      refl,
      λ x. true-false (sym (text_eq_refl card.notes) ∙ (ap (text_eq card.notes) x ∙ differs)),
    )
wanted-IsJustified calendar press_set_reminder card request e =
    let (idle, rest) = when_false _ e in
    let (iso, made, same) = map-some _ _ rest in
    let (filled, read) = iso_of-some calendar _ iso made in
    asks calendar card idle same (filled, read, refl)
wanted-IsJustified calendar press_delete_reminder card request e =
    let (off, same) = when_false _ e in
    let (idle, shown) = or_false _ _ off in
    asks calendar card idle (some_inj same)
      (λ x. true-false (sym (ap (λ o. not (is_some o)) x) ∙ shown))

pub press-quiet :
    (calendar : Calendar) (fresh : Text) (action : Action) (card : Card)
    → wanted calendar action card ≡ none
    → press calendar fresh action card ≡ (card, none)
unfolding press
press-quiet calendar fresh action card e = rw (press, e) refl

mutate-idle :
    (fresh : Text) (request : ApplicationRequest) (card : Card)
    → card.runner.pending ≡ none
    → mutate fresh request card ≡ (
      record card { runner = (begin fresh (operation_id request) (label request) card.runner).0 },
      some (request, key_for fresh (operation_id request) card.runner),
    )
unfolding mutate begin
mutate-idle fresh request card idle = rw idle refl

pub press-sends :
    (calendar : Calendar) (fresh : Text) (action : Action) (card : Card)
    (request : ApplicationRequest)
    → wanted calendar action card ≡ some request
    → press calendar fresh action card ≡ (
      record card { runner = (begin fresh (operation_id request) (label request) card.runner).0 },
      some (request, key_for fresh (operation_id request) card.runner),
    )
unfolding press Asks
press-sends calendar fresh action card request e =
    let (idle, _) = wanted-IsJustified calendar action card request e in
    rw (press, e) (mutate-idle fresh request card idle)

begin-pending :
    (fresh operation shown : Text) (runner : Runner)
    → runner.pending ≡ none
    → (begin fresh operation shown runner).0.pending ≡ some shown
unfolding begin
begin-pending fresh operation shown runner idle = rw idle refl

-- A press sends at most one request, and only while none is pending; then that request is pending.
-- A status that is sent is one of the allowed transitions, a checklist item is one of the
-- application's and sent with its mark flipped, notes are sent where they differ from the
-- application's, a reminder where its field is filled and reads as a time, and a reminder's
-- removal where there is one. A press that sends nothing leaves the card as it is.
pub press-IsJustified :
    (calendar : Calendar) (fresh : Text) (action : Action) (card : Card)
    → let after = press calendar fresh action card in
      ((after.0 ≡ card) × (after.1 ≡ none))
      ⊎ ((request : ApplicationRequest) × (after.1
            ≡ some (request, key_for fresh (operation_id request) card.runner))
          × (card.runner.pending ≡ none)
          × (after.0.runner.pending ≡ some (label request))
          × IsJustified calendar card request)
unfolding Asks
press-IsJustified calendar fresh action card = elim (Option-cases (wanted calendar action card)) [
  | inl e ↦
      let q = press-quiet calendar fresh action card e in inl (ap (λ x. x.0) q, ap (λ x. x.1) q)
  | inr (request, e) ↦
      let (idle, h) = wanted-IsJustified calendar action card request e in
      let q = press-sends calendar fresh action card request e in
      inr (
        request,
        ap (λ x. x.1) q,
        idle,
        ap (λ x. x.0.runner.pending) q ∙ begin-pending fresh _ (label request) card.runner idle,
        h,
      )
]
