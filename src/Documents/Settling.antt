-- ===== src/Documents/Settling.antt =====
-- How an upload's promise settles.
use scholarmatch_ai.Base.{
  true, false, List, [], ◌∷◌, Option, none, some, ℕ, ◌≡◌, ◌≢◌, refl, sym, ap, ◌∙◌, Bool-cases, inl,
  inr, Option-cases, ◌↔◌, ◌⊎◌, true-false, none-some,
}
use mathlib.Core.Path.{subst}
use scholarmatch_ai.Base.Text.{Text}
use scholarmatch_ai.Api.Errors.{ErrorEnvelope, api_error_from_network}
use scholarmatch_ai.Api.Client.{is_ok}
use scholarmatch_ai.Documents.{DocumentResponse}
use scholarmatch_ai.Documents.Upload.{
  XhrEvent, progress, loaded, errored, aborted, Promise, waiting, resolved, rejected,
  response_throws, upload_error, on_load, on_event, on_events,
}

-- The progress events before a request ends.
abbrev pub progresses : List (Option (ℕ × ℕ)) → List XhrEvent → List XhrEvent
progresses [] rest = rest
progresses (p ∷ ps) rest = progress p ∷ progresses ps rest

-- What a rebuilt response that has ended well or badly settles the promise with.
abbrev pub expected :
    (Text → Option ErrorEnvelope) → (Text → Option DocumentResponse) → XhrEvent → Promise
expected parse_envelope parse (progress p) = waiting
expected parse_envelope parse errored = rejected (api_error_from_network false)
expected parse_envelope parse aborted = rejected (api_error_from_network true)
expected parse_envelope parse (loaded status text) = (on_load parse_envelope parse status text).0

module _ (percent : ℕ → ℕ → ℕ) (parse_envelope : Text → Option ErrorEnvelope)
    (parse : Text → Option DocumentResponse) where
  after_progress :
      (ps : List (Option (ℕ × ℕ))) (rest : List XhrEvent)
      → (on_events percent parse_envelope parse waiting (progresses ps rest)).0
        ≡ (on_events percent parse_envelope parse waiting rest).0
  unfolding on_events on_event
  after_progress [] rest = refl
  after_progress (none ∷ ps) rest = after_progress ps rest
  after_progress (some (done, total) ∷ ps) rest = after_progress ps rest

  settled_once :
      (p : Promise) (e : XhrEvent) → p ≢ waiting → (on_event percent parse_envelope parse p e).0 ≡ p
  unfolding on_event
  settled_once waiting e h = absurd (h refl)
  settled_once (resolved d) (progress none) h = refl
  settled_once (resolved d) (progress (some (done, total))) h = refl
  settled_once (resolved d) (loaded status text) h = refl
  settled_once (resolved d) errored h = refl
  settled_once (resolved d) aborted h = refl
  settled_once (rejected x) (progress none) h = refl
  settled_once (rejected x) (progress (some (done, total))) h = refl
  settled_once (rejected x) (loaded status text) h = refl
  settled_once (rejected x) errored h = refl
  settled_once (rejected x) aborted h = refl

  on_events_cons :
      (p : Promise) (e : XhrEvent) (events : List XhrEvent)
      → (on_events percent parse_envelope parse p (e ∷ events)).0
        ≡ (on_events percent parse_envelope parse
            (on_event percent parse_envelope parse p e).0
            events).0
  unfolding on_events
  on_events_cons p e events = refl

  -- The promise after more events, where one has left it as `q`.
  follow :
      (p q : Promise) (e : XhrEvent) (events : List XhrEvent)
      → (on_event percent parse_envelope parse p e).0 ≡ q
      → (on_events percent parse_envelope parse p (e ∷ events)).0
        ≡ (on_events percent parse_envelope parse q events).0
  follow p q e events same =
      on_events_cons p e events ∙ ap (λ x. (on_events percent parse_envelope parse x events).0) same

  on_events_nil : (p : Promise) → (on_events percent parse_envelope parse p []).0 ≡ p
  unfolding on_events
  on_events_nil p = refl

  settled :
      (p : Promise) (events : List XhrEvent)
      → p ≢ waiting
      → (on_events percent parse_envelope parse p events).0 ≡ p
  settled p [] h = on_events_nil p
  settled p (e ∷ events) h = follow p p e events (settled_once p e h) ∙ settled p events h

  first_event :
      (e : XhrEvent)
      → (on_event percent parse_envelope parse waiting e).0 ≡ expected parse_envelope parse e
  unfolding on_event
  first_event (progress none) = refl
  first_event (progress (some (done, total))) = refl
  first_event (loaded status text) = refl
  first_event errored = refl
  first_event aborted = refl

  -- After any progress, the event that ends an upload settles the promise once and for all,
  -- where it settles it: with what the event stands for, whatever events follow.
  pub upload-settles :
      (ps : List (Option (ℕ × ℕ))) (end : XhrEvent) (rest : List XhrEvent)
      → expected parse_envelope parse end ≢ waiting
      → (on_events percent parse_envelope parse waiting (progresses ps (end ∷ rest))).0
        ≡ expected parse_envelope parse end
  upload-settles ps end rest h =
      after_progress ps (end ∷ rest)
      ∙ (follow waiting _ end rest (first_event end) ∙ settled _ rest h)

  -- The ends that settle nothing: the response cannot be rebuilt, or its body does not read as a
  -- document.
  unfoldable pub IsStuck : XhrEvent → Type 0
  IsStuck (progress p) = Unit
  IsStuck (loaded status text) =
      (response_throws status ≡ true)
      ⊎ ((response_throws status ≡ false) × (is_ok status ≡ true) × (parse text ≡ none))
  IsStuck errored = ⊥
  IsStuck aborted = ⊥

  Settles : Promise → Type 0
  Settles waiting = ⊥
  Settles (resolved d) = Unit
  Settles (rejected e) = Unit

  rejected-ne : (p : Promise) → Settles p → p ≢ waiting
  unfolding Settles
  rejected-ne p h e = subst Settles e h

  load_iff :
      (status : ℕ) (text : Text)
      → ((on_load parse_envelope parse status text).0 ≡ waiting) ↔ IsStuck (loaded status text)
  unfolding on_load IsStuck Settles
  load_iff status text = elim (Bool-cases (response_throws status)) [
    | inl throws ↦ rw throws ((λ e. inl refl), λ h. refl)
    | inr rebuilt ↦ rw rebuilt (elim (Bool-cases (is_ok status)) [
      | inr bad ↦ rw bad (
        (λ e. absurd (rejected-ne (rejected (upload_error parse_envelope status text)) tt e)),
        λ h. elim h [
          | inl x ↦ absurd (true-false (sym x))
          | inr (_, x, _) ↦ absurd (true-false (sym x))
        ],
      )
      | inl fine ↦ rw fine (elim (Option-cases (parse text)) [
        | inl none_read ↦ rw none_read ((λ e. inr (refl, refl, refl)), λ h. refl)
        | inr (document, read) ↦ rw read (
          (λ e. absurd (rejected-ne (resolved document) tt e)),
          λ h. elim h [
            | inl x ↦ absurd (true-false (sym x))
            | inr (_, _, x) ↦ absurd (none-some (sym x))
          ],
        )
      ])
    ])
  ]

  expected_iff : (end : XhrEvent) → (expected parse_envelope parse end ≡ waiting) ↔ IsStuck end
  unfolding IsStuck Settles
  expected_iff (progress p) = ((λ e. tt), λ h. refl)
  expected_iff (loaded status text) = load_iff status text
  expected_iff errored = (rejected-ne _ tt, λ h. absurd h)
  expected_iff aborted = (rejected-ne _ tt, λ h. absurd h)

  -- After any progress and one event more, the promise of an upload still waits exactly where that
  -- event is progress again, or where it ends the request with a status that a response cannot be
  -- rebuilt with, or with one from 200 to 299 and a body that does not read as a document.
  pub upload-IsStuck :
      (ps : List (Option (ℕ × ℕ))) (end : XhrEvent)
      → ((on_events percent parse_envelope parse waiting (progresses ps (end ∷ []))).0 ≡ waiting)
        ↔ IsStuck end
  upload-IsStuck ps end =
      let ended =
        after_progress ps (end ∷ [])
        ∙ (follow waiting _ end [] (first_event end) ∙ on_events_nil _) in
      let (to, from) = expected_iff end in (λ e. to (sym ended ∙ e), λ h. ended ∙ from h)
