-- ===== src/Applications/Requests.antt =====
-- The operation ids of a card's requests tell the requests apart.
use scholarmatch_ai.Base.{
  Bool, true, false, [], ◌∷◌, ◌++◌, ℕ, ◌≡◌, ◌≢◌, refl, sym, ap, ◌∙◌, arith, All, All-middle,
  if◌then◌else◌,
}
use mathlib.Core.Path.{ap₂, subst}
use mathlib.Core.List.{
  append_cancel_left, append_cancel_right, append_assoc, head-eq_of_cons-eq, tail-eq_of_cons-eq,
}
use scholarmatch_ai.Base.Text.{Text, codes, text_eq}
use scholarmatch_ai.Applications.{
  ApplicationStatus, saved, preparing, ready, submitted, interview, awarded, unsuccessful,
  withdrawn, status_word, ApplicationRequest, set_status, check_item, save_notes, set_reminder,
  delete_reminder, operation_id, bool_text,
}

-- What `toISOString` makes: a text that ends with its only `Z`.
unfoldable pub IsIsoText : Text → Type 0
IsIsoText iso = (time : Text) × (iso ≡ time ++ (b'Z' ∷ [])) × All (λ c. c ≢ b'Z') time

-- A request whose reminder is at such a time.
unfoldable pub IsTimed : ApplicationRequest → Type 0
IsTimed (set_reminder remind_at timezone) = IsIsoText remind_at
IsTimed (set_status status) = Unit {0}
IsTimed (check_item id completed) = Unit {0}
IsTimed (save_notes notes) = Unit {0}
IsTimed delete_reminder = Unit {0}

status_of : Text → ApplicationStatus
unfolding text_eq status_word
status_of word =
    if text_eq word (status_word saved)
    then saved
    else if text_eq word (status_word preparing)
    then preparing
    else if text_eq word (status_word ready)
    then ready
    else if text_eq word (status_word submitted)
    then submitted
    else if text_eq word (status_word interview)
    then interview
    else if text_eq word (status_word awarded)
    then awarded
    else if text_eq word (status_word unsuccessful)
    then unsuccessful
    else withdrawn

status_of-status_word : (s : ApplicationStatus) → status_of (status_word s) ≡ s
unfolding status_of status_word text_eq
status_of-status_word saved = refl
status_of-status_word preparing = refl
status_of-status_word ready = refl
status_of-status_word submitted = refl
status_of-status_word interview = refl
status_of-status_word awarded = refl
status_of-status_word unsuccessful = refl
status_of-status_word withdrawn = refl

pub status_word_inj : (s t : ApplicationStatus) → status_word s ≡ status_word t → s ≡ t
status_word_inj s t e = sym (status_of-status_word s) ∙ (ap status_of e ∙ status_of-status_word t)

second_last : Text → ℕ
second_last [] = 0
second_last (c ∷ []) = 0
second_last (c ∷ d ∷ []) = c
second_last (c ∷ d ∷ e ∷ s) = second_last (d ∷ e ∷ s)

second_last-append : (s : Text) (c d : ℕ) → second_last (s ++ (c ∷ d ∷ [])) ≡ c
unfolding second_last
second_last-append [] c d = refl
second_last-append (x ∷ []) c d = refl
second_last-append (x ∷ y ∷ []) c d = refl
second_last-append (x ∷ y ∷ z ∷ s) c d = second_last-append (y ∷ z ∷ s) c d

u_s : ◌≡◌ {A = ℕ} b'u' b's' → ⊥
u_s e = absurd (omega arith)

last_true : (id : Text) → second_last (id ++ (codes "-" ++ codes "true")) ≡ b'u'
last_true id =
    ap second_last (sym (append_assoc id (codes "-tr") (codes "ue")))
    ∙ second_last-append (id ++ codes "-tr") b'u' b'e'

last_false : (id : Text) → second_last (id ++ (codes "-" ++ codes "false")) ≡ b's'
last_false id =
    ap second_last (sym (append_assoc id (codes "-fal") (codes "se")))
    ∙ second_last-append (id ++ codes "-fal") b's' b'e'

check_inj :
    (id id' : Text) (b b' : Bool)
    → id ++ (codes "-" ++ bool_text b) ≡ id' ++ (codes "-" ++ bool_text b')
    → check_item id b ≡ check_item id' b'
unfolding bool_text second_last
check_inj id id' true true e = ap (λ x. check_item x true) (append_cancel_right id id' _ e)
check_inj id id' false false e = ap (λ x. check_item x false) (append_cancel_right id id' _ e)
check_inj id id' true false e =
    absurd (u_s (sym (last_true id) ∙ (ap second_last e ∙ last_false id')))
check_inj id id' false true e =
    absurd (u_s (sym (last_true id') ∙ (ap second_last (sym e) ∙ last_false id)))

-- Two texts that go on after their first `Z`.
split_z :
    (s t u v : Text)
    → All (λ c. c ≢ b'Z') s
    → All (λ c. c ≢ b'Z') t
    → s ++ (b'Z' ∷ u) ≡ t ++ (b'Z' ∷ v)
    → (s ≡ t) × (u ≡ v)
split_z [] [] u v hs ht e = (refl, tail-eq_of_cons-eq e)
split_z [] (c ∷ t) u v hs ht e = absurd (ht.0 (sym (head-eq_of_cons-eq e)))
split_z (c ∷ s) [] u v hs ht e = absurd (hs.0 (head-eq_of_cons-eq e))
split_z (c ∷ s) (d ∷ t) u v hs ht e =
    let (p, q) = split_z s t u v hs.1 ht.1 (tail-eq_of_cons-eq e) in
    (ap₂ (λ x y. x ∷ y) (head-eq_of_cons-eq e) p, q)

iso_append :
    {iso : Text} (time zone : Text)
    → iso ≡ time ++ (b'Z' ∷ [])
    → iso ++ (codes "-" ++ zone) ≡ time ++ (b'Z' ∷ codes "-" ++ zone)
iso_append time zone e =
    ap (λ x. x ++ (codes "-" ++ zone)) e ∙ append_assoc time (b'Z' ∷ []) (codes "-" ++ zone)

reminder_inj :
    (iso iso' zone zone' : Text)
    → IsIsoText iso
    → IsIsoText iso'
    → iso ++ (codes "-" ++ zone) ≡ iso' ++ (codes "-" ++ zone')
    → set_reminder iso zone ≡ set_reminder iso' zone'
unfolding IsIsoText
reminder_inj iso iso' zone zone' (s, es, hs) (t, et, ht) e =
    let joined = sym (iso_append s zone es) ∙ (e ∙ iso_append t zone' et) in
    let (p, q) = split_z s t _ _ hs ht joined in
    ap₂ set_reminder (es ∙ (ap (λ x. x ++ (b'Z' ∷ [])) p ∙ sym et)) (tail-eq_of_cons-eq q)

-- `delete` holds no `Z`, as every time does.
delete_ne : (iso zone : Text) → IsIsoText iso → codes "delete" ≡ iso ++ (codes "-" ++ zone) → ⊥
unfolding IsIsoText
delete_ne iso zone (time, e, h) same =
    All-middle (λ c. c ≢ b'Z') time _
      (subst (All (λ c. c ≢ b'Z')) (same ∙ iso_append time zone e) plain) refl
  where
    plain : All (λ c. c ≢ b'Z') (codes "delete")
    plain = (
      (λ e. absurd (omega arith)),
      (
        (λ e. absurd (omega arith)),
        (
          (λ e. absurd (omega arith)),
          (
            (λ e. absurd (omega arith)),
            ((λ e. absurd (omega arith)), ((λ e. absurd (omega arith)), tt)),
          ),
        ),
      ),
    )

heads : {c d : ℕ} {s t : Text} → c ≢ d → c ∷ s ≡ d ∷ t → ⊥
heads h e = h (head-eq_of_cons-eq e)

-- Two requests with one operation id are one request, where every reminder is at a time that
-- `toISOString` makes.
pub operation_id_inj :
    (r r' : ApplicationRequest) → IsTimed r → IsTimed r' → operation_id r ≡ operation_id r' → r ≡ r'
unfolding operation_id IsTimed
operation_id_inj (set_status st) (set_status st') h h' e =
    ap set_status (status_word_inj st st' (append_cancel_left (codes "status-") _ _ e))
operation_id_inj (set_status st) (check_item id' b') h h' e =
    absurd (heads (λ x. absurd (omega arith)) e)
operation_id_inj (set_status st) (save_notes text') h h' e =
    absurd (heads (λ x. absurd (omega arith)) e)
operation_id_inj (set_status st) (set_reminder iso' zone') h h' e =
    absurd (heads (λ x. absurd (omega arith)) e)
operation_id_inj (set_status st) delete_reminder h h' e =
    absurd (heads (λ x. absurd (omega arith)) e)
operation_id_inj (check_item id b) (set_status st') h h' e =
    absurd (heads (λ x. absurd (omega arith)) e)
operation_id_inj (check_item id b) (check_item id' b') h h' e =
    check_inj id id' b b' (append_cancel_left (codes "check-") _ _ e)
operation_id_inj (check_item id b) (save_notes text') h h' e =
    absurd (heads (λ x. absurd (omega arith)) e)
operation_id_inj (check_item id b) (set_reminder iso' zone') h h' e =
    absurd (heads (λ x. absurd (omega arith)) e)
operation_id_inj (check_item id b) delete_reminder h h' e =
    absurd (heads (λ x. absurd (omega arith)) e)
operation_id_inj (save_notes text) (set_status st') h h' e =
    absurd (heads (λ x. absurd (omega arith)) e)
operation_id_inj (save_notes text) (check_item id' b') h h' e =
    absurd (heads (λ x. absurd (omega arith)) e)
operation_id_inj (save_notes text) (save_notes text') h h' e =
    ap save_notes (append_cancel_left (codes "notes-") _ _ e)
operation_id_inj (save_notes text) (set_reminder iso' zone') h h' e =
    absurd (heads (λ x. absurd (omega arith)) e)
operation_id_inj (save_notes text) delete_reminder h h' e =
    absurd (heads (λ x. absurd (omega arith)) e)
operation_id_inj (set_reminder iso zone) (set_status st') h h' e =
    absurd (heads (λ x. absurd (omega arith)) e)
operation_id_inj (set_reminder iso zone) (check_item id' b') h h' e =
    absurd (heads (λ x. absurd (omega arith)) e)
operation_id_inj (set_reminder iso zone) (save_notes text') h h' e =
    absurd (heads (λ x. absurd (omega arith)) e)
operation_id_inj (set_reminder iso zone) (set_reminder iso' zone') h h' e =
    reminder_inj iso iso' zone zone' h h' (append_cancel_left (codes "reminder-") _ _ e)
operation_id_inj (set_reminder iso zone) delete_reminder h h' e =
    absurd (delete_ne iso zone h (append_cancel_left (codes "reminder-") _ _ (sym e)))
operation_id_inj delete_reminder (set_status st') h h' e =
    absurd (heads (λ x. absurd (omega arith)) e)
operation_id_inj delete_reminder (check_item id' b') h h' e =
    absurd (heads (λ x. absurd (omega arith)) e)
operation_id_inj delete_reminder (save_notes text') h h' e =
    absurd (heads (λ x. absurd (omega arith)) e)
operation_id_inj delete_reminder (set_reminder iso' zone') h h' e =
    absurd (delete_ne iso' zone' h' (append_cancel_left (codes "reminder-") _ _ e))
operation_id_inj delete_reminder delete_reminder h h' e = refl
