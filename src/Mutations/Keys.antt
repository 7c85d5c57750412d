-- ===== src/Mutations/Keys.antt =====
-- The map of kept keys: what is found after a key is put or removed, and what a retry sends.
use scholarmatch_ai.Base.{
  true-false, false, [], ◌∷◌, none, some, ◌≡◌, ◌≢◌, refl, sym, ap, ◌∙◌, ◌⊎◌, inl, inr, arith,
  Bool-cases,
}
use scholarmatch_ai.Base.Text.{Text, text_eq, text_eq_sound, text_eq_refl}
use scholarmatch_ai.Mutations.{
  TextMap, get, put, remove, Runner, is_pending, key_for, begin, succeed, fail,
}

text_ne : (s t : Text) → s ≢ t → text_eq s t ≡ false
text_ne s t h = elim (Bool-cases (text_eq s t)) [
  | inl same ↦ absurd (h (text_eq_sound s t same))
  | inr differs ↦ differs
]

pub text_cases : (s t : Text) → (s ≡ t) ⊎ (s ≢ t)
text_cases s t = elim (Bool-cases (text_eq s t)) [
  | inl same ↦ inl (text_eq_sound s t same)
  | inr differs ↦
      inr (λ e. true-false (sym (text_eq_refl t) ∙ (sym (ap (λ x. text_eq x t) e) ∙ differs)))
]

pub get-put_self : (key value : Text) (map : TextMap) → get key (put key value map) ≡ some value
unfolding get put
get-put_self key value [] = rw (text_eq_refl key) refl
get-put_self key value ((k, v) ∷ map) = elim (Bool-cases (text_eq k key)) [
  | inl same ↦ rw same (rw same refl)
  | inr differs ↦ rw differs (rw differs (get-put_self key value map))
]

pub get-put_other :
    (key other value : Text) (map : TextMap)
    → other ≢ key
    → get other (put key value map) ≡ get other map
unfolding get put
get-put_other key other value [] h = rw (text_ne key other (λ e. h (sym e))) refl
get-put_other key other value ((k, v) ∷ map) h = elim (Bool-cases (text_eq k key)) [
  | inl same ↦
      let differs = text_ne k other (λ e. h (sym e ∙ text_eq_sound k key same)) in
      rw same (rw differs refl)
  | inr differs ↦ rw differs (ground (arith, get-put_other key other value map h))
]

pub get-remove_other :
    (key other : Text) (map : TextMap) → other ≢ key → get other (remove key map) ≡ get other map
unfolding get remove
get-remove_other key other [] h = refl
get-remove_other key other ((k, v) ∷ map) h = elim (Bool-cases (text_eq k key)) [
  | inl same ↦
      let differs = text_ne k other (λ e. h (sym e ∙ text_eq_sound k key same)) in
      rw (same, differs) (get-remove_other key other map h)
  | inr differs ↦ rw differs (ground (arith, get-remove_other key other map h))
]

pub get-remove_self : (key : Text) (map : TextMap) → get key (remove key map) ≡ none
unfolding get remove
get-remove_self key [] = refl
get-remove_self key ((k, v) ∷ map) = elim (Bool-cases (text_eq k key)) [
  | inl same ↦ rw same (get-remove_self key map)
  | inr differs ↦ rw differs (rw differs (get-remove_self key map))
]

-- A request that is sent while its operation's last try has failed carries the same key again,
-- whatever key is made, and every other operation keeps its own: `begin` and `fail` leave the keys
-- of the others alone.
pub begin-fail_key :
    (r : Runner) (operation label message fresh fresh' label' other : Text)
    → is_pending r ≡ false
    → other ≢ operation
    → let failed = fail message (begin fresh operation label r).0 in
      ((begin fresh' operation label' failed).1 ≡ (begin fresh operation label r).1)
      × (get other (begin fresh' operation label' failed).0.retry_keys ≡ get other r.retry_keys)
unfolding begin fail
begin-fail_key r operation label message fresh fresh' label' other idle differs =
    rw (idle, get-put_self operation (key_for fresh operation r) r.retry_keys)
      (
        refl,
        get-put_other operation other _ _ differs
            ∙ get-put_other operation other _ r.retry_keys differs,
      )

-- Once the operation has succeeded, the next request for it carries the key that is made for it.
pub begin-succeed_key :
    (r : Runner) (operation label fresh fresh' label' : Text)
    → (begin fresh' operation label' (succeed operation (begin fresh operation label r).0)).1
      ≡ some fresh'
unfolding begin succeed
begin-succeed_key r operation label fresh fresh' label' =
    rw (get-remove_self operation (begin fresh operation label r).0.retry_keys) refl
