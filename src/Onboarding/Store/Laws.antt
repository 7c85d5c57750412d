-- ===== src/Onboarding/Store/Laws.antt =====
-- Which progress a student resumes with.
use scholarmatch_ai.Base.{
  true, false, [], ◌∷◌, ◌&&◌, Option, none, some, ◌≡◌, ◌≢◌, refl, sym, ap, ◌∙◌, arith, Bool-cases,
  Option-cases, inl, inr, ◌⊎◌, some_inj,
}
use scholarmatch_ai.Base.Text.{Text}
use scholarmatch_ai.Onboarding.Store.{
  OnboardingProgress, Value, versioned, progress_of, text_ge, updated_ge, Places, Storage, Read,
  reached, signed_out, unreachable, Update, applied, refused, lost, newer, candidate,
  settled_remote, read_local, write_local, load, save, parsed,
}

text_ge_refl : (s : Text) → text_ge s s ≡ true
unfolding text_ge
text_ge_refl [] = refl
text_ge_refl (c ∷ s) = ground (arith, text_ge_refl s)

text_ge_total : (s t : Text) → text_ge s t ≡ false → text_ge t s ≡ true
unfolding text_ge
text_ge_total s [] h = cc
text_ge_total [] (d ∷ t) h = refl
text_ge_total (c ∷ s) (d ∷ t) h = ground (arith, text_ge_total s t)

-- One progress is as recent as the other; a stored value that has no time is not compared.
abbrev pub IsRecent : OnboardingProgress → OnboardingProgress → Type 0
IsRecent p q = (updated_ge p q ≡ true) ⊎ ((p.updated_at ≡ none) ⊎ (q.updated_at ≡ none))

updated_ge_refl : (p : OnboardingProgress) → IsRecent p p
unfolding updated_ge
updated_ge_refl p = elim (Option-cases p.updated_at) [
  | inl absent ↦ inr (inl absent)
  | inr (s, present) ↦ inl (rw (present, text_ge_refl s) refl)
]

updated_ge_total : (p q : OnboardingProgress) → updated_ge p q ≡ false → IsRecent q p
unfolding updated_ge
updated_ge_total p q h = elim (Option-cases p.updated_at) [
  | inl absent ↦ inr (inr absent)
  | inr (s, e) ↦ elim (Option-cases q.updated_at) [
    | inl absent ↦ inr (inl absent)
    | inr (t, f) ↦ inl (rw (e, f) (text_ge_total s t (ground (arith, h, e, f))))
  ]
]

-- The copy that is chosen, where one of the two is there.
newer_lem :
    (r l : Option OnboardingProgress) (p : OnboardingProgress)
    → (r ≡ some p) ⊎ (l ≡ some p)
    → (q : OnboardingProgress) × (newer r l ≡ some q) × ((r ≡ some q) ⊎ (l ≡ some q)) × IsRecent q p
unfolding newer
newer_lem none none p h = absurd (ground arith)
newer_lem none (some l) p (inl e) = absurd (cc)
newer_lem none (some l) p (inr e) = (l, refl, inr refl, rw (some_inj e) (updated_ge_refl p))
newer_lem (some r) none p (inl e) = (r, refl, inl refl, rw (some_inj e) (updated_ge_refl p))
newer_lem (some r) none p (inr e) = absurd (cc)
newer_lem (some r) (some l) p h = elim (Bool-cases (updated_ge r l)) [
  | inl later ↦ rw later (r, refl, inl refl, from_remote later h)
  | inr earlier ↦ rw earlier (l, refl, inr refl, from_local earlier h)
]
  where
    from_remote : updated_ge r l ≡ true → (some r ≡ some p) ⊎ (some l ≡ some p) → IsRecent r p
    from_remote later (inl e) = rw (some_inj e) (updated_ge_refl p)
    from_remote later (inr e) = inl (ap (updated_ge r) (sym (some_inj e)) ∙ later)

    from_local : updated_ge r l ≡ false → (some r ≡ some p) ⊎ (some l ≡ some p) → IsRecent l p
    from_local earlier (inr e) = rw (some_inj e) (updated_ge_refl p)
    from_local earlier (inl e) = rw (← some_inj e) (updated_ge_total r l earlier)

-- The codec reads back what it wrote.
abbrev pub ReadsBack :
    (Text → Option Value) → (OnboardingProgress → Text) → OnboardingProgress → Type 0
ReadsBack parse stringify p = parsed parse (some (stringify p)) ≡ some (versioned p)

progress_of_own :
    (p : OnboardingProgress) → p.version ≡ 1 → progress_of (some (versioned p)) ≡ some p
unfolding progress_of
progress_of_own p version = rw version refl

no_progress : (q : OnboardingProgress) → progress_of none ≢ some q
unfolding progress_of
no_progress q e = cc

-- What a load reads from the metadata after a save: the saved progress, or what was there.
remote_origin :
    (p : OnboardingProgress) (sent : Option Value)
    → sent ≡ some (versioned p)
    → p.version ≡ 1
    → (update : Update) (read : Read) (old : Option Value) {q : OnboardingProgress}
    → progress_of (candidate read (settled_remote update sent old)) ≡ some q
    → (q ≡ p) ⊎ (progress_of old ≡ some q)
remote_origin p sent back version applied reached old e =
    inl (some_inj (sym e ∙ (ap progress_of back ∙ progress_of_own p version)))
remote_origin p sent back version (lost true) reached old e =
    inl (some_inj (sym e ∙ (ap progress_of back ∙ progress_of_own p version)))
remote_origin p sent back version refused reached old e = inr e
remote_origin p sent back version (lost false) reached old e = inr e
remote_origin p sent back version update signed_out old e = absurd (no_progress _ e)
remote_origin p sent back version update unreachable old e = absurd (no_progress _ e)

module _ (parse : Text → Option Value) (stringify : OnboardingProgress → Text) where
  -- With a copy of the progress at either place, `load` finds one: a copy of one of the two places,
  -- and as recent as any of them, where both have a time.
  pub load-IsRecent :
      (storage : Storage) (read : Read) (places : Places) (p : OnboardingProgress)
      → (progress_of (candidate read places.remote) ≡ some p)
        ⊎ (read_local parse storage places.local ≡ some p)
      → (q : OnboardingProgress) × (load parse storage read places ≡ some q)
        × ((progress_of (candidate read places.remote) ≡ some q)
            ⊎ (read_local parse storage places.local ≡ some q))
        × IsRecent q p
  unfolding load
  load-IsRecent storage read places p h = newer_lem _ _ p h

  read_write :
      (storage : Storage) (p : OnboardingProgress) (slot : Option Text)
      → storage.has_window && storage.works ≡ true
      → p.version ≡ 1
      → ReadsBack parse stringify p
      → read_local parse storage (write_local stringify storage p slot) ≡ some p
  unfolding read_local write_local
  read_write storage p slot usable version back = rw (usable, back, version) refl

  -- After a save of progress of the current version, in a browser whose storage works, the next load
  -- on the device finds the progress, whether or not the server was or is reached: that progress, or
  -- a copy that was in the metadata before and is as recent, where both have a time. The codec must
  -- read back the text that it wrote.
  pub load-save :
      (storage : Storage) (update : Update) (read : Read) (places : Places) (p : OnboardingProgress)
      → storage.has_window && storage.works ≡ true
      → p.version ≡ 1
      → ReadsBack parse stringify p
      → (q : OnboardingProgress) × (load parse storage read
            (save parse stringify storage update p places).0
          ≡ some q)
        × ((q ≡ p) ⊎ (progress_of places.remote ≡ some q))
        × IsRecent q p
  unfolding save
  load-save storage update read places p usable version back =
      let here_read = read_write storage p places.local usable version back in
      let (q, loaded, origin, recent) =
        load-IsRecent storage read (save parse stringify storage update p places).0 p
          (inr here_read) in
      (q, loaded, origin_of origin here_read, recent)
    where
      origin_of :
          {q : OnboardingProgress}
          → (progress_of (
                candidate read
                  (settled_remote update (parsed parse (some (stringify p))) places.remote))
              ≡ some q)
            ⊎ (read_local parse storage (write_local stringify storage p places.local) ≡ some q)
          → read_local parse storage (write_local stringify storage p places.local) ≡ some p
          → (q ≡ p) ⊎ (progress_of places.remote ≡ some q)
      origin_of (inr e) own = inl (some_inj (sym e ∙ own))
      origin_of (inl e) own = remote_origin p _ back version update read places.remote e

  -- After a save of progress of the current version that the server applied, every device that
  -- reaches the server loads that progress, or its own copy where that is as recent or one of the
  -- two has no time. The codec must read back the text that it wrote, as JSON does where no number
  -- of the progress is a `NaN`.
  pub save-load_elsewhere :
      (storage elsewhere : Storage) (places : Places) (p : OnboardingProgress) (slot : Option Text)
      → p.version ≡ 1
      → ReadsBack parse stringify p
      → let saved = (save parse stringify storage applied p places).0 in
        (q : OnboardingProgress) × (load parse elsewhere reached (record saved { local = slot })
          ≡ some q)
        × ((q ≡ p) ⊎ (read_local parse elsewhere slot ≡ some q))
        × IsRecent q p
  unfolding save
  save-load_elsewhere storage elsewhere places p slot version back =
      let own = ap progress_of back ∙ progress_of_own p version in
      let (q, loaded, origin, recent) =
        load-IsRecent elsewhere reached
          (record (save parse stringify storage applied p places).0 { local = slot }) p (inl own) in
      (q, loaded, origin_of origin own, recent)
    where
      origin_of :
          {q : OnboardingProgress}
          → (progress_of (parsed parse (some (stringify p))) ≡ some q)
            ⊎ (read_local parse elsewhere slot ≡ some q)
          → progress_of (parsed parse (some (stringify p))) ≡ some p
          → (q ≡ p) ⊎ (read_local parse elsewhere slot ≡ some q)
      origin_of (inl e) own = inl (some_inj (sym e ∙ own))
      origin_of (inr e) own = inr e
