-- ===== src/Mutations/Runs.antt =====
-- What an idempotency key stands for along every run of a runner.
use scholarmatch_ai.Base.{
  none-some, List, [], ◌∷◌, Option, none, some, or_else, ◌≡◌, ◌≢◌, refl, sym, ap, ◌∙◌, inl, inr, In,
  here, there, Bool-cases, Option-cases, some_inj, All, All-In,
}
use mathlib.Core.Path.{subst}
use scholarmatch_ai.Base.Text.{Text}
use scholarmatch_ai.Mutations.{
  TextMap, get, put, remove, Runner, idle_runner, is_pending, key_for, begin, succeed, fail,
}
use scholarmatch_ai.Mutations.Keys.{
  text_cases, get-put_self, get-put_other, get-remove_self, get-remove_other,
}

-- What happens to a runner: a request is wanted, or one settles.
pub data Happening (Request : Type 0) : Type 0 where
  press : Request → Text → Text → Happening Request
  succeeded : Request → Happening Request
  failed : Request → Text → Happening Request

module _ {Request : Type 0} (operation_of : Request → Text) where
  unfoldable pub react : Runner → Happening Request → Runner × Option Text
  unfolding begin succeed fail
  react r (press request label fresh) = begin fresh (operation_of request) label r
  react r (succeeded request) = (succeed (operation_of request) r, none)
  react r (failed request message) = (fail message r, none)

  -- The requests that were sent, with their keys, the last one first.
  abbrev pub sent : Happening Request → Option Text → List (Request × Text) → List (Request × Text)
  sent (press request label fresh) (some key) log = (request, key) ∷ log
  sent _ _ log = log

  -- A key that is made is none of those that were sent.
  abbrev pub IsFresh : Happening Request → List (Request × Text) → Type 0
  IsFresh (press request label fresh) log = All (λ entry. entry.1 ≢ fresh) log
  IsFresh _ log = Unit {0}

  -- A run, by its last event, with what it sent.
  pub data Reached : Runner → List (Request × Text) → Type 0 where
    start : Reached idle_runner []
    next :
        {r : Runner} {log : List (Request × Text)}
        → Reached r log
        → (e : Happening Request) → IsFresh e log
        → Reached (react r e).0 (sent e (react r e).1 log)

  -- Every kept key was sent for its operation, and every key for one operation only.
  pub record KeysAgree (keys : TextMap) (log : List (Request × Text)) : Type 0 where
    pub kept :
        (operation key : Text)
        → get operation keys ≡ some key
        → (request : Request) × In (request, key) log × (operation_of request ≡ operation)
    pub single :
        (request other : Request) (key : Text)
        → In (request, key) log
        → In (other, key) log
        → operation_of request ≡ operation_of other

  -- The key of a request that is sent next stands for its operation, if it stands for one at all.
  IsOwn : Request → Text → List (Request × Text) → Type 0
  IsOwn request key log =
      (other : Request) → In (other, key) log → operation_of other ≡ operation_of request

  put-KeysAgree :
      (keys : TextMap) (log : List (Request × Text)) (request : Request) (key : Text)
      → KeysAgree keys log
      → IsOwn request key log
      → KeysAgree (put (operation_of request) key keys) ((request, key) ∷ log)
  unfolding IsOwn
  put-KeysAgree keys log request key h own = record {
    kept = λ operation k e. elim (text_cases operation (operation_of request)) [
      | inl same ↦
          let self =
            ap (λ o. get o (put (operation_of request) key keys)) same
            ∙ get-put_self (operation_of request) key keys in
          (request, here (ap (λ x. (request, x)) (some_inj (sym e ∙ self))), sym same)
      | inr differs ↦
          let (other, m, o) =
            h.kept operation k
              (sym (get-put_other (operation_of request) operation key keys differs) ∙ e) in
          (other, there m, o)
    ];
    single = λ a b k. single_step a b k;
  }
    where
      single_step :
          (a b : Request) (k : Text)
          → In (a, k) ((request, key) ∷ log)
          → In (b, k) ((request, key) ∷ log)
          → operation_of a ≡ operation_of b
      single_step a b k (here e) (here f) =
          ap operation_of (ap (λ x. x.0) e ∙ sym (ap (λ x. x.0) f))
      single_step a b k (here e) (there n) =
          ap operation_of (ap (λ x. x.0) e)
          ∙ sym (own b (subst (λ x. In (b, x) log) (ap (λ x. x.1) e) n))
      single_step a b k (there m) (here f) =
          own a (subst (λ x. In (a, x) log) (ap (λ x. x.1) f) m)
          ∙ sym (ap operation_of (ap (λ x. x.0) f))
      single_step a b k (there m) (there n) = h.single a b k m n

  key_for-IsOwn :
      (r : Runner) (log : List (Request × Text)) (request : Request) (fresh : Text)
      → KeysAgree r.retry_keys log
      → All (λ entry. entry.1 ≢ fresh) log
      → IsOwn request (key_for fresh (operation_of request) r) log
  unfolding IsOwn
  key_for-IsOwn r log request fresh h new other m =
      elim (Option-cases (get (operation_of request) r.retry_keys)) [
        | inl e ↦
            let m' = subst (λ o. In (other, or_else o fresh) log) e m in
            absurd (All-In _ log new m' refl)
        | inr (key, e) ↦
            let m' = subst (λ o. In (other, or_else o fresh) log) e m in
            let (sender, n, o) = h.kept (operation_of request) key e in
            h.single other sender key m' n ∙ o
      ]

  remove-KeysAgree :
      (keys : TextMap) (log : List (Request × Text)) (gone : Text)
      → KeysAgree keys log
      → KeysAgree (remove gone keys) log
  remove-KeysAgree keys log gone h = record {
    kept = λ operation key e. elim (text_cases operation gone) [
      | inl same ↦ absurd (
          none-some
            (sym (get-remove_self gone keys) ∙ (sym (ap (λ o. get o (remove gone keys)) same) ∙ e)))
      | inr differs ↦ h.kept operation key (sym (get-remove_other gone operation keys differs) ∙ e)
    ];
    single = h.single;
  }

  step-KeysAgree :
      (r : Runner) (log : List (Request × Text)) (e : Happening Request)
      → KeysAgree r.retry_keys log
      → IsFresh e log
      → KeysAgree (react r e).0.retry_keys (sent e (react r e).1 log)
  unfolding react begin succeed fail
  step-KeysAgree r log (press request label fresh) h new = elim (Bool-cases (is_pending r)) [
    | inl busy ↦ rw busy h
    | inr idle ↦
        rw idle
          (put-KeysAgree r.retry_keys log request _ h (key_for-IsOwn r log request fresh h new))
  ]
  step-KeysAgree r log (succeeded request) h new =
      remove-KeysAgree r.retry_keys log (operation_of request) h
  step-KeysAgree r log (failed request message) h new = h

  Reached-KeysAgree :
      {r : Runner} {log : List (Request × Text)} → Reached r log → KeysAgree r.retry_keys log
  unfolding get
  Reached-KeysAgree start = record {
    kept = λ operation key e. absurd (none-some e);
    single = λ a b key m n. elim m [ ];
  }
  Reached-KeysAgree (next h e new) = step-KeysAgree _ _ e (Reached-KeysAgree h) new

  -- On every run of the runner, with fresh keys made, two requests that were sent with one
  -- idempotency key have one operation id.
  pub key-operation :
      {r : Runner} {log : List (Request × Text)}
      → Reached r log
      → (request other : Request) (key : Text) → In (request, key) log
      → In (other, key) log
      → operation_of request ≡ operation_of other
  key-operation h request other key m n = (Reached-KeysAgree h).single request other key m n
