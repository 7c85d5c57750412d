-- ===== src/Auth/Failures/Laws.antt =====
-- Which failures are told apart, and whose message is shown.
use scholarmatch_ai.Base.{
  refl, ap, true, or_else, some_inj, ℕ, [], ◌∷◌, Option, none, some, ◌≡◌, ◌≢◌, ◌↔◌, ◌⊎◌, arith,
}
use scholarmatch_ai.Base.Text.{Text, codes, text_eq, text_eq_iff, text_eq_sound}
use scholarmatch_ai.Auth.Failures.{
  has_status, unknown, rate_limited, weak_password, to_auth_failure, auth_api_error,
}

-- The error says that there were too many attempts.
abbrev pub IsTooMany : Option ℕ → Option Text → Type 0
IsTooMany status code =
    (status ≡ some 429)
    ⊎ ((code ≡ some (codes "over_request_rate_limit"))
        ⊎ (code ≡ some (codes "over_email_send_rate_limit")))

-- The error says that the e-mail address or the password is wrong.
abbrev pub IsWrong : Option ℕ → Option Text → Type 0
IsWrong status code = (status ≡ some 400) ⊎ (code ≡ some (codes "invalid_credentials"))

abbrev pub IsExpired : Option Text → Type 0
IsExpired code = (code ≡ some (codes "otp_expired")) ⊎ (code ≡ some (codes "flow_state_expired"))

abbrev pub IsWeak : Option Text → Type 0
IsWeak code = code ≡ some (codes "weak_password")

-- The status or the code is one that has a message of its own.
abbrev pub IsKnown : Option ℕ → Option Text → Type 0
IsKnown status code = IsTooMany status code ⊎ (IsWrong status code ⊎ (IsWeak code ⊎ IsExpired code))

status_iff : (n : ℕ) (status : Option ℕ) → (has_status n status ≡ true) ↔ (status ≡ some n)
status_iff n none = ground arith
status_iff n (some s) = ground arith

code_iff :
    (c : ℕ) (word : Text) (code : Option Text)
    → (text_eq (or_else code []) (c ∷ word) ≡ true) ↔ (code ≡ some (c ∷ word))
unfolding text_eq
code_iff c word none = ground arith
code_iff c word (some s) =
    (λ e. ap some (text_eq_sound s (c ∷ word) e), λ e. (text_eq_iff s (c ∷ word)).1 (some_inj e))

-- Each test of the code holds exactly where the status or the code is the one it compares with.
abbrev DecidesCodes : Option ℕ → Option Text → Type 0
DecidesCodes status code =
    ((has_status 429 status ≡ true) ↔ (status ≡ some 429))
    × ((has_status 400 status ≡ true) ↔ (status ≡ some 400))
    × ((text_eq (or_else code []) (codes "over_request_rate_limit") ≡ true)
        ↔ (code ≡ some (codes "over_request_rate_limit")))
    × ((text_eq (or_else code []) (codes "over_email_send_rate_limit") ≡ true)
        ↔ (code ≡ some (codes "over_email_send_rate_limit")))
    × ((text_eq (or_else code []) (codes "invalid_credentials") ≡ true)
        ↔ (code ≡ some (codes "invalid_credentials")))
    × ((text_eq (or_else code []) (codes "weak_password") ≡ true)
        ↔ (code ≡ some (codes "weak_password")))
    × ((text_eq (or_else code []) (codes "otp_expired") ≡ true)
        ↔ (code ≡ some (codes "otp_expired")))
    × ((text_eq (or_else code []) (codes "flow_state_expired") ≡ true)
        ↔ (code ≡ some (codes "flow_state_expired")))

code-DecidesCodes : (status : Option ℕ) (code : Option Text) → DecidesCodes status code
code-DecidesCodes status code = (
  status_iff 429 status,
  status_iff 400 status,
  code_iff _ _ code,
  code_iff _ _ code,
  code_iff _ _ code,
  code_iff _ _ code,
  code_iff _ _ code,
  code_iff _ _ code,
)

weak_kind :
    (status : Option ℕ) (m : Text)
    → status ≢ some 429
    → status ≢ some 400
    → (to_auth_failure (auth_api_error status (some (codes "weak_password")) m)).kind
      ≡ weak_password
unfolding to_auth_failure text_eq
weak_kind none m many wrong = refl
weak_kind (some s) m many wrong = ground arith

-- An error of the API is classed as unknown, and shown with the message of Supabase as it is, exactly
-- where neither its status is 429 or 400 nor its code one of the seven that are told apart. It is
-- rate-limited exactly with the status 429 or one of two codes, and a weak password exactly with that
-- code and neither of the two statuses. What is known is answered without regard to the message.
pub to_auth_failure-IsKnown :
    (status : Option ℕ) (code : Option Text) (m m' : Text)
    → let failure = to_auth_failure (auth_api_error status code m) in
      ((failure.kind ≡ unknown) ↔ (¬ IsKnown status code))
      × ((failure.kind ≡ rate_limited) ↔ IsTooMany status code)
      × ((failure.kind ≡ weak_password) ↔ (IsWeak code × (status ≢ some 429) × (status ≢ some 400)))
      × ((¬ IsKnown status code) → failure.message ≡ m)
      × (IsKnown status code → failure ≡ to_auth_failure (auth_api_error status code m'))
unfolding to_auth_failure
to_auth_failure-IsKnown status code m m' =
    let (a, b, c, d, e, f, g, h) = code-DecidesCodes status code in
    (
      ground arith,
      ground arith,
      (λ weak. ground arith, λ (weak, many, wrong). rw weak (weak_kind status m many wrong)),
      ground arith,
      ground arith,
    )
