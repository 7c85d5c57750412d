-- ===== src/Auth/ServerSession/Laws.antt =====
-- Who passes the guards of the private pages, and where the others go.
use scholarmatch_ai.Base.{
  Bool, true, Option, none, some, ◌≡◌, refl, sym, ap, ◌∙◌, ◌↔◌, arith, Bool-cases, inl, inr, ◌⊎◌,
  some_inj,
}
use mathlib.Core.Path.{subst}
use scholarmatch_ai.Base.Text.{Text, codes, text_eq, text_eq_sound, text_eq_refl}
use scholarmatch_ai.Routing.SafeRedirect.{build_sign_in_url}
use scholarmatch_ai.Routing.SafeRedirect.Laws.{IsSafePath, build_sign_in_url-IsSafePath, tame_path}
use scholarmatch_ai.Auth.Access.{
  Role, absent, named, other, can_access_student_workspace, can_access_admin_workspace,
}
use scholarmatch_ai.Auth.ServerSession.{
  AuthenticatedSession, granted, redirected, require_authenticated_session, require_role,
  require_student_session, require_admin_session,
}

-- A role opens the student pages where it is absent or "student", the admin pages where it is
-- "admin".
abbrev pub IsStudent : Role → Type 0
IsStudent role = (role ≡ absent) ⊎ (role ≡ named (codes "student"))

abbrev pub IsAdmin : Role → Type 0
IsAdmin role = role ≡ named (codes "admin")

named_eq : (r s : Text) → named r ≡ named s → text_eq r s ≡ true
named_eq r s e = ap (text_eq r) (sym (named_inj e)) ∙ text_eq_refl r
  where
    named_inj : {r s : Text} → named r ≡ named s → r ≡ s
    named_inj {r} e = cc

IsStudent-iff : (role : Role) → (can_access_student_workspace role ≡ true) ↔ IsStudent role
unfolding can_access_student_workspace
IsStudent-iff absent = (λ e. inl refl, λ s. refl)
IsStudent-iff other = (λ e. absurd (cc), λ s. absurd (ground arith))
IsStudent-iff (named role) = elim (Bool-cases (text_eq role (codes "student"))) [
  | inl same ↦
      (λ e. inr (ap named (text_eq_sound role (codes "student") same)), λ s. ground (arith, same))
  | inr differs ↦ (
    λ e. absurd (ground (arith, differs, e)),
    λ s. elim s [
      | inl e ↦ absurd (cc)
      | inr e ↦ absurd (let same = named_eq role (codes "student") e in cc)
    ],
  )
]

IsAdmin-iff : (role : Role) → (can_access_admin_workspace role ≡ true) ↔ IsAdmin role
unfolding can_access_admin_workspace
IsAdmin-iff absent = (λ e. absurd (cc), λ s. absurd (cc))
IsAdmin-iff other = (λ e. absurd (cc), λ s. absurd (cc))
IsAdmin-iff (named role) = elim (Bool-cases (text_eq role (codes "admin"))) [
  | inl same ↦ (λ e. ap named (text_eq_sound role (codes "admin") same), λ s. rw s refl)
  | inr differs ↦ (
    λ e. absurd (ground (arith, differs, e)),
    λ s. absurd (let same = named_eq role (codes "admin") s in cc),
  )
]

role_iff :
    (allowed : Role → Bool) (session : Option AuthenticatedSession) (return_to : Text)
    (s : AuthenticatedSession)
    → (require_role allowed (require_authenticated_session session return_to) ≡ granted s)
      ↔ ((session ≡ some s) × (allowed s.user.role ≡ true))
unfolding require_authenticated_session
role_iff allowed none return_to s = (λ e. absurd (cc), λ (e, _). absurd (cc))
role_iff allowed (some t) return_to s = elim (Bool-cases (allowed t.user.role)) [
  | inl may ↦ rw may (
    (λ e. (ap some (granted_inj e), ap (λ x. allowed x.user.role) (sym (granted_inj e)) ∙ may)),
    (λ (e, _). ap granted (some_inj e)),
  )
  | inr denied ↦ rw denied (
    (λ e. absurd (cc)),
    (λ (e, may). absurd (let clash = ap (λ x. allowed x.user.role) (some_inj e) ∙ may in cc)),
  )
]
  where
    granted_inj : {s t : AuthenticatedSession} → granted s ≡ granted t → s ≡ t
    granted_inj {s} e = ap (λ g. elim g [ granted t ↦ t | redirected p ↦ s ]) e

-- A student page is reached exactly with a session whose user has no role or the role "student",
-- an admin page exactly with one whose user has the role "admin".
pub require_session_iff :
    (session : Option AuthenticatedSession) (return_to : Text) (s : AuthenticatedSession)
    → ((require_student_session session return_to ≡ granted s)
        ↔ ((session ≡ some s) × IsStudent s.user.role))
      × ((require_admin_session session return_to ≡ granted s)
          ↔ ((session ≡ some s) × IsAdmin s.user.role))
unfolding require_student_session require_admin_session
require_session_iff session return_to s =
    let of_student = role_iff can_access_student_workspace session return_to s in
    let of_admin = role_iff can_access_admin_workspace session return_to s in
    let student = IsStudent-iff s.user.role in
    let admin = IsAdmin-iff s.user.role in
    (
      (
        λ e. ((of_student.0 e).0, student.0 (of_student.0 e).1),
        λ (e, r). of_student.1 (e, student.1 r),
      ),
      (λ e. ((of_admin.0 e).0, admin.0 (of_admin.0 e).1), λ (e, r). of_admin.1 (e, admin.1 r)),
    )

redirect_cases :
    (allowed : Role → Bool) (session : Option AuthenticatedSession) (return_to path : Text)
    → require_role allowed (require_authenticated_session session return_to) ≡ redirected path
    → (path ≡ build_sign_in_url return_to none) ⊎ (path ≡ codes "/access-denied")
unfolding require_authenticated_session
redirect_cases allowed none return_to path e = inl (sym (redirected_inj e))
  where
    redirected_inj : {p q : Text} → redirected p ≡ redirected q → p ≡ q
    redirected_inj {p} e = ap (λ g. elim g [ granted t ↦ p | redirected q ↦ q ]) e
redirect_cases allowed (some t) return_to path e = inr (ground (arith, e))

-- Whoever is sent away from a student page or an admin page stays on the site.
pub require_session-IsSafePath :
    (session : Option AuthenticatedSession) (return_to path : Text)
    → (require_student_session session return_to ≡ redirected path → IsSafePath path)
      × (require_admin_session session return_to ≡ redirected path → IsSafePath path)
unfolding require_student_session require_admin_session
require_session-IsSafePath session return_to path = (
  λ e. safe_target (redirect_cases can_access_student_workspace session return_to path e),
  λ e. safe_target (redirect_cases can_access_admin_workspace session return_to path e),
)
  where
    safe_target :
        (path ≡ build_sign_in_url return_to none) ⊎ (path ≡ codes "/access-denied")
        → IsSafePath path
    safe_target (inl e) = subst IsSafePath (sym e) (build_sign_in_url-IsSafePath return_to none)
    safe_target (inr e) =
        subst IsSafePath (sym e)
          (tame_path b'a' (codes "ccess-denied") (omega arith) (omega arith) (omega arith))
