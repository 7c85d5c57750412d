-- ===== src/Routing/Routes/Laws.antt =====
-- What the two classifications of routes.ts decide.
use scholarmatch_ai.Base.{
  true, false, ◌++◌, ◌≡◌, ◌⊎◌, inl, inr, ◌↔◌, arith, Some, here, there, In_of_any, any_of_In,
  Some-map, Bool-cases,
}
use scholarmatch_ai.Base.Text.{
  Text, codes, text_eq, text_eq_sound, text_eq_refl, starts_with_sound, starts_with-append,
}
use scholarmatch_ai.Routing.Routes.{
  protected_prefixes, auth_entry_paths, is_under, is_protected_path, is_auth_entry_path,
}

-- The path is the prefix itself, or goes on below it.
abbrev pub Under : Text → Text → Type 0
Under pathname prefix =
    (pathname ≡ prefix) ⊎ ((rest : Text) × (pathname ≡ (prefix ++ codes "/") ++ rest))

pub is_under_sound :
    (pathname prefix : Text) → is_under pathname prefix ≡ true → Under pathname prefix
unfolding is_under
is_under_sound p q h = elim (Bool-cases (text_eq p q)) [
  | inl same ↦ inl (text_eq_sound p q same)
  | inr other ↦ inr (starts_with_sound p (q ++ codes "/") (ground arith))
]

pub is_under_complete :
    (pathname prefix : Text) → Under pathname prefix → is_under pathname prefix ≡ true
unfolding is_under
is_under_complete p q (inl e) = rw e (ground (arith, text_eq_refl q))
is_under_complete p q (inr (rest, e)) =
    rw e (ground (arith, starts_with-append (q ++ codes "/") rest))

-- A path is protected exactly when it is one of the listed prefixes or a path below one of them,
-- so that a longer word, such as "/administrator", is not.
pub is_protected_path_iff :
    (pathname : Text)
    → (is_protected_path pathname ≡ true) ↔ Some (Under pathname) protected_prefixes
unfolding is_protected_path
is_protected_path_iff p = (
  λ h.
      Some-map (λ q. is_under p q ≡ true) (Under p) _ (is_under_sound p)
        (In_of_any (is_under p) _ h),
  λ m.
      any_of_In (is_under p) _
        (Some-map (Under p) (λ q. is_under p q ≡ true) _ (is_under_complete p) m),
)

-- No page is both an entry page of authentication and a protected one.
pub is_auth_entry_path-is_protected_path :
    (pathname : Text) → is_auth_entry_path pathname ≡ true → is_protected_path pathname ≡ false
unfolding is_auth_entry_path is_protected_path
is_auth_entry_path-is_protected_path p h =
    auth_entry_cases p (In_of_any (text_eq p) auth_entry_paths h)
  where
    auth_entry_cases :
        (q : Text) → Some (λ e. text_eq q e ≡ true) auth_entry_paths → is_protected_path q ≡ false
    auth_entry_cases q (here e) = rw (text_eq_sound q _ e)
    auth_entry_cases q (there (here e)) = rw (text_eq_sound q _ e)
    auth_entry_cases q (there (there (here e))) = rw (text_eq_sound q _ e)
    auth_entry_cases q (there (there (there (here e)))) = rw (text_eq_sound q _ e)
    auth_entry_cases q (there (there (there (there e)))) = elim e [ ]
