-- ===== src/Routing/Routes.antt =====
-- frontend/app/lib/routing/routes.ts
pub mod Laws
use scholarmatch_ai.Base.{ℕ, Bool, List, [], ◌∷◌, ◌++◌, ◌||◌, any}
use scholarmatch_ai.Base.Text.{Text, codes, text_eq, starts_with}

abbrev pub protected_prefixes : List Text
protected_prefixes =
    codes "/admin"
    ∷ codes "/onboarding"
    ∷ codes "/dashboard"
    ∷ codes "/matches"
    ∷ codes "/scholarships"
    ∷ codes "/applications"
    ∷ codes "/documents"
    ∷ codes "/profile"
    ∷ codes "/settings"
    ∷ []

abbrev pub auth_entry_paths : List Text
auth_entry_paths =
    codes "/sign-in" ∷ codes "/sign-up" ∷ codes "/forgot-password" ∷ codes "/verify-email" ∷ []

-- The test of one prefix in `isProtectedPath`.
unfoldable pub is_under : Text → Text → Bool
unfolding text_eq starts_with
is_under pathname prefix = text_eq pathname prefix || starts_with pathname (prefix ++ codes "/")

unfoldable pub is_protected_path : Text → Bool
unfolding is_under
is_protected_path pathname = any (is_under pathname) protected_prefixes

unfoldable pub is_auth_entry_path : Text → Bool
unfolding text_eq
is_auth_entry_path pathname = any (text_eq pathname) auth_entry_paths
