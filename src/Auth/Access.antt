-- ===== src/Auth/Access.antt =====
-- frontend/app/lib/auth/access.ts
use scholarmatch_ai.Base.{Bool, true, false, if◌then◌else◌}
use scholarmatch_ai.Base.Text.{Text, codes, text_eq}

-- The value of `app_metadata?.role`: `undefined` or `null`, a string, or another value.
pub data Role : Type 0 where
  absent : Role
  named : Text → Role
  other : Role

pub data WorkspaceRole : Type 0 where
  student admin unknown : WorkspaceRole

unfoldable pub workspace_role : Role → WorkspaceRole
unfolding text_eq
workspace_role absent = student
workspace_role (named role) =
    if text_eq role (codes "student")
    then student
    else if text_eq role (codes "admin")
    then admin
    else unknown
workspace_role other = unknown

unfoldable pub can_access_student_workspace : Role → Bool
unfolding workspace_role
can_access_student_workspace role = elim (workspace_role role) [ student ↦ true | _ ↦ false ]

unfoldable pub can_access_admin_workspace : Role → Bool
unfolding workspace_role
can_access_admin_workspace role = elim (workspace_role role) [ admin ↦ true | _ ↦ false ]
