-- ===== src/Dashboard/Counts.antt =====
-- The dashboard's counts of applications by status.
use scholarmatch_ai.Base.{List, [], ◌∷◌, ◌+◌, ◌≡◌, inl, inr, ◌∙◌, arith, length, Bool-cases}
use scholarmatch_ai.Applications.{ApplicationStatus, ApplicationResponse}
use scholarmatch_ai.Applications.Board.{column, status_eq}
use scholarmatch_ai.Dashboard.Model.{Counts, count_one, count_from, count_applications}

count_from-column :
    (counts : Counts) (tracked : List ApplicationResponse) (s : ApplicationStatus)
    → count_from counts tracked s ≡ counts s + length (column s tracked)
unfolding count_from column count_one
count_from-column counts [] s = omega arith
count_from-column counts (a ∷ rest) s = count_from-column (count_one a.status counts) rest s ∙ one
  where
    one :
        count_one a.status counts s + length (column s rest)
        ≡ counts s + length (column s (a ∷ rest))
    one = elim (Bool-cases (status_eq a.status s)) [
      | inl same ↦ rw same (omega arith)
      | inr other ↦ rw other (omega arith)
    ]

-- The dashboard's count of a status is the size of that status's column on the application board.
pub count_applications-column :
    (tracked : List ApplicationResponse) (s : ApplicationStatus)
    → count_applications tracked s ≡ length (column s tracked)
unfolding count_applications
count_applications-column tracked s = omega (arith, count_from-column (λ status. 0) tracked s)
