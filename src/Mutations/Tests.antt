-- ===== src/Mutations/Tests.antt =====
-- The runner on small inputs.
use scholarmatch_ai.Base.{◌≡◌, refl, some}
use scholarmatch_ai.Base.Text.{codes, text_eq}
use scholarmatch_ai.Mutations.{Runner, idle_runner, begin, fail, succeed, get, put, remove}

abbrev asked : Runner
asked = (begin (codes "k1") (codes "a") (codes "saving") idle_runner).0

runner_tests :
    ((begin (codes "k2") (codes "a") (codes "saving") (fail (codes "offline") asked)).1
      ≡ some (codes "k1"))
    × ((begin (codes "k2") (codes "a") (codes "saving") (succeed (codes "a") asked)).1
        ≡ some (codes "k2"))
unfolding begin fail succeed get put remove text_eq
runner_tests = (refl, refl)
