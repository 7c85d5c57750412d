-- ===== src/Base/Text/Trim.antt =====
-- `String.prototype.trim`: white space and line ends of ECMAScript are dropped at both ends.
use Prim.Native.Nat.{ℕ, ◌≤◌}
use mathlib.Core.Path.{◌≡◌, refl, ap, ◌∙◌}
use mathlib.Core.Logic.{inl, inr}
use mathlib.Core.Bool.{Bool, false, ◌&&◌, ◌||◌}
use mathlib.Core.List.{List, [], ◌∷◌}
use native.Mathlib.Omega.{arith}
use scholarmatch_ai.Base.Tests.{Bool-cases, ◌==◌, leb, if◌then◌else◌}
use scholarmatch_ai.Base.Lists.{length}

-- The units that `trim` and `\s` treat as white space.
unfoldable pub is_space : ℕ → Bool
is_space c =
    leb 9 c && leb c 13
    || c == 32
    || c == 160
    || c == 0x1680
    || leb 0x2000 c && leb c 0x200a
    || c == 0x2028
    || c == 0x2029
    || c == 0x202f
    || c == 0x205f
    || c == 0x3000
    || c == 0xfeff

unfoldable pub trim_start : List ℕ → List ℕ
trim_start [] = []
trim_start (c ∷ s) = if is_space c then trim_start s else c ∷ s

abbrev cons_unless_space : ℕ → List ℕ → List ℕ
cons_unless_space c [] = if is_space c then [] else c ∷ []
cons_unless_space c (d ∷ s) = c ∷ d ∷ s

unfoldable pub trim_end : List ℕ → List ℕ
trim_end [] = []
trim_end (c ∷ s) = cons_unless_space c (trim_end s)

unfoldable pub trim : List ℕ → List ℕ
unfolding trim_start trim_end is_space
trim s = trim_end (trim_start s)

trim_start-length : (s : List ℕ) → length (trim_start s) ≤ length s
unfolding trim_start
trim_start-length [] = omega arith
trim_start-length (c ∷ s) = ground (arith, trim_start-length s)

trim_end-length : (s : List ℕ) → length (trim_end s) ≤ length s
unfolding trim_end
trim_end-length [] = omega arith
trim_end-length (c ∷ s) = ground (arith, trim_end-length s)

pub trim-length : (s : List ℕ) → length (trim s) ≤ length s
unfolding trim
trim-length s = omega (arith, trim_end-length (trim_start s), trim_start-length s)

-- A text that does not start with a space.
StartsPlain : List ℕ → Type 0
StartsPlain [] = Unit
StartsPlain (c ∷ s) = is_space c ≡ false

trim_start-StartsPlain : (s : List ℕ) → StartsPlain (trim_start s)
unfolding trim_start StartsPlain
trim_start-StartsPlain [] = tt
trim_start-StartsPlain (c ∷ s) = elim (Bool-cases (is_space c)) [
  | inl space ↦ rw space (trim_start-StartsPlain s)
  | inr plain ↦ rw plain plain
]

trim_start_plain : (s : List ℕ) → StartsPlain s → trim_start s ≡ s
unfolding trim_start StartsPlain
trim_start_plain [] h = refl
trim_start_plain (c ∷ s) h = rw h refl

trim_end-StartsPlain : (s : List ℕ) → StartsPlain s → StartsPlain (trim_end s)
unfolding trim_end StartsPlain
trim_end-StartsPlain [] h = tt
trim_end-StartsPlain (c ∷ s) h = joined c (trim_end s) h
  where
    joined : (c : ℕ) (u : List ℕ) → is_space c ≡ false → StartsPlain (cons_unless_space c u)
    joined c [] h = rw h h
    joined c (d ∷ u) h = h

trim_end-trim_end : (s : List ℕ) → trim_end (trim_end s) ≡ trim_end s
unfolding trim_end
trim_end-trim_end [] = refl
trim_end-trim_end (c ∷ s) = joined c (trim_end s) (trim_end-trim_end s)
  where
    joined :
        (c : ℕ) (u : List ℕ)
        → trim_end u ≡ u
        → trim_end (cons_unless_space c u) ≡ cons_unless_space c u
    joined c [] e = elim (Bool-cases (is_space c)) [
      | inl space ↦ rw space refl
      | inr plain ↦ rw (plain, plain) refl
    ]
    joined c (d ∷ u) e = ap (cons_unless_space c) e

pub trim-trim : (s : List ℕ) → trim (trim s) ≡ trim s
unfolding trim
trim-trim s =
    ap trim_end (trim_start_plain _ (trim_end-StartsPlain _ (trim_start-StartsPlain s)))
    ∙ trim_end-trim_end (trim_start s)
