-- ===== src/Base/Number.antt =====
-- JavaScript numbers that are compared, not computed with. Every finite double is a whole multiple
-- of 2^-1074: a finite number is a sign (`true` for minus) and its size in those units.
use scholarmatch_ai.Base.Tests.{ltb}
use Prim.Native.Nat.{ℕ, ◌*◌, ◌^◌}
use mathlib.Core.Bool.{Bool, true, false, ◌&&◌, not}

pub data Number : Type 0 where
  nan : Number
  infinite : Bool → Number
  finite : Bool → ℕ → Number

-- The units in one.
unfoldable pub one_units : ℕ
one_units = 2 ^ 1074

-- `Number.isFinite(x)`
abbrev pub is_finite : Number → Bool
is_finite (finite sign units) = true
is_finite _ = false

-- `x < 0`; minus zero is not below zero.
abbrev pub lt_zero : Number → Bool
lt_zero nan = false
lt_zero (infinite sign) = sign
lt_zero (finite sign units) = sign && ltb 0 units

-- `x > n` for a whole number n.
abbrev pub gt_whole : Number → ℕ → Bool
gt_whole nan n = false
gt_whole (infinite sign) n = not sign
gt_whole (finite sign units) n = not sign && ltb (n * one_units) units
