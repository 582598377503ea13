-- ===== src/Prelude/Int.antt =====
-- Go's `int` and `int64`: integers over the native numbers, whose operations wrap at 64 bits.
use Prim.Native.Nat.{ℕ, suc, ◌+◌, ◌-◌, ◌*◌, ◌/◌, ◌%◌, ◌≤◌, ◌<◌}
use mathlib.Core.Path.{◌≡◌, refl}
use mathlib.Core.Bool.{Bool}
use native.Mathlib.Omega.{arith}
use agent_server.Prelude.Tests.{ltb, leb, if◌then◌else◌}

-- `negsuc n` is -(n + 1).
pub data ℤ : Type 0 where
  pos : ℕ → ℤ
  negsuc : ℕ → ℤ

abbrev pub pos_part : ℤ → ℕ
pos_part (pos n) = n
pos_part (negsuc n) = 0

abbrev pub neg_part : ℤ → ℕ
neg_part (pos n) = 0
neg_part (negsuc n) = suc n

-- a - b, as an integer.
abbrev pub sub_ℕ : ℕ → ℕ → ℤ
sub_ℕ a b = if leb b a then pos (a - b) else negsuc (b - a - 1)

infix 50 ◌≤ℤ◌ ◌<ℤ◌
abbrev pub ◌≤ℤ◌ : ℤ → ℤ → Type 0
a ≤ℤ b = pos_part a + neg_part b ≤ pos_part b + neg_part a

abbrev pub ◌<ℤ◌ : ℤ → ℤ → Type 0
a <ℤ b = pos_part a + neg_part b < pos_part b + neg_part a

abbrev pub ltb_ℤ : ℤ → ℤ → Bool
ltb_ℤ a b = ltb (pos_part a + neg_part b) (pos_part b + neg_part a)

abbrev pub leb_ℤ : ℤ → ℤ → Bool
leb_ℤ a b = leb (pos_part a + neg_part b) (pos_part b + neg_part a)

-- The values of `int64`.
abbrev pub In64 : ℤ → Type 0
In64 z = (pos_part z < 9223372036854775808) × (neg_part z ≤ 9223372036854775808)

-- The 64-bit pattern of an integer, and the integer of a pattern.
abbrev to_bits : ℤ → ℕ
to_bits z =
    (pos_part z + 18446744073709551616 - neg_part z % 18446744073709551616) % 18446744073709551616

abbrev of_bits : ℕ → ℤ
of_bits n = if ltb n 9223372036854775808 then pos n else negsuc (18446744073709551615 - n)

-- Two's complement reduction, which Go applies to every result.
unfoldable pub wrap : ℤ → ℤ
wrap z = of_bits (to_bits z)

unfoldable pub add64 : ℤ → ℤ → ℤ
add64 a b = wrap (sub_ℕ (pos_part a + pos_part b) (neg_part a + neg_part b))

unfoldable pub sub64 : ℤ → ℤ → ℤ
sub64 a b = wrap (sub_ℕ (pos_part a + neg_part b) (neg_part a + pos_part b))

unfoldable pub mul64 : ℤ → ℤ → ℤ
mul64 a b = wrap (
    sub_ℕ (pos_part a * pos_part b + neg_part a * neg_part b)
      (pos_part a * neg_part b + neg_part a * pos_part b))

-- `a / d` for a positive `d`: Go truncates towards zero.
unfoldable pub quot : ℤ → ℕ → ℤ
quot (pos a) d = pos (a / d)
quot (negsuc a) d = sub_ℕ 0 (suc a / d)

-- Reduction leaves the values of `int64` alone.
pub wrap-eq : (z : ℤ) → In64 z → wrap z ≡ z
unfolding wrap
wrap-eq (pos n) h = ground arith
wrap-eq (negsuc n) h = ground arith

pub wrap-In64 : (z : ℤ) → In64 (wrap z)
unfolding wrap
wrap-In64 z = ground arith

-- A sum of natural numbers that fits does not wrap.
pub add64_pos : (a b : ℕ) → a + b < 9223372036854775808 → add64 (pos a) (pos b) ≡ pos (a + b)
unfolding add64 wrap
add64_pos a b h = ground arith

pub sub64_pos : (a b : ℕ) → b ≤ a → a < 9223372036854775808 → sub64 (pos a) (pos b) ≡ pos (a - b)
unfolding sub64 wrap
sub64_pos a b h k = ground arith

wraps_at_the_top : add64 (pos 9223372036854775807) (pos 1) ≡ negsuc 9223372036854775807
unfolding add64 wrap
wraps_at_the_top = refl
