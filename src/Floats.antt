-- ===== src/Floats.antt =====
-- Go's `float64`, as far as the program computes with it. The theorems hold for every such
-- arithmetic: none relies on a law of it. `exact` is one, over fractions, for runs.
use agent_server.Prelude.{
  ℕ, ◌+◌, ◌-◌, ◌*◌, ◌/◌, Bool, not, ℤ, pos, pos_part, neg_part, sub_ℕ, ltb_ℤ, if◌then◌else◌, ◌≡◌,
  refl, true,
}

pub record Floats : Type 1 where
  pub Float : Type 0
  -- float64(n)
  pub of_int : ℤ → Float
  -- The constant n / 100.
  pub hundredths : ℕ → Float
  pub add : Float → Float → Float
  pub sub : Float → Float → Float
  pub mul : Float → Float → Float
  pub div : Float → Float → Float
  -- a < b and a >= b, which are both false at NaN.
  pub lt : Float → Float → Bool
  pub ge : Float → Float → Bool
  -- int(math.Ceil(a)) and int(math.Round(a))
  pub ceil : Float → ℤ
  pub round : Float → ℤ

-- A fraction with a positive denominator.
pub record Fraction : Type 0 where
  pub num : ℤ
  pub den : ℕ

abbrev times : ℤ → ℤ → ℤ
times a b =
    sub_ℕ (pos_part a * pos_part b + neg_part a * neg_part b)
      (pos_part a * neg_part b + neg_part a * pos_part b)

abbrev plus : ℤ → ℤ → ℤ
plus a b = sub_ℕ (pos_part a + pos_part b) (neg_part a + neg_part b)

abbrev minus : ℤ → ℤ → ℤ
minus a b = sub_ℕ (pos_part a + neg_part b) (neg_part a + pos_part b)

abbrev less : Fraction → Fraction → Bool
less a b = ltb_ℤ (times a.num (pos b.den)) (times b.num (pos a.den))

-- Division is used by positive numbers only.
abbrev pub exact : Floats
exact = record {
  Float = Fraction;
  of_int = λ n. record { num = n; den = 1 };
  hundredths = λ n. record { num = pos n; den = 100 };
  add = λ a b. record {
    num = plus (times a.num (pos b.den)) (times b.num (pos a.den));
    den = a.den * b.den;
  };
  sub = λ a b. record {
    num = minus (times a.num (pos b.den)) (times b.num (pos a.den));
    den = a.den * b.den;
  };
  mul = λ a b. record { num = times a.num b.num; den = a.den * b.den };
  div = λ a b. record { num = times a.num (pos b.den); den = a.den * pos_part b.num };
  lt = less;
  ge = λ a b. not (less a b);
  ceil = λ a. sub_ℕ ((pos_part a.num + a.den - 1) / a.den) (neg_part a.num / a.den);
  round = λ a.
      sub_ℕ ((2 * pos_part a.num + a.den) / (2 * a.den))
        ((2 * neg_part a.num + a.den) / (2 * a.den));
}

-- clampUnit of internal/voice/barge_in.go; NaN stays NaN.
module _ (F : Floats) where
  open F use {Float, hundredths, lt}

  unfoldable pub clamp_unit : Float → Float
  clamp_unit value =
      if lt value (hundredths 0)
      then hundredths 0
      else if lt (hundredths 100) value
      then hundredths 100
      else value

three_fifths :
    exact.ge (exact.div (exact.of_int (pos 3)) (exact.of_int (pos 5))) (exact.hundredths 60) ≡ true
three_fifths = refl
