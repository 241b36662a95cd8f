-- ===== src/Base/Floating.antt =====
-- `float` and `double`: their formats and rounding belong to the target machine, so the model takes
-- the two types and the operations that the code uses as a parameter. A C comparison is a Boolean
-- here, false on a NaN; `a > b` is `lt b a`, and `a >= b` is `le b a`.
use waybeam_wfb_ng.Base.{ℕ, ◌+◌, ◌*◌, ◌/◌, ◌^◌, ◌-◌, Bool}
use waybeam_wfb_ng.Base.Int.{ℤ, pos, negsuc, pos_part, neg_part, ◌+ℤ◌, ◌-ℤ◌, ◌*ℤ◌, ltb_ℤ, leb_ℤ}

pub record FloatOps (F : Type 0) : Type 0 where
  pub add : F → F → F
  pub sub : F → F → F
  pub mul : F → F → F
  pub div : F → F → F
  pub neg : F → F
  pub fabs : F → F
  pub lt : F → F → Bool
  pub le : F → F → Bool
  pub of_int : ℤ → F  -- conversion from an integer type
  pub lit : ℕ → ℕ → F  -- the literal m / 10 ^ e
  pub ceil : F → F
  pub to_int : F → ℤ  -- (int) or (long), towards zero
  pub to_u64 : F → ℕ  -- (uint64_t), towards zero

pub record Floating : Type 1 where
  pub Float : Type 0
  pub Double : Type 0
  pub single : FloatOps Float
  pub double : FloatOps Double
  pub widen : Float → Double  -- float to double

-- Fixed point numbers, `scale` of them to one, show that the parameter has an instance; tests and
-- witnesses run on them.
quot : ℤ → ℕ → ℤ
quot (pos n) d = pos (n / d)
quot (negsuc n) d = pos 0 -ℤ pos ((n + 1) / d)

quot_sign : ℤ → ℤ → ℤ
quot_sign a (pos n) = quot a n
quot_sign a (negsuc n) = quot (pos 0 -ℤ a) (n + 1)

-- Rounds up: floor of (a + scale - 1), which for a negative value is truncation.
ceil_scaled : ℕ → ℤ → ℤ
ceil_scaled scale (pos n) = pos ((n + scale - 1) / scale * scale)
ceil_scaled scale (negsuc n) = pos 0 -ℤ pos ((n + 1) / scale * scale)

unfoldable pub scaled : ℕ → FloatOps ℤ
unfolding quot quot_sign ceil_scaled ◌+ℤ◌ ◌-ℤ◌ ◌*ℤ◌
scaled scale = record {
  add = ◌+ℤ◌;
  sub = ◌-ℤ◌;
  mul = λ a b. quot (a *ℤ b) scale;
  div = λ a b. quot_sign (a *ℤ pos scale) b;
  neg = λ a. pos 0 -ℤ a;
  fabs = λ a. pos (pos_part a + neg_part a);
  lt = ltb_ℤ;
  le = leb_ℤ;
  of_int = λ a. a *ℤ pos scale;
  lit = λ m e. pos (m * scale / 10 ^ e);
  ceil = ceil_scaled scale;
  to_int = λ a. quot a scale;
  to_u64 = λ a. pos_part a / scale;
}

unfoldable pub widen_scaled : ℤ → ℤ
unfolding ◌*ℤ◌
widen_scaled a = a *ℤ pos (10 ^ 9)

-- Millionths for float, and 10 ^ -15 for double.
abbrev pub fixed_point : Floating
fixed_point = record {
  Float = ℤ;
  Double = ℤ;
  single = scaled (10 ^ 6);
  double = scaled (10 ^ 15);
  widen = widen_scaled;
}
