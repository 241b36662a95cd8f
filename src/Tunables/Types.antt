-- ===== src/Tunables/Types.antt =====
-- The registry of tunables of vehicle/link_controller.c: a row of the table, and the fields that the
-- rows point at. Help texts and the public bit are left out.
use waybeam_wfb_ng.Base.{ℕ, Bool, Option, List}
use waybeam_wfb_ng.Base.Int.{ℤ}
use waybeam_wfb_ng.Base.Floating.{Floating}

-- The literal of a bound: `digits / 10 ^ places`, or its negation.
pub record Literal : Type 0 where
  pub negative : Bool
  pub digits : ℕ
  pub places : ℕ

-- The type of a field, with its lowest and highest value; equal ones do not bound it.
pub data Kind : Type 0 where
  tf_int : ℤ → ℤ → Kind
  tf_long : ℤ → ℤ → Kind
  tf_float : Literal → Literal → Kind
  tf_bool : Kind

pub record TunableDesc : Type 0 where
  pub name : List ℕ
  pub kind : Kind

-- What the C library does with a floating point number in a text.
pub record Reader (fp : Floating) : Type 0 where
  pub strtod : List ℕ → Option (fp.Double × List ℕ)
  pub isfinite : fp.Double → Bool
  pub narrow : fp.Double → fp.Float

-- A field of the configuration. No two rows share one, so that the fields are a list in the order
-- of the rows.
pub data Value (fp : Floating) : Type 0 where
  int_field long_field : ℤ → Value fp
  float_field : fp.Float → Value fp
  bool_field : Bool → Value fp
