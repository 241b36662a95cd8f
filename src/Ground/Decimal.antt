-- ===== src/Ground/Decimal.antt =====
-- The C library's `%u` and `%d`, and their inverse: the vehicle's reading of a decimal number.
use waybeam_wfb_ng.Base.{
  ℕ, zero, suc, ◌+◌, ◌*◌, ◌/◌, ◌%◌, ◌^◌, ◌≤◌, ◌<◌, ◌≡◌, refl, ap, ◌∙◌, true, false, some, List, [],
  ◌∷◌, ◌++◌, ltb, ◌==◌, if◌then◌else◌, Bool-cases, ltb→lt, lt→ltb, inl, inr, arith,
}
use waybeam_wfb_ng.Base.Int.{ℤ, pos, negsuc}
use waybeam_wfb_ng.Base.Text.{is_digit, skip_spaces}
use waybeam_wfb_ng.Csa.Machine.{to_int32}
use waybeam_wfb_ng.Csa.Json.{
  digits_from, saturate, starts_digit, skip_white, begins, drop_bytes, strtoll,
}

-- The digits of `n` before `rest`; `width` digits are enough where n < 10 ^ width.
unfoldable pub decimal_from : ℕ → ℕ → List ℕ → List ℕ
decimal_from zero n rest = rest
decimal_from (suc width) n rest =
    let more = decimal_from width (n / 10) ((b'0' + n % 10) ∷ rest) in
    if ltb n 10 then (b'0' + n) ∷ rest else more

-- `%u`, and `%d` of an int: ten digits hold every 32-bit number.
unfoldable pub decimal : ℕ → List ℕ
unfolding decimal_from
decimal n = decimal_from 10 n []

unfoldable pub decimal_int : ℤ → List ℕ
unfolding decimal
decimal_int (pos n) = decimal n
decimal_int (negsuc n) = b'-' ∷ decimal (suc n)

digit_code : (d : ℕ) → d < 10 → is_digit (b'0' + d) ≡ true
digit_code d h = ground arith

digits_from-digit :
    (acc d n : ℕ) (rest : List ℕ)
    → d < 10
    → acc * 10 + d ≡ n
    → digits_from acc ((b'0' + d) ∷ rest) ≡ digits_from n rest
unfolding digits_from
digits_from-digit acc d n rest h e =
    rw (digit_code d h) (ap (λ v. digits_from v rest) (omega arith))

-- One more digit of width.
tenth : (width n : ℕ) → n < 10 ^ suc width → n / 10 < 10 ^ width
tenth width n h = omega arith

pub digits_from-decimal_from :
    (width n : ℕ) (rest more : List ℕ)
    → n < 10 ^ width
    → digits_from 0 (decimal_from width n rest ++ more) ≡ digits_from n (rest ++ more)
unfolding decimal_from
digits_from-decimal_from zero n rest more h = ap (λ v. digits_from v (rest ++ more)) (omega arith)
digits_from-decimal_from (suc width) n rest more h = elim (Bool-cases (ltb n 10)) [
  | inl e ↦ rw e (digits_from-digit 0 n n (rest ++ more) (ltb→lt n 10 e) (omega arith))
  | inr e ↦ rw e (
      digits_from-decimal_from width (n / 10) ((b'0' + n % 10) ∷ rest) more (tenth width n h)
      ∙ digits_from-digit (n / 10) (n % 10) n (rest ++ more) (omega arith) (omega arith))
]

-- Printing begins with a digit.
starts_digit-decimal_from :
    (width n : ℕ) (rest more : List ℕ)
    → starts_digit (rest ++ more) ≡ true
    → starts_digit (decimal_from width n rest ++ more) ≡ true
unfolding decimal_from starts_digit
starts_digit-decimal_from zero n rest more h = h
starts_digit-decimal_from (suc width) n rest more h = elim (Bool-cases (ltb n 10)) [
  | inl e ↦ rw e (digit_code n (ltb→lt n 10 e))
  | inr e ↦ rw e (
      starts_digit-decimal_from width (n / 10) ((b'0' + n % 10) ∷ rest) more
        (digit_code (n % 10) (omega arith)))
]

starts_digit-suc :
    (width n : ℕ) (more : List ℕ) → starts_digit (decimal_from (suc width) n [] ++ more) ≡ true
unfolding decimal_from starts_digit
starts_digit-suc width n more = elim (Bool-cases (ltb n 10)) [
  | inl e ↦ rw e (digit_code n (ltb→lt n 10 e))
  | inr e ↦ rw e (
      starts_digit-decimal_from width (n / 10) ((b'0' + n % 10) ∷ []) more
        (digit_code (n % 10) (omega arith)))
]

starts_digit-decimal : (n : ℕ) (more : List ℕ) → starts_digit (decimal n ++ more) ≡ true
unfolding decimal
starts_digit-decimal n more = starts_digit-suc 9 n more

-- A text that begins with a digit has no white space to skip, and no sign.
module _ (c : ℕ) (cs : List ℕ) (h : is_digit c ≡ true) where
  skip_white-digit : skip_white (c ∷ cs) ≡ c ∷ cs
  unfolding skip_white
  skip_white-digit = ground arith

  skip_spaces-digit : skip_spaces (c ∷ cs) ≡ c ∷ cs
  unfolding skip_spaces
  skip_spaces-digit = ground arith

  not_minus : (c == b'-') ≡ false
  not_minus = ground arith

  not_plus : (c == b'+') ≡ false
  not_plus = ground arith

  strtoll-digit :
      strtoll (c ∷ cs) ≡ (let v = digits_from 0 (c ∷ cs) in some (saturate false v.0, v.1))
  unfolding strtoll begins starts_digit
  strtoll-digit = rw (skip_white-digit, not_minus, not_plus, h)

digits_from-stop :
    (n : ℕ) (more : List ℕ) → starts_digit more ≡ false → digits_from n more ≡ (n, more)
unfolding digits_from starts_digit
digits_from-stop n [] h = refl
digits_from-stop n (c ∷ cs) h = rw h refl

saturate-suc : (m n : ℕ) → n ≡ suc m → n < 2 ^ 32 → saturate true n ≡ negsuc m
unfolding saturate
saturate-suc m zero e h = absurd (omega arith)
saturate-suc m (suc n) e h = ground arith

-- The digits of a number, then something else.
module _ (n : ℕ) (more : List ℕ) (bound : n < 2 ^ 32) (stop : starts_digit more ≡ false) where
  digits_from-decimal : digits_from 0 (decimal n ++ more) ≡ (n, more)
  unfolding decimal
  digits_from-decimal =
      digits_from-decimal_from 10 n [] more (omega arith) ∙ digits_from-stop n more stop

  -- `strtoll` of a text whose first byte is a digit and whose digits are known.
  strtoll-number :
      (s : List ℕ)
      → starts_digit s ≡ true
      → digits_from 0 s ≡ (n, more)
      → strtoll (skip_spaces s) ≡ some (pos n, more)
  unfolding starts_digit saturate
  strtoll-number [] h e = cc
  strtoll-number (c ∷ cs) h e =
      rw (skip_spaces-digit c cs h, strtoll-digit c cs h, e, lt→ltb n (2 ^ 63) (omega arith))

  -- Reading a printed number gives the number and the text behind it.
  pub strtoll-decimal : strtoll (skip_spaces (decimal n ++ more)) ≡ some (pos n, more)
  strtoll-decimal =
      strtoll-number (decimal n ++ more) (starts_digit-decimal n more) digits_from-decimal

  -- A printed number after a minus sign.
  strtoll-minus : (m : ℕ) → n ≡ suc m → strtoll (b'-' ∷ (decimal n ++ more)) ≡ some (negsuc m, more)
  unfolding strtoll skip_white begins drop_bytes saturate
  strtoll-minus m e =
      rw (digits_from-decimal, starts_digit-decimal n more)
        (ap (λ v. some (v, more)) (saturate-suc m n e (omega arith)))

-- The integers that `%d` prints.
abbrev pub IsInt32 : ℤ → Type 0
IsInt32 (pos n) = n < 2 ^ 31
IsInt32 (negsuc n) = suc n ≤ 2 ^ 31

-- A cast to int leaves it alone.
pub to_int32_int : (v : ℤ) → IsInt32 v → to_int32 v ≡ v
unfolding to_int32
to_int32_int (pos n) h = ground arith
to_int32_int (negsuc n) h = ground arith

pub strtoll-decimal_int :
    (v : ℤ) (more : List ℕ)
    → IsInt32 v
    → starts_digit more ≡ false
    → strtoll (skip_spaces (decimal_int v ++ more)) ≡ some (v, more)
unfolding decimal_int skip_spaces
strtoll-decimal_int (pos n) more h stop = strtoll-decimal n more (omega arith) stop
strtoll-decimal_int (negsuc m) more h stop = strtoll-minus (suc m) more (omega arith) stop m refl

-- No byte of the text is `k`.
abbrev pub AllNot : ℕ → List ℕ → Type 0
AllNot k [] = Unit
AllNot k (c ∷ cs) = ((c == k) ≡ false) × AllNot k cs

module _ (k : ℕ) (h : is_digit k ≡ false) where
  not_digit : (d : ℕ) → d < 10 → (b'0' + d == k) ≡ false
  not_digit d l = ground arith

  AllNot-decimal_from :
      (width n : ℕ) (rest : List ℕ) → AllNot k rest → AllNot k (decimal_from width n rest)
  unfolding decimal_from
  AllNot-decimal_from zero n rest a = a
  AllNot-decimal_from (suc width) n rest a = elim (Bool-cases (ltb n 10)) [
    | inl e ↦ rw e (not_digit n (ltb→lt n 10 e), a)
    | inr e ↦ rw e (
        AllNot-decimal_from width (n / 10) ((b'0' + n % 10) ∷ rest)
          (not_digit (n % 10) (omega arith), a))
  ]

  pub AllNot-decimal : (n : ℕ) → AllNot k (decimal n)
  unfolding decimal
  AllNot-decimal n = AllNot-decimal_from 10 n [] tt

  pub AllNot-decimal_int : (v : ℤ) → (k == b'-') ≡ false → AllNot k (decimal_int v)
  unfolding decimal_int
  AllNot-decimal_int (pos n) m = AllNot-decimal n
  AllNot-decimal_int (negsuc n) m = (ground arith, AllNot-decimal (suc n))
