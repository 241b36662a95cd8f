-- ===== src/Csa/Json.antt =====
-- The field extractor of vehicle/csa/csa.c: `find_key`, `get_str` and `get_int`.
use waybeam_wfb_ng.Base.{
  ℕ, zero, suc, ◌+◌, ◌-◌, ◌*◌, ◌^◌, Bool, true, false, ◌&&◌, ◌||◌, Option, none, some, List, [],
  ◌∷◌, length, ltb, leb, ◌==◌, if◌then◌else◌,
}
use waybeam_wfb_ng.Base.Int.{ℤ, pos, negsuc}
use waybeam_wfb_ng.Base.Text.{has_prefix, skip_spaces, is_digit}

unfoldable pub drop_bytes : ℕ → List ℕ → List ℕ
drop_bytes zero s = s
drop_bytes (suc n) [] = []
drop_bytes (suc n) (c ∷ cs) = drop_bytes n cs

-- `*p == c`, false at the terminating NUL.
unfoldable pub begins : ℕ → List ℕ → Bool
begins c [] = false
begins c (b ∷ bs) = b == c

-- What follows a quoted key and its colon, if `s` begins with them; `quoted` says that a quote stands before.
unfoldable pub after_key : List ℕ → Bool → List ℕ → Option (List ℕ)
unfolding drop_bytes begins skip_spaces
after_key key quoted s =
    let q = drop_bytes (length key) s in
    let colon = skip_spaces (drop_bytes 1 q) in
    if quoted && begins b'"' q && begins b':' colon then some (drop_bytes 1 colon) else none

-- The loop of `find_key`. `skip` counts the bytes that `p += klen` passes over; `quoted` says that
-- the byte before `s` is a quote, which is false at the start of the buffer.
unfoldable pub find_key_from : List ℕ → ℕ → Bool → List ℕ → Option (List ℕ)
find_key_from key skip quoted [] = none
find_key_from key (suc skip) quoted (c ∷ cs) = find_key_from key skip (c == b'"') cs
find_key_from key zero quoted (c ∷ cs) =
    let found = has_prefix key (c ∷ cs) in
    let rest = find_key_from key (if found then length key - 1 else 0) (c == b'"') cs in
    if found
    then elim (after_key key quoted (c ∷ cs)) [ some value ↦ some value | none ↦ rest ]
    else rest

unfoldable pub find_key : List ℕ → List ℕ → Option (List ℕ)
unfolding find_key_from after_key
find_key buf key = find_key_from key 0 false buf

-- At most `room` bytes of a quoted text, up to its closing quote.
unfoldable pub quoted_text : ℕ → List ℕ → List ℕ
quoted_text zero s = []
quoted_text (suc room) [] = []
quoted_text (suc room) (c ∷ cs) = if c == b'"' then [] else c ∷ quoted_text room cs

-- `get_str`; `outlen` counts the NUL.
unfoldable pub get_str : List ℕ → List ℕ → ℕ → Option (List ℕ)
unfolding find_key quoted_text skip_spaces begins drop_bytes
get_str buf key outlen = elim (find_key buf key) [
  | none ↦ none
  | some p ↦
      if begins b'"' (skip_spaces p)
      then some (quoted_text (outlen - 1) (drop_bytes 1 (skip_spaces p)))
      else none
]

-- `strtoll` and `strtol` in base 10: the C library's reading of a decimal number, with the text that is left.
abbrev pub is_space : ℕ → Bool
is_space c = c == b' ' || (leb 9 c && leb c 13)

unfoldable pub skip_white : List ℕ → List ℕ
skip_white [] = []
skip_white (c ∷ cs) = let rest = skip_white cs in if is_space c then rest else c ∷ cs

unfoldable pub digits_from : ℕ → List ℕ → ℕ × List ℕ
digits_from acc [] = (acc, [])
digits_from acc (c ∷ cs) =
    let rest = digits_from (acc * 10 + (c - b'0')) cs in if is_digit c then rest else (acc, c ∷ cs)

-- Out of range the result is LLONG_MAX or LLONG_MIN.
unfoldable pub saturate : Bool → ℕ → ℤ
saturate false n = if ltb n (2 ^ 63) then pos n else pos (2 ^ 63 - 1)
saturate true zero = pos 0
saturate true (suc n) = if ltb n (2 ^ 63) then negsuc n else negsuc (2 ^ 63 - 1)

unfoldable pub starts_digit : List ℕ → Bool
starts_digit [] = false
starts_digit (c ∷ cs) = is_digit c

-- `none` where no digits stand, so that `end == p`.
unfoldable pub strtoll : List ℕ → Option (ℤ × List ℕ)
unfolding skip_white digits_from saturate starts_digit begins drop_bytes
strtoll p =
    let s = skip_white p in
    let minus = begins b'-' s in
    let body = if minus || begins b'+' s then drop_bytes 1 s else s in
    let (n, rest) = digits_from 0 body in
    if starts_digit body then some (saturate minus n, rest) else none

unfoldable pub get_int : List ℕ → List ℕ → Option ℤ
unfolding find_key strtoll skip_spaces
get_int buf key = elim (find_key buf key) [
  | none ↦ none
  | some p ↦ elim (strtoll (skip_spaces p)) [ none ↦ none | some (v, rest) ↦ some v ]
]
