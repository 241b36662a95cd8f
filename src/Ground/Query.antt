-- ===== src/Ground/Query.antt =====
-- Query strings: `qs_get` and `qs_get_int` of ground/gs_supervisor.c, `hexnib` and `qs_pct_decode`
-- of ground/gs_supervisor_http.c.
use waybeam_wfb_ng.Base.{
  ℕ, zero, suc, ◌+◌, ◌-◌, ◌*◌, ◌≤◌, ◌<◌, Bool, true, ◌&&◌, ◌||◌, Option, none, some, List, [], ◌∷◌,
  length, ltb, leb, ◌==◌, if◌then◌else◌, arith,
}
use waybeam_wfb_ng.Base.Int.{ℤ}
use waybeam_wfb_ng.Base.Text.{bytes_eq}
use waybeam_wfb_ng.Csa.Json.{strtoll}
use waybeam_wfb_ng.Csa.Machine.{to_int32}

-- What stands before the first byte `b`.
unfoldable pub before : ℕ → List ℕ → List ℕ
before b [] = []
before b (c ∷ cs) = if c == b then [] else c ∷ before b cs

-- What stands behind the first byte `b`, if there is one (`strchr`).
unfoldable pub behind_byte : ℕ → List ℕ → Option (List ℕ)
behind_byte b [] = none
behind_byte b (c ∷ cs) = let rest = behind_byte b cs in if c == b then some cs else rest

-- The value of the pair at the start of `s`, where its key is the one that is sought. No key
-- contains '&', so that the first '&' of a pair that matches stands behind its value.
unfoldable pub pair_value : List ℕ → List ℕ → Option (List ℕ)
unfolding before behind_byte
pair_value key s = elim (behind_byte b'=' s) [
  | none ↦ none
  | some val ↦ if bytes_eq (before b'=' s) key then some (before b'&' val) else none
]

-- The loop of `qs_get`; `at_pair` says that a pair begins here.
unfoldable pub qs_from : List ℕ → Bool → List ℕ → Option (List ℕ)
unfolding pair_value
qs_from key at_pair [] = none
qs_from key at_pair (c ∷ cs) =
    let rest = qs_from key (c == b'&') cs in
    if at_pair then elim (pair_value key (c ∷ cs)) [ some v ↦ some v | none ↦ rest ] else rest

unfoldable pub qs_get : List ℕ → List ℕ → Option (List ℕ)
unfolding qs_from
qs_get qs key = qs_from key true qs

-- A number takes all of the value.
unfoldable pub whole_number : Option (ℤ × List ℕ) → Option ℤ
whole_number none = none
whole_number (some (n, [])) = some (to_int32 n)
whole_number (some (n, c ∷ cs)) = none

-- The value has at most ten bytes, so that a long of 64 bits holds it.
unfoldable pub int_value : Option (List ℕ) → Option ℤ
unfolding whole_number
int_value none = none
int_value (some v) = if length v == 0 || ltb 10 (length v) then none else whole_number (strtoll v)

unfoldable pub qs_get_int : List ℕ → List ℕ → Option ℤ
unfolding qs_get int_value
qs_get_int qs key = int_value (qs_get qs key)

unfoldable pub hexnib : ℕ → Option ℕ
hexnib c =
    if leb b'0' c && leb c b'9'
    then some (c - b'0')
    else if leb b'a' c && leb c b'f'
    then some (c - b'a' + 10)
    else if leb b'A' c && leb c b'F'
    then some (c - b'A' + 10)
    else none

-- The byte of two hexadecimal digits.
unfoldable pub hex_byte : ℕ → ℕ → Option ℕ
unfolding hexnib
hex_byte h l = elim (hexnib h) [
  | none ↦ none
  | some x ↦ elim (hexnib l) [ none ↦ none | some y ↦ some (x * 16 + y) ]
]

-- `qs_pct_decode` into `cap` bytes; `room` leaves out the NUL.
unfoldable pub decode_into : ℕ → List ℕ → List ℕ
unfolding hex_byte
decode_into zero s = []
decode_into (suc room) [] = []
decode_into (suc room) (c ∷ []) = c ∷ decode_into room []
decode_into (suc room) (c ∷ h ∷ []) = c ∷ decode_into room (h ∷ [])
decode_into (suc room) (c ∷ h ∷ l ∷ cs) =
    let plain = c ∷ decode_into room (h ∷ l ∷ cs) in
    let escaped = decode_into room cs in
    if c == b'%' then elim (hex_byte h l) [ some b ↦ b ∷ escaped | none ↦ plain ] else plain

-- The C string in the buffer: a decoded NUL ends it.
unfoldable pub qs_pct_decode : ℕ → List ℕ → List ℕ
unfolding decode_into before
qs_pct_decode cap s = before 0 (decode_into (cap - 1) s)

length-before : (b : ℕ) (s : List ℕ) → length (before b s) ≤ length s
unfolding before
length-before b [] = omega arith
length-before b (c ∷ cs) = ground (arith, length-before b cs)

length-decode_into : (room : ℕ) (s : List ℕ) → length (decode_into room s) ≤ room
unfolding decode_into
length-decode_into zero s = omega arith
length-decode_into (suc room) [] = omega arith
length-decode_into (suc room) (c ∷ []) = omega (arith, length-decode_into room [])
length-decode_into (suc room) (c ∷ h ∷ []) = omega (arith, length-decode_into room (h ∷ []))
length-decode_into (suc room) (c ∷ h ∷ l ∷ cs) =
    ground (arith, length-decode_into room (h ∷ l ∷ cs), length-decode_into room cs)

-- A decoded text and its NUL fit the buffer.
pub qs_pct_decode-fits : (cap : ℕ) (s : List ℕ) → 0 < cap → length (qs_pct_decode cap s) < cap
unfolding qs_pct_decode
qs_pct_decode-fits cap s h =
    omega (arith, length-before 0 (decode_into (cap - 1) s), length-decode_into (cap - 1) s)
