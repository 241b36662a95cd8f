-- ===== src/Mcs/Fuel.antt =====
-- The loop over the antenna list has fuel enough.
use waybeam_wfb_ng.Base.{
  ℕ, zero, suc, ◌≤◌, ◌<◌, ◌≡◌, refl, sym, ap, ◌∙◌, if_cases, inl, inr, Option, Option-cases, none,
  some, List, [], ◌∷◌, length, length-drop, ◌==◌, arith,
}
use waybeam_wfb_ng.Base.Text.{codes, has_prefix}
use waybeam_wfb_ng.Mcs.Antennas.{
  from_byte, from_text, behind_brace, with_rest, entry_behind, next_entry, entry_at, entries, Entry,
}

-- A part of a text that is not empty, if there is one.
abbrev IsPart : ℕ → Option (List ℕ) → Type 0
IsPart n none = Unit
IsPart n (some s) = (0 < length s) × (length s ≤ n)

longer : (n : ℕ) (o : Option (List ℕ)) → IsPart n o → IsPart (suc n) o
longer n none h = tt
longer n (some s) h = (h.0, omega arith)

from_byte-IsPart : (b : ℕ) (s : List ℕ) → IsPart (length s) (from_byte b s)
unfolding from_byte
from_byte-IsPart b [] = tt
from_byte-IsPart b (c ∷ cs) =
    if_cases (IsPart (suc (length cs))) (c == b) (λ _. (omega arith, omega arith))
      (λ _. longer (length cs) (from_byte b cs) (from_byte-IsPart b cs))

from_text-IsPart : (pat s : List ℕ) → IsPart (length s) (from_text pat s)
unfolding from_text
from_text-IsPart pat [] = tt
from_text-IsPart pat (c ∷ cs) =
    if_cases (IsPart (suc (length cs))) (has_prefix pat (c ∷ cs)) (λ _. (omega arith, omega arith))
      (λ _. longer (length cs) (from_text pat cs) (from_text-IsPart pat cs))

behind_brace-shorter :
    (n : ℕ) (o : Option (List ℕ)) → 0 < n → IsPart n o → length (behind_brace o) < n
unfolding behind_brace
behind_brace-shorter n none h a = h
behind_brace-shorter n (some end) h a = omega (arith, length-drop 1 end)

-- Each round leaves less.
abbrev IsShorter : ℕ → Option (Entry × List ℕ) → Type 0
IsShorter n none = Unit
IsShorter n (some (e, rest)) = length rest < n

with_rest-IsShorter :
    (n : ℕ) (r : List ℕ) (o : Option Entry)
    → 0 < length r
    → length r ≤ n
    → IsShorter n (with_rest r o)
unfolding with_rest
with_rest-IsShorter n r none a b = tt
with_rest-IsShorter n r (some e) a b =
    omega (arith, behind_brace-shorter (length r) (from_byte b'}' r) a (from_byte-IsPart b'}' r))

entry_behind-IsShorter :
    (n : ℕ) (p : List ℕ) (o : Option (List ℕ)) → IsPart n o → IsShorter n (entry_behind p o)
unfolding entry_behind
entry_behind-IsShorter n p none a = tt
entry_behind-IsShorter n p (some r) a = with_rest-IsShorter n r (entry_at p r) a.0 a.1

next_entry-IsShorter : (p : List ℕ) → IsShorter (length p) (next_entry p)
unfolding next_entry
next_entry-IsShorter p =
    entry_behind-IsShorter (length p) p (from_text (codes "\"rssi\":") p)
      (from_text-IsPart (codes "\"rssi\":") p)

-- One round of the loop, given what it reads.
abbrev round : ℕ → Option (Entry × List ℕ) → List Entry
round fuel none = []
round fuel (some (e, rest)) = e ∷ entries fuel rest

round_of : (fuel : ℕ) (p : List ℕ) → entries (suc fuel) p ≡ round fuel (next_entry p)
unfolding entries
round_of fuel p = elim (Option-cases (next_entry p)) [
  | inl e ↦ rw (entries, e)
  | inr (x, e) ↦ rw (entries, e)
]

nothing_left : (fuel : ℕ) → entries fuel [] ≡ []
unfolding entries next_entry from_text entry_behind
nothing_left zero = refl
nothing_left (suc fuel) = refl

-- Two rounds with different fuel, if the theorem holds for the texts that are left.
same_round :
    (n m k : ℕ) (o : Option (Entry × List ℕ))
    → ((p : List ℕ) → length p < k → entries n p ≡ entries m p)
    → IsShorter k o
    → round n o ≡ round m o
same_round n m k none same h = refl
same_round n m k (some (e, rest)) same h = ap (λ es. e ∷ es) (same rest h)

-- Given as much fuel as the text has bytes, the loop reads the same entries as with any more: it
-- never stops for want of fuel.
pub entries-fuel : (n m : ℕ) (p : List ℕ) → length p ≤ n → length p ≤ m → entries n p ≡ entries m p
unfolding entries
entries-fuel zero m [] a b = sym (nothing_left m)
entries-fuel zero m (c ∷ cs) a b = absurd (omega arith)
entries-fuel (suc n) zero [] a b = nothing_left (suc n)
entries-fuel (suc n) zero (c ∷ cs) a b = absurd (omega arith)
entries-fuel (suc n) (suc m) p a b =
    round_of n p
    ∙ same_round n m (length p) (next_entry p)
        (λ q h. entries-fuel n m q (omega arith) (omega arith)) (next_entry-IsShorter p)
    ∙ sym (round_of m p)
