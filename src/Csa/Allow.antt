-- ===== src/Csa/Allow.antt =====
-- The parsers of the allowlists of vehicle/csa/csa.c: `csa_parse_chan_list` and `csa_parse_bw_list`.
-- The loop counter is the room left in the output array, so no fuel is needed; `none` is -1.
use waybeam_wfb_ng.Base.{
  ℕ, zero, suc, ◌≤◌, ◌<◌, ◌≡◌, ◌≢◌, refl, Bool, true, false, ◌||◌, Option, none, some, List, [],
  ◌∷◌, length, reverse, leb, ◌==◌, arith, if◌then◌else◌, Bool-cases, inl, inr,
}
use waybeam_wfb_ng.Base.Int.{ℤ, pos, ◌≤ℤ◌, ltb_ℤ}
use waybeam_wfb_ng.Base.Text.{skip_spaces}
use waybeam_wfb_ng.Csa.Json.{strtoll, begins, drop_bytes}

abbrev pub is_empty {ℓ} : {A : Type ℓ} → List A → Bool
is_empty [] = true
is_empty (x ∷ xs) = false

abbrev pub push_front {ℓ} : {A : Type ℓ} → A → Option (List A) → Option (List A)
push_front x none = none
push_front x (some xs) = some (x ∷ xs)

-- What one round of the channel loop reads, and where it stands after the comma.
unfoldable pub next_chan : List ℕ → Option (ℤ × List ℕ)
unfolding strtoll skip_spaces begins drop_bytes
next_chan p = elim (strtoll (skip_spaces p)) [
  | none ↦ none
  | some (c, rest) ↦
      let q = skip_spaces rest in
      if ltb_ℤ c (pos 1) || ltb_ℤ (pos 200) c
      then none
      else if begins b',' q
      then some (c, drop_bytes 1 q)
      else if is_empty q
      then some (c, q)
      else none
]

unfoldable pub parse_chan_list : ℕ → List ℕ → Option (List ℤ)
unfolding next_chan
parse_chan_list zero p = some []
parse_chan_list (suc room) [] = some []
parse_chan_list (suc room) (b ∷ bs) = elim (next_chan (b ∷ bs)) [
  | none ↦ none
  | some (c, rest) ↦ push_front c (parse_chan_list room rest)
]

-- The bytes before the next comma, and what follows from it on.
unfoldable pub before_comma : List ℕ → List ℕ × List ℕ
before_comma [] = ([], [])
before_comma (c ∷ cs) =
    let (token, rest) = before_comma cs in if c == b',' then ([], c ∷ cs) else (c ∷ token, rest)

unfoldable pub trim_end : List ℕ → List ℕ
unfolding skip_spaces
trim_end s = reverse (skip_spaces (reverse s))

unfoldable pub parse_bw_list : ℕ → List ℕ → Option (List (List ℕ))
unfolding before_comma trim_end skip_spaces drop_bytes
parse_bw_list zero p = some []
parse_bw_list (suc room) [] = some []
parse_bw_list (suc room) (b ∷ bs) =
    let (token, rest) = before_comma (skip_spaces (b ∷ bs)) in
    let name = trim_end token in
    let more = push_front name (parse_bw_list room (drop_bytes 1 rest)) in
    if is_empty name || leb 8 (length name) then none else more

abbrev pub AllChans : List ℤ → Type 0
AllChans [] = Unit {0}
AllChans (c ∷ cs) = (pos 1 ≤ℤ c) × (c ≤ℤ pos 200) × AllChans cs

abbrev pub AllNames : List (List ℕ) → Type 0
AllNames [] = Unit {0}
AllNames (n ∷ ns) = (0 < length n) × (length n < 8) × AllNames ns

push_front-some {ℓ} :
    {A : Type ℓ} (x : A) (r : Option (List A)) {ys : List A}
    → push_front x r ≡ some ys
    → (xs : List A) × (r ≡ some xs) × (ys ≡ x ∷ xs)
push_front-some x none h = cc
push_front-some x (some xs) h = (xs, refl, cc)

none≢some {ℓ} : {A : Type ℓ} {x : A} → none ≢ some x
none≢some e = cc

name_fits :
    (n : List ℕ) → (is_empty n || leb 8 (length n)) ≡ false → (0 < length n) × (length n < 8)
name_fits [] h = cc
name_fits (c ∷ cs) h = ground arith

next_chan_range :
    (p : List ℕ) {c : ℤ} {rest : List ℕ}
    → next_chan p ≡ some (c, rest)
    → (pos 1 ≤ℤ c) × (c ≤ℤ pos 200)
unfolding next_chan
next_chan_range p h = ground arith

-- An accepted channel list fits the output array and holds channels from 1 to 200 only.
pub parse_chan_list_bounds :
    (room : ℕ) (p : List ℕ) {cs : List ℤ}
    → parse_chan_list room p ≡ some cs
    → (length cs ≤ room) × AllChans cs
unfolding parse_chan_list
parse_chan_list_bounds zero p h = ground arith
parse_chan_list_bounds (suc room) [] h = ground arith
parse_chan_list_bounds (suc room) (b ∷ bs) {cs} h =
    go (λ rest xs p. parse_chan_list_bounds room rest p) (next_chan (b ∷ bs)) refl h
  where
    go :
        ((rest : List ℕ) (xs : List ℤ)
          → parse_chan_list room rest ≡ some xs
          → (length xs ≤ room) × AllChans xs)
        → (o : Option (ℤ × List ℕ)) → next_chan (b ∷ bs) ≡ o
        → elim o [ none ↦ none | some (c, rest) ↦ push_front c (parse_chan_list room rest) ]
          ≡ some cs
        → (length cs ≤ suc room) × AllChans cs
    go ih none e k = cc
    go ih (some (c, rest)) e k =
        let (xs, parsed, built) = push_front-some c (parse_chan_list room rest) k in
        let (short, inside) = ih rest xs parsed in
        let (low, high) = next_chan_range (b ∷ bs) e in rw built (omega arith, (low, high, inside))

-- An accepted bandwidth list fits the output array, and each name fits its entry with the NUL.
pub parse_bw_list_bounds :
    (room : ℕ) (p : List ℕ) {ns : List (List ℕ)}
    → parse_bw_list room p ≡ some ns
    → (length ns ≤ room) × AllNames ns
unfolding parse_bw_list
parse_bw_list_bounds zero p h = ground arith
parse_bw_list_bounds (suc room) [] h = ground arith
parse_bw_list_bounds (suc room) (b ∷ bs) h =
    let token : List ℕ × List ℕ = before_comma (skip_spaces (b ∷ bs)) in
    let name : List ℕ = trim_end token.0 in
    elim (Bool-cases (is_empty name || leb 8 (length name))) [
      | inl bad ↦ absurd (none≢some (rw bad at h))
      | inr good ↦
          let (xs, parsed, built) =
            push_front-some name (parse_bw_list room (drop_bytes 1 token.1)) (rw good at h) in
          let (short, fit) = parse_bw_list_bounds room (drop_bytes 1 token.1) parsed in
          let (low, high) = name_fits name good in rw built (omega arith, (low, high, fit))
    ]
