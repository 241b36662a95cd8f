-- ===== src/Ground/ScanSteps.antt =====
-- The steps of a scan, as ground/gs_supervisor_http.c reads them from the query.
use waybeam_wfb_ng.Base.{
  ℕ, zero, suc, ◌≤◌, ◌≡◌, refl, ap, true, ◌&&◌, ◌||◌, and_left, and_right, if_cases, Option, none,
  some, List, [], ◌∷◌, length, drop, length-replicate, replicate, ltb, ◌==◌, arith,
}
use waybeam_wfb_ng.Base.Int.{ℤ, pos, ◌≤ℤ◌, ltb_ℤ}
use waybeam_wfb_ng.Base.Text.{codes}
use waybeam_wfb_ng.Csa.Json.{strtoll}
use waybeam_wfb_ng.Csa.Machine.{has_bw, to_int32}
use waybeam_wfb_ng.Csa.Vetted.{to_int32_small}
use waybeam_wfb_ng.Ground.Query.{qs_pct_decode}
use waybeam_wfb_ng.Ground.Start.{ht_names}
use waybeam_wfb_ng.Ground.Granted.{in_range}
use waybeam_wfb_ng.Ground.ScanStart.{
  scan_max_steps, chan_token, chan_number, add_chan, scan_chans, scan_hts, spread, single_ht,
  step_hts, all_named, pair_steps,
}

abbrev pub InRange : ℤ → Type 0
InRange chan = (pos 1 ≤ℤ chan) × (chan ≤ℤ pos 200)

-- Every step is a channel from 1 to 200 with one of the three bandwidths.
unfoldable pub AllSteps : List (ℤ × List ℕ) → Type 0
AllSteps [] = Unit
AllSteps ((chan, ht) ∷ steps) =
    ((pos 1 ≤ℤ chan) × (chan ≤ℤ pos 200) × (has_bw ht ht_names ≡ true)) × AllSteps steps

unfoldable pub AllRange : List ℤ → Type 0
AllRange [] = Unit
AllRange (chan ∷ chans) = InRange chan × AllRange chans

-- At most `room` channels, all in range.
pub data Chans (room : ℕ) : Option (List ℤ) → Type 0 where
  no_chans : Chans room none
  some_chans : (chans : List ℤ) → length chans ≤ room → AllRange chans → Chans room (some chans)

data AllIn : Option ℤ → Type 0 where
  no_chan : AllIn none
  a_chan : (chan : ℤ) → InRange chan → AllIn (some chan)

small-InRange : (n : ℤ) → InRange n → InRange (to_int32 n)
small-InRange n h = rw (to_int32_small n h.0 h.1) h

chan_number-AllIn : (o : Option (ℤ × List ℕ)) → AllIn (chan_number o)
unfolding chan_number
chan_number-AllIn none = no_chan
chan_number-AllIn (some (n, rest)) =
    if_cases AllIn (ltb_ℤ n (pos 1) || ltb_ℤ (pos 200) n) (λ _. no_chan)
      (λ h. a_chan (to_int32 n) (small-InRange n (in_range n h)))

add_chan-Chans :
    (room : ℕ) (o : Option ℤ) (p : Option (List ℤ))
    → AllIn o
    → Chans room p
    → Chans (suc room) (add_chan o p)
unfolding add_chan AllRange
add_chan-Chans room none p i c = no_chans
add_chan-Chans room (some chan) none i c = no_chans
add_chan-Chans room (some _) (some _) (a_chan chan i) (some_chans chans l r) =
    some_chans (chan ∷ chans) (omega arith) (i, r)

pub scan_chans-Chans : (room : ℕ) (s : List ℕ) → Chans room (scan_chans room s)
unfolding scan_chans AllRange
scan_chans-Chans room [] = some_chans [] (omega arith) tt
scan_chans-Chans zero (c ∷ cs) = no_chans
scan_chans-Chans (suc room) (c ∷ cs) =
    let cut = chan_token 7 (c ∷ cs) in
    if_cases (Chans (suc room)) (length cut.0 == 0) (λ _. no_chans)
      (λ _.
        add_chan-Chans room (chan_number (strtoll cut.0)) (scan_chans room (drop 1 cut.1))
          (chan_number-AllIn (strtoll cut.0)) (scan_chans-Chans room (drop 1 cut.1)))

-- One bandwidth for every step.
pub data Hts (n : ℕ) : Option (List (List ℕ)) → Type 0 where
  no_hts : Hts n none
  some_hts : (hts : List (List ℕ)) → length hts ≡ n → Hts n (some hts)

spread-Hts : (n : ℕ) (o : Option (List (List ℕ))) → Hts n (spread n o)
unfolding spread
spread-Hts n none = no_hts
spread-Hts n (some []) = if_cases (Hts n) (0 == n) (λ h. some_hts [] (ground arith)) (λ _. no_hts)
spread-Hts n (some (ht ∷ [])) = some_hts (replicate n ht) (length-replicate n ht)
spread-Hts n (some (a ∷ b ∷ hts)) =
    if_cases (Hts n) (suc (suc (length hts)) == n) (λ h. some_hts (a ∷ b ∷ hts) (ground arith))
      (λ _. no_hts)

length-single_ht : (n : ℕ) (o : Option (List ℕ)) → length (single_ht n o) ≡ n
unfolding single_ht
length-single_ht n none = length-replicate n (codes "HT20")
length-single_ht n (some ht) =
    if_cases (λ (hts : List (List ℕ)). length hts ≡ n) (ltb 0 (length ht) && ltb (length ht) 8)
      (λ _. length-replicate n (qs_pct_decode 8 ht)) (λ _. length-replicate n (codes "HT20"))

pub step_hts-Hts : (n : ℕ) (hts ht : Option (List ℕ)) → Hts n (step_hts n hts ht)
unfolding step_hts
step_hts-Hts n none ht = some_hts (single_ht n ht) (length-single_ht n ht)
step_hts-Hts n (some []) ht = some_hts (single_ht n ht) (length-single_ht n ht)
step_hts-Hts n (some (h ∷ hs)) ht = spread-Hts n (scan_hts scan_max_steps (h ∷ hs))

-- The steps of channels in range with named bandwidths.
pub pair_steps-AllSteps :
    (chans : List ℤ) (hts : List (List ℕ))
    → AllRange chans
    → all_named hts ≡ true
    → AllSteps (pair_steps chans hts)
unfolding pair_steps AllRange all_named AllSteps
pair_steps-AllSteps [] hts r n = tt
pair_steps-AllSteps (chan ∷ chans) [] r n = tt
pair_steps-AllSteps (chan ∷ chans) (ht ∷ hts) r n = (
  (r.0.0, r.0.1, and_left (has_bw ht ht_names) (all_named hts) n),
  pair_steps-AllSteps chans hts r.1 (and_right (has_bw ht ht_names) (all_named hts) n),
)

pub length-pair_steps :
    (chans : List ℤ) (hts : List (List ℕ))
    → length hts ≡ length chans
    → length (pair_steps chans hts) ≡ length chans
unfolding pair_steps
length-pair_steps [] hts e = refl
length-pair_steps (chan ∷ chans) [] e = absurd (omega arith)
length-pair_steps (chan ∷ chans) (ht ∷ hts) e = ap suc (length-pair_steps chans hts (omega arith))
