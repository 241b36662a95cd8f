-- ===== src/Ground/Granted.antt =====
-- What a request must be to start a switch, and the session that it starts.
use waybeam_wfb_ng.Base.{
  ℕ, zero, suc, ◌≤◌, ◌<◌, ◌≡◌, Bool, true, false, not, ◌||◌, if_cases, Option, none, some, List, [],
  ◌∷◌, length, ltb, leb, ◌==◌, arith,
}
use waybeam_wfb_ng.Base.Int.{ℤ, pos, negsuc, ◌≤ℤ◌, ltb_ℤ}
use waybeam_wfb_ng.Base.Text.{codes}
use waybeam_wfb_ng.Csa.Machine.{has_bw, int_or, to_int32}
use waybeam_wfb_ng.Csa.Json.{strtoll}
use waybeam_wfb_ng.Ground.Query.{
  before, behind_byte, qs_get, qs_get_int, qs_pct_decode, qs_pct_decode-fits, whole_number,
  int_value,
}
use waybeam_wfb_ng.Ground.Decimal.{IsInt32}
use waybeam_wfb_ng.Ground.Types.{Config, has_uplink}
use waybeam_wfb_ng.Ground.Hop.{CsaPhase, csa_idle, CsaState, is_idle}
use waybeam_wfb_ng.Ground.Start.{
  IfaceList, bad_iface, too_many, names, add_name, split_ifaces, text_behind, ifnamsiz, all_known,
  ht_names, Request, clamp_int, prev_ht_of, request_of, start, Checked, refused, granted, check_ht,
  check_ifaces, check_texts, check_request, answer, post_csa,
}

-- The session of a request that passed every check.
pub record IsGranted (c : Config) (r : Request) : Type 0 where
  pub from_1 : pos 1 ≤ℤ r.chan
  pub to_200 : r.chan ≤ℤ pos 200
  pub ht_named : has_bw r.ht ht_names ≡ true
  pub few : (1 ≤ length r.ifaces) × (length r.ifaces ≤ 4)
  pub known : all_known c.tunnels r.ifaces ≡ true
  pub uplink : has_uplink c.venc_cmd_uplink c.tunnels ≡ true
  pub lead : (100 ≤ r.lead_ms) × (r.lead_ms ≤ 5_000)
  pub verify : (500 ≤ r.t_revert_ms) × (r.t_revert_ms ≤ 30_000)
  pub prev_fits : IsInt32 r.prev_chan
  pub prev_short : length r.prev_ht < 8

abbrev Grants : Config → Checked → Type 0
Grants c (refused status) = (400 ≤ status) × (status ≤ 503)
Grants c (granted r) = IsGranted c r

pub clamp_int_bounds :
    (lo hi : ℕ) (v : ℤ) → lo ≤ hi → (lo ≤ clamp_int lo hi v) × (clamp_int lo hi v ≤ hi)
unfolding clamp_int
clamp_int_bounds lo hi (pos n) h = ground arith
clamp_int_bounds lo hi (negsuc n) h = ground arith

prev_ht_of-short : (v : Option (List ℕ)) → length (prev_ht_of v) < 8
unfolding prev_ht_of
prev_ht_of-short none = omega arith
prev_ht_of-short (some v) = ground (arith, qs_pct_decode-fits 8 v (omega arith))

-- `(int)` gives a number of 32 bits.
pub to_int32-IsInt32 : (x : ℤ) → IsInt32 (to_int32 x)
unfolding to_int32
to_int32-IsInt32 x = ground arith

abbrev AllInt32 : Option ℤ → Type 0
AllInt32 none = Unit
AllInt32 (some v) = IsInt32 v

whole_number-IsInt32 : (v : Option (ℤ × List ℕ)) → AllInt32 (whole_number v)
unfolding whole_number
whole_number-IsInt32 none = tt
whole_number-IsInt32 (some (n, [])) = to_int32-IsInt32 n
whole_number-IsInt32 (some (n, c ∷ cs)) = tt

int_value-IsInt32 : (v : Option (List ℕ)) → AllInt32 (int_value v)
unfolding int_value
int_value-IsInt32 none = tt
int_value-IsInt32 (some v) =
    if_cases AllInt32 (length v == 0 || ltb 10 (length v)) (λ _. tt)
      (λ _. whole_number-IsInt32 (strtoll v))

qs_get_int-IsInt32 : (q key : List ℕ) → AllInt32 (qs_get_int q key)
unfolding qs_get_int
qs_get_int-IsInt32 q key = int_value-IsInt32 (qs_get q key)

prev_chan-IsInt32 :
    (chan : ℤ)
    → pos 1 ≤ℤ chan
    → chan ≤ℤ pos 200
    → (v : Option ℤ) → AllInt32 v
    → IsInt32 (int_or v chan)
prev_chan-IsInt32 (pos n) l u none a = omega arith
prev_chan-IsInt32 (negsuc n) l u none a = absurd (omega arith)
prev_chan-IsInt32 chan l u (some v) a = a

abbrev pub count : IfaceList → ℕ
count bad_iface = 0
count too_many = 0
count (names ns) = length ns

count-add_name : (name : List ℕ) (l : IfaceList) → count (add_name name l) ≤ suc (count l)
unfolding add_name
count-add_name name bad_iface = omega arith
count-add_name name too_many = omega arith
count-add_name name (names ns) = omega arith

pub count-split_ifaces : (room : ℕ) (s : List ℕ) → count (split_ifaces room s) ≤ room
unfolding split_ifaces
count-split_ifaces room [] = omega arith
count-split_ifaces zero (c ∷ cs) = omega arith
count-split_ifaces (suc room) (c ∷ cs) =
    let name = before b',' (c ∷ cs) in
    let rest = split_ifaces room (text_behind (behind_byte b',' (c ∷ cs))) in
    if_cases (λ l. count l ≤ suc room) (length name == 0 || leb ifnamsiz (length name))
      (λ _. omega arith)
      (λ _. omega (
        arith,
        count-add_name name rest,
        count-split_ifaces room (text_behind (behind_byte b',' (c ∷ cs))),
      ))

pub holds_then : (b : Bool) → not b ≡ false → b ≡ true
holds_then b h = ground arith

pub nonempty : (n : ℕ) → (n == 0) ≡ false → 1 ≤ n
nonempty n h = ground arith

module _ (c : Config) (q : List ℕ) (chan : ℤ) (l : pos 1 ≤ℤ chan) (u : chan ≤ℤ pos 200) where
  check_ht-Grants :
      (htstr : List ℕ) (ifaces : List (List ℕ))
      → length ifaces ≤ 4
      → Grants c (check_ht c q chan htstr ifaces)
  unfolding check_ht request_of
  check_ht-Grants htstr ifaces few =
      let ht = qs_pct_decode 8 htstr in
      if_cases (Grants c) (length ifaces == 0) (λ _. omega arith)
        λ some_iface.
          if_cases (Grants c) (not (all_known c.tunnels ifaces)) (λ _. omega arith)
            λ known.
              if_cases (Grants c) (not (has_bw ht ht_names)) (λ _. omega arith)
                λ named.
                  if_cases (Grants c) (not (has_uplink c.venc_cmd_uplink c.tunnels))
                    (λ _. omega arith)
                    λ up. record {
                      from_1 = l;
                      to_200 = u;
                      ht_named = holds_then (has_bw ht ht_names) named;
                      few = (nonempty (length ifaces) some_iface, few);
                      known = holds_then (all_known c.tunnels ifaces) known;
                      uplink = holds_then (has_uplink c.venc_cmd_uplink c.tunnels) up;
                      lead =
                          clamp_int_bounds 100 5_000
                            (int_or (qs_get_int q (codes "lead_ms")) (pos 500)) (omega arith);
                      verify =
                          clamp_int_bounds 500 30_000
                            (int_or (qs_get_int q (codes "t_revert_ms")) (pos 3_000)) (omega arith);
                      prev_fits =
                          prev_chan-IsInt32 chan l u (qs_get_int q (codes "prev_chan"))
                            (qs_get_int-IsInt32 q (codes "prev_chan"));
                      prev_short = prev_ht_of-short (qs_get q (codes "prev_ht"));
                    }

  check_ifaces-Grants :
      (htstr : List ℕ) (ifaces : IfaceList)
      → count ifaces ≤ 4
      → Grants c (check_ifaces c q chan htstr ifaces)
  unfolding check_ifaces
  check_ifaces-Grants htstr bad_iface h = omega arith
  check_ifaces-Grants htstr too_many h = omega arith
  check_ifaces-Grants htstr (names ns) h = check_ht-Grants htstr ns h

  check_texts-Grants : (istr htstr : Option (List ℕ)) → Grants c (check_texts c q chan istr htstr)
  unfolding check_texts
  check_texts-Grants none htstr = omega arith
  check_texts-Grants (some istr) none = omega arith
  check_texts-Grants (some istr) (some htstr) =
      if_cases (Grants c) (length istr == 0 || (length htstr == 0 || leb 8 (length htstr)))
        (λ _. omega arith)
        (λ _. check_ifaces-Grants htstr (split_ifaces 4 istr) (count-split_ifaces 4 istr))

pub in_range :
    (chan : ℤ)
    → (ltb_ℤ chan (pos 1) || ltb_ℤ (pos 200) chan) ≡ false
    → (pos 1 ≤ℤ chan) × (chan ≤ℤ pos 200)
in_range chan h = ground arith

module _ (c : Config) (q : List ℕ) where
  check_request-Grants : (chan : Option ℤ) → Grants c (check_request c q chan)
  unfolding check_request
  check_request-Grants none = omega arith
  check_request-Grants (some chan) =
      if_cases (Grants c) (ltb_ℤ chan (pos 1) || ltb_ℤ (pos 200) chan) (λ _. omega arith)
        λ h.
          let bounds = in_range chan h in
          check_texts-Grants c q chan bounds.0 bounds.1 (qs_get q (codes "iface"))
            (qs_get q (codes "ht"))

-- How a request can end.
pub data Posted (c : Config) (t_us : ℕ) (g : CsaState) : CsaState × ℕ → Type 0 where
  turned_away : (status : ℕ) → 400 ≤ status → status ≤ 503 → Posted c t_us g (g, status)
  started :
      (r : Request) → g.phase ≡ csa_idle → IsGranted c r → Posted c t_us g (start r t_us g, 200)

idle_of : (p : CsaPhase) → not (is_idle p) ≡ false → p ≡ csa_idle
idle_of p h = ground arith

module _ (c : Config) (t_us : ℕ) (g : CsaState) where
  answer-Posted :
      (k : Checked) → g.phase ≡ csa_idle → Grants c k → Posted c t_us g (answer k t_us g)
  unfolding answer
  answer-Posted (refused status) i h = turned_away status h.0 h.1
  answer-Posted (granted r) i h = started r i h

  -- A request to switch channels is refused with a status from 400 to 503, and then nothing
  -- changes, or it starts a session. It starts one only when none is under way, on a channel from 1
  -- to 200, with one of the three bandwidths, on one to four interfaces of the tunnels, through an
  -- uplink that exists, with a lead of 100 to 5 000 ms and a verification of 500 to 30 000 ms.
  pub post_csa-Posted :
      (scanning : Bool) (q : List ℕ) → Posted c t_us g (post_csa c scanning q t_us g)
  unfolding post_csa
  post_csa-Posted scanning q =
      if_cases (Posted c t_us g) (not (is_idle g.phase) || scanning)
        (λ _. turned_away 409 (omega arith) (omega arith))
        (λ h.
          answer-Posted (check_request c q (qs_get_int q (codes "chan")))
            (idle_of g.phase (ground arith))
            (check_request-Grants c q (qs_get_int q (codes "chan"))))
