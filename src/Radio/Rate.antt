-- ===== src/Radio/Rate.antt =====
-- `phy_mbps`, the payload table, and the two ceilings of the bitrate, of vehicle/link_controller.c.
use waybeam_wfb_ng.Base.{ℕ, Bool, false, not, ◌&&◌, ◌||◌, List, [], ◌∷◌, get_or, if◌then◌else◌}
use waybeam_wfb_ng.Base.Int.{ℤ, pos, negsuc, pos_part, ltb_ℤ, leb_ℤ, eqb_ℤ}
use waybeam_wfb_ng.Base.Floating.{Floating}
use waybeam_wfb_ng.Fec.Types.{FecConfig}
use waybeam_wfb_ng.Radio.Types.{PayloadTier, payload_table}

-- The rates in tenths of Mbit/s.
abbrev pub ht_20l : List ℕ
ht_20l = 65 ∷ 130 ∷ 195 ∷ 260 ∷ 390 ∷ 520 ∷ 585 ∷ 650 ∷ []

abbrev pub vht_20l_ext : List ℕ
vht_20l_ext = 65 ∷ 130 ∷ 195 ∷ 260 ∷ 390 ∷ 520 ∷ 585 ∷ 650 ∷ 780 ∷ 867 ∷ []

-- An int as a C condition.
abbrev pub holds : ℤ → Bool
holds x = not (eqb_ℤ x (pos 0))

-- The loop of `payload_table_lookup`; past the table it returns the last tier's payload.
unfoldable pub tier_for : List PayloadTier → ℤ → ℤ
tier_for [] kbps = pos 3200
tier_for (t ∷ ts) kbps =
    let rest = tier_for ts kbps in if ltb_ℤ kbps t.bitrate_lt_kbps then t.payload_bytes else rest

unfoldable pub payload_table_lookup : ℤ → ℤ
unfolding tier_for
payload_table_lookup kbps = tier_for payload_table kbps

-- The loop of `payload_safe_bitrate_kbps`, with the best ceiling so far.
unfoldable pub best_ceiling : List PayloadTier → ℤ → ℤ → ℤ
best_ceiling [] payload best = best
best_ceiling (t ∷ ts) payload best = best_ceiling ts payload (
    if leb_ℤ t.payload_bytes payload && ltb_ℤ best t.bitrate_lt_kbps
    then t.bitrate_lt_kbps
    else best)

unfoldable pub payload_safe_bitrate_kbps : ℤ → ℤ
unfolding best_ceiling
payload_safe_bitrate_kbps payload =
    let best = best_ceiling payload_table payload (negsuc 0) in
    if ltb_ℤ best (pos 0) then pos 2000 else best

-- The payload, and whether the ceiling cut the table's choice.
unfoldable pub payload_select : {fp : Floating} → FecConfig fp → ℤ → ℤ × Bool
payload_select cfg target =
    let max_cut = if ltb_ℤ (pos 4000) cfg.payload_max then pos 4000 else cfg.payload_max in
    let max_p = if ltb_ℤ max_cut (pos 576) then pos 576 else max_cut in
    let min_up = if ltb_ℤ cfg.payload_min (pos 576) then pos 576 else cfg.payload_min in
    let min_cut = if ltb_ℤ (pos 4000) min_up then pos 4000 else min_up in
    let min_p = if ltb_ℤ max_p min_cut then max_p else min_cut in
    let pick = payload_table_lookup target in
    let result = if ltb_ℤ max_p pick then max_p else pick in
    if leb_ℤ cfg.payload_max (pos 0)
    then (pos 0, false)
    else if leb_ℤ target (pos 0)
    then (pos 0, false)
    else (if ltb_ℤ result min_p then min_p else result, ltb_ℤ max_p pick)

module _ (fp : Floating) where
  open fp use {Float, single, double}

  unfoldable pub bw_scale : ℤ → Float
  bw_scale bw =
      if eqb_ℤ bw (pos 40)
      then single.lit 21 1
      else if eqb_ℤ bw (pos 80)
      then single.lit 45 1
      else if eqb_ℤ bw (pos 160)
      then single.lit 90 1
      else single.lit 10 1

  unfoldable pub phy_mbps : ℤ → ℤ → ℤ → ℤ → ℤ → Float
  phy_mbps mcs bw_mhz short_gi vht_mode vht_nss =
      let vht = holds vht_mode in
      let idx_max = if vht then pos 9 else pos 7 in
      let raised = if ltb_ℤ mcs (pos 0) then pos 0 else mcs in
      let idx = if ltb_ℤ idx_max raised then idx_max else raised in
      let base = single.lit (get_or (if vht then vht_20l_ext else ht_20l) (pos_part idx) 0) 1 in
      let gi_scale =
        if holds short_gi
        then single.div (single.lit 100 1) (single.lit 90 1)
        else single.lit 10 1 in
      let nss = if vht && ltb_ℤ (pos 0) vht_nss then vht_nss else pos 1 in
      single.mul (single.mul (single.mul base (bw_scale bw_mhz)) gi_scale) (single.of_int nss)

  -- The on-air seconds for one bit per second of target bitrate.
  unfoldable pub airtime_cost : Float → ℤ → ℤ → ℤ → ℤ → fp.Double
  airtime_cost phy payload k n preamble_us =
      let r = double.div (double.of_int n) (double.of_int k) in
      let phy_bps = double.mul (fp.widen phy) (double.lit 1_000_000 0) in
      let t_pre = double.mul (double.of_int preamble_us) (double.lit 1 6) in
      double.mul r (
        double.add (double.div (double.lit 1 0) phy_bps)
          (double.div t_pre (double.mul (double.lit 8 0) (double.of_int payload))))

  unfoldable pub airtime_safe_bitrate_kbps : Float → ℤ → ℤ → ℤ → ℤ → ℤ → ℤ
  airtime_safe_bitrate_kbps phy payload k n airtime_max_pct preamble_us =
      let cost =
        airtime_cost phy (if ltb_ℤ payload (pos 1) then pos 1400 else payload) k n preamble_us in
      let share = double.div (double.of_int airtime_max_pct) (double.lit 100 0) in
      let kbps = double.to_int (double.div (double.div share cost) (double.lit 1000 0)) in
      if leb_ℤ airtime_max_pct (pos 0)
      then negsuc 0
      else if single.le phy (single.lit 0 0) || leb_ℤ k (pos 0) || leb_ℤ n (pos 0)
      then negsuc 0
      else if double.le cost (double.lit 0 0)
      then negsuc 0
      else if ltb_ℤ (pos 0) kbps
      then kbps
      else pos 1
