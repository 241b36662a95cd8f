-- ===== src/Fec/Sizing.antt =====
-- The redundancy curve and `fec_compute` of vehicle/link_controller.c.
use waybeam_wfb_ng.Base.{ℕ, ◌&&◌, List, [], ◌∷◌, if◌then◌else◌}
use waybeam_wfb_ng.Base.Int.{ℤ, pos, ◌+ℤ◌, ◌-ℤ◌, ltb_ℤ, leb_ℤ}
use waybeam_wfb_ng.Base.Floating.{Floating}
use waybeam_wfb_ng.Fec.Types.{FecConfig, FecParams}

-- `REDUNDANCY_CURVE`: a block size k, and the redundancy there in hundredths.
pub record RedundancyPoint : Type 0 where
  pub k : ℤ
  pub percent : ℕ

abbrev pub point : ℕ → ℕ → RedundancyPoint
point k percent = record { k = pos k; percent = percent }

abbrev pub redundancy_curve : List RedundancyPoint
redundancy_curve =
    point 1 50 ∷ point 4 33 ∷ point 8 33 ∷ point 16 30 ∷ point 32 27 ∷ point 48 25 ∷ []

module _ (fp : Floating) where
  open fp use {Float, single}
  open single use {add, sub, mul, div, lt, of_int, lit, ceil, to_int}

  -- The loop over the segments of the curve, with the fallback behind it.
  unfoldable pub interpolate_from : List RedundancyPoint → ℤ → Float
  interpolate_from [] k = lit 25 2
  interpolate_from (p ∷ []) k = lit 25 2
  interpolate_from (p ∷ q ∷ rest) k =
      let onward = interpolate_from (q ∷ rest) k in
      let t = div (of_int (k -ℤ p.k)) (of_int (q.k -ℤ p.k)) in
      if leb_ℤ p.k k && leb_ℤ k q.k
      then add (lit p.percent 2) (mul t (sub (lit q.percent 2) (lit p.percent 2)))
      else onward

  unfoldable pub interpolate_redundancy : ℤ → Float
  unfolding interpolate_from
  interpolate_redundancy k =
      if leb_ℤ k (pos 1)
      then lit 50 2
      else if leb_ℤ (pos 48) k
      then lit 25 2
      else interpolate_from redundancy_curve k

  -- Packets per frame: the deadband keeps the current count near its edges.
  unfoldable pub frame_packets : Float → FecConfig fp → ℤ → ℤ
  frame_packets target cfg current_ppf =
      let mtu = of_int cfg.mtu in
      let raw = to_int (ceil (div target mtu)) in
      let ppf = if ltb_ℤ raw (pos 1) then pos 1 else raw in
      let slack = mul mtu cfg.ppf_deadband_frac in
      let up_edge = add (mul (of_int (current_ppf +ℤ pos 1)) mtu) slack in
      let down_edge = sub (mul (of_int (current_ppf -ℤ pos 1)) mtu) slack in
      if ltb_ℤ (pos 0) current_ppf && lt (lit 0 0) cfg.ppf_deadband_frac
      then (if ltb_ℤ current_ppf ppf && lt target up_edge
          then current_ppf
          else if ltb_ℤ ppf current_ppf && lt down_edge target
          then current_ppf
          else ppf)
      else ppf

  -- The clamps of k: to [min_k, max_k], then strictly below max_n.
  unfoldable pub clamp_k : FecConfig fp → ℤ → ℤ
  clamp_k cfg ppf =
      let raised = if ltb_ℤ ppf cfg.min_k then cfg.min_k else ppf in
      let lowered = if ltb_ℤ cfg.max_k raised then cfg.max_k else raised in
      if ltb_ℤ cfg.min_k cfg.max_n && leb_ℤ cfg.max_n lowered then cfg.max_n -ℤ pos 1 else lowered

  -- The clamps of n: to [min_n, max_n], then above k.
  unfoldable pub clamp_n : FecConfig fp → ℤ → ℤ → ℤ
  clamp_n cfg k raw =
      let raised = if ltb_ℤ raw cfg.min_n then cfg.min_n else raw in
      let lowered = if ltb_ℤ cfg.max_n raised then cfg.max_n else raised in
      if leb_ℤ lowered k then k +ℤ pos 1 else lowered

  unfoldable pub fec_compute : Float → Float → FecConfig fp → ℤ → FecParams fp
  fec_compute avg_size headroom cfg current_ppf =
      let ppf = frame_packets (mul avg_size headroom) cfg current_ppf in
      let k = clamp_k cfg ppf in
      let curve = interpolate_redundancy k in
      let r = if lt (lit 99 2) curve then lit 99 2 else curve in
      record {
        k = k;
        n = clamp_n cfg k (to_int (ceil (div (of_int k) (sub (lit 1 0) r))));
        redundancy = r;
        packets_per_frame = ppf;
        avg_frame_size = avg_size;
        headroom = headroom;
      }
