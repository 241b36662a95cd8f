-- ===== src/Fec/Bounds.antt =====
-- What the clamps of `fec_compute` guarantee, whatever the floating point does.
use waybeam_wfb_ng.Base.{arith}
use waybeam_wfb_ng.Base.Int.{ℤ, pos, ◌≤ℤ◌, ◌<ℤ◌, +ℤ_parts, -ℤ_parts}
use waybeam_wfb_ng.Base.Floating.{Floating}
use waybeam_wfb_ng.Fec.Types.{FecConfig, FecParams}
use waybeam_wfb_ng.Fec.Sizing.{clamp_k, clamp_n, frame_packets, fec_compute}

-- The bounds of the configuration are in order.
pub record IsOrdered (fp : Floating) (cfg : FecConfig fp) : Type 0 where
  pub k_pos : pos 0 <ℤ cfg.min_k
  pub k_order : cfg.min_k ≤ℤ cfg.max_k
  pub n_order : cfg.min_n ≤ℤ cfg.max_n
  pub room : cfg.min_k <ℤ cfg.max_n

-- A block size that the radio takes: at least one packet of parity, inside the bounds.
pub record IsLegal (fp : Floating) (cfg : FecConfig fp) (p : FecParams fp) : Type 0 where
  pub k_low : cfg.min_k ≤ℤ p.k
  pub k_high : p.k ≤ℤ cfg.max_k
  pub parity : p.k <ℤ p.n
  pub n_low : cfg.min_n ≤ℤ p.n
  pub n_high : p.n ≤ℤ cfg.max_n

module _ (fp : Floating) (cfg : FecConfig fp) where
  clamp_k_bounds :
      (ppf : ℤ)
      → IsOrdered fp cfg
      → (cfg.min_k ≤ℤ clamp_k fp cfg ppf)
        × (clamp_k fp cfg ppf ≤ℤ cfg.max_k)
        × (clamp_k fp cfg ppf <ℤ cfg.max_n)
  unfolding clamp_k
  clamp_k_bounds ppf o = ground (arith, -ℤ_parts cfg.max_n (pos 1))

  clamp_n_bounds :
      (k raw : ℤ)
      → IsOrdered fp cfg
      → k <ℤ cfg.max_n
      → (k <ℤ clamp_n fp cfg k raw)
        × (cfg.min_n ≤ℤ clamp_n fp cfg k raw)
        × (clamp_n fp cfg k raw ≤ℤ cfg.max_n)
  unfolding clamp_n
  clamp_n_bounds k raw o h = ground (arith, +ℤ_parts k (pos 1))

  -- Whatever the frame size, the headroom and the float results, the computed block is legal, if
  -- the configured bounds are in order: parity is never empty and neither k nor n leaves its range.
  pub fec_compute-IsLegal :
      (avg_size headroom : fp.Float) (current_ppf : ℤ)
      → IsOrdered fp cfg
      → IsLegal fp cfg (fec_compute fp avg_size headroom cfg current_ppf)
  unfolding fec_compute
  fec_compute-IsLegal avg_size headroom current_ppf o =
      let ppf : ℤ = frame_packets fp (fp.single.mul avg_size headroom) cfg current_ppf in
      let (a, b, c) = clamp_k_bounds ppf o in
      let (d, e, f) = clamp_n_bounds (clamp_k fp cfg ppf) _ o c in
      record { k_low = a; k_high = b; parity = d; n_low = e; n_high = f }
