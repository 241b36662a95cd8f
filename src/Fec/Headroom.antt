-- ===== src/Fec/Headroom.antt =====
-- `ring_push`, `ring_expire` and `compute_headroom` of vehicle/link_controller.c.
use waybeam_wfb_ng.Base.{ℕ, zero, suc, ◌+◌, ◌%◌, List, get_or, set, ltb, leb, if◌then◌else◌}
use waybeam_wfb_ng.Base.Int.{pos}
use waybeam_wfb_ng.Base.Word.{add64}
use waybeam_wfb_ng.Base.Floating.{Floating}
use waybeam_wfb_ng.Base.Ring.{back_index}
use waybeam_wfb_ng.Fec.Types.{HeadroomRing, ring_max}

unfoldable pub ring_push : ℕ → ℕ → HeadroomRing → HeadroomRing
ring_push ts sz r = record {
  ts_us = set r.ts_us r.head ts;
  size = set r.size r.head sz;
  head = (r.head + 1) % ring_max;
  count = if ltb r.count ring_max then r.count + 1 else r.count;
}

-- The loop of `ring_expire`, from a count to the count that it stops at.
unfoldable pub expire_count : List ℕ → ℕ → ℕ → ℕ → ℕ
expire_count ts head cutoff zero = zero
expire_count ts head cutoff (suc n) =
    let rest = expire_count ts head cutoff n in
    if leb cutoff (get_or ts (back_index ring_max head (suc n)) 0) then suc n else rest

unfoldable pub ring_expire : ℕ → HeadroomRing → HeadroomRing
unfolding expire_count
ring_expire cutoff r = record r { count = expire_count r.ts_us r.head cutoff r.count }

-- The loop of `compute_headroom`, newest frame first: `left` rounds from round `i`, with the sum so
-- far and the largest size so far.
unfoldable pub scan_sizes : List ℕ → ℕ → ℕ → ℕ → ℕ → ℕ → ℕ × ℕ
scan_sizes sizes head zero i sum mx = (sum, mx)
scan_sizes sizes head (suc left) i sum mx =
    let v = get_or sizes (back_index ring_max head (i + 1)) 0 in
    scan_sizes sizes head left (i + 1) (add64 sum v) (if ltb mx v then v else mx)

module _ (fp : Floating) where
  open fp use {Float, single}
  open single use {div, mul, lt, le, of_int, lit}

  -- The two clamps at the end of `compute_headroom`.
  unfoldable pub clamp_ratio : Float → Float → Float → Float
  clamp_ratio ratio lo hi =
      let raised = if lt ratio lo then lo else ratio in if lt hi raised then hi else raised

  unfoldable pub compute_headroom : HeadroomRing → Float → Float → Float → Float
  unfolding scan_sizes clamp_ratio
  compute_headroom r margin lo hi =
      let (sum, mx) = scan_sizes r.size r.head r.count 0 0 0 in
      let avg = div (of_int (pos sum)) (of_int (pos r.count)) in
      if ltb r.count 2
      then lo
      else if le avg (lit 0 0)
      then lo
      else clamp_ratio (mul (div (of_int (pos mx)) avg) margin) lo hi
