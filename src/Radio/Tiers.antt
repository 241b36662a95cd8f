-- ===== src/Radio/Tiers.antt =====
-- What the payload table and `payload_select` guarantee.
use waybeam_wfb_ng.Base.{◌≡◌, ◌↔◌, true, arith, if◌then◌else◌}
use waybeam_wfb_ng.Base.Int.{ℤ, pos, ◌≤ℤ◌, ◌<ℤ◌, ltb_ℤ}
use waybeam_wfb_ng.Base.Floating.{Floating}
use waybeam_wfb_ng.Fec.Types.{FecConfig}
use waybeam_wfb_ng.Radio.Types.{long_max}
use waybeam_wfb_ng.Radio.Rate.{
  tier_for, payload_table_lookup, best_ceiling, payload_safe_bitrate_kbps, payload_select,
}

-- With payload sizing on, a positive target and a ceiling that the encoder takes, the payload is
-- from 576 to 4000 bytes and never above the operator's ceiling, and the clip flag tells exactly
-- whether the table wanted a larger payload.
pub payload_select_bounds :
    (fp : Floating) (cfg : FecConfig fp) (target : ℤ)
    → pos 0 <ℤ target
    → pos 576 ≤ℤ cfg.payload_max
    → (pos 576 ≤ℤ (payload_select cfg target).0)
      × ((payload_select cfg target).0 ≤ℤ pos 4000)
      × ((payload_select cfg target).0 ≤ℤ cfg.payload_max)
      × (((payload_select cfg target).1 ≡ true)
          ↔ ((payload_select cfg target).0 <ℤ payload_table_lookup target))
unfolding payload_select
payload_select_bounds fp cfg target t m = ground arith

-- The ceiling of a payload, tier by tier.
ceiling : ℤ → ℤ
ceiling payload =
    if ltb_ℤ payload (pos 1000)
    then pos 2000
    else if ltb_ℤ payload (pos 1200)
    then pos 4000
    else if ltb_ℤ payload (pos 1400)
    then pos 8000
    else if ltb_ℤ payload (pos 2000)
    then pos 12000
    else if ltb_ℤ payload (pos 2800)
    then pos 18000
    else if ltb_ℤ payload (pos 3200)
    then pos 25000
    else pos long_max

safe-ceiling : (payload : ℤ) → payload_safe_bitrate_kbps payload ≡ ceiling payload
unfolding payload_safe_bitrate_kbps best_ceiling ceiling
safe-ceiling payload = ground arith

-- The two readings of the payload table agree: for a payload of the table's smallest size or more,
-- and bitrates below LONG_MAX, the table asks for at most that payload exactly at the bitrates below
-- the payload's ceiling.
pub payload_table_galois :
    (payload kbps : ℤ)
    → pos 800 ≤ℤ payload
    → kbps <ℤ pos long_max
    → (payload_table_lookup kbps ≤ℤ payload) ↔ (kbps <ℤ payload_safe_bitrate_kbps payload)
unfolding payload_table_lookup tier_for ceiling
payload_table_galois payload kbps h k = rw (safe-ceiling payload) (ground arith)
