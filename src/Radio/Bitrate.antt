-- ===== src/Radio/Bitrate.antt =====
-- `venc_apply` and `bitrate_assert` of vehicle/link_controller.c. The encoder's answer to a request
-- is a parameter, `venc`: true for a body that holds "ok":true.
use waybeam_wfb_ng.Base.{
  ℕ, Bool, false, not, ◌&&◌, ◌||◌, Option, none, some, ltb, ◌==◌, if◌then◌else◌,
}
use waybeam_wfb_ng.Base.Int.{ℤ, pos, negsuc, ◌-ℤ◌, ltb_ℤ, eqb_ℤ}
use waybeam_wfb_ng.Base.Floating.{Floating}
use waybeam_wfb_ng.Fec.Types.{Controller}
use waybeam_wfb_ng.Fec.Controller.{arm_settle}
use waybeam_wfb_ng.Radio.Types.{LinkConfig, RadioState, Link, VencWrite}
use waybeam_wfb_ng.Radio.Rate.{payload_select, payload_safe_bitrate_kbps, airtime_safe_bitrate_kbps}

-- The request that `venc_apply` makes, if any.
unfoldable pub venc_request : ℤ → ℤ → Option VencWrite
venc_request kbps payload =
    let sent = if ltb_ℤ (pos 200_000) kbps then pos 200_000 else kbps in
    if ltb_ℤ (pos 0) kbps && ltb_ℤ (pos 0) payload
    then some (record { bitrate = some sent; payload = some payload })
    else if ltb_ℤ (pos 0) kbps
    then some (record { bitrate = some sent; payload = none })
    else if ltb_ℤ (pos 0) payload
    then some (record { bitrate = none; payload = some payload })
    else none

-- `venc_apply(...) == 0`
unfoldable pub venc_accepts : (VencWrite → Bool) → Option VencWrite → Bool
venc_accepts venc none = false
venc_accepts venc (some w) = venc w

-- The target of one call.
pub record Target : Type 0 where
  pub kbps : ℤ
  pub payload : ℤ

-- What a call leaves, and the request that it made.
pub record Asserted (fp : Floating) : Type 0 where
  pub link : Link fp
  pub sent : Option VencWrite

module _ (fp : Floating) (cfg : LinkConfig fp) (radio : RadioState fp) where
  open fp use {Float, single, double}

  -- What the radio carries behind the FEC, in the operator's bounds.
  unfoldable pub natural_target : Controller fp → ℤ
  natural_target ctrl =
      let k = single.of_int ctrl.current.k in
      let n = single.of_int ctrl.current.n in
      let post_fec = single.mul (single.mul radio.phy_mbps (single.lit 1000 0)) (single.div k n) in
      let safe = single.to_int (single.mul post_fec cfg.fec.safety_margin) in
      let cut =
        if ltb_ℤ (pos 0) cfg.fec.bitrate_max_kbps && ltb_ℤ cfg.fec.bitrate_max_kbps safe
        then cfg.fec.bitrate_max_kbps
        else safe in
      if ltb_ℤ cut cfg.fec.bitrate_min_kbps then cfg.fec.bitrate_min_kbps else cut

  -- The payload, and the cap of the bitrate when the payload ceiling cut it.
  unfoldable pub pps_capped : ℤ → Target
  pps_capped target =
      let (payload, clipped) = payload_select cfg.fec target in
      let safe = payload_safe_bitrate_kbps payload in
      let capped = if ltb_ℤ safe cfg.fec.bitrate_min_kbps then cfg.fec.bitrate_min_kbps else safe in
      if ltb_ℤ (pos 0) cfg.fec.payload_max
      then (if clipped && ltb_ℤ (pos 0) payload && ltb_ℤ (pos 0) safe && ltb_ℤ safe target
          then record { kbps = capped; payload = payload }
          else record { kbps = target; payload = payload })
      else record { kbps = target; payload = pos 0 }

  unfoldable pub airtime_cap : Controller fp → ℤ → ℤ
  airtime_cap ctrl payload =
      airtime_safe_bitrate_kbps fp radio.phy_mbps payload ctrl.current.k ctrl.current.n
        cfg.fec.airtime_max_pct cfg.fec.airtime_preamble_us

  unfoldable pub airtime_capped : Controller fp → Target → Target
  airtime_capped ctrl t =
      let cap = airtime_cap ctrl t.payload in
      if ltb_ℤ (pos 0) cfg.fec.airtime_max_pct && ltb_ℤ (pos 0) cap && ltb_ℤ cap t.kbps
      then record t { kbps = cap }
      else t

  unfoldable pub target_of : Controller fp → Target
  target_of ctrl = airtime_capped ctrl (pps_capped (natural_target ctrl))

  -- The bitrate has left the tolerance band around the target, or was never written.
  unfoldable pub bitrate_moved : ℤ → ℤ → Bool
  bitrate_moved last target =
      let base = if ltb_ℤ (pos 0) last then last else pos 0 in
      let dev = base -ℤ target in
      let adev = if ltb_ℤ dev (pos 0) then pos 0 -ℤ dev else dev in
      let band =
        double.to_int (double.mul (double.of_int target) (fp.widen cfg.fec.bitrate_tolerance)) in
      let tol = if ltb_ℤ band (pos 1) then pos 1 else band in ltb_ℤ last (pos 0) || ltb_ℤ tol adev

  unfoldable pub up_locked : ℕ → Controller fp → Bool
  up_locked now ctrl =
      not (ctrl.bitrate_up_lock_until_us == 0) && ltb now ctrl.bitrate_up_lock_until_us

  unfoldable pub would_increase : ℤ → ℤ → Bool
  would_increase last target = ltb_ℤ (pos 0) last && ltb_ℤ last target

  unfoldable pub must_write : ℕ → Link fp → ℤ → Bool
  must_write now l target =
      bitrate_moved l.last_written_kbps target
      && not (would_increase l.last_written_kbps target && up_locked now l.ctrl)

  -- The payload argument: -1 leaves the field out.
  unfoldable pub payload_arg : Link fp → Target → ℤ
  payload_arg l t =
      if ltb_ℤ (pos 0) t.payload && not (eqb_ℤ t.payload l.last_written_payload)
      then t.payload
      else negsuc 0

  -- The values written, remembered.
  unfoldable pub remember : Target → Link fp → Link fp
  remember t l = record l {
    last_written_kbps = t.kbps;
    last_written_payload =
        if ltb_ℤ (pos 0) (payload_arg l t) then t.payload else l.last_written_payload;
  }

  -- The settle window behind a write, kept or refused.
  unfoldable pub write_grace : ℕ → Link fp → Link fp
  write_grace now l =
      if single.lt (single.lit 0 0) cfg.fec.bitrate_grace_s
      then record l { ctrl = arm_settle fp now cfg.fec.bitrate_grace_s l.ctrl }
      else l

  unfoldable pub write : (VencWrite → Bool) → ℕ → Target → Link fp → Asserted fp
  write venc now t l =
      let request = venc_request t.kbps (payload_arg l t) in
      if cfg.dry_run
      then record { link = write_grace now (remember t l); sent = none }
      else if venc_accepts venc request
      then record { link = write_grace now (remember t l); sent = request }
      else record { link = write_grace now l; sent = request }

  unfoldable pub bitrate_assert : (VencWrite → Bool) → ℕ → Link fp → Asserted fp
  bitrate_assert venc now l =
      let t = target_of l.ctrl in
      if cfg.fec.enabled && radio.valid && l.ctrl.have_current && must_write now l t.kbps
      then write venc now t l
      else record { link = l; sent = none }
