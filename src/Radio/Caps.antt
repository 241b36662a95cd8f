-- ===== src/Radio/Caps.antt =====
-- The ceilings of the target bitrate, and what a write leaves behind.
use waybeam_wfb_ng.Base.{ℕ, ◌≡◌, refl, Bool, true, false, ◌&&◌, Bool-cases, inl, inr, none, arith}
use waybeam_wfb_ng.Base.Int.{ℤ, pos, ◌≤ℤ◌, ◌<ℤ◌}
use waybeam_wfb_ng.Base.Floating.{Floating}
use waybeam_wfb_ng.Fec.Types.{Controller}
use waybeam_wfb_ng.Fec.Controller.{arm_settle}
use waybeam_wfb_ng.Radio.Types.{LinkConfig, RadioState, Link, VencWrite}
use waybeam_wfb_ng.Radio.Bitrate.{
  venc_request, venc_accepts, Target, Asserted, natural_target, pps_capped, airtime_cap,
  airtime_capped, target_of, must_write, payload_arg, remember, write_grace, write, bitrate_assert,
}

module _ (fp : Floating) (cfg : LinkConfig fp) (radio : RadioState fp) where
  natural_target_bounds :
      (ctrl : Controller fp)
      → cfg.fec.bitrate_min_kbps ≤ℤ cfg.fec.bitrate_max_kbps
      → pos 0 <ℤ cfg.fec.bitrate_max_kbps
      → (cfg.fec.bitrate_min_kbps ≤ℤ natural_target fp cfg radio ctrl)
        × (natural_target fp cfg radio ctrl ≤ℤ cfg.fec.bitrate_max_kbps)
  unfolding natural_target
  natural_target_bounds ctrl o p = ground arith

  pps_capped-le :
      (target : ℤ)
      → cfg.fec.bitrate_min_kbps ≤ℤ target
      → (pps_capped fp cfg radio target).kbps ≤ℤ target
  unfolding pps_capped
  pps_capped-le target h = ground arith

  airtime_capped-le :
      (ctrl : Controller fp) (t : Target) → (airtime_capped fp cfg radio ctrl t).kbps ≤ℤ t.kbps
  unfolding airtime_capped
  airtime_capped-le ctrl t = ground arith

  module _ (ctrl : Controller fp) where
    -- With a configured maximum, and the minimum below it, no target exceeds the maximum: neither
    -- the packet rate cap nor the airtime guard ever raises the bitrate.
    pub target_within_max :
        cfg.fec.bitrate_min_kbps ≤ℤ cfg.fec.bitrate_max_kbps
        → pos 0 <ℤ cfg.fec.bitrate_max_kbps
        → (target_of fp cfg radio ctrl).kbps ≤ℤ cfg.fec.bitrate_max_kbps
    unfolding target_of
    target_within_max o p =
        let natural : ℤ = natural_target fp cfg radio ctrl in
        let (low, high) = natural_target_bounds ctrl o p in
        let cap = pps_capped-le natural low in
        let air = airtime_capped-le ctrl (pps_capped fp cfg radio natural) in omega arith

    -- The airtime guard, when it is on and yields a cap for the selected payload, holds for every
    -- target, below the operator's minimum too.
    pub target_within_airtime :
        pos 0 <ℤ cfg.fec.airtime_max_pct
        → pos 0 <ℤ airtime_cap fp cfg radio ctrl (target_of fp cfg radio ctrl).payload
        → (target_of fp cfg radio ctrl).kbps
          ≤ℤ airtime_cap fp cfg radio ctrl (target_of fp cfg radio ctrl).payload
    unfolding target_of airtime_capped
    target_within_airtime p c = ground arith

-- The outcome of one call, when it is not a dry run: the values remembered move only with a request
-- that the encoder took, and then to its target.
pub data Outcome (fp : Floating) (target : ℤ) (l : Link fp) (venc : VencWrite → Bool)
    (r : Asserted fp) : Type 0 where
  silent : r.sent ≡ none → r.link ≡ l → Outcome fp target l venc r
  refused :
      venc_accepts venc r.sent ≡ false
      → r.link.last_written_kbps ≡ l.last_written_kbps
      → r.link.last_written_payload ≡ l.last_written_payload
      → Outcome fp target l venc r
  accepted :
      venc_accepts venc r.sent ≡ true
      → r.link.last_written_kbps ≡ target
      → Outcome fp target l venc r

module _ (fp : Floating) (cfg : LinkConfig fp) (radio : RadioState fp) (now : ℕ)
    (venc : VencWrite → Bool) (l : Link fp) where
  graced :
      (m : Link fp)
      → ((write_grace fp cfg radio now m).last_written_kbps ≡ m.last_written_kbps)
        × ((write_grace fp cfg radio now m).last_written_payload ≡ m.last_written_payload)
  unfolding write_grace
  graced m = elim (Bool-cases (fp.single.lt (fp.single.lit 0 0) cfg.fec.bitrate_grace_s)) [
    | inl h ↦ rw h (refl, refl)
    | inr h ↦ rw h (refl, refl)
  ]

  write-Outcome :
      (t : Target)
      → cfg.dry_run ≡ false
      → Outcome fp t.kbps l venc (write fp cfg radio venc now t l)
  unfolding write remember write_grace arm_settle payload_arg
  write-Outcome t d =
      elim (Bool-cases (venc_accepts venc (venc_request t.kbps (payload_arg fp cfg radio l t)))) [
        | inl v ↦ rw (d, v) (accepted v (graced (remember fp cfg radio t l)).0)
        | inr v ↦ rw (d, v) (refused v (graced l).0 (graced l).1)
      ]

  -- Outside a dry run a call is silent and changes nothing, or sends a request: a refused one leaves
  -- the remembered bitrate and payload, so that the next call tries again, and an accepted one makes
  -- the target the remembered bitrate.
  pub bitrate_assert-Outcome :
      cfg.dry_run ≡ false
      → Outcome fp
          (target_of fp cfg radio l.ctrl).kbps
          l
          venc
          (bitrate_assert fp cfg radio venc now l)
  unfolding bitrate_assert
  bitrate_assert-Outcome d =
      let t : Target = target_of fp cfg radio l.ctrl in
      elim (Bool-cases (
        cfg.fec.enabled
        && radio.valid
        && l.ctrl.have_current
        && must_write fp cfg radio now l t.kbps)) [
          | inl g ↦ rw g (write-Outcome t d)
          | inr g ↦ rw g (silent refl refl)
        ]
