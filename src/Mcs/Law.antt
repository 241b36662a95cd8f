-- ===== src/Mcs/Law.antt =====
-- `selector_update` of vehicle/link_controller.c: one call for each video report. Its rules are
-- functions of their own, tried in the code's order; the first that matches decides.
use waybeam_wfb_ng.Base.{
  ℕ, ◌+◌, Bool, false, not, ◌&&◌, ◌||◌, none, get_or, ltb, leb, ◌==◌, if◌then◌else◌,
}
use waybeam_wfb_ng.Base.Int.{ℤ, pos, negsuc, pos_part, ◌+ℤ◌, ◌-ℤ◌, ltb_ℤ, leb_ℤ}
use waybeam_wfb_ng.Base.Word.{sub64, inc32}
use waybeam_wfb_ng.Base.Floating.{Floating}
use waybeam_wfb_ng.Mcs.Types.{
  Selector, sd_none, sd_init, sd_down, sd_up, Outcome, McsConfig, Score, ProbeRung, ProbeState,
  probe_mcs_max, fade_persist_samples, no_record,
}
use waybeam_wfb_ng.Mcs.Selector.{commit}

-- `return SD_NONE`, with `out_mcs` not written.
unfoldable pub hold : Selector → Outcome
hold s = record { selector = s; decision = sd_none; out_mcs = none }

module _ (fp : Floating) where
  open fp use {Float, single}
  open single use {add, mul, div, neg, lt, le, of_int, lit}

  -- `(float)(now - then) / 1e6f`
  unfoldable pub seconds_since : ℕ → ℕ → Float
  seconds_since now past = div (of_int (pos (sub64 now past))) (lit 1_000_000 0)

module _ (fp : Floating) (cfg : McsConfig fp) (now : ℕ) where
  open fp use {Float, single}
  open single use {add, mul, div, neg, lt, le, of_int, lit}

  unfoldable pub can_demote : Selector → Bool
  can_demote s =
      ltb_ℤ cfg.mcs_min s.current_mcs
      && le cfg.down_cooldown_s (seconds_since fp now s.last_change_us)

  unfoldable pub step_down : Selector → Outcome
  step_down s = commit fp cfg (s.current_mcs -ℤ pos 1) now sd_down s

  unfoldable pub step_up : Selector → Outcome
  step_up s = commit fp cfg (s.current_mcs +ℤ pos 1) now sd_up s

  -- A promote would step into or above a rung that the flap-freeze still pins out.
  unfoldable pub freeze_blocks : Selector → Bool
  freeze_blocks s =
      leb_ℤ (pos 0) s.flap_freeze_mcs
      && ltb now s.flap_freeze_until_us
      && leb_ℤ s.flap_freeze_mcs (s.current_mcs +ℤ pos 1)

  -- What the call does before its rules: timestamps, failsafe, freeze expiry, pressure run.
  unfoldable pub enter : Bool → Selector → Selector
  enter in_pressure s =
      let lifted = leb_ℤ (pos 0) s.flap_freeze_mcs && leb s.flap_freeze_until_us now in
      record s {
        last_datagram_us = now;
        in_failsafe = false;
        flap_freeze_mcs = if lifted then negsuc 0 else s.flap_freeze_mcs;
        flap_demote_streak = if lifted then 0 else s.flap_demote_streak;
        pressure_since_us =
            if in_pressure
            then (if s.pressure_since_us == 0 then now else s.pressure_since_us)
            else 0;
      }

  -- How long the rung must have been held before a promote: longer into a rung that just failed.
  unfoldable pub need_dwell : Selector → Float
  need_dwell s =
      if leb_ℤ (pos 0) s.flap_guard_mcs
        && leb_ℤ s.flap_guard_mcs (s.current_mcs +ℤ pos 1)
        && lt (seconds_since fp now s.flap_guard_us) cfg.reentry_backoff_s
        && lt cfg.promote_dwell_s cfg.reentry_dwell_s
      then cfg.reentry_dwell_s
      else cfg.promote_dwell_s

module _ (fp : Floating) (cfg : McsConfig fp) (score : Score fp) (now : ℕ) where
  open fp use {Float, single}
  open single use {add, mul, div, neg, lt, le, of_int, lit}

  unfoldable pub floor_hit : Bool
  floor_hit = le score.smoothed_rssi cfg.rssi_floor_dbm

  unfoldable pub fade_sample : Bool
  fade_sample =
      lt (lit 0 0) cfg.rssi_fade_db_per_s
      && le score.smoothed_rssi cfg.rssi_fade_arm_dbm
      && le score.rssi_slope_db_s (neg cfg.rssi_fade_db_per_s)

  -- The live loss is at or above the demote threshold.
  unfoldable pub loss_spike : Bool
  loss_spike = le (of_int cfg.demote_per_milli) (mul score.smoothed_lost_ratio (lit 1000 0))

  -- The signal is at most a hysteresis above the floor.
  unfoldable pub near_floor : Bool
  near_floor = le score.smoothed_rssi (add cfg.rssi_floor_dbm cfg.rssi_floor_hyst_db)

  unfoldable pub note_guards : Selector → Selector
  note_guards s =
      let streak = if fade_sample then s.fade_streak + 1 else 0 in
      record s {
        fade_streak = streak;
        rssi_floor_active = floor_hit;
        rssi_fade_active = leb fade_persist_samples streak;
      }

  -- Rule 3.5, whether it fires: sustained backpressure while the radio link is clean.
  unfoldable pub escape_fires : Bool → Selector → Bool
  escape_fires in_pressure s =
      in_pressure
      && lt (lit 0 0) cfg.pressure_escape_s
      && not (s.pressure_since_us == 0)
      && ltb_ℤ s.current_mcs cfg.mcs_max
      && not floor_hit
      && not fade_sample
      && lt (add cfg.rssi_floor_dbm cfg.rssi_floor_hyst_db) score.smoothed_rssi
      && lt cfg.rssi_fade_arm_dbm score.smoothed_rssi
      && not (freeze_blocks fp cfg now s)
      && le cfg.pressure_escape_s (seconds_since fp now s.pressure_since_us)
      && le cfg.down_cooldown_s (seconds_since fp now s.last_change_us)

  -- The end of rule 4: a clean probe promotes unless a guard or the dwell holds it back.
  unfoldable pub promote_rule : Selector → Outcome
  promote_rule s =
      if not (fade_sample || near_floor || freeze_blocks fp cfg now s)
        && ltb_ℤ s.current_mcs cfg.mcs_max
        && le (need_dwell fp cfg now s) (seconds_since fp now s.last_change_us)
      then step_up fp cfg now s
      else hold s

  -- The record may be acted on: seen, fresh, and newer than the last change of rung.
  unfoldable pub is_usable : ProbeState → ProbeRung → Bool
  is_usable probe pr =
      let age = if pr.valid then seconds_since fp now pr.last_us else lit 1_000_000_000 0 in
      pr.valid
      && leb_ℤ (pos 0) pr.per_milli
      && leb probe.gate_us pr.last_us
      && le age cfg.probe_stale_age_s

  -- Rule 4 with the record of the boundary rung `v2`.
  unfoldable pub rung_rule : Bool → ProbeRung → ℤ → Selector → Outcome
  rung_rule pressure_block pr v2 s =
      if leb_ℤ cfg.probe_fail_milli pr.per_milli && leb_ℤ v2 cfg.mcs_max
      then (if not pressure_block && can_demote fp cfg now s
          then step_down fp cfg now s
          else hold s)
      else (if leb_ℤ pr.per_milli cfg.probe_clean_milli then promote_rule s else hold s)

  unfoldable pub probe_rule : ProbeState → Bool → Selector → Outcome
  probe_rule probe pressure_block s =
      let v2 = s.current_mcs +ℤ pos 2 in
      let pr = get_or probe.rung (pos_part v2) no_record in
      if leb_ℤ (pos 0) v2 && ltb_ℤ v2 (pos probe_mcs_max) && is_usable probe pr
      then rung_rule pressure_block pr v2 s
      else hold s

  -- Rules 1 to 4, once the guard flags are known.
  unfoldable pub rules : ProbeState → Bool → Selector → Outcome
  rules probe in_pressure s =
      let pressure_block = in_pressure && cfg.pressure_demote_block in
      if not pressure_block && loss_spike
      then (if can_demote fp cfg now s then step_down fp cfg now s else hold s)
      else if (s.rssi_floor_active || s.rssi_fade_active) && can_demote fp cfg now s
      then step_down fp cfg now s
      else if escape_fires in_pressure s
      then step_up fp cfg now (record s { pressure_escape_count = inc32 s.pressure_escape_count })
      else probe_rule probe pressure_block s

  unfoldable pub update : ProbeState → Bool → Selector → Outcome
  update probe in_pressure s =
      let t = enter fp cfg now in_pressure s in
      if ltb_ℤ t.current_mcs (pos 0)
      then commit fp cfg cfg.mcs_min now sd_init t
      else rules probe in_pressure (note_guards t)
