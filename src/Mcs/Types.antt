-- ===== src/Mcs/Types.antt =====
-- The selector's state, its configuration (`cfg->mcs`) and its inputs in vehicle/link_controller.c.
use waybeam_wfb_ng.Base.{ℕ, Bool, false, List, Option}
use waybeam_wfb_ng.Base.Int.{ℤ, pos}
use waybeam_wfb_ng.Base.Floating.{Floating}

-- `Selector`. Times are uint64_t microseconds; -1 stands for no rung.
pub record Selector : Type 0 where
  pub current_mcs : ℤ
  pub last_change_us : ℕ
  pub last_datagram_us : ℕ
  pub in_failsafe : Bool
  pub changes_us : List ℕ
  pub changes_count : ℕ
  pub changes_head : ℕ
  pub commit_count : ℕ
  pub rssi_floor_active : Bool
  pub rssi_fade_active : Bool
  pub fade_streak : ℕ
  pub flap_guard_mcs : ℤ
  pub flap_guard_us : ℕ
  pub flap_demote_streak : ℕ
  pub flap_last_demote_us : ℕ
  pub flap_freeze_mcs : ℤ
  pub flap_freeze_until_us : ℕ
  pub pressure_since_us : ℕ
  pub pressure_escape_count : ℕ

pub data SelectDecision : Type 0 where
  sd_none sd_init sd_down sd_up sd_failsafe : SelectDecision

-- The selector after a call, its return value, and what it stored through `out_mcs`, if it did.
pub record Outcome : Type 0 where
  pub selector : Selector
  pub decision : SelectDecision
  pub out_mcs : Option ℤ

-- The fields of `cfg->mcs` that the selector reads.
pub record McsConfig (fp : Floating) : Type 0 where
  pub down_cooldown_s : fp.Float
  pub failsafe_timeout_s : fp.Float
  pub oscillation_window_s : fp.Float
  pub mcs_min : ℤ
  pub mcs_max : ℤ
  pub probe_clean_milli : ℤ
  pub probe_fail_milli : ℤ
  pub demote_per_milli : ℤ
  pub promote_dwell_s : fp.Float
  pub probe_stale_age_s : fp.Float
  pub rssi_floor_dbm : fp.Float
  pub rssi_fade_db_per_s : fp.Float
  pub rssi_fade_arm_dbm : fp.Float
  pub rssi_floor_hyst_db : fp.Float
  pub pressure_demote_block : Bool
  pub pressure_escape_s : fp.Float
  pub reentry_backoff_s : fp.Float
  pub reentry_dwell_s : fp.Float
  pub flap_freeze_count : ℤ
  pub flap_freeze_window_s : fp.Float
  pub flap_freeze_s : fp.Float

-- The fields of `Score` that the selector reads.
pub record Score (fp : Floating) : Type 0 where
  pub smoothed_rssi : fp.Float
  pub smoothed_lost_ratio : fp.Float
  pub rssi_slope_db_s : fp.Float

-- The fields of `ProbeRung` that the selector reads.
pub record ProbeRung : Type 0 where
  pub per_milli : ℤ
  pub last_us : ℕ
  pub valid : Bool

pub record ProbeState : Type 0 where
  pub rung : List ProbeRung
  pub gate_us : ℕ

abbrev pub osc_ring : ℕ
osc_ring = 16

abbrev pub probe_mcs_max : ℕ
probe_mcs_max = 16

abbrev pub fade_persist_samples : ℕ
fade_persist_samples = 3

-- A rung that no probe record was seen at.
abbrev pub no_record : ProbeRung
no_record = record { per_milli = pos 0; last_us = 0; valid = false }
