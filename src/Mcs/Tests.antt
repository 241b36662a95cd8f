-- ===== src/Mcs/Tests.antt =====
-- The selector run on concrete reports, and its theorems at inputs that meet their hypotheses.
use waybeam_wfb_ng.Base.{
  ℕ, ◌-◌, ◌*◌, ◌≡◌, refl, inl, Bool, true, false, some, List, [], ◌∷◌, replicate, arith,
}
use waybeam_wfb_ng.Base.Int.{ℤ, pos, negsuc, ◌+ℤ◌, ◌-ℤ◌, ◌<ℤ◌}
use waybeam_wfb_ng.Base.Word.{sub64, add64, inc32}
use waybeam_wfb_ng.Base.Floating.{scaled, widen_scaled, fixed_point}
use waybeam_wfb_ng.Base.Ring.{back_index, view}
use waybeam_wfb_ng.Mcs.Types.{
  Selector, sd_none, sd_down, sd_failsafe, Outcome, McsConfig, Score, ProbeRung, ProbeState,
  no_record,
}
use waybeam_wfb_ng.Mcs.Selector.{
  micros, expire_loop, expire_changes, record_change, clamp_mcs, note_demote, enter_rung,
  change_rung, commit, force_lowest, tick_no_data,
}
use waybeam_wfb_ng.Mcs.Law.{
  hold, seconds_since, can_demote, step_down, step_up, freeze_blocks, enter, need_dwell, floor_hit,
  fade_sample, loss_spike, near_floor, note_guards, escape_fires, promote_rule, is_usable,
  rung_rule, probe_rule, rules, update,
}
use waybeam_wfb_ng.Mcs.Valid.{IsSane, InRange}
use waybeam_wfb_ng.Mcs.Rungs.{Move, Reported, seen, update_one_rung, update-InRange}
use waybeam_wfb_ng.Mcs.Guards.{Cause, Ground, demote_justified, promote_justified}
use waybeam_wfb_ng.Mcs.Pinned.{Input, reported, silence, run_inputs, AllDuring, flap_freeze_pins}
use waybeam_wfb_ng.Mcs.Failsafe.{tick_no_data_lem}
use waybeam_wfb_ng.Mcs.Changes.{changes, enqueue, in_window, record_change_refines}

-- Decibels and seconds in millionths.
abbrev secs : ℕ → ℤ
secs n = pos (n * 1_000_000)

abbrev dbm : ℕ → ℤ
dbm n = negsuc (n * 1_000_000 - 1)

abbrev config : McsConfig fixed_point
config = record {
  down_cooldown_s = pos 300_000;
  failsafe_timeout_s = secs 1;
  oscillation_window_s = secs 30;
  mcs_min = pos 0;
  mcs_max = pos 5;
  probe_clean_milli = pos 20;
  probe_fail_milli = pos 100;
  demote_per_milli = pos 50;
  promote_dwell_s = secs 2;
  probe_stale_age_s = secs 1;
  rssi_floor_dbm = dbm 85;
  rssi_fade_db_per_s = secs 10;
  rssi_fade_arm_dbm = dbm 70;
  rssi_floor_hyst_db = secs 3;
  pressure_demote_block = true;
  pressure_escape_s = secs 1;
  reentry_backoff_s = secs 20;
  reentry_dwell_s = secs 6;
  flap_freeze_count = pos 3;
  flap_freeze_window_s = secs 5;
  flap_freeze_s = secs 15;
}

abbrev fresh : Selector
fresh = record {
  current_mcs = negsuc 0;
  last_change_us = 0;
  last_datagram_us = 0;
  in_failsafe = false;
  changes_us = replicate 16 0;
  changes_count = 0;
  changes_head = 0;
  commit_count = 0;
  rssi_floor_active = false;
  rssi_fade_active = false;
  fade_streak = 0;
  flap_guard_mcs = negsuc 0;
  flap_guard_us = 0;
  flap_demote_streak = 0;
  flap_last_demote_us = 0;
  flap_freeze_mcs = negsuc 0;
  flap_freeze_until_us = 0;
  pressure_since_us = 0;
  pressure_escape_count = 0;
}

-- On rung 3 since second 10.
abbrev climbing : Selector
climbing = record fresh { current_mcs = pos 3; last_change_us = 10_000_000 }

abbrev clear_signal : Score fixed_point
clear_signal = record {
  smoothed_rssi = dbm 50;
  smoothed_lost_ratio = pos 0;
  rssi_slope_db_s = pos 0;
}

abbrev lossy_signal : Score fixed_point
lossy_signal = record clear_signal { smoothed_lost_ratio = pos 80_000 }

abbrev clean_rung : ProbeRung
clean_rung = record { per_milli = pos 4; last_us = 12_500_000; valid = true }

-- The record of rung 5 came after the last change of rung.
abbrev clean_probe : ProbeState
clean_probe = record {
  rung = no_record ∷ no_record ∷ no_record ∷ no_record ∷ no_record ∷ clean_rung ∷ [];
  gate_us = 10_000_000;
}

abbrev no_probe : ProbeState
no_probe = record { rung = replicate 16 no_record; gate_us = 0 }

-- `update` with all that it calls open.
report : Score fixed_point → ℕ → ProbeState → Bool → Selector → Outcome
unfolding update rules note_guards enter floor_hit fade_sample loss_spike near_floor can_demote
    step_down step_up hold escape_fires freeze_blocks need_dwell promote_rule is_usable rung_rule
    probe_rule seconds_since commit change_rung enter_rung note_demote record_change expire_changes
    expire_loop clamp_mcs micros scaled widen_scaled sub64 add64 inc32 back_index view ◌+ℤ◌ ◌-ℤ◌
    force_lowest tick_no_data
report score now probe in_pressure s = update fixed_point config score now probe in_pressure s

first_report : (report clear_signal 1_000_000 no_probe false fresh).out_mcs ≡ some (pos 0)
unfolding report
first_report = refl

clean_report_climbs :
    (report clear_signal 13_000_000 clean_probe false climbing).out_mcs ≡ some (pos 4)
unfolding report
clean_report_climbs = refl

lossy_report_falls :
    (report lossy_signal 13_000_000 clean_probe false climbing).out_mcs ≡ some (pos 2)
unfolding report
lossy_report_falls = refl

pressed_report_holds : (report lossy_signal 13_000_000 no_probe true climbing).decision ≡ sd_none
unfolding report
pressed_report_holds = refl

config-IsSane : IsSane fixed_point config
config-IsSane = omega arith

update_one_rung_example :
    Move (pos 3) (update fixed_point config lossy_signal 13_000_000 clean_probe false climbing)
update_one_rung_example =
    update_one_rung fixed_point config lossy_signal 13_000_000 clean_probe false climbing
      config-IsSane (omega arith)

update-InRange_example :
    InRange fixed_point config
      (update fixed_point config clear_signal 1_000_000 no_probe false fresh).selector.current_mcs
    × Reported fixed_point config clear_signal 1_000_000 no_probe false fresh.current_mcs
        (update fixed_point config clear_signal 1_000_000 no_probe false fresh)
update-InRange_example =
    update-InRange fixed_point config clear_signal 1_000_000 no_probe false fresh config-IsSane
      (inl (omega arith))

demote_justified_example :
    (pos 0 <ℤ pos 3)
    × (fixed_point.single.le (pos 300_000) (seconds_since fixed_point 13_000_000 10_000_000) ≡ true)
    × Cause fixed_point config lossy_signal 13_000_000 clean_probe false
        (seen fixed_point config lossy_signal 13_000_000 clean_probe false climbing)
unfolding report
demote_justified_example =
    demote_justified fixed_point config lossy_signal 13_000_000 clean_probe false climbing
      (omega arith) refl

promote_justified_example :
    (pos 3 <ℤ pos 5)
    × (fade_sample fixed_point config clear_signal 13_000_000 ≡ false)
    × (freeze_blocks fixed_point config 13_000_000
          (seen fixed_point config clear_signal 13_000_000 clean_probe false climbing)
        ≡ false)
    × Ground fixed_point config clear_signal 13_000_000 clean_probe false
        (seen fixed_point config clear_signal 13_000_000 clean_probe false climbing)
unfolding report
promote_justified_example =
    promote_justified fixed_point config clear_signal 13_000_000 clean_probe false climbing
      (omega arith) refl

-- Demoted from rung 4 twice within five seconds, and back on it.
abbrev flapping : Selector
flapping = record climbing {
  current_mcs = pos 4;
  flap_guard_mcs = pos 4;
  flap_guard_us = 9_000_000;
  flap_demote_streak = 2;
  flap_last_demote_us = 9_000_000;
}

abbrev during_freeze : List (ℕ × Input fixed_point)
during_freeze =
    (13_000_000, reported clear_signal clean_probe false)
    ∷ (15_000_000, silence)
    ∷ (20_000_000, reported clear_signal clean_probe false)
    ∷ []

flap_freeze_pins_example :
    (run_inputs fixed_point config during_freeze
      (commit fixed_point config (pos 3) 12_000_000 sd_down flapping).selector).current_mcs
    <ℤ pos 4
unfolding report AllDuring
flap_freeze_pins_example =
    flap_freeze_pins fixed_point config 12_000_000 (pos 3) sd_down flapping during_freeze
      config-IsSane (omega arith) (omega arith) refl (omega arith) (omega arith)
      (
        omega arith,
        omega arith,
        omega arith,
        (omega arith, omega arith, omega arith, (omega arith, omega arith, omega arith, tt)),
      )

-- The last report came at second 11.
abbrev silent : Selector
silent = record climbing { last_datagram_us = 11_000_000 }

tick_no_data_lem_example :
    ((tick_no_data fixed_point config 13_000_000 silent).decision ≡ sd_failsafe)
    × ((tick_no_data fixed_point config 13_000_000 silent).out_mcs ≡ some (pos 0))
    × ((tick_no_data fixed_point config 13_000_000 silent).selector.current_mcs ≡ pos 0)
    × ((tick_no_data fixed_point config 13_000_000 silent).selector.in_failsafe ≡ true)
unfolding report
tick_no_data_lem_example = tick_no_data_lem fixed_point config 13_000_000 silent config-IsSane

record_change_refines_example :
    changes (record_change fixed_point config 12_000_000 climbing) ≡ 12_000_000 ∷ []
unfolding report in_window enqueue
record_change_refines_example =
    record_change_refines fixed_point config 12_000_000 climbing (omega arith)
