-- ===== src/Fec/Tests.antt =====
-- The FEC controller run on frames, and its theorems at inputs that meet their hypotheses.
use waybeam_wfb_ng.Base.{ℕ, zero, suc, ◌≤◌, ◌≡◌, refl, true, false, some, get_or, replicate, arith}
use waybeam_wfb_ng.Base.Int.{pos, ◌+ℤ◌, ◌-ℤ◌}
use waybeam_wfb_ng.Base.Word.{sub64, add64, inc32}
use waybeam_wfb_ng.Base.Floating.{scaled, widen_scaled, fixed_point}
use waybeam_wfb_ng.Base.Ring.{back_index}
use waybeam_wfb_ng.Fec.Types.{FecConfig, HeadroomRing, FecParams, Controller}
use waybeam_wfb_ng.Fec.Headroom.{
  ring_push, expire_count, ring_expire, scan_sizes, clamp_ratio, compute_headroom,
}
use waybeam_wfb_ng.Fec.Sizing.{
  interpolate_from, interpolate_redundancy, frame_packets, clamp_k, clamp_n, fec_compute,
}
use waybeam_wfb_ng.Fec.Controller.{
  micros, micros_double, commit, Updated, seconds_since, keep, emit, update_ring, update_average,
  measure, ff_bytes, ff_active, candidate, in_startup_grace, in_settle_grace, op_point_moved,
  try_down, try_same, try_up, hysteresis, feed_forward, flags, decide, gate, update,
}
use waybeam_wfb_ng.Fec.Bounds.{IsOrdered, IsLegal}
use waybeam_wfb_ng.Fec.Gating.{Decided}
use waybeam_wfb_ng.Fec.Emission.{update_justified, emitted_size-IsLegal, early_window_empties}

-- The defaults, in millionths.
abbrev config : FecConfig fixed_point
config = record {
  mtu = pos 1446;
  min_k = pos 4;
  max_k = pos 48;
  min_n = pos 6;
  max_n = pos 72;
  ewma_alpha = pos 50_000;
  headroom_min = pos 1_050_000;
  headroom_max = pos 1_400_000;
  headroom_margin = pos 1_050_000;
  headroom_window_s = pos 2_500_000;
  ppf_deadband_frac = pos 150_000;
  k_hyst_up = pos 2;
  cooldown_up_s = pos 1_000_000;
  k_down_dwell_s = pos 8_000_000;
  k_up_dwell_s = pos 2_000_000;
  startup_grace_s = pos 2_000_000;
  safety_margin = pos 500_000;
  bitrate_min_kbps = pos 2200;
  bitrate_max_kbps = pos 0;
  bitrate_tolerance = pos 150_000;
  bitrate_grace_s = pos 2_000_000;
  mcs_settle_s = pos 5_000_000;
  bitrate_lead_s = pos 500_000;
  mcs_up_grace_s = pos 250_000;
  enabled = true;
  payload_max = pos 0;
  payload_min = pos 576;
  airtime_max_pct = pos 80;
  airtime_preamble_us = pos 0;
  blocksize_feedforward = false;
  ff_cooldown_s = pos 0;
}

config-IsOrdered : IsOrdered fixed_point config
config-IsOrdered = record {
  k_pos = omega arith;
  k_order = omega arith;
  n_order = omega arith;
  room = omega arith;
}

abbrev empty_ring : HeadroomRing
empty_ring = record { ts_us = replicate 8 0; size = replicate 8 0; head = 0; count = 0 }

abbrev no_size : FecParams fixed_point
no_size = record {
  k = pos 0;
  n = pos 0;
  redundancy = pos 0;
  packets_per_frame = pos 0;
  avg_frame_size = pos 0;
  headroom = pos 0;
}

abbrev started : Controller fixed_point
started = record {
  avg_frame_size = pos 0;
  current = no_size;
  have_current = false;
  last_update_us = 0;
  start_us = 1_000_000;
  update_count = 0;
  bitrate_grace_until_us = 0;
  was_in_grace = false;
  k_down_pending_since_us = 0;
  k_down_pending_target = pos 0;
  k_up_pending_since_us = 0;
  k_up_pending_target = pos 0;
  bitrate_up_lock_until_us = 0;
  ff_last_commit_us = 0;
  last_committed_kbps = pos 0;
}

-- `update` with all that it calls open.
frame : ℕ → ℕ → HeadroomRing → Controller fixed_point → HeadroomRing × Updated fixed_point
unfolding update gate decide flags feed_forward hysteresis try_up try_same try_down op_point_moved
    in_settle_grace in_startup_grace candidate ff_active ff_bytes measure update_average update_ring
    emit keep seconds_since commit micros_double micros fec_compute clamp_n clamp_k frame_packets
    interpolate_redundancy interpolate_from compute_headroom clamp_ratio scan_sizes ring_expire
    expire_count ring_push back_index scaled widen_scaled sub64 add64 inc32 ◌+ℤ◌ ◌-ℤ◌
frame now size ring c = update fixed_point config now size ring (pos 60_000_000) (pos 8_000) c

-- A frame of 14 kB.
abbrev first_size : FecParams fixed_point
first_size = record {
  k = pos 11;
  n = pos 17;
  redundancy = pos 318_750;
  packets_per_frame = pos 11;
  avg_frame_size = pos 14_000_000_000;
  headroom = pos 1_050_000;
}

first_frame : (frame 5_000_000 14_000 empty_ring started).1.out ≡ some first_size
unfolding frame
first_frame = refl

update_justified_example :
    Decided fixed_point config 5_000_000 false
      (pos 8_000)
      (measure fixed_point config 5_000_000 14_000 started)
      (candidate fixed_point config 5_000_000
        (pos 8_000)
        (pos 60_000_000)
        (update_ring fixed_point config 5_000_000 14_000 empty_ring)
        (measure fixed_point config 5_000_000 14_000 started))
      (update fixed_point config 5_000_000 14_000 empty_ring (pos 60_000_000) (pos 8_000) started).1
unfolding ff_active
update_justified_example =
    update_justified fixed_point config 5_000_000 14_000 empty_ring (pos 60_000_000) (pos 8_000)
      started

emitted_size-IsLegal_example :
    IsLegal fixed_point config first_size
    × ((update fixed_point config 5_000_000 14_000 empty_ring
          (pos 60_000_000)
          (pos 8_000)
          started).1.controller.current
        ≡ first_size)
unfolding frame
emitted_size-IsLegal_example =
    emitted_size-IsLegal fixed_point config 5_000_000 14_000 empty_ring (pos 60_000_000) (pos 8_000)
      started config-IsOrdered refl

-- The first size is in force, and the average stays near 14 kB.
abbrev running : Controller fixed_point
running = record started {
  avg_frame_size = pos 14_000_000_000;
  current = first_size;
  have_current = true;
  last_update_us = 5_000_000;
  update_count = 1;
}

unstamped : (n i : ℕ) → get_or (replicate n 0) i 0 ≤ 2_000_000
unstamped zero i = omega arith
unstamped (suc n) zero = omega arith
unstamped (suc n) (suc i) = unstamped n i

-- Two seconds after time zero, inside the window of two and a half.
early_window_empties_example :
    (update_ring fixed_point config 2_000_000 14_000 empty_ring).count ≡ 0
unfolding micros_double scaled widen_scaled ◌+ℤ◌ ◌-ℤ◌
early_window_empties_example =
    early_window_empties fixed_point config 2_000_000 14_000 empty_ring (omega arith) (omega arith)
      (unstamped 8)
