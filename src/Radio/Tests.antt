-- ===== src/Radio/Tests.antt =====
-- The radio code run on concrete states, and its theorems at inputs that meet their hypotheses.
use waybeam_wfb_ng.Base.{ℕ, ◌≡◌, ◌↔◌, refl, Bool, true, false, some, none, arith, List}
use waybeam_wfb_ng.Base.Int.{ℤ, pos, negsuc, ◌+ℤ◌, ◌-ℤ◌, ◌≤ℤ◌, ◌<ℤ◌}
use waybeam_wfb_ng.Base.Word.{add64}
use waybeam_wfb_ng.Base.Text.{codes}
use waybeam_wfb_ng.Base.Floating.{scaled, widen_scaled, fixed_point}
use waybeam_wfb_ng.Fec.Types.{FecParams, Controller}
use waybeam_wfb_ng.Fec.Controller.{micros, arm_settle}
use waybeam_wfb_ng.Radio.Types.{LinkConfig, RadioState, RadioBody, Link}
use waybeam_wfb_ng.Radio.Rate.{
  tier_for, payload_table_lookup, best_ceiling, payload_safe_bitrate_kbps, payload_select, bw_scale,
  phy_mbps, airtime_cost, airtime_safe_bitrate_kbps,
}
use waybeam_wfb_ng.Radio.Bitrate.{
  venc_request, venc_accepts, natural_target, pps_capped, airtime_cap, airtime_capped, target_of,
  bitrate_moved, up_locked, would_increase, must_write, payload_arg, remember, write_grace, write,
  bitrate_assert,
}
use waybeam_wfb_ng.Radio.Ordered.{
  PendingMcsDown, Change, drop_lock_end, extend_lock, future_radio, commit_mcs_pre_drop_bitrate,
  defer, commit_mcs_change, Loop,
}
use waybeam_wfb_ng.Radio.Observe.{json_get_int, behind, skip_colon, to_long}
use waybeam_wfb_ng.Csa.Json.{strtoll}
use waybeam_wfb_ng.Radio.Tiers.{payload_table_galois}
use waybeam_wfb_ng.Radio.Locked.{NoRaise, drop_holds_bitrate}

abbrev config : LinkConfig fixed_point
config = record {
  fec = record {
    mtu = pos 1446;
    min_k = pos 4;
    max_k = pos 48;
    min_n = pos 6;
    max_n = pos 72;
    ewma_alpha = pos 50_000;
    headroom_min = pos 1_050_000;
    headroom_max = pos 1_400_000;
    headroom_margin = pos 1_050_000;
    headroom_window_s = pos 2_500_000;
    ppf_deadband_frac = pos 150_000;
    k_hyst_up = pos 2;
    cooldown_up_s = pos 1_000_000;
    k_down_dwell_s = pos 8_000_000;
    k_up_dwell_s = pos 2_000_000;
    startup_grace_s = pos 2_000_000;
    safety_margin = pos 500_000;
    bitrate_min_kbps = pos 2200;
    bitrate_max_kbps = pos 20_000;
    bitrate_tolerance = pos 150_000;
    bitrate_grace_s = pos 2_000_000;
    mcs_settle_s = pos 5_000_000;
    bitrate_lead_s = pos 500_000;
    mcs_up_grace_s = pos 250_000;
    enabled = true;
    payload_max = pos 1200;
    payload_min = pos 576;
    airtime_max_pct = pos 80;
    airtime_preamble_us = pos 60;
    blocksize_feedforward = false;
    ff_cooldown_s = pos 0;
  };
  dry_run = false;
}

abbrev size : FecParams fixed_point
size = record {
  k = pos 8;
  n = pos 12;
  redundancy = pos 330_000;
  packets_per_frame = pos 8;
  avg_frame_size = pos 0;
  headroom = pos 0;
}

abbrev ctrl : Controller fixed_point
ctrl = record {
  avg_frame_size = pos 0;
  current = size;
  have_current = true;
  last_update_us = 0;
  start_us = 1_000_000;
  update_count = 1;
  bitrate_grace_until_us = 0;
  was_in_grace = false;
  k_down_pending_since_us = 0;
  k_down_pending_target = pos 0;
  k_up_pending_since_us = 0;
  k_up_pending_target = pos 0;
  bitrate_up_lock_until_us = 9_000_000;
  ff_last_commit_us = 0;
  last_committed_kbps = pos 0;
}

abbrev link : Link fixed_point
link = record { ctrl = ctrl; last_written_kbps = pos 12_000; last_written_payload = pos 1200 }

-- MCS 5 in 20 MHz.
abbrev radio : RadioState fixed_point
radio = record {
  valid = true;
  short_gi = pos 0;
  bandwidth = pos 20;
  mcs = pos 5;
  vht_mode = pos 0;
  vht_nss = pos 0;
  stbc = pos 0;
  ldpc = pos 0;
  phy_mbps = pos 52_000_000;
}

abbrev body : RadioBody
body = record {
  stbc = 0;
  ldpc = 0;
  short_gi = 0;
  bandwidth = 20;
  mcs_index = 5;
  vht_mode = 0;
  vht_nss = 0;
}

abbrev no_pending : PendingMcsDown
no_pending = record { active = false; deadline_us = 0; target_mcs = negsuc 0; pending_radio = body }

abbrev always {ℓ} : {A : Type ℓ} → A → Bool
always a = true

-- The whole of `target_of` open.
target : Controller fixed_point → ℤ × ℤ
unfolding target_of airtime_capped airtime_cap pps_capped natural_target airtime_safe_bitrate_kbps
    airtime_cost phy_mbps bw_scale payload_select payload_safe_bitrate_kbps best_ceiling
    payload_table_lookup tier_for scaled widen_scaled ◌+ℤ◌ ◌-ℤ◌
target c = let t = target_of fixed_point config radio c in (t.kbps, t.payload)

-- 52 Mbit/s at half margin and 8/12 are 17.3 Mbit/s; the payload ceiling of 1200 bytes caps it.
target_value : target ctrl ≡ (pos 8000, pos 1200)
unfolding target
target_value = refl

abbrev stats : List ℕ
stats = codes "{\"type\":\"tx_stats\",\"mcs\": 5,\"bw\":20,\"short_gi\":0}"

stats_field :
    (json_get_int stats (codes "mcs") ≡ some (pos 5)) × (json_get_int stats (codes "stbc") ≡ none)
unfolding json_get_int behind skip_colon to_long strtoll
stats_field = (refl, refl)

payload_table_galois_example : (pos 1400 ≤ℤ pos 1300) ↔ (pos 9000 <ℤ pos 8000)
unfolding payload_table_lookup tier_for payload_safe_bitrate_kbps best_ceiling
payload_table_galois_example =
    payload_table_galois (pos 1300) (pos 9000) (omega arith) (omega arith)

airtime_cap_pos :
    pos 0
    <ℤ airtime_cap fixed_point config radio ctrl (target_of fixed_point config radio ctrl).payload
unfolding target_of airtime_capped airtime_cap pps_capped natural_target airtime_safe_bitrate_kbps
    airtime_cost phy_mbps bw_scale payload_select payload_safe_bitrate_kbps best_ceiling
    payload_table_lookup tier_for scaled widen_scaled ◌+ℤ◌ ◌-ℤ◌
airtime_cap_pos = omega arith

abbrev loop : Loop fixed_point
loop = record {
  pending = no_pending;
  radio_body = body;
  last_emit_mcs = pos 5;
  radio = radio;
  ctrl = ctrl;
}

abbrev lower : RadioBody
lower = record body { mcs_index = 4 }

abbrev dropped : Change fixed_point
dropped =
    commit_mcs_change fixed_point config always always (pos 4) 2_000_000 radio body no_pending link

abbrev armed_loop : Loop fixed_point
armed_loop = record loop { pending = dropped.pending }

-- The drop has lowered the bitrate to what MCS 4 carries, and not to nothing.
dropped_kbps : dropped.link.last_written_kbps ≡ pos 8000
unfolding target_of airtime_capped airtime_cap pps_capped natural_target airtime_safe_bitrate_kbps
    airtime_cost phy_mbps bw_scale payload_select payload_safe_bitrate_kbps best_ceiling
    payload_table_lookup tier_for scaled widen_scaled ◌+ℤ◌ ◌-ℤ◌ commit_mcs_change defer
    commit_mcs_pre_drop_bitrate bitrate_assert write write_grace remember payload_arg must_write
    would_increase up_locked bitrate_moved venc_accepts venc_request extend_lock drop_lock_end
    future_radio micros arm_settle add64
dropped_kbps = refl

-- Two seconds after the drop a stale report of MCS 5 comes in.
drop_holds_bitrate_example :
    NoRaise fixed_point config dropped.link
      (bitrate_assert fixed_point config radio always 4_000_000 dropped.link)
unfolding micros add64 scaled widen_scaled ◌+ℤ◌ ◌-ℤ◌ drop_lock_end
drop_holds_bitrate_example =
    drop_holds_bitrate fixed_point config always always (pos 4) 2_000_000 radio body no_pending link
      4_000_000 radio always refl refl (omega arith) (rw dropped_kbps (omega arith))
