-- ===== src/Ground/Samples.antt =====
-- Data for the tests of the ground station.
use waybeam_wfb_ng.Base.{ℕ, true, false, none, [], ◌∷◌, replicate}
use waybeam_wfb_ng.Base.Int.{pos, negsuc}
use waybeam_wfb_ng.Base.Text.{codes}
use waybeam_wfb_ng.Csa.Machine.{CsaCfg}
use waybeam_wfb_ng.Ground.Types.{Tunnel, Config, ts_running, sys_up}
use waybeam_wfb_ng.Ground.Frame.{Announcement}
use waybeam_wfb_ng.Ground.Hop.{csa_idle, csa_burst, CsaState, Send}
use waybeam_wfb_ng.Ground.Start.{Request}
use waybeam_wfb_ng.Ground.Command.{WcmdGlobals}

abbrev pub tunnel_up : Tunnel
tunnel_up = record {
  name = codes "up";
  role = codes "tx";
  ifaces = codes "wlan0" ∷ [];
  udp_in_port = pos 5_600;
  control_port = pos 7_000;
  autostart = true;
  state = ts_running;
  pid = pos 42;
  exit_code = pos 0;
  restart_count = 1;
  backoff_idx = 2;
  next_start_ms = 0;
  autostart_on_exit = true;
  stop_deadline_ms = 0;
  st_pkt_all = 0;
  tx_init_query_after_us = 0;
}

-- A receiving tunnel that has counted `n` packets in its last interval.
abbrev pub tunnel_rx : ℕ → Tunnel
tunnel_rx n = record tunnel_up { name = codes "video"; role = codes "rx"; st_pkt_all = n }

abbrev pub config_of : ℕ → Config
config_of n = record {
  tunnels = tunnel_up ∷ tunnel_rx n ∷ [];
  venc_cmd_enabled = true;
  venc_cmd_uplink = codes "up";
  recovery_cmd_enabled = false;
  recovery_cmd_tunnel = [];
  system_state = sys_up;
}

abbrev pub frame : Announcement
frame = record {
  sess = 7;
  seq = 2;
  target_chan = pos 157;
  target_ht = codes "HT40+";
  dt_ms = pos 460;
  t_revert_ms = pos 3_000;
  prev_chan = negsuc 0;
  prev_ht = codes "HT20";
}

-- A session that has sent four of its five frames.
abbrev pub session : CsaState
session = record {
  phase = csa_burst;
  sess = 7;
  t_switch_us = 1_500_000;
  t_revert_us = 4_500_000;
  next_frame_us = 1_080_000;
  frames_sent = 3;
  frames_total = 5;
  target_chan = pos 157;
  target_ht = codes "HT40+";
  prev_chan = pos 149;
  prev_ht = codes "HT20";
  ifaces = codes "wlan0" ∷ [];
  baseline_pkt_us = 0;
  baseline_pkt_all = 0;
  baseline_rx_idx = none;
  no_revert = false;
  seq_in_burst = 3;
}

abbrev pub at_rest : CsaState
at_rest = record session { phase = csa_idle }

abbrev pub send_at : ℕ → Send
send_at now = record { now_us = now; delivered = true }

abbrev pub hop_request : Request
hop_request = record {
  chan = pos 157;
  ht = codes "HT40+";
  ifaces = codes "wlan0" ∷ [];
  lead_ms = 500;
  t_revert_ms = 3_000;
  prev_chan = pos 149;
  prev_ht = codes "HT20";
  no_revert = false;
}

abbrev pub vehicle_cfg : CsaCfg
vehicle_cfg = record {
  allow_chan = pos 149 ∷ pos 157 ∷ [];
  allow_bw = [];
  cooldown_ms = pos 10_000;
  no_revert = false;
}

abbrev pub globals : WcmdGlobals
globals = record {
  wcmd_seq = 65_535;
  emit_total = 0;
  emit_frames = 0;
  emit_rate_limit = 0;
  emit_failed = 0;
  logsync_total = 0;
  recovery_total = 0;
  recovery_failed = 0;
  last_send_ms = replicate 17 0;
}
