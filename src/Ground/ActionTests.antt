-- ===== src/Ground/ActionTests.antt =====
-- Commands, tunnels and scans run on concrete inputs, and their theorems at inputs that meet their
-- hypotheses.
use waybeam_wfb_ng.Base.{ℕ, List, ◌+◌, ◌≡◌, refl, true, false, ◌&&◌, some, [], ◌∷◌, ◌==◌, arith}
use waybeam_wfb_ng.Base.Int.{pos, negsuc}
use waybeam_wfb_ng.Base.Word.{add64}
use waybeam_wfb_ng.Base.Text.{codes, bytes_eq}
use waybeam_wfb_ng.Ground.Types.{Tunnel, Config, ts_backoff, has_uplink}
use waybeam_wfb_ng.Ground.Samples.{tunnel_up, config_of, globals}
use waybeam_wfb_ng.Ground.Query.{qs_get, qs_get_int, int_value}
use waybeam_wfb_ng.Ground.Command.{sent, failed, wcmd_emit, rc_of, wcmd_key_from_str}
use waybeam_wfb_ng.Ground.Operator.{post_cmd, value_for, command, held_back, send_command}
use waybeam_wfb_ng.Ground.Wire.{IsEmitted, wcmd_emit-IsEmitted}
use waybeam_wfb_ng.Ground.Route.{post_cmd-stray_write}
use waybeam_wfb_ng.Ground.Limit.{Arrival, Asks, serve, serve_all, AllInWindow, serve-held_back}
use waybeam_wfb_ng.Csa.Json.{strtoll}
use waybeam_wfb_ng.Csa.Machine.{to_int32}
use waybeam_wfb_ng.Ground.Tunnels.{tunnel_request_stop, exited, TickInput}
use waybeam_wfb_ng.Ground.Supervise.{IsSound, exit_seen, on_event, on_event-IsSound}
use waybeam_wfb_ng.Ground.Restart.{ticked, run_quiet, stopped-stays}
use waybeam_wfb_ng.Ground.Restart
use waybeam_wfb_ng.Ground.Scan.{
  scan_running, scan_found, note_found, note_traffic, start_scan, ScanState, is_scanning, scan_tick,
  dwell_over, end_dwell, next_step, scan_apply_step_drained, apply_step,
}
use waybeam_wfb_ng.Ground.Sweep.{run_scan, run_scan-IsOver}
use waybeam_wfb_ng.Ground.Course.{
  ScanEvent, ticked, sampled, on_scan_event, scan_back, latest, AllTimed, IsOnTrail,
}
use waybeam_wfb_ng.Ground.Trail.{scan_back-IsOnTrail}

wcmd_emit-IsEmitted_example :
    IsEmitted 3 globals
      (record { key = 7; seq = 0; value = negsuc 4 })
      (wcmd_emit (config_of 0) 0 (sent ∷ failed 11 ∷ sent ∷ []) 7 (negsuc 4) globals)
wcmd_emit-IsEmitted_example =
    wcmd_emit-IsEmitted (config_of 0) 0 (sent ∷ failed 11 ∷ sent ∷ []) 7 (negsuc 4) globals
      (omega arith) (omega arith)

abbrev arrives : ℕ → List ℕ → Arrival
arrives now q = record {
  config = config_of 0;
  socket_errno = 0;
  results = sent ∷ [];
  now = now;
  later = now + 1;
  query = q;
}

abbrev asks_mcs : List ℕ
asks_mcs = codes "key=wfb_mcs&value=2"

asks_mcs-Asks : Asks 7 asks_mcs
unfolding qs_get qs_get_int wcmd_key_from_str value_for int_value strtoll to_int32
asks_mcs-Asks = record {
  name = codes "wfb_mcs";
  value = pos 2;
  named = refl;
  known = refl;
  valued = refl;
}

serve-held_back_example :
    let r = serve 200 (arrives 1_100 asks_mcs) (
      serve_all 200
        (arrives 1_050 (codes "key=fps&value=60") ∷ arrives 1_080 asks_mcs ∷ [])
        (serve 200 (arrives 1_000 asks_mcs) globals).globals) in
    (r.status ≡ 429) × (r.frames ≡ [])
unfolding AllInWindow serve post_cmd command held_back send_command wcmd_emit has_uplink rc_of
    qs_get qs_get_int wcmd_key_from_str value_for int_value strtoll to_int32
serve-held_back_example =
    serve-held_back 200 7 (arrives 1_000 asks_mcs)
      (arrives 1_050 (codes "key=fps&value=60") ∷ arrives 1_080 asks_mcs ∷ [])
      (arrives 1_100 asks_mcs) globals (omega arith) (omega arith) (omega arith) (omega arith) refl
      asks_mcs-Asks refl (omega arith)
      ((omega arith, omega arith, omega arith), ((omega arith, omega arith, omega arith), tt))
      asks_mcs-Asks (omega arith, omega arith, omega arith)

post_cmd-stray_write_example :
    let r =
      post_cmd
        (config_of 0)
        (pos 200)
        0
        (sent ∷ [])
        1_000
        1_001
        (codes "key=return_apfpv")
        globals in
    r.stray_write ≡ (r.status == 200) && bytes_eq (codes "return_apfpv") (codes "return_apfpv")
unfolding qs_get
post_cmd-stray_write_example =
    post_cmd-stray_write (config_of 0) (pos 200) 0 (sent ∷ []) 1_000 1_001
      (codes "key=return_apfpv") (codes "return_apfpv") globals refl

-- The request for the recovery image is accepted, and writes behind the array.
stray_write_happens :
    (post_cmd
      (config_of 0)
      (pos 200)
      0
      (sent ∷ [])
      1_000
      1_001
      (codes "key=return_apfpv")
      globals).stray_write
    ≡ true
unfolding post_cmd wcmd_emit has_uplink qs_get
stray_write_happens = refl

tunnel_up-IsSound : IsSound tunnel_up
tunnel_up-IsSound = record { in_table = omega arith; waits_alone = λ e. cc; child_runs = λ e. refl }

on_event-IsSound_example : IsSound (on_event (exit_seen (exited 1) 10_000) tunnel_up)
on_event-IsSound_example =
    on_event-IsSound (exit_seen (exited 1) 10_000) tunnel_up tunnel_up-IsSound

abbrev no_child : TickInput
no_child = record { child = some (pos 43); started_us = 12_000_000; answers = true }

stopped-stays_example :
    (run_quiet
      (ticked no_child 10_500 10_500_000
        ∷ Restart.exit_seen (exited 0) 10_600
        ∷ ticked no_child 50_000 50_000_000
        ∷ [])
      (tunnel_request_stop 10_000 tunnel_up).0).1
    ≡ false
stopped-stays_example =
    stopped-stays tunnel_up 10_000
      (ticked no_child 10_500 10_500_000
        ∷ Restart.exit_seen (exited 0) 10_600
        ∷ ticked no_child 50_000 50_000_000
        ∷ [])
      tunnel_up-IsSound

-- Crashed, and waiting for 12 000 ms.
abbrev waiting : Tunnel
waiting = record tunnel_up { state = ts_backoff; pid = negsuc 0; next_start_ms = 12_000 }

abbrev crashed_config : Config
crashed_config = record (config_of 0) { tunnels = waiting ∷ [] }

-- Two channels, the first of them silent.
abbrev sweep : ScanState
sweep = record {
  phase = scan_running;
  sess = 1;
  ifaces = codes "wlan0" ∷ [];
  steps = (pos 149, codes "HT20") ∷ (pos 157, codes "HT40+") ∷ [];
  cur_step = 0;
  step_started_us = 1_000_000;
  step_dwell_us = 600_000;
  step_saw_traffic = false;
  found_chan = negsuc 0;
  found_ht = [];
  hops_done = 0;
}

-- The first channel is silent, and the second has a receiver count packets.
abbrev swept_past : List ScanEvent
swept_past =
    ticked 2_400_000 2_410_000
    ∷ sampled 12 (codes "rx") 2_000_000
    ∷ ticked 1_700_000 1_710_000
    ∷ ticked 1_300_000 1_310_000
    ∷ []

scan_back-IsOnTrail_example :
    IsOnTrail sweep.ifaces sweep.steps 600 1_000_000 swept_past
      (scan_back sweep.ifaces sweep.steps 600 1_000_000 swept_past sweep)
unfolding AllTimed latest
scan_back-IsOnTrail_example =
    scan_back-IsOnTrail sweep.ifaces sweep.steps 600 1_000_000 swept_past sweep (omega arith) (
      omega arith,
      omega arith,
      omega arith,
      (
        omega arith,
        (
          omega arith,
          omega arith,
          omega arith,
          (omega arith, omega arith, omega arith, omega arith),
        ),
      ),
    )

scan_finds :
    ((scan_back sweep.ifaces sweep.steps 600 1_000_000 swept_past sweep).0.phase ≡ scan_found)
    × ((scan_back sweep.ifaces sweep.steps 600 1_000_000 swept_past sweep).0.found_chan ≡ pos 157)
unfolding scan_back on_scan_event start_scan scan_tick note_traffic end_dwell note_found next_step
    scan_apply_step_drained apply_step dwell_over add64
scan_finds = (refl, refl)

run_scan-IsOver_example :
    is_scanning (run_scan ((1_700_000, 1_710_000) ∷ (2_400_000, 2_410_000) ∷ []) sweep).phase
    ≡ false
unfolding scan_tick end_dwell next_step scan_apply_step_drained apply_step dwell_over add64
run_scan-IsOver_example =
    run_scan-IsOver ((1_700_000, 1_710_000) ∷ (2_400_000, 2_410_000) ∷ []) sweep (omega arith)
      (omega arith) (refl, (refl, tt))
