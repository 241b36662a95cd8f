-- ===== src/Ground/ScanTests.antt =====
-- Requests to scan, run on concrete queries.
use waybeam_wfb_ng.Base.{◌≡◌, refl, false, some, [], ◌∷◌}
use waybeam_wfb_ng.Base.Int.{pos, negsuc}
use waybeam_wfb_ng.Base.Text.{codes}
use waybeam_wfb_ng.Csa.Json.{strtoll}
use waybeam_wfb_ng.Csa.Machine.{has_bw, to_int32}
use waybeam_wfb_ng.Ground.Query.{qs_get, qs_pct_decode}
use waybeam_wfb_ng.Ground.Start.{split_ifaces, all_known}
use waybeam_wfb_ng.Ground.Samples.{config_of}
use waybeam_wfb_ng.Ground.Hop.{csa_idle}
use waybeam_wfb_ng.Ground.Scan.{scan_idle, ScanState}
use waybeam_wfb_ng.Ground.ScanStart.{scan_chans, chan_token, chan_number, add_chan, post_scan}
use waybeam_wfb_ng.Ground.ScanGranted.{ScanPosted, post_scan-ScanPosted}

-- The tail of a token is ignored.
read_chans : scan_chans 32 (codes "36,149x") ≡ some (pos 36 ∷ pos 149 ∷ [])
unfolding scan_chans chan_token chan_number add_chan strtoll to_int32
read_chans = refl

abbrev at_rest : ScanState
at_rest = record {
  phase = scan_idle;
  sess = 0;
  ifaces = [];
  steps = [];
  cur_step = 0;
  step_started_us = 0;
  step_dwell_us = 0;
  step_saw_traffic = false;
  found_chan = negsuc 0;
  found_ht = [];
  hops_done = 0;
}

scan_starts :
    (post_scan
      (config_of 0)
      csa_idle
      (codes "iface=wlan0&chans=149,157&hts=HT20,HT40+")
      1_000_000
      at_rest).1
    ≡ 200
unfolding post_scan qs_get split_ifaces all_known has_bw scan_chans strtoll qs_pct_decode
scan_starts = refl

post_scan-ScanPosted_example : ScanPosted (config_of 0) csa_idle 1_000_000 at_rest (
    post_scan
      (config_of 0)
      csa_idle
      (codes "iface=wlan0&chans=149,157&hts=HT20,HT40+")
      1_000_000
      at_rest)
post_scan-ScanPosted_example =
    post_scan-ScanPosted (config_of 0) csa_idle 1_000_000 at_rest
      (codes "iface=wlan0&chans=149,157&hts=HT20,HT40+")
