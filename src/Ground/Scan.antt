-- ===== src/Ground/Scan.antt =====
-- ground/gs_supervisor_scan.c, with the start and the end of a scan in ground/gs_supervisor_http.c
-- and the sampling of traffic in `stats_drain`. The datagrams that a hop drains are left out.
use waybeam_wfb_ng.Base.{
  ℕ, suc, ◌*◌, Bool, true, false, ◌&&◌, Option, none, some, List, [], length, get_elem?, leb, ltb,
  if◌then◌else◌,
}
use waybeam_wfb_ng.Base.Int.{ℤ, negsuc}
use waybeam_wfb_ng.Base.Word.{add64, inc32}
use waybeam_wfb_ng.Base.Text.{codes, bytes_eq}
use waybeam_wfb_ng.Ground.Hop.{IwHop, hop_all}

pub data ScanPhase : Type 0 where
  scan_idle scan_running scan_found scan_stopped : ScanPhase

-- A step is a channel with its bandwidth; `step_count` is the length of the list.
pub record ScanState : Type 0 where
  pub phase : ScanPhase
  pub sess : ℕ
  pub ifaces : List (List ℕ)
  pub steps : List (ℤ × List ℕ)
  pub cur_step : ℕ
  pub step_started_us : ℕ
  pub step_dwell_us : ℕ
  pub step_saw_traffic : Bool
  pub found_chan : ℤ
  pub found_ht : List ℕ
  pub hops_done : ℕ

abbrev pub is_scanning : ScanPhase → Bool
is_scanning scan_running = true
is_scanning _ = false

-- `scan_apply_step_drained(c, i)`, at the clock `now` behind the hops.
unfoldable pub apply_step : ℕ → Option (ℤ × List ℕ) → ℕ → ScanState → ScanState × List IwHop
apply_step i none now g = (g, [])
apply_step i (some (chan, ht)) now g = (
  record g { cur_step = i; step_saw_traffic = false; step_started_us = now },
  hop_all chan ht g.ifaces,
)

unfoldable pub scan_apply_step_drained : ℕ → ℕ → ScanState → ScanState × List IwHop
scan_apply_step_drained i now g = apply_step i (get_elem? g.steps i) now g

unfoldable pub note_found : Option (ℤ × List ℕ) → ScanState → ScanState
note_found none g = g
note_found (some (chan, ht)) g = record g { found_chan = chan; found_ht = ht; phase = scan_found }

-- The next step, or the end of the list.
unfoldable pub next_step : ℕ → ScanState → ScanState × List IwHop
next_step now g =
    let i = suc g.cur_step in
    if leb (length g.steps) i
    then (record g { phase = scan_stopped }, [])
    else scan_apply_step_drained i now g

-- The end of a dwell.
unfoldable pub end_dwell : ℕ → ScanState → ScanState × List IwHop
end_dwell now g =
    let counted = record g { hops_done = suc g.hops_done } in
    if g.step_saw_traffic
    then (note_found (get_elem? g.steps g.cur_step) counted, [])
    else next_step now counted

unfoldable pub dwell_over : ℕ → ScanState → Bool
dwell_over t_us g = leb (add64 g.step_started_us g.step_dwell_us) t_us

unfoldable pub scan_tick : ℕ → ℕ → ScanState → ScanState × List IwHop
scan_tick t_us now g = if is_scanning g.phase && dwell_over t_us g then end_dwell now g else (g, [])

-- A sample of `uniq` from a tunnel: traffic counts from 200 ms after the hop.
unfoldable pub note_traffic : ℕ → List ℕ → ℕ → ScanState → ScanState
note_traffic uniq role now g =
    if ltb 0 uniq
      && is_scanning g.phase
      && bytes_eq role (codes "rx")
      && leb (add64 g.step_started_us 200_000) now
    then record g { step_saw_traffic = true }
    else g

-- The assignments that start a checked scan, behind a memset of the whole record.
unfoldable pub start_scan :
    List (List ℕ) → List (ℤ × List ℕ) → ℕ → ℕ → ScanState → ScanState × List IwHop
start_scan ifaces steps dwell_ms now g = scan_apply_step_drained 0 now (record {
  phase = scan_running;
  sess = inc32 0;
  ifaces = ifaces;
  steps = steps;
  cur_step = 0;
  step_started_us = 0;
  step_dwell_us = dwell_ms * 1_000;
  step_saw_traffic = false;
  found_chan = negsuc 0;
  found_ht = [];
  hops_done = 0;
})

unfoldable pub cancel_scan : ScanState → ScanState
cancel_scan g = if is_scanning g.phase then record g { phase = scan_stopped } else g
