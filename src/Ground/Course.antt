-- ===== src/Ground/Course.antt =====
-- The course of a scan through its list of steps, over ticks of the server and samples of traffic.
use waybeam_wfb_ng.Base.{
  ℕ, zero, suc, ◌+◌, ◌*◌, ◌≤◌, ◌<◌, ◌≡◌, Bool, true, false, some, List, [], ◌∷◌, ◌++◌, length,
  get_elem?,
}
use waybeam_wfb_ng.Base.Int.{ℤ}
use waybeam_wfb_ng.Base.Word.{u64_mod}
use waybeam_wfb_ng.Base.Text.{codes, bytes_eq}
use waybeam_wfb_ng.Ground.Hop.{IwHop, hop_all}
use waybeam_wfb_ng.Ground.Scan.{
  scan_running, scan_found, scan_stopped, ScanState, scan_tick, note_traffic, start_scan,
}

-- A tick with its time and the time behind its hops, or a count of packets from a tunnel.
pub data ScanEvent : Type 0 where
  ticked : ℕ → ℕ → ScanEvent
  sampled : ℕ → List ℕ → ℕ → ScanEvent

unfoldable pub on_scan_event : ScanEvent → ScanState → ScanState × List IwHop
on_scan_event (ticked t_us now) g = scan_tick t_us now g
on_scan_event (sampled uniq role now) g = (note_traffic uniq role now g, [])

-- A receiver counted packets 200 ms or more behind the hop at `start`.
pub data HeardSince (start : ℕ) : List ScanEvent → Type 0 where
  heard_now :
      (uniq : ℕ) (role : List ℕ) (now : ℕ) (past : List ScanEvent)
      → 0 < uniq
      → bytes_eq role (codes "rx") ≡ true
      → start + 200_000 ≤ now
      → HeardSince start (sampled uniq role now ∷ past)
  heard_before :
      (e : ScanEvent) (past : List ScanEvent) → HeardSince start past → HeardSince start (e ∷ past)

-- The flag of a step tells whether a receiver counted packets.
pub data Traffic (start : ℕ) (past : List ScanEvent) : Bool → Type 0 where
  quiet : ¬ HeardSince start past → Traffic start past false
  heard : HeardSince start past → Traffic start past true

-- A tick came at `due` or later, and what had happened before it is as `P` says.
pub data TickedAt (P : List ScanEvent → Type 0) (due : ℕ) : List ScanEvent → Type 0 where
  tick_now :
      (t_us now : ℕ) (past : List ScanEvent)
      → due ≤ t_us
      → P past
      → TickedAt P due (ticked t_us now ∷ past)
  tick_before :
      (e : ScanEvent) (past : List ScanEvent) → TickedAt P due past → TickedAt P due (e ∷ past)

abbrev pub SilentSince : ℕ → List ScanEvent → Type 0
SilentSince start past = ¬ HeardSince start past

module _ (ifaces : List (List ℕ)) (steps : List (ℤ × List ℕ)) (dwell_ms t0 : ℕ) where
  -- The hops of the first `n` steps.
  unfoldable pub swept : ℕ → List (ℤ × List ℕ) → List IwHop
  swept zero xs = []
  swept (suc n) [] = []
  swept (suc n) ((chan, ht) ∷ xs) = hop_all chan ht ifaces ++ swept n xs

  -- The state and the hops behind a history, its latest event first.
  unfoldable pub scan_back : List ScanEvent → ScanState → ScanState × List IwHop
  scan_back [] g = start_scan ifaces steps dwell_ms t0 g
  scan_back (e ∷ past) g =
      let r = scan_back past g in let q = on_scan_event e r.0 in (q.0, r.1 ++ q.1)

  -- The clock behind a history.
  unfoldable pub latest : List ScanEvent → ℕ
  latest [] = t0
  latest (ticked t_us now ∷ past) = now
  latest (sampled uniq role now ∷ past) = now

  -- The clock does not run back, and at the hops it is far from wrapping.
  unfoldable pub AllTimed : List ScanEvent → Type 0
  AllTimed [] = t0 + dwell_ms * 1_000 + 200_000 < u64_mod
  AllTimed (ticked t_us now ∷ past) =
      (latest past ≤ t_us)
      × (t_us ≤ now)
      × (now + dwell_ms * 1_000 + 200_000 < u64_mod)
      × AllTimed past
  AllTimed (sampled uniq role now ∷ past) = (latest past ≤ now) × AllTimed past

  pub data Stage (past : List ScanEvent) (g : ScanState) : Type 0 where
    running :
        g.phase ≡ scan_running
        → g.hops_done ≡ g.cur_step
        → Traffic g.step_started_us past g.step_saw_traffic
        → Stage past g
    found_at :
        g.phase ≡ scan_found
        → g.hops_done ≡ suc g.cur_step
        → get_elem? steps g.cur_step ≡ some (g.found_chan, g.found_ht)
        → TickedAt (HeardSince g.step_started_us) (g.step_started_us + dwell_ms * 1_000) past
        → Stage past g
    stopped_behind :
        g.phase ≡ scan_stopped
        → g.hops_done ≡ length steps
        → suc g.cur_step ≡ length steps
        → TickedAt (SilentSince g.step_started_us) (g.step_started_us + dwell_ms * 1_000) past
        → Stage past g

  pub record IsOnTrail (past : List ScanEvent) (r : ScanState × List IwHop) : Type 0 where
    pub same_steps : r.0.steps ≡ steps
    pub same_ifaces : r.0.ifaces ≡ ifaces
    pub same_dwell : r.0.step_dwell_us ≡ dwell_ms * 1_000
    pub inside : r.0.cur_step < length steps
    pub hops : r.1 ≡ swept (suc r.0.cur_step) steps
    pub paced : t0 + r.0.cur_step * (dwell_ms * 1_000) ≤ r.0.step_started_us
    pub unwrapped : r.0.step_started_us + dwell_ms * 1_000 + 200_000 < u64_mod
    pub stage : Stage past r.0
