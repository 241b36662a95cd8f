-- ===== src/Ground/Sweep.antt =====
-- How a dwell ends, and that a sweep ends.
use waybeam_wfb_ng.Base.{
  ℕ, zero, suc, ◌+◌, ◌≤◌, ◌<◌, ◌≡◌, refl, true, false, if_cases, leb→le, some, List, [], ◌∷◌,
  length, get_elem?, Bool-cases, inl, inr, leb, arith,
}
use waybeam_wfb_ng.Base.Int.{ℤ}
use waybeam_wfb_ng.Ground.Hop.{IwHop, hop_all}
use waybeam_wfb_ng.Ground.Scan.{
  scan_found, scan_stopped, ScanState, is_scanning, apply_step, scan_apply_step_drained, note_found,
  next_step, end_dwell, dwell_over, scan_tick,
}

-- How a dwell can end.
pub data Ended (now : ℕ) (g : ScanState) : ScanState × List IwHop → Type 0 where
  found :
      (chan : ℤ) (ht : List ℕ)
      → get_elem? g.steps g.cur_step ≡ some (chan, ht)
      → g.step_saw_traffic ≡ true
      → Ended now g (
        record g {
          hops_done = suc g.hops_done;
          found_chan = chan;
          found_ht = ht;
          phase = scan_found;
        },
        [],
      )
  gave_up :
      length g.steps ≤ suc g.cur_step
      → g.step_saw_traffic ≡ false
      → Ended now g (record g { hops_done = suc g.hops_done; phase = scan_stopped }, [])
  moved_on :
      (chan : ℤ) (ht : List ℕ)
      → suc g.cur_step < length g.steps
      → get_elem? g.steps (suc g.cur_step) ≡ some (chan, ht)
      → g.step_saw_traffic ≡ false
      → Ended now g (
        record g {
          hops_done = suc g.hops_done;
          cur_step = suc g.cur_step;
          step_saw_traffic = false;
          step_started_us = now;
        },
        hop_all chan ht g.ifaces,
      )

pub get_elem?-inside {ℓ} :
    {A : Type ℓ} (xs : List A) (i : ℕ) → i < length xs → (a : A) × (get_elem? xs i ≡ some a)
get_elem?-inside [] i h = absurd (omega arith)
get_elem?-inside (x ∷ xs) zero h = (x, refl)
get_elem?-inside (x ∷ xs) (suc i) h = get_elem?-inside xs i (omega arith)

more_left : (n m : ℕ) → leb n m ≡ false → m < n
more_left n m h = ground arith

module _ (t_us now : ℕ) (g : ScanState) where
  pub end_dwell-Ended : g.cur_step < length g.steps → Ended now g (end_dwell now g)
  unfolding end_dwell next_step note_found scan_apply_step_drained apply_step
  end_dwell-Ended inside =
      if_cases (Ended now g) g.step_saw_traffic
        (λ saw.
          let s = get_elem?-inside g.steps g.cur_step inside in
          rw (note_found, s.1) (found s.0.0 s.0.1 s.1 saw))
        λ quiet.
          if_cases (Ended now g) (leb (length g.steps) (suc g.cur_step))
            (λ last. gave_up (leb→le (length g.steps) (suc g.cur_step) last) quiet)
            λ more.
              let s =
                get_elem?-inside g.steps (suc g.cur_step)
                  (more_left (length g.steps) (suc g.cur_step) more) in
              rw (scan_apply_step_drained, s.1)
                (moved_on s.0.0 s.0.1 (more_left (length g.steps) (suc g.cur_step) more) s.1 quiet)

-- The scan behind a sequence of ticks, each with its time and the time behind its hops.
unfoldable pub run_scan : List (ℕ × ℕ) → ScanState → ScanState
run_scan [] g = g
run_scan ((t_us, now) ∷ ts) g = run_scan ts (scan_tick t_us now g).0

-- Every tick finds the dwell over.
abbrev pub AllDue : List (ℕ × ℕ) → ScanState → Type 0
AllDue [] g = Unit
AllDue ((t_us, now) ∷ ts) g = (dwell_over t_us g ≡ true) × AllDue ts (scan_tick t_us now g).0

ended_stays :
    (ts : List (ℕ × ℕ)) (g : ScanState)
    → is_scanning g.phase ≡ false
    → is_scanning (run_scan ts g).phase ≡ false
unfolding run_scan scan_tick
ended_stays [] g h = h
ended_stays ((t_us, now) ∷ ts) g h = ended_stays ts (scan_tick t_us now g).0 (rw (scan_tick, h) h)

pub due_tick :
    (t_us now : ℕ) (g : ScanState)
    → is_scanning g.phase ≡ true
    → dwell_over t_us g ≡ true
    → scan_tick t_us now g ≡ end_dwell now g
unfolding scan_tick
due_tick t_us now g on due = rw (on, due)

-- Behind the end of a dwell, if the theorem holds for the ticks that are left.
finished-IsOver :
    (ts : List (ℕ × ℕ)) (now : ℕ) (g : ScanState) {r : ScanState × List IwHop}
    → ((h : ScanState)
        → h.cur_step < length h.steps
        → length h.steps ≤ h.cur_step + length ts
        → AllDue ts h
        → is_scanning (run_scan ts h).phase ≡ false)
    → AllDue ts r.0
    → length g.steps ≤ suc g.cur_step + length ts
    → Ended now g r
    → is_scanning (run_scan ts r.0).phase ≡ false
finished-IsOver ts now g rest d n (found chan ht e q) = ended_stays ts _ refl
finished-IsOver ts now g rest d n (gave_up e q) = ended_stays ts _ refl
finished-IsOver ts now g rest d n (moved_on chan ht i e q) = rest _ i (omega arith) d

-- A scan whose position is in its list is over after as many ticks that find the dwell over as
-- there are steps left.
pub run_scan-IsOver :
    (ts : List (ℕ × ℕ)) (g : ScanState)
    → g.cur_step < length g.steps
    → length g.steps ≤ g.cur_step + length ts
    → AllDue ts g
    → is_scanning (run_scan ts g).phase ≡ false
unfolding run_scan
run_scan-IsOver [] g i n d = absurd (omega arith)
run_scan-IsOver ((t_us, now) ∷ ts) g i n d = elim (Bool-cases (is_scanning g.phase)) [
  | inr off ↦ ended_stays ((t_us, now) ∷ ts) g off
  | inl on ↦
      let ended : Ended now g (scan_tick t_us now g) =
        rw (due_tick t_us now g on d.0) (end_dwell-Ended t_us now g i) in
      finished-IsOver ts now g (run_scan-IsOver ts) d.1 (omega arith) ended
]
