-- ===== src/Ground/Trail.antt =====
-- A scan keeps to its list of steps, whatever ticks and samples follow its start.
use waybeam_wfb_ng.Base.{
  ℕ, suc, ◌+◌, ◌*◌, ◌%◌, ◌≤◌, ◌<◌, ◌≡◌, ap, refl, sym, ◌∙◌, Bool, true, false, ◌&&◌, if_cases, List,
  [], ◌∷◌, ◌++◌, append-nil, length, leb, arith,
}
use waybeam_wfb_ng.Base.Int.{ℤ}
use waybeam_wfb_ng.Base.Word.{add64, u64_mod}
use waybeam_wfb_ng.Ground.Hop.{IwHop}
use waybeam_wfb_ng.Ground.Scan.{
  scan_running, ScanState, is_scanning, apply_step, scan_apply_step_drained, end_dwell, dwell_over,
  scan_tick, start_scan,
}
use waybeam_wfb_ng.Ground.Sweep.{Ended, get_elem?-inside, found, gave_up, moved_on, end_dwell-Ended}
use waybeam_wfb_ng.Ground.Course.{
  ScanEvent, ticked, sampled, on_scan_event, HeardSince, heard_now, heard_before, Traffic, quiet,
  heard, SilentSince, latest, tick_now, swept, scan_back, AllTimed, Stage, running, found_at,
  stopped_behind, IsOnTrail,
}
use waybeam_wfb_ng.Ground.Heard.{
  swept-suc, still-IsOnTrail, more_traffic, note_traffic-IsOnTrail, heard_at_tick,
}

module _ (ifaces : List (List ℕ)) (steps : List (ℤ × List ℕ)) (dwell_ms t0 : ℕ) where
  at_last : (n : ℕ) → n < length steps → length steps ≤ suc n → suc n ≡ length steps
  at_last n i m = omega arith

  traffic_heard :
      {start : ℕ} {past : List ScanEvent} {saw : Bool}
      → Traffic start past saw
      → saw ≡ true
      → HeardSince start past
  traffic_heard (quiet h) e = absurd (cc e)
  traffic_heard (heard h) e = h

  traffic_quiet :
      {start : ℕ} {past : List ScanEvent} {saw : Bool}
      → Traffic start past saw
      → saw ≡ false
      → SilentSince start past
  traffic_quiet (quiet h) e = h
  traffic_quiet (heard h) e = absurd (cc e)

  heard_till_latest :
      (past : List ScanEvent) {start : ℕ}
      → AllTimed ifaces steps dwell_ms t0 past
      → HeardSince start past
      → start + 200_000 ≤ latest ifaces steps dwell_ms t0 past
  unfolding AllTimed latest
  heard_till_latest [] _ h = elim h [ ]
  heard_till_latest (ticked t_us now ∷ past) (m, l, w, d) (heard_before _ _ h) =
      let i = heard_till_latest past d h in omega arith
  heard_till_latest (sampled uniq role now ∷ past) (m, d) (heard_now _ _ _ _ n r l) = l
  heard_till_latest (sampled uniq role now ∷ past) (m, d) (heard_before _ _ h) =
      let i = heard_till_latest past d h in omega arith

  next_start :
      (n start t_us now : ℕ)
      → t0 + n * (dwell_ms * 1_000) ≤ start
      → start + dwell_ms * 1_000 ≤ t_us
      → t_us ≤ now
      → t0 + suc n * (dwell_ms * 1_000) ≤ now
  next_start n start t_us now p d l = omega arith

  module _ (t_us now : ℕ) (past : List ScanEvent) (g : ScanState) (hs : List IwHop) where
    hop_silent :
        AllTimed ifaces steps dwell_ms t0 (ticked t_us now ∷ past)
        → t_us ≤ now
        → SilentSince now (ticked t_us now ∷ past)
    unfolding latest
    hop_silent d l h = let i = heard_till_latest (ticked t_us now ∷ past) d h in omega arith

    ending-IsOnTrail :
        {r : ScanState × List IwHop}
        → IsOnTrail ifaces steps dwell_ms t0 past (g, hs)
        → g.phase ≡ scan_running
        → g.hops_done ≡ g.cur_step
        → AllTimed ifaces steps dwell_ms t0 (ticked t_us now ∷ past)
        → t_us ≤ now
        → now + dwell_ms * 1_000 + 200_000 < u64_mod
        → g.step_started_us + dwell_ms * 1_000 ≤ t_us
        → Traffic g.step_started_us past g.step_saw_traffic
        → Ended now g r
        → IsOnTrail ifaces steps dwell_ms t0 (ticked t_us now ∷ past) (r.0, hs ++ r.1)
    ending-IsOnTrail z p n m l w d t (found chan ht e saw) = record {
      same_steps = z.same_steps;
      same_ifaces = z.same_ifaces;
      same_dwell = z.same_dwell;
      inside = z.inside;
      hops = rw append-nil z.hops;
      paced = z.paced;
      unwrapped = z.unwrapped;
      stage =
          found_at refl (ap suc n) (rw (sym z.same_steps) e)
            (tick_now t_us now past d (traffic_heard t saw));
    }
    ending-IsOnTrail z p n m l w d t (gave_up b q) = record {
      same_steps = z.same_steps;
      same_ifaces = z.same_ifaces;
      same_dwell = z.same_dwell;
      inside = z.inside;
      hops = rw append-nil z.hops;
      paced = z.paced;
      unwrapped = z.unwrapped;
      stage =
          stopped_behind refl (ap suc n ∙ at_last g.cur_step z.inside (rw (sym z.same_steps) b))
            (at_last g.cur_step z.inside (rw (sym z.same_steps) b))
            (tick_now t_us now past d (traffic_quiet t q));
    }
    ending-IsOnTrail z p n m l w d t (moved_on chan ht i e q) = record {
      same_steps = z.same_steps;
      same_ifaces = z.same_ifaces;
      same_dwell = z.same_dwell;
      inside = rw (sym z.same_steps) i;
      hops =
          rw (z.hops, z.same_ifaces)
            (sym (
              swept-suc ifaces steps dwell_ms t0 (suc g.cur_step) steps chan ht
                (rw (sym z.same_steps) e)));
      paced = next_start g.cur_step g.step_started_us t_us now z.paced d l;
      unwrapped = w;
      stage = running p (ap suc n) (quiet (hop_silent m l));
    }

    over_at :
        IsOnTrail ifaces steps dwell_ms t0 past (g, hs)
        → dwell_over t_us g ≡ true
        → g.step_started_us + dwell_ms * 1_000 ≤ t_us
    unfolding dwell_over add64
    over_at z due =
        let d : leb ((g.step_started_us + dwell_ms * 1_000) % u64_mod) t_us ≡ true =
          rw (sym z.same_dwell) due in
        ground (arith, z.unwrapped)

    not_due : is_scanning g.phase && dwell_over t_us g ≡ true → ¬ (is_scanning g.phase ≡ false)
    not_due c off = ground (arith, c, off)

    due_tick-IsOnTrail :
        IsOnTrail ifaces steps dwell_ms t0 past (g, hs)
        → AllTimed ifaces steps dwell_ms t0 (ticked t_us now ∷ past)
        → t_us ≤ now
        → now + dwell_ms * 1_000 + 200_000 < u64_mod
        → is_scanning g.phase && dwell_over t_us g ≡ true
        → Stage ifaces steps dwell_ms t0 past g
        → IsOnTrail ifaces steps dwell_ms t0
            (ticked t_us now ∷ past)
            ((end_dwell now g).0, hs ++ (end_dwell now g).1)
    due_tick-IsOnTrail z m l w c (running p n t) =
        ending-IsOnTrail z p n m l w (over_at z (ground arith)) t
          (end_dwell-Ended t_us now g (rw z.same_steps z.inside))
    due_tick-IsOnTrail z m l w c (found_at p n f d) = absurd (not_due c (ap is_scanning p))
    due_tick-IsOnTrail z m l w c (stopped_behind p n b d) = absurd (not_due c (ap is_scanning p))

    scan_tick-IsOnTrail :
        IsOnTrail ifaces steps dwell_ms t0 past (g, hs)
        → AllTimed ifaces steps dwell_ms t0 (ticked t_us now ∷ past)
        → t_us ≤ now
        → now + dwell_ms * 1_000 + 200_000 < u64_mod
        → IsOnTrail ifaces steps dwell_ms t0
            (ticked t_us now ∷ past)
            ((scan_tick t_us now g).0, hs ++ (scan_tick t_us now g).1)
    unfolding scan_tick
    scan_tick-IsOnTrail z m l w =
        if_cases
          (λ (r : ScanState × List IwHop).
            IsOnTrail ifaces steps dwell_ms t0 (ticked t_us now ∷ past) (r.0, hs ++ r.1))
          (is_scanning g.phase && dwell_over t_us g) (λ c. due_tick-IsOnTrail z m l w c z.stage)
          (λ _.
            still-IsOnTrail ifaces steps dwell_ms t0 (ticked t_us now) past g hs
              (λ p t.
                more_traffic ifaces steps dwell_ms t0 (ticked t_us now) past
                  (heard_at_tick ifaces steps dwell_ms t0 t_us now past) t)
              z)

  unheard : {start : ℕ} → SilentSince start []
  unheard h = elim h [ ]

  start_scan-IsOnTrail :
      (g : ScanState)
      → 0 < length steps
      → t0 + dwell_ms * 1_000 + 200_000 < u64_mod
      → IsOnTrail ifaces steps dwell_ms t0 [] (start_scan ifaces steps dwell_ms t0 g)
  unfolding start_scan scan_apply_step_drained apply_step swept
  start_scan-IsOnTrail g i w =
      let s = get_elem?-inside steps 0 i in
      rw (start_scan, scan_apply_step_drained, s.1)
        record {
          same_steps = refl;
          same_ifaces = refl;
          same_dwell = refl;
          inside = i;
          hops = sym (swept-suc ifaces steps dwell_ms t0 0 steps s.0.0 s.0.1 s.1);
          paced = omega arith;
          unwrapped = w;
          stage = running refl refl (quiet unheard);
        }

  -- A scan of a list of steps, whatever ticks and samples follow its start. Its hops are those of
  -- the steps from the first to the current one, each once and in order, and the current step began
  -- no earlier than a dwell time for each step before it. It runs on, and its flag tells whether a
  -- receiver counted packets 200 ms or more behind the hop; or it has found the channel and
  -- bandwidth of the current step; or it has stopped behind the last step. If it is over, a tick
  -- came for which the dwell of the current step was over, and before that tick a receiver had
  -- counted such packets if a channel was found, and none had if the scan stopped. The list has a
  -- step, the clock does not run back, and it is far from wrapping.
  pub scan_back-IsOnTrail :
      (past : List ScanEvent) (g : ScanState)
      → 0 < length steps
      → AllTimed ifaces steps dwell_ms t0 past
      → IsOnTrail ifaces steps dwell_ms t0 past (scan_back ifaces steps dwell_ms t0 past g)
  unfolding scan_back AllTimed on_scan_event
  scan_back-IsOnTrail [] g i w = start_scan-IsOnTrail g i w
  scan_back-IsOnTrail (ticked t_us now ∷ past) g i (a, l, w, d) =
      let r = scan_back ifaces steps dwell_ms t0 past g in
      scan_tick-IsOnTrail t_us now past r.0 r.1 (scan_back-IsOnTrail past g i d) (a, l, w, d) l w
  scan_back-IsOnTrail (sampled uniq role now ∷ past) g i (a, d) =
      let r = scan_back ifaces steps dwell_ms t0 past g in
      note_traffic-IsOnTrail ifaces steps dwell_ms t0 uniq role now past r.0 r.1
        (scan_back-IsOnTrail past g i d)
