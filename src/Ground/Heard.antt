-- ===== src/Ground/Heard.antt =====
-- Samples of traffic in the course of a scan.
use waybeam_wfb_ng.Base.{
  ℕ, zero, suc, ◌+◌, ◌*◌, ◌<◌, ◌≡◌, ap, sym, ◌∙◌, Bool, true, false, ◌&&◌, if_cases, some, List, [],
  ◌∷◌, ◌++◌, append-nil, append_assoc, get_elem?, leb, ltb, arith,
}
use mathlib.Core.Option.{some-injective}
use waybeam_wfb_ng.Base.Int.{ℤ}
use waybeam_wfb_ng.Base.Word.{add64, u64_mod}
use waybeam_wfb_ng.Base.Text.{codes, bytes_eq}
use waybeam_wfb_ng.Ground.Hop.{IwHop, hop_all}
use waybeam_wfb_ng.Ground.Scan.{scan_running, ScanState, is_scanning, note_traffic}
use waybeam_wfb_ng.Ground.Course.{
  ScanEvent, ticked, sampled, HeardSince, heard_now, heard_before, Traffic, quiet, heard,
  tick_before, swept, Stage, running, found_at, stopped_behind, IsOnTrail,
}

module _ (ifaces : List (List ℕ)) (steps : List (ℤ × List ℕ)) (dwell_ms t0 : ℕ) where
  pub swept-suc :
      (n : ℕ) (xs : List (ℤ × List ℕ)) (chan : ℤ) (ht : List ℕ)
      → get_elem? xs n ≡ some (chan, ht)
      → swept ifaces steps dwell_ms t0 (suc n) xs
        ≡ swept ifaces steps dwell_ms t0 n xs ++ hop_all chan ht ifaces
  unfolding swept
  swept-suc n [] chan ht e = absurd (cc e)
  swept-suc zero ((c, h) ∷ xs) chan ht e =
      append-nil (hop_all c h ifaces)
      ∙ ap (λ (p : ℤ × List ℕ). hop_all p.0 p.1 ifaces) (some-injective (c, h) (chan, ht) e)
  swept-suc (suc n) ((c, h) ∷ xs) chan ht e = rw (swept-suc n xs chan ht e) (
      sym (
        append_assoc (hop_all c h ifaces) (swept ifaces steps dwell_ms t0 n xs)
          (hop_all chan ht ifaces)))

  module _ (e : ScanEvent) (past : List ScanEvent) where
    stage_later :
        (g : ScanState)
        → (g.phase ≡ scan_running
            → Traffic g.step_started_us past g.step_saw_traffic
            → Traffic g.step_started_us (e ∷ past) g.step_saw_traffic)
        → Stage ifaces steps dwell_ms t0 past g
        → Stage ifaces steps dwell_ms t0 (e ∷ past) g
    stage_later g keeps (running p n t) = running p n (keeps p t)
    stage_later g keeps (found_at p n f d) = found_at p n f (tick_before e past d)
    stage_later g keeps (stopped_behind p n l d) = stopped_behind p n l (tick_before e past d)

    pub still-IsOnTrail :
        (g : ScanState) (hs : List IwHop)
        → (g.phase ≡ scan_running
            → Traffic g.step_started_us past g.step_saw_traffic
            → Traffic g.step_started_us (e ∷ past) g.step_saw_traffic)
        → IsOnTrail ifaces steps dwell_ms t0 past (g, hs)
        → IsOnTrail ifaces steps dwell_ms t0 (e ∷ past) (g, hs ++ [])
    still-IsOnTrail g hs keeps z = record {
      same_steps = z.same_steps;
      same_ifaces = z.same_ifaces;
      same_dwell = z.same_dwell;
      inside = z.inside;
      hops = rw append-nil z.hops;
      paced = z.paced;
      unwrapped = z.unwrapped;
      stage = stage_later g keeps z.stage;
    }

  pub more_traffic :
      (e : ScanEvent) (past : List ScanEvent) {start : ℕ} {saw : Bool}
      → (HeardSince start (e ∷ past) → HeardSince start past)
      → Traffic start past saw
      → Traffic start (e ∷ past) saw
  more_traffic e past back (quiet h) = quiet (λ x. h (back x))
  more_traffic e past back (heard h) = heard (heard_before e past h)

  pub heard_at_tick :
      (t_us now : ℕ) (past : List ScanEvent) {start : ℕ}
      → HeardSince start (ticked t_us now ∷ past)
      → HeardSince start past
  heard_at_tick t_us now past (heard_before _ _ h) = h

  -- The test of `note_traffic`.
  unfoldable pub counts_now : ℕ → List ℕ → ℕ → ScanState → Bool
  counts_now uniq role now g =
      ltb 0 uniq
      && is_scanning g.phase
      && bytes_eq role (codes "rx")
      && leb (add64 g.step_started_us 200_000) now

  module _ (uniq : ℕ) (role : List ℕ) (now : ℕ) (past : List ScanEvent) (g : ScanState) where
    counted_heard :
        g.step_started_us + dwell_ms * 1_000 + 200_000 < u64_mod
        → counts_now uniq role now g ≡ true
        → HeardSince g.step_started_us (sampled uniq role now ∷ past)
    unfolding counts_now add64
    counted_heard w c = heard_now uniq role now past (ground arith) (ground arith) (ground arith)

    silent_on :
        counts_now uniq role now g ≡ false
        → is_scanning g.phase ≡ true
        → g.step_started_us + dwell_ms * 1_000 + 200_000 < u64_mod
        → HeardSince g.step_started_us (sampled uniq role now ∷ past)
        → HeardSince g.step_started_us past
    unfolding counts_now add64
    silent_on c p w (heard_now _ _ _ _ n r l) = absurd (ground arith)
    silent_on c p w (heard_before _ _ h) = h

    uncounted_traffic :
        g.step_started_us + dwell_ms * 1_000 + 200_000 < u64_mod
        → counts_now uniq role now g ≡ false
        → g.phase ≡ scan_running
        → Traffic g.step_started_us past g.step_saw_traffic
        → Traffic g.step_started_us (sampled uniq role now ∷ past) g.step_saw_traffic
    uncounted_traffic w c p t =
        more_traffic (sampled uniq role now) past (silent_on c (ap is_scanning p) w) t

    not_over : counts_now uniq role now g ≡ true → ¬ (is_scanning g.phase ≡ false)
    unfolding counts_now
    not_over c off = ground (arith, c, off)

    counted_stage :
        g.step_started_us + dwell_ms * 1_000 + 200_000 < u64_mod
        → counts_now uniq role now g ≡ true
        → Stage ifaces steps dwell_ms t0 past g
        → Stage ifaces steps dwell_ms t0
            (sampled uniq role now ∷ past)
            (record g { step_saw_traffic = true })
    unfolding counts_now
    counted_stage w c (running p n t) = running p n (heard (counted_heard w c))
    counted_stage w c (found_at p n f d) = absurd (not_over c (ap is_scanning p))
    counted_stage w c (stopped_behind p n l d) = absurd (not_over c (ap is_scanning p))

    pub note_traffic-IsOnTrail :
        (hs : List IwHop)
        → IsOnTrail ifaces steps dwell_ms t0 past (g, hs)
        → IsOnTrail ifaces steps dwell_ms t0
            (sampled uniq role now ∷ past)
            (note_traffic uniq role now g, hs ++ [])
    unfolding note_traffic counts_now
    note_traffic-IsOnTrail hs z =
        if_cases
          (λ (h : ScanState).
            IsOnTrail ifaces steps dwell_ms t0 (sampled uniq role now ∷ past) (h, hs ++ []))
          (counts_now uniq role now g)
          (λ c. record {
            same_steps = z.same_steps;
            same_ifaces = z.same_ifaces;
            same_dwell = z.same_dwell;
            inside = z.inside;
            hops = rw append-nil z.hops;
            paced = z.paced;
            unwrapped = z.unwrapped;
            stage = counted_stage z.unwrapped c z.stage;
          })
          (λ c.
            still-IsOnTrail (sampled uniq role now) past g hs (uncounted_traffic z.unwrapped c) z)
