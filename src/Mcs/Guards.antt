-- ===== src/Mcs/Guards.antt =====
-- What each decision of a report is worth: the conditions without which no demote or promote comes.
use waybeam_wfb_ng.Base.{
  ℕ, ◌≤◌, ◌<◌, ◌≡◌, ◌≢◌, inl, inr, Bool-cases, Bool, true, false, arith, ◌&&◌, ◌||◌,
}
use waybeam_wfb_ng.Base.Int.{pos, ◌+ℤ◌, ◌≤ℤ◌, ◌<ℤ◌}
use waybeam_wfb_ng.Base.Floating.{Floating}
use waybeam_wfb_ng.Mcs.Types.{
  Selector, sd_down, sd_up, Outcome, McsConfig, Score, ProbeState, fade_persist_samples,
}
use waybeam_wfb_ng.Mcs.Selector.{commit}
use waybeam_wfb_ng.Mcs.Law.{
  hold, can_demote, step_down, step_up, freeze_blocks, escape_fires, enter, note_guards, update,
  seconds_since, fade_sample, floor_hit, loss_spike,
}
use waybeam_wfb_ng.Mcs.Fired.{
  Fired, holds, loss_demotes, signal_demotes, escapes, probe_demotes, probe_promotes, HasProbe,
  boundary_rung, boundary, has_dwelt,
}
use waybeam_wfb_ng.Mcs.Rungs.{seen, update-Fired}

module _ (fp : Floating) (cfg : McsConfig fp) (score : Score fp) (now : ℕ) (probe : ProbeState)
    (in_pressure : Bool) where
  abbrev Decided : Selector → Outcome → Type 0
  Decided s o = Fired fp cfg score now probe in_pressure s o

  -- A reason to step down from the state that the rules see.
  pub data Cause (s : Selector) : Type 0 where
    lost :
        (in_pressure && cfg.pressure_demote_block) ≡ false
        → loss_spike fp cfg score now ≡ true
        → Cause s
    failing_probe :
        (in_pressure && cfg.pressure_demote_block) ≡ false
        → HasProbe fp cfg score now probe in_pressure s
        → cfg.probe_fail_milli ≤ℤ (boundary_rung probe s).per_milli
        → boundary s ≤ℤ cfg.mcs_max
        → Cause s
    weak_signal : floor_hit fp cfg score now ≡ true → Cause s
    fading : fade_sample fp cfg score now ≡ true → fade_persist_samples ≤ s.fade_streak → Cause s

  -- A reason to step up.
  pub data Ground (s : Selector) : Type 0 where
    drains : escape_fires fp cfg score now in_pressure s ≡ true → Ground s
    clean_probe :
        HasProbe fp cfg score now probe in_pressure s
        → (boundary_rung probe s).per_milli ≤ℤ cfg.probe_clean_milli
        → has_dwelt fp cfg score now probe in_pressure s ≡ true
        → Ground s

  signal-Cause :
      (s : Selector)
      → ((seen fp cfg score now probe in_pressure s).rssi_floor_active
          || (seen fp cfg score now probe in_pressure s).rssi_fade_active)
        ≡ true
      → Cause (seen fp cfg score now probe in_pressure s)
  unfolding note_guards enter
  signal-Cause s h = elim (Bool-cases (floor_hit fp cfg score now)) [
    | inl f ↦ weak_signal f
    | inr f ↦ fading (ground arith) (ground arith)
  ]

  down_needs :
      (s : Selector) {o : Outcome}
      → Decided (seen fp cfg score now probe in_pressure s) o
      → o.decision ≡ sd_down
      → (can_demote fp cfg now (seen fp cfg score now probe in_pressure s) ≡ true)
        × Cause (seen fp cfg score now probe in_pressure s)
  unfolding hold step_up commit
  down_needs s holds e = cc
  down_needs s (loss_demotes b l d) e = (d, lost b l)
  down_needs s (signal_demotes g d) e = (d, signal-Cause s g)
  down_needs s (escapes x) e = cc
  down_needs s (probe_demotes p f b d) e = (d, failing_probe b p (ground arith) (ground arith))
  down_needs s (probe_promotes p f c g m w) e = cc

  up_needs :
      {s : Selector} {o : Outcome}
      → Decided s o
      → o.decision ≡ sd_up
      → (freeze_blocks fp cfg now s ≡ false)
        × (fade_sample fp cfg score now ≡ false)
        × (s.current_mcs <ℤ cfg.mcs_max)
        × Ground s
  unfolding hold step_down commit escape_fires
  up_needs holds e = cc
  up_needs (loss_demotes b l d) e = cc
  up_needs (signal_demotes g d) e = cc
  up_needs {s} (escapes x) e = (ground arith, ground arith, ground arith, drains x)
  up_needs (probe_demotes p f b d) e = cc
  up_needs {s} (probe_promotes p f c g m w) e =
      (ground arith, ground arith, ground arith, clean_probe p (ground arith) w)

  -- A report steps down from a committed rung only above the lowest rung, with the demote cooldown
  -- over, and for a cause: a loss spike or a failing boundary probe, neither of them under
  -- backpressure that blocks them; a signal at the floor; or a fade seen in three reports running.
  pub demote_justified :
      (s : Selector)
      → pos 0 ≤ℤ s.current_mcs
      → (update fp cfg score now probe in_pressure s).decision ≡ sd_down
      → (cfg.mcs_min <ℤ s.current_mcs)
        × (fp.single.le cfg.down_cooldown_s (seconds_since fp now s.last_change_us) ≡ true)
        × Cause (seen fp cfg score now probe in_pressure s)
  unfolding can_demote enter note_guards
  demote_justified s h e =
      let (d, c) =
        down_needs s (update-Fired fp cfg score now probe in_pressure s (ground arith)) e in
      (ground arith, ground arith, c)

  -- A report steps up only below the highest rung, with no fade in the report, into a rung that no
  -- live flap-freeze pins out, and on one of two grounds: the backpressure escape, or a clean,
  -- fresh record of the boundary rung, taken since the last change, and the dwell served.
  pub promote_justified :
      (s : Selector)
      → pos 0 ≤ℤ s.current_mcs
      → (update fp cfg score now probe in_pressure s).decision ≡ sd_up
      → (s.current_mcs <ℤ cfg.mcs_max)
        × (fade_sample fp cfg score now ≡ false)
        × (freeze_blocks fp cfg now (seen fp cfg score now probe in_pressure s) ≡ false)
        × Ground (seen fp cfg score now probe in_pressure s)
  unfolding enter note_guards
  promote_justified s h e =
      let (z, f, m, g) =
        up_needs (update-Fired fp cfg score now probe in_pressure s (ground arith)) e in
      (m, f, z, g)

  -- While the freeze of a rung runs, no report steps into that rung or above it.
  pub frozen_rung_holds :
      (s : Selector)
      → pos 0 ≤ℤ s.current_mcs
      → pos 0 ≤ℤ s.flap_freeze_mcs
      → now < s.flap_freeze_until_us
      → s.flap_freeze_mcs ≤ℤ s.current_mcs +ℤ pos 1
      → (update fp cfg score now probe in_pressure s).decision ≢ sd_up
  unfolding enter note_guards freeze_blocks
  frozen_rung_holds s h f n b e = let (m, x, z, g) = promote_justified s h e in ground arith
