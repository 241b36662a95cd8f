-- ===== src/Mcs/Failsafe.antt =====
-- `selector_tick_no_data`: what the watchdog does when the reports stop.
use waybeam_wfb_ng.Base.{
  ℕ, ◌≡◌, refl, ap, not, ◌∙◌, Bool, true, false, none, some, arith, leb, ◌&&◌, if◌then◌else◌, ◌==◌,
}
use waybeam_wfb_ng.Base.Int.{ℤ, eqb_ℤ}
use waybeam_wfb_ng.Base.Word.{sub64}
use waybeam_wfb_ng.Base.Floating.{Floating}
use waybeam_wfb_ng.Mcs.Types.{Selector, SelectDecision, sd_none, sd_failsafe, McsConfig}
use waybeam_wfb_ng.Mcs.Selector.{
  micros, expire_changes, note_demote, enter_rung, change_rung, force_lowest, commit, clamp_mcs,
  tick_no_data, record_change,
}
use waybeam_wfb_ng.Mcs.Valid.{IsSane, commit-current, clamp_mcs_of_range}

module _ (fp : Floating) (cfg : McsConfig fp) where
  note_demote-flags :
      (now : ℕ) (prev : ℤ) (s : Selector)
      → ((note_demote fp cfg now prev s).in_failsafe ≡ s.in_failsafe)
        × ((note_demote fp cfg now prev s).last_datagram_us ≡ s.last_datagram_us)
  unfolding note_demote
  note_demote-flags now prev s = ground arith

  enter_rung-flags :
      (now : ℕ) (target : ℤ) (s : Selector)
      → ((enter_rung fp cfg now target s).in_failsafe ≡ s.in_failsafe)
        × ((enter_rung fp cfg now target s).last_datagram_us ≡ s.last_datagram_us)
  unfolding enter_rung record_change expire_changes
  enter_rung-flags now target s = (refl, refl)

  -- A commit leaves the failsafe flag and the time of the last report alone.
  commit-flags :
      (target : ℤ) (now : ℕ) (reason : SelectDecision) (s : Selector)
      → ((commit fp cfg target now reason s).selector.in_failsafe ≡ s.in_failsafe)
        × ((commit fp cfg target now reason s).selector.last_datagram_us ≡ s.last_datagram_us)
  unfolding commit change_rung
  commit-flags target now reason s = ground (
    arith,
    enter_rung-flags now (clamp_mcs fp cfg target) s,
    note_demote-flags now s.current_mcs (enter_rung fp cfg now (clamp_mcs fp cfg target) s),
  )

  -- The reports have been silent for the failsafe timeout, after at least one came.
  abbrev pub is_silent : ℕ → Selector → Bool
  is_silent now s =
      (if s.last_datagram_us == 0
        then false
        else leb (micros fp cfg.failsafe_timeout_s) (sub64 now s.last_datagram_us))

  force_lowest-facts :
      (now : ℕ) (s : Selector)
      → IsSane fp cfg
      → let o = force_lowest fp cfg now s in
        (o.selector.current_mcs ≡ cfg.mcs_min)
        × (o.selector.in_failsafe ≡ true)
        × (o.selector.last_datagram_us ≡ s.last_datagram_us)
        × (o.decision ≡ sd_failsafe)
        × (o.out_mcs ≡ some cfg.mcs_min)
  unfolding force_lowest
  force_lowest-facts now s sane =
      let t : Selector = record s {
        in_failsafe = true;
        rssi_floor_active = false;
        rssi_fade_active = false;
      } in
      let m : clamp_mcs fp cfg cfg.mcs_min ≡ cfg.mcs_min =
        clamp_mcs_of_range fp cfg cfg.mcs_min (omega (arith, sane.min-le-max)) in
      (
        commit-current fp cfg now cfg.mcs_min sd_failsafe t ∙ m,
        (commit-flags cfg.mcs_min now sd_failsafe t).0,
        (commit-flags cfg.mcs_min now sd_failsafe t).1,
        unfold commit in refl,
        unfold commit in ap some m,
      )

  expire_changes-same :
      (now : ℕ) (s : Selector)
      → let t = expire_changes fp cfg now s in
        (t.current_mcs ≡ s.current_mcs)
        × (t.in_failsafe ≡ s.in_failsafe)
        × (t.last_datagram_us ≡ s.last_datagram_us)
  unfolding expire_changes
  expire_changes-same now s = (refl, refl, refl)

  -- The watchdog acts exactly when the reports have been silent for the timeout and the link is not
  -- in failsafe on the lowest rung already. It then commits that rung in failsafe and says so; at
  -- any other time it leaves rung and failsafe as they are.
  pub tick_no_data_lem :
      (now : ℕ) (s : Selector)
      → IsSane fp cfg
      → let o = tick_no_data fp cfg now s in
        if is_silent now s && not (s.in_failsafe && eqb_ℤ s.current_mcs cfg.mcs_min)
        then (o.decision ≡ sd_failsafe)
          × (o.out_mcs ≡ some cfg.mcs_min)
          × (o.selector.current_mcs ≡ cfg.mcs_min)
          × (o.selector.in_failsafe ≡ true)
        else (o.decision ≡ sd_none)
          × (o.out_mcs ≡ none)
          × (o.selector.current_mcs ≡ s.current_mcs)
          × (o.selector.in_failsafe ≡ s.in_failsafe)
  unfolding tick_no_data
  tick_no_data_lem now s sane =
      ground (
        arith,
        expire_changes-same now s,
        force_lowest-facts now (expire_changes fp cfg now s) sane,
      )

  at_lowest :
      (now : ℕ) (s : Selector)
      → IsSane fp cfg
      → is_silent now s ≡ true
      → ((tick_no_data fp cfg now s).selector.current_mcs ≡ cfg.mcs_min)
        × ((tick_no_data fp cfg now s).selector.in_failsafe ≡ true)
  unfolding tick_no_data
  at_lowest now s sane h =
      ground (
        arith,
        expire_changes-same now s,
        force_lowest-facts now (expire_changes fp cfg now s) sane,
      )

  stays_lowest :
      (now : ℕ) (s : Selector)
      → IsSane fp cfg
      → s.in_failsafe ≡ true
      → s.current_mcs ≡ cfg.mcs_min
      → ((tick_no_data fp cfg now s).decision ≡ sd_none)
        × ((tick_no_data fp cfg now s).selector.current_mcs ≡ cfg.mcs_min)
  unfolding tick_no_data
  stays_lowest now s sane f m = ground (arith, expire_changes-same now s)

  -- In silence one call of the watchdog is enough: the next, at any later time at which the silence
  -- still lasts, changes neither the rung nor the failsafe and reports nothing.
  pub tick_no_data_settles :
      (now later : ℕ) (s : Selector)
      → IsSane fp cfg
      → is_silent now s ≡ true
      → let t = (tick_no_data fp cfg now s).selector in
        (t.current_mcs ≡ cfg.mcs_min)
        × (t.in_failsafe ≡ true)
        × ((tick_no_data fp cfg later t).decision ≡ sd_none)
        × ((tick_no_data fp cfg later t).selector.current_mcs ≡ cfg.mcs_min)
  tick_no_data_settles now later s sane h =
      let (m, f) = at_lowest now s sane h in
      let (d, c) = stays_lowest later (tick_no_data fp cfg now s).selector sane f m in (m, f, d, c)
