-- ===== src/Mcs/Freeze.antt =====
-- The flap-freeze: how `selector_commit` counts demotes from one rung and pins that rung out.
use waybeam_wfb_ng.Base.{ℕ, ◌+◌, ◌≡◌, refl, Bool, true, arith, leb, ◌==◌, not, ◌&&◌}
use waybeam_wfb_ng.Base.Int.{ℤ, pos, ◌≤ℤ◌, ◌<ℤ◌, eqb_ℤ}
use waybeam_wfb_ng.Base.Word.{sub64, add64}
use waybeam_wfb_ng.Base.Floating.{Floating}
use waybeam_wfb_ng.Mcs.Types.{Selector, SelectDecision, McsConfig}
use waybeam_wfb_ng.Mcs.Selector.{
  micros, expire_changes, record_change, note_demote, enter_rung, change_rung, commit,
}
use waybeam_wfb_ng.Mcs.Valid.{InRange, commit-current, clamp_mcs_of_range}

module _ (fp : Floating) (cfg : McsConfig fp) where
  -- A demote from `prev` at `now` is one more cycle of the flap that the selector is counting.
  abbrev pub is_cycle : ℕ → ℤ → Selector → Bool
  is_cycle now prev s =
      eqb_ℤ prev s.flap_guard_mcs
      && not (s.flap_last_demote_us == 0)
      && leb (sub64 now s.flap_last_demote_us) (micros fp cfg.flap_freeze_window_s)

  enter_rung-flap :
      (now : ℕ) (target : ℤ) (s : Selector)
      → let t = enter_rung fp cfg now target s in
        (t.flap_guard_mcs ≡ s.flap_guard_mcs)
        × (t.flap_last_demote_us ≡ s.flap_last_demote_us)
        × (t.flap_demote_streak ≡ s.flap_demote_streak)
  unfolding enter_rung record_change expire_changes
  enter_rung-flap now target s = (refl, refl, refl)

  note_demote-freeze :
      (now : ℕ) (prev : ℤ) (s : Selector)
      → is_cycle now prev s ≡ true
      → pos 0 <ℤ cfg.flap_freeze_count
      → cfg.flap_freeze_count ≤ℤ pos (s.flap_demote_streak + 1)
      → let t = note_demote fp cfg now prev s in
        (t.flap_freeze_mcs ≡ prev)
        × (t.flap_freeze_until_us ≡ add64 now (micros fp cfg.flap_freeze_s))
        × (t.current_mcs ≡ s.current_mcs)
  unfolding note_demote
  note_demote-freeze now prev s c p n = ground arith

  change_rung-freeze :
      (now : ℕ) (prev target : ℤ) (s : Selector)
      → target <ℤ prev
      → pos 0 ≤ℤ prev
      → is_cycle now prev s ≡ true
      → pos 0 <ℤ cfg.flap_freeze_count
      → cfg.flap_freeze_count ≤ℤ pos (s.flap_demote_streak + 1)
      → let t = change_rung fp cfg now prev target s in
        (t.flap_freeze_mcs ≡ prev)
        × (t.flap_freeze_until_us ≡ add64 now (micros fp cfg.flap_freeze_s))
  unfolding change_rung
  change_rung-freeze now prev target s l z c p n = ground (
    arith,
    enter_rung-flap now target s,
    note_demote-freeze now prev (enter_rung fp cfg now target s),
  )

  -- The demote that completes the count pins out the rung that it leaves, for the freeze time.
  pub commit-freezes :
      (now : ℕ) (target : ℤ) (reason : SelectDecision) (s : Selector)
      → InRange fp cfg target
      → target <ℤ s.current_mcs
      → pos 0 ≤ℤ s.current_mcs
      → is_cycle now s.current_mcs s ≡ true
      → pos 0 <ℤ cfg.flap_freeze_count
      → cfg.flap_freeze_count ≤ℤ pos (s.flap_demote_streak + 1)
      → let t = (commit fp cfg target now reason s).selector in
        (t.current_mcs ≡ target)
        × (t.flap_freeze_mcs ≡ s.current_mcs)
        × (t.flap_freeze_until_us ≡ add64 now (micros fp cfg.flap_freeze_s))
  unfolding commit
  commit-freezes now target reason s r l z c p n = ground (
    arith,
    commit-current fp cfg now target reason s,
    clamp_mcs_of_range fp cfg target r,
    change_rung-freeze now s.current_mcs target s l z c p n,
  )
