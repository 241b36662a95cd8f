-- ===== src/Mcs/Valid.antt =====
-- The selector's invariant: the committed rung lies in the configured range, and the change ring's
-- indices stay inside its storage.
use waybeam_wfb_ng.Base.{ℕ, zero, suc, ◌≤◌, ◌<◌, ◌≡◌, refl, List, length, length-set, arith}
use waybeam_wfb_ng.Base.Int.{ℤ, pos, ◌≤ℤ◌}
use waybeam_wfb_ng.Base.Word.{sub64}
use waybeam_wfb_ng.Base.Floating.{Floating}
use waybeam_wfb_ng.Mcs.Types.{Selector, SelectDecision, McsConfig, osc_ring}
use waybeam_wfb_ng.Mcs.Selector.{
  expire_loop, micros, expire_changes, record_change, clamp_mcs, note_demote, enter_rung,
  change_rung, commit,
}

pub record IsSane (fp : Floating) (cfg : McsConfig fp) : Type 0 where
  pub min_nonneg : pos 0 ≤ℤ cfg.mcs_min
  pub min-le-max : cfg.mcs_min ≤ℤ cfg.mcs_max

abbrev pub InRange : (fp : Floating) → McsConfig fp → ℤ → Type 0
InRange fp cfg m = (cfg.mcs_min ≤ℤ m) × (m ≤ℤ cfg.mcs_max)

pub record RingValid (s : Selector) : Type 0 where
  pub storage : length s.changes_us ≡ osc_ring
  pub head_in : s.changes_head < osc_ring
  pub count_in : s.changes_count ≤ osc_ring

pub expire_loop-le : (buf : List ℕ) (head cutoff n : ℕ) → expire_loop buf head cutoff n ≤ n
unfolding expire_loop
expire_loop-le buf head cutoff zero = omega arith
expire_loop-le buf head cutoff (suc n) = ground (arith, expire_loop-le buf head cutoff n)

module _ (fp : Floating) (cfg : McsConfig fp) (now : ℕ) where
  expire_changes-Ring : (s : Selector) → RingValid s → RingValid (expire_changes fp cfg now s)
  unfolding expire_changes
  expire_changes-Ring s v = ground (
    arith,
    expire_loop-le s.changes_us s.changes_head (sub64 now (micros fp cfg.oscillation_window_s))
        s.changes_count,
  )

  record_change-Ring : (s : Selector) → RingValid s → RingValid (record_change fp cfg now s)
  unfolding record_change
  record_change-Ring s v =
      expire_changes-Ring _ (ground (arith, length-set s.changes_us s.changes_head now))

  note_demote-Ring :
      (prev : ℤ) (s : Selector) → RingValid s → RingValid (note_demote fp cfg now prev s)
  unfolding note_demote
  note_demote-Ring prev s v = ground arith

  enter_rung-Ring :
      (target : ℤ) (s : Selector) → RingValid s → RingValid (enter_rung fp cfg now target s)
  unfolding enter_rung
  enter_rung-Ring target s v =
      let w : RingValid (record s { current_mcs = target; last_change_us = now }) = record {
        storage = v.storage;
        head_in = v.head_in;
        count_in = v.count_in;
      } in
      ground (arith, record_change-Ring (record s { current_mcs = target; last_change_us = now }) w)

  change_rung-Ring :
      (prev target : ℤ) (s : Selector)
      → RingValid s
      → RingValid (change_rung fp cfg now prev target s)
  unfolding change_rung
  change_rung-Ring prev target s v = ground (
    arith,
    enter_rung-Ring target s v,
    note_demote-Ring prev (enter_rung fp cfg now target s) (enter_rung-Ring target s v),
  )

  pub commit-Ring :
      (target : ℤ) (reason : SelectDecision) (s : Selector)
      → RingValid s
      → RingValid (commit fp cfg target now reason s).selector
  unfolding commit
  commit-Ring target reason s v =
      ground (arith, change_rung-Ring s.current_mcs (clamp_mcs fp cfg target) s)

  note_demote-current :
      (prev : ℤ) (s : Selector) → (note_demote fp cfg now prev s).current_mcs ≡ s.current_mcs
  unfolding note_demote
  note_demote-current prev s = ground arith

  enter_rung-current :
      (target : ℤ) (s : Selector) → (enter_rung fp cfg now target s).current_mcs ≡ target
  unfolding enter_rung record_change expire_changes
  enter_rung-current target s = refl

  change_rung-current :
      (prev target : ℤ) (s : Selector) → (change_rung fp cfg now prev target s).current_mcs ≡ target
  unfolding change_rung
  change_rung-current prev target s = ground (
    arith,
    enter_rung-current target s,
    note_demote-current prev (enter_rung fp cfg now target s),
  )

  -- A commit leaves the selector on the clamped rung.
  pub commit-current :
      (target : ℤ) (reason : SelectDecision) (s : Selector)
      → (commit fp cfg target now reason s).selector.current_mcs ≡ clamp_mcs fp cfg target
  unfolding commit
  commit-current target reason s =
      ground (arith, change_rung-current s.current_mcs (clamp_mcs fp cfg target) s)

pub clamp_mcs_bounds :
    (fp : Floating) (cfg : McsConfig fp) (m : ℤ)
    → cfg.mcs_min ≤ℤ cfg.mcs_max
    → InRange fp cfg (clamp_mcs fp cfg m)
unfolding clamp_mcs
clamp_mcs_bounds fp cfg m h = ground arith

pub clamp_mcs_of_range :
    (fp : Floating) (cfg : McsConfig fp) (m : ℤ) → InRange fp cfg m → clamp_mcs fp cfg m ≡ m
unfolding clamp_mcs
clamp_mcs_of_range fp cfg m h = ground arith
