-- ===== src/Mcs/Pinned.antt =====
-- The flap-freeze over a sequence of reports and watchdog ticks: the frozen rung stays out of reach.
use waybeam_wfb_ng.Base.{
  ℕ, ◌+◌, ◌≤◌, ◌<◌, ◌≡◌, refl, Bool, true, false, ◌&&◌, ◌||◌, if_cases, List, [], ◌∷◌, ltb, leb,
  ◌==◌, arith,
}
use waybeam_wfb_ng.Base.Int.{ℤ, pos, ◌≤ℤ◌, ◌<ℤ◌, ltb_ℤ, leb_ℤ, eqb_ℤ}
use waybeam_wfb_ng.Base.Word.{u64_mod, sub64, add64, inc32}
use waybeam_wfb_ng.Base.Floating.{Floating}
use waybeam_wfb_ng.Mcs.Types.{
  Selector, SelectDecision, Outcome, sd_failsafe, McsConfig, Score, ProbeState,
}
use waybeam_wfb_ng.Mcs.Selector.{micros, expire_changes, commit, force_lowest, tick_no_data}
use waybeam_wfb_ng.Mcs.Law.{
  hold, freeze_blocks, escape_fires, fade_sample, near_floor, enter, note_guards, update,
}
use waybeam_wfb_ng.Mcs.Fired.{
  Fired, holds, loss_demotes, signal_demotes, escapes, probe_demotes, probe_promotes,
}
use waybeam_wfb_ng.Mcs.Valid.{IsSane, InRange}
use waybeam_wfb_ng.Mcs.Rungs.{seen, update-Fired}
use waybeam_wfb_ng.Mcs.Freeze.{is_cycle, commit-freezes}
use waybeam_wfb_ng.Mcs.Frozen.{
  freeze_end, IsFrozen, commit-IsFrozen, step_down-IsFrozen, step_up-IsFrozen,
}

-- Reports and watchdog ticks.
pub data Input (fp : Floating) : Type 0 where
  reported : Score fp → ProbeState → Bool → Input fp
  silence : Input fp

module _ (fp : Floating) (cfg : McsConfig fp) where
  unfoldable pub on_input : ℕ → Input fp → Selector → Selector
  on_input now (reported score probe in_pressure) s =
      (update fp cfg score now probe in_pressure s).selector
  on_input now silence s = (tick_no_data fp cfg now s).selector

  unfoldable pub run_inputs : List (ℕ × Input fp) → Selector → Selector
  run_inputs [] s = s
  run_inputs ((now, i) ∷ is) s = run_inputs is (on_input now i s)

  -- Inputs at times before `u`, no earlier than `now`, at which the clock is far from wrapping.
  unfoldable pub AllDuring : ℕ → ℕ → List (ℕ × Input fp) → Type 0
  AllDuring u now [] = Unit
  AllDuring u now ((t, i) ∷ is) =
      (now ≤ t) × (t < u) × (t + micros fp cfg.flap_freeze_s < u64_mod) × AllDuring u now is

  module _ (f : ℤ) (u : ℕ) where
    module _ (score : Score fp) (now : ℕ) (probe : ProbeState) (in_pressure : Bool) (l : now < u)
        (w : u ≤ freeze_end fp cfg now) where
      escape_not_blocked :
          (s : Selector)
          → escape_fires fp cfg score now in_pressure s ≡ true
          → (freeze_blocks fp cfg now s ≡ false) × (ltb_ℤ s.current_mcs cfg.mcs_max ≡ true)
      unfolding escape_fires
      escape_not_blocked s e = ground arith

      not_blocked : (a b c : Bool) → a || b || c ≡ false → c ≡ false
      not_blocked a b c h = ground arith

      counted-IsFrozen :
          (s : Selector)
          → IsFrozen fp cfg f u s
          → IsFrozen fp cfg f u (record s { pressure_escape_count = inc32 s.pressure_escape_count })
      counted-IsFrozen s z = record {
        frozen = z.frozen;
        low = z.low;
        under = z.under;
        long = z.long;
        range = z.range;
      }

      Fired-IsFrozen :
          {s : Selector} {o : Outcome}
          → IsFrozen fp cfg f u s
          → Fired fp cfg score now probe in_pressure s o
          → IsFrozen fp cfg f u o.selector
      unfolding hold freeze_blocks
      Fired-IsFrozen z holds = z
      Fired-IsFrozen {s} z (loss_demotes b k d) = step_down-IsFrozen fp cfg f u now s z w d
      Fired-IsFrozen {s} z (signal_demotes g d) = step_down-IsFrozen fp cfg f u now s z w d
      Fired-IsFrozen {s} z (escapes e) =
          let (b, m) = escape_not_blocked s e in
          step_up-IsFrozen fp cfg f u now
            (record s { pressure_escape_count = inc32 s.pressure_escape_count })
            (counted-IsFrozen s z) l w b m
      Fired-IsFrozen {s} z (probe_demotes p fails b d) = step_down-IsFrozen fp cfg f u now s z w d
      Fired-IsFrozen {s} z (probe_promotes p fails c g m d) =
          step_up-IsFrozen fp cfg f u now s z l w
            (not_blocked (fade_sample fp cfg score now) (near_floor fp cfg score now)
              (freeze_blocks fp cfg now s) g)
            m

      seen-IsFrozen :
          (s : Selector)
          → IsFrozen fp cfg f u s
          → IsFrozen fp cfg f u (seen fp cfg score now probe in_pressure s)
      unfolding enter note_guards
      seen-IsFrozen s z =
          let kept : (leb_ℤ (pos 0) s.flap_freeze_mcs && leb s.flap_freeze_until_us now) ≡ false =
            ground (arith, z.long) in
          record {
            frozen = rw kept z.frozen;
            low = rw kept z.low;
            under = rw kept z.under;
            long = z.long;
            range = z.range;
          }

      not_cold : (m : ℤ) → IsSane fp cfg → InRange fp cfg m → ltb_ℤ m (pos 0) ≡ false
      not_cold m sane r = ground arith

      update-IsFrozen :
          (s : Selector)
          → IsSane fp cfg
          → IsFrozen fp cfg f u s
          → IsFrozen fp cfg f u (update fp cfg score now probe in_pressure s).selector
      update-IsFrozen s sane z =
          Fired-IsFrozen (seen-IsFrozen s z) (
            update-Fired fp cfg score now probe in_pressure s (not_cold s.current_mcs sane z.range))

    tick_no_data-IsFrozen :
        (now : ℕ) (s : Selector)
        → IsSane fp cfg
        → u ≤ freeze_end fp cfg now
        → IsFrozen fp cfg f u s
        → IsFrozen fp cfg f u (tick_no_data fp cfg now s).selector
    unfolding tick_no_data force_lowest expire_changes
    tick_no_data-IsFrozen now s sane w z =
        let t = expire_changes fp cfg now s in
        let quiet : IsFrozen fp cfg f u t = record {
          frozen = z.frozen;
          low = z.low;
          under = z.under;
          long = z.long;
          range = z.range;
        } in
        let forced : Selector = record t {
          in_failsafe = true;
          rssi_floor_active = false;
          rssi_fade_active = false;
        } in
        let lowest : IsFrozen fp cfg f u (force_lowest fp cfg now t).selector =
          commit-IsFrozen fp cfg f u now cfg.mcs_min sd_failsafe forced
            (record {
              frozen = z.frozen;
              low = z.low;
              under = z.under;
              long = z.long;
              range = z.range;
            })
            w (ground arith) (ground arith) in
        if_cases (λ (o : Outcome). IsFrozen fp cfg f u o.selector) (t.last_datagram_us == 0)
          (λ _. quiet)
          λ _.
            if_cases (λ (o : Outcome). IsFrozen fp cfg f u o.selector)
              (ltb (sub64 now t.last_datagram_us) (micros fp cfg.failsafe_timeout_s)) (λ _. quiet)
              λ _.
                if_cases (λ (o : Outcome). IsFrozen fp cfg f u o.selector)
                  (t.in_failsafe && eqb_ℤ t.current_mcs cfg.mcs_min) (λ _. quiet) (λ _. lowest)

    later_end :
        (now t : ℕ)
        → u ≡ freeze_end fp cfg now
        → now ≤ t
        → t + micros fp cfg.flap_freeze_s < u64_mod
        → u ≤ freeze_end fp cfg t
    unfolding add64
    later_end now t e l w = omega arith

    on_input-IsFrozen :
        (t : ℕ) (i : Input fp) (s : Selector)
        → IsSane fp cfg
        → t < u
        → u ≤ freeze_end fp cfg t
        → IsFrozen fp cfg f u s
        → IsFrozen fp cfg f u (on_input t i s)
    unfolding on_input
    on_input-IsFrozen t (reported score probe in_pressure) s sane l w z =
        update-IsFrozen score t probe in_pressure l w s sane z
    on_input-IsFrozen t silence s sane l w z = tick_no_data-IsFrozen t s sane w z

    run_inputs-IsFrozen :
        (now : ℕ) (is : List (ℕ × Input fp)) (s : Selector)
        → IsSane fp cfg
        → u ≡ freeze_end fp cfg now
        → AllDuring u now is
        → IsFrozen fp cfg f u s
        → IsFrozen fp cfg f u (run_inputs is s)
    unfolding run_inputs AllDuring
    run_inputs-IsFrozen now [] s sane e d z = z
    run_inputs-IsFrozen now ((t, i) ∷ is) s sane e (a, l, w, d) z =
        run_inputs-IsFrozen now is (on_input t i s) sane e d
          (on_input-IsFrozen t i s sane l (later_end now t e a w) z)

  -- In a sane configuration, after the demote into the configured range that completes the positive
  -- count of fast demotes from one rung, that rung stays out of reach until the freeze time is
  -- over: whatever reports and watchdog ticks come before that, in any order, further demotes and
  -- promotes among them, the rung behind them is a lower one. The clock does not run back behind
  -- the demote and does not wrap around.
  pub flap_freeze_pins :
      (now : ℕ) (target : ℤ) (reason : SelectDecision) (s : Selector) (is : List (ℕ × Input fp))
      → IsSane fp cfg
      → InRange fp cfg target
      → target <ℤ s.current_mcs
      → is_cycle fp cfg now s.current_mcs s ≡ true
      → pos 0 <ℤ cfg.flap_freeze_count
      → cfg.flap_freeze_count ≤ℤ pos (s.flap_demote_streak + 1)
      → AllDuring (add64 now (micros fp cfg.flap_freeze_s)) now is
      → (run_inputs is (commit fp cfg target now reason s).selector).current_mcs <ℤ s.current_mcs
  flap_freeze_pins now target reason s is sane r d c p n during =
      let high : pos 0 ≤ℤ s.current_mcs = ground (arith, sane.min_nonneg) in
      let (m, f, u) = commit-freezes fp cfg now target reason s r d high c p n in
      let t = (commit fp cfg target now reason s).selector in
      let z : IsFrozen fp cfg s.current_mcs (freeze_end fp cfg now) t = record {
        frozen = rw f high;
        low = rw f (omega arith);
        under = rw (m, f) d;
        long = rw u (omega arith);
        range = rw m r;
      } in
      let y =
        run_inputs-IsFrozen s.current_mcs (freeze_end fp cfg now) now is t sane refl during z in
      ground (arith, y.low, y.under)
