-- ===== src/Mcs/Selector.antt =====
-- `selector_init`, the change ring and `selector_commit` of vehicle/link_controller.c. A function
-- that writes through `Selector *` returns the new record. Logging is left out.
use waybeam_wfb_ng.Base.{
  ℕ, zero, suc, ◌+◌, ◌%◌, true, false, not, ◌&&◌, ◌||◌, none, some, List, get_or, set, ltb, leb,
  ◌==◌, if◌then◌else◌,
}
use waybeam_wfb_ng.Base.Int.{ℤ, pos, negsuc, ltb_ℤ, leb_ℤ, eqb_ℤ}
use waybeam_wfb_ng.Base.Word.{sub64, add64, inc32}
use waybeam_wfb_ng.Base.Floating.{Floating}
use waybeam_wfb_ng.Base.Ring.{back_index}
use waybeam_wfb_ng.Mcs.Types.{
  Selector, SelectDecision, sd_none, sd_failsafe, Outcome, McsConfig, osc_ring,
}

-- `selector_init` leaves the ring's storage as it is; a fresh `Selector` is zeroed.
unfoldable pub init : Selector → Selector
init s = record s {
  current_mcs = negsuc 0;
  last_change_us = 0;
  last_datagram_us = 0;
  in_failsafe = false;
  changes_count = 0;
  changes_head = 0;
  commit_count = 0;
  rssi_floor_active = false;
  rssi_fade_active = false;
  fade_streak = 0;
  flap_guard_mcs = negsuc 0;
  flap_guard_us = 0;
  flap_demote_streak = 0;
  flap_last_demote_us = 0;
  flap_freeze_mcs = negsuc 0;
  flap_freeze_until_us = 0;
  pressure_since_us = 0;
  pressure_escape_count = 0;
}

-- The `while` loop of `selector_expire_changes`, from a count to the count that it stops at.
unfoldable pub expire_loop : List ℕ → ℕ → ℕ → ℕ → ℕ
expire_loop buf head cutoff zero = zero
expire_loop buf head cutoff (suc n) =
    let rest = expire_loop buf head cutoff n in
    if leb cutoff (get_or buf (back_index osc_ring head (suc n)) 0) then suc n else rest

module _ (fp : Floating) where
  open fp use {Float, single}
  open single use {mul, lit, to_u64}

  -- `(uint64_t)(secs * 1e6f)`
  unfoldable pub micros : Float → ℕ
  micros secs = to_u64 (mul secs (lit 1_000_000 0))

  -- Only the count changes: to 0 with the window disabled, and not before a first full window.
  unfoldable pub expire_changes : McsConfig fp → ℕ → Selector → Selector
  expire_changes cfg now s =
      let window_us = micros cfg.oscillation_window_s in
      record s {
        changes_count =
            if window_us == 0
            then 0
            else if ltb now window_us
            then s.changes_count
            else expire_loop s.changes_us s.changes_head (sub64 now window_us) s.changes_count;
      }

  unfoldable pub record_change : McsConfig fp → ℕ → Selector → Selector
  record_change cfg now s = expire_changes cfg now (record s {
    changes_us = set s.changes_us s.changes_head now;
    changes_head = (s.changes_head + 1) % osc_ring;
    changes_count = if ltb s.changes_count osc_ring then s.changes_count + 1 else s.changes_count;
  })

  -- The clamp to [mcs_min, mcs_max] at the top of `selector_commit`.
  unfoldable pub clamp_mcs : McsConfig fp → ℤ → ℤ
  clamp_mcs cfg target =
      let raised = if ltb_ℤ target cfg.mcs_min then cfg.mcs_min else target in
      if ltb_ℤ cfg.mcs_max raised then cfg.mcs_max else raised

  -- The flap guard and the flap-freeze of `selector_commit`: a commit down from the rung `prev`.
  unfoldable pub note_demote : McsConfig fp → ℕ → ℤ → Selector → Selector
  note_demote cfg now prev s =
      let guarded = record s {
        flap_guard_mcs =
            if ltb_ℤ s.flap_guard_mcs prev
              || ltb (micros cfg.reentry_backoff_s) (sub64 now s.flap_guard_us)
            then prev
            else s.flap_guard_mcs;
        flap_guard_us = now;
      } in
      let same_rung_fast =
        eqb_ℤ prev s.flap_guard_mcs
        && not (s.flap_last_demote_us == 0)
        && leb (sub64 now s.flap_last_demote_us) (micros cfg.flap_freeze_window_s) in
      let streak = if same_rung_fast then s.flap_demote_streak + 1 else 1 in
      let counted = record guarded { flap_demote_streak = streak; flap_last_demote_us = now } in
      let frozen = record counted {
        flap_freeze_mcs = prev;
        flap_freeze_until_us = add64 now (micros cfg.flap_freeze_s);
      } in
      if ltb_ℤ (pos 0) cfg.flap_freeze_count
      then (if leb_ℤ cfg.flap_freeze_count (pos streak) then frozen else counted)
      else guarded

  -- The commit proper: the new rung, its time, the change ring, the counter.
  unfoldable pub enter_rung : McsConfig fp → ℕ → ℤ → Selector → Selector
  enter_rung cfg now target s =
      let t = record_change cfg now (record s { current_mcs = target; last_change_us = now }) in
      record t { commit_count = inc32 t.commit_count }

  -- What `selector_commit` does when the rung changes from `prev` to `target`.
  unfoldable pub change_rung : McsConfig fp → ℕ → ℤ → ℤ → Selector → Selector
  change_rung cfg now prev target s =
      let t = enter_rung cfg now target s in
      if leb_ℤ (pos 0) prev && ltb_ℤ target prev then note_demote cfg now prev t else t

  unfoldable pub commit : McsConfig fp → ℤ → ℕ → SelectDecision → Selector → Outcome
  commit cfg target_mcs now reason s =
      let target = clamp_mcs cfg target_mcs in
      record {
        selector =
            if eqb_ℤ s.current_mcs target
            then record s { current_mcs = target }
            else change_rung cfg now s.current_mcs target s;
        decision = reason;
        out_mcs = some target;
      }

  -- The end of `selector_tick_no_data`: failsafe, with the guard flags cleared.
  unfoldable pub force_lowest : McsConfig fp → ℕ → Selector → Outcome
  force_lowest cfg now s =
      commit cfg cfg.mcs_min now sd_failsafe
        (record s { in_failsafe = true; rssi_floor_active = false; rssi_fade_active = false })

  -- `selector_tick_no_data`: the watchdog for a dead report stream.
  unfoldable pub tick_no_data : McsConfig fp → ℕ → Selector → Outcome
  tick_no_data cfg now s =
      let t = expire_changes cfg now s in
      let quiet : Outcome = record { selector = t; decision = sd_none; out_mcs = none } in
      if t.last_datagram_us == 0
      then quiet
      else if ltb (sub64 now t.last_datagram_us) (micros cfg.failsafe_timeout_s)
      then quiet
      else if t.in_failsafe && eqb_ℤ t.current_mcs cfg.mcs_min
      then quiet
      else force_lowest cfg now t
