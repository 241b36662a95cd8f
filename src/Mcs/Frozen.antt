-- ===== src/Mcs/Frozen.antt =====
-- What a commit does to the flap-freeze, and that it stays below a frozen rung.
use waybeam_wfb_ng.Base.{
  ℕ, ◌+◌, ◌≤◌, ◌<◌, ◌≡◌, refl, ◌∙◌, true, false, not, ◌&&◌, if_cases, leb, ◌==◌, if◌then◌else◌,
  arith,
}
use waybeam_wfb_ng.Base.Int.{ℤ, pos, ◌≤ℤ◌, ◌<ℤ◌, ◌+ℤ◌, ◌-ℤ◌, ltb_ℤ, leb_ℤ, eqb_ℤ}
use waybeam_wfb_ng.Base.Word.{sub64, add64}
use waybeam_wfb_ng.Base.Floating.{Floating}
use waybeam_wfb_ng.Mcs.Types.{Selector, SelectDecision, sd_down, sd_up, McsConfig}
use waybeam_wfb_ng.Mcs.Selector.{
  micros, expire_changes, record_change, note_demote, enter_rung, change_rung, commit,
}
use waybeam_wfb_ng.Mcs.Law.{can_demote, step_down, step_up, freeze_blocks}
use waybeam_wfb_ng.Mcs.Valid.{InRange, commit-current, clamp_mcs_of_range}
use waybeam_wfb_ng.Mcs.Rungs.{above, below}

module _ (fp : Floating) (cfg : McsConfig fp) where
  abbrev pub freeze_end : ℕ → ℕ
  freeze_end now = add64 now (micros fp cfg.flap_freeze_s)

  -- A change of rung leaves the freeze as it is, or freezes the rung that it leaves downwards.
  data Refrozen (now : ℕ) (prev target : ℤ) (s t : Selector) : Type 0 where
    same :
        t.flap_freeze_mcs ≡ s.flap_freeze_mcs
        → t.flap_freeze_until_us ≡ s.flap_freeze_until_us
        → Refrozen now prev target s t
    anew :
        pos 0 ≤ℤ prev
        → target <ℤ prev
        → t.flap_freeze_mcs ≡ prev
        → t.flap_freeze_until_us ≡ freeze_end now
        → Refrozen now prev target s t

  note_demote-Refrozen :
      (now : ℕ) (prev target : ℤ) (s : Selector)
      → (leb_ℤ (pos 0) prev && ltb_ℤ target prev) ≡ true
      → Refrozen now prev target s (note_demote fp cfg now prev s)
  unfolding note_demote
  note_demote-Refrozen now prev target s h =
      let streak =
        if eqb_ℤ prev s.flap_guard_mcs
          && not (s.flap_last_demote_us == 0)
          && leb (sub64 now s.flap_last_demote_us) (micros fp cfg.flap_freeze_window_s)
        then s.flap_demote_streak + 1
        else 1 in
      if_cases (Refrozen now prev target s) (ltb_ℤ (pos 0) cfg.flap_freeze_count)
        (λ _.
          if_cases (Refrozen now prev target s) (leb_ℤ cfg.flap_freeze_count (pos streak))
            (λ _. anew (ground arith) (ground arith) refl refl) (λ _. same refl refl))
        (λ _. same refl refl)

  change_rung-Refrozen :
      (now : ℕ) (prev target : ℤ) (s : Selector)
      → Refrozen now prev target s (change_rung fp cfg now prev target s)
  unfolding change_rung enter_rung record_change expire_changes
  change_rung-Refrozen now prev target s =
      if_cases (Refrozen now prev target s) (leb_ℤ (pos 0) prev && ltb_ℤ target prev)
        (λ h. elim (note_demote-Refrozen now prev target (enter_rung fp cfg now target s) h) [
          | same a b ↦ same a b
          | anew p l a b ↦ anew p l a b
        ])
        (λ _. same refl refl)

  commit-Refrozen :
      (now : ℕ) (target : ℤ) (reason : SelectDecision) (s : Selector)
      → InRange fp cfg target
      → Refrozen now s.current_mcs target s (commit fp cfg target now reason s).selector
  unfolding commit
  commit-Refrozen now target reason s r =
      rw (commit, clamp_mcs_of_range fp cfg target r)
        (if_cases (Refrozen now s.current_mcs target s) (eqb_ℤ s.current_mcs target)
          (λ _. same refl refl) (λ _. change_rung-Refrozen now s.current_mcs target s))

  -- The selector stays below a frozen rung, which is `f` or a lower one, until `u` at least.
  module _ (f : ℤ) (u : ℕ) where
    pub record IsFrozen (s : Selector) : Type 0 where
      pub frozen : pos 0 ≤ℤ s.flap_freeze_mcs
      pub low : s.flap_freeze_mcs ≤ℤ f
      pub under : s.current_mcs <ℤ s.flap_freeze_mcs
      pub long : u ≤ s.flap_freeze_until_us
      pub range : InRange fp cfg s.current_mcs

    Refrozen-IsFrozen :
        (now : ℕ) (target : ℤ) (s t : Selector)
        → IsFrozen s
        → u ≤ freeze_end now
        → InRange fp cfg target
        → target <ℤ s.flap_freeze_mcs
        → t.current_mcs ≡ target
        → Refrozen now s.current_mcs target s t
        → IsFrozen t
    Refrozen-IsFrozen now target s t z w r l c (same a b) = record {
      frozen = rw a z.frozen;
      low = rw a z.low;
      under = rw (a, c) l;
      long = rw b z.long;
      range = rw c r;
    }
    Refrozen-IsFrozen now target s t z w r l c (anew p d a b) = record {
      frozen = rw a p;
      low = rw a (ground (arith, z.low, z.under));
      under = rw (a, c) d;
      long = rw b w;
      range = rw c r;
    }

    pub commit-IsFrozen :
        (now : ℕ) (target : ℤ) (reason : SelectDecision) (s : Selector)
        → IsFrozen s
        → u ≤ freeze_end now
        → InRange fp cfg target
        → target <ℤ s.flap_freeze_mcs
        → IsFrozen (commit fp cfg target now reason s).selector
    commit-IsFrozen now target reason s z w r l =
        Refrozen-IsFrozen now target s (commit fp cfg target now reason s).selector z w r l
          (commit-current fp cfg now target reason s ∙ clamp_mcs_of_range fp cfg target r)
          (commit-Refrozen now target reason s r)

    pub step_down-IsFrozen :
        (now : ℕ) (s : Selector)
        → IsFrozen s
        → u ≤ freeze_end now
        → can_demote fp cfg now s ≡ true
        → IsFrozen (step_down fp cfg now s).selector
    unfolding step_down can_demote
    step_down-IsFrozen now s z w d =
        commit-IsFrozen now (s.current_mcs -ℤ pos 1) sd_down s z w
          (ground (arith, below s.current_mcs, z.range))
          (ground (arith, below s.current_mcs, z.under))

    pub step_up-IsFrozen :
        (now : ℕ) (s : Selector)
        → IsFrozen s
        → now < u
        → u ≤ freeze_end now
        → freeze_blocks fp cfg now s ≡ false
        → ltb_ℤ s.current_mcs cfg.mcs_max ≡ true
        → IsFrozen (step_up fp cfg now s).selector
    unfolding step_up freeze_blocks
    step_up-IsFrozen now s z l w b m =
        commit-IsFrozen now (s.current_mcs +ℤ pos 1) sd_up s z w
          (ground (arith, above s.current_mcs, z.range)) (ground (arith, z.frozen, z.long))
