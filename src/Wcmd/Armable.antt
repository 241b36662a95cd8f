-- ===== src/Wcmd/Armable.antt =====
-- The recovery channel lets a full burst through.
use waybeam_wfb_ng.Base.{
  ℕ, suc, ◌+◌, ◌<◌, ◌≤◌, ◌≡◌, refl, true, false, not, ◌||◌, Bool-cases, inl, inr, List, [], ◌∷◌,
  length, ◌==◌, ltb, arith, if◌then◌else◌,
}
use waybeam_wfb_ng.Base.Int.{ℤ, pos, eqb_ℤ}
use waybeam_wfb_ng.Base.Word.{sub64, u64_mod, sub64_of_le, inc64}
use waybeam_wfb_ng.Wcmd.Types.{WcmdReq, key_recovery_apfpv}
use waybeam_wfb_ng.Wcmd.Recovery.{
  RecoveryConfig, RecoveryState, ms_or, answer, arm_count, count_frame, in_cooldown, fire, on_frame,
  recovery_dispatch,
}
use waybeam_wfb_ng.Wcmd.Armed.{fires}

-- The frames of a recovery burst with one sequence number, at the times given.
abbrev pub burst : ℕ → List ℕ → List (ℕ × WcmdReq)
burst seq [] = []
burst seq (t ∷ ts) =
    (t, record { key = key_recovery_apfpv; seq = seq; value = pos 0 }) ∷ burst seq ts

module _ (cfg : RecoveryConfig) (hook_rc : ℤ) (seq first : ℕ) where
  -- Every time is in the arming window that began at `first`.
  abbrev pub AllInWindow : List ℕ → Type 0
  AllInWindow [] = Unit {0}
  AllInWindow (t ∷ ts) =
      (first ≤ t) × (t ≤ first + ms_or cfg.arm_window_ms 2000) × (t < u64_mod) × AllInWindow ts

  -- A count in progress that began at `first`, with the hook not run before.
  record IsCounting (hits : ℕ) (s : RecoveryState) : Type 0 where
    never_ran : s.last_exec_us ≡ 0
    same_seq : s.arm_seq ≡ seq
    counted : s.arm_hits ≡ hits
    began : s.arm_first_us ≡ first

  fire-fired : (now : ℕ) (s : RecoveryState) → (fire cfg hook_rc now s).fired ≡ true
  unfolding fire
  fire-fired now s = elim (Bool-cases (eqb_ℤ (if cfg.dry_run then pos 0 else hook_rc) (pos 0))) [
    | inl h ↦ rw h refl
    | inr h ↦ rw h refl
  ]

  no_cooldown :
      (now : ℕ) (s : RecoveryState) → s.last_exec_us ≡ 0 → in_cooldown cfg hook_rc now s ≡ false
  unfolding in_cooldown
  no_cooldown now s h = ground arith

  -- The next frame of the burst: the test for a new burst fails.
  goes_on :
      (now hits : ℕ) (s : RecoveryState)
      → IsCounting (suc hits) s
      → first ≤ now
      → now ≤ first + ms_or cfg.arm_window_ms 2000
      → now < u64_mod
      → (s.arm_hits == 0
          || not (s.arm_seq == seq)
          || ltb (ms_or cfg.arm_window_ms 2000) (sub64 now s.arm_first_us))
        ≡ false
  goes_on now hits s c o w b =
      rw (c.counted, c.same_seq, c.began, sub64_of_le now first o b) (ground arith)

  next_counted :
      (now hits : ℕ) (s : RecoveryState)
      → IsCounting (suc hits) s
      → first ≤ now
      → now ≤ first + ms_or cfg.arm_window_ms 2000
      → now < u64_mod
      → IsCounting (suc (suc hits)) (count_frame cfg hook_rc seq now s)
  unfolding count_frame
  next_counted now hits s c o w b = rw (goes_on now hits s c o w b) (record {
    never_ran = c.never_ran;
    same_seq = c.same_seq;
    counted = (let h = c.counted in omega arith);
    began = c.began;
  })

  first_counted :
      (s : RecoveryState)
      → s.last_exec_us ≡ 0
      → s.arm_hits ≡ 0
      → IsCounting 1 (count_frame cfg hook_rc seq first s)
  unfolding count_frame
  first_counted s e h =
      simp h (record { never_ran = e; same_seq = refl; counted = refl; began = refl })

  -- A counted frame: it fires, or the count goes on.
  counted-frame :
      (now : ℕ) (s : RecoveryState) (hits : ℕ)
      → s.last_exec_us ≡ 0
      → IsCounting hits (count_frame cfg hook_rc seq now s)
      → hits ≡ arm_count cfg hook_rc
      → (on_frame cfg hook_rc seq now s).fired ≡ true
  unfolding on_frame
  counted-frame now s hits e c h =
      let t : RecoveryState = count_frame cfg hook_rc seq now s in
      let done : ltb t.arm_hits (arm_count cfg hook_rc) ≡ false =
        (let k = c.counted in ground arith) in
      rw (no_cooldown now s e, done) (fire-fired now t)

  frame-IsCounting :
      (now : ℕ) (s : RecoveryState) (hits : ℕ)
      → s.last_exec_us ≡ 0
      → IsCounting hits (count_frame cfg hook_rc seq now s)
      → hits < arm_count cfg hook_rc
      → ((on_frame cfg hook_rc seq now s).fired ≡ false)
        × IsCounting hits (on_frame cfg hook_rc seq now s).state
  unfolding on_frame answer
  frame-IsCounting now s hits e c h =
      let t : RecoveryState = count_frame cfg hook_rc seq now s in
      let more : ltb t.arm_hits (arm_count cfg hook_rc) ≡ true =
        (let k = c.counted in ground arith) in
      rw (no_cooldown now s e, more) (refl, c)

  abbrev frame : WcmdReq
  frame = record { key = key_recovery_apfpv; seq = seq; value = pos 0 }

  -- The state in which `on_frame` meets the frame.
  abbrev met : ℕ → RecoveryState → RecoveryState
  met now s = record s { recv_total = inc64 s.recv_total; last_recv_us = now }

  met-IsCounting :
      (now hits : ℕ) (s : RecoveryState) → IsCounting hits s → IsCounting hits (met now s)
  met-IsCounting now hits s c = record {
    never_ran = c.never_ran;
    same_seq = c.same_seq;
    counted = c.counted;
    began = c.began;
  }

  enabled-dispatch :
      (now : ℕ) (s : RecoveryState)
      → cfg.enabled ≡ true
      → recovery_dispatch cfg hook_rc frame now s ≡ on_frame cfg hook_rc seq now (met now s)
  unfolding recovery_dispatch
  enabled-dispatch now s e = simp e refl

  rest_fires :
      (ts : List ℕ) (s : RecoveryState) (hits : ℕ)
      → cfg.enabled ≡ true
      → AllInWindow ts
      → IsCounting (suc hits) s
      → suc hits + length ts ≡ arm_count cfg hook_rc
      → 0 < length ts
      → fires cfg hook_rc (burst seq ts) s ≡ 1
  unfolding fires
  rest_fires [] s hits e w c h p = ground arith
  rest_fires (t ∷ []) s hits e (o, v, b, w) c h p =
      let n = next_counted t hits (met t s) (met-IsCounting t _ s c) o v b in
      rw
        (
          enabled-dispatch t s e,
          counted-frame t (met t s) (suc (suc hits)) c.never_ran n (omega arith),
        )
        refl
  rest_fires (t ∷ u ∷ ts) s hits e (o, v, b, w) c h p =
      let n = next_counted t hits (met t s) (met-IsCounting t _ s c) o v b in
      let (quiet, go) = frame-IsCounting t (met t s) (suc (suc hits)) c.never_ran n (omega arith) in
      rw (enabled-dispatch t s e, quiet)
        (rest_fires (u ∷ ts) (on_frame cfg hook_rc seq t (met t s)).state (suc hits) e w go
          (omega arith) (omega arith))

  -- A burst of as many recovery frames as the arming count, of one sequence number and within one
  -- arming window, fires the hook exactly once, on an enabled channel whose hook has not run yet and
  -- that has no count in progress.
  pub full_burst-fires :
      (ts : List ℕ) (s : RecoveryState)
      → cfg.enabled ≡ true
      → s.last_exec_us ≡ 0
      → s.arm_hits ≡ 0
      → AllInWindow ts
      → 1 + length ts ≡ arm_count cfg hook_rc
      → fires cfg hook_rc (burst seq (first ∷ ts)) s ≡ 1
  unfolding fires
  full_burst-fires [] s e x h w n =
      rw
        (
          enabled-dispatch first s e,
          counted-frame first (met first s) 1 x (first_counted (met first s) x h) (omega arith),
        )
        refl
  full_burst-fires (t ∷ ts) s e x h w n =
      let (quiet, go) =
        frame-IsCounting first (met first s) 1 x (first_counted (met first s) x h) (omega arith) in
      rw (enabled-dispatch first s e, quiet)
        (rest_fires (t ∷ ts) (on_frame cfg hook_rc seq first (met first s)).state 0 e w go
          (omega arith) (omega arith))
