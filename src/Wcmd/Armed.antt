-- ===== src/Wcmd/Armed.antt =====
-- The recovery channel: when its hook runs, and that it shares no key with the operator's channel.
use waybeam_wfb_ng.Base.{
  ℕ, suc, ◌+◌, ◌<◌, ◌≤◌, ◌≡◌, refl, ◌∙◌, Bool, true, false, not, ◌&&◌, ◌||◌, Bool-cases, ◌⊎◌, inl,
  inr, List, [], ◌∷◌, length, ◌==◌, ltb, arith, if◌then◌else◌,
}
use waybeam_wfb_ng.Base.Int.{ℤ}
use waybeam_wfb_ng.Base.Word.{sub64, u64_mod, sub64_of_le}
use waybeam_wfb_ng.Wcmd.Types.{
  WcmdReq, CmdConfig, World, WcmdState, wcmd_num_keys, key_recovery_apfpv,
}
use waybeam_wfb_ng.Wcmd.Dispatch.{wcmd_dispatch}
use waybeam_wfb_ng.Wcmd.Gates.{IsIdle, is_masked, closed_gate-IsIdle}
use waybeam_wfb_ng.Wcmd.Recovery.{
  RecoveryConfig, RecoveryState, Recovered, ms_or, answer, arm_count, count_frame, in_cooldown,
  on_frame, recovery_dispatch,
}

module _ (cfg : RecoveryConfig) (hook_rc : ℤ) where
  -- How often the hook fires over frames with their times.
  unfoldable pub fires : List (ℕ × WcmdReq) → RecoveryState → ℕ
  fires [] s = 0
  fires ((now, req) ∷ es) s =
      let r = recovery_dispatch cfg hook_rc req now s in
      let rest = fires es r.state in if r.fired then suc rest else rest

  foreign_key :
      (req : WcmdReq) (now : ℕ) (s : RecoveryState)
      → (req.key == key_recovery_apfpv) ≡ false
      → (recovery_dispatch cfg hook_rc req now s).fired ≡ false
  unfolding recovery_dispatch answer
  foreign_key req now s h = elim (Bool-cases cfg.enabled) [
    | inl e ↦ simp (e, h) refl
    | inr e ↦ simp e refl
  ]

  -- A frame that is not the last one of a count: it does not fire, and adds at most one hit.
  record Counted (s : RecoveryState) (r : Recovered) : Type 0 where
    no_fire : r.fired ≡ false
    hits : r.state.arm_hits ≤ s.arm_hits + 1

  count_frame-le :
      (seq now : ℕ) (s : RecoveryState)
      → (count_frame cfg hook_rc seq now s).arm_hits ≤ s.arm_hits + 1
  unfolding count_frame
  count_frame-le seq now s =
      elim (Bool-cases (
        s.arm_hits == 0
        || not (s.arm_seq == seq)
        || ltb (ms_or cfg.arm_window_ms 2000) (sub64 now s.arm_first_us))) [
          | inl h ↦ rw h (omega arith)
          | inr h ↦ rw h (omega arith)
        ]

  frame-Counted :
      (seq now : ℕ) (s : RecoveryState)
      → s.arm_hits + 1 < arm_count cfg hook_rc
      → Counted s (on_frame cfg hook_rc seq now s)
  unfolding on_frame answer
  frame-Counted seq now s h =
      let le = count_frame-le seq now s in
      let few : ltb (count_frame cfg hook_rc seq now s).arm_hits (arm_count cfg hook_rc) ≡ true =
        ground arith in
      elim (Bool-cases (in_cooldown cfg hook_rc now s)) [
        | inl c ↦ rw c (record { no_fire = refl; hits = omega arith })
        | inr c ↦ rw (c, few) (record { no_fire = refl; hits = le })
      ]

  dispatch-Counted :
      (req : WcmdReq) (now : ℕ) (s : RecoveryState)
      → s.arm_hits + 1 < arm_count cfg hook_rc
      → Counted s (recovery_dispatch cfg hook_rc req now s)
  unfolding recovery_dispatch answer
  dispatch-Counted req now s h = elim (Bool-cases cfg.enabled) [
    | inr e ↦ simp e (record { no_fire = refl; hits = omega arith })
    | inl e ↦ elim (Bool-cases (req.key == key_recovery_apfpv)) [
      | inr k ↦ simp (e, k) (record { no_fire = refl; hits = omega arith })
      | inl k ↦
          simp (e, k)
            (let c = frame-Counted req.seq now _ h in record { no_fire = c.no_fire; hits = c.hits })
    ]
  ]

  -- Fewer frames than the arming count, with the hits already counted, never fire the hook, whatever
  -- their keys, sequence numbers and times are.
  pub few_frames_never_fire :
      (es : List (ℕ × WcmdReq)) (s : RecoveryState)
      → s.arm_hits + length es < arm_count cfg hook_rc
      → fires es s ≡ 0
  unfolding fires
  few_frames_never_fire [] s h = refl
  few_frames_never_fire ((now, req) ∷ es) s h =
      let c = dispatch-Counted req now s (omega arith) in
      let bound = c.hits in
      rw c.no_fire
        (few_frames_never_fire es (recovery_dispatch cfg hook_rc req now s).state (omega arith))

  -- Every time of the frames is in the cooldown that began at `start`.
  abbrev pub AllCooling : ℕ → List (ℕ × WcmdReq) → Type 0
  AllCooling start [] = Unit {0}
  AllCooling start ((now, req) ∷ es) =
      (start ≤ now)
      × (now < start + ms_or cfg.cooldown_ms 10_000)
      × (now < u64_mod)
      × AllCooling start es

  cooling-true :
      (now : ℕ) (s : RecoveryState)
      → 0 < s.last_exec_us
      → s.last_exec_us ≤ now
      → now < s.last_exec_us + ms_or cfg.cooldown_ms 10_000
      → now < u64_mod
      → in_cooldown cfg hook_rc now s ≡ true
  unfolding in_cooldown
  cooling-true now s p o w b = rw (sub64_of_le now s.last_exec_us o b) (ground arith)

  record Held (s : RecoveryState) (r : Recovered) : Type 0 where
    no_fire : r.fired ≡ false
    same_exec : r.state.last_exec_us ≡ s.last_exec_us

  frame-Held :
      (seq now : ℕ) (s : RecoveryState)
      → in_cooldown cfg hook_rc now s ≡ true
      → Held s (on_frame cfg hook_rc seq now s)
  unfolding on_frame answer
  frame-Held seq now s h = rw h (record { no_fire = refl; same_exec = refl })

  dispatch-Held :
      (req : WcmdReq) (now : ℕ) (s : RecoveryState)
      → in_cooldown cfg hook_rc now s ≡ true
      → Held s (recovery_dispatch cfg hook_rc req now s)
  unfolding recovery_dispatch answer in_cooldown
  dispatch-Held req now s h = elim (Bool-cases cfg.enabled) [
    | inr e ↦ simp e (record { no_fire = refl; same_exec = refl })
    | inl e ↦ elim (Bool-cases (req.key == key_recovery_apfpv)) [
      | inr k ↦ simp (e, k) (record { no_fire = refl; same_exec = refl })
      | inl k ↦
          simp (e, k)
            (let c = frame-Held req.seq now _ h in
              record { no_fire = c.no_fire; same_exec = c.same_exec })
    ]
  ]

  -- After the hook ran, no frame fires it again before the cooldown is over, however many come. The
  -- clock has left zero and does not wrap around in between.
  pub cooldown_never_fires :
      (es : List (ℕ × WcmdReq)) (s : RecoveryState) (start : ℕ)
      → s.last_exec_us ≡ start
      → 0 < start
      → AllCooling start es
      → fires es s ≡ 0
  unfolding fires
  cooldown_never_fires [] s start e p c = refl
  cooldown_never_fires ((now, req) ∷ es) s start e p (a, b, w, rest) =
      let held =
        dispatch-Held req now s (cooling-true now s (omega arith) (omega arith) (omega arith) w) in
      rw held.no_fire (
        cooldown_never_fires es (recovery_dispatch cfg hook_rc req now s).state start
          (held.same_exec ∙ e) p rest)

  -- The two channels share no key: a request of either kind does nothing on the operator's channel,
  -- or does not fire the recovery hook.
  pub channels_disjoint :
      (cmd : CmdConfig) (world : World) (from_loopback : Bool) (req : WcmdReq) (now : ℕ)
      (w : WcmdState) (s : RecoveryState)
      → IsIdle w (wcmd_dispatch cmd world from_loopback req now w)
        ⊎ ((recovery_dispatch cfg hook_rc req now s).fired ≡ false)
  channels_disjoint cmd world from_loopback req now w s =
      elim (Bool-cases (req.key == key_recovery_apfpv)) [
        | inr k ↦ inr (foreign_key req now s k)
        | inl k ↦
            inl (closed_gate-IsIdle cmd world from_loopback req now w (closed cmd from_loopback k))
      ]
    where
      closed :
          (cmd : CmdConfig) (from_loopback : Bool)
          → (req.key == key_recovery_apfpv) ≡ true
          → (not cmd.enabled
              || (cmd.loopback_only && not from_loopback)
              || (req.key == 0 || ltb wcmd_num_keys req.key)
              || is_masked cmd world from_loopback req now w)
            ≡ true
      closed cmd from_loopback k = ground arith
