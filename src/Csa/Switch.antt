-- ===== src/Csa/Switch.antt =====
-- A whole channel switch: the hop at its time, then confirmation or the way back; and the cooldown.
use waybeam_wfb_ng.Base.{◌≡◌, ◌≢◌, refl, sym, ◌∙◌, true, false, List, [], ◌∷◌, ◌++◌, map, arith}
use waybeam_wfb_ng.Base.Int.{ℤ, pos, ◌+ℤ◌, ◌≤ℤ◌, ◌<ℤ◌, leb_ℤ, -ℤ_parts, +ℤ_parts}
use waybeam_wfb_ng.Csa.Machine.{
  idle, armed, verify, CsaCfg, CsaState, to_idle, cooling, csa_link_alive, csa_tick, tick_phase,
}
use waybeam_wfb_ng.Csa.Run.{
  Event, datagram, heartbeat, tick, handle, run, Heard, ignored, confirmed, announced,
  csa_feed-Heard,
}

abbrev pub ticks : List ℤ → List (ℤ × Event)
ticks ts = map (λ t. (t, tick)) ts

abbrev pub AllBefore : ℤ → List ℤ → Type 0
AllBefore d [] = Unit {0}
AllBefore d (t ∷ ts) = (t <ℤ d) × AllBefore d ts

abbrev pub TimesBefore : ℤ → List (ℤ × Event) → Type 0
TimesBefore d [] = Unit {0}
TimesBefore d ((t, e) ∷ es) = (t <ℤ d) × TimesBefore d es

idle≢verify : idle ≢ verify
idle≢verify e = cc

true≢false : true ≢ false
true≢false e = cc

module _ (cfg : CsaCfg) where
  tick_verify_early :
      (now : ℤ) (s : CsaState)
      → s.st ≡ verify
      → now <ℤ s.t_revert_ms
      → handle cfg now tick s ≡ (s, [])
  unfolding handle csa_tick tick_phase
  tick_verify_early now s v e =
      let f : leb_ℤ s.t_revert_ms now ≡ false = ground arith in simp (v, f)

  tick_verify_due :
      (now : ℤ) (s : CsaState)
      → s.st ≡ verify
      → s.t_revert_ms ≤ℤ now
      → handle cfg now tick s ≡ (
        record s { st = idle; last_switch_ms = now },
        (verify, record { chan = s.prev_chan; ht = s.prev_ht }) ∷ [],
      )
  unfolding handle csa_tick tick_phase to_idle
  tick_verify_due now s v e = let f : leb_ℤ s.t_revert_ms now ≡ true = ground arith in simp (v, f)

  tick_armed_due :
      (now : ℤ) (s : CsaState)
      → s.st ≡ armed
      → cfg.no_revert ≡ false
      → s.t_switch_ms ≤ℤ now
      → handle cfg now tick s ≡ (
        record s { st = verify; t_revert_ms = now +ℤ s.t_revert_ms; last_switch_ms = now },
        (armed, record { chan = s.target_chan; ht = s.target_ht }) ∷ [],
      )
  unfolding handle csa_tick tick_phase
  tick_armed_due now s a n e =
      let f : leb_ℤ s.t_switch_ms now ≡ true = ground arith in simp (a, f, n)

  heartbeat_confirms :
      (now : ℤ) (s : CsaState)
      → s.st ≡ verify
      → handle cfg now heartbeat s ≡ (record s { st = idle }, [])
  unfolding handle csa_link_alive to_idle
  heartbeat_confirms now s v = simp v

  wait :
      (ts : List ℤ) (s : CsaState) (rest : List (ℤ × Event))
      → s.st ≡ verify
      → AllBefore s.t_revert_ms ts
      → run cfg (ticks ts ++ rest) s ≡ run cfg rest s
  unfolding run
  wait [] s rest v b = refl
  wait (t ∷ ts) s rest v b = rw (tick_verify_early t s v b.0) (wait ts s rest v b.1)

  -- A switch that nothing confirms is taken back: the tick at the switch time hops to the target,
  -- ticks before the deadline wait, and the tick at the deadline hops to the previous channel and
  -- leaves the receiver idle, its cooldown counted from the hop back.
  pub unconfirmed_switch_reverts :
      (s : CsaState) (t1 t2 : ℤ) (ts : List ℤ)
      → s.st ≡ armed
      → cfg.no_revert ≡ false
      → s.t_switch_ms ≤ℤ t1
      → AllBefore (t1 +ℤ s.t_revert_ms) ts
      → t1 +ℤ s.t_revert_ms ≤ℤ t2
      → run cfg ((t1, tick) ∷ ticks ts ++ ((t2, tick) ∷ [])) s ≡ (
        record s { st = idle; t_revert_ms = t1 +ℤ s.t_revert_ms; last_switch_ms = t2 },
        (armed, record { chan = s.target_chan; ht = s.target_ht })
            ∷ (verify, record { chan = s.prev_chan; ht = s.prev_ht })
            ∷ [],
      )
  unfolding run
  unconfirmed_switch_reverts s t1 t2 ts a n d b e =
      let hopped : CsaState = record s {
        st = verify;
        t_revert_ms = t1 +ℤ s.t_revert_ms;
        last_switch_ms = t1;
      } in
      rw
        (
          tick_armed_due t1 s a n d,
          wait ts hopped ((t2, tick) ∷ []) refl b,
          tick_verify_due t2 hopped refl e,
        )
        refl

  idle_ticks : (ts : List ℤ) (s : CsaState) → s.st ≡ idle → run cfg (ticks ts) s ≡ (s, [])
  unfolding run handle csa_tick tick_phase
  idle_ticks [] s i = refl
  idle_ticks (t ∷ ts) s i = simp i (idle_ticks ts s i)

  heard_beat :
      (t : ℤ) (later : List ℤ) (s : CsaState)
      → s.st ≡ verify
      → run cfg ((t, heartbeat) ∷ ticks later) s ≡ (record s { st = idle }, [])
  unfolding run
  heard_beat t later s v =
      rw (heartbeat_confirms t s v, idle_ticks later (record s { st = idle }) refl) refl

  -- A switch that traffic confirms stays: after the hop and ticks before the deadline, a heartbeat
  -- commits it, and no later tick, at any time, hops back.
  pub confirmed_switch_stays :
      (s : CsaState) (t1 t2 : ℤ) (ts later : List ℤ)
      → s.st ≡ armed
      → cfg.no_revert ≡ false
      → s.t_switch_ms ≤ℤ t1
      → AllBefore (t1 +ℤ s.t_revert_ms) ts
      → run cfg ((t1, tick) ∷ (ticks ts ++ ((t2, heartbeat) ∷ ticks later))) s ≡ (
        record s { st = idle; t_revert_ms = t1 +ℤ s.t_revert_ms; last_switch_ms = t1 },
        (armed, record { chan = s.target_chan; ht = s.target_ht }) ∷ [],
      )
  unfolding run
  confirmed_switch_stays s t1 t2 ts later a n d b =
      let hopped : CsaState = record s {
        st = verify;
        t_revert_ms = t1 +ℤ s.t_revert_ms;
        last_switch_ms = t1;
      } in
      let held : run cfg (ticks ts ++ ((t2, heartbeat) ∷ ticks later)) hopped
          ≡ (record hopped { st = idle }, []) =
        wait ts hopped ((t2, heartbeat) ∷ ticks later) refl b ∙ heard_beat t2 later hopped refl in
      rw (tick_armed_due t1 s a n d, held) refl

  cooling_holds :
      (now : ℤ) (s : CsaState)
      → pos 0 <ℤ cfg.cooldown_ms
      → pos 0 ≤ℤ s.last_switch_ms
      → now <ℤ s.last_switch_ms +ℤ cfg.cooldown_ms
      → cooling cfg now s ≡ true
  unfolding cooling
  cooling_holds now s c l t =
      ground (arith, -ℤ_parts now s.last_switch_ms, +ℤ_parts s.last_switch_ms cfg.cooldown_ms)

  Heard-idle :
      {now : ℤ} {s t : CsaState}
      → s.st ≡ idle
      → cooling cfg now s ≡ true
      → Heard cfg now s t
      → t ≡ s
  Heard-idle i c ignored = refl
  Heard-idle i c (confirmed v) = absurd (idle≢verify (sym i ∙ v))
  Heard-idle i c (announced f o n k) = absurd (true≢false (sym c ∙ k))

  handle-cooling :
      (now : ℤ) (e : Event) (s : CsaState)
      → s.st ≡ idle
      → cooling cfg now s ≡ true
      → handle cfg now e s ≡ (s, [])
  unfolding handle csa_link_alive csa_tick tick_phase
  handle-cooling now (datagram buf) s i c = rw (Heard-idle i c (csa_feed-Heard cfg now s buf)) refl
  handle-cooling now heartbeat s i c = simp i
  handle-cooling now tick s i c = simp i

  -- The cooldown after a hop: until it is over, no datagram, heartbeat or tick whatever changes the
  -- idle receiver or makes it hop.
  pub cooldown_holds :
      (es : List (ℤ × Event)) (s : CsaState)
      → s.st ≡ idle
      → pos 0 <ℤ cfg.cooldown_ms
      → pos 0 ≤ℤ s.last_switch_ms
      → TimesBefore (s.last_switch_ms +ℤ cfg.cooldown_ms) es
      → run cfg es s ≡ (s, [])
  unfolding run
  cooldown_holds [] s i c l b = refl
  cooldown_holds ((now, e) ∷ es) s i c l b =
      rw (handle-cooling now e s i (cooling_holds now s c l b.0), cooldown_holds es s i c l b.1)
        refl
