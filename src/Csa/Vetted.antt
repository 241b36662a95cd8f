-- ===== src/Csa/Vetted.antt =====
-- Where the radio can be sent: only to targets that passed the checks, and back.
use waybeam_wfb_ng.Base.{
  ℕ, ◌≡◌, refl, sym, ◌∙◌, ◌≢◌, ◌⊎◌, inl, inr, true, List, [], ◌∷◌, ◌++◌, map, arith, Bool-cases,
}
use waybeam_wfb_ng.Base.Int.{ℤ, pos, negsuc, ◌≤ℤ◌, leb_ℤ}
use waybeam_wfb_ng.Csa.Machine.{
  CsaPhase, idle, armed, verify, CsaCfg, CsaState, Hop, csa_init, chan_ok, bw_ok, to_int32, Commit,
  target_ok, to_idle, arm, csa_link_alive, csa_tick, tick_phase,
}
use waybeam_wfb_ng.Csa.Run.{
  Event, datagram, heartbeat, tick, handle, run, Heard, ignored, confirmed, announced,
  csa_feed-Heard,
}

-- The channel is in range, and channel and bandwidth are on the configured lists.
pub record IsVetted (cfg : CsaCfg) (chan : ℤ) (ht : List ℕ) : Type 0 where
  pub from_1 : pos 1 ≤ℤ chan
  pub to_200 : chan ≤ℤ pos 200
  pub chan_listed : chan_ok cfg chan ≡ true
  pub bw_listed : bw_ok cfg ht ≡ true

abbrev pub Inv : CsaCfg → CsaState → Type 0
Inv cfg s = (s.st ≡ idle) ⊎ IsVetted cfg s.target_chan s.target_ht

pub to_int32_small : (x : ℤ) → pos 1 ≤ℤ x → x ≤ℤ pos 200 → to_int32 x ≡ x
unfolding to_int32
to_int32_small (pos n) l u = ground arith
to_int32_small (negsuc n) l u = absurd (omega arith)

armed≢idle : armed ≢ idle
armed≢idle e = cc

module _ (cfg : CsaCfg) where
  target_ok-IsVetted :
      (c : Commit) → target_ok cfg c ≡ true → IsVetted cfg (to_int32 c.target_chan) c.target_ht
  unfolding target_ok
  target_ok-IsVetted c h = ground (arith, to_int32_small c.target_chan)

  Heard-Inv : {now : ℤ} {s t : CsaState} → Inv cfg s → Heard cfg now s t → Inv cfg t
  unfolding to_idle arm
  Heard-Inv i ignored = i
  Heard-Inv i (confirmed v) = inl refl
  Heard-Inv i (announced c t n k) = inr (target_ok-IsVetted c t)

  tick-Inv :
      (now : ℤ) (s : CsaState) (p : CsaPhase)
      → s.st ≡ p
      → Inv cfg s
      → Inv cfg (tick_phase cfg now s p).state
  unfolding tick_phase to_idle
  tick-Inv now s idle e i = i
  tick-Inv now s armed e i = ground arith
  tick-Inv now s verify e i = ground arith

  handle-Inv : (now : ℤ) (e : Event) (s : CsaState) → Inv cfg s → Inv cfg (handle cfg now e s).0
  unfolding handle csa_link_alive csa_tick to_idle
  handle-Inv now (datagram buf) s i = Heard-Inv i (csa_feed-Heard cfg now s buf)
  handle-Inv now heartbeat s i = ground arith
  handle-Inv now tick s i = tick-Inv now s s.st refl i

  -- A hop out of the armed phase goes to a vetted channel and bandwidth.
  abbrev pub IsSafe : CsaPhase × Hop → Type 0
  IsSafe (p, h) = p ≡ armed → IsVetted cfg h.chan h.ht

  abbrev pub AllSafe : List (CsaPhase × Hop) → Type 0
  AllSafe [] = Unit
  AllSafe (h ∷ hs) = IsSafe h × AllSafe hs

  AllSafe-append : (hs ks : List (CsaPhase × Hop)) → AllSafe hs → AllSafe ks → AllSafe (hs ++ ks)
  AllSafe-append [] ks a b = b
  AllSafe-append (h ∷ hs) ks a b = (a.0, AllSafe-append hs ks a.1 b)

  vetted : (s : CsaState) → s.st ≡ armed → Inv cfg s → IsVetted cfg s.target_chan s.target_ht
  vetted s e (inl z) = absurd (armed≢idle (sym e ∙ z))
  vetted s e (inr v) = v

  tick-AllSafe :
      (now : ℤ) (s : CsaState) (p : CsaPhase)
      → s.st ≡ p
      → Inv cfg s
      → AllSafe (map (λ h. (p, h)) (tick_phase cfg now s p).hops)
  unfolding tick_phase
  tick-AllSafe now s idle e i = tt
  tick-AllSafe now s armed e i = elim (Bool-cases (leb_ℤ s.t_switch_ms now)) [
    | inr l ↦ rw l tt
    | inl l ↦ elim (Bool-cases cfg.no_revert) [
      | inl n ↦ rw l (simp n (λ _. vetted s e i, tt))
      | inr n ↦ rw l (simp n (λ _. vetted s e i, tt))
    ]
  ]
  tick-AllSafe now s verify e i = elim (Bool-cases (leb_ℤ s.t_revert_ms now)) [
    | inr l ↦ rw l tt
    | inl l ↦ rw l (λ h. cc, tt)
  ]

  handle-AllSafe : (now : ℤ) (e : Event) (s : CsaState) → Inv cfg s → AllSafe (handle cfg now e s).1
  unfolding handle csa_tick
  handle-AllSafe now (datagram buf) s i = tt
  handle-AllSafe now heartbeat s i = tt
  handle-AllSafe now tick s i = tick-AllSafe now s s.st refl i

  run_from-AllSafe : (es : List (ℤ × Event)) (s : CsaState) → Inv cfg s → AllSafe (run cfg es s).1
  unfolding run
  run_from-AllSafe [] s i = tt
  run_from-AllSafe ((now, e) ∷ es) s i =
      AllSafe-append (handle cfg now e s).1 (run cfg es (handle cfg now e s).0).1
        (handle-AllSafe now e s i)
        (run_from-AllSafe es (handle cfg now e s).0 (handle-Inv now e s i))

  -- Whatever datagrams, heartbeats and ticks come from the initial state on, in any order and at
  -- any times, every hop that leaves the armed phase goes to a channel from 1 to 200 and a
  -- bandwidth that the configured lists allow. (The other hops go back after a switch.)
  pub run-AllSafe : (es : List (ℤ × Event)) → AllSafe (run cfg es csa_init).1
  unfolding csa_init
  run-AllSafe es = run_from-AllSafe es csa_init (inl refl)
