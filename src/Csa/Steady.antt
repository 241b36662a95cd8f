-- ===== src/Csa/Steady.antt =====
-- The schedule of an armed session stands: what comes before the switch time does not move it.
use waybeam_wfb_ng.Base.{
  ℕ, ◌≡◌, refl, true, false, Bool-cases, inl, inr, Option, none, some, List, [], ◌∷◌, ◌++◌, ap, ◌∙◌,
  arith,
}
use waybeam_wfb_ng.Base.Int.{ℤ, ◌≤ℤ◌, ◌<ℤ◌, leb_ℤ}
use waybeam_wfb_ng.Base.Text.{codes, has_prefix}
use waybeam_wfb_ng.Csa.Json.{get_str}
use waybeam_wfb_ng.Csa.Machine.{
  armed, CsaCfg, CsaState, Commit, parse_commit, on_parsed, on_frame, on_commit, feed_type,
  csa_feed, csa_link_alive, csa_tick, tick_phase, to_idle,
}
use waybeam_wfb_ng.Csa.Run.{Event, datagram, heartbeat, tick, handle, run}

-- A frame, if it reads as one, of a session that is not newer.
unfoldable pub NotNewer : ℤ → Option Commit → Type 0
NotNewer sess none = Unit
NotNewer sess (some c) = c.sess ≤ℤ sess

unfoldable pub NoneNewer : ℤ → Event → Type 0
unfolding NotNewer
NoneNewer sess (datagram buf) = NotNewer sess (parse_commit buf)
NoneNewer sess heartbeat = Unit
NoneNewer sess tick = Unit

-- Events before the switch time, none of them a datagram of a newer session.
unfoldable pub AllOld : ℤ → ℤ → List (ℤ × Event) → Type 0
unfolding NoneNewer
AllOld deadline sess [] = Unit
AllOld deadline sess ((t, e) ∷ es) = (t <ℤ deadline) × NoneNewer sess e × AllOld deadline sess es

module _ (cfg : CsaCfg) (now : ℤ) (s : CsaState) (a : s.st ≡ armed) where
  on_frame-old : (f : Option Commit) → NotNewer s.sess f → on_frame cfg f now s ≡ s
  unfolding on_frame on_parsed NotNewer
  on_frame-old none o = refl
  on_frame-old (some c) o = ground arith

  feed_type-old :
      (buf : List ℕ) (type : Option (List ℕ))
      → NotNewer s.sess (parse_commit buf)
      → (feed_type cfg buf now s type).0 ≡ s
  unfolding feed_type on_commit
  feed_type-old buf none o = refl
  feed_type-old buf (some type) o = elim (Bool-cases (has_prefix (codes "csa_") type)) [
    | inr p ↦ rw p refl
    | inl p ↦ elim (Bool-cases (has_prefix (codes "csa_commit") type)) [
      | inl q ↦ rw (p, q) (on_frame-old (parse_commit buf) o)
      | inr q ↦ rw (p, q) refl
    ]
  ]

  handle-old :
      (e : Event) → now <ℤ s.t_switch_ms → NoneNewer s.sess e → handle cfg now e s ≡ (s, [])
  unfolding handle csa_feed csa_link_alive csa_tick tick_phase NoneNewer
  handle-old (datagram buf) l o =
      ap (λ t. (t, [])) (feed_type-old buf (get_str buf (codes "type") 32) o)
  handle-old heartbeat l o = simp a
  handle-old tick l o = let f : leb_ℤ s.t_switch_ms now ≡ false = ground arith in simp (a, f)

  tick-hops :
      s.t_switch_ms ≤ℤ now
      → (handle cfg now tick s).1 ≡ (armed, record { chan = s.target_chan; ht = s.target_ht }) ∷ []
  unfolding handle csa_tick tick_phase to_idle
  tick-hops l =
      let f : leb_ℤ s.t_switch_ms now ≡ true = ground arith in
      elim (Bool-cases cfg.no_revert) [ inl n ↦ simp (a, f, n) | inr n ↦ simp (a, f, n) ]

module _ (cfg : CsaCfg) where
  run-old :
      (es rest : List (ℤ × Event)) (s : CsaState)
      → s.st ≡ armed
      → AllOld s.t_switch_ms s.sess es
      → run cfg (es ++ rest) s ≡ run cfg rest s
  unfolding run AllOld
  run-old [] rest s a o = refl
  run-old ((t, e) ∷ es) rest s a (l, n, o) = rw (handle-old cfg t s a e l n) (run-old es rest s a o)

  -- Nothing that comes before the switch time of an armed session moves or withdraws the switch,
  -- unless it is a datagram that reads as a frame of a newer session: after any such datagrams,
  -- refreshes of the same session with other delays and channels included, heartbeats and ticks,
  -- the first tick from the switch time on makes the one hop, to the armed channel and bandwidth.
  pub armed_schedule_fixed :
      (es : List (ℤ × Event)) (t1 : ℤ) (s : CsaState)
      → s.st ≡ armed
      → AllOld s.t_switch_ms s.sess es
      → s.t_switch_ms ≤ℤ t1
      → (run cfg (es ++ ((t1, tick) ∷ [])) s).1
        ≡ (armed, record { chan = s.target_chan; ht = s.target_ht }) ∷ []
  unfolding run
  armed_schedule_fixed es t1 s a o l =
      ap (λ z. z.1) (run-old es ((t1, tick) ∷ []) s a o)
      ∙ ap (λ hs. hs ++ []) (tick-hops cfg t1 s a l)
