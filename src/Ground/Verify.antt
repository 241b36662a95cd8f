-- ===== src/Ground/Verify.antt =====
-- What decides whether the ground station hops back, and what leaves it silent.
use waybeam_wfb_ng.Base.{
  ℕ, ◌≤◌, ◌<◌, ◌≡◌, refl, ap, ap₂, ◌∙◌, true, false, not, ◌||◌, some, List, [], ◌∷◌, ◌++◌,
  append-nil, leb, ◌==◌, if◌then◌else◌, arith,
}
use waybeam_wfb_ng.Ground.Types.{Config}
use waybeam_wfb_ng.Ground.Hop.{
  csa_armed, csa_verify, CsaState, Send, IwHop, csa_pick_rx_tunnel_idx, pkt_all, hop_all, burst_due,
  drive_burst, switch_due, enter_verify, drive_switch, rx_alive, verify_due, drive_verify, csa_tick,
}

le→leb : (a b : ℕ) → a ≤ b → leb a b ≡ true
le→leb a b h = ground arith

lt→not_leb : (a b : ℕ) → a < b → leb b a ≡ false
lt→not_leb a b h = ground arith

-- An armed session, and one that has hopped.
abbrev pub armed_of : CsaState → CsaState
armed_of g = record g { phase = csa_armed }

module _ (c : Config) (t_us : ℕ) (w : Send) (g : CsaState) where
  tick-armed :
      g.t_switch_us ≤ t_us
      → t_us < g.t_revert_us
      → (csa_tick c t_us w (armed_of g)).state ≡ enter_verify c t_us g
  unfolding csa_tick drive_burst burst_due drive_switch switch_due drive_verify verify_due
      enter_verify
  tick-armed l u = rw (le→leb g.t_switch_us t_us l, lt→not_leb t_us g.t_revert_us u)

  tick-armed-hops :
      g.t_switch_us ≤ t_us
      → t_us < g.t_revert_us
      → (csa_tick c t_us w (armed_of g)).hops ≡ hop_all g.target_chan g.target_ht g.ifaces ++ []
  unfolding csa_tick drive_burst burst_due drive_switch switch_due drive_verify verify_due
      enter_verify
  tick-armed-hops l u = rw (le→leb g.t_switch_us t_us l, lt→not_leb t_us g.t_revert_us u)

  tick-verify :
      g.t_revert_us ≤ t_us
      → (csa_tick c t_us w (record g { phase = csa_verify })).hops
        ≡ (if rx_alive c g || g.no_revert then [] else hop_all g.prev_chan g.prev_ht g.ifaces)
  unfolding csa_tick drive_burst burst_due drive_switch switch_due drive_verify verify_due rx_alive
  tick-verify l = rw (le→leb g.t_revert_us t_us l)

-- A sequence of calls, each with what the supervisor knows of the tunnels by then: the state that
-- they leave, and the hops that they make.
unfoldable pub run_calls : List (Config × ℕ × Send) → CsaState → CsaState × List IwHop
run_calls [] g = (g, [])
run_calls ((c, t_us, w) ∷ cs) g =
    let t = csa_tick c t_us w g in let (g', more) = run_calls cs t.state in (g', t.hops ++ more)

-- Every call comes before a time.
unfoldable pub AllEarly : ℕ → List (Config × ℕ × Send) → Type 0
AllEarly deadline [] = Unit
AllEarly deadline ((c, t_us, w) ∷ cs) = (t_us < deadline) × AllEarly deadline cs

tick-waiting :
    (c : Config) (t_us : ℕ) (w : Send) (g : CsaState)
    → t_us < g.t_revert_us
    → csa_tick c t_us w (record g { phase = csa_verify })
      ≡ record { state = record g { phase = csa_verify }; frames = []; hops = [] }
unfolding csa_tick drive_burst burst_due drive_switch switch_due drive_verify verify_due
tick-waiting c t_us w g l = rw (lt→not_leb t_us g.t_revert_us l)

run_calls-waiting :
    (cs rest : List (Config × ℕ × Send)) (g : CsaState)
    → AllEarly g.t_revert_us cs
    → run_calls (cs ++ rest) (record g { phase = csa_verify })
      ≡ run_calls rest (record g { phase = csa_verify })
unfolding run_calls AllEarly
run_calls-waiting [] rest g e = refl
run_calls-waiting ((c, t_us, w) ∷ cs) rest g e =
    rw (tick-waiting c t_us w g e.0) (run_calls-waiting cs rest g e.1)

module _ (c d : Config) (t_us u_us : ℕ) (w v : Send) (g : CsaState) (i : ℕ) where
  -- An armed session with a tunnel to receive on at the hop: the calls from the hop, at `t_us`
  -- between T_switch and the deadline, over any number of calls before the deadline, to the one at
  -- `u_us` that ends the verification, hop to the target and, at the end, hop back exactly if
  -- reverting is on and the packet counter of that tunnel shows the same number at `t_us` and at
  -- `u_us`, whatever it showed in between: two samples of a counter are compared.
  pub reverts_on_equal_samples :
      (cs : List (Config × ℕ × Send))
      → g.t_switch_us ≤ t_us
      → t_us < g.t_revert_us
      → AllEarly g.t_revert_us cs
      → g.t_revert_us ≤ u_us
      → csa_pick_rx_tunnel_idx c ≡ some i
      → (run_calls ((c, t_us, w) ∷ (cs ++ ((d, u_us, v) ∷ []))) (armed_of g)).1 ≡ (
          hop_all g.target_chan g.target_ht g.ifaces
          ++ (if not (pkt_all d (some i) == pkt_all c (some i)) || g.no_revert
              then []
              else hop_all g.prev_chan g.prev_ht g.ifaces))
  unfolding run_calls enter_verify rx_alive
  reverts_on_equal_samples cs l m a r e =
      let h = enter_verify c t_us g in
      let there : (csa_tick c t_us w (armed_of g)).hops
          ≡ hop_all g.target_chan g.target_ht g.ifaces =
        tick-armed-hops c t_us w g l m ∙ append-nil (hop_all g.target_chan g.target_ht g.ifaces) in
      let last : (csa_tick d u_us v h).hops ≡ (
          if not (pkt_all d (some i) == pkt_all c (some i)) || g.no_revert
          then []
          else hop_all g.prev_chan g.prev_ht g.ifaces) =
        tick-verify d u_us v h r ∙ rw (e) refl in
      ap₂ (λ a b. a ++ b) there
        (ap (λ z. (run_calls (cs ++ ((d, u_us, v) ∷ [])) z).1) (tick-armed c t_us w g l m)
          ∙ ap (λ z. z.1) (run_calls-waiting cs ((d, u_us, v) ∷ []) h a)
          ∙ append-nil (csa_tick d u_us v h).hops
          ∙ last)
