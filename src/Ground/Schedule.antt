-- ===== src/Ground/Schedule.antt =====
-- When the ground station hops, and what decides whether it hops back.
use waybeam_wfb_ng.Base.{
  ℕ, ◌≤◌, ◌≡◌, Bool, true, false, not, ◌||◌, if_cases, and_right, leb→le, List, [], ◌∷◌, ◌++◌,
  length, leb, if◌then◌else◌, arith,
}
use waybeam_wfb_ng.Ground.Types.{Config, has_uplink}
use waybeam_wfb_ng.Base.Word.{inc32}
use waybeam_wfb_ng.Ground.Frame.{commit_text}
use waybeam_wfb_ng.Ground.Hop.{
  csa_idle, CsaState, IwHop, Send, Sent, is_verify, is_armed, csa_send_commit_frame, burst_due,
  count_frame, announcement, drive_burst, hop_all, switch_due, enter_verify, drive_switch,
  verify_due, rx_alive, drive_verify, csa_tick,
}

-- What a session fixes when it starts.
pub record Plan : Type 0 where
  pub t_switch_us : ℕ
  pub t_revert_us : ℕ
  pub there : List IwHop
  pub back : List IwHop
  pub no_revert : Bool

abbrev pub plan : CsaState → Plan
plan g = record {
  t_switch_us = g.t_switch_us;
  t_revert_us = g.t_revert_us;
  there = hop_all g.target_chan g.target_ht g.ifaces;
  back = hop_all g.prev_chan g.prev_ht g.ifaces;
  no_revert = g.no_revert;
}

-- The hops that a call may make, and when.
pub data Hopped (t_us : ℕ) (p : Plan) : List IwHop → Type 0 where
  stayed : Hopped t_us p []
  switched : p.t_switch_us ≤ t_us → Hopped t_us p (p.there ++ [])
  reverted : p.t_revert_us ≤ t_us → p.no_revert ≡ false → Hopped t_us p p.back
  switched_and_reverted :
      p.t_switch_us ≤ t_us
      → p.t_revert_us ≤ t_us
      → p.no_revert ≡ false
      → Hopped t_us p (p.there ++ p.back)

-- What each of the three parts of a call can do.
pub data Burst (t_us : ℕ) (g : CsaState) : CsaState × List (List ℕ) → Type 0 where
  not_due : burst_due t_us g ≡ false → Burst t_us g (g, [])
  aborted :
      (n : ℕ)
      → burst_due t_us g ≡ true
      → Burst t_us g (record g { seq_in_burst = n; phase = csa_idle }, [])
  sent_one :
      (n : ℕ) (text : List ℕ)
      → burst_due t_us g ≡ true
      → Burst t_us g (count_frame t_us (record g { seq_in_burst = n }), text ∷ [])

pub data Verified (c : Config) (t_us : ℕ) (g : CsaState) : CsaState × List IwHop → Type 0 where
  not_yet : verify_due t_us g ≡ false → Verified c t_us g (g, [])
  committed :
      verify_due t_us g ≡ true
      → (rx_alive c g || g.no_revert) ≡ true
      → Verified c t_us g (record g { phase = csa_idle }, [])
  given_up :
      verify_due t_us g ≡ true
      → (rx_alive c g || g.no_revert) ≡ false
      → Verified c t_us g (record g { phase = csa_idle }, hop_all g.prev_chan g.prev_ht g.ifaces)

or_right : (a b : Bool) → a || b ≡ false → b ≡ false
or_right a b h = ground arith

module _ (c : Config) (t_us : ℕ) where
  module _ (w : Send) (g : CsaState) where
    abbrev take_sent : Sent → CsaState × List (List ℕ)
    take_sent sent =
        if sent.ok
        then (count_frame t_us sent.state, sent.frames)
        else (record sent.state { phase = csa_idle }, sent.frames)

    take_sent-Burst :
        (n : ℕ) (text : List ℕ) (delivered : Bool)
        → burst_due t_us g ≡ true
        → Burst t_us g (
            take_sent (record {
              state = record g { seq_in_burst = n };
              frames = if delivered then text ∷ [] else [];
              ok = delivered;
            }))
    take_sent-Burst n text true due = sent_one n text due
    take_sent-Burst n text false due = aborted n due

    pub drive_burst-Burst : Burst t_us g (drive_burst c t_us w g)
    unfolding drive_burst csa_send_commit_frame
    drive_burst-Burst =
        if_cases (Burst t_us g) (burst_due t_us g)
          (λ due.
            if_cases (λ s. Burst t_us g (take_sent s))
              (not (has_uplink c.venc_cmd_uplink c.tunnels)) (λ _. aborted g.seq_in_burst due)
              λ _.
                if_cases (λ s. Burst t_us g (take_sent s))
                  (leb 320 (length (commit_text (announcement g w.now_us))))
                  (λ _. aborted (inc32 g.seq_in_burst) due)
                  λ _.
                    take_sent-Burst (inc32 g.seq_in_burst) (commit_text (announcement g w.now_us))
                      w.delivered due)
          not_due

  pub drive_verify-Verified : (g : CsaState) → Verified c t_us g (drive_verify c t_us g)
  unfolding drive_verify
  drive_verify-Verified g =
      if_cases (Verified c t_us g) (verify_due t_us g)
        (λ due.
          if_cases (λ b. Verified c t_us g (record g { phase = csa_idle }, b))
            (rx_alive c g || g.no_revert) (committed due) (given_up due))
        not_yet

  verify-Hopped :
      (g : CsaState) {r : CsaState × List IwHop} → Verified c t_us g r → Hopped t_us (plan g) r.1
  unfolding verify_due
  verify-Hopped g (not_yet e) = stayed
  verify-Hopped g (committed due a) = stayed
  verify-Hopped g (given_up due a) =
      reverted
        (leb→le g.t_revert_us t_us (and_right (is_verify g.phase) (leb g.t_revert_us t_us) due))
        (or_right (rx_alive c g) g.no_revert a)

  -- A verification that begins in this call can end in it.
  after_switch-Hopped :
      (g : CsaState) {r : CsaState × List IwHop}
      → g.t_switch_us ≤ t_us
      → Verified c t_us (enter_verify c t_us g) r
      → Hopped t_us (plan g) (hop_all g.target_chan g.target_ht g.ifaces ++ r.1)
  unfolding verify_due enter_verify
  after_switch-Hopped g l (not_yet e) = switched l
  after_switch-Hopped g l (committed due a) = switched l
  after_switch-Hopped g l (given_up due a) =
      switched_and_reverted l (leb→le g.t_revert_us t_us due)
        (or_right (rx_alive c (enter_verify c t_us g)) g.no_revert a)

  two_parts-Hopped :
      (g : CsaState)
      → Hopped t_us
          (plan g)
          ((drive_switch c t_us g).1 ++ (drive_verify c t_us (drive_switch c t_us g).0).1)
  unfolding drive_switch switch_due
  two_parts-Hopped g =
      if_cases
        (λ (s : CsaState × List IwHop). Hopped t_us (plan g) (s.1 ++ (drive_verify c t_us s.0).1))
        (switch_due t_us g)
        (λ due.
          after_switch-Hopped g
            (leb→le g.t_switch_us t_us (and_right (is_armed g.phase) (leb g.t_switch_us t_us) due))
            (drive_verify-Verified (enter_verify c t_us g)))
        (λ _. verify-Hopped g (drive_verify-Verified g))

  after_burst-Hopped :
      (g : CsaState) {r : CsaState × List (List ℕ)}
      → Burst t_us g r
      → Hopped t_us
          (plan g)
          ((drive_switch c t_us r.0).1 ++ (drive_verify c t_us (drive_switch c t_us r.0).0).1)
  unfolding count_frame
  after_burst-Hopped g (not_due e) = two_parts-Hopped g
  after_burst-Hopped g (aborted n e) =
      two_parts-Hopped (record g { seq_in_burst = n; phase = csa_idle })
  after_burst-Hopped g (sent_one n text e) =
      two_parts-Hopped (count_frame t_us (record g { seq_in_burst = n }))

  -- A call of the state machine hops to the target no earlier than T_switch, and hops back no
  -- earlier than the deadline and only where reverting is on; every hop moves all interfaces of the
  -- session, and a call hops at most once in each direction, to the target first.
  pub csa_tick-Hopped : (w : Send) (g : CsaState) → Hopped t_us (plan g) (csa_tick c t_us w g).hops
  unfolding csa_tick
  csa_tick-Hopped w g = after_burst-Hopped g (drive_burst-Burst w g)
