-- ===== src/Ground/Burst.antt =====
-- The burst of frames that announces a switch.
use waybeam_wfb_ng.Base.{
  ℕ, suc, ◌+◌, ◌≤◌, ◌<◌, ◌≡◌, refl, ap, ◌∙◌, Bool, true, false, List, [], ◌∷◌, ◌++◌, length, leb,
  if◌then◌else◌, arith,
}
use waybeam_wfb_ng.Base.Word.{add64, inc32}
use waybeam_wfb_ng.Ground.Types.{Config, has_uplink}
use waybeam_wfb_ng.Ground.Frame.{commit_text}
use waybeam_wfb_ng.Ground.Fits.{length-commit_text}
use waybeam_wfb_ng.Ground.Hop.{
  csa_burst, csa_armed, CsaState, Send, announcement, csa_send_commit_frame, burst_due, count_frame,
  drive_burst, is_verify, switch_due, drive_switch, verify_due, drive_verify, csa_tick,
}

-- A sequence of calls: the state that they leave, and the frames that they send.
unfoldable pub run_ticks : Config → List (ℕ × Send) → CsaState → CsaState × List (List ℕ)
run_ticks c [] g = (g, [])
run_ticks c ((t_us, w) ∷ ts) g =
    let t = csa_tick c t_us w g in let (g', more) = run_ticks c ts t.state in (g', t.frames ++ more)

-- The state behind a frame of the burst.
abbrev pub sent_at : ℕ → CsaState → CsaState
sent_at t_us g = count_frame t_us (record g { seq_in_burst = inc32 g.seq_in_burst })

-- Calls that each find the next frame due and the socket ready, all before T_switch.
abbrev pub IsSteady : ℕ → ℕ → List (ℕ × Send) → Type 0
IsSteady next t_switch [] = Unit
IsSteady next t_switch ((t_us, w) ∷ ts) =
    (next ≤ t_us)
    × (t_us < t_switch)
    × (w.delivered ≡ true)
    × IsSteady (add64 t_us 20_000) t_switch ts

-- The frames that the calls send.
abbrev pub frames_of : List (ℕ × Send) → CsaState → List (List ℕ)
frames_of [] g = []
frames_of ((t_us, w) ∷ ts) g = commit_text (announcement g w.now_us) ∷ frames_of ts (sent_at t_us g)

not_leb : (a b : ℕ) → b < a → leb a b ≡ false
not_leb a b h = ground arith

last_phase :
    (t_us : ℕ) (g : CsaState)
    → g.frames_total ≤ suc g.frames_sent
    → (sent_at t_us g).phase ≡ csa_armed
unfolding count_frame
last_phase t_us g h = ground arith

next_phase :
    (t_us : ℕ) (g : CsaState)
    → suc g.frames_sent < g.frames_total
    → (sent_at t_us g).phase ≡ g.phase
unfolding count_frame
next_phase t_us g h = ground arith

module _ (c : Config) (up : has_uplink c.venc_cmd_uplink c.tunnels ≡ true) where
  send_frame :
      (w : Send) (g : CsaState)
      → w.delivered ≡ true
      → length (commit_text (announcement g w.now_us)) < 320
      → csa_send_commit_frame c w g ≡ record {
        state = record g { seq_in_burst = inc32 g.seq_in_burst };
        frames = commit_text (announcement g w.now_us) ∷ [];
        ok = true;
      }
  unfolding csa_send_commit_frame
  send_frame w g d h =
      rw (
        csa_send_commit_frame,
        up,
        d,
        not_leb 320 (length (commit_text (announcement g w.now_us))) h,
      )

  fits :
      (w : Send) (g : CsaState)
      → (length g.target_ht ≤ 7) × (length g.prev_ht ≤ 7)
      → length (commit_text (announcement g w.now_us)) < 320
  unfolding announcement
  fits w g h = length-commit_text (announcement g w.now_us) h.0 h.1

  module _ (t_us : ℕ) (w : Send) (g : CsaState) (bursting : g.phase ≡ csa_burst) where
    still_closed : (b : Bool) → is_verify (if b then csa_armed else g.phase) ≡ false
    still_closed true = refl
    still_closed false = rw bursting

    -- One call of the burst before T_switch sends one frame, and does nothing else.
    tick_sends :
        g.next_frame_us ≤ t_us
        → g.frames_sent < g.frames_total
        → t_us < g.t_switch_us
        → w.delivered ≡ true
        → length (commit_text (announcement g w.now_us)) < 320
        → csa_tick c t_us w g ≡ record {
          state = sent_at t_us g;
          frames = commit_text (announcement g w.now_us) ∷ [];
          hops = [];
        }
    unfolding csa_tick drive_burst burst_due drive_switch switch_due drive_verify verify_due
        count_frame
    tick_sends n l u d f =
        let due : burst_due t_us g ≡ true = ground arith in
        let shut : switch_due t_us (sent_at t_us g) ≡ false = ground arith in
        let closed : verify_due t_us (sent_at t_us g) ≡ false =
          rw (still_closed (leb g.frames_total (suc g.frames_sent))) in
        rw
          (csa_tick, drive_burst, due, send_frame w g d f, drive_switch, shut, drive_verify, closed)

  -- A session whose burst is under way, with an uplink tunnel in the configuration and bandwidths of
  -- at most seven bytes: if the following calls are as many as the frames that are left, each finds
  -- the next frame due and the socket ready, and all come before T_switch, then they send exactly
  -- those frames, in order, and the last one arms the switch.
  pub run_ticks-armed :
      (ts : List (ℕ × Send)) (g : CsaState)
      → g.phase ≡ csa_burst
      → 0 < length ts
      → g.frames_sent + length ts ≡ g.frames_total
      → (length g.target_ht ≤ 7) × (length g.prev_ht ≤ 7)
      → IsSteady g.next_frame_us g.t_switch_us ts
      → ((run_ticks c ts g).1 ≡ frames_of ts g) × ((run_ticks c ts g).0.phase ≡ csa_armed)
  unfolding run_ticks count_frame
  run_ticks-armed [] g b p n h steady = absurd (omega arith)
  run_ticks-armed ((t, w) ∷ []) g b p n h (due, early, d, z) =
      rw (tick_sends t w g b due (omega arith) early d (fits w g h), run_ticks)
        (refl, last_phase t g (omega arith))
  run_ticks-armed ((t, w) ∷ x ∷ ts) g b p n h (due, early, d, z) =
      let more =
        run_ticks-armed (x ∷ ts) (sent_at t g) (next_phase t g (omega arith) ∙ b) (omega arith)
          (omega arith) h z in
      rw (tick_sends t w g b due (omega arith) early d (fits w g h), run_ticks)
        (ap (λ fs. commit_text (announcement g w.now_us) ∷ fs) more.0, more.1)
