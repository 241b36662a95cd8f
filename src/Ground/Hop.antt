-- ===== src/Ground/Hop.antt =====
-- ground/gs_supervisor_csa.c: the announcement of a channel switch and the ground station's own hop.
-- Times are uint64_t microseconds. Logging and the refresh of the interface cache are left out.
use waybeam_wfb_ng.Base.{
  ℕ, suc, ◌-◌, ◌/◌, Bool, true, false, not, ◌&&◌, ◌||◌, Option, none, some, List, [], ◌∷◌, ◌++◌,
  map, length, get_elem?, ltb, leb, ◌==◌, if◌then◌else◌,
}
use waybeam_wfb_ng.Base.Int.{ℤ, pos}
use waybeam_wfb_ng.Base.Word.{sub64, add64, inc32}
use waybeam_wfb_ng.Base.Text.{codes}
use waybeam_wfb_ng.Csa.Machine.{to_int32}
use waybeam_wfb_ng.Ground.Types.{Tunnel, Config, is_role, has_uplink}
use waybeam_wfb_ng.Ground.Frame.{Announcement, commit_text}

pub data CsaPhase : Type 0 where
  csa_idle csa_burst csa_armed csa_verify : CsaPhase

-- `g_csa`, with `g_csa_seq_in_burst`. `none` stands for a `baseline_rx_idx` of -1.
pub record CsaState : Type 0 where
  pub phase : CsaPhase
  pub sess : ℕ
  pub t_switch_us : ℕ
  pub t_revert_us : ℕ
  pub next_frame_us : ℕ
  pub frames_sent : ℕ
  pub frames_total : ℕ
  pub target_chan : ℤ
  pub target_ht : List ℕ
  pub prev_chan : ℤ
  pub prev_ht : List ℕ
  pub ifaces : List (List ℕ)
  pub baseline_pkt_us : ℕ
  pub baseline_pkt_all : ℕ
  pub baseline_rx_idx : Option ℕ
  pub no_revert : Bool
  pub seq_in_burst : ℕ

-- `run_iw_set_channel(iface, chan, ht)`
pub record IwHop : Type 0 where
  pub iface : List ℕ
  pub chan : ℤ
  pub ht : List ℕ

abbrev pub is_idle : CsaPhase → Bool
is_idle csa_idle = true
is_idle _ = false

abbrev pub is_burst : CsaPhase → Bool
is_burst csa_burst = true
is_burst _ = false

abbrev pub is_armed : CsaPhase → Bool
is_armed csa_armed = true
is_armed _ = false

abbrev pub is_verify : CsaPhase → Bool
is_verify csa_verify = true
is_verify _ = false

-- What a call sees of the outside: the clock where it reads it again, and whether the socket takes
-- the whole datagram.
pub record Send : Type 0 where
  pub now_us : ℕ
  pub delivered : Bool

-- The fields of the frame that leaves at `now`.
unfoldable pub announcement : CsaState → ℕ → Announcement
announcement g now = record {
  sess = g.sess;
  seq = g.seq_in_burst;
  target_chan = g.target_chan;
  target_ht = g.target_ht;
  dt_ms = if ltb now g.t_switch_us then to_int32 (pos ((g.t_switch_us - now) / 1000)) else pos 0;
  t_revert_ms = to_int32 (pos (sub64 g.t_revert_us g.t_switch_us / 1000));
  prev_chan = g.prev_chan;
  prev_ht = g.prev_ht;
}

-- The state behind a call, the frames that left, and whether the result is 0.
pub record Sent : Type 0 where
  pub state : CsaState
  pub frames : List (List ℕ)
  pub ok : Bool

-- A frame that does not fit the buffer of 320 bytes is counted, and not sent.
unfoldable pub csa_send_commit_frame : Config → Send → CsaState → Sent
csa_send_commit_frame c w g =
    let text = commit_text (announcement g w.now_us) in
    let counted = record g { seq_in_burst = inc32 g.seq_in_burst } in
    if not (has_uplink c.venc_cmd_uplink c.tunnels)
    then record { state = g; frames = []; ok = false }
    else if leb 320 (length text)
    then record { state = counted; frames = []; ok = false }
    else record {
      state = counted;
      frames = if w.delivered then text ∷ [] else [];
      ok = w.delivered;
    }

-- The loop of `csa_pick_rx_tunnel_idx`, from index `i`.
unfoldable pub pick_rx_from : ℕ → List Tunnel → Option ℕ
pick_rx_from i [] = none
pick_rx_from i (t ∷ ts) = if is_role (codes "rx") t then some i else pick_rx_from (suc i) ts

unfoldable pub csa_pick_rx_tunnel_idx : Config → Option ℕ
unfolding pick_rx_from
csa_pick_rx_tunnel_idx c = pick_rx_from 0 c.tunnels

-- `st_pkt_all` of a tunnel; 0 for no tunnel.
unfoldable pub pkt_all : Config → Option ℕ → ℕ
pkt_all c none = 0
pkt_all c (some i) = elim (get_elem? c.tunnels i) [ none ↦ 0 | some t ↦ t.st_pkt_all ]

abbrev pub is_some : Option ℕ → Bool
is_some none = false
is_some (some i) = true

-- The first `if` of `csa_tick`.
unfoldable pub burst_due : ℕ → CsaState → Bool
burst_due t_us g = is_burst g.phase && leb g.next_frame_us t_us && ltb g.frames_sent g.frames_total

unfoldable pub count_frame : ℕ → CsaState → CsaState
count_frame t_us g = record g {
  frames_sent = suc g.frames_sent;
  next_frame_us = add64 t_us 20_000;
  phase = if leb g.frames_total (suc g.frames_sent) then csa_armed else g.phase;
}

unfoldable pub drive_burst : Config → ℕ → Send → CsaState → CsaState × List (List ℕ)
drive_burst c t_us w g =
    let sent = csa_send_commit_frame c w g in
    if burst_due t_us g
    then (if sent.ok
        then (count_frame t_us sent.state, sent.frames)
        else (record sent.state { phase = csa_idle }, sent.frames))
    else (g, [])

-- `iw` for each interface of the switch.
unfoldable pub hop_all : ℤ → List ℕ → List (List ℕ) → List IwHop
hop_all chan ht ifaces = map (λ i. record { iface = i; chan = chan; ht = ht }) ifaces

-- The second `if`: the hop at T_switch.
unfoldable pub switch_due : ℕ → CsaState → Bool
switch_due t_us g = is_armed g.phase && leb g.t_switch_us t_us

unfoldable pub enter_verify : Config → ℕ → CsaState → CsaState
unfolding csa_pick_rx_tunnel_idx pkt_all
enter_verify c t_us g = record g {
  baseline_rx_idx = csa_pick_rx_tunnel_idx c;
  baseline_pkt_all = pkt_all c (csa_pick_rx_tunnel_idx c);
  baseline_pkt_us = t_us;
  phase = csa_verify;
}

unfoldable pub drive_switch : Config → ℕ → CsaState → CsaState × List IwHop
unfolding switch_due enter_verify hop_all
drive_switch c t_us g =
    if switch_due t_us g
    then (enter_verify c t_us g, hop_all g.target_chan g.target_ht g.ifaces)
    else (g, [])

-- The third `if`: the end of the verification.
unfoldable pub verify_due : ℕ → CsaState → Bool
verify_due t_us g = is_verify g.phase && leb g.t_revert_us t_us

unfoldable pub rx_alive : Config → CsaState → Bool
unfolding pkt_all
rx_alive c g = is_some g.baseline_rx_idx && not (pkt_all c g.baseline_rx_idx == g.baseline_pkt_all)

unfoldable pub drive_verify : Config → ℕ → CsaState → CsaState × List IwHop
unfolding verify_due rx_alive hop_all
drive_verify c t_us g =
    let back = if rx_alive c g || g.no_revert then [] else hop_all g.prev_chan g.prev_ht g.ifaces in
    if verify_due t_us g then (record g { phase = csa_idle }, back) else (g, [])

-- What a call of `csa_tick` leaves: the state, the frames that it sent and the hops that it made.
pub record Ticked : Type 0 where
  pub state : CsaState
  pub frames : List (List ℕ)
  pub hops : List IwHop

unfoldable pub csa_tick : Config → ℕ → Send → CsaState → Ticked
unfolding drive_burst drive_switch drive_verify
csa_tick c t_us w g =
    let burst = drive_burst c t_us w g in
    let switch = drive_switch c t_us burst.0 in
    let verify = drive_verify c t_us switch.0 in
    record { state = verify.0; frames = burst.1; hops = switch.1 ++ verify.1 }
