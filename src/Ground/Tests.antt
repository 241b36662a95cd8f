-- ===== src/Ground/Tests.antt =====
-- The ground station run on concrete inputs, and its theorems at inputs that meet their hypotheses.
use waybeam_wfb_ng.Base.{◌++◌, ℕ, ◌≡◌, refl, true, false, none, some, List, [], ◌∷◌, arith}
use waybeam_wfb_ng.Base.Int.{pos, negsuc, ◌+ℤ◌}
use waybeam_wfb_ng.Base.Word.{add64, inc32}
use waybeam_wfb_ng.Base.Text.{codes}
use waybeam_wfb_ng.Csa.Machine.{
  csa_init, armed, to_int32, parse_commit, csa_feed, chan_ok, has_chan, bw_ok, cooling,
}
use waybeam_wfb_ng.Ground.Types.{has_uplink}
use waybeam_wfb_ng.Ground.Query.{qs_get, qs_get_int}
use waybeam_wfb_ng.Ground.Frame.{IsPlain, commit_text}
use waybeam_wfb_ng.Csa.Json.{strtoll}
use waybeam_wfb_ng.Ground.Samples.{
  config_of, frame, session, at_rest, send_at, hop_request, vehicle_cfg,
}
use waybeam_wfb_ng.Csa.Machine.{has_bw}
use waybeam_wfb_ng.Ground.Hop.{
  csa_armed, announcement, hop_all, csa_tick, csa_pick_rx_tunnel_idx, pkt_all,
}
use waybeam_wfb_ng.Ground.Start.{start, all_known, in_tunnels, post_csa}
use waybeam_wfb_ng.Ground.Granted.{IsGranted, Posted, post_csa-Posted}
use waybeam_wfb_ng.Ground.Burst.{run_ticks, sent_at, run_ticks-armed}
use waybeam_wfb_ng.Ground.Schedule.{Hopped, plan, csa_tick-Hopped}
use waybeam_wfb_ng.Ground.Verify.{armed_of, run_calls, AllEarly, reverts_on_equal_samples}
use waybeam_wfb_ng.Ground.Meet.{csa_feed-granted}
use waybeam_wfb_ng.Ground.Roundtrip.{parse_commit-commit_text}

frame-IsPlain : IsPlain frame
frame-IsPlain = record {
  sess_fits = omega arith;
  target_fits = omega arith;
  dt_fits = omega arith;
  revert_fits = omega arith;
  prev_fits = omega arith;
  target_short = omega arith;
  prev_short = omega arith;
  target_no_quote = ground arith;
  target_no_d = ground arith;
  target_no_t = ground arith;
  target_no_p = ground arith;
  prev_no_quote = ground arith;
}

parse_commit-commit_text_example :
    parse_commit (commit_text frame)
    ≡ some (record {
      sess = pos 7;
      dt = pos 460;
      t_revert = pos 3_000;
      target_chan = pos 157;
      prev_chan = negsuc 0;
      target_ht = codes "HT40+";
      prev_ht = codes "HT20";
    })
parse_commit-commit_text_example = parse_commit-commit_text frame frame-IsPlain

query_values :
    (qs_get_int (codes "chan=157&ht=HT40%2B&lead_ms=9x") (codes "chan") ≡ some (pos 157))
    × (qs_get (codes "chan=157&ht=HT40%2B") (codes "ht") ≡ some (codes "HT40%2B"))
    × (qs_get_int (codes "chan=157&ht=HT40%2B&lead_ms=9x") (codes "lead_ms") ≡ none)
unfolding qs_get_int qs_get strtoll to_int32
query_values = (refl, refl, refl)

hop_request-IsGranted : IsGranted (config_of 0) hop_request
unfolding has_bw all_known in_tunnels has_uplink
hop_request-IsGranted = record {
  from_1 = omega arith;
  to_200 = omega arith;
  ht_named = refl;
  few = (omega arith, omega arith);
  known = refl;
  uplink = refl;
  lead = (omega arith, omega arith);
  verify = (omega arith, omega arith);
  prev_fits = omega arith;
  prev_short = omega arith;
}

csa_feed-granted_example :
    csa_feed vehicle_cfg
      (commit_text (announcement (start hop_request 1_000_000 at_rest) 1_020_500))
      (pos 90_000)
      csa_init
    ≡ (
      record csa_init {
        st = armed;
        sess = pos (inc32 7);
        t_switch_ms = pos 90_000 +ℤ pos 479;
        t_revert_ms = pos 3_000;
        target_chan = pos 157;
        prev_chan = pos 149;
        target_ht = codes "HT40+";
        prev_ht = codes "HT20";
      },
      true,
    )
unfolding cooling csa_init chan_ok has_chan bw_ok
csa_feed-granted_example =
    csa_feed-granted (config_of 0) hop_request hop_request-IsGranted 1_020_500 1_000_000 at_rest
      vehicle_cfg (pos 90_000) csa_init (ground arith) refl refl refl refl (omega arith)
      (omega arith) (omega arith)

abbrev hop_query : List ℕ
hop_query = codes "chan=157&iface=wlan0&ht=HT40%2B"

post_csa-Posted_example :
    Posted
      (config_of 0)
      1_000_000
      at_rest
      (post_csa (config_of 0) false hop_query 1_000_000 at_rest)
post_csa-Posted_example = post_csa-Posted (config_of 0) 1_000_000 at_rest false hop_query

run_ticks-armed_example :
    ((run_ticks
        (config_of 0)
        ((1_080_000, send_at 1_080_100) ∷ (1_101_000, send_at 1_101_200) ∷ [])
        session).1
      ≡ commit_text (announcement session 1_080_100)
        ∷ commit_text (announcement (sent_at 1_080_000 session) 1_101_200)
        ∷ [])
    × ((run_ticks
          (config_of 0)
          ((1_080_000, send_at 1_080_100) ∷ (1_101_000, send_at 1_101_200) ∷ [])
          session).0.phase
        ≡ csa_armed)
unfolding has_uplink add64
run_ticks-armed_example =
    run_ticks-armed (config_of 0) refl
      ((1_080_000, send_at 1_080_100) ∷ (1_101_000, send_at 1_101_200) ∷ []) session refl
      (omega arith) refl (omega arith, omega arith)
      (omega arith, omega arith, refl, (omega arith, omega arith, refl, tt))

csa_tick-Hopped_example :
    Hopped 5_000_000
      (plan session)
      (csa_tick (config_of 0) 5_000_000 (send_at 5_000_000) session).hops
csa_tick-Hopped_example = csa_tick-Hopped (config_of 0) 5_000_000 (send_at 5_000_000) session

-- 120 packets in the interval before the hop, none in the last one: the ground station stays.
reverts_on_equal_samples_example :
    (run_calls
      ((config_of 120, 1_500_000, send_at 1_500_000)
        ∷ (config_of 7, 2_500_000, send_at 2_500_000)
        ∷ (config_of 0, 4_500_000, send_at 4_500_000)
        ∷ [])
      (armed_of session)).1
    ≡ hop_all session.target_chan session.target_ht session.ifaces ++ []
unfolding csa_pick_rx_tunnel_idx pkt_all AllEarly
reverts_on_equal_samples_example =
    reverts_on_equal_samples (config_of 120) (config_of 0) 1_500_000 4_500_000 (send_at 1_500_000)
      (send_at 4_500_000) session 1 ((config_of 7, 2_500_000, send_at 2_500_000) ∷ []) (omega arith)
      (omega arith) (omega arith, tt) (omega arith) refl
