-- ===== src/Csa/Tests.antt =====
-- The receiver run on a frame, and its theorems at inputs that meet their hypotheses.
use waybeam_wfb_ng.Base.{ℕ, ◌≡◌, refl, Bool, false, some, none, List, [], ◌∷◌, ◌++◌, arith}
use waybeam_wfb_ng.Base.Int.{ℤ, pos, negsuc, ◌+ℤ◌, ◌-ℤ◌}
use waybeam_wfb_ng.Base.Text.{codes}
use waybeam_wfb_ng.Csa.Json.{get_str, get_int}
use waybeam_wfb_ng.Csa.Machine.{
  idle, armed, verify, CsaCfg, CsaState, csa_init, parse_commit, csa_feed, on_parsed, and_then,
  feed_type, on_commit, on_frame, target_ok, chan_ok, has_chan, bw_ok, to_int32, cooling, arm,
}
use waybeam_wfb_ng.Csa.Run.{datagram, heartbeat, tick, run}
use waybeam_wfb_ng.Csa.Vetted.{AllSafe, run-AllSafe}
use waybeam_wfb_ng.Csa.Switch.{unconfirmed_switch_reverts, confirmed_switch_stays}
use waybeam_wfb_ng.Csa.Steady.{NotNewer, NoneNewer, AllOld, armed_schedule_fixed}

abbrev frame : List ℕ
frame =
    codes
      "{\"type\":\"csa_commit\",\"sess\":7,\"seq\":2,\"dt_to_switch_ms\": 400,\"target_chan\":157,"
    ++ codes "\"target_ht\":\"HT40+\",\"prev_chan\":149,\"t_revert_ms\":-5}"

abbrev cfg : CsaCfg
cfg = record {
  allow_chan = pos 149 ∷ pos 157 ∷ [];
  allow_bw = [];
  cooldown_ms = pos 10_000;
  no_revert = false;
}

frame_fields :
    (get_int frame (codes "sess") ≡ some (pos 7))
    × (get_int frame (codes "t_revert_ms") ≡ some (negsuc 4))
    × (get_int frame (codes "prev_ht") ≡ none)
    × (get_str frame (codes "target_ht") 8 ≡ some (codes "HT40+"))
unfolding get_int get_str
frame_fields = (refl, refl, refl, refl)

-- `csa_feed` with all that it calls open.
feed : ℤ → CsaState → CsaState × Bool
unfolding csa_feed feed_type on_commit on_frame parse_commit on_parsed target_ok chan_ok has_chan
    bw_ok to_int32 cooling arm get_int get_str ◌+ℤ◌ ◌-ℤ◌ csa_init
feed now s = csa_feed cfg frame now s

frame_arms : (feed (pos 1_000) csa_init).0.st ≡ armed
unfolding feed
frame_arms = refl

run-AllSafe_example :
    AllSafe cfg
      (run cfg
        ((pos 1_000, datagram frame) ∷ (pos 1_400, tick) ∷ (pos 1_500, heartbeat) ∷ [])
        csa_init).1
run-AllSafe_example =
    run-AllSafe cfg ((pos 1_000, datagram frame) ∷ (pos 1_400, tick) ∷ (pos 1_500, heartbeat) ∷ [])

abbrev waiting : CsaState
waiting = record {
  st = armed;
  sess = pos 7;
  t_switch_ms = pos 1_400;
  t_revert_ms = pos 3_000;
  target_chan = pos 157;
  prev_chan = pos 149;
  target_ht = codes "HT40+";
  prev_ht = codes "HT20";
  last_switch_ms = negsuc 0;
}

unconfirmed_switch_reverts_example :
    run cfg ((pos 1_410, tick) ∷ (pos 2_000, tick) ∷ (pos 4_500, tick) ∷ []) waiting ≡ (
      record waiting { st = idle; t_revert_ms = pos 4_410; last_switch_ms = pos 4_500 },
      (armed, record { chan = pos 157; ht = codes "HT40+" })
          ∷ (verify, record { chan = pos 149; ht = codes "HT20" })
          ∷ [],
    )
unfolding ◌+ℤ◌
unconfirmed_switch_reverts_example =
    unconfirmed_switch_reverts cfg waiting (pos 1_410) (pos 4_500) (pos 2_000 ∷ []) refl refl
      (omega arith) (omega arith) (omega arith)

confirmed_switch_stays_example :
    run cfg ((pos 1_410, tick) ∷ (pos 2_000, heartbeat) ∷ (pos 9_000, tick) ∷ []) waiting ≡ (
      record waiting { st = idle; t_revert_ms = pos 4_410; last_switch_ms = pos 1_410 },
      (armed, record { chan = pos 157; ht = codes "HT40+" }) ∷ [],
    )
unfolding ◌+ℤ◌
confirmed_switch_stays_example =
    confirmed_switch_stays cfg waiting (pos 1_410) (pos 2_000) [] (pos 9_000 ∷ []) refl refl
      (omega arith) tt

-- Idle since a hop at 1 410 ms.
abbrev switched : CsaState
switched = record waiting { st = idle; last_switch_ms = pos 1_410 }

-- The same session again, with another delay and another channel.
abbrev refresh : List ℕ
refresh =
    codes
      "{\"type\":\"csa_commit\",\"sess\":7,\"dt_to_switch_ms\":5,\"target_chan\":149,\"target_ht\":\"HT20\"}"

refresh_target : and_then (parse_commit refresh) (λ c. some c.target_chan) ≡ some (pos 149)
unfolding parse_commit get_int get_str
refresh_target = refl

refresh-NotNewer : NotNewer (pos 7) (parse_commit refresh)
unfolding NotNewer parse_commit get_int get_str
refresh-NotNewer = omega arith

armed_schedule_fixed_example :
    (run cfg ((pos 1_100, datagram refresh) ∷ (pos 1_200, tick) ∷ (pos 1_410, tick) ∷ []) waiting).1
    ≡ (armed, record { chan = pos 157; ht = codes "HT40+" }) ∷ []
unfolding AllOld NoneNewer
armed_schedule_fixed_example =
    armed_schedule_fixed cfg ((pos 1_100, datagram refresh) ∷ (pos 1_200, tick) ∷ []) (pos 1_410)
      waiting refl ((omega arith, refresh-NotNewer, (omega arith, tt, tt))) (omega arith)
