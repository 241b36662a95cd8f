-- ===== src/Wcmd/Tests.antt =====
-- The command channel run on concrete requests, and its theorems at inputs that meet their
-- hypotheses.
use waybeam_wfb_ng.Base.{ℕ, ◌≡◌, ◌⊎◌, refl, true, false, some, none, [], ◌∷◌, arith}
use waybeam_wfb_ng.Base.Int.{pos}
use waybeam_wfb_ng.Base.Word.{sub64, inc64}
use waybeam_wfb_ng.Radio.Types.{RadioBody, to_u8}
use waybeam_wfb_ng.Wcmd.Types.{WcmdReq, ok, CmdConfig, set_fec, World, WcmdState, put, allows}
use waybeam_wfb_ng.Wcmd.Clamp.{
  window, bitrate_window, clamp_window, clamp_to, wcmd_clamp_value, wcmd_build_path,
}
use waybeam_wfb_ng.Wcmd.Apply.{
  Dispatched, rc_status, to_u16, reply, count_range, count_http, count_accepted, wcmd_mark_applied,
  accept, fail, apply_switch, apply_peek, apply_txpower, apply_fec, with_field, apply_radio,
  apply_wfb, apply_venc, apply_key,
}
use waybeam_wfb_ng.Wcmd.Dispatch.{
  receive, is_copy, count_disabled, count_coalesced, on_copy, on_log_sync, on_log_control,
  on_return_apfpv, rate_limited_now, on_clamped, on_allowed, on_key, on_received, wcmd_dispatch,
}
use waybeam_wfb_ng.Wcmd.Recovery.{
  RecoveryConfig, RecoveryState, ms_or, arm_count, recovery_dispatch,
}
use waybeam_wfb_ng.Wcmd.Gates.{IsIdle, closed_gate-IsIdle}
use waybeam_wfb_ng.Wcmd.Armed.{fires, channels_disjoint}
use waybeam_wfb_ng.Wcmd.Armable.{full_burst-fires}

-- Every key is allowed but key 1.
abbrev config : CmdConfig
config = record {
  enabled = true;
  loopback_only = false;
  allow_keys_mask = 1_048_574;
  rate_limit_ms = 100;
  bitrate = window (pos 1000) (pos 50_000);
  fps = window (pos 15) (pos 120);
  payload = window (pos 576) (pos 4000);
  wfb_fec_k = window (pos 1) (pos 48);
  wfb_fec_n = window (pos 2) (pos 72);
  wfb_mcs = window (pos 0) (pos 7);
  wfb_bandwidth = window (pos 20) (pos 40);
  wfb_txpower = window (pos 100) (pos 2500);
  fec_bitrate = window (pos 0) (pos 0);
  tx_pwr_by_rate = false;
  has_iface = true;
  recovery_enabled = true;
  has_apfpv_cmd = true;
  dry_run = false;
}

abbrev body : RadioBody
body = record {
  stbc = 0;
  ldpc = 0;
  short_gi = 0;
  bandwidth = 20;
  mcs_index = 5;
  vht_mode = 0;
  vht_nss = 0;
}

-- Everything answers with success.
abbrev world : World
world = record {
  hook_rc = pos 0;
  peek_rc = λ _. pos 0;
  txpower_rc = λ _. pos 0;
  fec_now = some (pos 8, pos 12);
  fec_rc = λ _ _. pos 0;
  radio_now = some body;
  radio_rc = λ _. pos 0;
  venc_ok = λ _. true;
  venc_status = λ _. pos 200;
}

abbrev fresh : WcmdState
fresh = record {
  counters = record {
    recv_total = 0;
    accepted = 0;
    rejected_disabled = 0;
    rejected_unknown = 0;
    rejected_blocked = 0;
    rejected_range = 0;
    rejected_rate = 0;
    rejected_peer = 0;
    coalesced_burst = 0;
    http_errors = 0;
  };
  last_apply_us = λ _. 0;
  last_seq = λ _. 0;
  last_seq_us = λ _. 0;
  last_recv_us = 0;
  last_status = ok;
  last_key = 0;
  last_value = pos 0;
  last_http_status = pos 0;
  radio_written = none;
  logsync = record { valid = false; seq = 0; gs_unix_s = pos 0; count = 0 };
  fec_enabled = true;
  mcs_enabled = true;
}

-- 200 frames per second, which the clamp lowers to 120; applied at second 4, as number 9.
abbrev fps_request : WcmdReq
fps_request = record { key = 2; seq = 9; value = pos 200 }

abbrev applied : WcmdState
applied = record fresh {
  last_apply_us = λ _. 4_000_000;
  last_seq = λ _. 9;
  last_seq_us = λ _. 4_000_000;
}

-- `wcmd_dispatch` with all that it calls open.
dispatch : WcmdReq → ℕ → WcmdState → Dispatched
unfolding wcmd_dispatch on_received on_key on_allowed on_clamped rate_limited_now on_return_apfpv
    on_log_control on_log_sync on_copy is_copy receive count_disabled count_coalesced apply_key
    apply_venc apply_wfb apply_radio with_field apply_fec apply_txpower apply_peek apply_switch
    accept fail wcmd_mark_applied count_accepted count_http count_range reply rc_status to_u16
    wcmd_build_path wcmd_clamp_value clamp_to clamp_window bitrate_window put allows sub64 inc64
    to_u8
dispatch req now s = wcmd_dispatch config world true req now s

fps_clamped : (dispatch fps_request 4_000_000 fresh).resp.applied_value ≡ pos 120
unfolding dispatch
fps_clamped = refl

k_above_n_refused :
    (dispatch (record { key = 5; seq = 1; value = pos 20 }) 4_000_000 fresh).actions ≡ []
unfolding dispatch
k_above_n_refused = refl

k_sent :
    (dispatch (record { key = 5; seq = 1; value = pos 10 }) 4_000_000 fresh).actions
    ≡ set_fec (pos 10) (pos 12) ∷ []
unfolding dispatch
k_sent = refl

-- Key 1 is the one that the mask blocks.
closed_gate-IsIdle_example : IsIdle fresh (
    wcmd_dispatch config world true (record { key = 1; seq = 9; value = pos 8000 }) 4_000_000 fresh)
unfolding allows
closed_gate-IsIdle_example =
    closed_gate-IsIdle config world true (record { key = 1; seq = 9; value = pos 8000 }) 4_000_000
      fresh refl

abbrev recovery : RecoveryConfig
recovery = record {
  enabled = true;
  cooldown_ms = pos 10_000;
  arm_window_ms = pos 2000;
  arm_count = pos 3;
  dry_run = false;
}

abbrev quiet : RecoveryState
quiet = record {
  recv_total = 0;
  rejected = 0;
  armed = 0;
  executed = 0;
  last_recv_us = 0;
  last_exec_us = 0;
  last_exec_rc = pos 0;
  arm_seq = 0;
  arm_hits = 0;
  arm_first_us = 0;
}

abbrev recover : WcmdReq
recover = record { key = 64; seq = 3; value = pos 0 }

abbrev fired_once : RecoveryState
fired_once = record quiet { last_exec_us = 1_000_000 }

channels_disjoint_example :
    IsIdle fresh (wcmd_dispatch config world true recover 4_000_000 fresh)
    ⊎ ((recovery_dispatch recovery (pos 0) recover 4_000_000 quiet).fired ≡ false)
channels_disjoint_example =
    channels_disjoint recovery (pos 0) config world true recover 4_000_000 fresh quiet

full_burst-fires_example :
    fires recovery
      (pos 0)
      ((1_000_000, recover) ∷ (1_050_000, recover) ∷ (1_100_000, recover) ∷ [])
      quiet
    ≡ 1
unfolding arm_count ms_or
full_burst-fires_example =
    full_burst-fires recovery (pos 0) 3 1_000_000 (1_050_000 ∷ 1_100_000 ∷ []) quiet refl refl refl
      (omega arith, omega arith, omega arith, (omega arith, omega arith, omega arith, tt)) refl
