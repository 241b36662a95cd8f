-- ===== src/Wcmd/Types.antt =====
-- The types of the command channel: shared/wcmd_proto.h, and WcmdState and the `cmd` part of the
-- configuration in vehicle/link_controller.c.
use waybeam_wfb_ng.Base.{ℕ, ◌-◌, ◌/◌, ◌%◌, ◌^◌, Bool, Option, ◌==◌, if◌then◌else◌}
use waybeam_wfb_ng.Base.Int.{ℤ}
use waybeam_wfb_ng.Radio.Types.{RadioBody}

-- A request, in host byte order.
pub record WcmdReq : Type 0 where
  pub key : ℕ
  pub seq : ℕ
  pub value : ℤ

pub data WcmdStatus : Type 0 where
  ok disabled unknown_key key_blocked out_of_range rate_limited http_error not_permitted :
      WcmdStatus

-- The response but for its header and the echoed key and sequence number.
pub record WcmdResp : Type 0 where
  pub status : WcmdStatus
  pub http_status : ℕ
  pub applied_value : ℤ

abbrev pub wcmd_num_keys : ℕ
wcmd_num_keys = 20

abbrev pub key_recovery_apfpv : ℕ
key_recovery_apfpv = 64

-- A range of values; the configuration's minima and maxima.
pub record Window : Type 0 where
  pub lo : ℤ
  pub hi : ℤ

-- What the dispatcher reads of the configuration. `has_iface` and `has_apfpv_cmd` say that the
-- strings are not empty.
pub record CmdConfig : Type 0 where
  pub enabled : Bool
  pub loopback_only : Bool
  pub allow_keys_mask : ℕ
  pub rate_limit_ms : ℕ
  pub bitrate : Window
  pub fps : Window
  pub payload : Window
  pub wfb_fec_k : Window
  pub wfb_fec_n : Window
  pub wfb_mcs : Window
  pub wfb_bandwidth : Window
  pub wfb_txpower : Window
  pub fec_bitrate : Window
  pub tx_pwr_by_rate : Bool
  pub has_iface : Bool
  pub recovery_enabled : Bool
  pub has_apfpv_cmd : Bool
  pub dry_run : Bool

-- The path of a request to the encoder.
pub data VencPath : Type 0 where
  set_bitrate : ℤ → VencPath
  set_fps : ℤ → VencPath
  set_payload : ℤ → VencPath
  request_idr : VencPath
  record_start record_stop : VencPath

-- What a dispatch does outside its own state.
pub data Action : Type 0 where
  roll_log stop_log run_hook : Action
  set_peek : ℤ → Action
  set_txpower : ℤ → Action
  set_fec : ℤ → ℤ → Action
  set_radio : RadioBody → Action
  venc_get : VencPath → Action

-- The answers of the kernel, wfb_tx, the encoder and the recovery hook; a result code 0 is success.
pub record World : Type 0 where
  pub hook_rc : ℤ
  pub peek_rc : ℤ → ℤ
  pub txpower_rc : ℤ → ℤ
  pub fec_now : Option (ℤ × ℤ)
  pub fec_rc : ℤ → ℤ → ℤ
  pub radio_now : Option RadioBody
  pub radio_rc : RadioBody → ℤ
  pub venc_ok : VencPath → Bool
  pub venc_status : VencPath → ℤ

pub record Counters : Type 0 where
  pub recv_total : ℕ
  pub accepted : ℕ
  pub rejected_disabled : ℕ
  pub rejected_unknown : ℕ
  pub rejected_blocked : ℕ
  pub rejected_range : ℕ
  pub rejected_rate : ℕ
  pub rejected_peer : ℕ
  pub coalesced_burst : ℕ
  pub http_errors : ℕ

-- `g_logsync` but for the uptime of its receipt.
pub record LogSync : Type 0 where
  pub valid : Bool
  pub seq : ℕ
  pub gs_unix_s : ℤ
  pub count : ℕ

-- `WcmdState`, with the marker and the two switches that the dispatcher sets; the arrays indexed by
-- key are functions.
pub record WcmdState : Type 0 where
  pub counters : Counters
  pub last_apply_us : ℕ → ℕ
  pub last_seq : ℕ → ℕ
  pub last_seq_us : ℕ → ℕ
  pub last_recv_us : ℕ
  pub last_status : WcmdStatus
  pub last_key : ℕ
  pub last_value : ℤ
  pub last_http_status : ℤ
  pub radio_written : Option RadioBody
  pub logsync : LogSync
  pub fec_enabled : Bool
  pub mcs_enabled : Bool

-- `table[key] = v`
unfoldable pub put : ℕ → ℕ → (ℕ → ℕ) → ℕ → ℕ
put key v table k = if k == key then v else table k

-- The bit `key - 1` of the mask.
unfoldable pub allows : CmdConfig → ℕ → Bool
allows cfg key = cfg.allow_keys_mask / 2 ^ (key - 1) % 2 == 1
