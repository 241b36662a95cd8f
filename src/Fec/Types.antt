-- ===== src/Fec/Types.antt =====
-- The types of the FEC subsystem of vehicle/link_controller.c.
use waybeam_wfb_ng.Base.{ℕ, Bool, List}
use waybeam_wfb_ng.Base.Int.{ℤ}
use waybeam_wfb_ng.Base.Floating.{Floating}

-- The fields of `cfg->fec` that the FEC controller, the bitrate and the payload sizing read.
pub record FecConfig (fp : Floating) : Type 0 where
  pub mtu : ℤ
  pub min_k : ℤ
  pub max_k : ℤ
  pub min_n : ℤ
  pub max_n : ℤ
  pub ewma_alpha : fp.Float
  pub headroom_min : fp.Float
  pub headroom_max : fp.Float
  pub headroom_margin : fp.Float
  pub headroom_window_s : fp.Float
  pub ppf_deadband_frac : fp.Float
  pub k_hyst_up : ℤ
  pub cooldown_up_s : fp.Float
  pub k_down_dwell_s : fp.Float
  pub k_up_dwell_s : fp.Float
  pub startup_grace_s : fp.Float
  pub safety_margin : fp.Float
  pub bitrate_min_kbps : ℤ
  pub bitrate_max_kbps : ℤ
  pub bitrate_tolerance : fp.Float
  pub bitrate_grace_s : fp.Float
  pub mcs_settle_s : fp.Float
  pub bitrate_lead_s : fp.Float
  pub mcs_up_grace_s : fp.Float
  pub enabled : Bool
  pub payload_max : ℤ
  pub payload_min : ℤ
  pub airtime_max_pct : ℤ
  pub airtime_preamble_us : ℤ
  pub blocksize_feedforward : Bool
  pub ff_cooldown_s : fp.Float

-- `HeadroomRing`: the times and the sizes of the latest frames.
pub record HeadroomRing : Type 0 where
  pub ts_us : List ℕ
  pub size : List ℕ
  pub head : ℕ
  pub count : ℕ

abbrev pub ring_max : ℕ
ring_max = 512

pub record FecParams (fp : Floating) : Type 0 where
  pub k : ℤ
  pub n : ℤ
  pub redundancy : fp.Float
  pub packets_per_frame : ℤ
  pub avg_frame_size : fp.Float
  pub headroom : fp.Float

pub record Controller (fp : Floating) : Type 0 where
  pub avg_frame_size : fp.Float
  pub current : FecParams fp
  pub have_current : Bool
  pub last_update_us : ℕ
  pub start_us : ℕ
  pub update_count : ℕ
  pub bitrate_grace_until_us : ℕ
  pub was_in_grace : Bool
  pub k_down_pending_since_us : ℕ
  pub k_down_pending_target : ℤ
  pub k_up_pending_since_us : ℕ
  pub k_up_pending_target : ℤ
  pub bitrate_up_lock_until_us : ℕ
  pub ff_last_commit_us : ℕ
  pub last_committed_kbps : ℤ
