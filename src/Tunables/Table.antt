-- ===== src/Tunables/Table.antt =====
-- The table of tunables of vehicle/link_controller.c, without help texts and public bits.
use waybeam_wfb_ng.Base.{ℕ, Bool, true, false, List, [], ◌∷◌, ◌++◌}
use waybeam_wfb_ng.Base.Int.{pos}
use waybeam_wfb_ng.Base.Text.{codes}
use waybeam_wfb_ng.Tunables.Types.{Literal, Kind, tf_int, tf_long, tf_float, tf_bool, TunableDesc}

abbrev row : List ℕ → Kind → TunableDesc
row name kind = record { name = name; kind = kind }

abbrev an_int : List ℕ → ℕ → ℕ → TunableDesc
an_int name lo hi = row name (tf_int (pos lo) (pos hi))

abbrev a_long : List ℕ → ℕ → ℕ → TunableDesc
a_long name lo hi = row name (tf_long (pos lo) (pos hi))

-- Thousandths.
abbrev milli : Bool → ℕ → Literal
milli negative n = record { negative = negative; digits = n; places = 3 }

abbrev a_float : List ℕ → ℕ → ℕ → TunableDesc
a_float name lo hi = row name (tf_float (milli false lo) (milli false hi))

-- From a negative bound to zero.
abbrev a_level : List ℕ → ℕ → TunableDesc
a_level name lo = row name (tf_float (milli true lo) (milli false 0))

abbrev a_bool : List ℕ → TunableDesc
a_bool name = row name tf_bool

abbrev pub common_rows : List TunableDesc
common_rows =
    an_int (codes "common.api_port") 0 65_535
    ∷ a_bool (codes "common.dry_run")
    ∷ an_int (codes "common.verbose") 0 4
    ∷ []

abbrev pub fec_rows : List TunableDesc
fec_rows =
    a_bool (codes "fec.enabled")
    ∷ an_int (codes "fec.mtu") 100 65_000
    ∷ an_int (codes "fec.min_k") 1 256
    ∷ an_int (codes "fec.max_k") 1 256
    ∷ an_int (codes "fec.min_n") 1 256
    ∷ an_int (codes "fec.max_n") 1 256
    ∷ a_float (codes "fec.ewma_alpha") 1 1_000
    ∷ a_float (codes "fec.headroom_min") 1_000 4_000
    ∷ a_float (codes "fec.headroom_max") 1_000 4_000
    ∷ a_float (codes "fec.headroom_margin") 1_000 4_000
    ∷ a_float (codes "fec.headroom_window_s") 100 60_000
    ∷ a_float (codes "fec.ppf_deadband_frac") 0 1_000
    ∷ an_int (codes "fec.k_hyst_up") 1 64
    ∷ a_float (codes "fec.cooldown_up_s") 0 60_000
    ∷ a_float (codes "fec.k_down_dwell_s") 0 600_000
    ∷ a_float (codes "fec.k_up_dwell_s") 0 600_000
    ∷ a_float (codes "fec.startup_grace_s") 0 60_000
    ∷ a_float (codes "fec.safety_margin") 50 1_000
    ∷ a_long (codes "fec.bitrate_min_kbps") 100 200_000
    ∷ a_long (codes "fec.bitrate_max_kbps") 0 200_000
    ∷ a_float (codes "fec.bitrate_tolerance") 0 1_000
    ∷ a_float (codes "fec.bitrate_grace_s") 0 60_000
    ∷ a_float (codes "fec.mcs_settle_s") 0 60_000
    ∷ a_float (codes "fec.bitrate_lead_s") 0 5_000
    ∷ a_float (codes "fec.mcs_up_grace_s") 0 5_000
    ∷ an_int (codes "fec.payload_max") 0 4_000
    ∷ an_int (codes "fec.payload_min") 576 4_000
    ∷ an_int (codes "fec.airtime_max_pct") 0 100
    ∷ an_int (codes "fec.airtime_preamble_us") 0 200
    ∷ a_bool (codes "fec.skip_on_backpressure")
    ∷ an_int (codes "fec.backpressure_fill_pct") 0 100
    ∷ a_bool (codes "fec.desync_probe")
    ∷ a_bool (codes "fec.blocksize_feedforward")
    ∷ a_float (codes "fec.ff_cooldown_s") 0 10_000
    ∷ a_float (codes "fec.backpressure_recover_s") 0 30_000
    ∷ []

abbrev pub mcs_rows : List TunableDesc
mcs_rows =
    a_bool (codes "mcs.enabled")
    ∷ a_float (codes "mcs.rssi_ewma_alpha") 1 1_000
    ∷ a_float (codes "mcs.loss_ewma_alpha") 1 1_000
    ∷ an_int (codes "mcs.rssi_aggregator") 0 2
    ∷ a_float (codes "mcs.down_cooldown_s") 0 60_000
    ∷ a_float (codes "mcs.failsafe_timeout_s") 50 30_000
    ∷ a_float (codes "mcs.oscillation_window_s") 500 60_000
    ∷ an_int (codes "mcs.mcs_min") 0 11
    ∷ an_int (codes "mcs.mcs_max") 0 11
    ∷ a_level (codes "mcs.rssi_floor_dbm") 120_000
    ∷ a_float (codes "mcs.rssi_fade_db_per_s") 0 60_000
    ∷ a_level (codes "mcs.rssi_fade_arm_dbm") 120_000
    ∷ a_float (codes "mcs.rssi_floor_hyst_db") 0 20_000
    ∷ a_bool (codes "mcs.pressure_demote_block")
    ∷ a_float (codes "mcs.pressure_escape_s") 0 30_000
    ∷ a_float (codes "mcs.reentry_backoff_s") 0 120_000
    ∷ a_float (codes "mcs.reentry_dwell_s") 0 30_000
    ∷ an_int (codes "mcs.flap_freeze_count") 0 50
    ∷ a_float (codes "mcs.flap_freeze_window_s") 500 30_000
    ∷ a_float (codes "mcs.flap_freeze_s") 0 120_000
    ∷ an_int (codes "mcs.probe_clean_milli") 0 1_000
    ∷ an_int (codes "mcs.probe_fail_milli") 0 1_000
    ∷ an_int (codes "mcs.demote_per_milli") 0 1_000
    ∷ a_float (codes "mcs.promote_dwell_s") 0 60_000
    ∷ a_float (codes "mcs.probe_window_s") 50 10_000
    ∷ a_float (codes "mcs.probe_stale_age_s") 100 30_000
    ∷ an_int (codes "mcs.probe_feed_pps") 1 200
    ∷ an_int (codes "mcs.probe_feed_bytes") 64 1_472
    ∷ []

abbrev pub cmd_rows : List TunableDesc
cmd_rows =
    a_bool (codes "cmd.enabled")
    ∷ a_bool (codes "cmd.loopback_only")
    ∷ an_int (codes "cmd.rate_limit_ms") 0 60_000
    ∷ an_int (codes "cmd.allow_keys_mask") 0 1_048_575
    ∷ an_int (codes "cmd.bitrate_min_kbps") 1 200_000
    ∷ an_int (codes "cmd.bitrate_max_kbps") 1 200_000
    ∷ an_int (codes "cmd.fps_min") 1 240
    ∷ an_int (codes "cmd.fps_max") 1 240
    ∷ an_int (codes "cmd.payload_min") 256 4_000
    ∷ an_int (codes "cmd.payload_max") 256 4_000
    ∷ an_int (codes "cmd.wfb_fec_k_min") 1 256
    ∷ an_int (codes "cmd.wfb_fec_k_max") 1 256
    ∷ an_int (codes "cmd.wfb_fec_n_min") 1 256
    ∷ an_int (codes "cmd.wfb_fec_n_max") 1 256
    ∷ an_int (codes "cmd.wfb_mcs_min") 0 31
    ∷ an_int (codes "cmd.wfb_mcs_max") 0 31
    ∷ an_int (codes "cmd.wfb_bandwidth_min") 5 80
    ∷ an_int (codes "cmd.wfb_bandwidth_max") 5 80
    ∷ an_int (codes "cmd.wfb_txpower_min") 1 4_000
    ∷ an_int (codes "cmd.wfb_txpower_max") 1 4_000
    ∷ a_bool (codes "cmd.tx_pwr_by_rate")
    ∷ []

abbrev pub tunables : List TunableDesc
tunables = common_rows ++ (fec_rows ++ (mcs_rows ++ (cmd_rows)))
