-- ===== src/Wcmd/Dispatch.antt =====
-- `wcmd_dispatch` of vehicle/link_controller.c: the gates in their order, and the keys that need no
-- clamp. Its return value, which only the log reads, is left out.
use waybeam_wfb_ng.Base.{
  ℕ, ◌*◌, Bool, true, not, ◌&&◌, ◌||◌, Option, none, some, [], ◌∷◌, ◌==◌, ltb, if◌then◌else◌,
}
use waybeam_wfb_ng.Base.Int.{ℤ, pos, eqb_ℤ}
use waybeam_wfb_ng.Base.Word.{sub64, inc64}
use waybeam_wfb_ng.Wcmd.Types.{
  WcmdReq, ok, disabled, unknown_key, key_blocked, out_of_range, rate_limited, http_error,
  not_permitted, CmdConfig, roll_log, stop_log, run_hook, World, WcmdState, wcmd_num_keys, allows,
}
use waybeam_wfb_ng.Wcmd.Clamp.{wcmd_clamp_value}
use waybeam_wfb_ng.Wcmd.Apply.{
  Dispatched, rc_status, to_u16, reply, count_range, wcmd_mark_applied, accept, apply_key,
}

abbrev pub dedup_us : ℕ
dedup_us = 500_000

unfoldable pub count_coalesced : WcmdState → WcmdState
count_coalesced s = record s {
  counters = record s.counters { coalesced_burst = inc64 s.counters.coalesced_burst };
}

unfoldable pub count_disabled : WcmdState → WcmdState
count_disabled s = record s {
  counters = record s.counters { rejected_disabled = inc64 s.counters.rejected_disabled };
}

module _ (cfg : CmdConfig) (world : World) (from_loopback : Bool) (req : WcmdReq) (now : ℕ) where
  -- The fields set for every request.
  unfoldable pub receive : WcmdState → WcmdState
  receive s = record s {
    counters = record s.counters { recv_total = inc64 s.counters.recv_total };
    last_recv_us = now;
    last_key = req.key;
    last_value = req.value;
    last_http_status = pos 0;
  }

  -- A copy of a command that was applied less than the window ago.
  unfoldable pub is_copy : WcmdState → Bool
  is_copy s =
      not (s.last_seq_us req.key == 0)
      && s.last_seq req.key == req.seq
      && ltb (sub64 now (s.last_seq_us req.key)) dedup_us

  unfoldable pub on_log_sync : WcmdState → Dispatched
  on_log_sync s =
      if is_copy s
      then reply ok 0 req.value [] (count_coalesced s)
      else accept req now 0 (pos 0) req.value [] (record s {
        logsync = record {
          valid = true;
          seq = req.seq;
          gs_unix_s = req.value;
          count = inc64 s.logsync.count;
        };
      })

  unfoldable pub on_log_control : WcmdState → Dispatched
  on_log_control s =
      let stop = eqb_ℤ req.value (pos 0) in
      let flag = if stop then pos 0 else pos 1 in
      if is_copy s
      then reply ok 0 flag [] (count_coalesced (record s { last_value = flag }))
      else accept req now 0 (pos 0) flag ((if stop then stop_log else roll_log) ∷ []) s

  -- The answer to a copy: the last value and status of the state.
  unfoldable pub on_copy : WcmdState → Dispatched
  on_copy s = reply ok (to_u16 s.last_http_status) s.last_value [] (count_coalesced s)

  -- A failed hook is marked like a run one.
  unfoldable pub on_return_apfpv : WcmdState → Dispatched
  on_return_apfpv s =
      let rc = if cfg.dry_run then pos 0 else world.hook_rc in
      let done = if cfg.dry_run then [] else run_hook ∷ [] in
      if not cfg.recovery_enabled || not cfg.has_apfpv_cmd
      then reply disabled 0 (pos 0) [] s
      else if eqb_ℤ rc (pos 0)
      then accept req now 0 (pos 0) (pos 0) done s
      else reply http_error (rc_status rc) (pos 0) done (wcmd_mark_applied req now s)

  unfoldable pub rate_limited_now : WcmdState → Bool
  rate_limited_now s =
      ltb 0 cfg.rate_limit_ms
      && not (s.last_apply_us req.key == 0)
      && ltb (sub64 now (s.last_apply_us req.key)) (cfg.rate_limit_ms * 1000)

  unfoldable pub on_clamped : Option ℤ → WcmdState → Dispatched
  on_clamped none s = reply out_of_range 0 (pos 0) [] (count_range s)
  on_clamped (some value) s =
      if rate_limited_now s
      then reply rate_limited 0 value [] (record s {
        counters = record s.counters { rejected_rate = inc64 s.counters.rejected_rate };
        last_value = value;
      })
      else apply_key req now cfg world value s

  -- An operator command behind the key mask.
  unfoldable pub on_allowed : WcmdState → Dispatched
  on_allowed s =
      if is_copy s
      then on_copy s
      else if req.key == 20
      then on_return_apfpv s
      else if req.key == 14 && cfg.tx_pwr_by_rate
      then reply disabled 0 (pos 0) [] (count_disabled s)
      else on_clamped (wcmd_clamp_value cfg s.fec_enabled req.key req.value) s

  unfoldable pub on_key : WcmdState → Dispatched
  on_key s =
      if req.key == 18
      then on_log_sync s
      else if req.key == 19
      then on_log_control s
      else if allows cfg req.key
      then on_allowed s
      else reply key_blocked 0 (pos 0) [] (record s {
        counters = record s.counters { rejected_blocked = inc64 s.counters.rejected_blocked };
      })

  unfoldable pub on_received : WcmdState → Dispatched
  on_received s =
      if not cfg.enabled
      then reply disabled 0 (pos 0) [] (count_disabled s)
      else if cfg.loopback_only && not from_loopback
      then reply not_permitted 0 (pos 0) [] (record s {
        counters = record s.counters { rejected_peer = inc64 s.counters.rejected_peer };
      })
      else if req.key == 0 || ltb wcmd_num_keys req.key
      then reply unknown_key 0 (pos 0) [] (record s {
        counters = record s.counters { rejected_unknown = inc64 s.counters.rejected_unknown };
      })
      else on_key s

  unfoldable pub wcmd_dispatch : WcmdState → Dispatched
  wcmd_dispatch s = on_received (receive s)
