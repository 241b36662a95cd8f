-- ===== src/Wcmd/Recovery.antt =====
-- `recovery_dispatch` of vehicle/link_controller.c, for the open recovery channel. The result of
-- the hook is a parameter.
use waybeam_wfb_ng.Base.{ℕ, ◌+◌, ◌*◌, Bool, true, false, not, ◌&&◌, ◌||◌, ◌==◌, ltb, if◌then◌else◌}
use waybeam_wfb_ng.Base.Int.{ℤ, pos, eqb_ℤ, pos_part, ltb_ℤ}
use waybeam_wfb_ng.Base.Word.{sub64, inc64}
use waybeam_wfb_ng.Wcmd.Types.{
  WcmdReq, WcmdStatus, ok, disabled, unknown_key, http_error, WcmdResp, key_recovery_apfpv,
}
use waybeam_wfb_ng.Wcmd.Apply.{rc_status}

-- The `recovery` part of the configuration.
pub record RecoveryConfig : Type 0 where
  pub enabled : Bool
  pub cooldown_ms : ℤ
  pub arm_window_ms : ℤ
  pub arm_count : ℤ
  pub dry_run : Bool

-- `g_recovery`
pub record RecoveryState : Type 0 where
  pub recv_total : ℕ
  pub rejected : ℕ
  pub armed : ℕ
  pub executed : ℕ
  pub last_recv_us : ℕ
  pub last_exec_us : ℕ
  pub last_exec_rc : ℤ
  pub arm_seq : ℕ
  pub arm_hits : ℕ
  pub arm_first_us : ℕ

-- The state, the response, and whether the hook was called for (in a dry run it is only pretended).
pub record Recovered : Type 0 where
  pub state : RecoveryState
  pub resp : WcmdResp
  pub fired : Bool

-- `(uint64_t)(x > 0 ? x : d) * 1000`
unfoldable pub ms_or : ℤ → ℕ → ℕ
ms_or x d = (if ltb_ℤ (pos 0) x then pos_part x else d) * 1000

unfoldable pub answer : WcmdStatus → ℕ → ℤ → RecoveryState → Recovered
answer status http applied s = record {
  state = s;
  resp = record { status = status; http_status = http; applied_value = applied };
  fired = false;
}

module _ (cfg : RecoveryConfig) (hook_rc : ℤ) where
  unfoldable pub arm_count : ℕ
  arm_count = if ltb_ℤ (pos 0) cfg.arm_count then pos_part cfg.arm_count else 1

  -- The frame counted: one more of the burst, or the first of a new one.
  unfoldable pub count_frame : ℕ → ℕ → RecoveryState → RecoveryState
  count_frame seq now s =
      if s.arm_hits == 0
        || not (s.arm_seq == seq)
        || ltb (ms_or cfg.arm_window_ms 2000) (sub64 now s.arm_first_us)
      then record s { arm_seq = seq; arm_hits = 1; arm_first_us = now }
      else record s { arm_hits = s.arm_hits + 1 }

  unfoldable pub in_cooldown : ℕ → RecoveryState → Bool
  in_cooldown now s =
      not (s.last_exec_us == 0) && ltb (sub64 now s.last_exec_us) (ms_or cfg.cooldown_ms 10_000)

  -- The hook runs, and the window closes.
  unfoldable pub fire : ℕ → RecoveryState → Recovered
  fire now s =
      let rc = if cfg.dry_run then pos 0 else hook_rc in
      let t = record s {
        armed = inc64 s.armed;
        arm_hits = 0;
        last_exec_us = now;
        last_exec_rc = rc;
      } in
      if eqb_ℤ rc (pos 0)
      then record {
        state = record t { executed = inc64 t.executed };
        resp = record { status = ok; http_status = 0; applied_value = pos 0 };
        fired = true;
      }
      else record {
        state = t;
        resp = record { status = http_error; http_status = rc_status rc; applied_value = pos 0 };
        fired = true;
      }

  unfoldable pub on_frame : ℕ → ℕ → RecoveryState → Recovered
  on_frame seq now s =
      let t = count_frame seq now s in
      if in_cooldown now s
      then answer ok 0 s.last_exec_rc s
      else if ltb t.arm_hits arm_count
      then answer ok 0 (pos 0) t
      else fire now t

  unfoldable pub recovery_dispatch : WcmdReq → ℕ → RecoveryState → Recovered
  recovery_dispatch req now s =
      let r = record s { recv_total = inc64 s.recv_total; last_recv_us = now } in
      if not cfg.enabled
      then answer disabled 0 (pos 0) (record r { rejected = inc64 r.rejected })
      else if not (req.key == key_recovery_apfpv)
      then answer unknown_key 0 (pos 0) (record r { rejected = inc64 r.rejected })
      else on_frame req.seq now r
