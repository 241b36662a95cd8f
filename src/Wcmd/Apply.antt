-- ===== src/Wcmd/Apply.antt =====
-- The end of `wcmd_dispatch` in vehicle/link_controller.c: a command that has passed every gate.
use waybeam_wfb_ng.Base.{
  ℕ, ◌+◌, ◌-◌, ◌%◌, ◌^◌, Bool, not, ◌&&◌, ◌||◌, Option, none, some, List, [], ◌∷◌, ◌==◌, leb,
  if◌then◌else◌,
}
use waybeam_wfb_ng.Base.Int.{ℤ, pos, pos_part, neg_part, ltb_ℤ, leb_ℤ, eqb_ℤ}
use waybeam_wfb_ng.Base.Word.{inc64}
use waybeam_wfb_ng.Radio.Types.{RadioBody, to_u8}
use waybeam_wfb_ng.Wcmd.Types.{
  WcmdReq, WcmdStatus, ok, unknown_key, out_of_range, http_error, WcmdResp, CmdConfig, VencPath,
  Action, set_peek, set_txpower, set_fec, set_radio, venc_get, World, WcmdState, put,
}
use waybeam_wfb_ng.Wcmd.Clamp.{wcmd_build_path}

-- What a dispatch leaves: the state, the response and the actions taken.
pub record Dispatched : Type 0 where
  pub state : WcmdState
  pub resp : WcmdResp
  pub actions : List Action

-- `(uint16_t)` of an int.
unfoldable pub to_u16 : ℤ → ℕ
to_u16 x = (pos_part x + 2 ^ 16 - neg_part x % 2 ^ 16) % 2 ^ 16

-- A process result as a status: 0 unless it fits.
unfoldable pub rc_status : ℤ → ℕ
rc_status rc = if ltb_ℤ (pos 0) rc && leb_ℤ rc (pos 65_535) then pos_part rc else 0

-- `resp->status = ...; st->last_status = resp->status;`
unfoldable pub reply : WcmdStatus → ℕ → ℤ → List Action → WcmdState → Dispatched
reply status http applied actions s = record {
  state = record s { last_status = status };
  resp = record { status = status; http_status = http; applied_value = applied };
  actions = actions;
}

unfoldable pub count_range : WcmdState → WcmdState
count_range s = record s {
  counters = record s.counters { rejected_range = inc64 s.counters.rejected_range };
}

unfoldable pub count_http : WcmdState → WcmdState
count_http s = record s {
  counters = record s.counters { http_errors = inc64 s.counters.http_errors };
}

unfoldable pub count_accepted : WcmdState → WcmdState
count_accepted s = record s {
  counters = record s.counters { accepted = inc64 s.counters.accepted };
}

module _ (req : WcmdReq) (now : ℕ) where
  unfoldable pub wcmd_mark_applied : WcmdState → WcmdState
  wcmd_mark_applied s = record s {
    last_apply_us = put req.key now s.last_apply_us;
    last_seq = put req.key req.seq s.last_seq;
    last_seq_us = put req.key now s.last_seq_us;
  }

  -- A command that was applied: marked, counted and answered with OK.
  unfoldable pub accept : ℕ → ℤ → ℤ → List Action → WcmdState → Dispatched
  accept http last_http applied actions s = reply ok http applied actions (
      count_accepted
        (wcmd_mark_applied (record s { last_value = applied; last_http_status = last_http })))

  unfoldable pub fail : ℕ → List Action → WcmdState → Dispatched
  fail http actions s = reply http_error http (pos 0) actions (count_http s)

  abbrev pub one_if : Bool → ℤ
  one_if b = if b then pos 1 else pos 0

  -- The switches of the adaptive subsystems.
  unfoldable pub apply_switch : ℤ → WcmdState → Dispatched
  apply_switch value s =
      let on = not (eqb_ℤ value (pos 0)) in
      if req.key == 12
      then accept 0 (pos 0) (one_if on) [] (record s { fec_enabled = on })
      else accept 0 (pos 0) (one_if on) [] (record s { mcs_enabled = on })

  module _ (cfg : CmdConfig) (world : World) where
    unfoldable pub apply_peek : ℤ → WcmdState → Dispatched
    apply_peek value s =
        let flag = one_if (not (eqb_ℤ value (pos 0))) in
        if cfg.dry_run
        then accept 0 (pos 0) flag [] s
        else if eqb_ℤ (world.peek_rc flag) (pos 0)
        then accept 0 (pos 0) flag (set_peek flag ∷ []) s
        else fail 0 (set_peek flag ∷ []) s

    unfoldable pub apply_txpower : ℤ → WcmdState → Dispatched
    apply_txpower value s =
        let rc = world.txpower_rc value in
        if not cfg.has_iface
        then reply out_of_range 0 (pos 0) [] (count_range s)
        else if cfg.dry_run
        then accept 0 (pos 0) value [] s
        else if eqb_ℤ rc (pos 0)
        then accept 0 (pos 0) value (set_txpower value ∷ []) s
        else fail (rc_status rc) (set_txpower value ∷ []) (record s { last_http_status = rc })

    -- The FEC keys: the other size is read first; wfb_tx needs k <= n.
    unfoldable pub apply_fec : ℤ → Option (ℤ × ℤ) → WcmdState → Dispatched
    apply_fec value none s = fail 0 [] s
    apply_fec value (some (k_now, n_now)) s =
        let k = if req.key == 5 then value else k_now in
        let n = if req.key == 6 then value else n_now in
        if ltb_ℤ n k
        then reply out_of_range 0 (pos 0) [] (count_range s)
        else if eqb_ℤ (world.fec_rc k n) (pos 0)
        then accept 0 (pos 0) value (set_fec k n ∷ []) s
        else fail 0 (set_fec k n ∷ []) s

    -- The switch over the radio keys.
    unfoldable pub with_field : ℤ → RadioBody → RadioBody
    with_field value r =
        let flag = if eqb_ℤ value (pos 0) then 0 else 1 in
        if req.key == 7
        then record r { mcs_index = to_u8 value }
        else if req.key == 8
        then record r { bandwidth = to_u8 value }
        else if req.key == 9
        then record r { ldpc = flag }
        else if req.key == 10
        then record r { stbc = to_u8 value }
        else if req.key == 11
        then record r { short_gi = flag }
        else r

    unfoldable pub apply_radio : ℤ → Option RadioBody → WcmdState → Dispatched
    apply_radio value none s = fail 0 [] s
    apply_radio value (some r) s =
        let body = with_field value r in
        if eqb_ℤ (world.radio_rc body) (pos 0)
        then accept 0 (pos 0) value (set_radio body ∷ []) (record s { radio_written = some body })
        else fail 0 (set_radio body ∷ []) s

    unfoldable pub apply_wfb : ℤ → WcmdState → Dispatched
    apply_wfb value s =
        if cfg.dry_run
        then accept 0 (pos 0) value [] s
        else if req.key == 5 || req.key == 6
        then apply_fec value world.fec_now s
        else apply_radio value world.radio_now s

    unfoldable pub apply_venc : ℤ → Option VencPath → WcmdState → Dispatched
    apply_venc value none s = reply unknown_key 0 (pos 0) [] (record s {
      counters = record s.counters { rejected_unknown = inc64 s.counters.rejected_unknown };
    })
    apply_venc value (some path) s =
        let status = world.venc_status path in
        if cfg.dry_run
        then accept 200 (pos 200) value [] s
        else if world.venc_ok path
        then accept (to_u16 (if ltb_ℤ (pos 0) status then status else pos 200)) status value
            (venc_get path ∷ []) s
        else fail (to_u16 status) (venc_get path ∷ []) (record s { last_http_status = status })

    -- A clamped value, past the rate limit.
    unfoldable pub apply_key : ℤ → WcmdState → Dispatched
    apply_key value s =
        if req.key == 12 || req.key == 13
        then apply_switch value s
        else if req.key == 16
        then apply_peek value s
        else if req.key == 14
        then apply_txpower value s
        else if leb 5 req.key && leb req.key 11
        then apply_wfb value s
        else apply_venc value (wcmd_build_path req.key value) s
