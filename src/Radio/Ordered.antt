-- ===== src/Radio/Ordered.antt =====
-- The ordered change of modulation of vehicle/link_controller.c: `commit_mcs_change`, and the step
-- of the main loop that sends a deferred drop. The radio's answer to CMD_SET_RADIO is a parameter,
-- `ack`: true for an acknowledged command. What only the log reads is left out.
use waybeam_wfb_ng.Base.{
  ℕ, Bool, true, false, not, ◌&&◌, Option, none, some, ltb, leb, if◌then◌else◌,
}
use waybeam_wfb_ng.Base.Int.{ℤ, pos, negsuc, ltb_ℤ}
use waybeam_wfb_ng.Base.Word.{add64}
use waybeam_wfb_ng.Base.Floating.{Floating}
use waybeam_wfb_ng.Fec.Types.{Controller}
use waybeam_wfb_ng.Fec.Controller.{micros}
use waybeam_wfb_ng.Radio.Types.{LinkConfig, RadioState, RadioBody, Link, VencWrite, to_u8}
use waybeam_wfb_ng.Radio.Rate.{phy_mbps}
use waybeam_wfb_ng.Radio.Bitrate.{Asserted, bitrate_assert}
use waybeam_wfb_ng.Radio.Observe.{Observation, radio_apply_observation}

pub record PendingMcsDown : Type 0 where
  pub active : Bool
  pub deadline_us : ℕ
  pub target_mcs : ℤ
  pub pending_radio : RadioBody

unfoldable pub pending_mcs_clear : PendingMcsDown → PendingMcsDown
pending_mcs_clear p = record p { active = false; deadline_us = 0; target_mcs = negsuc 0 }

-- The result of `commit_mcs_change`: `acked` is 0, `deferred` is 1, `failed` is -1.
pub data Committed : Type 0 where
  acked deferred failed : Committed

pub record Change (fp : Floating) : Type 0 where
  pub pending : PendingMcsDown
  pub link : Link fp
  pub venc_sent : Option VencWrite
  pub radio_sent : Option RadioBody
  pub result : Committed

module _ (fp : Floating) (cfg : LinkConfig fp) where
  -- The up-lock, extended to `until`.
  unfoldable pub extend_lock : ℕ → Controller fp → Controller fp
  extend_lock until c = record c {
    bitrate_up_lock_until_us =
        if ltb c.bitrate_up_lock_until_us until then until else c.bitrate_up_lock_until_us;
  }

  unfoldable pub drop_lock_end : ℕ → ℕ
  drop_lock_end now =
      add64 now (micros fp (fp.single.add cfg.fec.bitrate_lead_s cfg.fec.mcs_settle_s))

  unfoldable pub future_radio : ℤ → RadioState fp → RadioState fp
  future_radio new_mcs radio = record radio {
    mcs = new_mcs;
    phy_mbps = phy_mbps fp new_mcs radio.bandwidth radio.short_gi radio.vht_mode radio.vht_nss;
  }

  unfoldable pub commit_mcs_pre_drop_bitrate :
      (VencWrite → Bool) → ℤ → ℕ → RadioState fp → Link fp → Asserted fp
  commit_mcs_pre_drop_bitrate venc new_mcs now radio l =
      let locked = record l { ctrl = extend_lock (drop_lock_end now) l.ctrl } in
      if cfg.fec.enabled && radio.valid && l.ctrl.have_current
      then bitrate_assert fp cfg (future_radio new_mcs radio) venc now locked
      else record { link = l; sent = none }

  unfoldable pub defer :
      (VencWrite → Bool) → ℤ → ℕ → RadioState fp → RadioBody → Link fp → Change fp
  defer venc new_mcs now radio r l =
      let dropped = commit_mcs_pre_drop_bitrate venc new_mcs now radio l in
      record {
        pending = record {
          active = true;
          deadline_us = add64 now (micros fp cfg.fec.bitrate_lead_s);
          target_mcs = new_mcs;
          pending_radio = r;
        };
        link = dropped.link;
        venc_sent = dropped.sent;
        radio_sent = none;
        result = deferred;
      }

  -- The lock of a change up: set, not extended.
  unfoldable pub up_grace : ℕ → Link fp → Link fp
  up_grace now l = record l {
    ctrl = record l.ctrl {
      bitrate_up_lock_until_us = add64 now (micros fp cfg.fec.mcs_up_grace_s);
    };
  }

  unfoldable pub commit_mcs_change :
      (VencWrite → Bool)
      → (RadioBody → Bool)
      → ℤ
      → ℕ
      → RadioState fp
      → RadioBody
      → PendingMcsDown
      → Link fp
      → Change fp
  commit_mcs_change venc ack new_mcs now radio current pending l =
      let prev_mcs = pos current.mcs_index in
      let r = record current { mcs_index = to_u8 new_mcs } in
      let cleared = if pending.active then pending_mcs_clear pending else pending in
      let raised =
        if ltb_ℤ prev_mcs new_mcs
          && fp.single.lt (fp.single.lit 0 0) cfg.fec.mcs_up_grace_s
          && not cfg.dry_run
        then up_grace now l
        else l in
      if ltb_ℤ new_mcs prev_mcs
        && fp.single.lt (fp.single.lit 0 0) cfg.fec.bitrate_lead_s
        && not cfg.dry_run
      then defer venc new_mcs now radio r l
      else if cfg.dry_run
      then record {
        pending = cleared;
        link = raised;
        venc_sent = none;
        radio_sent = none;
        result = acked;
      }
      else record {
        pending = cleared;
        link = raised;
        venc_sent = none;
        radio_sent = some r;
        result = if ack r then acked else failed;
      }

-- The part of the main loop's state that the deferred drop works on.
pub record Loop (fp : Floating) : Type 0 where
  pub pending : PendingMcsDown
  pub radio_body : RadioBody
  pub last_emit_mcs : ℤ
  pub radio : RadioState fp
  pub ctrl : Controller fp

module _ (fp : Floating) (cfg : LinkConfig fp) where
  unfoldable pub observation_of : RadioBody → Observation
  observation_of r = record {
    mcs = pos r.mcs_index;
    bw = pos r.bandwidth;
    gi = pos r.short_gi;
    stbc = pos r.stbc;
    ldpc = pos r.ldpc;
    vht_mode = pos r.vht_mode;
    vht_nss = pos r.vht_nss;
  }

  unfoldable pub drop_acked : ℕ → Loop fp → Loop fp
  drop_acked now s =
      let r = s.pending.pending_radio in
      let (radio, ctrl) = radio_apply_observation fp cfg now (observation_of r) s.radio s.ctrl in
      record {
        pending = pending_mcs_clear s.pending;
        radio_body = r;
        last_emit_mcs = s.pending.target_mcs;
        radio = radio;
        ctrl = ctrl;
      }

  unfoldable pub retry_later : ℕ → Loop fp → Loop fp
  retry_later now s = record s { pending = record s.pending { deadline_us = add64 now 100_000 } }

  -- The tick, and the command that it sends.
  unfoldable pub pending_tick : (RadioBody → Bool) → ℕ → Loop fp → Loop fp × Option RadioBody
  pending_tick ack now s =
      let r = s.pending.pending_radio in
      if s.pending.active && leb s.pending.deadline_us now
      then (if ack r then (drop_acked now s, some r) else (retry_later now s, some r))
      else (s, none)
