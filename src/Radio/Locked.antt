-- ===== src/Radio/Locked.antt =====
-- The bitrate up-lock, and the order of a drop of the modulation.
use waybeam_wfb_ng.Base.{
  ℕ, ◌≤◌, ◌<◌, ◌≡◌, refl, Bool, true, false, not, ◌&&◌, Bool-cases, inl, inr, Option, none, some,
  arith, leb,
}
use waybeam_wfb_ng.Base.Int.{ℤ, pos, ◌≤ℤ◌, ◌<ℤ◌, ltb_ℤ}
use waybeam_wfb_ng.Base.Word.{add64}
use waybeam_wfb_ng.Base.Floating.{Floating}
use waybeam_wfb_ng.Fec.Types.{Controller}
use waybeam_wfb_ng.Fec.Controller.{micros, arm_settle}
use waybeam_wfb_ng.Radio.Types.{LinkConfig, RadioState, RadioBody, Link, VencWrite, to_u8}
use waybeam_wfb_ng.Radio.Bitrate.{
  venc_request, venc_accepts, Target, Asserted, target_of, up_locked, would_increase, must_write,
  payload_arg, remember, write_grace, write, bitrate_assert,
}
use waybeam_wfb_ng.Radio.Ordered.{
  PendingMcsDown, Change, drop_lock_end, extend_lock, future_radio, commit_mcs_pre_drop_bitrate,
  defer, commit_mcs_change, pending_mcs_clear, retry_later, Loop, pending_tick, drop_acked,
}

-- A request that sets no bitrate above `bound`.
abbrev FieldAtMost : ℤ → Option ℤ → Type 0
FieldAtMost bound none = Unit {0}
FieldAtMost bound (some kbps) = kbps ≤ℤ bound

abbrev pub AtMost : ℤ → Option VencWrite → Type 0
AtMost bound none = Unit {0}
AtMost bound (some w) = FieldAtMost bound w.bitrate

request-AtMost : (bound kbps payload : ℤ) → kbps ≤ℤ bound → AtMost bound (venc_request kbps payload)
unfolding venc_request
request-AtMost bound kbps payload h = ground arith

and_last : (a b : Bool) → (a && b) ≡ true → b ≡ true
and_last true b h = h
and_last false b h = cc

module _ (fp : Floating) (cfg : LinkConfig fp) where
  -- Neither the last bitrate nor the request of a call exceeds the bitrate before it.
  abbrev pub NoRaise : Link fp → Asserted fp → Type 0
  NoRaise l r =
      (r.link.last_written_kbps ≤ℤ l.last_written_kbps) × AtMost l.last_written_kbps r.sent

  abbrev SameLock : Link fp → Link fp → Type 0
  SameLock l l' = l'.ctrl.bitrate_up_lock_until_us ≡ l.ctrl.bitrate_up_lock_until_us

  module _ (radio : RadioState fp) (now : ℕ) where
    write_grace_keeps :
        (l : Link fp)
        → ((write_grace fp cfg radio now l).last_written_kbps ≡ l.last_written_kbps)
          × SameLock l (write_grace fp cfg radio now l)
    unfolding write_grace arm_settle
    write_grace_keeps l =
        elim (Bool-cases (fp.single.lt (fp.single.lit 0 0) cfg.fec.bitrate_grace_s)) [
          | inl h ↦ rw h (refl, refl)
          | inr h ↦ rw h (refl, refl)
        ]

    module _ (venc : VencWrite → Bool) (l : Link fp) where
      write-NoRaise :
          (t : Target) → t.kbps ≤ℤ l.last_written_kbps → NoRaise l (write fp cfg radio venc now t l)
      unfolding write remember write_grace arm_settle payload_arg
      write-NoRaise t h =
          let sent = request-AtMost l.last_written_kbps t.kbps (payload_arg fp cfg radio l t) h in
          let kept = write_grace_keeps (remember fp cfg radio t l) in
          let same = write_grace_keeps l in
          elim (Bool-cases cfg.dry_run) [
            | inl d ↦ rw d (simp kept.0 h, tt)
            | inr d ↦
                elim (Bool-cases
                  (venc_accepts venc (venc_request t.kbps (payload_arg fp cfg radio l t)))) [
                    | inl v ↦ rw (d, v) (simp kept.0 h, sent)
                    | inr v ↦ rw (d, v) (simp same.0 (omega arith), sent)
                  ]
          ]

      write-SameLock : (t : Target) → SameLock l (write fp cfg radio venc now t l).link
      unfolding write remember write_grace arm_settle payload_arg
      write-SameLock t =
          let kept = write_grace_keeps (remember fp cfg radio t l) in
          elim (Bool-cases cfg.dry_run) [
            | inl d ↦ rw d kept.1
            | inr d ↦
                elim (Bool-cases
                  (venc_accepts venc (venc_request t.kbps (payload_arg fp cfg radio l t)))) [
                    | inl v ↦ rw (d, v) kept.1
                    | inr v ↦ rw (d, v) (write_grace_keeps l).1
                  ]
          ]

      assert-SameLock : SameLock l (bitrate_assert fp cfg radio venc now l).link
      unfolding bitrate_assert
      assert-SameLock =
          let t : Target = target_of fp cfg radio l.ctrl in
          elim (Bool-cases (
            cfg.fec.enabled
            && radio.valid
            && l.ctrl.have_current
            && must_write fp cfg radio now l t.kbps)) [
              | inl g ↦ rw g (write-SameLock t)
              | inr g ↦ rw g refl
            ]

      no_increase :
          (kbps : ℤ)
          → up_locked fp cfg radio now l.ctrl ≡ true
          → pos 0 <ℤ l.last_written_kbps
          → must_write fp cfg radio now l kbps ≡ true
          → kbps ≤ℤ l.last_written_kbps
      unfolding must_write would_increase
      no_increase kbps k p m = ground arith

      quiet-NoRaise : NoRaise l (record { link = l; sent = none })
      quiet-NoRaise = (omega arith, tt)

      -- While the up-lock runs and a bitrate has been written, no call raises it: neither the
      -- bitrate remembered nor the one requested exceeds the last one, whatever the radio state, the
      -- sizes and the encoder's answer.
      pub up_lock_holds :
          up_locked fp cfg radio now l.ctrl ≡ true
          → pos 0 <ℤ l.last_written_kbps
          → NoRaise l (bitrate_assert fp cfg radio venc now l)
      unfolding bitrate_assert
      up_lock_holds k p =
          let t : Target = target_of fp cfg radio l.ctrl in
          elim (Bool-cases (
            cfg.fec.enabled
            && radio.valid
            && l.ctrl.have_current
            && must_write fp cfg radio now l t.kbps)) [
              | inl g ↦ rw g (write-NoRaise t (no_increase t.kbps k p (and_last _ _ g)))
              | inr g ↦ rw g quiet-NoRaise
            ]

  module _ (venc : VencWrite → Bool) (ack : RadioBody → Bool) (new_mcs : ℤ) (now : ℕ)
      (radio : RadioState fp) (current : RadioBody) (pending : PendingMcsDown) (l : Link fp) where
    -- The modulation goes down, and the configuration asks for a lead of the bitrate.
    abbrev pub is_drop : Bool
    is_drop =
        ltb_ℤ new_mcs (pos current.mcs_index)
        && fp.single.lt (fp.single.lit 0 0) cfg.fec.bitrate_lead_s
        && not cfg.dry_run

    abbrev pub change : Change fp
    change = commit_mcs_change fp cfg venc ack new_mcs now radio current pending l

    change-defer :
        is_drop ≡ true
        → change
          ≡ defer fp cfg venc new_mcs now radio (record current { mcs_index = to_u8 new_mcs }) l
    unfolding commit_mcs_change
    change-defer d = rw d

    -- The main loop behind the call, the rest of its state being `s`.
    abbrev pub behind_change : Loop fp → Loop fp
    behind_change s = record s { pending = change.pending }

    abbrev pub drop_deadline : ℕ
    drop_deadline = add64 now (micros fp cfg.fec.bitrate_lead_s)

    -- A drop of the modulation with a lead configured is deferred: the call itself sends nothing to
    -- the radio, the main loop's tick sends nothing for it before the deadline, and a tick from the
    -- deadline on sends the new setting. An acknowledgement ends the deferral; without one it stays
    -- pending.
    pub drop_waits_for_deadline :
        (early late : ℕ) (s : Loop fp)
        → is_drop ≡ true
        → early < drop_deadline
        → drop_deadline ≤ late
        → (change.radio_sent ≡ none)
          × (pending_tick fp cfg ack early (behind_change s) ≡ (behind_change s, none))
          × ((pending_tick fp cfg ack late (behind_change s)).1
              ≡ some (record current { mcs_index = to_u8 new_mcs }))
          × ((pending_tick fp cfg ack late (behind_change s)).0.pending.active
              ≡ not (ack (record current { mcs_index = to_u8 new_mcs })))
    unfolding pending_tick defer drop_acked retry_later pending_mcs_clear
    drop_waits_for_deadline early late s d a b =
        let waits : leb drop_deadline early ≡ false = ground arith in
        let due : leb drop_deadline late ≡ true = ground arith in
        rw (change-defer d)
          (elim (Bool-cases (ack (record current { mcs_index = to_u8 new_mcs }))) [
            | inl k ↦ rw (waits, due, k) (refl, refl, refl, refl)
            | inr k ↦ rw (waits, due, k) (refl, refl, refl, refl)
          ])

    defer-lock :
        (cfg.fec.enabled && radio.valid && l.ctrl.have_current) ≡ true
        → (defer fp cfg venc new_mcs now radio
            (record current { mcs_index = to_u8 new_mcs })
            l).link.ctrl.bitrate_up_lock_until_us
          ≡ (extend_lock fp cfg (drop_lock_end fp cfg now) l.ctrl).bitrate_up_lock_until_us
    unfolding defer commit_mcs_pre_drop_bitrate
    defer-lock g = rw g (assert-SameLock (future_radio fp cfg new_mcs radio) now venc _)

    extended-locked :
        (later : ℕ) (c : Controller fp)
        → later < drop_lock_end fp cfg now
        → c.bitrate_up_lock_until_us
          ≡ (extend_lock fp cfg (drop_lock_end fp cfg now) l.ctrl).bitrate_up_lock_until_us
        → (radio' : RadioState fp) → up_locked fp cfg radio' later c ≡ true
    unfolding up_locked extend_lock
    extended-locked later c a e radio' = ground arith

    drop-locked :
        {later : ℕ}
        → is_drop ≡ true
        → (cfg.fec.enabled && radio.valid && l.ctrl.have_current) ≡ true
        → later < drop_lock_end fp cfg now
        → (radio' : RadioState fp) → up_locked fp cfg radio' later change.link.ctrl ≡ true
    drop-locked {later} d g a radio' =
        extended-locked later change.link.ctrl a (rw (change-defer d) (defer-lock g)) radio'

    -- With the FEC subsystem on, the radio known and a size in force, a deferred drop arms the lock:
    -- from the link that it leaves, with a bitrate written, a call of `bitrate_assert` before the
    -- lead and the settle time are over raises neither the remembered nor the requested bitrate,
    -- whatever the radio then reports and the encoder answers.
    pub drop_holds_bitrate :
        (later : ℕ) (radio' : RadioState fp) (venc' : VencWrite → Bool)
        → is_drop ≡ true
        → (cfg.fec.enabled && radio.valid && l.ctrl.have_current) ≡ true
        → later < drop_lock_end fp cfg now
        → pos 0 <ℤ change.link.last_written_kbps
        → NoRaise change.link (bitrate_assert fp cfg radio' venc' later change.link)
    drop_holds_bitrate later radio' venc' d g a p =
        (up_lock_holds radio' later venc' change.link (drop-locked d g a radio') p)
