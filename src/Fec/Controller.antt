-- ===== src/Fec/Controller.antt =====
-- `controller_update` of vehicle/link_controller.c and what it calls. A function that writes through
-- `Controller *` returns the new record.
use waybeam_wfb_ng.Base.{
  ℕ, Bool, true, not, ◌&&◌, ◌||◌, Option, none, some, ltb, leb, ◌==◌, if◌then◌else◌,
}
use waybeam_wfb_ng.Base.Int.{ℤ, pos, ◌-ℤ◌, ltb_ℤ, leb_ℤ, eqb_ℤ}
use waybeam_wfb_ng.Base.Word.{sub64, add64, inc32}
use waybeam_wfb_ng.Base.Floating.{Floating}
use waybeam_wfb_ng.Fec.Types.{FecConfig, HeadroomRing, FecParams, Controller}
use waybeam_wfb_ng.Fec.Headroom.{ring_push, ring_expire, compute_headroom}
use waybeam_wfb_ng.Fec.Sizing.{fec_compute}

module _ (fp : Floating) where
  open fp use {Float, single}
  open single use {mul, lit, to_u64}

  -- `(uint64_t)(secs * 1e6f)`
  unfoldable pub micros : Float → ℕ
  micros secs = to_u64 (mul secs (lit 1_000_000 0))

  -- `(uint64_t)(secs * 1e6)`, with the product in double.
  unfoldable pub micros_double : Float → ℕ
  micros_double secs = fp.double.to_u64 (fp.double.mul (fp.widen secs) (fp.double.lit 1_000_000 0))

  unfoldable pub arm_settle : ℕ → Float → Controller fp → Controller fp
  arm_settle now secs c =
      let new_end = add64 now (micros secs) in
      record c {
        bitrate_grace_until_us =
            if ltb c.bitrate_grace_until_us new_end then new_end else c.bitrate_grace_until_us;
      }

  unfoldable pub commit : FecParams fp → ℕ → Controller fp → Controller fp
  commit cand now c = record c {
    current = cand;
    last_update_us = now;
    update_count = inc32 c.update_count;
    k_down_pending_since_us = 0;
    k_down_pending_target = pos 0;
    k_up_pending_since_us = 0;
    k_up_pending_target = pos 0;
  }

-- The controller after a call, and the parameters that it stores through `out` and returns true for.
pub record Updated (fp : Floating) : Type 0 where
  pub controller : Controller fp
  pub out : Option (FecParams fp)

module _ (fp : Floating) (cfg : FecConfig fp) (now : ℕ) where
  open fp use {Float, single}
  open single use {add, sub, mul, div, lt, le, fabs, of_int, lit}

  -- `(float)(now - then) / 1e6f`
  unfoldable pub seconds_since : ℕ → Float
  seconds_since past = div (of_int (pos (sub64 now past))) (lit 1_000_000 0)

  unfoldable pub keep : Controller fp → Updated fp
  keep c = record { controller = c; out = none }

  unfoldable pub emit : FecParams fp → Controller fp → Updated fp
  emit cand c = record { controller = commit fp cand now c; out = some cand }

  -- The first steps of the update: the ring with the frame in it.
  unfoldable pub update_ring : ℕ → HeadroomRing → HeadroomRing
  update_ring frame_size ring =
      ring_expire (sub64 now (micros_double fp cfg.headroom_window_s))
        (ring_push now frame_size ring)

  unfoldable pub update_average : ℕ → Float → Float
  update_average frame_size avg =
      if le avg (lit 0 0)
      then of_int (pos frame_size)
      else add (mul cfg.ewma_alpha (of_int (pos frame_size)))
          (mul (sub (lit 1 0) cfg.ewma_alpha) avg)

  -- The start time and the average.
  unfoldable pub measure : ℕ → Controller fp → Controller fp
  measure frame_size c = record c {
    start_us = if c.start_us == 0 then now else c.start_us;
    avg_frame_size = update_average frame_size c.avg_frame_size;
  }

  -- Bytes per frame at the committed bitrate.
  unfoldable pub ff_bytes : ℤ → Float → Float
  ff_bytes committed_kbps fps = div (div (mul (of_int committed_kbps) (lit 1000 0)) (lit 8 0)) fps

  unfoldable pub ff_active : ℤ → Float → Bool
  ff_active committed_kbps fps =
      cfg.blocksize_feedforward
      && ltb_ℤ (pos 0) committed_kbps
      && lt (lit 1 1) fps
      && lt (lit 0 0) (ff_bytes committed_kbps fps)

  -- The candidate size, from the measured controller and the ring.
  unfoldable pub candidate : ℤ → Float → HeadroomRing → Controller fp → FecParams fp
  candidate committed_kbps fps ring c =
      let headroom =
        compute_headroom fp ring cfg.headroom_margin cfg.headroom_min cfg.headroom_max in
      let size_basis =
        if ff_active committed_kbps fps then ff_bytes committed_kbps fps else c.avg_frame_size in
      fec_compute fp size_basis headroom cfg
        (if c.have_current then c.current.packets_per_frame else pos 0)

  unfoldable pub in_startup_grace : Controller fp → Bool
  in_startup_grace c = ltb (sub64 now c.start_us) (micros fp cfg.startup_grace_s)

  unfoldable pub in_settle_grace : Controller fp → Bool
  in_settle_grace c = not (c.bitrate_grace_until_us == 0) && ltb now c.bitrate_grace_until_us

  unfoldable pub op_point_moved : ℤ → Controller fp → Bool
  op_point_moved committed_kbps c =
      leb_ℤ c.last_committed_kbps (pos 0)
      || lt (mul cfg.bitrate_tolerance (of_int committed_kbps))
          (fabs (of_int (committed_kbps -ℤ c.last_committed_kbps)))

  -- A smaller k waits for its dwell.
  unfoldable pub try_down : FecParams fp → Controller fp → Updated fp
  try_down cand c =
      let since = if c.k_down_pending_since_us == 0 then now else c.k_down_pending_since_us in
      let t = record c {
        k_up_pending_since_us = 0;
        k_up_pending_target = pos 0;
        k_down_pending_since_us = since;
        k_down_pending_target = cand.k;
      } in
      if lt (seconds_since since) cfg.k_down_dwell_s then keep t else emit cand t

  -- The same k: only a changed bound of n is a reason to commit.
  unfoldable pub try_same : FecParams fp → Controller fp → Updated fp
  try_same cand c =
      let t = record c {
        k_down_pending_since_us = 0;
        k_down_pending_target = pos 0;
        k_up_pending_since_us = 0;
        k_up_pending_target = pos 0;
      } in
      if eqb_ℤ cand.n c.current.n then keep t else emit cand t

  -- A larger k waits for its dwell, its hysteresis and the cooldown.
  unfoldable pub try_up : FecParams fp → Controller fp → Updated fp
  try_up cand c =
      let since = if c.k_up_pending_since_us == 0 then now else c.k_up_pending_since_us in
      let t = record c {
        k_down_pending_since_us = 0;
        k_down_pending_target = pos 0;
        k_up_pending_since_us = since;
        k_up_pending_target = cand.k;
      } in
      if lt (seconds_since since) cfg.k_up_dwell_s
      then keep t
      else if ltb_ℤ (cand.k -ℤ c.current.k) cfg.k_hyst_up
      then keep t
      else if lt (seconds_since c.last_update_us) cfg.cooldown_up_s
      then keep t
      else emit cand t

  unfoldable pub hysteresis : FecParams fp → Controller fp → Updated fp
  hysteresis cand c =
      if ltb_ℤ cand.k c.current.k
      then try_down cand c
      else if eqb_ℤ cand.k c.current.k
      then try_same cand c
      else try_up cand c

  -- The feed-forward step: at most one commit in a cooldown.
  unfoldable pub feed_forward : FecParams fp → Controller fp → Updated fp
  feed_forward cand c =
      let ff_cd = micros fp cfg.ff_cooldown_s in
      if c.ff_last_commit_us == 0 || ff_cd == 0 || leb ff_cd (sub64 now c.ff_last_commit_us)
      then emit cand (record c { ff_last_commit_us = now })
      else keep c

  -- The tests of one call, made before the decision.
  pub record Flags : Type 0 where
    pub startup : Bool
    pub settling : Bool
    pub settle_just_ended : Bool
    pub moved : Bool

  unfoldable pub flags : ℤ → Controller fp → Flags
  flags committed_kbps c = record {
    startup = in_startup_grace c;
    settling = in_settle_grace c;
    settle_just_ended = c.was_in_grace && not (in_settle_grace c);
    moved = op_point_moved committed_kbps c;
  }

  -- The decision once a size has been committed; `ff` tells whether the feed-forward step is on.
  unfoldable pub decide : Bool → Flags → FecParams fp → Controller fp → Updated fp
  decide ff f cand c =
      if ff && not f.startup && not (eqb_ℤ cand.k c.current.k) && f.moved
      then feed_forward cand c
      else if f.startup || f.settling
      then keep c
      else if f.settle_just_ended
      then (if eqb_ℤ cand.k c.current.k && eqb_ℤ cand.n c.current.n then keep c else emit cand c)
      else hysteresis cand c

  -- `controller_update` behind its measurements: the grace flag, the first commit, the anchor.
  unfoldable pub gate : ℤ → Bool → FecParams fp → Controller fp → Updated fp
  gate committed_kbps ff cand c =
      let f = flags committed_kbps c in
      let noted = record c { was_in_grace = f.settling } in
      let anchored = record noted {
        last_committed_kbps =
            if ltb_ℤ (pos 0) committed_kbps then committed_kbps else c.last_committed_kbps;
      } in
      if c.have_current
      then decide ff f cand anchored
      else if f.startup || f.settling
      then keep noted
      else emit cand (record noted { have_current = true })

  unfoldable pub update : ℕ → HeadroomRing → Float → ℤ → Controller fp → HeadroomRing × Updated fp
  update frame_size ring fps committed_kbps c =
      let ring' = update_ring frame_size ring in
      let c' = measure frame_size c in
      (
        ring',
        gate committed_kbps (ff_active committed_kbps fps) (candidate committed_kbps fps ring' c')
            c',
      )
