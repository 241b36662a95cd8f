-- ===== src/Mcs/Rungs.antt =====
-- Where one report can move the rung, and that it stays in the configured range.
use waybeam_wfb_ng.Base.{
  ℕ, ◌+◌, ◌≡◌, refl, ap, ◌∙◌, ◌⊎◌, inl, inr, Bool, true, false, none, some, arith,
}
use waybeam_wfb_ng.Base.Int.{ℤ, pos, pos_part, neg_part, ◌+ℤ◌, ◌-ℤ◌, ◌≤ℤ◌, ◌<ℤ◌, ltb_ℤ, int_laws}
use waybeam_wfb_ng.Base.Word.{inc32}
use waybeam_wfb_ng.Base.Floating.{Floating}
use waybeam_wfb_ng.Mcs.Types.{
  Selector, SelectDecision, sd_none, sd_init, sd_down, sd_up, Outcome, McsConfig, Score, ProbeState,
}
use waybeam_wfb_ng.Mcs.Selector.{commit}
use waybeam_wfb_ng.Mcs.Law.{
  hold, can_demote, step_down, step_up, escape_fires, enter, note_guards, update,
}
use waybeam_wfb_ng.Mcs.Fired.{
  Fired, holds, loss_demotes, signal_demotes, escapes, probe_demotes, probe_promotes, rules-Fired,
}
use waybeam_wfb_ng.Mcs.Valid.{IsSane, InRange, commit-current, clamp_mcs_bounds, clamp_mcs_of_range}

-- What a report may do from rung `m`: nothing, one rung down, or one rung up. The rung that is
-- handed to the caller is the one committed.
pub data Move (m : ℤ) (o : Outcome) : Type 0 where
  stays : o.decision ≡ sd_none → o.selector.current_mcs ≡ m → o.out_mcs ≡ none → Move m o
  falls :
      o.decision ≡ sd_down
      → o.selector.current_mcs ≡ m -ℤ pos 1
      → o.out_mcs ≡ some (m -ℤ pos 1)
      → Move m o
  climbs :
      o.decision ≡ sd_up
      → o.selector.current_mcs ≡ m +ℤ pos 1
      → o.out_mcs ≡ some (m +ℤ pos 1)
      → Move m o

pub below : (m : ℤ) → pos_part (m -ℤ pos 1) + neg_part m + 1 ≡ neg_part (m -ℤ pos 1) + pos_part m
below m = omega int_laws

pub above : (m : ℤ) → pos_part (m +ℤ pos 1) + neg_part m ≡ neg_part (m +ℤ pos 1) + pos_part m + 1
above m = omega int_laws

module _ (fp : Floating) (cfg : McsConfig fp) (now : ℕ) where
  commit-decision :
      (target : ℤ) (reason : SelectDecision) (s : Selector)
      → (commit fp cfg target now reason s).decision ≡ reason
  unfolding commit
  commit-decision target reason s = refl

  -- Whatever the target, the committed rung is in range.
  committed :
      IsSane fp cfg
      → (target : ℤ) (reason : SelectDecision) (s : Selector)
      → InRange fp cfg (commit fp cfg target now reason s).selector.current_mcs
  committed sane target reason s =
      rw (commit-current fp cfg now target reason s)
        (clamp_mcs_bounds fp cfg target sane.min-le-max)

  -- A target in range is committed, and handed out, as it stands.
  commit-InRange :
      (target : ℤ) (reason : SelectDecision) (s : Selector)
      → InRange fp cfg target
      → ((commit fp cfg target now reason s).selector.current_mcs ≡ target)
        × ((commit fp cfg target now reason s).out_mcs ≡ some target)
  unfolding commit
  commit-InRange target reason s r = (
    commit-current fp cfg now target reason s ∙ clamp_mcs_of_range fp cfg target r,
    ap some (clamp_mcs_of_range fp cfg target r),
  )

  -- A demote is committed as it stands: the clamp does not bend it.
  step_down-Move :
      (s : Selector)
      → InRange fp cfg s.current_mcs
      → can_demote fp cfg now s ≡ true
      → Move s.current_mcs (step_down fp cfg now s)
  unfolding step_down can_demote
  step_down-Move s r d =
      let (c, o) =
        commit-InRange (s.current_mcs -ℤ pos 1) sd_down s (ground (arith, below s.current_mcs)) in
      falls (commit-decision (s.current_mcs -ℤ pos 1) sd_down s) c o

  step_up-Move :
      (s : Selector)
      → InRange fp cfg s.current_mcs
      → ltb_ℤ s.current_mcs cfg.mcs_max ≡ true
      → Move s.current_mcs (step_up fp cfg now s)
  unfolding step_up
  step_up-Move s r d =
      let (c, o) =
        commit-InRange (s.current_mcs +ℤ pos 1) sd_up s (ground (arith, above s.current_mcs)) in
      climbs (commit-decision (s.current_mcs +ℤ pos 1) sd_up s) c o

module _ (fp : Floating) (cfg : McsConfig fp) (score : Score fp) (now : ℕ) (probe : ProbeState)
    (in_pressure : Bool) where
  escape_below_max :
      (s : Selector)
      → escape_fires fp cfg score now in_pressure s ≡ true
      → ltb_ℤ s.current_mcs cfg.mcs_max ≡ true
  unfolding escape_fires
  escape_below_max s e = ground arith

  Fired-Move :
      {s : Selector} {o : Outcome}
      → InRange fp cfg s.current_mcs
      → Fired fp cfg score now probe in_pressure s o
      → Move s.current_mcs o
  unfolding hold
  Fired-Move r holds = stays refl refl refl
  Fired-Move {s} r (loss_demotes b l d) = step_down-Move fp cfg now s r d
  Fired-Move {s} r (signal_demotes g d) = step_down-Move fp cfg now s r d
  Fired-Move {s} r (escapes e) =
      step_up-Move fp cfg now (record s { pressure_escape_count = inc32 s.pressure_escape_count }) r
        (escape_below_max s e)
  Fired-Move {s} r (probe_demotes p f b d) = step_down-Move fp cfg now s r d
  Fired-Move {s} r (probe_promotes p f c g m w) = step_up-Move fp cfg now s r m

  -- The state that the rules see.
  abbrev pub seen : Selector → Selector
  seen s = note_guards fp cfg score now (enter fp cfg now in_pressure s)

  seen-current : (s : Selector) → (seen s).current_mcs ≡ s.current_mcs
  unfolding enter note_guards
  seen-current s = refl

  pub update-Fired :
      (s : Selector)
      → ltb_ℤ s.current_mcs (pos 0) ≡ false
      → Fired fp cfg score now probe in_pressure
          (seen s)
          (update fp cfg score now probe in_pressure s)
  unfolding update enter
  update-Fired s h = rw h (rules-Fired fp cfg score now probe in_pressure (seen s))

  not_negative : (m : ℤ) → IsSane fp cfg → InRange fp cfg m → ltb_ℤ m (pos 0) ≡ false
  not_negative m sane r = ground arith

  -- One report moves the committed rung by at most one, down or up, and says so: the decision and
  -- the rung handed out agree with the move. The configured bounds never distort the step.
  pub update_one_rung :
      (s : Selector)
      → IsSane fp cfg
      → InRange fp cfg s.current_mcs
      → Move s.current_mcs (update fp cfg score now probe in_pressure s)
  unfolding enter note_guards
  update_one_rung s sane r = Fired-Move r (update-Fired s (not_negative s.current_mcs sane r))

  cold_start :
      (s : Selector)
      → ltb_ℤ s.current_mcs (pos 0) ≡ true
      → update fp cfg score now probe in_pressure s
        ≡ commit fp cfg cfg.mcs_min now sd_init (enter fp cfg now in_pressure s)
  unfolding update enter
  cold_start s h = rw h refl

  Fired-InRange :
      {s : Selector} {o : Outcome}
      → IsSane fp cfg
      → InRange fp cfg s.current_mcs
      → Fired fp cfg score now probe in_pressure s o
      → InRange fp cfg o.selector.current_mcs
  unfolding hold step_down step_up
  Fired-InRange sane r holds = r
  Fired-InRange sane r (loss_demotes b l d) = committed fp cfg now sane _ _ _
  Fired-InRange sane r (signal_demotes g d) = committed fp cfg now sane _ _ _
  Fired-InRange sane r (escapes e) = committed fp cfg now sane _ _ _
  Fired-InRange sane r (probe_demotes p f b d) = committed fp cfg now sane _ _ _
  Fired-InRange sane r (probe_promotes p f c g m w) = committed fp cfg now sane _ _ _

  -- A first report commits, and hands out, the lowest rung; every other one makes a `Move`.
  pub data Reported (m : ℤ) (o : Outcome) : Type 0 where
    first :
        m <ℤ pos 0
        → o.decision ≡ sd_init
        → o.selector.current_mcs ≡ cfg.mcs_min
        → o.out_mcs ≡ some cfg.mcs_min
        → Reported m o
    later : pos 0 ≤ℤ m → Move m o → Reported m o

  lowest-InRange : IsSane fp cfg → InRange fp cfg cfg.mcs_min
  lowest-InRange sane = ground (arith, sane.min-le-max)

  first-Reported :
      (s : Selector)
      → IsSane fp cfg
      → s.current_mcs <ℤ pos 0
      → Reported s.current_mcs (update fp cfg score now probe in_pressure s)
  first-Reported s sane n =
      let t = enter fp cfg now in_pressure s in
      let (c, o) = commit-InRange fp cfg now cfg.mcs_min sd_init t (lowest-InRange sane) in
      rw (cold_start s (ground arith))
        (first n (commit-decision fp cfg now cfg.mcs_min sd_init t) c o)

  nonneg : (m : ℤ) → IsSane fp cfg → InRange fp cfg m → pos 0 ≤ℤ m
  nonneg m sane r = ground arith

  -- In a sane configuration, from any state whose rung is unset or in the configured range, the
  -- committed rung lies in that range after a report. If it was unset, the report commits the
  -- lowest rung and hands that out; otherwise it moves the rung by at most one.
  pub update-InRange :
      (s : Selector)
      → IsSane fp cfg
      → (s.current_mcs <ℤ pos 0) ⊎ InRange fp cfg s.current_mcs
      → InRange fp cfg (update fp cfg score now probe in_pressure s).selector.current_mcs
        × Reported s.current_mcs (update fp cfg score now probe in_pressure s)
  unfolding enter note_guards
  update-InRange s sane (inl n) =
      (rw (cold_start s (ground arith)) (committed fp cfg now sane _ _ _), first-Reported s sane n)
  update-InRange s sane (inr r) = (
    Fired-InRange sane r (update-Fired s (not_negative s.current_mcs sane r)),
    later (nonneg s.current_mcs sane r) (update_one_rung s sane r),
  )
