-- ===== src/Mcs/Scorer.antt =====
-- `scorer_reset` and `scorer_update` of vehicle/link_controller.c.
use waybeam_wfb_ng.Base.{
  ℕ, ◌-◌, Bool, true, false, not, ◌&&◌, Option, none, some, List, ltb, ◌==◌, if◌then◌else◌,
}
use waybeam_wfb_ng.Base.Int.{ℤ, pos, ltb_ℤ}
use waybeam_wfb_ng.Base.Floating.{Floating}
use waybeam_wfb_ng.Mcs.Types.{Score}
use waybeam_wfb_ng.Mcs.Antennas.{Aggregator, Antennas, read_antennas, raw_rssi}

-- The `mcs` fields of the configuration that the scorer reads.
pub record ScorerConfig (fp : Floating) : Type 0 where
  pub rssi_aggregator : Aggregator
  pub rssi_ewma_alpha : fp.Float
  pub loss_ewma_alpha : fp.Float

pub record Scorer (fp : Floating) : Type 0 where
  pub smoothed_rssi : fp.Float
  pub smoothed_lost : fp.Float
  pub smoothed_recov : fp.Float
  pub smoothed_diversity : fp.Float
  pub have_rssi : Bool
  pub have_loss : Bool
  pub slope_db_s : fp.Float
  pub slope_prev_rssi : fp.Float
  pub slope_prev_us : ℕ

-- The counters of a record, and the clock.
pub record Sample : Type 0 where
  pub uniq : ℤ
  pub lost : ℤ
  pub fec_recovered : ℤ
  pub diversity : ℤ
  pub now : ℕ

module _ (fp : Floating) where
  unfoldable pub scorer_reset : Scorer fp
  scorer_reset = record {
    smoothed_rssi = fp.single.lit 0 0;
    smoothed_lost = fp.single.lit 0 0;
    smoothed_recov = fp.single.lit 0 0;
    smoothed_diversity = fp.single.lit 0 0;
    have_rssi = false;
    have_loss = false;
    slope_db_s = fp.single.lit 0 0;
    slope_prev_rssi = fp.single.lit 0 0;
    slope_prev_us = 0;
  }

  -- `a * x + (1.0f - a) * old`
  unfoldable pub ewma : fp.Float → fp.Float → fp.Float → fp.Float
  ewma a x old =
      fp.single.add (fp.single.mul a x) (fp.single.mul (fp.single.sub (fp.single.lit 1 0) a) old)

  unfoldable pub smooth_rssi : ScorerConfig fp → fp.Float → Scorer fp → Scorer fp
  smooth_rssi cfg raw s = record s {
    smoothed_rssi = if s.have_rssi then ewma cfg.rssi_ewma_alpha raw s.smoothed_rssi else raw;
    have_rssi = true;
  }

  -- Seconds since the last sample of the slope.
  unfoldable pub slope_dt : ℕ → Scorer fp → fp.Float
  slope_dt now s =
      fp.single.div (fp.single.of_int (pos (now - s.slope_prev_us))) (fp.single.lit 1_000_000 0)

  unfoldable pub has_baseline : ℕ → Scorer fp → Bool
  has_baseline now s = not (s.slope_prev_us == 0) && ltb s.slope_prev_us now

  unfoldable pub rebase : ℕ → Scorer fp → Scorer fp
  rebase now s = record s { slope_prev_rssi = s.smoothed_rssi; slope_prev_us = now }

  -- The slope: a sample too close to the last one is left out, and one too far from it starts anew.
  unfoldable pub update_slope : ℕ → Scorer fp → Scorer fp
  update_slope now s =
      let dt = slope_dt now s in
      let rise = fp.single.div (fp.single.sub s.smoothed_rssi s.slope_prev_rssi) dt in
      if has_baseline now s
      then (if fp.single.lt dt (fp.single.lit 1 2)
          then s
          else if fp.single.le dt (fp.single.lit 2 0)
          then rebase now (record s { slope_db_s = ewma (fp.single.lit 3 1) rise s.slope_db_s })
          else rebase now (record s { slope_db_s = fp.single.lit 0 0 }))
      else rebase now s

  unfoldable pub ratio : ℤ → ℤ → fp.Float
  ratio part uniq =
      let denom = if ltb_ℤ (pos 0) uniq then uniq else pos 1 in
      if ltb_ℤ (pos 0) part
      then fp.single.div (fp.single.of_int part) (fp.single.of_int denom)
      else fp.single.lit 0 0

  -- `if (r > 1.0f) r = 1.0f;`
  unfoldable pub at_most_one : fp.Float → fp.Float
  at_most_one r = if fp.single.lt (fp.single.lit 1 0) r then fp.single.lit 1 0 else r

  unfoldable pub smooth_loss : ScorerConfig fp → Sample → Scorer fp → Scorer fp
  unfolding ratio at_most_one
  smooth_loss cfg x s =
      let lost = at_most_one (ratio x.lost x.uniq) in
      let recov = at_most_one (ratio x.fec_recovered x.uniq) in
      let div = ratio x.diversity x.uniq in
      let a = cfg.loss_ewma_alpha in
      record s {
        smoothed_lost = if s.have_loss then ewma a lost s.smoothed_lost else lost;
        smoothed_recov = if s.have_loss then ewma a recov s.smoothed_recov else recov;
        smoothed_diversity = if s.have_loss then ewma a div s.smoothed_diversity else div;
        have_loss = true;
      }

  -- What the selector reads of the score.
  unfoldable pub score_of : Scorer fp → Score fp
  score_of s = record {
    smoothed_rssi = s.smoothed_rssi;
    smoothed_lost_ratio = s.smoothed_lost;
    rssi_slope_db_s = s.slope_db_s;
  }

  -- Behind the loop: `none` for a record without antennas.
  unfoldable pub score_antennas :
      ScorerConfig fp → Sample → Antennas fp → Scorer fp → Scorer fp × Option (Score fp)
  score_antennas cfg x ants s =
      let raw = raw_rssi fp cfg.rssi_aggregator ants in
      let s' = smooth_loss cfg x (update_slope x.now (smooth_rssi cfg raw s)) in
      if ants.count == 0 then (s, none) else (s', some (score_of s'))

  unfoldable pub scorer_update :
      ScorerConfig fp → List ℕ → Sample → Scorer fp → Scorer fp × Option (Score fp)
  scorer_update cfg body x s = score_antennas cfg x (read_antennas fp cfg.rssi_aggregator body) s
