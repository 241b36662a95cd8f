-- ===== src/Mcs/Smooth.antt =====
-- What a record does to the scorer: without antennas nothing, within ten milliseconds of the last
-- sample nothing to the slope, and the loss that the selector reads.
use waybeam_wfb_ng.Base.{ℕ, ◌≡◌, refl, true, if_cases, Option, List, ◌==◌}
use waybeam_wfb_ng.Base.Floating.{Floating}
use waybeam_wfb_ng.Mcs.Types.{Score}
use waybeam_wfb_ng.Mcs.Antennas.{read_antennas, raw_rssi}
use waybeam_wfb_ng.Mcs.Scorer.{
  ScorerConfig, Scorer, Sample, smooth_rssi, slope_dt, has_baseline, update_slope, smooth_loss,
  score_antennas, scorer_update,
}

module _ (fp : Floating) (cfg : ScorerConfig fp) (x : Sample) (s : Scorer fp) where
  -- The slope and its baseline, which only `update_slope` writes.
  abbrev pub SameSlope : Scorer fp → Type 0
  SameSlope t =
      (t.slope_db_s ≡ s.slope_db_s)
      × (t.slope_prev_rssi ≡ s.slope_prev_rssi)
      × (t.slope_prev_us ≡ s.slope_prev_us)

  close_sample-SameSlope :
      (raw : fp.Float)
      → has_baseline fp x.now s ≡ true
      → fp.single.lt (slope_dt fp x.now s) (fp.single.lit 1 2) ≡ true
      → SameSlope (update_slope fp x.now (smooth_rssi fp cfg raw s))
  unfolding update_slope smooth_rssi has_baseline slope_dt
  close_sample-SameSlope raw b c = rw (b, c) (refl, refl, refl)

  -- A record that comes less than ten milliseconds after the last sample of the slope leaves the
  -- slope and its baseline as they are, whatever it says.
  pub scorer_update-SameSlope :
      (body : List ℕ)
      → has_baseline fp x.now s ≡ true
      → fp.single.lt (slope_dt fp x.now s) (fp.single.lit 1 2) ≡ true
      → SameSlope (scorer_update fp cfg body x s).0
  unfolding scorer_update score_antennas smooth_loss
  scorer_update-SameSlope body b c =
      let ants = read_antennas fp cfg.rssi_aggregator body in
      if_cases (λ (r : Scorer fp × Option (Score fp)). SameSlope r.0) (ants.count == 0)
        (λ _. (refl, refl, refl))
        (λ _. close_sample-SameSlope (raw_rssi fp cfg.rssi_aggregator ants) b c)
