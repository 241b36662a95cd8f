-- ===== src/Mcs/ScoreTests.antt =====
-- The scorer on a record of two antennas, one of them at two modulations, and its theorems at
-- inputs that meet their hypotheses.
use waybeam_wfb_ng.Base.{ℕ, ◌≡◌, refl, true, List, [], ◌∷◌, ◌++◌, arith}
use waybeam_wfb_ng.Base.Int.{pos, negsuc, ◌*ℤ◌}
use waybeam_wfb_ng.Base.Text.{codes}
use waybeam_wfb_ng.Base.Floating.{fixed_point, scaled}
use waybeam_wfb_ng.Csa.Json.{strtoll}
use waybeam_wfb_ng.Radio.Observe.{behind, skip_colon, to_long}
use waybeam_wfb_ng.Mcs.Antennas.{
  entries, next_entry, best_avg, read_antennas, add_entries, add_entry, add_slot, raise_slot,
  empty_antennas,
}
use waybeam_wfb_ng.Mcs.Scorer.{ScorerConfig, Scorer, Sample}
use waybeam_wfb_ng.Mcs.Fuel.{entries-fuel}
use waybeam_wfb_ng.Mcs.Slots.{IsTidy, read_antennas-IsTidy, ids}

abbrev record_text : List ℕ
record_text =
    codes "{\"ant\":[{\"id\":\"a1\",\"rssi\":{\"avg\":-60,\"max\":-55}},"
    ++ codes "{\"id\":\"a2\",\"rssi\":{\"avg\":-70}},{\"id\":\"a1\",\"rssi\":{\"avg\":-58}}]}"

three_entries :
    entries 200 record_text
    ≡ record { avg = negsuc 59; mx = negsuc 54; id = codes "a1" }
      ∷ record { avg = negsuc 69; mx = negsuc 69; id = codes "a2" }
      ∷ record { avg = negsuc 57; mx = negsuc 57; id = codes "a1" }
      ∷ []
unfolding entries next_entry strtoll behind skip_colon to_long
three_entries = refl

two_antennas :
    ids fixed_point (read_antennas fixed_point best_avg record_text).slots
    ≡ codes "a1" ∷ codes "a2" ∷ []
unfolding read_antennas add_entries add_entry add_slot raise_slot empty_antennas entries next_entry
    strtoll scaled ◌*ℤ◌ behind skip_colon to_long
two_antennas = refl

entries-fuel_example : entries 200 record_text ≡ entries 500 record_text
entries-fuel_example = entries-fuel 200 500 record_text (omega arith) (omega arith)

read_antennas-IsTidy_example :
    IsTidy fixed_point (read_antennas fixed_point best_avg record_text).slots
read_antennas-IsTidy_example = read_antennas-IsTidy fixed_point best_avg record_text

abbrev cfg : ScorerConfig fixed_point
cfg = record {
  rssi_aggregator = best_avg;
  rssi_ewma_alpha = pos 300_000;
  loss_ewma_alpha = pos 500_000;
}

-- A scorer whose slope was last sampled at two seconds, and a record one millisecond later.
abbrev sampled : Scorer fixed_point
sampled = record {
  smoothed_rssi = pos 0;
  smoothed_lost = pos 0;
  smoothed_recov = pos 0;
  smoothed_diversity = pos 0;
  have_rssi = true;
  have_loss = true;
  slope_db_s = negsuc 4_000_000;
  slope_prev_rssi = pos 0;
  slope_prev_us = 2_000_000;
}

abbrev burst_sample : Sample
burst_sample = record {
  uniq = pos 100;
  lost = pos 3;
  fec_recovered = pos 1;
  diversity = pos 90;
  now = 2_001_000;
}
