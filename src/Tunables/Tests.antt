-- ===== src/Tunables/Tests.antt =====
-- Runs of the setters on rows of the table, and the theorems at those runs.
use waybeam_wfb_ng.Base.{ℕ, ◌≡◌, refl, true, false, none, some, List, [], ◌∷◌, arith}
use waybeam_wfb_ng.Base.Int.{pos}
use waybeam_wfb_ng.Base.Text.{codes}
use waybeam_wfb_ng.Ground.Query.{before, behind_byte}
use waybeam_wfb_ng.Base.Floating.{fixed_point}
use waybeam_wfb_ng.Csa.Json.{strtoll}
use waybeam_wfb_ng.Radio.Observe.{to_long}
use waybeam_wfb_ng.Tunables.Types.{
  tf_int, tf_bool, TunableDesc, Reader, Value, int_field, bool_field,
}
use waybeam_wfb_ng.Tunables.Table.{tunables}
use waybeam_wfb_ng.Tunables.Setter.{
  tunable_find, behind_row, unknown, out_of_range, split_pairs, add_byte, apply_query, apply_pairs,
  apply_pair, apply_row, apply_value, store_value, note_error, note_applied, tunable_write,
  write_int, write_bool, parse_strict_long, parse_strict_bool, whole_long, only_space, is_one_of,
  outside, beyond_int,
}
use waybeam_wfb_ng.Tunables.Typed.{
  int_typed, bool_typed, AllTyped, all_none, all_cons, apply_query-AllTyped,
}
use waybeam_wfb_ng.Tunables.Verdict.{stored, keys_set, faults}
use waybeam_wfb_ng.Tunables.Reported.{apply_query-reported}

-- A reader that takes no floating point number.
abbrev reader : Reader fixed_point
reader = record { strtod = λ s. none; isfinite = λ v. true; narrow = λ v. v }

find_row : tunable_find tunables (codes "fec.min_k") ≡ some (5, tf_int (pos 1) (pos 256))
unfolding tunable_find behind_row
find_row = refl

abbrev rows : List TunableDesc
rows =
    record { name = codes "fec.min_k"; kind = tf_int (pos 1) (pos 256) }
    ∷ record { name = codes "fec.enabled"; kind = tf_bool }
    ∷ record { name = codes "fec.max_k"; kind = tf_int (pos 1) (pos 256) }
    ∷ []

abbrev store : List (Value fixed_point)
store = int_field (pos 8) ∷ bool_field false ∷ int_field (pos 64) ∷ []

abbrev query : List ℕ
query = codes "fec.min_k=12&fec.enabled=On&fec.min_k=300&fec.k=1"

apply_some : apply_query fixed_point reader 64 rows query store ≡ record {
  store = int_field (pos 12) ∷ bool_field true ∷ int_field (pos 64) ∷ [];
  applied = codes "fec.min_k" ∷ codes "fec.enabled" ∷ [];
  errors = (codes "fec.min_k", out_of_range) ∷ (codes "fec.k", unknown) ∷ [];
}
unfolding apply_query apply_pairs split_pairs add_byte apply_pair before behind_byte tunable_find
    behind_row apply_row apply_value store_value note_error note_applied tunable_write write_int
    write_bool parse_strict_long parse_strict_bool whole_long only_space is_one_of outside
    beyond_int strtoll to_long
apply_some = refl

store-AllTyped : AllTyped fixed_point reader rows store
unfolding outside beyond_int
store-AllTyped = all_cons _ _ _ _ (int_typed (pos 1) (pos 256) (pos 8) refl refl) (
    all_cons _ _ _ _ (bool_typed false)
      (all_cons _ _ _ _ (int_typed (pos 1) (pos 256) (pos 64) refl refl) all_none))

apply_query-AllTyped_example :
    AllTyped fixed_point reader rows (apply_query fixed_point reader 64 rows query store).store
apply_query-AllTyped_example =
    apply_query-AllTyped fixed_point reader 64 rows query store store-AllTyped

apply_query-reported_example : apply_query fixed_point reader 64 rows query store ≡ record {
  store = stored fixed_point reader rows (split_pairs query) store;
  applied = keys_set fixed_point reader rows (split_pairs query);
  errors = faults fixed_point reader rows (split_pairs query);
}
unfolding split_pairs
apply_query-reported_example =
    apply_query-reported fixed_point reader 64 rows query store (omega arith)
