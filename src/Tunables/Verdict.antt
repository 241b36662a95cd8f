-- ===== src/Tunables/Verdict.antt =====
-- What a query of tunables is to do, pair by pair, apart from the report that apply_query of
-- vehicle/link_controller.c fills.
use waybeam_wfb_ng.Base.{ℕ, Option, none, some, List, [], ◌∷◌, set}
use waybeam_wfb_ng.Base.Floating.{Floating}
use waybeam_wfb_ng.Ground.Query.{before, behind_byte}
use waybeam_wfb_ng.Tunables.Types.{Kind, TunableDesc, Reader, Value}
use waybeam_wfb_ng.Tunables.Setter.{
  Reason, unknown, no_value, out_of_range, tunable_write, tunable_find,
}

-- What becomes of a pair: it sets the field at an index, or it is at fault.
pub data Verdict (fp : Floating) : Type 0 where
  sets : ℕ → Value fp → Verdict fp
  faulty : Reason → Verdict fp

module _ (fp : Floating) (reader : Reader fp) where
  unfoldable pub written : ℕ → Option (Value fp) → Verdict fp
  written i none = faulty out_of_range
  written i (some v) = sets i v

  -- The verdict on a row that was found, and on the value of the pair.
  unfoldable pub judge : Option (ℕ × Kind) → Option (List ℕ) → Verdict fp
  unfolding written
  judge none val = faulty unknown
  judge (some (i, k)) none = faulty no_value
  judge (some (i, k)) (some []) = faulty no_value
  judge (some (i, k)) (some (c ∷ cs)) = written i (tunable_write fp reader k (c ∷ cs))

  unfoldable pub verdict : List TunableDesc → List ℕ → Verdict fp
  unfolding judge
  verdict rows p = judge (tunable_find rows (before b'=' p)) (behind_byte b'=' p)

  unfoldable pub keep_key : List ℕ → Verdict fp → List (List ℕ) → List (List ℕ)
  keep_key key (sets i v) ks = key ∷ ks
  keep_key key (faulty r) ks = ks

  unfoldable pub keep_fault : List ℕ → Verdict fp → List (List ℕ × Reason) → List (List ℕ × Reason)
  keep_fault key (sets i v) fs = fs
  keep_fault key (faulty r) fs = (key, r) ∷ fs

  unfoldable pub put_value : Verdict fp → List (Value fp) → List (Value fp)
  put_value (sets i v) vs = set vs i v
  put_value (faulty r) vs = vs

  -- The keys that set a field, and the others with their faults, each in the order of the pairs;
  -- and the fields behind all pairs.
  unfoldable pub keys_set : List TunableDesc → List (List ℕ) → List (List ℕ)
  unfolding keep_key
  keys_set rows [] = []
  keys_set rows (p ∷ ps) = keep_key (before b'=' p) (verdict rows p) (keys_set rows ps)

  unfoldable pub faults : List TunableDesc → List (List ℕ) → List (List ℕ × Reason)
  unfolding keep_fault
  faults rows [] = []
  faults rows (p ∷ ps) = keep_fault (before b'=' p) (verdict rows p) (faults rows ps)

  unfoldable pub stored : List TunableDesc → List (List ℕ) → List (Value fp) → List (Value fp)
  unfolding put_value
  stored rows [] vs = vs
  stored rows (p ∷ ps) vs = stored rows ps (put_value (verdict rows p) vs)
