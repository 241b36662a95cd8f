-- ===== src/Tunables/Typed.antt =====
-- The fields of the configuration keep their types and their bounds when a query sets them.
use waybeam_wfb_ng.Base.{
  ℕ, suc, ◌≡◌, Bool, true, false, ◌&&◌, Option, none, some, List, [], ◌∷◌, set, if_cases, and_right,
}
use waybeam_wfb_ng.Base.Int.{ℤ}
use waybeam_wfb_ng.Base.Text.{bytes_eq}
use waybeam_wfb_ng.Base.Floating.{Floating}
use waybeam_wfb_ng.Ground.Query.{before, behind_byte}
use waybeam_wfb_ng.Tunables.Types.{
  Literal, Kind, tf_int, tf_long, tf_float, tf_bool, TunableDesc, Reader, Value, int_field,
  long_field, float_field, bool_field,
}
use waybeam_wfb_ng.Tunables.Setter.{
  parse_strict_long, parse_strict_bool, parse_strict_double, whole_double, only_space, outside,
  beyond_int, outside_double, write_int, write_long, write_float, write_bool, tunable_write,
  Applied, behind_row, tunable_find, store_value, note_applied, note_error, apply_value, apply_row,
  apply_pair, apply_pairs, split_pairs, apply_query,
}

-- The row at an index has a kind.
data IsRow : List TunableDesc → ℕ → Kind → Type 0 where
  at_row : (r : TunableDesc) (rs : List TunableDesc) → IsRow (r ∷ rs) 0 r.kind
  behind_it :
      (r : TunableDesc) (rs : List TunableDesc) (i : ℕ) (k : Kind)
      → IsRow rs i k
      → IsRow (r ∷ rs) (suc i) k

data Found (rows : List TunableDesc) : Option (ℕ × Kind) → Type 0 where
  missing : Found rows none
  at_index : (i : ℕ) (k : Kind) → IsRow rows i k → Found rows (some (i, k))

behind_row-Found :
    (r : TunableDesc) (rs : List TunableDesc) (o : Option (ℕ × Kind))
    → Found rs o
    → Found (r ∷ rs) (behind_row o)
unfolding behind_row
behind_row-Found r rs none f = missing
behind_row-Found r rs (some _) (at_index i k h) = at_index (suc i) k (behind_it r rs i k h)

module _ (fp : Floating) (reader : Reader fp) where
  -- What a field of a kind holds: a number inside its bounds, a finite number that was inside them
  -- before it was narrowed to a float, or a Boolean.
  pub data IsTyped : Kind → Value fp → Type 0 where
    int_typed :
        (lo hi v : ℤ)
        → outside lo hi v ≡ false
        → beyond_int v ≡ false
        → IsTyped (tf_int lo hi) (int_field v)
    long_typed : (lo hi v : ℤ) → outside lo hi v ≡ false → IsTyped (tf_long lo hi) (long_field v)
    float_typed :
        (lo hi : Literal) (v : fp.Double)
        → reader.isfinite v ≡ true
        → outside_double fp reader lo hi v ≡ false
        → IsTyped (tf_float lo hi) (float_field (reader.narrow v))
    bool_typed : (b : Bool) → IsTyped tf_bool (bool_field b)

  pub data AllTyped : List TunableDesc → List (Value fp) → Type 0 where
    all_none : AllTyped [] []
    all_cons :
        (r : TunableDesc) (v : Value fp) (rs : List TunableDesc) (vs : List (Value fp))
        → IsTyped r.kind v
        → AllTyped rs vs
        → AllTyped (r ∷ rs) (v ∷ vs)

  tunable_find-Found :
      (rows : List TunableDesc) (name : List ℕ) → Found rows (tunable_find rows name)
  unfolding tunable_find
  tunable_find-Found [] name = missing
  tunable_find-Found (r ∷ rs) name =
      if_cases (Found (r ∷ rs)) (bytes_eq r.name name) (λ _. at_index 0 r.kind (at_row r rs))
        (λ _. behind_row-Found r rs (tunable_find rs name) (tunable_find-Found rs name))

  set-AllTyped :
      {rows : List TunableDesc} {i : ℕ} {k : Kind} (v : Value fp) (vs : List (Value fp))
      → IsRow rows i k
      → IsTyped k v
      → AllTyped rows vs
      → AllTyped rows (set vs i v)
  set-AllTyped v vs (at_row r rs) t (all_cons _ w _ ws u us) = all_cons r v rs ws t us
  set-AllTyped v vs (behind_it r rs i k h) t (all_cons _ w _ ws u us) =
      all_cons r w rs (set ws i v) u (set-AllTyped v ws h t us)

  -- What `tunable_write` gives fits the kind.
  data Fits (k : Kind) : Option (Value fp) → Type 0 where
    turned_down : Fits k none
    fitting : (v : Value fp) → IsTyped k v → Fits k (some v)

  write_int-Fits : (lo hi : ℤ) (o : Option ℤ) → Fits (tf_int lo hi) (write_int fp reader lo hi o)
  unfolding write_int
  write_int-Fits lo hi none = turned_down
  write_int-Fits lo hi (some v) =
      if_cases (Fits (tf_int lo hi)) (outside lo hi v) (λ _. turned_down)
        λ h.
          if_cases (Fits (tf_int lo hi)) (beyond_int v) (λ _. turned_down)
            (λ k. fitting (int_field v) (int_typed lo hi v h k))

  write_long-Fits : (lo hi : ℤ) (o : Option ℤ) → Fits (tf_long lo hi) (write_long fp reader lo hi o)
  unfolding write_long
  write_long-Fits lo hi none = turned_down
  write_long-Fits lo hi (some v) =
      if_cases (Fits (tf_long lo hi)) (outside lo hi v) (λ _. turned_down)
        (λ h. fitting (long_field v) (long_typed lo hi v h))

  write_bool-Fits : (o : Option Bool) → Fits tf_bool (write_bool fp reader o)
  unfolding write_bool
  write_bool-Fits none = turned_down
  write_bool-Fits (some b) = fitting (bool_field b) (bool_typed b)

  data AllFinite : Option fp.Double → Type 0 where
    no_number : AllFinite none
    a_number : (v : fp.Double) → reader.isfinite v ≡ true → AllFinite (some v)

  whole_double-AllFinite : (o : Option (fp.Double × List ℕ)) → AllFinite (whole_double fp reader o)
  unfolding whole_double
  whole_double-AllFinite none = no_number
  whole_double-AllFinite (some (v, rest)) =
      if_cases AllFinite (only_space rest && reader.isfinite v)
        (λ h. a_number v (and_right (only_space rest) (reader.isfinite v) h)) (λ _. no_number)

  write_float-Fits :
      (lo hi : Literal) (o : Option fp.Double)
      → AllFinite o
      → Fits (tf_float lo hi) (write_float fp reader lo hi o)
  unfolding write_float
  write_float-Fits lo hi none f = turned_down
  write_float-Fits lo hi (some _) (a_number v f) =
      if_cases (Fits (tf_float lo hi)) (outside_double fp reader lo hi v) (λ _. turned_down)
        (λ h. fitting (float_field (reader.narrow v)) (float_typed lo hi v f h))

  tunable_write-Fits : (k : Kind) (s : List ℕ) → Fits k (tunable_write fp reader k s)
  unfolding tunable_write parse_strict_double
  tunable_write-Fits (tf_int lo hi) s = write_int-Fits lo hi (parse_strict_long s)
  tunable_write-Fits (tf_long lo hi) s = write_long-Fits lo hi (parse_strict_long s)
  tunable_write-Fits (tf_float lo hi) s =
      write_float-Fits lo hi (parse_strict_double fp reader s)
        (whole_double-AllFinite (reader.strtod s))
  tunable_write-Fits tf_bool s = write_bool-Fits (parse_strict_bool s)

  module _ (cap : ℕ) (rows : List TunableDesc) where
    store_value-AllTyped :
        (key : List ℕ) (i : ℕ) (k : Kind) (o : Option (Value fp)) (a : Applied fp reader)
        → IsRow rows i k
        → Fits k o
        → AllTyped rows a.store
        → AllTyped rows (store_value fp reader cap key i o a).store
    unfolding store_value note_applied note_error
    store_value-AllTyped key i k none a r f u = u
    store_value-AllTyped key i k (some _) a r (fitting v t) u = set-AllTyped v a.store r t u

    apply_value-AllTyped :
        (key : List ℕ) (i : ℕ) (k : Kind) (val : Option (List ℕ)) (a : Applied fp reader)
        → IsRow rows i k
        → AllTyped rows a.store
        → AllTyped rows (apply_value fp reader cap key i k val a).store
    unfolding apply_value note_error
    apply_value-AllTyped key i k none a r u = u
    apply_value-AllTyped key i k (some []) a r u = u
    apply_value-AllTyped key i k (some (c ∷ cs)) a r u =
        store_value-AllTyped key i k (tunable_write fp reader k (c ∷ cs)) a r
          (tunable_write-Fits k (c ∷ cs)) u

    apply_row-AllTyped :
        (key : List ℕ) (val : Option (List ℕ)) (o : Option (ℕ × Kind)) (a : Applied fp reader)
        → Found rows o
        → AllTyped rows a.store
        → AllTyped rows (apply_row fp reader cap key val o a).store
    unfolding apply_row note_error
    apply_row-AllTyped key val none a f u = u
    apply_row-AllTyped key val (some _) a (at_index i k r) u =
        apply_value-AllTyped key i k val a r u

    apply_pairs-AllTyped :
        (ps : List (List ℕ)) (a : Applied fp reader)
        → AllTyped rows a.store
        → AllTyped rows (apply_pairs fp reader cap rows ps a).store
    unfolding apply_pairs apply_pair
    apply_pairs-AllTyped [] a u = u
    apply_pairs-AllTyped (p ∷ ps) a u =
        let key = before b'=' p in
        apply_pairs-AllTyped ps (apply_pair fp reader cap rows p a) (
          apply_row-AllTyped key (behind_byte b'=' p) (tunable_find rows key) a
            (tunable_find-Found rows key) u)

    -- A query of tunables, whatever it says, leaves every field with a value of its type: an int or
    -- a long inside the bounds of its row, a float that was finite and inside its bounds before it
    -- was narrowed, or a Boolean; provided that the fields were so before.
    pub apply_query-AllTyped :
        (q : List ℕ) (store : List (Value fp))
        → AllTyped rows store
        → AllTyped rows (apply_query fp reader cap rows q store).store
    unfolding apply_query
    apply_query-AllTyped q store u =
        apply_pairs-AllTyped (split_pairs q) (record { store = store; applied = []; errors = [] }) u
