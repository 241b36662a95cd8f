-- ===== src/Tunables/Reported.antt =====
-- What a query of tunables reports, and which fields it leaves alone.
use waybeam_wfb_ng.Base.{
  ℕ, suc, ◌+◌, ◌≤◌, ◌<◌, ◌≡◌, ◌≢◌, refl, ◌∙◌, Option, none, some, List, [], ◌∷◌, ◌++◌, length,
  length-append, append-nil, append_assoc, ap, set, get_elem?, get_elem?-set_ne, ltb, lt→ltb,
  if◌then◌else◌, arith,
}
use waybeam_wfb_ng.Base.Floating.{Floating}
use waybeam_wfb_ng.Ground.Query.{before, behind_byte}
use waybeam_wfb_ng.Tunables.Types.{Kind, TunableDesc, Reader, Value}
use waybeam_wfb_ng.Tunables.Verdict.{
  Verdict, sets, faulty, written, judge, verdict, keep_key, keep_fault, put_value, keys_set, faults,
  stored,
}
use waybeam_wfb_ng.Tunables.Setter.{
  unknown, no_value, out_of_range, tunable_write, Applied, tunable_find, store_value, note_applied,
  note_error, apply_value, apply_row, apply_pair, apply_pairs, split_pairs, apply_query,
}

-- A key does not name the row at an index.
unfoldable pub Misses : Option (ℕ × Kind) → ℕ → Type 0
Misses none i = Unit
Misses (some (j, k)) i = j ≢ i

-- No pair of a query names the row at an index.
unfoldable pub AllMiss : List TunableDesc → ℕ → List (List ℕ) → Type 0
AllMiss rows i [] = Unit
AllMiss rows i (p ∷ ps) = Misses (tunable_find rows (before b'=' p)) i × AllMiss rows i ps

-- A report with room takes what is noted.
pushed {ℓ} :
    {A : Type ℓ} (x : A) (xs : List A) (room : ℕ)
    → length xs < room
    → (if ltb (length xs) room then xs ++ (x ∷ []) else xs) ≡ xs ++ (x ∷ [])
pushed x xs room h = rw (lt→ltb (length xs) room h) refl

module _ (fp : Floating) (reader : Reader fp) (cap : ℕ) where
  noted : List ℕ → Verdict fp → Applied fp reader → Applied fp reader
  noted key (sets i v) a = record a { store = set a.store i v; applied = a.applied ++ (key ∷ []) }
  noted key (faulty r) a = record a { errors = a.errors ++ ((key, r) ∷ []) }

  store_value-noted :
      (key : List ℕ) (i : ℕ) (o : Option (Value fp)) (a : Applied fp reader)
      → length a.applied < cap
      → length a.errors < cap
      → store_value fp reader cap key i o a ≡ noted key (written fp reader i o) a
  unfolding store_value note_applied note_error noted written
  store_value-noted key i none a h k = rw (pushed (key, out_of_range) a.errors cap k) refl
  store_value-noted key i (some v) a h k = rw (pushed key a.applied cap h) refl

  apply_row-noted :
      (key : List ℕ) (val : Option (List ℕ)) (o : Option (ℕ × Kind)) (a : Applied fp reader)
      → length a.applied < cap
      → length a.errors < cap
      → apply_row fp reader cap key val o a ≡ noted key (judge fp reader o val) a
  unfolding apply_row apply_value note_error noted judge
  apply_row-noted key val none a h k = rw (pushed (key, unknown) a.errors cap k) refl
  apply_row-noted key none (some (i, kind)) a h k = rw (pushed (key, no_value) a.errors cap k) refl
  apply_row-noted key (some []) (some (i, kind)) a h k =
      rw (pushed (key, no_value) a.errors cap k) refl
  apply_row-noted key (some (c ∷ cs)) (some (i, kind)) a h k =
      store_value-noted key i (tunable_write fp reader kind (c ∷ cs)) a h k

  -- What the pairs add to a report.
  report : List TunableDesc → List (List ℕ) → Applied fp reader → Applied fp reader
  report rows ps a = record {
    store = stored fp reader rows ps a.store;
    applied = a.applied ++ keys_set fp reader rows ps;
    errors = a.errors ++ faults fp reader rows ps;
  }

  noted-room :
      (key : List ℕ) (v : Verdict fp) (a : Applied fp reader) (n : ℕ)
      → length a.applied + suc n ≤ cap
      → length a.errors + suc n ≤ cap
      → (length (noted key v a).applied + n ≤ cap) × (length (noted key v a).errors + n ≤ cap)
  unfolding noted
  noted-room key (sets i v) a n h k =
      (omega (arith, length-append a.applied (key ∷ [])), omega arith)
  noted-room key (faulty r) a n h k =
      (omega arith, omega (arith, length-append a.errors ((key, r) ∷ [])))

  report-noted :
      (rows : List TunableDesc) (key : List ℕ) (v : Verdict fp) (ps : List (List ℕ))
      (a : Applied fp reader)
      → report rows ps (noted key v a) ≡ record {
        store = stored fp reader rows ps (put_value fp reader v a.store);
        applied = a.applied ++ keep_key fp reader key v (keys_set fp reader rows ps);
        errors = a.errors ++ keep_fault fp reader key v (faults fp reader rows ps);
      }
  unfolding report noted put_value keep_key keep_fault
  report-noted rows key (sets i v) ps a =
      rw (append_assoc a.applied (key ∷ []) (keys_set fp reader rows ps)) refl
  report-noted rows key (faulty r) ps a =
      rw (append_assoc a.errors ((key, r) ∷ []) (faults fp reader rows ps)) refl

  apply_pairs-report :
      (rows : List TunableDesc) (ps : List (List ℕ)) (a : Applied fp reader)
      → length a.applied + length ps ≤ cap
      → length a.errors + length ps ≤ cap
      → apply_pairs fp reader cap rows ps a ≡ report rows ps a
  unfolding apply_pairs apply_pair report stored keys_set faults verdict
  apply_pairs-report rows [] a h k = rw (append-nil a.applied, append-nil a.errors) refl
  apply_pairs-report rows (p ∷ ps) a h k =
      let key = before b'=' p in
      let v = verdict fp reader rows p in
      let (h', k') = noted-room key v a (length ps) h k in
      ap (apply_pairs fp reader cap rows ps) (
        apply_row-noted key (behind_byte b'=' p) (tunable_find rows key) a (omega arith)
          (omega arith))
      ∙ apply_pairs-report rows ps (noted key v a) h' k'
      ∙ report-noted rows key v ps a

  -- A query with no more pairs than the report has room for reports every pair once, in order: the
  -- keys that set a field as applied, and every other key with its fault, which is that no row has
  -- the name, that the value is missing or empty, or that the row does not take the value. The
  -- fields are what the pairs that set one leave, the later after the earlier.
  pub apply_query-reported :
      (rows : List TunableDesc) (q : List ℕ) (store : List (Value fp))
      → length (split_pairs q) ≤ cap
      → apply_query fp reader cap rows q store ≡ record {
        store = stored fp reader rows (split_pairs q) store;
        applied = keys_set fp reader rows (split_pairs q);
        errors = faults fp reader rows (split_pairs q);
      }
  unfolding apply_query report
  apply_query-reported rows q store h =
      apply_pairs-report rows (split_pairs q) (record { store = store; applied = []; errors = [] })
        (omega arith) (omega arith)

  store_value-others :
      (key : List ℕ) (i : ℕ) (o : Option (Value fp)) (n : ℕ) (a : Applied fp reader)
      → i ≢ n
      → get_elem? (store_value fp reader cap key i o a).store n ≡ get_elem? a.store n
  unfolding store_value note_applied note_error
  store_value-others key i none n a m = refl
  store_value-others key i (some v) n a m = get_elem?-set_ne a.store v m

  apply_row-others :
      (key : List ℕ) (val : Option (List ℕ)) (o : Option (ℕ × Kind)) (n : ℕ) (a : Applied fp reader)
      → Misses o n
      → get_elem? (apply_row fp reader cap key val o a).store n ≡ get_elem? a.store n
  unfolding apply_row apply_value note_error Misses
  apply_row-others key val none n a m = refl
  apply_row-others key none (some (i, k)) n a m = refl
  apply_row-others key (some []) (some (i, k)) n a m = refl
  apply_row-others key (some (c ∷ cs)) (some (i, k)) n a m =
      store_value-others key i (tunable_write fp reader k (c ∷ cs)) n a m

  apply_pairs-others :
      (rows : List TunableDesc) (n : ℕ) (ps : List (List ℕ)) (a : Applied fp reader)
      → AllMiss rows n ps
      → get_elem? (apply_pairs fp reader cap rows ps a).store n ≡ get_elem? a.store n
  unfolding apply_pairs apply_pair AllMiss
  apply_pairs-others rows n [] a m = refl
  apply_pairs-others rows n (p ∷ ps) a m =
      let key = before b'=' p in
      apply_pairs-others rows n ps (apply_pair fp reader cap rows p a) m.1
      ∙ apply_row-others key (behind_byte b'=' p) (tunable_find rows key) n a m.0

  -- A query leaves every field as it is that none of its keys names.
  pub apply_query-others :
      (rows : List TunableDesc) (n : ℕ) (q : List ℕ) (store : List (Value fp))
      → AllMiss rows n (split_pairs q)
      → get_elem? (apply_query fp reader cap rows q store).store n ≡ get_elem? store n
  unfolding apply_query
  apply_query-others rows n q store m =
      apply_pairs-others rows n (split_pairs q)
        (record { store = store; applied = []; errors = [] }) m
