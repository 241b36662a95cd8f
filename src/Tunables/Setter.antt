-- ===== src/Tunables/Setter.antt =====
-- The setters of vehicle/link_controller.c: parse_strict_long, parse_strict_double,
-- parse_strict_bool, tunable_write, tunable_find and apply_query.
use waybeam_wfb_ng.Base.{
  ℕ, suc, ◌+◌, ◌-◌, ◌^◌, Bool, true, false, not, ◌&&◌, ◌||◌, Option, none, some, List, [], ◌∷◌,
  ◌++◌, map, length, set, ltb, leb, ◌==◌, if◌then◌else◌,
}
use waybeam_wfb_ng.Base.Int.{ℤ, pos, negsuc, ltb_ℤ, eqb_ℤ}
use waybeam_wfb_ng.Base.Text.{codes, bytes_eq}
use waybeam_wfb_ng.Base.Floating.{Floating}
use waybeam_wfb_ng.Csa.Json.{strtoll}
use waybeam_wfb_ng.Radio.Observe.{to_long}
use waybeam_wfb_ng.Ground.Query.{before, behind_byte}
use waybeam_wfb_ng.Tunables.Types.{
  Literal, Kind, tf_int, tf_long, tf_float, tf_bool, TunableDesc, Reader, Value, int_field,
  long_field, float_field, bool_field,
}

-- `while (*end == ' ' || ...) end++; if (*end) return -1;`
unfoldable pub only_space : List ℕ → Bool
only_space [] = true
only_space (c ∷ cs) = (c == b' ' || c == 9 || c == 13 || c == 10) && only_space cs

unfoldable pub whole_long : Option (ℤ × List ℕ) → Option ℤ
unfolding only_space
whole_long none = none
whole_long (some (v, rest)) = if only_space rest then to_long (v, rest) else none

unfoldable pub parse_strict_long : List ℕ → Option ℤ
unfolding whole_long
parse_strict_long s = whole_long (strtoll s)

-- `strcasecmp` against a text in lower case.
abbrev pub lower : ℕ → ℕ
lower c = if leb b'A' c && leb c b'Z' then c + 32 else c

unfoldable pub is_one_of : List ℕ → List (List ℕ) → Bool
is_one_of s [] = false
is_one_of s (t ∷ ts) = bytes_eq (map lower s) t || is_one_of s ts

unfoldable pub parse_strict_bool : List ℕ → Option Bool
unfolding is_one_of
parse_strict_bool s =
    if is_one_of s (codes "1" ∷ codes "true" ∷ codes "yes" ∷ codes "on" ∷ [])
    then some true
    else if is_one_of s (codes "0" ∷ codes "false" ∷ codes "no" ∷ codes "off" ∷ [])
    then some false
    else none

-- `t->lo != t->hi && (v < t->lo || v > t->hi)`
unfoldable pub outside : ℤ → ℤ → ℤ → Bool
outside lo hi v = not (eqb_ℤ lo hi) && (ltb_ℤ v lo || ltb_ℤ hi v)

-- `v < INT_MIN || v > INT_MAX`
unfoldable pub beyond_int : ℤ → Bool
beyond_int v = ltb_ℤ v (negsuc (2 ^ 31 - 1)) || ltb_ℤ (pos (2 ^ 31 - 1)) v

-- The row of a name, with its index: `tunable_find`.
unfoldable pub behind_row : Option (ℕ × Kind) → Option (ℕ × Kind)
behind_row none = none
behind_row (some (i, kind)) = some (suc i, kind)

unfoldable pub tunable_find : List TunableDesc → List ℕ → Option (ℕ × Kind)
tunable_find [] name = none
tunable_find (r ∷ rs) name =
    if bytes_eq r.name name then some (0, r.kind) else behind_row (tunable_find rs name)

pub data Reason : Type 0 where
  unknown no_value out_of_range : Reason

module _ (fp : Floating) (reader : Reader fp) where
  unfoldable pub whole_double : Option (fp.Double × List ℕ) → Option fp.Double
  unfolding only_space
  whole_double none = none
  whole_double (some (v, rest)) = if only_space rest && reader.isfinite v then some v else none

  unfoldable pub parse_strict_double : List ℕ → Option fp.Double
  unfolding whole_double
  parse_strict_double s = whole_double (reader.strtod s)

  unfoldable pub bound : Literal → fp.Double
  bound l =
      let size = fp.double.lit l.digits l.places in if l.negative then fp.double.neg size else size

  unfoldable pub outside_double : Literal → Literal → fp.Double → Bool
  unfolding bound
  outside_double lo hi v =
      (fp.double.lt (bound lo) (bound hi) || fp.double.lt (bound hi) (bound lo))
      && (fp.double.lt v (bound lo) || fp.double.lt (bound hi) v)

  -- The cases of `tunable_write`; `none` for -1, else the value of the field.
  unfoldable pub write_int : ℤ → ℤ → Option ℤ → Option (Value fp)
  write_int lo hi none = none
  write_int lo hi (some v) =
      if outside lo hi v then none else if beyond_int v then none else some (int_field v)

  unfoldable pub write_long : ℤ → ℤ → Option ℤ → Option (Value fp)
  write_long lo hi none = none
  write_long lo hi (some v) = if outside lo hi v then none else some (long_field v)

  unfoldable pub write_float : Literal → Literal → Option fp.Double → Option (Value fp)
  write_float lo hi none = none
  write_float lo hi (some v) =
      if outside_double lo hi v then none else some (float_field (reader.narrow v))

  unfoldable pub write_bool : Option Bool → Option (Value fp)
  write_bool none = none
  write_bool (some b) = some (bool_field b)

  unfoldable pub tunable_write : Kind → List ℕ → Option (Value fp)
  unfolding write_int write_long write_float write_bool parse_strict_double parse_strict_long
      parse_strict_bool
  tunable_write (tf_int lo hi) s = write_int lo hi (parse_strict_long s)
  tunable_write (tf_long lo hi) s = write_long lo hi (parse_strict_long s)
  tunable_write (tf_float lo hi) s = write_float lo hi (parse_strict_double s)
  tunable_write tf_bool s = write_bool (parse_strict_bool s)

  -- The fields behind a query, the keys that it set, and the others with the reason.
  pub record Applied : Type 0 where
    pub store : List (Value fp)
    pub applied : List (List ℕ)
    pub errors : List (List ℕ × Reason)

  -- `cap` is `max_keys`: a report that is full takes no more.
  module _ (cap : ℕ) where
    unfoldable pub note_error : List ℕ → Reason → Applied → Applied
    note_error key reason a = record a {
      errors = if ltb (length a.errors) cap then a.errors ++ ((key, reason) ∷ []) else a.errors;
    }

    unfoldable pub note_applied : List ℕ → Applied → Applied
    note_applied key a = record a {
      applied = if ltb (length a.applied) cap then a.applied ++ (key ∷ []) else a.applied;
    }

    unfoldable pub store_value : List ℕ → ℕ → Option (Value fp) → Applied → Applied
    store_value key i none a = note_error key out_of_range a
    store_value key i (some v) a = note_applied key (record a { store = set a.store i v })

    unfoldable pub apply_value : List ℕ → ℕ → Kind → Option (List ℕ) → Applied → Applied
    apply_value key i kind none a = note_error key no_value a
    apply_value key i kind (some []) a = note_error key no_value a
    apply_value key i kind (some (c ∷ cs)) a = store_value key i (tunable_write kind (c ∷ cs)) a

    unfoldable pub apply_row : List ℕ → Option (List ℕ) → Option (ℕ × Kind) → Applied → Applied
    apply_row key val none a = note_error key unknown a
    apply_row key val (some (i, kind)) a = apply_value key i kind val a

    -- One round of `apply_query`.
    unfoldable pub apply_pair : List TunableDesc → List ℕ → Applied → Applied
    apply_pair rows p a =
        let key = before b'=' p in apply_row key (behind_byte b'=' p) (tunable_find rows key) a

    unfoldable pub apply_pairs : List TunableDesc → List (List ℕ) → Applied → Applied
    apply_pairs rows [] a = a
    apply_pairs rows (p ∷ ps) a = apply_pairs rows ps (apply_pair rows p a)

-- The texts between the '&' of a query; nothing stands behind a last one.
unfoldable pub add_byte : ℕ → List (List ℕ) → List (List ℕ)
add_byte c [] = (c ∷ []) ∷ []
add_byte c (p ∷ ps) = (c ∷ p) ∷ ps

unfoldable pub split_pairs : List ℕ → List (List ℕ)
unfolding add_byte
split_pairs [] = []
split_pairs (c ∷ cs) = let rest = split_pairs cs in if c == b'&' then [] ∷ rest else add_byte c rest

module _ (fp : Floating) (reader : Reader fp) where
  unfoldable pub apply_query : ℕ → List TunableDesc → List ℕ → List (Value fp) → Applied fp reader
  unfolding apply_pairs split_pairs
  apply_query cap rows q store =
      apply_pairs fp reader cap rows (split_pairs q)
        (record { store = store; applied = []; errors = [] })
