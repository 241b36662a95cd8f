-- ===== src/Mcs/Antennas.antt =====
-- The antenna list of a rx_ant record: the loop of `scorer_update` in vehicle/link_controller.c,
-- with `json_get_int_in`. The loop is cut in two: the entries that it reads, and what it makes of
-- each.
use waybeam_wfb_ng.Base.{
  ℕ, zero, suc, Bool, true, false, ◌||◌, Option, none, some, List, [], ◌∷◌, ◌++◌, length, take,
  drop, ltb, ◌==◌, if◌then◌else◌,
}
use waybeam_wfb_ng.Base.Int.{ℤ, pos}
use waybeam_wfb_ng.Base.Floating.{Floating}
use waybeam_wfb_ng.Base.Text.{codes, has_prefix, bytes_eq}
use waybeam_wfb_ng.Csa.Machine.{int_or}
use waybeam_wfb_ng.Radio.Observe.{json_get_int}

-- `strchr` and `strstr`: the text from the first occurrence on.
unfoldable pub from_byte : ℕ → List ℕ → Option (List ℕ)
from_byte b [] = none
from_byte b (c ∷ cs) = let rest = from_byte b cs in if c == b then some (c ∷ cs) else rest

unfoldable pub from_text : List ℕ → List ℕ → Option (List ℕ)
from_text pat [] = none
from_text pat (c ∷ cs) =
    let rest = from_text pat cs in if has_prefix pat (c ∷ cs) then some (c ∷ cs) else rest

-- What stands before the first byte `b`.
unfoldable pub up_to : ℕ → List ℕ → List ℕ
up_to b [] = []
up_to b (c ∷ cs) = if c == b then [] else c ∷ up_to b cs

-- The text from the first brace to its closing one, both included, at most 511 bytes of it.
unfoldable pub inner_block : List ℕ → Option (List ℕ)
unfolding from_byte up_to
inner_block s = elim (from_byte b'{' s) [
  | none ↦ none
  | some brace ↦ elim (from_byte b'}' brace) [
    | none ↦ none
    | some end ↦ some (take 511 (up_to b'}' brace ++ codes "}"))
  ]
]

unfoldable pub json_get_int_in : List ℕ → List ℕ → Option ℤ
unfolding inner_block json_get_int
json_get_int_in block inner = elim (inner_block block) [
  | none ↦ none
  | some window ↦ json_get_int window inner
]

-- One entry that has an average: the average, the maximum, and the antenna's id ("" for none).
pub record Entry : Type 0 where
  pub avg : ℤ
  pub mx : ℤ
  pub id : List ℕ

-- `while (*idp == ' ' || *idp == '"') idp++;`
unfoldable pub skip_quote : List ℕ → List ℕ
skip_quote [] = []
skip_quote (c ∷ cs) = let rest = skip_quote cs in if c == b' ' || c == b'"' then rest else c ∷ cs

-- At most `room` bytes of an id.
unfoldable pub id_bytes : ℕ → List ℕ → List ℕ
id_bytes zero s = []
id_bytes (suc room) [] = []
id_bytes (suc room) (c ∷ cs) =
    if c == b'"' || c == b',' || c == b'}' then [] else c ∷ id_bytes room cs

-- The id between `p` and `r`, of which `r` is a later part.
unfoldable pub antenna_id : List ℕ → List ℕ → List ℕ
unfolding from_text skip_quote id_bytes
antenna_id p r = elim (from_text (codes "\"id\":") p) [
  | none ↦ []
  | some idp ↦ if ltb (length r) (length idp) then id_bytes 23 (skip_quote (drop 5 idp)) else []
]

-- The entry at `r`.
unfoldable pub entry_at : List ℕ → List ℕ → Option Entry
unfolding json_get_int_in antenna_id
entry_at p r = elim (json_get_int_in r (codes "avg")) [
  | none ↦ none
  | some avg ↦
      some (record {
        avg = avg;
        mx = int_or (json_get_int_in r (codes "max")) avg;
        id = antenna_id p r;
      })
]

-- What is left behind the entry's closing brace; without one, the loop ends.
unfoldable pub behind_brace : Option (List ℕ) → List ℕ
behind_brace none = []
behind_brace (some end) = drop 1 end

unfoldable pub with_rest : List ℕ → Option Entry → Option (Entry × List ℕ)
unfolding behind_brace from_byte
with_rest r none = none
with_rest r (some e) = some (e, behind_brace (from_byte b'}' r))

unfoldable pub entry_behind : List ℕ → Option (List ℕ) → Option (Entry × List ℕ)
unfolding with_rest entry_at
entry_behind p none = none
entry_behind p (some r) = with_rest r (entry_at p r)

-- One round: the entry behind `p`, and the text behind it.
unfoldable pub next_entry : List ℕ → Option (Entry × List ℕ)
unfolding entry_behind from_text
next_entry p = entry_behind p (from_text (codes "\"rssi\":") p)

-- The entries that the loop reads, on fuel: every round leaves a shorter text.
unfoldable pub entries : ℕ → List ℕ → List Entry
entries zero p = []
entries (suc fuel) p = elim (next_entry p) [ none ↦ [] | some (e, rest) ↦ e ∷ entries fuel rest ]

pub data Aggregator : Type 0 where
  best_avg best_max mean_avg : Aggregator

abbrev pub is_mean : Aggregator → Bool
is_mean mean_avg = true
is_mean _ = false

abbrev pub value_of : Aggregator → Entry → ℤ
value_of best_max e = e.mx
value_of _ e = e.avg

abbrev pub ant_max : ℕ
ant_max = 8

module _ (fp : Floating) where
  -- A slot of `seen_id` and `ant_avg`.
  pub record Slot : Type 0 where
    pub id : List ℕ
    pub avg : fp.Float

  pub record Antennas : Type 0 where
    pub best : fp.Float
    pub sum : fp.Float
    pub count : ℕ
    pub slots : List Slot

  unfoldable pub empty_antennas : Antennas
  empty_antennas = record {
    best = fp.single.neg (fp.single.lit 200 0);
    sum = fp.single.lit 0 0;
    count = 0;
    slots = [];
  }

  -- The first slot of the id, raised to the average; `none` where there is no such slot.
  unfoldable pub raise_slot : List ℕ → fp.Float → List Slot → Option (List Slot)
  raise_slot id avg [] = none
  raise_slot id avg (s ∷ ss) =
      if bytes_eq s.id id
      then some ((if fp.single.lt s.avg avg then record s { avg = avg } else s) ∷ ss)
      else elim (raise_slot id avg ss) [ none ↦ none | some rest ↦ some (s ∷ rest) ]

  unfoldable pub place_slot : List ℕ → fp.Float → List Slot → Option (List Slot) → List Slot
  place_slot id avg ss (some raised) = raised
  place_slot id avg ss none =
      if ltb (length ss) ant_max then ss ++ (record { id = id; avg = avg } ∷ []) else ss

  -- No id finds no slot.
  unfoldable pub add_slot : List ℕ → fp.Float → List Slot → List Slot
  unfolding place_slot
  add_slot id avg ss = place_slot id avg ss (if length id == 0 then none else raise_slot id avg ss)

  unfoldable pub add_entry : Aggregator → Antennas → Entry → Antennas
  add_entry agg a e =
      let avg = fp.single.of_int e.avg in
      let value = fp.single.of_int (value_of agg e) in
      record {
        best =
            if is_mean agg
            then a.best
            else if a.count == 0 || fp.single.lt a.best value
            then value
            else a.best;
        sum = if is_mean agg then fp.single.add a.sum avg else a.sum;
        count = suc a.count;
        slots = add_slot e.id avg a.slots;
      }

  unfoldable pub add_entries : Aggregator → Antennas → List Entry → Antennas
  add_entries agg a [] = a
  add_entries agg a (e ∷ es) = add_entries agg (add_entry agg a e) es

  -- The antennas of a record.
  unfoldable pub read_antennas : Aggregator → List ℕ → Antennas
  read_antennas agg body = add_entries agg empty_antennas (entries (length body) body)

  -- `raw`, where there is an entry.
  unfoldable pub raw_rssi : Aggregator → Antennas → fp.Float
  raw_rssi agg a =
      if is_mean agg then fp.single.div a.sum (fp.single.of_int (pos a.count)) else a.best
