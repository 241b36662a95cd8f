-- ===== src/Mcs/Slots.antt =====
-- The antenna list is bounded, and holds no id twice.
use waybeam_wfb_ng.Base.{
  ℕ, suc, ◌≤◌, ◌≡◌, ◌≢◌, refl, sym, ap, ap₂, ◌⊎◌, ◌∙◌, true, false, ◌&&◌, if_cases, inl, inr,
  Option, none, some, List, [], ◌∷◌, ◌++◌, map, length-map, ltb→lt, length, length-append, ltb,
  ◌==◌, arith,
}
use waybeam_wfb_ng.Base.Floating.{Floating}
use waybeam_wfb_ng.Base.Text.{bytes_eq}
use waybeam_wfb_ng.Mcs.Antennas.{
  entries, Entry, Aggregator, Slot, Antennas, empty_antennas, raise_slot, place_slot, add_slot,
  add_entry, add_entries, read_antennas, ant_max,
}

eq_comm : (x y : ℕ) → (x == y) ≡ (y == x)
eq_comm x y = ground arith

bytes_eq_comm : (xs ys : List ℕ) → bytes_eq xs ys ≡ bytes_eq ys xs
bytes_eq_comm [] [] = refl
bytes_eq_comm [] (y ∷ ys) = refl
bytes_eq_comm (x ∷ xs) [] = refl
bytes_eq_comm (x ∷ xs) (y ∷ ys) = ap₂ (λ a b. a && b) (eq_comm x y) (bytes_eq_comm xs ys)

-- No id of the list is `id`.
abbrev pub AllDiffer : List ℕ → List (List ℕ) → Type 0
AllDiffer id [] = Unit
AllDiffer id (i ∷ is) = (bytes_eq i id ≡ false) × AllDiffer id is

-- No id stands twice in the list, but for the empty one.
abbrev pub AllApart : List (List ℕ) → Type 0
AllApart [] = Unit
AllApart (i ∷ is) = ((length i ≡ 0) ⊎ AllDiffer i is) × AllApart is

AllDiffer-append :
    (id new : List ℕ) (is : List (List ℕ))
    → AllDiffer id is
    → bytes_eq id new ≡ false
    → AllDiffer id (is ++ (new ∷ []))
AllDiffer-append id new [] d e = (bytes_eq_comm new id ∙ e, tt)
AllDiffer-append id new (i ∷ is) d e = (d.0, AllDiffer-append id new is d.1 e)

-- Some id that was apart stays apart from a new one.
apart_from :
    (i new : List ℕ) (is : List (List ℕ))
    → (length i ≡ 0) ⊎ AllDiffer i is
    → bytes_eq i new ≡ false
    → (length i ≡ 0) ⊎ AllDiffer i (is ++ (new ∷ []))
apart_from i new is (inl z) e = inl z
apart_from i new is (inr d) e = inr (AllDiffer-append i new is d e)

AllApart-append :
    (new : List ℕ) (is : List (List ℕ))
    → AllApart is
    → AllDiffer new is
    → AllApart (is ++ (new ∷ []))
AllApart-append new [] a d = (inr tt, tt)
AllApart-append new (i ∷ is) a d = (apart_from i new is a.0 d.0, AllApart-append new is a.1 d.1)

-- An empty id may be added to any list: no id that is not empty is equal to it.
empty_differs : (i : List ℕ) → (length i ≡ 0) ⊎ (bytes_eq i [] ≡ false)
empty_differs [] = inl refl
empty_differs (c ∷ cs) = inr refl

apart_from_empty :
    (i : List ℕ) (is : List (List ℕ))
    → (length i ≡ 0) ⊎ AllDiffer i is
    → (length i ≡ 0) ⊎ AllDiffer i (is ++ ([] ∷ []))
apart_from_empty i is a = elim (empty_differs i) [ inl z ↦ inl z | inr e ↦ apart_from i [] is a e ]

AllApart-append_empty : (is : List (List ℕ)) → AllApart is → AllApart (is ++ ([] ∷ []))
AllApart-append_empty [] a = (inr tt, tt)
AllApart-append_empty (i ∷ is) a = (apart_from_empty i is a.0, AllApart-append_empty is a.1)

suc_not_zero : (n : ℕ) → (suc n == 0) ≢ true
suc_not_zero n h = ground arith

length_zero : (i : List ℕ) → (length i == 0) ≡ true → i ≡ []
length_zero [] h = refl
length_zero (c ∷ cs) h = absurd (suc_not_zero (length cs) h)

module _ (fp : Floating) where
  abbrev pub ids : List (Slot fp) → List (List ℕ)
  ids ss = map (λ s. s.id) ss

  -- What raising a slot can do: leave no slot with the id, or keep the ids as they are.
  abbrev IsRaised : List ℕ → List (Slot fp) → Option (List (Slot fp)) → Type 0
  IsRaised id ss none = AllDiffer id (ids ss)
  IsRaised id ss (some ts) = ids ts ≡ ids ss

  raise_under :
      (id : List ℕ) (s : Slot fp) (ss : List (Slot fp)) (o : Option (List (Slot fp)))
      → bytes_eq s.id id ≡ false
      → IsRaised id ss o
      → IsRaised id (s ∷ ss) (elim o [ none ↦ none | some rest ↦ some (s ∷ rest) ])
  raise_under id s ss none d h = (d, h)
  raise_under id s ss (some rest) d h = ap (λ is. s.id ∷ is) h

  raise_slot-IsRaised :
      (id : List ℕ) (avg : fp.Float) (ss : List (Slot fp))
      → IsRaised id ss (raise_slot fp id avg ss)
  unfolding raise_slot
  raise_slot-IsRaised id avg [] = tt
  raise_slot-IsRaised id avg (s ∷ ss) =
      if_cases (IsRaised id (s ∷ ss)) (bytes_eq s.id id)
        (λ _.
          if_cases (λ (t : Slot fp). IsRaised id (s ∷ ss) (some (t ∷ ss))) (fp.single.lt s.avg avg)
            (λ _. refl) (λ _. refl))
        (λ d. raise_under id s ss (raise_slot fp id avg ss) d (raise_slot-IsRaised id avg ss))

  -- At most eight slots, no antenna in two of them.
  pub record IsTidy (ss : List (Slot fp)) : Type 0 where
    pub bounded : length ss ≤ ant_max
    pub apart : AllApart (ids ss)

  ids-append :
      (ss : List (Slot fp)) (id : List ℕ) (avg : fp.Float)
      → ids (ss ++ (record { id = id; avg = avg } ∷ [])) ≡ ids ss ++ (id ∷ [])
  ids-append [] id avg = refl
  ids-append (s ∷ ss) id avg = ap (λ is. s.id ∷ is) (ids-append ss id avg)

  length-ids : (ss ts : List (Slot fp)) → ids ts ≡ ids ss → length ts ≡ length ss
  length-ids ss ts e =
      sym (length-map ts (λ s. s.id)) ∙ ap (λ is. length is) e ∙ length-map ss (λ s. s.id)

  -- A slot behind the others, if there is room.
  place_new :
      (id : List ℕ) (avg : fp.Float) (ss : List (Slot fp))
      → IsTidy ss
      → AllApart (ids ss ++ (id ∷ []))
      → IsTidy (place_slot fp id avg ss none)
  unfolding place_slot
  place_new id avg ss tidy a =
      if_cases IsTidy (ltb (length ss) ant_max)
        (λ room. record {
          bounded = omega (
            arith,
            length-append ss (record { id = id; avg = avg } ∷ []),
            ltb→lt (length ss) ant_max room,
          );
          apart = rw (ids-append ss id avg) a;
        })
        (λ _. tidy)

  place_raised :
      (id : List ℕ) (avg : fp.Float) (ss : List (Slot fp)) (o : Option (List (Slot fp)))
      → IsTidy ss
      → IsRaised id ss o
      → IsTidy (place_slot fp id avg ss o)
  unfolding place_slot
  place_raised id avg ss none tidy d =
      place_new id avg ss tidy (AllApart-append id (ids ss) tidy.apart d)
  place_raised id avg ss (some ts) tidy e = record {
    bounded = omega (arith, length-ids ss ts e, tidy.bounded);
    apart = rw e tidy.apart;
  }

  add_slot-IsTidy :
      (id : List ℕ) (avg : fp.Float) (ss : List (Slot fp))
      → IsTidy ss
      → IsTidy (add_slot fp id avg ss)
  unfolding add_slot
  add_slot-IsTidy id avg ss tidy =
      if_cases (λ o. IsTidy (place_slot fp id avg ss o)) (length id == 0)
        (λ z.
          place_new id avg ss tidy
            (rw (length_zero id z) (AllApart-append_empty (ids ss) tidy.apart)))
        (λ _. place_raised id avg ss (raise_slot fp id avg ss) tidy (raise_slot-IsRaised id avg ss))

  add_entries-IsTidy :
      (agg : Aggregator) (a : Antennas fp) (es : List Entry)
      → IsTidy a.slots
      → IsTidy (add_entries fp agg a es).slots
  unfolding add_entries add_entry
  add_entries-IsTidy agg a [] t = t
  add_entries-IsTidy agg a (e ∷ es) t =
      add_entries-IsTidy agg (add_entry fp agg a e) es
        (add_slot-IsTidy e.id (fp.single.of_int e.avg) a.slots t)

  -- Whatever a record says, the antenna list made of it has at most eight slots, and no antenna that
  -- has an id stands in two of them.
  pub read_antennas-IsTidy :
      (agg : Aggregator) (body : List ℕ) → IsTidy (read_antennas fp agg body).slots
  unfolding read_antennas empty_antennas
  read_antennas-IsTidy agg body =
      add_entries-IsTidy agg (empty_antennas fp) (entries (length body) body)
        (record { bounded = omega arith; apart = tt })
