-- ===== src/Mcs/Changes.antt =====
-- The change ring of the selector as a queue of the times of its latest changes of rung.
use mathlib.Core.List.{tail}
use native.Mathlib.Numerals.{add-one}
use native.Mathlib.Decide.{dec_lt}
use waybeam_wfb_ng.Base.{
  ℕ, zero, suc, ◌+◌, ◌%◌, ◌≤◌, ◌<◌, ◌≡◌, refl, ap, ◌∙◌, inl, inr, Bool-cases, List, [], ◌∷◌, ◌++◌,
  get_or, set, length, arith, ltb, lt→ltb, leb, ◌==◌, if◌then◌else◌,
}
use waybeam_wfb_ng.Base.Word.{sub64}
use waybeam_wfb_ng.Base.Floating.{Floating}
use waybeam_wfb_ng.Base.Ring.{back_index, view, view-push, length-view}
use waybeam_wfb_ng.Mcs.Types.{Selector, McsConfig, osc_ring}
use waybeam_wfb_ng.Mcs.Selector.{expire_loop, micros, expire_changes, record_change}
use waybeam_wfb_ng.Mcs.Valid.{RingValid}

-- The times in the ring, oldest first.
abbrev pub changes : Selector → List ℕ
changes s = view 0 s.changes_us osc_ring s.changes_head s.changes_count

-- A queue without its entries before the first one at or after the cutoff.
unfoldable pub drop_old : ℕ → List ℕ → List ℕ
drop_old cutoff [] = []
drop_old cutoff (t ∷ ts) = let rest = drop_old cutoff ts in if leb cutoff t then t ∷ ts else rest

-- A queue of at most `osc_ring` entries takes one more, the oldest making room.
unfoldable pub enqueue : ℕ → List ℕ → List ℕ
enqueue t ts = (if ltb (length ts) osc_ring then ts else tail ts) ++ (t ∷ [])

-- What the window keeps at a time: nothing if it is off, all before a first full window.
unfoldable pub in_window : ℕ → ℕ → List ℕ → List ℕ
in_window window now ts =
    if window == 0 then [] else if ltb now window then ts else drop_old (sub64 now window) ts

view-expire_loop :
    (buf : List ℕ) (head cutoff n : ℕ)
    → view 0 buf osc_ring head (expire_loop buf head cutoff n)
      ≡ drop_old cutoff (view 0 buf osc_ring head n)
unfolding expire_loop view drop_old
view-expire_loop buf head cutoff zero = refl
view-expire_loop buf head cutoff (suc n) =
    elim (Bool-cases (leb cutoff (get_or buf (back_index osc_ring head (suc n)) 0))) [
      | inl k ↦ rw k refl
      | inr k ↦ rw k (view-expire_loop buf head cutoff n)
    ]

push_full :
    (buf : List ℕ) (head t : ℕ)
    → length buf ≡ osc_ring
    → head < osc_ring
    → view 0 (set buf head t) osc_ring ((head + 1) % osc_ring) osc_ring
      ≡ tail (view 0 buf osc_ring head osc_ring) ++ (t ∷ [])
unfolding view
push_full buf head t l h = view-push 0 buf osc_ring head t 15 l h (omega arith)

push_view :
    (buf : List ℕ) (head count t : ℕ)
    → length buf ≡ osc_ring
    → head < osc_ring
    → count ≤ osc_ring
    → view 0
        (set buf head t)
        osc_ring
        ((head + 1) % osc_ring)
        (if ltb count osc_ring then count + 1 else count)
      ≡ enqueue t (view 0 buf osc_ring head count)
unfolding enqueue
push_view buf head count t l h c = elim (dec_lt count osc_ring) [
  | yes p ↦
      rw
        (
          lt→ltb count osc_ring p,
          length-view 0 buf osc_ring head count,
          lt→ltb count osc_ring p,
          add-one count,
        )
        (view-push 0 buf osc_ring head t count l h p)
  | no p ↦
      let e : count ≡ osc_ring = omega arith in
      rw (e, length-view 0 buf osc_ring head osc_ring) (push_full buf head t l h)
]

module _ (fp : Floating) (cfg : McsConfig fp) (now : ℕ) where
  expire_changes_view :
      (s : Selector)
      → changes (expire_changes fp cfg now s)
        ≡ in_window (micros fp cfg.oscillation_window_s) now (changes s)
  unfolding expire_changes in_window
  expire_changes_view s = elim (Bool-cases (micros fp cfg.oscillation_window_s == 0)) [
    | inl w ↦ rw w (unfold view in refl)
    | inr w ↦ elim (Bool-cases (ltb now (micros fp cfg.oscillation_window_s))) [
      | inl n ↦ rw (w, n) refl
      | inr n ↦
          rw (w, n)
            (view-expire_loop s.changes_us s.changes_head
              (sub64 now (micros fp cfg.oscillation_window_s)) s.changes_count)
    ]
  ]

  -- The selector's ring of changes is a queue of at most sixteen times: recording a change enqueues
  -- it, the oldest making room, and drops what has left the window.
  pub record_change_refines :
      (s : Selector)
      → RingValid s
      → changes (record_change fp cfg now s)
        ≡ in_window (micros fp cfg.oscillation_window_s) now (enqueue now (changes s))
  unfolding record_change
  record_change_refines s v =
      expire_changes_view _
      ∙ ap (in_window (micros fp cfg.oscillation_window_s) now)
          (push_view s.changes_us s.changes_head s.changes_count now v.storage v.head_in v.count_in)
