-- ===== src/Fec/Emission.antt =====
-- `controller_update` as a whole: when it emits, what it emits, and when it stays silent.
use waybeam_wfb_ng.Base.{
  ℕ, zero, suc, ◌≤◌, ◌<◌, ◌≡◌, refl, sym, ◌∙◌, true, none, some, List, [], ◌∷◌, set, arith, get_or,
  inl, inr, ◌≢◌,
}
use waybeam_wfb_ng.Base.Int.{ℤ}
use waybeam_wfb_ng.Base.Word.{sub64, u64_mod}
use waybeam_wfb_ng.Base.Ring.{back_index}
use waybeam_wfb_ng.Base.Floating.{Floating}
use waybeam_wfb_ng.Fec.Types.{FecConfig, HeadroomRing, FecParams, Controller, ring_max}
use waybeam_wfb_ng.Fec.Headroom.{ring_push, ring_expire, expire_count}
use waybeam_wfb_ng.Fec.Controller.{
  micros_double, Updated, in_startup_grace, measure, update_ring, candidate, ff_active, update,
}
use waybeam_wfb_ng.Fec.Bounds.{IsOrdered, IsLegal, fec_compute-IsLegal}
use waybeam_wfb_ng.Fec.Gating.{
  Why, first, moved, settled, shrunk, rebounded, grown, Decided, quiet, emitted, gate-Decided,
}

none≢some {ℓ} : {A : Type ℓ} {x : A} → none ≢ some x
none≢some e = cc

some_inj {ℓ} : {A : Type ℓ} {x y : A} → some x ≡ some y → x ≡ y
some_inj e = cc

module _ (fp : Floating) (cfg : FecConfig fp) (now frame_size : ℕ) (ring : HeadroomRing)
    (fps : fp.Float) (kbps : ℤ) (c : Controller fp) where
  -- The controller behind its measurements, the candidate of the call and its outcome.
  abbrev pub measured : Controller fp
  measured = measure fp cfg now frame_size c

  abbrev pub wanted : FecParams fp
  wanted = candidate fp cfg now kbps fps (update_ring fp cfg now frame_size ring) measured

  abbrev pub outcome : Updated fp
  outcome = (update fp cfg now frame_size ring fps kbps c).1

  -- Every call either emits nothing and keeps the size in force and the commit counter, or emits
  -- the candidate outside the startup grace, makes it the size in force, clears both dwell runs,
  -- counts one commit, and has one of six reasons: the first commit outside a settle grace, a moved
  -- operating point, a settle grace that just ended with another size, a smaller k past its dwell,
  -- the same k with another n, or a larger k past its dwell, its hysteresis and the cooldown.
  pub update_justified :
      Decided fp cfg now (ff_active fp cfg now kbps fps) kbps measured wanted outcome
  unfolding update
  update_justified = gate-Decided fp cfg now (ff_active fp cfg now kbps fps) kbps measured wanted

  emits_candidate :
      {p : FecParams fp}
      → outcome.out ≡ some p
      → Decided fp cfg now (ff_active fp cfg now kbps fps) kbps measured wanted outcome
      → (p ≡ wanted) × (outcome.controller.current ≡ wanted)
  emits_candidate h (quiet o a b) = absurd (none≢some (sym o ∙ h))
  emits_candidate h (emitted w g o a b d e f) = (some_inj (sym h ∙ o), a)

  wanted-IsLegal : IsOrdered fp cfg → IsLegal fp cfg wanted
  unfolding candidate
  wanted-IsLegal o = fec_compute-IsLegal fp cfg _ _ _ o

  -- With the configured bounds in order, every size that the controller emits is legal, whatever
  -- the float operations return: k and n are in their ranges and n exceeds k. The emitted size is
  -- the one the controller then holds.
  pub emitted_size-IsLegal :
      {p : FecParams fp}
      → IsOrdered fp cfg
      → outcome.out ≡ some p
      → IsLegal fp cfg p × (outcome.controller.current ≡ p)
  emitted_size-IsLegal o h =
      let (e, f) = emits_candidate h update_justified in (rw e (wanted-IsLegal o), f ∙ sym e)

  no_reason :
      c.have_current ≡ true
      → wanted.k ≡ c.current.k
      → wanted.n ≡ c.current.n
      → (w : Why fp cfg now (ff_active fp cfg now kbps fps) kbps measured wanted)
      → outcome.out ≡ none
  unfolding measure
  no_reason h k n (first a b) = cc
  no_reason h k n (moved a b d) = absurd (b k)
  no_reason h k n (settled a b (inl d)) = absurd (d k)
  no_reason h k n (settled a b (inr d)) = absurd (d n)
  no_reason h k n (shrunk a b) = ground arith
  no_reason h k n (rebounded a b) = absurd (b n)
  no_reason h k n (grown a b d e) = ground arith

  -- Once a size is in force, a candidate with the same k and n is never emitted again.
  pub same_size_silent :
      c.have_current ≡ true → wanted.k ≡ c.current.k → wanted.n ≡ c.current.n → outcome.out ≡ none
  same_size_silent h k n = go update_justified
    where
      go :
          Decided fp cfg now (ff_active fp cfg now kbps fps) kbps measured wanted outcome
          → outcome.out ≡ none
      go (quiet o a b) = o
      go (emitted w g o a b d e f) = no_reason h k n w

  -- Nothing is emitted in the startup grace, whatever the frames and the bitrate are.
  pub startup_grace_silent :
      in_startup_grace fp cfg now measured ≡ true
      → (outcome.out ≡ none) × (outcome.controller.current ≡ c.current)
  unfolding measure
  startup_grace_silent h = go update_justified
    where
      go :
          Decided fp cfg now (ff_active fp cfg now kbps fps) kbps measured wanted outcome
          → (outcome.out ≡ none) × (outcome.controller.current ≡ c.current)
      go (quiet o a b) = (o, a)
      go (emitted w g o a b d e f) = cc

-- `expire_count` keeps nothing when every stamp lies before the cutoff.
expire_all :
    (ts : List ℕ) (head cutoff n : ℕ)
    → ((i : ℕ) → get_or ts i 0 < cutoff)
    → expire_count ts head cutoff n ≡ 0
unfolding expire_count
expire_all ts head cutoff zero h = refl
expire_all ts head cutoff (suc n) h =
    let early = h (back_index ring_max head (suc n)) in
    let rest = expire_all ts head cutoff n h in ground arith

stamped :
    (ts : List ℕ) (head now : ℕ)
    → ((i : ℕ) → get_or ts i 0 ≤ now)
    → (i : ℕ) → get_or (set ts head now) i 0 ≤ now
stamped [] head now h i = h i
stamped (x ∷ xs) zero now h zero = omega arith
stamped (x ∷ xs) zero now h (suc i) = h (suc i)
stamped (x ∷ xs) (suc head) now h zero = h 0
stamped (x ∷ xs) (suc head) now h (suc i) = stamped xs head now (λ j. h (suc j)) i

-- Before one headroom window has passed since time zero, the cutoff `now - window` wraps around,
-- so a call whose ring holds no stamp after `now` drops every frame, the one just pushed included.
pub early_window_empties :
    (fp : Floating) (cfg : FecConfig fp) (now frame_size : ℕ) (ring : HeadroomRing)
    → now < micros_double fp cfg.headroom_window_s
    → micros_double fp cfg.headroom_window_s < u64_mod
    → ((i : ℕ) → get_or ring.ts_us i 0 ≤ now)
    → (update_ring fp cfg now frame_size ring).count ≡ 0
unfolding update_ring ring_expire ring_push sub64
early_window_empties fp cfg now frame_size ring h w s =
    expire_all (set ring.ts_us ring.head now) _ _ _
      (λ i. (let le = stamped ring.ts_us ring.head now s i in omega arith))
