-- ===== src/Fec/Gating.antt =====
-- When the controller emits a block size, and why.
use waybeam_wfb_ng.Base.{
  ℕ, ◌≡◌, ◌≢◌, refl, ap, ◌⊎◌, inl, inr, Bool, true, false, not, ◌&&◌, ◌||◌, Bool-cases, none, some,
  arith, leb, ◌==◌, if◌then◌else◌,
}
use waybeam_wfb_ng.Base.Int.{ℤ, ◌-ℤ◌, ◌<ℤ◌, ◌≤ℤ◌, ltb_ℤ, eqb_ℤ}
use waybeam_wfb_ng.Base.Word.{sub64, inc32}
use waybeam_wfb_ng.Base.Floating.{Floating}
use waybeam_wfb_ng.Fec.Types.{FecConfig, FecParams, Controller}
use waybeam_wfb_ng.Fec.Controller.{
  micros, commit, Updated, keep, emit, seconds_since, in_startup_grace, in_settle_grace,
  op_point_moved, try_down, try_same, try_up, hysteresis, feed_forward, flags, decide, gate,
}

eqb_false : (a b : ℤ) → eqb_ℤ a b ≡ false → a ≢ b
eqb_false a b h = ground arith

eqb_true : (a b : ℤ) → eqb_ℤ a b ≡ true → a ≡ b
eqb_true a b h = ground arith

and_true : (b : Bool) → (b && true) ≡ b
and_true true = refl
and_true false = refl

and_false : (b : Bool) → (b && false) ≡ false
and_false true = refl
and_false false = refl

differs : (a b c d : ℤ) → (eqb_ℤ a b && eqb_ℤ c d) ≡ false → (a ≢ b) ⊎ (c ≢ d)
differs a b c d h = elim (Bool-cases (eqb_ℤ a b)) [
  | inr e ↦ inl (eqb_false a b e)
  | inl e ↦ inr (eqb_false c d (ground arith))
]

module _ (fp : Floating) (cfg : FecConfig fp) (now : ℕ) where
  -- The start of a pending run that goes on, or begins now.
  abbrev pub since : ℕ → ℕ
  since pending = if pending == 0 then now else pending

  abbrev pub HasHeld : fp.Float → ℕ → Type 0
  HasHeld dwell pending = fp.single.lt (seconds_since fp cfg now (since pending)) dwell ≡ false

  -- A reason to emit `cand` from the measured state `c`.
  pub data Why (ff : Bool) (kbps : ℤ) (c : Controller fp) (cand : FecParams fp) : Type 0 where
    first : c.have_current ≡ false → in_settle_grace fp cfg now c ≡ false → Why ff kbps c cand
    moved :
        ff ≡ true
        → (cand.k ≢ c.current.k)
        → op_point_moved fp cfg now kbps c ≡ true
        → Why ff kbps c cand
    settled :
        c.was_in_grace ≡ true
        → in_settle_grace fp cfg now c ≡ false
        → ((cand.k ≢ c.current.k) ⊎ (cand.n ≢ c.current.n))
        → Why ff kbps c cand
    shrunk :
        cand.k <ℤ c.current.k
        → HasHeld cfg.k_down_dwell_s c.k_down_pending_since_us
        → Why ff kbps c cand
    rebounded : cand.k ≡ c.current.k → (cand.n ≢ c.current.n) → Why ff kbps c cand
    grown :
        c.current.k <ℤ cand.k
        → HasHeld cfg.k_up_dwell_s c.k_up_pending_since_us
        → cfg.k_hyst_up ≤ℤ cand.k -ℤ c.current.k
        → fp.single.lt (seconds_since fp cfg now c.last_update_us) cfg.cooldown_up_s ≡ false
        → Why ff kbps c cand

  -- The two outcomes of an update: nothing is emitted and the size in force stays, or the candidate
  -- is emitted for a reason, is the size in force, and every pending run starts anew.
  pub data Decided (ff : Bool) (kbps : ℤ) (c : Controller fp) (cand : FecParams fp) (u : Updated fp)
      : Type 0 where
    quiet :
        u.out ≡ none
        → u.controller.current ≡ c.current
        → u.controller.update_count ≡ c.update_count
        → Decided ff kbps c cand u
    emitted :
        Why ff kbps c cand
        → in_startup_grace fp cfg now c ≡ false
        → u.out ≡ some cand
        → u.controller.current ≡ cand
        → u.controller.last_update_us ≡ now
        → u.controller.update_count ≡ inc32 c.update_count
        → u.controller.k_down_pending_since_us ≡ 0
        → u.controller.k_up_pending_since_us ≡ 0
        → Decided ff kbps c cand u

  module _ (ff : Bool) (kbps : ℤ) (c : Controller fp) (cand : FecParams fp) where
    -- `t` is `c` but for its pending runs and anchors.
    abbrev SameSize : Controller fp → Type 0
    SameSize t = (t.current ≡ c.current) × (t.update_count ≡ c.update_count)

    keep-Decided : (t : Controller fp) → SameSize t → Decided ff kbps c cand (keep fp cfg now t)
    unfolding keep
    keep-Decided t h = quiet refl h.0 h.1

    emit-Decided :
        (t : Controller fp)
        → SameSize t
        → Why ff kbps c cand
        → in_startup_grace fp cfg now c ≡ false
        → Decided ff kbps c cand (emit fp cfg now cand t)
    unfolding emit commit
    emit-Decided t h w g = emitted w g refl refl refl (ap inc32 h.1) refl refl

    -- `c` with its grace flag and its bitrate anchor set anew, which no reason reads.
    abbrev base : Bool → ℤ → Controller fp
    base g l = record c { was_in_grace = g; last_committed_kbps = l }

    moved_reason :
        (ff && not (eqb_ℤ cand.k c.current.k) && op_point_moved fp cfg now kbps c) ≡ true
        → Why ff kbps c cand
    moved_reason m =
        moved (ground arith) (eqb_false cand.k c.current.k (ground arith)) (ground arith)

    module _ (g : Bool) (l : ℤ) (live : in_startup_grace fp cfg now c ≡ false) where
      down-Decided :
          cand.k <ℤ c.current.k → Decided ff kbps c cand (try_down fp cfg now cand (base g l))
      unfolding try_down
      down-Decided h =
          elim (Bool-cases (
            fp.single.lt (seconds_since fp cfg now (since c.k_down_pending_since_us))
              cfg.k_down_dwell_s)) [
                | inl w ↦ rw w (keep-Decided _ (refl, refl))
                | inr w ↦ rw w (emit-Decided _ (refl, refl) (shrunk h w) live)
              ]

      same-Decided :
          cand.k ≡ c.current.k → Decided ff kbps c cand (try_same fp cfg now cand (base g l))
      unfolding try_same
      same-Decided h = elim (Bool-cases (eqb_ℤ cand.n c.current.n)) [
        | inl e ↦ rw e (keep-Decided _ (refl, refl))
        | inr e ↦
            rw e (emit-Decided _ (refl, refl) (rebounded h (eqb_false cand.n c.current.n e)) live)
      ]

      up-Decided :
          c.current.k <ℤ cand.k → Decided ff kbps c cand (try_up fp cfg now cand (base g l))
      unfolding try_up
      up-Decided h =
          elim (Bool-cases (
            fp.single.lt (seconds_since fp cfg now (since c.k_up_pending_since_us))
              cfg.k_up_dwell_s)) [
                | inl w ↦ rw w (keep-Decided _ (refl, refl))
                | inr w ↦ elim (Bool-cases (ltb_ℤ (cand.k -ℤ c.current.k) cfg.k_hyst_up)) [
                  | inl y ↦ rw (w, y) (keep-Decided _ (refl, refl))
                  | inr y ↦
                      elim (Bool-cases (
                        fp.single.lt (seconds_since fp cfg now c.last_update_us)
                          cfg.cooldown_up_s)) [
                            | inl d ↦ rw (w, y, d) (keep-Decided _ (refl, refl))
                            | inr d ↦
                                rw (w, y, d)
                                  (emit-Decided _ (refl, refl) (grown h w (ground arith) d) live)
                          ]
                ]
              ]

      hysteresis-Decided : Decided ff kbps c cand (hysteresis fp cfg now cand (base g l))
      unfolding hysteresis
      hysteresis-Decided = elim (Bool-cases (ltb_ℤ cand.k c.current.k)) [
        | inl d ↦ rw d (down-Decided (ground arith))
        | inr d ↦ elim (Bool-cases (eqb_ℤ cand.k c.current.k)) [
          | inl e ↦ rw (d, e) (same-Decided (eqb_true cand.k c.current.k e))
          | inr e ↦ rw (d, e) (up-Decided (ground arith))
        ]
      ]

      feed_forward-Decided :
          Why ff kbps c cand → Decided ff kbps c cand (feed_forward fp cfg now cand (base g l))
      unfolding feed_forward
      feed_forward-Decided w =
          elim (Bool-cases (
            c.ff_last_commit_us == 0
            || micros fp cfg.ff_cooldown_s == 0
            || leb (micros fp cfg.ff_cooldown_s) (sub64 now c.ff_last_commit_us))) [
              | inl h ↦ rw h (emit-Decided _ (refl, refl) w live)
              | inr h ↦ rw h (keep-Decided _ (refl, refl))
            ]

    module _ (g : Bool) (l : ℤ) where
      after_grace :
          in_startup_grace fp cfg now c ≡ false
          → in_settle_grace fp cfg now c ≡ false
          → Decided ff kbps c cand (
              if c.was_in_grace
              then (if eqb_ℤ cand.k c.current.k && eqb_ℤ cand.n c.current.n
                  then keep fp cfg now (base g l)
                  else emit fp cfg now cand (base g l))
              else hysteresis fp cfg now cand (base g l))
      after_grace s t = elim (Bool-cases c.was_in_grace) [
        | inr w ↦ simp w (hysteresis-Decided g l s)
        | inl w ↦ elim (Bool-cases (eqb_ℤ cand.k c.current.k && eqb_ℤ cand.n c.current.n)) [
          | inl e ↦ rw e (simp w (keep-Decided _ (refl, refl)))
          | inr e ↦ rw e (
              simp w (
                emit-Decided _ (refl, refl)
                  (settled w t (differs cand.k c.current.k cand.n c.current.n e)) s))
        ]
      ]

      after_feed :
          in_startup_grace fp cfg now c ≡ false
          → Decided ff kbps c cand (
              if in_settle_grace fp cfg now c
              then keep fp cfg now (base g l)
              else if c.was_in_grace && not (in_settle_grace fp cfg now c)
              then (if eqb_ℤ cand.k c.current.k && eqb_ℤ cand.n c.current.n
                  then keep fp cfg now (base g l)
                  else emit fp cfg now cand (base g l))
              else hysteresis fp cfg now cand (base g l))
      after_feed s = elim (Bool-cases (in_settle_grace fp cfg now c)) [
        | inl t ↦ rw t (keep-Decided _ (refl, refl))
        | inr t ↦ rw t (rw (and_true c.was_in_grace) (after_grace s t))
      ]

      decide-Decided :
          Decided ff kbps c cand (decide fp cfg now ff (flags fp cfg now kbps c) cand (base g l))
      unfolding decide flags
      decide-Decided = elim (Bool-cases (in_startup_grace fp cfg now c)) [
        | inl s ↦ rw (s, and_false ff) (keep-Decided _ (refl, refl))
        | inr s ↦
            elim (Bool-cases
              (ff && not (eqb_ℤ cand.k c.current.k) && op_point_moved fp cfg now kbps c)) [
                | inl m ↦ rw (s, and_true ff, m) (feed_forward-Decided g l s (moved_reason m))
                | inr m ↦ rw (s, and_true ff, m) (after_feed s)
              ]
      ]

    first-Decided :
        c.have_current ≡ false
        → Decided ff kbps c cand (
            if in_startup_grace fp cfg now c || in_settle_grace fp cfg now c
            then keep fp cfg now (record c { was_in_grace = in_settle_grace fp cfg now c })
            else emit fp cfg now cand
                (record c { was_in_grace = in_settle_grace fp cfg now c; have_current = true }))
    first-Decided h = elim (Bool-cases (in_startup_grace fp cfg now c)) [
      | inl s ↦ rw s (keep-Decided _ (refl, refl))
      | inr s ↦ elim (Bool-cases (in_settle_grace fp cfg now c)) [
        | inl t ↦ rw (s, t) (keep-Decided _ (refl, refl))
        | inr t ↦ rw (s, t) (emit-Decided _ (refl, refl) (first h t) s)
      ]
    ]

    split_first :
        (h : Bool)
        → c.have_current ≡ h
        → (a b : Updated fp) → Decided ff kbps c cand a
        → (c.have_current ≡ false → Decided ff kbps c cand b)
        → Decided ff kbps c cand (if h then a else b)
    split_first true e a b x y = x
    split_first false e a b x y = y e

    -- Every update is decided in one of the two ways, with its reason.
    pub gate-Decided : Decided ff kbps c cand (gate fp cfg now kbps ff cand c)
    unfolding gate flags
    gate-Decided = split_first c.have_current refl _ _ (decide-Decided _ _) first-Decided
