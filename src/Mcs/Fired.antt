-- ===== src/Mcs/Fired.antt =====
-- Which rule of `selector_update` decided, with the tests that it passed.
use waybeam_wfb_ng.Base.{
  ℕ, ◌≡◌, Bool, true, false, ◌&&◌, ◌||◌, inl, inr, Bool-cases, get_or, if◌then◌else◌,
}
use waybeam_wfb_ng.Base.Int.{ℤ, pos, pos_part, ◌+ℤ◌, ltb_ℤ, leb_ℤ}
use waybeam_wfb_ng.Base.Word.{inc32}
use waybeam_wfb_ng.Base.Floating.{Floating}
use waybeam_wfb_ng.Mcs.Types.{
  Selector, Outcome, McsConfig, Score, ProbeRung, ProbeState, probe_mcs_max, no_record,
}
use waybeam_wfb_ng.Mcs.Law.{
  hold, can_demote, step_down, step_up, freeze_blocks, need_dwell, seconds_since, fade_sample,
  near_floor, loss_spike, escape_fires, promote_rule, is_usable, rung_rule, probe_rule, rules,
}

abbrev pub boundary : Selector → ℤ
boundary s = s.current_mcs +ℤ pos 2

abbrev pub boundary_rung : ProbeState → Selector → ProbeRung
boundary_rung probe s = get_or probe.rung (pos_part (boundary s)) no_record

module _ (fp : Floating) (cfg : McsConfig fp) (score : Score fp) (now : ℕ) (probe : ProbeState)
    (in_pressure : Bool) where
  -- The boundary rung has a record that may be acted on.
  abbrev pub HasProbe : Selector → Type 0
  HasProbe s =
      (leb_ℤ (pos 0) (boundary s)
        && ltb_ℤ (boundary s) (pos probe_mcs_max)
        && is_usable fp cfg score now probe (boundary_rung probe s))
      ≡ true

  abbrev pub is_failing : Selector → Bool
  is_failing s =
      leb_ℤ cfg.probe_fail_milli (boundary_rung probe s).per_milli && leb_ℤ (boundary s) cfg.mcs_max

  -- The rung was held for as long as a promote asks.
  abbrev pub has_dwelt : Selector → Bool
  has_dwelt s = fp.single.le (need_dwell fp cfg now s) (seconds_since fp now s.last_change_us)

  pub data Fired (s : Selector) : Outcome → Type 0 where
    holds : Fired s (hold s)
    loss_demotes :
        (in_pressure && cfg.pressure_demote_block) ≡ false
        → loss_spike fp cfg score now ≡ true
        → can_demote fp cfg now s ≡ true
        → Fired s (step_down fp cfg now s)
    signal_demotes :
        (s.rssi_floor_active || s.rssi_fade_active) ≡ true
        → can_demote fp cfg now s ≡ true
        → Fired s (step_down fp cfg now s)
    escapes :
        escape_fires fp cfg score now in_pressure s ≡ true
        → Fired s (
            step_up fp cfg now (record s { pressure_escape_count = inc32 s.pressure_escape_count }))
    probe_demotes :
        HasProbe s
        → is_failing s ≡ true
        → (in_pressure && cfg.pressure_demote_block) ≡ false
        → can_demote fp cfg now s ≡ true
        → Fired s (step_down fp cfg now s)
    probe_promotes :
        HasProbe s
        → is_failing s ≡ false
        → leb_ℤ (boundary_rung probe s).per_milli cfg.probe_clean_milli ≡ true
        → (fade_sample fp cfg score now
            || near_floor fp cfg score now
            || freeze_blocks fp cfg now s)
          ≡ false
        → ltb_ℤ s.current_mcs cfg.mcs_max ≡ true
        → has_dwelt s ≡ true
        → Fired s (step_up fp cfg now s)

  promote_rule-Fired :
      (s : Selector)
      → HasProbe s
      → is_failing s ≡ false
      → leb_ℤ (boundary_rung probe s).per_milli cfg.probe_clean_milli ≡ true
      → Fired s (promote_rule fp cfg score now s)
  unfolding promote_rule
  promote_rule-Fired s p f c =
      elim (Bool-cases (
        fade_sample fp cfg score now
        || near_floor fp cfg score now
        || freeze_blocks fp cfg now s)) [
          | inl g ↦ rw g holds
          | inr g ↦ elim (Bool-cases (ltb_ℤ s.current_mcs cfg.mcs_max)) [
            | inl m ↦ elim (Bool-cases (has_dwelt s)) [
              | inl w ↦ rw (g, m, w) (probe_promotes p f c g m w)
              | inr w ↦ rw (g, m, w) holds
            ]
            | inr m ↦ rw (g, m) holds
          ]
        ]

  rung_rule-Fired :
      (s : Selector)
      → HasProbe s
      → Fired s (
          rung_rule fp cfg score now
            (in_pressure && cfg.pressure_demote_block)
            (boundary_rung probe s)
            (boundary s)
            s)
  unfolding rung_rule
  rung_rule-Fired s p = elim (Bool-cases (is_failing s)) [
    | inl f ↦ elim (Bool-cases (in_pressure && cfg.pressure_demote_block)) [
      | inl b ↦ rw (f, b) holds
      | inr b ↦ elim (Bool-cases (can_demote fp cfg now s)) [
        | inl d ↦ rw (f, b, d) (probe_demotes p f b d)
        | inr d ↦ rw (f, b, d) holds
      ]
    ]
    | inr f ↦ elim (Bool-cases (leb_ℤ (boundary_rung probe s).per_milli cfg.probe_clean_milli)) [
      | inl c ↦ rw (f, c) (promote_rule-Fired s p f c)
      | inr c ↦ rw (f, c) holds
    ]
  ]

  probe_rule-Fired :
      (s : Selector)
      → Fired s (probe_rule fp cfg score now probe (in_pressure && cfg.pressure_demote_block) s)
  unfolding probe_rule
  probe_rule-Fired s =
      elim (Bool-cases (
        leb_ℤ (pos 0) (boundary s)
        && ltb_ℤ (boundary s) (pos probe_mcs_max)
        && is_usable fp cfg score now probe (boundary_rung probe s))) [
          | inl p ↦ rw p (rung_rule-Fired s p)
          | inr p ↦ rw p holds
        ]

  after_signal :
      (s : Selector)
      → Fired s (
          if escape_fires fp cfg score now in_pressure s
          then step_up fp cfg now
              (record s { pressure_escape_count = inc32 s.pressure_escape_count })
          else probe_rule fp cfg score now probe (in_pressure && cfg.pressure_demote_block) s)
  after_signal s = elim (Bool-cases (escape_fires fp cfg score now in_pressure s)) [
    | inl e ↦ rw e (escapes e)
    | inr e ↦ rw e (probe_rule-Fired s)
  ]

  after_loss :
      (s : Selector) {b : Bool}
      → (in_pressure && cfg.pressure_demote_block) ≡ b
      → Fired s (
          if (s.rssi_floor_active || s.rssi_fade_active) && can_demote fp cfg now s
          then step_down fp cfg now s
          else if escape_fires fp cfg score now in_pressure s
          then step_up fp cfg now
              (record s { pressure_escape_count = inc32 s.pressure_escape_count })
          else probe_rule fp cfg score now probe b s)
  after_loss s e = rw (← e) (elim (Bool-cases (s.rssi_floor_active || s.rssi_fade_active)) [
    | inl g ↦ elim (Bool-cases (can_demote fp cfg now s)) [
      | inl d ↦ rw (g, d) (signal_demotes g d)
      | inr d ↦ rw (g, d) (after_signal s)
    ]
    | inr g ↦ rw g (after_signal s)
  ])

  -- Every call decides by one of the rules, whose tests it has passed, or holds the rung.
  pub rules-Fired : (s : Selector) → Fired s (rules fp cfg score now probe in_pressure s)
  unfolding rules
  rules-Fired s = elim (Bool-cases (in_pressure && cfg.pressure_demote_block)) [
    | inl b ↦ rw b (after_loss s b)
    | inr b ↦ elim (Bool-cases (loss_spike fp cfg score now)) [
      | inl l ↦ elim (Bool-cases (can_demote fp cfg now s)) [
        | inl d ↦ rw (b, l, d) (loss_demotes b l d)
        | inr d ↦ rw (b, l, d) holds
      ]
      | inr l ↦ rw (b, l) (after_loss s b)
    ]
  ]
