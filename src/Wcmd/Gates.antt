-- ===== src/Wcmd/Gates.antt =====
-- What a command must pass before it acts.
use waybeam_wfb_ng.Base.{
  ℕ, ◌≡◌, refl, Bool, true, false, not, ◌&&◌, ◌||◌, Bool-cases, inl, inr, Option, none, some, [],
  ◌==◌, ltb,
}
use waybeam_wfb_ng.Base.Int.{ℤ}
use waybeam_wfb_ng.Wcmd.Types.{WcmdReq, CmdConfig, World, WcmdState, wcmd_num_keys, allows}
use waybeam_wfb_ng.Wcmd.Apply.{Dispatched, reply, count_range}
use waybeam_wfb_ng.Wcmd.Dispatch.{
  receive, is_copy, count_disabled, count_coalesced, on_copy, on_log_sync, on_log_control,
  rate_limited_now, on_clamped, on_allowed, on_key, on_received, wcmd_dispatch,
}

-- A dispatch that acts on nothing: no action, and the switches and the marks of every key stay.
pub record IsIdle (s : WcmdState) (d : Dispatched) : Type 0 where
  pub no_action : d.actions ≡ []
  pub same_fec : d.state.fec_enabled ≡ s.fec_enabled
  pub same_mcs : d.state.mcs_enabled ≡ s.mcs_enabled
  pub same_apply : d.state.last_apply_us ≡ s.last_apply_us
  pub same_seq : d.state.last_seq ≡ s.last_seq
  pub same_seq_us : d.state.last_seq_us ≡ s.last_seq_us

unmoved :
    {s : WcmdState} {d : Dispatched}
    → d.actions ≡ []
    → d.state.fec_enabled ≡ s.fec_enabled
    → d.state.mcs_enabled ≡ s.mcs_enabled
    → d.state.last_apply_us ≡ s.last_apply_us
    → d.state.last_seq ≡ s.last_seq
    → d.state.last_seq_us ≡ s.last_seq_us
    → IsIdle s d
unmoved a b c d e f = record {
  no_action = a;
  same_fec = b;
  same_mcs = c;
  same_apply = d;
  same_seq = e;
  same_seq_us = f;
}

masked_parts :
    (a b m : Bool) → (not a && not b && not m) ≡ true → (a ≡ false) × (b ≡ false) × (m ≡ false)
masked_parts false false false h = (refl, refl, refl)
masked_parts true b m h = cc
masked_parts false true m h = cc
masked_parts false false true h = cc

last_part :
    (e p k m : Bool) → e ≡ true → p ≡ false → k ≡ false → (not e || p || k || m) ≡ true → m ≡ true
last_part true false false m a b c h = h
last_part false p k m a b c h = cc
last_part true true k m a b c h = cc
last_part true false true m a b c h = cc

module _ (cfg : CmdConfig) (world : World) (from_loopback : Bool) (req : WcmdReq) (now : ℕ)
    (s : WcmdState) where
  -- The command is one that the operator's mask gates, and its bit is clear.
  abbrev pub is_masked : Bool
  is_masked = not (req.key == 18) && not (req.key == 19) && not (allows cfg req.key)

  -- With the channel off, for a peer that is not allowed, for a key outside 1 to 20 and for an
  -- operator key whose mask bit is clear, a request does nothing: no action, no switch, no mark.
  pub closed_gate-IsIdle :
      (not cfg.enabled
          || (cfg.loopback_only && not from_loopback)
          || (req.key == 0 || ltb wcmd_num_keys req.key)
          || is_masked)
        ≡ true
      → IsIdle s (wcmd_dispatch cfg world from_loopback req now s)
  unfolding wcmd_dispatch receive on_received on_key reply count_disabled
  closed_gate-IsIdle h = elim (Bool-cases cfg.enabled) [
    | inr e ↦ simp e (unmoved refl refl refl refl refl refl)
    | inl e ↦ elim (Bool-cases (cfg.loopback_only && not from_loopback)) [
      | inl p ↦ simp (e, p) (unmoved refl refl refl refl refl refl)
      | inr p ↦ elim (Bool-cases (req.key == 0 || ltb wcmd_num_keys req.key)) [
        | inl k ↦ simp (e, p, k) (unmoved refl refl refl refl refl refl)
        | inr k ↦
            let (a, b, m) =
              masked_parts (req.key == 18) (req.key == 19) (allows cfg req.key)
                (last_part _ _ _ _ e p k h) in
            simp (e, p, k, a, b, m) (unmoved refl refl refl refl refl refl)
      ]
    ]
  ]

  -- A copy of a command that was applied less than half a second ago does nothing: no action, no
  -- switch, no mark, whatever its key and the gates are.
  pub copy-IsIdle :
      is_copy cfg world from_loopback req now s ≡ true
      → IsIdle s (wcmd_dispatch cfg world from_loopback req now s)
  unfolding wcmd_dispatch receive on_received on_key on_allowed on_log_sync on_log_control on_copy
      is_copy reply count_disabled count_coalesced
  copy-IsIdle h = elim (Bool-cases cfg.enabled) [
    | inr e ↦ simp e (unmoved refl refl refl refl refl refl)
    | inl e ↦ elim (Bool-cases (cfg.loopback_only && not from_loopback)) [
      | inl p ↦ simp (e, p) (unmoved refl refl refl refl refl refl)
      | inr p ↦ elim (Bool-cases (req.key == 0 || ltb wcmd_num_keys req.key)) [
        | inl k ↦ simp (e, p, k) (unmoved refl refl refl refl refl refl)
        | inr k ↦ elim (Bool-cases (req.key == 18)) [
          | inl a ↦ simp (e, p, k, a, h) (unmoved refl refl refl refl refl refl)
          | inr a ↦ elim (Bool-cases (req.key == 19)) [
            | inl b ↦ simp (e, p, k, a, b, h) (unmoved refl refl refl refl refl refl)
            | inr b ↦ elim (Bool-cases (allows cfg req.key)) [
              | inl m ↦ simp (e, p, k, a, b, m, h) (unmoved refl refl refl refl refl refl)
              | inr m ↦ simp (e, p, k, a, b, m) (unmoved refl refl refl refl refl refl)
            ]
          ]
        ]
      ]
    ]
  ]

  clamped-IsIdle :
      (o : Option ℤ)
      → rate_limited_now cfg world from_loopback req now s ≡ true
      → IsIdle s
          (on_clamped cfg world from_loopback req now o (receive cfg world from_loopback req now s))
  unfolding on_clamped rate_limited_now receive reply count_range
  clamped-IsIdle none h = unmoved refl refl refl refl refl refl
  clamped-IsIdle (some v) h = simp h (unmoved refl refl refl refl refl refl)

  allowed-IsIdle :
      rate_limited_now cfg world from_loopback req now s ≡ true
      → (req.key == 20) ≡ false
      → IsIdle s
          (on_allowed cfg world from_loopback req now (receive cfg world from_loopback req now s))
  unfolding on_allowed on_copy receive reply count_coalesced count_disabled
  allowed-IsIdle h c =
      elim (Bool-cases
        (is_copy cfg world from_loopback req now (receive cfg world from_loopback req now s))) [
          | inl k ↦ simp k (unmoved refl refl refl refl refl refl)
          | inr k ↦ elim (Bool-cases (req.key == 14 && cfg.tx_pwr_by_rate)) [
            | inl t ↦ simp (k, c, t) (unmoved refl refl refl refl refl refl)
            | inr t ↦ simp (k, c, t) (clamped-IsIdle _ h)
          ]
        ]

  -- Within the rate limit of its key, an operator command other than the return to the recovery
  -- image does nothing: no action, no switch, no mark.
  pub rate_limited-IsIdle :
      rate_limited_now cfg world from_loopback req now s ≡ true
      → (req.key == 18) ≡ false
      → (req.key == 19) ≡ false
      → (req.key == 20) ≡ false
      → IsIdle s (wcmd_dispatch cfg world from_loopback req now s)
  unfolding wcmd_dispatch on_received on_key reply count_disabled receive
  rate_limited-IsIdle h a b c = elim (Bool-cases cfg.enabled) [
    | inr e ↦ simp e (unmoved refl refl refl refl refl refl)
    | inl e ↦ elim (Bool-cases (cfg.loopback_only && not from_loopback)) [
      | inl p ↦ simp (e, p) (unmoved refl refl refl refl refl refl)
      | inr p ↦ elim (Bool-cases (req.key == 0 || ltb wcmd_num_keys req.key)) [
        | inl k ↦ simp (e, p, k) (unmoved refl refl refl refl refl refl)
        | inr k ↦ elim (Bool-cases (allows cfg req.key)) [
          | inl m ↦ simp (e, p, k, a, b, m) (allowed-IsIdle h c)
          | inr m ↦ simp (e, p, k, a, b, m) (unmoved refl refl refl refl refl refl)
        ]
      ]
    ]
  ]
