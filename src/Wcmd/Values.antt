-- ===== src/Wcmd/Values.antt =====
-- The values that commands carry: their clamps, the pair of FEC sizes, and the answer to a copy.
use waybeam_wfb_ng.Base.{
  ℕ, ◌≡◌, ◌≢◌, refl, sym, Bool, true, false, not, ◌&&◌, ◌||◌, Bool-cases, ◌⊎◌, inl, inr, Option,
  none, some, List, [], ◌∷◌, ◌==◌, ltb, arith, if◌then◌else◌,
}
use waybeam_wfb_ng.Base.Int.{ℤ, pos, ◌≤ℤ◌, ◌<ℤ◌, ltb_ℤ, leb_ℤ, eqb_ℤ}
use waybeam_wfb_ng.Wcmd.Types.{
  WcmdReq, ok, CmdConfig, Window, Action, set_fec, World, WcmdState, wcmd_num_keys, allows,
}
use waybeam_wfb_ng.Wcmd.Clamp.{clamp_window, clamp_to, wcmd_clamp_value}
use waybeam_wfb_ng.Wcmd.Apply.{reply, accept, fail, to_u16, apply_fec}
use waybeam_wfb_ng.Wcmd.Dispatch.{
  receive, is_copy, on_copy, on_allowed, on_key, on_received, wcmd_dispatch,
}

none≢some {ℓ} : {A : Type ℓ} {x : A} → none ≢ some x
none≢some e = cc

some_inj {ℓ} : {A : Type ℓ} {x y : A} → some x ≡ some y → x ≡ y
some_inj e = cc

key_false : (a b : ℕ) → a ≢ b → (a == b) ≡ false
key_false a b h = ground arith

le_of : (k n : ℤ) → ltb_ℤ n k ≡ false → k ≤ℤ n
le_of k n h = ground arith

within :
    (v : ℤ) (w : Window) {v' : ℤ}
    → clamp_to v (some w) ≡ some v'
    → (w.lo ≤ℤ v')
      × (v' ≤ℤ w.hi)
      × ((v' ≡ v) ⊎ ((v <ℤ w.lo) × (v' ≡ w.lo)) ⊎ ((w.hi <ℤ v) × (v' ≡ w.hi)))
unfolding clamp_to
within v w h = elim (Bool-cases (leb_ℤ w.hi (pos 0) || ltb_ℤ w.hi w.lo)) [
  | inl b ↦ absurd (none≢some (rw b at h))
  | inr b ↦ elim (Bool-cases (ltb_ℤ v w.lo)) [
    | inl l ↦
        rw (sym (some_inj (rw (b, l) at h)))
          (omega arith, ground arith, inr (inl (ground arith, refl)))
    | inr l ↦ elim (Bool-cases (ltb_ℤ w.hi v)) [
      | inl g ↦
          rw (sym (some_inj (rw (b, l, g) at h)))
            (ground arith, omega arith, inr (inr (ground arith, refl)))
      | inr g ↦ rw (sym (some_inj (rw (b, l, g) at h))) (ground arith, ground arith, inl refl)
    ]
  ]
]

-- A clamped value is inside the window of its key, and is the requested value unless that one lies
-- outside the window, when it is the nearer end. The forced IDR, key 4, has no window.
pub clamp_value_bounds :
    (cfg : CmdConfig) (fec_enabled : Bool) (key : ℕ) (v : ℤ) {w : Window} {v' : ℤ}
    → key ≢ 4
    → clamp_window cfg fec_enabled key ≡ some w
    → wcmd_clamp_value cfg fec_enabled key v ≡ some v'
    → (w.lo ≤ℤ v')
      × (v' ≤ℤ w.hi)
      × ((v' ≡ v) ⊎ ((v <ℤ w.lo) × (v' ≡ w.lo)) ⊎ ((w.hi <ℤ v) × (v' ≡ w.hi)))
unfolding wcmd_clamp_value
clamp_value_bounds cfg fec_enabled key v {w} {v'} k s h =
    within v w (rw (key_false key 4 k, s) at h)

-- Whether a list of actions sets the FEC sizes only to pairs with k at most n.
abbrev pub AllOrdered : List Action → Type 0
AllOrdered [] = Unit {0}
AllOrdered (set_fec k n ∷ rest) = (k ≤ℤ n) × AllOrdered rest
AllOrdered (_ ∷ rest) = AllOrdered rest

-- A command for one FEC size never sends wfb_tx a pair with k above n, whatever pair wfb_tx reports.
pub apply_fec-AllOrdered :
    (req : WcmdReq) (now : ℕ) (cfg : CmdConfig) (world : World) (value : ℤ)
    (fec_now : Option (ℤ × ℤ)) (s : WcmdState)
    → AllOrdered (apply_fec req now cfg world value fec_now s).actions
unfolding apply_fec accept fail reply
apply_fec-AllOrdered req now cfg world value none s = tt
apply_fec-AllOrdered req now cfg world value (some (k_now, n_now)) s =
    let k : ℤ = if req.key == 5 then value else k_now in
    let n : ℤ = if req.key == 6 then value else n_now in
    elim (Bool-cases (ltb_ℤ n k)) [
      | inl h ↦ rw h tt
      | inr h ↦ elim (Bool-cases (eqb_ℤ (world.fec_rc k n) (pos 0))) [
        | inl r ↦ rw (h, r) (le_of k n h, tt)
        | inr r ↦ rw (h, r) (le_of k n h, tt)
      ]
    ]

-- The answer to a copy of an operator command reports the value as it was requested, not as it was
-- clamped and applied, and the HTTP status 0: both fields are reset before they are read.
pub copy_reply_raw :
    (cfg : CmdConfig) (world : World) (from_loopback : Bool) (req : WcmdReq) (now : ℕ)
    (s : WcmdState)
    → cfg.enabled ≡ true
    → (cfg.loopback_only && not from_loopback) ≡ false
    → (req.key == 0 || ltb wcmd_num_keys req.key) ≡ false
    → (req.key == 18) ≡ false
    → (req.key == 19) ≡ false
    → allows cfg req.key ≡ true
    → is_copy cfg world from_loopback req now s ≡ true
    → (wcmd_dispatch cfg world from_loopback req now s).resp
      ≡ record { status = ok; http_status = 0; applied_value = req.value }
unfolding wcmd_dispatch receive on_received on_key on_allowed on_copy is_copy reply to_u16
copy_reply_raw cfg world from_loopback req now s e p k a b m h = simp (e, p, k, a, b, m, h) refl
