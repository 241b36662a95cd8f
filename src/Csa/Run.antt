-- ===== src/Csa/Run.antt =====
-- The receiver driven by its callers: a sequence of timed datagrams, heartbeats and ticks.
use waybeam_wfb_ng.Base.{
  ℕ, ◌≡◌, inl, inr, true, false, ◌&&◌, ◌||◌, Bool-cases, Option, none, some, List, [], ◌∷◌, ◌++◌,
  map, arith,
}
use waybeam_wfb_ng.Base.Int.{ℤ, ltb_ℤ, eqb_ℤ}
use waybeam_wfb_ng.Base.Text.{codes, has_prefix}
use waybeam_wfb_ng.Csa.Json.{get_str}
use waybeam_wfb_ng.Csa.Machine.{
  CsaPhase, verify, CsaCfg, CsaState, Hop, Commit, parse_commit, target_ok, to_idle, cooling, arm,
  on_parsed, on_frame, on_commit, feed_type, csa_feed, csa_link_alive, csa_tick, is_idle, is_verify,
}

pub data Event : Type 0 where
  datagram : List ℕ → Event
  heartbeat : Event
  tick : Event

-- The state after an event, and the hops that it made, each with the phase that it left.
unfoldable pub handle : CsaCfg → ℤ → Event → CsaState → CsaState × List (CsaPhase × Hop)
handle cfg now (datagram buf) s = ((csa_feed cfg buf now s).0, [])
handle cfg now heartbeat s = ((csa_link_alive s).0, [])
handle cfg now tick s = let t = csa_tick cfg now s in (t.state, map (λ h. (s.st, h)) t.hops)

unfoldable pub run : CsaCfg → List (ℤ × Event) → CsaState → CsaState × List (CsaPhase × Hop)
run cfg [] s = (s, [])
run cfg ((now, e) ∷ es) s =
    let (s', hops) = handle cfg now e s in let (s'', more) = run cfg es s' in (s'', hops ++ more)

-- A datagram changes nothing, ends the verification, or arms a new session.
pub data Heard (cfg : CsaCfg) (now : ℤ) (s : CsaState) : CsaState → Type 0 where
  ignored : Heard cfg now s s
  confirmed : s.st ≡ verify → Heard cfg now s (to_idle s)
  announced :
      (c : Commit)
      → target_ok cfg c ≡ true
      → (is_idle s.st || ltb_ℤ s.sess c.sess) ≡ true
      → cooling cfg now s ≡ false
      → Heard cfg now s (arm c now s)

module _ (cfg : CsaCfg) (now : ℤ) (s : CsaState) where
  verifying : is_verify s.st ≡ true → s.st ≡ verify
  verifying h = ground arith

  on_parsed-Heard : (c : Commit) → Heard cfg now s (on_parsed cfg c now s)
  unfolding on_parsed
  on_parsed-Heard c = elim (Bool-cases (target_ok cfg c)) [
    | inr t ↦ rw t ignored
    | inl t ↦ elim (Bool-cases (is_verify s.st && eqb_ℤ c.sess s.sess)) [
      | inl v ↦ rw (t, v) (confirmed (verifying (ground arith)))
      | inr v ↦ elim (Bool-cases (is_idle s.st || ltb_ℤ s.sess c.sess)) [
        | inr n ↦ rw (t, v, n) ignored
        | inl n ↦ elim (Bool-cases (cooling cfg now s)) [
          | inl k ↦ rw (t, v, n, k) ignored
          | inr k ↦ rw (t, v, n, k) (announced c t n k)
        ]
      ]
    ]
  ]

  on_frame-Heard : (f : Option Commit) → Heard cfg now s (on_frame cfg f now s)
  unfolding on_frame
  on_frame-Heard none = ignored
  on_frame-Heard (some c) = on_parsed-Heard c

  feed_type-Heard :
      (buf : List ℕ) (type : Option (List ℕ)) → Heard cfg now s (feed_type cfg buf now s type).0
  unfolding feed_type on_commit
  feed_type-Heard buf none = ignored
  feed_type-Heard buf (some type) = elim (Bool-cases (has_prefix (codes "csa_") type)) [
    | inr p ↦ rw p ignored
    | inl p ↦ elim (Bool-cases (has_prefix (codes "csa_commit") type)) [
      | inl q ↦ rw (p, q) (on_frame-Heard (parse_commit buf))
      | inr q ↦ rw (p, q) ignored
    ]
  ]

  -- Whatever the bytes of a datagram, it is ignored, confirms the switch that is being verified, or
  -- arms a session that passed the range check, the allowlists and the cooldown, and is new unless
  -- the receiver was idle.
  pub csa_feed-Heard : (buf : List ℕ) → Heard cfg now s (csa_feed cfg buf now s).0
  unfolding csa_feed
  csa_feed-Heard buf = feed_type-Heard buf (get_str buf (codes "type") 32)
