-- ===== src/Ground/Meet.antt =====
-- The two ends of a channel switch together: what the ground station announces is what the vehicle
-- arms.
use waybeam_wfb_ng.Base.{
  ℕ, ◌+◌, ◌-◌, ◌*◌, ◌/◌, ◌≤◌, ◌<◌, ◌≡◌, ap, ◌∙◌, Bool, true, false, ◌||◌, List, length, ltb, inl,
  inr, arith, lt→ltb, Bool-cases, if_cases,
}
use waybeam_wfb_ng.Base.Int.{ℤ, pos, negsuc, ◌+ℤ◌, ◌≤ℤ◌, ltb_ℤ}
use waybeam_wfb_ng.Base.Word.{add64, sub64, inc32, u64_mod}
use waybeam_wfb_ng.Base.Text.{codes, bytes_eq, bytes_eq-eq}
use waybeam_wfb_ng.Csa.Machine.{
  armed, is_idle, is_verify, CsaPhase, chan_ok, bw_ok, target_ok, cooling, has_bw, to_int32, Commit,
  CsaCfg, arm, on_parsed, csa_feed, CsaState as VehicleState,
}
use waybeam_wfb_ng.Csa.Vetted.{to_int32_small}
use waybeam_wfb_ng.Ground.Decimal.{IsInt32, AllNot, to_int32_int}
use waybeam_wfb_ng.Ground.Types.{Config}
use waybeam_wfb_ng.Ground.Frame.{Announcement, IsPlain, commit_text}
use waybeam_wfb_ng.Ground.Roundtrip.{csa_feed-commit_text}
use waybeam_wfb_ng.Ground.Hop.{CsaState, announcement}
use waybeam_wfb_ng.Ground.Start.{ht_names, Request, start}
use waybeam_wfb_ng.Ground.Granted.{IsGranted, to_int32-IsInt32}

last_of_three : (a b c : Bool) → a ≡ false → b ≡ false → a || (b || (c || false)) ≡ true → c ≡ true
last_of_three a b c h k e = ground arith

-- A bandwidth that a frame can carry in front of its other fields.
record IsCarried (ht : List ℕ) : Type 0 where
  short : length ht ≤ 7
  no_quote : AllNot b'"' ht
  no_d : AllNot b'd' ht
  no_t : AllNot b't' ht
  no_p : AllNot b'p' ht

ht20-IsCarried : IsCarried (codes "HT20")
ht20-IsCarried = record {
  short = omega arith;
  no_quote = ground arith;
  no_d = ground arith;
  no_t = ground arith;
  no_p = ground arith;
}

ht40_plus-IsCarried : IsCarried (codes "HT40+")
ht40_plus-IsCarried = record {
  short = omega arith;
  no_quote = ground arith;
  no_d = ground arith;
  no_t = ground arith;
  no_p = ground arith;
}

ht40_minus-IsCarried : IsCarried (codes "HT40-")
ht40_minus-IsCarried = record {
  short = omega arith;
  no_quote = ground arith;
  no_d = ground arith;
  no_t = ground arith;
  no_p = ground arith;
}

last_name :
    (ht : List ℕ)
    → bytes_eq (codes "HT20") ht ≡ false
    → bytes_eq (codes "HT40+") ht ≡ false
    → has_bw ht ht_names ≡ true
    → bytes_eq (codes "HT40-") ht ≡ true
unfolding has_bw
last_name ht a b h =
    last_of_three (bytes_eq (codes "HT20") ht) (bytes_eq (codes "HT40+") ht)
      (bytes_eq (codes "HT40-") ht) a b h

in_range-IsInt32 : (v : ℤ) → pos 1 ≤ℤ v → v ≤ℤ pos 200 → IsInt32 v
in_range-IsInt32 (pos n) l u = omega arith
in_range-IsInt32 (negsuc n) l u = absurd (omega arith)

in_range : (v : ℤ) → pos 1 ≤ℤ v → v ≤ℤ pos 200 → (ltb_ℤ v (pos 1) || ltb_ℤ (pos 200) v) ≡ false
in_range v l u = ground arith

named-IsCarried : (ht : List ℕ) → has_bw ht ht_names ≡ true → IsCarried ht
named-IsCarried ht h = elim (Bool-cases (bytes_eq (codes "HT20") ht)) [
  | inl e ↦ rw (← bytes_eq-eq (codes "HT20") ht e) ht20-IsCarried
  | inr e ↦ elim (Bool-cases (bytes_eq (codes "HT40+") ht)) [
    | inl f ↦ rw (← bytes_eq-eq (codes "HT40+") ht f) ht40_plus-IsCarried
    | inr f ↦ rw (← bytes_eq-eq (codes "HT40-") ht (last_name ht e f h)) ht40_minus-IsCarried
  ]
]

module _ (c : Config) (r : Request) (granted : IsGranted c r) (now t_us : ℕ) (g : CsaState) where
  -- A session's frames are plain, whenever they leave, if the way back names no bandwidth with a quote.
  announcement-IsPlain : AllNot b'"' r.prev_ht → IsPlain (announcement (start r t_us g) now)
  unfolding announcement start inc32
  announcement-IsPlain q =
      let t_switch = add64 t_us (r.lead_ms * 1_000) in
      let dt_fits : IsInt32 (announcement (start r t_us g) now).dt_ms =
        if_cases IsInt32 (ltb now t_switch) (λ _. to_int32-IsInt32 (pos ((t_switch - now) / 1000)))
          (λ _. omega arith) in
      record {
        sess_fits = omega arith;
        target_fits = in_range-IsInt32 r.chan granted.from_1 granted.to_200;
        dt_fits = dt_fits;
        revert_fits =
            to_int32-IsInt32
              (pos (sub64 (start r t_us g).t_revert_us (start r t_us g).t_switch_us / 1000));
        prev_fits = granted.prev_fits;
        target_short = (named-IsCarried r.ht granted.ht_named).short;
        prev_short = omega (arith, granted.prev_short);
        target_no_quote = (named-IsCarried r.ht granted.ht_named).no_quote;
        target_no_d = (named-IsCarried r.ht granted.ht_named).no_d;
        target_no_t = (named-IsCarried r.ht granted.ht_named).no_t;
        target_no_p = (named-IsCarried r.ht granted.ht_named).no_p;
        prev_no_quote = q;
      }

  -- What the vehicle hears of such a frame.
  abbrev heard : Announcement → Commit
  heard a = record {
    sess = pos a.sess;
    dt = a.dt_ms;
    t_revert = a.t_revert_ms;
    target_chan = a.target_chan;
    prev_chan = a.prev_chan;
    target_ht = a.target_ht;
    prev_ht = a.prev_ht;
  }

  add64-lead :
      t_us + 35_000_000 < u64_mod → add64 t_us (r.lead_ms * 1_000) ≡ t_us + r.lead_ms * 1_000
  unfolding add64
  add64-lead w = omega (arith, granted.lead)

  revert_span :
      t_us + 35_000_000 < u64_mod
      → sub64 (start r t_us g).t_revert_us (start r t_us g).t_switch_us / 1_000 ≡ r.t_revert_ms
  unfolding start sub64 add64
  revert_span w = omega (arith, granted.lead, granted.verify)

  -- The delay in the frame, and its duration of the verification.
  dt_left :
      t_us ≤ now
      → now < t_us + r.lead_ms * 1_000
      → t_us + 35_000_000 < u64_mod
      → (announcement (start r t_us g) now).dt_ms ≡ pos ((t_us + r.lead_ms * 1_000 - now) / 1_000)
  unfolding announcement start
  dt_left past early w = rw (
    add64-lead w,
    lt→ltb now (t_us + r.lead_ms * 1_000) early,
    to_int32_int (pos ((t_us + r.lead_ms * 1_000 - now) / 1_000)) (omega (arith, granted.lead)),
  )

  revert_left :
      t_us + 35_000_000 < u64_mod
      → (announcement (start r t_us g) now).t_revert_ms ≡ pos r.t_revert_ms
  unfolding announcement start
  revert_left w =
      ap (λ v. to_int32 (pos v)) (revert_span w)
      ∙ to_int32_int (pos r.t_revert_ms) (omega (arith, granted.verify))

  module _ (cfg : CsaCfg) (vnow : ℤ) (s : VehicleState) where
    idle_not_verify : (p : CsaPhase) → is_idle p ≡ true → is_verify p ≡ false
    idle_not_verify p h = ground arith

    idle_arms :
        (a : Commit)
        → is_idle s.st ≡ true
        → cooling cfg vnow s ≡ false
        → target_ok cfg a ≡ true
        → on_parsed cfg a vnow s ≡ arm a vnow s
    unfolding on_parsed
    idle_arms a i k t = rw (t, idle_not_verify s.st i, i, k)

    granted-target_ok :
        chan_ok cfg r.chan ≡ true
        → bw_ok cfg r.ht ≡ true
        → target_ok cfg (heard (announcement (start r t_us g) now)) ≡ true
    unfolding target_ok announcement start
    granted-target_ok k b = rw (
      in_range r.chan granted.from_1 granted.to_200,
      to_int32_small r.chan granted.from_1 granted.to_200,
      k,
      b,
    )

    -- The session of a granted request, announced by a frame that leaves before T_switch, to a
    -- vehicle that is idle, not cooling down, and configured to allow the channel and the
    -- bandwidth: the vehicle takes the frame as its own, arms the very channel and bandwidth of the
    -- request, for the time that was left to T_switch when the frame was sent, in whole
    -- milliseconds, and with the duration of verification that was asked for. The bandwidth of the
    -- way back holds no quote, and the clock does not wrap around.
    pub csa_feed-granted :
        AllNot b'"' r.prev_ht
        → is_idle s.st ≡ true
        → cooling cfg vnow s ≡ false
        → chan_ok cfg r.chan ≡ true
        → bw_ok cfg r.ht ≡ true
        → t_us ≤ now
        → now < t_us + r.lead_ms * 1_000
        → t_us + 35_000_000 < u64_mod
        → csa_feed cfg (commit_text (announcement (start r t_us g) now)) vnow s ≡ (
          record s {
            st = armed;
            sess = pos (inc32 g.sess);
            t_switch_ms = vnow +ℤ pos ((t_us + r.lead_ms * 1_000 - now) / 1_000);
            t_revert_ms = pos r.t_revert_ms;
            target_chan = r.chan;
            prev_chan = r.prev_chan;
            target_ht = r.ht;
            prev_ht = r.prev_ht;
          },
          true,
        )
    unfolding arm announcement start
    csa_feed-granted q i k ch bw past early w =
        csa_feed-commit_text (announcement (start r t_us g) now) (announcement-IsPlain q) cfg vnow s
        ∙ ap (λ z. (z, true))
            (idle_arms (heard (announcement (start r t_us g) now)) i k (granted-target_ok ch bw)
              ∙ rw (
                to_int32_small r.chan granted.from_1 granted.to_200,
                to_int32_int r.prev_chan granted.prev_fits,
                dt_left past early w,
                revert_left w,
              ))
