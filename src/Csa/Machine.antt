-- ===== src/Csa/Machine.antt =====
-- The state machine of vehicle/csa/csa.c. A function that writes through `CsaState *` returns the
-- new record; `csa_run_iw`, whose result the code ignores, is an entry in the list of channel
-- hops that a call makes. Logging is left out.
use waybeam_wfb_ng.Base.{
  ℕ, ◌+◌, ◌-◌, ◌%◌, ◌^◌, Bool, true, false, not, ◌&&◌, ◌||◌, Option, none, some, List, [], ◌∷◌, ltb,
  if◌then◌else◌,
}
use waybeam_wfb_ng.Base.Int.{ℤ, pos, negsuc, pos_part, neg_part, ◌+ℤ◌, ◌-ℤ◌, ltb_ℤ, leb_ℤ, eqb_ℤ}
use waybeam_wfb_ng.Base.Text.{codes, bytes_eq, has_prefix}
use waybeam_wfb_ng.Csa.Json.{get_str, get_int}

pub data CsaPhase : Type 0 where
  idle armed verify : CsaPhase

-- `CsaCfg` but for `iface`; the counts are the lengths of the lists, 0 being permissive.
pub record CsaCfg : Type 0 where
  pub allow_chan : List ℤ
  pub allow_bw : List (List ℕ)
  pub cooldown_ms : ℤ
  pub no_revert : Bool

-- `t_revert_ms` is a duration while armed and a deadline while verifying.
pub record CsaState : Type 0 where
  pub st : CsaPhase
  pub sess : ℤ
  pub t_switch_ms : ℤ
  pub t_revert_ms : ℤ
  pub target_chan : ℤ
  pub prev_chan : ℤ
  pub target_ht : List ℕ
  pub prev_ht : List ℕ
  pub last_switch_ms : ℤ

-- `csa_run_iw(cfg->iface, chan, ht)`
pub record Hop : Type 0 where
  pub chan : ℤ
  pub ht : List ℕ

unfoldable pub csa_init : CsaState
csa_init = record {
  st = idle;
  sess = pos 0;
  t_switch_ms = pos 0;
  t_revert_ms = pos 0;
  target_chan = pos 0;
  prev_chan = pos 0;
  target_ht = [];
  prev_ht = [];
  last_switch_ms = negsuc 0;
}

abbrev pub is_idle : CsaPhase → Bool
is_idle idle = true
is_idle _ = false

abbrev pub is_armed : CsaPhase → Bool
is_armed armed = true
is_armed _ = false

abbrev pub is_verify : CsaPhase → Bool
is_verify verify = true
is_verify _ = false

unfoldable pub has_chan : ℤ → List ℤ → Bool
has_chan chan [] = false
has_chan chan (c ∷ cs) = eqb_ℤ c chan || has_chan chan cs

unfoldable pub has_bw : List ℕ → List (List ℕ) → Bool
has_bw bw [] = false
has_bw bw (b ∷ bs) = bytes_eq b bw || has_bw bw bs

unfoldable pub chan_ok : CsaCfg → ℤ → Bool
chan_ok cfg chan = elim cfg.allow_chan [ [] ↦ true | c ∷ cs ↦ has_chan chan (c ∷ cs) ]

unfoldable pub bw_ok : CsaCfg → List ℕ → Bool
bw_ok cfg bw = elim cfg.allow_bw [ [] ↦ true | b ∷ bs ↦ has_bw bw (b ∷ bs) ]

-- `(int)` of a long long, on a machine with 32-bit int.
unfoldable pub to_int32 : ℤ → ℤ
to_int32 x =
    let w = (pos_part x + 2 ^ 32 - neg_part x % 2 ^ 32) % 2 ^ 32 in
    if ltb w (2 ^ 31) then pos w else negsuc (2 ^ 32 - w - 1)

-- The fields of a csa_commit frame, after their defaults.
pub record Commit : Type 0 where
  pub sess : ℤ
  pub dt : ℤ
  pub t_revert : ℤ
  pub target_chan : ℤ
  pub prev_chan : ℤ
  pub target_ht : List ℕ
  pub prev_ht : List ℕ

abbrev pub int_or : Option ℤ → ℤ → ℤ
int_or none d = d
int_or (some v) d = v

abbrev pub text_or : Option (List ℕ) → List ℕ → List ℕ
text_or none d = d
text_or (some v) d = v

abbrev pub csa_ht_len : ℕ
csa_ht_len = 8

abbrev pub and_then {ℓ κ} : {A : Type ℓ} {B : Type κ} → Option A → (A → Option B) → Option B
and_then none f = none
and_then (some a) f = f a

-- The parsing part of `on_commit`; `none` is a malformed frame. `seq` is only logged.
unfoldable pub parse_commit : List ℕ → Option Commit
parse_commit buf = and_then (get_int buf (codes "sess")) λ sess.
    and_then (get_int buf (codes "dt_to_switch_ms")) λ dt.
      and_then (get_int buf (codes "target_chan")) λ target_chan. some (record {
        sess = sess;
        dt = dt;
        t_revert = int_or (get_int buf (codes "t_revert_ms")) (pos 3000);
        target_chan = target_chan;
        prev_chan = int_or (get_int buf (codes "prev_chan")) (pos 0);
        target_ht = text_or (get_str buf (codes "target_ht") csa_ht_len) (codes "HT20");
        prev_ht = text_or (get_str buf (codes "prev_ht") csa_ht_len) (codes "HT20");
      })

-- The range check and the two allowlists.
unfoldable pub target_ok : CsaCfg → Commit → Bool
target_ok cfg c =
    not (ltb_ℤ c.target_chan (pos 1) || ltb_ℤ (pos 200) c.target_chan)
    && chan_ok cfg (to_int32 c.target_chan)
    && bw_ok cfg c.target_ht

unfoldable pub to_idle : CsaState → CsaState
to_idle s = record s { st = idle }

-- The cooldown holds a new session back.
unfoldable pub cooling : CsaCfg → ℤ → CsaState → Bool
cooling cfg now s =
    ltb_ℤ (pos 0) cfg.cooldown_ms
    && leb_ℤ (pos 0) s.last_switch_ms
    && ltb_ℤ (now -ℤ s.last_switch_ms) cfg.cooldown_ms

unfoldable pub arm : Commit → ℤ → CsaState → CsaState
arm c now s = record s {
  st = armed;
  sess = c.sess;
  t_switch_ms = now +ℤ c.dt;
  t_revert_ms = c.t_revert;
  target_chan = to_int32 c.target_chan;
  prev_chan = to_int32 c.prev_chan;
  target_ht = c.target_ht;
  prev_ht = c.prev_ht;
}

-- `on_commit` on a well-formed frame. A refresh of the armed session is only logged.
unfoldable pub on_parsed : CsaCfg → Commit → ℤ → CsaState → CsaState
on_parsed cfg c now s =
    if not (target_ok cfg c)
    then s
    else if is_verify s.st && eqb_ℤ c.sess s.sess
    then to_idle s
    else if is_idle s.st || ltb_ℤ s.sess c.sess
    then (if cooling cfg now s then s else arm c now s)
    else s

unfoldable pub on_frame : CsaCfg → Option Commit → ℤ → CsaState → CsaState
on_frame cfg none now s = s
on_frame cfg (some c) now s = on_parsed cfg c now s

unfoldable pub on_commit : CsaCfg → List ℕ → ℤ → CsaState → CsaState
on_commit cfg buf now s = on_frame cfg (parse_commit buf) now s

-- `csa_feed` once it has looked for the type of the frame.
unfoldable pub feed_type : CsaCfg → List ℕ → ℤ → CsaState → Option (List ℕ) → CsaState × Bool
feed_type cfg buf now s none = (s, false)
feed_type cfg buf now s (some type) =
    if not (has_prefix (codes "csa_") type)
    then (s, false)
    else if has_prefix (codes "csa_commit") type
    then (on_commit cfg buf now s, true)
    else (s, true)

-- The result says whether the datagram was a CSA frame.
unfoldable pub csa_feed : CsaCfg → List ℕ → ℤ → CsaState → CsaState × Bool
csa_feed cfg buf now s = feed_type cfg buf now s (get_str buf (codes "type") 32)

unfoldable pub csa_link_alive : CsaState → CsaState × Bool
csa_link_alive s = if is_verify s.st then (to_idle s, true) else (s, false)

-- What a call of `csa_tick` leaves: the state, its hops and the next deadline (0 for none).
pub record Ticked : Type 0 where
  pub state : CsaState
  pub hops : List Hop
  pub deadline : ℤ

unfoldable pub tick_phase : CsaCfg → ℤ → CsaState → CsaPhase → Ticked
tick_phase cfg now s idle = record { state = s; hops = []; deadline = pos 0 }
tick_phase cfg now s armed =
    let hops = record { chan = s.target_chan; ht = s.target_ht } ∷ [] in
    let hopped = record s { last_switch_ms = now } in
    let revert_at = now +ℤ s.t_revert_ms in
    if leb_ℤ s.t_switch_ms now
    then (if cfg.no_revert
        then record { state = to_idle hopped; hops = hops; deadline = pos 0 }
        else record {
          state = record hopped { st = verify; t_revert_ms = revert_at };
          hops = hops;
          deadline = revert_at;
        })
    else record { state = s; hops = []; deadline = s.t_switch_ms }
tick_phase cfg now s verify =
    if leb_ℤ s.t_revert_ms now
    then record {
      state = to_idle (record s { last_switch_ms = now });
      hops = record { chan = s.prev_chan; ht = s.prev_ht } ∷ [];
      deadline = pos 0;
    }
    else record { state = s; hops = []; deadline = s.t_revert_ms }

unfoldable pub csa_tick : CsaCfg → ℤ → CsaState → Ticked
unfolding tick_phase
csa_tick cfg now s = tick_phase cfg now s s.st
