-- ===== src/Ground/Operator.antt =====
-- The route /api/v1/cmd of ground/gs_supervisor_http.c. A reply is its HTTP status. The array of
-- the last times has WCMD_KEY_MAX + 1 entries; an index behind its end, which is undefined in C,
-- sets `stray_write` and leaves the array as it is.
use waybeam_wfb_ng.Base.{
  ℕ, Bool, false, not, ◌&&◌, ◌||◌, Option, none, some, List, [], get_or, set, leb, ltb, ◌==◌,
  if◌then◌else◌,
}
use waybeam_wfb_ng.Base.Int.{ℤ, pos, negsuc, ltb_ℤ, eqb_ℤ}
use waybeam_wfb_ng.Base.Word.{sub64, inc64}
use waybeam_wfb_ng.Base.Text.{codes}
use waybeam_wfb_ng.Csa.Machine.{to_int32}
use waybeam_wfb_ng.Ground.Query.{qs_get, qs_get_int}
use waybeam_wfb_ng.Ground.Types.{Config}
use waybeam_wfb_ng.Ground.Command.{wcmd_key_from_str, WcmdGlobals, SendResult, Emitted, wcmd_emit}

abbrev pub wcmd_key_max : ℕ
wcmd_key_max = 16

abbrev pub key_force_idr : ℕ
key_force_idr = 4

abbrev pub key_return_apfpv : ℕ
key_return_apfpv = 20

pub record Replied : Type 0 where
  pub globals : WcmdGlobals
  pub frames : List (List ℕ)
  pub status : ℕ
  pub stray_write : Bool

unfoldable pub turn_away : ℕ → WcmdGlobals → Replied
turn_away status g = record { globals = g; frames = []; status = status; stray_write = false }

-- The value of the query; two keys need none.
unfoldable pub value_for : ℕ → Option ℤ → Option ℤ
value_for key (some v) = some v
value_for key none = if key == key_force_idr || key == key_return_apfpv then some (pos 0) else none

-- `rate_ms` is `venc_cmd_rate_limit_ms`, `now` the clock at the test, `later` the clock at the end.
module _ (c : Config) (rate_ms : ℤ) (socket_errno : ℕ) (results : List SendResult)
    (now later : ℕ) where
  unfoldable pub held_back : ℕ → WcmdGlobals → Bool
  held_back key g =
      let last = get_or g.last_send_ms key 0 in
      ltb_ℤ (pos 0) rate_ms
      && (leb 1 key && leb key wcmd_key_max)
      && (not (last == 0) && ltb_ℤ (to_int32 (pos (sub64 now last))) rate_ms)

  -- `g_wcmd_last_send_ms[key] = now_ms()`
  unfoldable pub stamp : ℕ → Emitted → Replied
  stamp key e = record {
    globals = record e.globals { last_send_ms = set e.globals.last_send_ms key later };
    frames = e.frames;
    status = 200;
    stray_write = ltb wcmd_key_max key;
  }

  unfoldable pub send_command : ℕ → ℤ → WcmdGlobals → Replied
  unfolding stamp
  send_command key value g =
      let e = wcmd_emit c socket_errno results key value g in
      if eqb_ℤ e.rc (negsuc 0)
      then turn_away 503 e.globals
      else if not (eqb_ℤ e.rc (pos 0))
      then turn_away 502 e.globals
      else stamp key e

  unfoldable pub command : ℕ → Option ℤ → WcmdGlobals → Replied
  unfolding send_command held_back turn_away
  command key none g = turn_away 400 g
  command key (some value) g =
      if held_back key g
      then turn_away 429 (record g { emit_rate_limit = inc64 g.emit_rate_limit })
      else send_command key value g

  unfoldable pub keyed : List ℕ → Option ℕ → WcmdGlobals → Replied
  unfolding command turn_away value_for qs_get_int
  keyed q none g = turn_away 400 g
  keyed q (some key) g = command key (value_for key (qs_get_int q (codes "value"))) g

  unfoldable pub named : List ℕ → Option (List ℕ) → WcmdGlobals → Replied
  unfolding keyed turn_away wcmd_key_from_str
  named q none g = turn_away 400 g
  named q (some name) g = keyed q (wcmd_key_from_str name) g

  unfoldable pub post_cmd : List ℕ → WcmdGlobals → Replied
  unfolding named qs_get
  post_cmd q g = named q (qs_get q (codes "key")) g
