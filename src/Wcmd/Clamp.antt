-- ===== src/Wcmd/Clamp.antt =====
-- `wcmd_clamp_value` and `wcmd_build_path` of vehicle/link_controller.c. The result code of the
-- clamp beyond its failure is unused, so the clamp is an Option.
use waybeam_wfb_ng.Base.{ℕ, ◌≡◌, Bool, ◌&&◌, ◌||◌, Option, none, some, ◌==◌, arith, if◌then◌else◌}
use waybeam_wfb_ng.Base.Int.{ℤ, pos, ◌≤ℤ◌, ltb_ℤ, leb_ℤ, eqb_ℤ}
use waybeam_wfb_ng.Wcmd.Types.{
  CmdConfig, Window, VencPath, set_bitrate, set_fps, set_payload, request_idr, record_start,
  record_stop,
}

abbrev pub window : ℤ → ℤ → Window
window lo hi = record { lo = lo; hi = hi }

-- The bounds of the bitrate: the FEC subsystem's, where it is on and sets them.
unfoldable pub bitrate_window : CmdConfig → Bool → Window
bitrate_window cfg fec_enabled =
    window
      (if fec_enabled && ltb_ℤ (pos 0) cfg.fec_bitrate.lo
        then cfg.fec_bitrate.lo
        else cfg.bitrate.lo)
      (if fec_enabled && ltb_ℤ (pos 0) cfg.fec_bitrate.hi
        then cfg.fec_bitrate.hi
        else cfg.bitrate.hi)

abbrev pub is_binary : ℕ → Bool
is_binary key =
    key == 9 || key == 10 || key == 11 || key == 12 || key == 13 || key == 15 || key == 16

-- The switch of `wcmd_clamp_value`, for the keys with a window.
unfoldable pub clamp_window : CmdConfig → Bool → ℕ → Option Window
clamp_window cfg fec_enabled key =
    if key == 1
    then some (bitrate_window cfg fec_enabled)
    else if key == 2
    then some cfg.fps
    else if key == 3
    then some cfg.payload
    else if key == 5
    then some cfg.wfb_fec_k
    else if key == 6
    then some cfg.wfb_fec_n
    else if key == 7
    then some cfg.wfb_mcs
    else if key == 8
    then some cfg.wfb_bandwidth
    else if is_binary key
    then some (window (pos 0) (pos 1))
    else if key == 14
    then some cfg.wfb_txpower
    else none

unfoldable pub clamp_to : ℤ → Option Window → Option ℤ
clamp_to v none = none
clamp_to v (some w) =
    if leb_ℤ w.hi (pos 0) || ltb_ℤ w.hi w.lo
    then none
    else some (if ltb_ℤ v w.lo then w.lo else if ltb_ℤ w.hi v then w.hi else v)

unfoldable pub wcmd_clamp_value : CmdConfig → Bool → ℕ → ℤ → Option ℤ
wcmd_clamp_value cfg fec_enabled key v =
    if key == 4 then some (pos 0) else clamp_to v (clamp_window cfg fec_enabled key)

unfoldable pub wcmd_build_path : ℕ → ℤ → Option VencPath
wcmd_build_path key v =
    if key == 1
    then some (set_bitrate v)
    else if key == 2
    then some (set_fps v)
    else if key == 3
    then some (set_payload v)
    else if key == 4
    then some request_idr
    else if key == 15
    then some (if eqb_ℤ v (pos 0) then record_stop else record_start)
    else none

-- A value that is accepted is inside the key's window, and a value inside it is accepted as it is.
pub clamp_to_bounds :
    (v : ℤ) (w : Window) {v' : ℤ} → clamp_to v (some w) ≡ some v' → (w.lo ≤ℤ v') × (v' ≤ℤ w.hi)
unfolding clamp_to
clamp_to_bounds v w h = ground arith

pub clamp_to_inside :
    (v : ℤ) (w : Window) → pos 1 ≤ℤ w.hi → w.lo ≤ℤ v → v ≤ℤ w.hi → clamp_to v (some w) ≡ some v
unfolding clamp_to
clamp_to_inside v w p a b = ground arith
