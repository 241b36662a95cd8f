-- ===== src/Ground/ScanStart.antt =====
-- The route /api/v1/system/scan of ground/gs_supervisor_http.c. A reply is its HTTP status.
use waybeam_wfb_ng.Base.{
  ℕ, zero, suc, Bool, true, not, ◌&&◌, ◌||◌, Option, none, some, List, [], ◌∷◌, length, drop,
  replicate, ltb, leb, ◌==◌, if◌then◌else◌,
}
use waybeam_wfb_ng.Base.Int.{ℤ, pos, ltb_ℤ}
use waybeam_wfb_ng.Base.Text.{codes}
use waybeam_wfb_ng.Csa.Json.{strtoll}
use waybeam_wfb_ng.Csa.Machine.{has_bw, int_or, to_int32}
use waybeam_wfb_ng.Ground.Query.{before, behind_byte, qs_get, qs_get_int, qs_pct_decode}
use waybeam_wfb_ng.Ground.Types.{Config}
use waybeam_wfb_ng.Ground.Hop.{IwHop, CsaPhase, is_idle}
use waybeam_wfb_ng.Ground.Start.{
  IfaceList, bad_iface, too_many, names, split_ifaces, text_behind, all_known, ht_names, clamp_int,
}
use waybeam_wfb_ng.Ground.Scan.{ScanState, is_scanning, start_scan}

abbrev pub scan_max_steps : ℕ
scan_max_steps = 32

-- A token of the list of channels, at most `room` bytes of it, and the text behind them.
unfoldable pub chan_token : ℕ → List ℕ → List ℕ × List ℕ
chan_token zero s = ([], s)
chan_token (suc room) [] = ([], [])
chan_token (suc room) (c ∷ cs) =
    let (token, rest) = chan_token room cs in if c == b',' then ([], c ∷ cs) else (c ∷ token, rest)

-- The number at the start of a token; what stands behind it is ignored.
unfoldable pub chan_number : Option (ℤ × List ℕ) → Option ℤ
chan_number none = none
chan_number (some (n, rest)) =
    if ltb_ℤ n (pos 1) || ltb_ℤ (pos 200) n then none else some (to_int32 n)

unfoldable pub add_chan : Option ℤ → Option (List ℤ) → Option (List ℤ)
add_chan (some chan) (some chans) = some (chan ∷ chans)
add_chan _ _ = none

-- The loop over the channels; `none` for every list that is refused.
unfoldable pub scan_chans : ℕ → List ℕ → Option (List ℤ)
unfolding chan_token chan_number add_chan
scan_chans room [] = some []
scan_chans zero (c ∷ cs) = none
scan_chans (suc room) (c ∷ cs) =
    let (token, rest) = chan_token 7 (c ∷ cs) in
    let more = scan_chans room (drop 1 rest) in
    if length token == 0 then none else add_chan (chan_number (strtoll token)) more

unfoldable pub add_ht : List ℕ → Option (List (List ℕ)) → Option (List (List ℕ))
add_ht ht none = none
add_ht ht (some hts) = some (ht ∷ hts)

-- The loop over the bandwidths, which leaves out what does not fit.
unfoldable pub scan_hts : ℕ → List ℕ → Option (List (List ℕ))
unfolding before behind_byte add_ht
scan_hts room [] = some []
scan_hts zero (c ∷ cs) = some []
scan_hts (suc room) (c ∷ cs) =
    let name = before b',' (c ∷ cs) in
    let more = scan_hts room (text_behind (behind_byte b',' (c ∷ cs))) in
    if length name == 0 || leb 8 (length name) then none else add_ht (qs_pct_decode 8 name) more

-- One bandwidth serves all steps; otherwise each step has its own.
unfoldable pub spread : ℕ → Option (List (List ℕ)) → Option (List (List ℕ))
spread n none = none
spread n (some (ht ∷ [])) = some (replicate n ht)
spread n (some hts) = if length hts == n then some hts else none

unfoldable pub single_ht : ℕ → Option (List ℕ) → List (List ℕ)
single_ht n none = replicate n (codes "HT20")
single_ht n (some ht) =
    if ltb 0 (length ht) && ltb (length ht) 8
    then replicate n (qs_pct_decode 8 ht)
    else replicate n (codes "HT20")

unfoldable pub step_hts : ℕ → Option (List ℕ) → Option (List ℕ) → Option (List (List ℕ))
unfolding spread scan_hts single_ht
step_hts n (some (h ∷ hs)) ht = spread n (scan_hts scan_max_steps (h ∷ hs))
step_hts n _ ht = some (single_ht n ht)

unfoldable pub all_named : List (List ℕ) → Bool
all_named [] = true
all_named (ht ∷ hts) = has_bw ht ht_names && all_named hts

unfoldable pub pair_steps : List ℤ → List (List ℕ) → List (ℤ × List ℕ)
pair_steps (chan ∷ chans) (ht ∷ hts) = (chan, ht) ∷ pair_steps chans hts
pair_steps _ _ = []

-- What a request comes to: a refusal, or the arguments of the scan.
pub data ScanChecked : Type 0 where
  turned_down : ℕ → ScanChecked
  started : List (List ℕ) → List (ℤ × List ℕ) → ℕ → ScanChecked

unfoldable pub check_steps : List ℕ → List (List ℕ) → List ℤ → Option (List (List ℕ)) → ScanChecked
unfolding all_named pair_steps
check_steps q ifaces chans none = turned_down 400
check_steps q ifaces chans (some hts) =
    if not (all_named hts)
    then turned_down 400
    else started ifaces (pair_steps chans hts)
        (clamp_int 100 10_000 (int_or (qs_get_int q (codes "dwell_ms")) (pos 600)))

unfoldable pub check_chans : List ℕ → List (List ℕ) → Option (List ℤ) → ScanChecked
unfolding check_steps step_hts
check_chans q ifaces none = turned_down 400
check_chans q ifaces (some chans) =
    let hts = step_hts (length chans) (qs_get q (codes "hts")) (qs_get q (codes "ht")) in
    if length chans == 0 then turned_down 400 else check_steps q ifaces chans hts

unfoldable pub check_names : Config → List ℕ → List ℕ → List (List ℕ) → ScanChecked
unfolding check_chans
check_names c q cstr ifaces =
    if length ifaces == 0
    then turned_down 400
    else if not (all_known c.tunnels ifaces)
    then turned_down 404
    else check_chans q ifaces (scan_chans scan_max_steps cstr)

unfoldable pub check_list : Config → List ℕ → List ℕ → IfaceList → ScanChecked
unfolding check_names
check_list c q cstr bad_iface = turned_down 400
check_list c q cstr too_many = turned_down 400
check_list c q cstr (names ifaces) = check_names c q cstr ifaces

unfoldable pub check_scan : Config → List ℕ → Option (List ℕ) → Option (List ℕ) → ScanChecked
unfolding check_list
check_scan c q (some istr) (some cstr) =
    if length istr == 0 || length cstr == 0
    then turned_down 400
    else check_list c q cstr (split_ifaces 4 istr)
check_scan c q _ _ = turned_down 400

unfoldable pub scan_answer : ScanChecked → ℕ → ScanState → (ScanState × List IwHop) × ℕ
scan_answer (turned_down status) now g = ((g, []), status)
scan_answer (started ifaces steps dwell_ms) now g = (start_scan ifaces steps dwell_ms now g, 200)

-- The whole route; `csa` is the phase of the channel switch.
unfoldable pub post_scan : Config → CsaPhase → List ℕ → ℕ → ScanState → (ScanState × List IwHop) × ℕ
unfolding scan_answer check_scan
post_scan c csa q now g =
    if not (is_idle csa) || is_scanning g.phase
    then ((g, []), 409)
    else scan_answer (check_scan c q (qs_get q (codes "iface")) (qs_get q (codes "chans"))) now g
