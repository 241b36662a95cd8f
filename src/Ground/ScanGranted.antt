-- ===== src/Ground/ScanGranted.antt =====
-- What a request must be to start a scan, and the scan that it starts.
use waybeam_wfb_ng.Base.{
  ℕ, ◌≤◌, ◌≡◌, Bool, true, false, not, ◌||◌, if_cases, Option, none, some, List, [], length, ◌==◌,
  arith,
}
use waybeam_wfb_ng.Base.Int.{ℤ, pos}
use waybeam_wfb_ng.Base.Text.{codes}
use waybeam_wfb_ng.Csa.Machine.{int_or}
use waybeam_wfb_ng.Ground.Query.{qs_get, qs_get_int}
use waybeam_wfb_ng.Ground.Types.{Config}
use waybeam_wfb_ng.Ground.Hop.{IwHop, CsaPhase, is_idle}
use waybeam_wfb_ng.Ground.Start.{
  IfaceList, bad_iface, too_many, names, split_ifaces, all_known, clamp_int,
}
use waybeam_wfb_ng.Ground.Granted.{
  count, count-split_ifaces, clamp_int_bounds, nonempty, holds_then,
}
use waybeam_wfb_ng.Ground.Scan.{ScanState, is_scanning, start_scan}
use waybeam_wfb_ng.Ground.ScanStart.{
  scan_max_steps, scan_chans, step_hts, all_named, pair_steps, ScanChecked, turned_down, started,
  check_steps, check_chans, check_names, check_list, check_scan, scan_answer, post_scan,
}
use waybeam_wfb_ng.Ground.ScanSteps.{
  AllSteps, AllRange, Chans, some_chans, scan_chans-Chans, Hts, some_hts, step_hts-Hts,
  pair_steps-AllSteps, length-pair_steps,
}

pub record IsScan (c : Config) (ifaces : List (List ℕ)) (steps : List (ℤ × List ℕ)) (dwell_ms : ℕ)
    : Type 0 where
  pub few : (1 ≤ length ifaces) × (length ifaces ≤ 4)
  pub known : all_known c.tunnels ifaces ≡ true
  pub few_steps : (1 ≤ length steps) × (length steps ≤ 32)
  pub vetted : AllSteps steps
  pub dwell : (100 ≤ dwell_ms) × (dwell_ms ≤ 10_000)

-- How a check can end.
data ScanGrants (c : Config) : ScanChecked → Type 0 where
  denied : (status : ℕ) → 400 ≤ status → status ≤ 503 → ScanGrants c (turned_down status)
  allowed :
      (ifaces : List (List ℕ)) (steps : List (ℤ × List ℕ)) (dwell_ms : ℕ)
      → IsScan c ifaces steps dwell_ms
      → ScanGrants c (started ifaces steps dwell_ms)

bad_request : (c : Config) → ScanGrants c (turned_down 400)
bad_request c = denied 400 (omega arith) (omega arith)

module _ (c : Config) (q : List ℕ) where
  module _ (ifaces : List (List ℕ)) (few : (1 ≤ length ifaces) × (length ifaces ≤ 4))
      (known : all_known c.tunnels ifaces ≡ true) where
    check_steps-ScanGrants :
        (chans : List ℤ) (o : Option (List (List ℕ)))
        → (1 ≤ length chans) × (length chans ≤ 32)
        → AllRange chans
        → Hts (length chans) o
        → ScanGrants c (check_steps q ifaces chans o)
    unfolding check_steps
    check_steps-ScanGrants chans none l r h = bad_request c
    check_steps-ScanGrants chans (some _) l r (some_hts hts e) =
        if_cases (ScanGrants c) (not (all_named hts)) (λ _. bad_request c)
          λ named.
            let same = length-pair_steps chans hts e in
            let dwell = int_or (qs_get_int q (codes "dwell_ms")) (pos 600) in
            allowed ifaces (pair_steps chans hts) (clamp_int 100 10_000 dwell) (record {
              few = few;
              known = known;
              few_steps = omega (arith, same, l.0, l.1);
              vetted = pair_steps-AllSteps chans hts r (holds_then (all_named hts) named);
              dwell = clamp_int_bounds 100 10_000 dwell (omega arith);
            })

    check_chans-ScanGrants :
        (o : Option (List ℤ)) → Chans 32 o → ScanGrants c (check_chans q ifaces o)
    unfolding check_chans
    check_chans-ScanGrants none k = bad_request c
    check_chans-ScanGrants (some _) (some_chans chans l r) =
        let hts = qs_get q (codes "hts") in
        let ht = qs_get q (codes "ht") in
        if_cases (ScanGrants c) (length chans == 0) (λ _. bad_request c)
          λ h.
            check_steps-ScanGrants chans (step_hts (length chans) hts ht)
              (nonempty (length chans) h, l) r (step_hts-Hts (length chans) hts ht)

  check_names-ScanGrants :
      (cstr : List ℕ) (ifaces : List (List ℕ))
      → length ifaces ≤ 4
      → ScanGrants c (check_names c q cstr ifaces)
  unfolding check_names
  check_names-ScanGrants cstr ifaces l =
      if_cases (ScanGrants c) (length ifaces == 0) (λ _. bad_request c)
        λ h.
          if_cases (ScanGrants c) (not (all_known c.tunnels ifaces))
            (λ _. denied 404 (omega arith) (omega arith))
            λ k.
              check_chans-ScanGrants ifaces (nonempty (length ifaces) h, l)
                (holds_then (all_known c.tunnels ifaces) k) (scan_chans scan_max_steps cstr)
                (scan_chans-Chans scan_max_steps cstr)

  check_list-ScanGrants :
      (cstr : List ℕ) (l : IfaceList) → count l ≤ 4 → ScanGrants c (check_list c q cstr l)
  unfolding check_list
  check_list-ScanGrants cstr bad_iface h = bad_request c
  check_list-ScanGrants cstr too_many h = bad_request c
  check_list-ScanGrants cstr (names ifaces) h = check_names-ScanGrants cstr ifaces h

  check_scan-ScanGrants : (istr cstr : Option (List ℕ)) → ScanGrants c (check_scan c q istr cstr)
  unfolding check_scan
  check_scan-ScanGrants none cstr = bad_request c
  check_scan-ScanGrants (some istr) none = bad_request c
  check_scan-ScanGrants (some istr) (some cstr) =
      if_cases (ScanGrants c) (length istr == 0 || length cstr == 0) (λ _. bad_request c)
        (λ _. check_list-ScanGrants cstr (split_ifaces 4 istr) (count-split_ifaces 4 istr))

-- How a request can end.
pub data ScanPosted (c : Config) (csa : CsaPhase) (now : ℕ) (g : ScanState)
    : (ScanState × List IwHop) × ℕ → Type 0 where
  rejected : (status : ℕ) → 400 ≤ status → status ≤ 503 → ScanPosted c csa now g ((g, []), status)
  begun :
      (ifaces : List (List ℕ)) (steps : List (ℤ × List ℕ)) (dwell_ms : ℕ)
      → is_idle csa ≡ true
      → is_scanning g.phase ≡ false
      → IsScan c ifaces steps dwell_ms
      → ScanPosted c csa now g (start_scan ifaces steps dwell_ms now g, 200)

both_free : (a b : Bool) → not a || b ≡ false → (a ≡ true) × (b ≡ false)
both_free a b h = ground arith

module _ (c : Config) (csa : CsaPhase) (now : ℕ) (g : ScanState) where
  scan_answer-ScanPosted :
      (k : ScanChecked)
      → (is_idle csa ≡ true) × (is_scanning g.phase ≡ false)
      → ScanGrants c k
      → ScanPosted c csa now g (scan_answer k now g)
  unfolding scan_answer
  scan_answer-ScanPosted (turned_down _) f (denied status a b) = rejected status a b
  scan_answer-ScanPosted (started _ _ _) f (allowed ifaces steps dwell_ms s) =
      begun ifaces steps dwell_ms f.0 f.1 s

  -- A request to scan is refused with a status from 400 to 503, and then nothing changes and
  -- nothing hops, or it starts a scan. It starts one only when no other scan runs and no switch of
  -- channels is under way, on one to four interfaces of the tunnels, over one to 32 steps, each a
  -- channel from 1 to 200 with one of the three bandwidths, and with a dwell of 100 to 10 000 ms.
  pub post_scan-ScanPosted : (q : List ℕ) → ScanPosted c csa now g (post_scan c csa q now g)
  unfolding post_scan
  post_scan-ScanPosted q =
      let istr = qs_get q (codes "iface") in
      let cstr = qs_get q (codes "chans") in
      if_cases (ScanPosted c csa now g) (not (is_idle csa) || is_scanning g.phase)
        (λ _. rejected 409 (omega arith) (omega arith))
        (λ h.
          scan_answer-ScanPosted (check_scan c q istr cstr)
            (both_free (is_idle csa) (is_scanning g.phase) h) (check_scan-ScanGrants c q istr cstr))
