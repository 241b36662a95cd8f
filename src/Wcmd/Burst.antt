-- ===== src/Wcmd/Burst.antt =====
-- A burst of copies of one command acts once.
use waybeam_wfb_ng.Base.{ℕ, ◌≡◌, Bool, true, false}
use waybeam_wfb_ng.Wcmd.Types.{
  WcmdReq, WcmdStatus, ok, disabled, unknown_key, key_blocked, out_of_range, rate_limited,
  http_error, not_permitted, CmdConfig, World, WcmdState,
}
use waybeam_wfb_ng.Wcmd.Apply.{Dispatched}
use waybeam_wfb_ng.Wcmd.Dispatch.{wcmd_dispatch}

abbrev not_ok : WcmdStatus → Bool
not_ok ok = false
not_ok disabled = true
not_ok unknown_key = true
not_ok key_blocked = true
not_ok out_of_range = true
not_ok rate_limited = true
not_ok http_error = true
not_ok not_permitted = true

module _ (req : WcmdReq) (now : ℕ) where
  -- An OK leaves the request marked as applied now.
  data IsMarked (d : Dispatched) : Type 0 where
    turned_down : not_ok d.resp.status ≡ true → IsMarked d
    marked : d.state.last_seq req.key ≡ req.seq → d.state.last_seq_us req.key ≡ now → IsMarked d

module _ (cfg : CmdConfig) (world : World) (from_loopback : Bool) (req : WcmdReq) (now : ℕ)
    (s : WcmdState) where
  abbrev pub first_copy : Dispatched
  first_copy = wcmd_dispatch cfg world from_loopback req now s
