-- ===== src/Ground/Start.antt =====
-- The route /api/v1/system/csa of ground/gs_supervisor_http.c: the checks of a request, and the
-- start of a session. A reply is its HTTP status.
use waybeam_wfb_ng.Base.{
  ℕ, zero, suc, ◌*◌, Bool, true, false, not, ◌&&◌, ◌||◌, Option, none, some, List, [], ◌∷◌, length,
  ltb, leb, ◌==◌, if◌then◌else◌,
}
use waybeam_wfb_ng.Base.Int.{ℤ, pos, ltb_ℤ, eqb_ℤ, pos_part}
use waybeam_wfb_ng.Base.Word.{add64, inc32}
use waybeam_wfb_ng.Base.Text.{codes}
use waybeam_wfb_ng.Csa.Machine.{int_or, has_bw}
use waybeam_wfb_ng.Ground.Query.{before, behind_byte, qs_get, qs_get_int, qs_pct_decode}
use waybeam_wfb_ng.Ground.Types.{Tunnel, Config, has_uplink}
use waybeam_wfb_ng.Ground.Hop.{csa_burst, CsaState, is_idle}

-- What becomes of the list of interfaces in a request.
pub data IfaceList : Type 0 where
  bad_iface too_many : IfaceList
  names : List (List ℕ) → IfaceList

unfoldable pub add_name : List ℕ → IfaceList → IfaceList
add_name name bad_iface = bad_iface
add_name name too_many = too_many
add_name name (names ns) = names (name ∷ ns)

abbrev pub ifnamsiz : ℕ
ifnamsiz = 16

abbrev pub text_behind : Option (List ℕ) → List ℕ
text_behind none = []
text_behind (some s) = s

-- The loop over the comma-separated list, with room for some more names.
unfoldable pub split_ifaces : ℕ → List ℕ → IfaceList
unfolding before behind_byte add_name
split_ifaces room [] = names []
split_ifaces zero (c ∷ cs) = too_many
split_ifaces (suc room) (c ∷ cs) =
    let name = before b',' (c ∷ cs) in
    let rest = split_ifaces room (text_behind (behind_byte b',' (c ∷ cs))) in
    if length name == 0 || leb ifnamsiz (length name) then bad_iface else add_name name rest

unfoldable pub in_tunnels : List Tunnel → List ℕ → Bool
in_tunnels [] iface = false
in_tunnels (t ∷ ts) iface = has_bw iface t.ifaces || in_tunnels ts iface

unfoldable pub all_known : List Tunnel → List (List ℕ) → Bool
unfolding in_tunnels
all_known ts [] = true
all_known ts (i ∷ is) = in_tunnels ts i && all_known ts is

abbrev pub ht_names : List (List ℕ)
ht_names = codes "HT20" ∷ codes "HT40+" ∷ codes "HT40-" ∷ []

unfoldable pub clamp_int : ℕ → ℕ → ℤ → ℕ
clamp_int lo hi v = if ltb_ℤ v (pos lo) then lo else if ltb_ℤ (pos hi) v then hi else pos_part v

-- What the operator asked for, once it is checked.
pub record Request : Type 0 where
  pub chan : ℤ
  pub ht : List ℕ
  pub ifaces : List (List ℕ)
  pub lead_ms : ℕ
  pub t_revert_ms : ℕ
  pub prev_chan : ℤ
  pub prev_ht : List ℕ
  pub no_revert : Bool

-- `prev_ht`: an empty value, or one of eight bytes or more, leaves the default.
unfoldable pub prev_ht_of : Option (List ℕ) → List ℕ
unfolding qs_pct_decode
prev_ht_of none = codes "HT20"
prev_ht_of (some v) =
    if ltb 0 (length v) && ltb (length v) 8 then qs_pct_decode 8 v else codes "HT20"

unfoldable pub request_of : List ℕ → ℤ → List ℕ → List (List ℕ) → Request
unfolding qs_get_int qs_get clamp_int prev_ht_of
request_of q chan ht ifaces = record {
  chan = chan;
  ht = ht;
  ifaces = ifaces;
  lead_ms = clamp_int 100 5_000 (int_or (qs_get_int q (codes "lead_ms")) (pos 500));
  t_revert_ms = clamp_int 500 30_000 (int_or (qs_get_int q (codes "t_revert_ms")) (pos 3_000));
  prev_chan = int_or (qs_get_int q (codes "prev_chan")) chan;
  prev_ht = prev_ht_of (qs_get q (codes "prev_ht"));
  no_revert = not (eqb_ℤ (int_or (qs_get_int q (codes "no_revert")) (pos 0)) (pos 0));
}

-- The assignments that arm the burst.
unfoldable pub start : Request → ℕ → CsaState → CsaState
start r t_us g =
    let t_switch = add64 t_us (r.lead_ms * 1_000) in
    record g {
      sess = inc32 g.sess;
      t_switch_us = t_switch;
      t_revert_us = add64 t_switch (r.t_revert_ms * 1_000);
      next_frame_us = t_us;
      frames_sent = 0;
      frames_total = 5;
      target_chan = r.chan;
      target_ht = r.ht;
      prev_chan = r.prev_chan;
      prev_ht = r.prev_ht;
      ifaces = r.ifaces;
      no_revert = r.no_revert;
      seq_in_burst = 0;
      phase = csa_burst;
    }

-- Of the channel and the interfaces, then of the bandwidth and the uplink: the checks in their order.
pub data Checked : Type 0 where
  refused : ℕ → Checked
  granted : Request → Checked

unfoldable pub check_ht : Config → List ℕ → ℤ → List ℕ → List (List ℕ) → Checked
unfolding request_of qs_pct_decode has_uplink all_known
check_ht c q chan htstr ifaces =
    let ht = qs_pct_decode 8 htstr in
    if length ifaces == 0
    then refused 400
    else if not (all_known c.tunnels ifaces)
    then refused 404
    else if not (has_bw ht ht_names)
    then refused 400
    else if not (has_uplink c.venc_cmd_uplink c.tunnels)
    then refused 503
    else granted (request_of q chan ht ifaces)

unfoldable pub check_ifaces : Config → List ℕ → ℤ → List ℕ → IfaceList → Checked
unfolding check_ht
check_ifaces c q chan htstr bad_iface = refused 400
check_ifaces c q chan htstr too_many = refused 400
check_ifaces c q chan htstr (names ifaces) = check_ht c q chan htstr ifaces

unfoldable pub check_texts : Config → List ℕ → ℤ → Option (List ℕ) → Option (List ℕ) → Checked
unfolding check_ifaces split_ifaces
check_texts c q chan none htstr = refused 400
check_texts c q chan (some istr) none = refused 400
check_texts c q chan (some istr) (some htstr) =
    if length istr == 0 || (length htstr == 0 || leb 8 (length htstr))
    then refused 400
    else check_ifaces c q chan htstr (split_ifaces 4 istr)

unfoldable pub check_request : Config → List ℕ → Option ℤ → Checked
unfolding check_texts qs_get
check_request c q none = refused 400
check_request c q (some chan) =
    if ltb_ℤ chan (pos 1) || ltb_ℤ (pos 200) chan
    then refused 400
    else check_texts c q chan (qs_get q (codes "iface")) (qs_get q (codes "ht"))

unfoldable pub answer : Checked → ℕ → CsaState → CsaState × ℕ
unfolding start
answer (refused status) t_us g = (g, status)
answer (granted r) t_us g = (start r t_us g, 200)

-- The whole route; `scanning` says that a scan is running.
unfoldable pub post_csa : Config → Bool → List ℕ → ℕ → CsaState → CsaState × ℕ
unfolding answer check_request qs_get_int
post_csa c scanning q t_us g =
    if not (is_idle g.phase) || scanning
    then (g, 409)
    else answer (check_request c q (qs_get_int q (codes "chan"))) t_us g
