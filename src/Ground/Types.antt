-- ===== src/Ground/Types.antt =====
-- The records of ground/gs_supervisor.h that the state machines of the supervisor work on.
use waybeam_wfb_ng.Base.{
  ℕ, Bool, true, false, ◌&&◌, Option, none, some, List, [], ◌∷◌, if◌then◌else◌,
}
use waybeam_wfb_ng.Base.Int.{ℤ, pos, leb_ℤ}
use waybeam_wfb_ng.Base.Text.{codes, bytes_eq}

pub data TunnelState : Type 0 where
  ts_stopped ts_starting ts_running ts_backoff ts_failed : TunnelState

-- The fields of a tunnel that its supervision and the two hop machines read or write.
pub record Tunnel : Type 0 where
  pub name : List ℕ
  pub role : List ℕ
  pub ifaces : List (List ℕ)
  pub udp_in_port : ℤ
  pub control_port : ℤ
  pub autostart : Bool
  pub state : TunnelState
  pub pid : ℤ
  pub exit_code : ℤ
  pub restart_count : ℕ
  pub backoff_idx : ℕ
  pub next_start_ms : ℕ
  pub autostart_on_exit : Bool
  pub stop_deadline_ms : ℕ
  pub st_pkt_all : ℕ
  pub tx_init_query_after_us : ℕ

pub data SystemState : Type 0 where
  sys_down sys_up sys_up_failed : SystemState

pub record Config : Type 0 where
  pub tunnels : List Tunnel
  pub venc_cmd_enabled : Bool
  pub venc_cmd_uplink : List ℕ
  pub recovery_cmd_enabled : Bool
  pub recovery_cmd_tunnel : List ℕ
  pub system_state : SystemState

abbrev pub is_role : List ℕ → Tunnel → Bool
is_role role t = bytes_eq t.role role

-- The loop by which every sender looks for its transmitting tunnel.
unfoldable pub find_tx : List ℕ → List Tunnel → Option Tunnel
find_tx name [] = none
find_tx name (t ∷ ts) =
    if bytes_eq t.name name && is_role (codes "tx") t then some t else find_tx name ts

-- `!up || up->udp_in_port <= 0` turns the sender away.
unfoldable pub has_uplink : List ℕ → List Tunnel → Bool
unfolding find_tx
has_uplink name ts = elim (find_tx name ts) [
  | none ↦ false
  | some t ↦ if leb_ℤ t.udp_in_port (pos 0) then false else true
]
