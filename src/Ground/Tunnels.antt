-- ===== src/Ground/Tunnels.antt =====
-- The supervision of the tunnels: `tunnel_spawn`, `tunnel_request_stop`, `tunnel_on_exit`,
-- `supervisor_reap`, the tunnels' part of `supervisor_tick`, `supervisor_stop_all_tunnels`,
-- `supervisor_bring_up` and `supervisor_take_down` of ground/gs_supervisor.c, and the routes of
-- ground/gs_supervisor_http.c that start, stop and restart. Processes and clocks are parameters.
use waybeam_wfb_ng.Base.{
  ℕ, zero, suc, ◌-◌, Bool, true, false, not, ◌&&◌, ◌||◌, Option, none, some, List, [], ◌∷◌, map,
  get_or, leb, ltb, ◌==◌, if◌then◌else◌,
}
use waybeam_wfb_ng.Base.Int.{ℤ, pos, negsuc, leb_ℤ, ltb_ℤ, eqb_ℤ}
use waybeam_wfb_ng.Base.Word.{add64}
use waybeam_wfb_ng.Base.Text.{codes}
use waybeam_wfb_ng.Ground.Types.{
  TunnelState, ts_stopped, ts_running, ts_backoff, ts_failed, Tunnel, sys_down, sys_up,
  sys_up_failed, Config, is_role,
}

abbrev pub backoff_ms : List ℕ
backoff_ms = 500 ∷ 1_000 ∷ 2_000 ∷ 4_000 ∷ 8_000 ∷ 16_000 ∷ 30_000 ∷ []

abbrev pub backoff_len : ℕ
backoff_len = 7

abbrev pub stop_grace_ms : ℕ
stop_grace_ms = 1_500

abbrev pub is_backoff : TunnelState → Bool
is_backoff ts_backoff = true
is_backoff _ = false

abbrev pub is_running : TunnelState → Bool
is_running ts_running = true
is_running _ = false

abbrev pub alive : Tunnel → Bool
alive t = ltb_ℤ (pos 0) t.pid

-- The new child: `none` where the arguments could not be built or fork failed.
unfoldable pub tunnel_spawn : Option ℤ → ℕ → Tunnel → Tunnel
tunnel_spawn none now_us t = record t { state = ts_failed }
tunnel_spawn (some pid) now_us t = record t {
  pid = pid;
  autostart_on_exit = true;
  stop_deadline_ms = 0;
  tx_init_query_after_us =
      if is_role (codes "tx") t && ltb_ℤ (pos 0) t.control_port
      then add64 now_us 500_000
      else t.tx_init_query_after_us;
  st_pkt_all = if is_role (codes "rx") t then 0 else t.st_pkt_all;
  state = ts_running;
  restart_count = suc t.restart_count;
}

-- The signals that are sent.
pub data Signal : Type 0 where
  sigterm : ℤ → Signal
  sigkill : ℤ → Signal

unfoldable pub tunnel_request_stop : ℕ → Tunnel → Tunnel × List Signal
tunnel_request_stop now_ms t =
    if alive t
    then (
      record t { autostart_on_exit = false; stop_deadline_ms = add64 now_ms stop_grace_ms },
      sigterm t.pid ∷ [],
    )
    else (record t { state = ts_stopped; autostart_on_exit = false }, [])

-- What waitpid tells of an exit.
pub data WaitStatus : Type 0 where
  exited : ℕ → WaitStatus
  signaled : ℕ → WaitStatus
  unclear : WaitStatus

unfoldable pub exit_code_of : WaitStatus → ℤ
exit_code_of (exited n) = pos n
exit_code_of (signaled zero) = pos 0
exit_code_of (signaled (suc n)) = negsuc n
exit_code_of unclear = negsuc 0

-- The index into the table, held to its last entry.
unfoldable pub backoff_delay : ℕ → ℕ
backoff_delay idx = get_or backoff_ms (if leb backoff_len idx then backoff_len - 1 else idx) 0

unfoldable pub tunnel_on_exit : WaitStatus → ℕ → Tunnel → Tunnel
unfolding backoff_delay
tunnel_on_exit w now_ms t =
    let gone = record t { exit_code = exit_code_of w; pid = negsuc 0; stop_deadline_ms = 0 } in
    if not t.autostart_on_exit
    then record gone { state = ts_stopped; backoff_idx = 0 }
    else record gone {
      next_start_ms = add64 now_ms (backoff_delay t.backoff_idx);
      backoff_idx =
          if ltb t.backoff_idx (backoff_len - 1) then suc t.backoff_idx else t.backoff_idx;
      state = ts_backoff;
    }

-- A child that waitpid returned; an unknown one is only logged.
pub record Exit : Type 0 where
  pub pid : ℤ
  pub status : WaitStatus
  pub now_ms : ℕ

unfoldable pub exit_first : Exit → List Tunnel → List Tunnel
exit_first e [] = []
exit_first e (t ∷ ts) =
    if eqb_ℤ t.pid e.pid then tunnel_on_exit e.status e.now_ms t ∷ ts else t ∷ exit_first e ts

unfoldable pub supervisor_reap : List Exit → List Tunnel → List Tunnel
supervisor_reap [] ts = ts
supervisor_reap (e ∷ es) ts = supervisor_reap es (exit_first e ts)

-- What a tick finds for one tunnel: the child if it forks one, the clock behind that, and whether
-- wfb_tx answers.
pub record TickInput : Type 0 where
  pub child : Option ℤ
  pub started_us : ℕ
  pub answers : Bool

pub record TunnelTick : Type 0 where
  pub tunnel : Tunnel
  pub signals : List Signal
  pub respawned : Bool

unfoldable pub overdue : ℕ → Tunnel → Bool
overdue t_ms t = not (t.stop_deadline_ms == 0) && leb t.stop_deadline_ms t_ms && alive t

unfoldable pub kill_overdue : ℕ → Tunnel → Tunnel
kill_overdue t_ms t = if overdue t_ms t then record t { stop_deadline_ms = 0 } else t

unfoldable pub respawn_due : ℕ → Tunnel → Bool
respawn_due t_ms t = is_backoff t.state && leb t.next_start_ms t_ms

unfoldable pub query_due : ℕ → Tunnel → Bool
query_due t_us t =
    not (t.tx_init_query_after_us == 0)
    && leb t.tx_init_query_after_us t_us
    && alive t
    && is_running t.state

unfoldable pub query_tx : ℕ → Bool → Tunnel → Tunnel
query_tx t_us answers t =
    if query_due t_us t
    then record t { tx_init_query_after_us = if answers then 0 else add64 t_us 1_000_000 }
    else t

unfoldable pub respawn : TickInput → ℕ → Tunnel → Tunnel
respawn i t_ms t = if respawn_due t_ms t then tunnel_spawn i.child i.started_us t else t

unfoldable pub tick_tunnel : TickInput → ℕ → ℕ → Tunnel → TunnelTick
tick_tunnel i t_ms t_us t = record {
  tunnel = query_tx t_us i.answers (respawn i t_ms (kill_overdue t_ms t));
  signals = if overdue t_ms t then sigkill t.pid ∷ [] else [];
  respawned = respawn_due t_ms (kill_overdue t_ms t);
}

-- The routes on one tunnel.
unfoldable pub tunnel_start : Option ℤ → ℕ → Tunnel → Tunnel
tunnel_start child now_us t =
    if alive t
    then t
    else tunnel_spawn child now_us (record t { backoff_idx = 0; next_start_ms = 0 })

unfoldable pub tunnel_restart : ℕ → Tunnel → Tunnel × List Signal
tunnel_restart now_ms t =
    let (s, signals) = tunnel_request_stop now_ms t in
    let again = record s { autostart_on_exit = true; backoff_idx = 0 } in
    (
      if alive again then again else record again { state = ts_backoff; next_start_ms = now_ms },
      signals,
    )

-- `supervisor_stop_all_tunnels`: SIGTERM to all, rounds of reaping while a child is left, SIGKILL.
-- `term_ok` says that kill succeeds for a tunnel, `clock` what the clock shows behind it.
unfoldable pub stop_one : Bool → ℕ → Tunnel → Tunnel
stop_one term_ok now_ms t =
    if alive t
    then record t {
      autostart_on_exit = false;
      stop_deadline_ms = if term_ok then add64 now_ms stop_grace_ms else t.stop_deadline_ms;
    }
    else t

unfoldable pub any_alive : List Tunnel → Bool
any_alive [] = false
any_alive (t ∷ ts) = alive t || any_alive ts

unfoldable pub wait_rounds : List (List Exit) → List Tunnel → List Tunnel
wait_rounds [] ts = ts
wait_rounds (es ∷ rounds) ts =
    let rest = wait_rounds rounds (supervisor_reap es ts) in if any_alive ts then rest else ts

unfoldable pub kill_left : Tunnel → Tunnel
kill_left t = if alive t then record t { pid = negsuc 0 } else t

unfoldable pub stop_all_tunnels :
    (Tunnel → Bool) → (Tunnel → ℕ) → List (List Exit) → List Tunnel → List Tunnel
stop_all_tunnels term_ok clock rounds ts =
    map kill_left (wait_rounds rounds (map (λ t. stop_one (term_ok t) (clock t) t) ts))

unfoldable pub take_down : (Tunnel → Bool) → (Tunnel → ℕ) → List (List Exit) → Config → Config
take_down term_ok clock rounds c = record c {
  tunnels = stop_all_tunnels term_ok clock rounds c.tunnels;
  system_state = sys_down;
}

-- `ready` says that the interfaces came up in time.
unfoldable pub bring_up : Bool → Config → Config
bring_up ready c = record c { system_state = if ready then sys_up else sys_up_failed }

-- The loop of /api/v1/system/up and /api/v1/system/reinit, with the child of each tunnel.
unfoldable pub autostart_one : Option ℤ → ℕ → Tunnel → Tunnel
autostart_one child now_us t =
    if t.autostart && leb_ℤ t.pid (pos 0)
    then tunnel_spawn child now_us (record t { backoff_idx = 0; next_start_ms = 0 })
    else t
