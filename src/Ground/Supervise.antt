-- ===== src/Ground/Supervise.antt =====
-- What the supervision of a tunnel keeps true, whatever happens to it.
use waybeam_wfb_ng.Base.{
  ℕ, ◌≤◌, ◌≡◌, refl, Bool, true, false, not, ◌&&◌, if_cases, and_right, Option, none, some, List,
  arith,
}
use waybeam_wfb_ng.Base.Int.{ℤ, pos, leb_ℤ}
use waybeam_wfb_ng.Ground.Types.{Tunnel}
use waybeam_wfb_ng.Ground.Tunnels.{
  is_backoff, is_running, alive, tunnel_spawn, Signal, tunnel_request_stop, WaitStatus,
  tunnel_on_exit, TickInput, overdue, kill_overdue, respawn_due, query_tx, query_due, respawn,
  tick_tunnel, tunnel_start, tunnel_restart, stop_one, kill_left, autostart_one,
}

-- The tunnel has a child only while it runs, waits without one, and its place in the table is one.
pub record IsSound (t : Tunnel) : Type 0 where
  pub in_table : t.backoff_idx ≤ 6
  pub waits_alone : is_backoff t.state ≡ true → alive t ≡ false
  pub child_runs : alive t ≡ true → is_running t.state ≡ true

-- What can happen to a tunnel.
pub data TunnelEvent : Type 0 where
  ticked : TickInput → ℕ → ℕ → TunnelEvent
  exit_seen : WaitStatus → ℕ → TunnelEvent
  started : Option ℤ → ℕ → TunnelEvent
  stop_asked : ℕ → TunnelEvent
  restart_asked : ℕ → TunnelEvent
  system_stop : Bool → ℕ → TunnelEvent
  system_kill : TunnelEvent
  system_start : Option ℤ → ℕ → TunnelEvent

unfoldable pub on_event : TunnelEvent → Tunnel → Tunnel
on_event (ticked i t_ms t_us) t = (tick_tunnel i t_ms t_us t).tunnel
on_event (exit_seen w now_ms) t = tunnel_on_exit w now_ms t
on_event (started child now_us) t = tunnel_start child now_us t
on_event (stop_asked now_ms) t = (tunnel_request_stop now_ms t).0
on_event (restart_asked now_ms) t = (tunnel_restart now_ms t).0
on_event (system_stop term_ok now_ms) t = stop_one term_ok now_ms t
on_event system_kill t = kill_left t
on_event (system_start child now_us) t = autostart_one child now_us t

module _ (t : Tunnel) where
  spawn-IsSound :
      (child : Option ℤ) (now_us : ℕ)
      → t.backoff_idx ≤ 6
      → alive t ≡ false
      → IsSound (tunnel_spawn child now_us t)
  unfolding tunnel_spawn
  spawn-IsSound none now_us h a = record {
    in_table = h;
    waits_alone = λ e. cc;
    child_runs = λ e. ground arith;
  }
  spawn-IsSound (some pid) now_us h a = record {
    in_table = h;
    waits_alone = λ e. cc;
    child_runs = λ e. refl;
  }

  exit-IsSound : (w : WaitStatus) (now_ms : ℕ) → IsSound t → IsSound (tunnel_on_exit w now_ms t)
  unfolding tunnel_on_exit
  exit-IsSound w now_ms s =
      if_cases IsSound (not t.autostart_on_exit)
        (λ _. record { in_table = omega arith; waits_alone = λ e. refl; child_runs = λ e. cc })
        (λ _. record {
          in_table = ground (arith, s.in_table);
          waits_alone = λ e. refl;
          child_runs = λ e. cc;
        })

  request_stop-IsSound : (now_ms : ℕ) → IsSound t → IsSound (tunnel_request_stop now_ms t).0
  unfolding tunnel_request_stop
  request_stop-IsSound now_ms s =
      if_cases (λ (r : Tunnel × List Signal). IsSound r.0) (alive t)
        (λ a. record {
          in_table = s.in_table;
          waits_alone = s.waits_alone;
          child_runs = s.child_runs;
        })
        (λ a. record {
          in_table = s.in_table;
          waits_alone = λ e. a;
          child_runs = λ e. ground arith;
        })

  -- A change of other fields keeps a sound tunnel sound.
  kill_overdue-IsSound : (t_ms : ℕ) → IsSound t → IsSound (kill_overdue t_ms t)
  unfolding kill_overdue
  kill_overdue-IsSound t_ms s =
      if_cases IsSound (overdue t_ms t)
        (λ _. record {
          in_table = s.in_table;
          waits_alone = s.waits_alone;
          child_runs = s.child_runs;
        })
        (λ _. s)

  query_tx-IsSound : (t_us : ℕ) (answers : Bool) → IsSound t → IsSound (query_tx t_us answers t)
  unfolding query_tx
  query_tx-IsSound t_us answers s =
      if_cases IsSound (query_due t_us t)
        (λ _. record {
          in_table = s.in_table;
          waits_alone = s.waits_alone;
          child_runs = s.child_runs;
        })
        (λ _. s)

  respawn_due-waits : (t_ms : ℕ) → respawn_due t_ms t ≡ true → is_backoff t.state ≡ true
  unfolding respawn_due
  respawn_due-waits t_ms h = ground arith

  respawn-IsSound : (i : TickInput) (t_ms : ℕ) → IsSound t → IsSound (respawn i t_ms t)
  unfolding respawn
  respawn-IsSound i t_ms s =
      if_cases IsSound (respawn_due t_ms t)
        (λ due.
          spawn-IsSound i.child i.started_us s.in_table
            (s.waits_alone (respawn_due-waits t_ms due)))
        (λ _. s)

  stop_one-IsSound : (term_ok : Bool) (now_ms : ℕ) → IsSound t → IsSound (stop_one term_ok now_ms t)
  unfolding stop_one
  stop_one-IsSound term_ok now_ms s =
      if_cases IsSound (alive t)
        (λ _. record {
          in_table = s.in_table;
          waits_alone = s.waits_alone;
          child_runs = s.child_runs;
        })
        (λ _. s)

  kill_left-IsSound : IsSound t → IsSound (kill_left t)
  unfolding kill_left
  kill_left-IsSound s =
      if_cases IsSound (alive t)
        (λ _. record { in_table = s.in_table; waits_alone = λ e. refl; child_runs = λ e. cc })
        (λ _. s)

  not_alive : leb_ℤ t.pid (pos 0) ≡ true → alive t ≡ false
  not_alive h = ground arith

-- A tunnel started afresh.
abbrev fresh : Tunnel → Tunnel
fresh t = record t { backoff_idx = 0; next_start_ms = 0 }

tunnel_start-IsSound :
    (t : Tunnel) (child : Option ℤ) (now_us : ℕ) → IsSound t → IsSound (tunnel_start child now_us t)
unfolding tunnel_start
tunnel_start-IsSound t child now_us s =
    if_cases IsSound (alive t) (λ _. s) (λ a. spawn-IsSound (fresh t) child now_us (omega arith) a)

autostart_one-IsSound :
    (t : Tunnel) (child : Option ℤ) (now_us : ℕ)
    → IsSound t
    → IsSound (autostart_one child now_us t)
unfolding autostart_one
autostart_one-IsSound t child now_us s =
    if_cases IsSound (t.autostart && leb_ℤ t.pid (pos 0))
      (λ a.
        spawn-IsSound (fresh t) child now_us (omega arith)
          (not_alive t (and_right t.autostart (leb_ℤ t.pid (pos 0)) a)))
      (λ _. s)

tunnel_restart-IsSound : (t : Tunnel) (now_ms : ℕ) → IsSound t → IsSound (tunnel_restart now_ms t).0
unfolding tunnel_restart
tunnel_restart-IsSound t now_ms s =
    let stopped = request_stop-IsSound t now_ms s in
    if_cases IsSound (alive (tunnel_request_stop now_ms t).0)
      (λ a. record {
        in_table = omega arith;
        waits_alone = stopped.waits_alone;
        child_runs = stopped.child_runs;
      })
      (λ a. record { in_table = omega arith; waits_alone = λ e. a; child_runs = λ e. ground arith })

-- Whatever happens to a sound tunnel, it stays sound: a child means that it runs, a tunnel that
-- waits for its respawn has none, and its place in the table of delays exists.
pub on_event-IsSound : (e : TunnelEvent) (t : Tunnel) → IsSound t → IsSound (on_event e t)
unfolding on_event tick_tunnel
on_event-IsSound (ticked i t_ms t_us) t s =
    query_tx-IsSound (respawn i t_ms (kill_overdue t_ms t)) t_us i.answers
      (respawn-IsSound (kill_overdue t_ms t) i t_ms (kill_overdue-IsSound t t_ms s))
on_event-IsSound (exit_seen w now_ms) t s = exit-IsSound t w now_ms s
on_event-IsSound (started child now_us) t s = tunnel_start-IsSound t child now_us s
on_event-IsSound (stop_asked now_ms) t s = request_stop-IsSound t now_ms s
on_event-IsSound (restart_asked now_ms) t s = tunnel_restart-IsSound t now_ms s
on_event-IsSound (system_stop term_ok now_ms) t s = stop_one-IsSound t term_ok now_ms s
on_event-IsSound system_kill t s = kill_left-IsSound t s
on_event-IsSound (system_start child now_us) t s = autostart_one-IsSound t child now_us s
