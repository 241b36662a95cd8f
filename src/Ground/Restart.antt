-- ===== src/Ground/Restart.antt =====
-- When a tunnel is started again, and when not.
use waybeam_wfb_ng.Base.{
  ℕ, ◌+◌, ◌≤◌, ◌<◌, ◌≡◌, ◌≢◌, refl, ap₂, Bool, true, false, not, ◌||◌, if_cases, List, [], ◌∷◌,
  arith,
}
use waybeam_wfb_ng.Base.Word.{add64, u64_mod}
use waybeam_wfb_ng.Ground.Types.{TunnelState, ts_stopped, Tunnel}
use waybeam_wfb_ng.Ground.Supervise.{IsSound}
use waybeam_wfb_ng.Ground.Tunnels.{
  is_backoff, is_running, alive, Signal, sigkill, tunnel_request_stop, WaitStatus, tunnel_on_exit,
  TickInput, overdue, kill_overdue, respawn_due, query_tx, query_due, respawn, tick_tunnel,
  stop_grace_ms,
}

-- What happens to a tunnel with no operator at hand.
pub data Quiet : Type 0 where
  ticked : TickInput → ℕ → ℕ → Quiet
  exit_seen : WaitStatus → ℕ → Quiet

-- The tunnel behind a sequence of such events, and whether one of them started it again.
unfoldable pub run_quiet : List Quiet → Tunnel → Tunnel × Bool
run_quiet [] t = (t, false)
run_quiet (ticked i t_ms t_us ∷ es) t =
    let k = tick_tunnel i t_ms t_us t in
    let rest = run_quiet es k.tunnel in (rest.0, k.respawned || rest.1)
run_quiet (exit_seen w now_ms ∷ es) t = run_quiet es (tunnel_on_exit w now_ms t)

running_not_backoff : (s : TunnelState) → is_running s ≡ true → is_backoff s ≡ false
running_not_backoff s h = ground arith

not_both : (b : Bool) → b ≡ false → not b ≢ false
not_both b h k = ground arith

-- No respawn is under way, and an exit will not cause one.
abbrev IsStopping : Tunnel → Type 0
IsStopping t = (t.autostart_on_exit ≡ false) × (is_backoff t.state ≡ false)

module _ (t : Tunnel) (s : IsStopping t) where
  kill_overdue-IsStopping : (t_ms : ℕ) → IsStopping (kill_overdue t_ms t)
  unfolding kill_overdue
  kill_overdue-IsStopping t_ms = if_cases IsStopping (overdue t_ms t) (λ _. (s.0, s.1)) (λ _. s)

  query_tx-IsStopping : (t_us : ℕ) (answers : Bool) → IsStopping (query_tx t_us answers t)
  unfolding query_tx
  query_tx-IsStopping t_us answers =
      if_cases IsStopping (query_due t_us t) (λ _. (s.0, s.1)) (λ _. s)

  stopping-not_due : (t_ms : ℕ) → respawn_due t_ms t ≡ false
  unfolding respawn_due
  stopping-not_due t_ms = rw s.1

  respawn-IsStopping : (i : TickInput) (t_ms : ℕ) → IsStopping (respawn i t_ms t)
  unfolding respawn
  respawn-IsStopping i t_ms = rw (respawn, stopping-not_due t_ms) s

  exit-IsStopping : (w : WaitStatus) (now_ms : ℕ) → IsStopping (tunnel_on_exit w now_ms t)
  unfolding tunnel_on_exit
  exit-IsStopping w now_ms =
      if_cases IsStopping (not t.autostart_on_exit) (λ _. (s.0, refl))
        (λ h. absurd (not_both t.autostart_on_exit s.0 h))

tick-IsStopping :
    (i : TickInput) (t_ms t_us : ℕ) (t : Tunnel)
    → IsStopping t
    → IsStopping (tick_tunnel i t_ms t_us t).tunnel
unfolding tick_tunnel
tick-IsStopping i t_ms t_us t s =
    let k = kill_overdue-IsStopping t s t_ms in
    query_tx-IsStopping (respawn i t_ms (kill_overdue t_ms t))
      (respawn-IsStopping (kill_overdue t_ms t) k i t_ms) t_us i.answers

stopping-stays : (es : List Quiet) (t : Tunnel) → IsStopping t → (run_quiet es t).1 ≡ false
unfolding run_quiet tick_tunnel
stopping-stays [] t s = refl
stopping-stays (ticked i t_ms t_us ∷ es) t s =
    ap₂ (λ a b. a || b)
      (stopping-not_due (kill_overdue t_ms t) (kill_overdue-IsStopping t s t_ms) t_ms)
      (stopping-stays es (tick_tunnel i t_ms t_us t).tunnel (tick-IsStopping i t_ms t_us t s))
stopping-stays (exit_seen w now_ms ∷ es) t s =
    stopping-stays es (tunnel_on_exit w now_ms t) (exit-IsStopping t s w now_ms)

-- A tunnel that the operator stopped is not started again by the ticks and the exits that follow.
-- The tunnel was sound: with a child it was running.
pub stopped-stays :
    (t : Tunnel) (now_ms : ℕ) (es : List Quiet)
    → IsSound t
    → (run_quiet es (tunnel_request_stop now_ms t).0).1 ≡ false
unfolding tunnel_request_stop
stopped-stays t now_ms es s =
    if_cases (λ (r : Tunnel × List Signal). (run_quiet es r.0).1 ≡ false) (alive t)
      (λ a.
        stopping-stays es
          (record t { autostart_on_exit = false; stop_deadline_ms = add64 now_ms stop_grace_ms })
          (refl, running_not_backoff t.state (s.child_runs a)))
      (λ _.
        stopping-stays es (record t { state = ts_stopped; autostart_on_exit = false }) (refl, refl))

overdue_after_grace :
    (t : Tunnel) (now_ms t_ms : ℕ)
    → alive t ≡ true
    → now_ms + stop_grace_ms ≤ t_ms
    → t_ms < u64_mod
    → overdue t_ms
        (record t { autostart_on_exit = false; stop_deadline_ms = add64 now_ms stop_grace_ms })
      ≡ true
unfolding overdue add64
overdue_after_grace t now_ms t_ms a l w = ground arith

-- A stopped child that ignores SIGTERM is killed by the first tick after the grace of 1 500 ms.
pub stopped-killed :
    (t : Tunnel) (now_ms t_ms t_us : ℕ) (i : TickInput)
    → alive t ≡ true
    → now_ms + stop_grace_ms ≤ t_ms
    → t_ms < u64_mod
    → (tick_tunnel i t_ms t_us (tunnel_request_stop now_ms t).0).signals ≡ sigkill t.pid ∷ []
unfolding tunnel_request_stop tick_tunnel
stopped-killed t now_ms t_ms t_us i a l w =
    let s = record t { autostart_on_exit = false; stop_deadline_ms = add64 now_ms stop_grace_ms } in
    let due : overdue t_ms s ≡ true = overdue_after_grace t now_ms t_ms a l w in rw (a, due)

-- A child that crashed.
module _ (t : Tunnel) (w : WaitStatus) (now_ms : ℕ) (keep : t.autostart_on_exit ≡ true)
    (sound : IsSound t) (clock : now_ms + 30_000 < u64_mod) where
  abbrev crashed : Tunnel
  crashed = tunnel_on_exit w now_ms t
