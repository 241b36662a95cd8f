-- ===== src/Ground/Limit.antt =====
-- The rate limit of the route /api/v1/cmd over a sequence of requests.
use waybeam_wfb_ng.Base.{
  ℕ, suc, ◌+◌, ◌-◌, ◌≤◌, ◌<◌, ◌≡◌, ◌≢◌, refl, sym, ap, ◌∙◌, true, false, not, ◌&&◌, if_cases,
  Option, none, some, List, [], ◌∷◌, length, length-set, get_or, set, get_or-set_self,
  get_or-set_ne, ltb, arith, ◌^◌,
}
use waybeam_wfb_ng.Base.Int.{ℤ, pos, negsuc, eqb_ℤ}
use waybeam_wfb_ng.Base.Word.{sub64_of_le, u64_mod}
use waybeam_wfb_ng.Base.Text.{codes}
use waybeam_wfb_ng.Ground.Decimal.{to_int32_int}
use waybeam_wfb_ng.Ground.Query.{qs_get, qs_get_int}
use waybeam_wfb_ng.Ground.Types.{Config, has_uplink}
use waybeam_wfb_ng.Ground.Command.{
  wcmd_key_from_str, WcmdGlobals, SendResult, Emitted, copies_sent, count_emit, wcmd_emit,
}
use waybeam_wfb_ng.Ground.Operator.{
  wcmd_key_max, Replied, turn_away, value_for, held_back, stamp, send_command, command, keyed,
  named, post_cmd,
}

-- A request, with what the supervisor and the clock are when it comes.
pub record Arrival : Type 0 where
  pub config : Config
  pub socket_errno : ℕ
  pub results : List SendResult
  pub now : ℕ
  pub later : ℕ
  pub query : List ℕ

-- A query that asks for a key, with a value where the key needs one.
pub record Asks (key : ℕ) (q : List ℕ) : Type 0 where
  pub name : List ℕ
  pub value : ℤ
  pub named : qs_get q (codes "key") ≡ some name
  pub known : wcmd_key_from_str name ≡ some key
  pub valued : value_for key (qs_get_int q (codes "value")) ≡ some value

module _ (c : Config) (socket_errno : ℕ) (results : List SendResult) where
  wcmd_emit-last_send_ms :
      (k : ℕ) (value : ℤ) (g : WcmdGlobals)
      → (wcmd_emit c socket_errno results k value g).globals.last_send_ms ≡ g.last_send_ms
  unfolding wcmd_emit count_emit
  wcmd_emit-last_send_ms k value g =
      if_cases (λ (e : Emitted). e.globals.last_send_ms ≡ g.last_send_ms)
        (not (c.venc_cmd_enabled && has_uplink c.venc_cmd_uplink c.tunnels)) (λ _. refl)
        λ _.
          if_cases (λ (e : Emitted). e.globals.last_send_ms ≡ g.last_send_ms) (ltb 0 socket_errno)
            (λ _. refl)
            λ _.
              if_cases (λ (h : WcmdGlobals). h.last_send_ms ≡ g.last_send_ms)
                (ltb 0 (copies_sent results)) (λ _. refl) (λ _. refl)

module _ (rate : ℕ) where
  unfoldable pub serve : Arrival → WcmdGlobals → Replied
  serve a g = post_cmd a.config (pos rate) a.socket_errno a.results a.now a.later a.query g

  unfoldable pub serve_all : List Arrival → WcmdGlobals → WcmdGlobals
  serve_all [] g = g
  serve_all (a ∷ rest) g = serve_all rest (serve a g).globals

  -- A time lies in the window that a command opened.
  abbrev pub InWindow : ℕ → ℕ → Type 0
  InWindow since t = (since ≤ t) × (t < since + rate) × (t < u64_mod)

  unfoldable pub AllInWindow : ℕ → List Arrival → Type 0
  AllInWindow since [] = Unit
  AllInWindow since (a ∷ rest) = InWindow since a.now × AllInWindow since rest

  module _ (key : ℕ) (pos_rate : 0 < rate) (small_rate : rate < 2 ^ 31) (l : 1 ≤ key)
      (u : key ≤ wcmd_key_max) (since : ℕ) (p : 0 < since) where
    -- The last command with the key was sent at `since`.
    abbrev IsStamped : WcmdGlobals → Type 0
    IsStamped g = (length g.last_send_ms ≡ suc wcmd_key_max) × (get_or g.last_send_ms key 0 ≡ since)

    module _ (c : Config) (socket_errno : ℕ) (results : List SendResult) (now later : ℕ) where
      stamped-held_back :
          (g : WcmdGlobals)
          → IsStamped g
          → InWindow since now
          → held_back c (pos rate) socket_errno results now later key g ≡ true
      unfolding held_back
      stamped-held_back g s (q, t, w) =
          rw (s.1, sub64_of_le now since q w, to_int32_int (pos (now - since)) (omega arith))
            (ground arith)

      emitted-IsStamped :
          (k : ℕ) (value : ℤ) (g : WcmdGlobals)
          → IsStamped g
          → IsStamped (wcmd_emit c socket_errno results k value g).globals
      emitted-IsStamped k value g s = rw (wcmd_emit-last_send_ms c socket_errno results k value g) s

      stamp-IsStamped :
          (k : ℕ) (e : Emitted)
          → k ≢ key
          → IsStamped e.globals
          → IsStamped (stamp c (pos rate) socket_errno results now later k e).globals
      unfolding stamp
      stamp-IsStamped k e n s = (
        length-set e.globals.last_send_ms k later ∙ s.0,
        get_or-set_ne e.globals.last_send_ms later 0 n ∙ s.1,
      )

      -- A key that is let through in the window is another one.
      other_key :
          (k : ℕ) (g : WcmdGlobals)
          → IsStamped g
          → InWindow since now
          → held_back c (pos rate) socket_errno results now later k g ≡ false
          → k ≢ key
      other_key k g s w free e =
          let held : true ≡ false =
            sym (stamped-held_back g s w)
            ∙ ap (λ i. held_back c (pos rate) socket_errno results now later i g) (sym e)
            ∙ free in
          cc

      -- Whatever a command does in the window, it does not move the time.
      command-IsStamped :
          (k : ℕ) (value : Option ℤ) (g : WcmdGlobals)
          → IsStamped g
          → InWindow since now
          → IsStamped (command c (pos rate) socket_errno results now later k value g).globals
      unfolding command send_command turn_away
      command-IsStamped k none g s w = s
      command-IsStamped k (some value) g s w =
          let e = wcmd_emit c socket_errno results k value g in
          let kept = emitted-IsStamped k value g s in
          if_cases (λ (r : Replied). IsStamped r.globals)
            (held_back c (pos rate) socket_errno results now later k g) (λ _. s)
            λ free.
              if_cases (λ (r : Replied). IsStamped r.globals) (eqb_ℤ e.rc (negsuc 0)) (λ _. kept)
                λ _.
                  if_cases (λ (r : Replied). IsStamped r.globals) (not (eqb_ℤ e.rc (pos 0)))
                    (λ _. kept) λ _. stamp-IsStamped k e (other_key k g s w free) kept

      keyed-IsStamped :
          (q : List ℕ) (k : Option ℕ) (g : WcmdGlobals)
          → IsStamped g
          → InWindow since now
          → IsStamped (keyed c (pos rate) socket_errno results now later q k g).globals
      unfolding keyed turn_away
      keyed-IsStamped q none g s w = s
      keyed-IsStamped q (some k) g s w =
          command-IsStamped k (value_for k (qs_get_int q (codes "value"))) g s w

      named-IsStamped :
          (q : List ℕ) (name : Option (List ℕ)) (g : WcmdGlobals)
          → IsStamped g
          → InWindow since now
          → IsStamped (named c (pos rate) socket_errno results now later q name g).globals
      unfolding named turn_away
      named-IsStamped q none g s w = s
      named-IsStamped q (some name) g s w = keyed-IsStamped q (wcmd_key_from_str name) g s w

    serve_all-IsStamped :
        (arrivals : List Arrival) (g : WcmdGlobals)
        → IsStamped g
        → AllInWindow since arrivals
        → IsStamped (serve_all arrivals g)
    unfolding serve_all serve AllInWindow post_cmd
    serve_all-IsStamped [] g s w = s
    serve_all-IsStamped (a ∷ rest) g s w =
        serve_all-IsStamped rest (serve a g).globals
          (named-IsStamped a.config a.socket_errno a.results a.now a.later a.query
            (qs_get a.query (codes "key")) g s w.0)
          w.1

  -- A query that asks for a key comes to a command with it.
  serve-command :
      (key : ℕ) (a : Arrival) (g : WcmdGlobals) (k : Asks key a.query)
      → serve a g
        ≡ command a.config (pos rate) a.socket_errno a.results a.now a.later key (some k.value) g
  unfolding serve post_cmd named keyed
  serve-command key a g k = rw (serve, post_cmd, k.named, named, k.known, keyed, k.valued) refl

  -- A reply of 200 has noted the time.
  abbrev Stamps : ℕ → ℕ → WcmdGlobals → Replied → Type 0
  Stamps key later g r =
      r.status ≡ 200
      → (length r.globals.last_send_ms ≡ length g.last_send_ms)
        × (get_or r.globals.last_send_ms key 0 ≡ later)

  command-Stamps :
      (c : Config) (socket_errno : ℕ) (results : List SendResult) (now later key : ℕ) (value : ℤ)
      (g : WcmdGlobals)
      → key < length g.last_send_ms
      → Stamps key later g (command c (pos rate) socket_errno results now later key (some value) g)
  unfolding command send_command stamp turn_away
  command-Stamps c socket_errno results now later key value g l =
      let e = wcmd_emit c socket_errno results key value g in
      if_cases (Stamps key later g) (held_back c (pos rate) socket_errno results now later key g)
        (λ _ h. absurd (omega arith))
        λ _.
          if_cases (Stamps key later g) (eqb_ℤ e.rc (negsuc 0)) (λ _ h. absurd (omega arith))
            λ _.
              if_cases (Stamps key later g) (not (eqb_ℤ e.rc (pos 0))) (λ _ h. absurd (omega arith))
                λ _ h.
                  let same = wcmd_emit-last_send_ms c socket_errno results key value g in
                  (
                    length-set e.globals.last_send_ms key later ∙ ap (λ ms. length ms) same,
                    ap (λ ms. get_or (set ms key later) key 0) same
                        ∙ get_or-set_self g.last_send_ms key later 0 l,
                  )

  -- An accepted command holds back the next ones with the same key: whatever requests come in
  -- between, for this key or others, one that asks for the key before the configured time has
  -- passed since the first was sent is answered with 429 and sends nothing. The key is one of those
  -- that the limit is for, from 1 to 16, the configured time is a positive int, and the clock has
  -- left zero and does not wrap around.
  pub serve-held_back :
      (key : ℕ) (first : Arrival) (between : List Arrival) (next : Arrival) (g : WcmdGlobals)
      → 0 < rate
      → rate < 2 ^ 31
      → 1 ≤ key
      → key ≤ wcmd_key_max
      → length g.last_send_ms ≡ suc wcmd_key_max
      → Asks key first.query
      → (serve first g).status ≡ 200
      → 0 < first.later
      → AllInWindow first.later between
      → Asks key next.query
      → InWindow first.later next.now
      → let r = serve next (serve_all between (serve first g).globals) in
        (r.status ≡ 429) × (r.frames ≡ [])
  unfolding command turn_away
  serve-held_back key first between next g pr sr l u n k ok p b k' w =
      let sent = serve-command key first g k in
      let noted =
        command-Stamps first.config first.socket_errno first.results first.now first.later key
          k.value g (omega arith) (ap (λ (r : Replied). r.status) (sym sent) ∙ ok) in
      let g1 = (serve first g).globals in
      let stamped : IsStamped key pr sr l u first.later p g1 = rw sent (noted.0 ∙ n, noted.1) in
      let g2 = serve_all between g1 in
      let kept = serve_all-IsStamped key pr sr l u first.later p between g1 stamped b in
      rw
        (
          serve-command key next g2 k',
          command,
          stamped-held_back key pr sr l u first.later p next.config next.socket_errno next.results
              next.now next.later g2 kept w,
        )
        (refl, refl)
