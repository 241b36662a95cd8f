-- ===== src/Ground/Command.antt =====
-- The ground station's side of the command channel: `wcmd_key_from_str`, `wcmd_key_name`,
-- `wcmd_emit`, `logsync_emit` and `recovery_emit` of ground/gs_supervisor.c. The result of each
-- sendto is a parameter.
use waybeam_wfb_ng.Base.{
  ℕ, suc, ◌+◌, ◌-◌, ◌/◌, ◌%◌, ◌^◌, not, ◌&&◌, ◌||◌, Option, none, some, List, [], ◌∷◌, ◌++◌,
  replicate, ltb, ◌==◌, if◌then◌else◌,
}
use waybeam_wfb_ng.Base.Int.{ℤ, pos, negsuc}
use waybeam_wfb_ng.Base.Word.{inc64}
use waybeam_wfb_ng.Base.Text.{codes, bytes_eq}
use waybeam_wfb_ng.Csa.Machine.{to_int32}
use waybeam_wfb_ng.Ground.Types.{Config, has_uplink}

-- The comparisons of `wcmd_key_from_str`, in their order.
abbrev pub from_str_table : List (List ℕ × ℕ)
from_str_table =
    (codes "bitrate_kbps", 1)
    ∷ (codes "fps", 2)
    ∷ (codes "payload_bytes", 3)
    ∷ (codes "force_idr", 4)
    ∷ (codes "wfb_fec_k", 5)
    ∷ (codes "wfb_fec_n", 6)
    ∷ (codes "wfb_mcs", 7)
    ∷ (codes "wfb_bandwidth", 8)
    ∷ (codes "wfb_ldpc", 9)
    ∷ (codes "wfb_stbc", 10)
    ∷ (codes "wfb_short_gi", 11)
    ∷ (codes "fec_enabled", 12)
    ∷ (codes "mcs_enabled", 13)
    ∷ (codes "wfb_txpower", 14)
    ∷ (codes "record", 15)
    ∷ (codes "peek_enabled", 16)
    ∷ (codes "return_apfpv", 20)
    ∷ []

unfoldable pub lookup_text : List ℕ → List (List ℕ × ℕ) → Option ℕ
lookup_text s [] = none
lookup_text s ((name, key) ∷ es) = if bytes_eq s name then some key else lookup_text s es

-- `none` for -1.
unfoldable pub wcmd_key_from_str : List ℕ → Option ℕ
unfolding lookup_text
wcmd_key_from_str s = lookup_text s from_str_table

-- The switch of `wcmd_key_name`.
abbrev pub name_table : List (ℕ × List ℕ)
name_table =
    (1, codes "bitrate_kbps")
    ∷ (2, codes "fps")
    ∷ (3, codes "payload_bytes")
    ∷ (4, codes "force_idr")
    ∷ (5, codes "wfb_fec_k")
    ∷ (6, codes "wfb_fec_n")
    ∷ (7, codes "wfb_mcs")
    ∷ (8, codes "wfb_bandwidth")
    ∷ (9, codes "wfb_ldpc")
    ∷ (10, codes "wfb_stbc")
    ∷ (11, codes "wfb_short_gi")
    ∷ (12, codes "fec_enabled")
    ∷ (13, codes "mcs_enabled")
    ∷ (14, codes "wfb_txpower")
    ∷ (15, codes "record")
    ∷ (16, codes "peek_enabled")
    ∷ (20, codes "return_apfpv")
    ∷ []

unfoldable pub lookup_key : ℕ → List (ℕ × List ℕ) → List ℕ
lookup_key key [] = codes "?"
lookup_key key ((k, name) ∷ es) = if key == k then name else lookup_key key es

unfoldable pub wcmd_key_name : ℕ → List ℕ
unfolding lookup_key
wcmd_key_name key = lookup_key key name_table

-- `htons` and `htonl`: the bytes as they lie in the datagram.
abbrev pub be16 : ℕ → List ℕ
be16 n = n / 256 % 256 ∷ n % 256 ∷ []

abbrev pub be32 : ℕ → List ℕ
be32 n = n / 2 ^ 24 % 256 ∷ n / 2 ^ 16 % 256 ∷ n / 256 % 256 ∷ n % 256 ∷ []

-- `(uint32_t)` of an int32_t.
abbrev pub to_u32 : ℤ → ℕ
to_u32 (pos n) = n % 2 ^ 32
to_u32 (negsuc n) = 2 ^ 32 - 1 - n % 2 ^ 32

abbrev pub wcmd_magic : ℕ
wcmd_magic = 0x57434d44

-- The sixteen bytes of a request: header, key, reserved bytes, value.
unfoldable pub request_bytes : ℕ → ℕ → ℤ → List ℕ
request_bytes seq key value =
    be32 wcmd_magic ++ (1 ∷ 1 ∷ be16 seq) ++ (key % 256 ∷ 0 ∷ 0 ∷ 0 ∷ []) ++ be32 (to_u32 value)

-- The counters of the senders, and the times of the last operator commands.
pub record WcmdGlobals : Type 0 where
  pub wcmd_seq : ℕ
  pub emit_total : ℕ
  pub emit_frames : ℕ
  pub emit_rate_limit : ℕ
  pub emit_failed : ℕ
  pub logsync_total : ℕ
  pub recovery_total : ℕ
  pub recovery_failed : ℕ
  pub last_send_ms : List ℕ

-- What one sendto did: the datagram went out whole, or an errno.
pub data SendResult : Type 0 where
  sent : SendResult
  failed : ℕ → SendResult

-- The copies that went out, and the errno of the last that did not (0 for none).
unfoldable pub copies_sent : List SendResult → ℕ
copies_sent [] = 0
copies_sent (sent ∷ rs) = suc (copies_sent rs)
copies_sent (failed e ∷ rs) = copies_sent rs

unfoldable pub last_errno : ℕ → List SendResult → ℕ
last_errno err [] = err
last_errno err (sent ∷ rs) = last_errno err rs
last_errno err (failed e ∷ rs) = last_errno e rs

-- What a sender leaves: the counters, the frames on the wire, and the result: 0, an errno, or -1.
pub record Emitted : Type 0 where
  pub globals : WcmdGlobals
  pub frames : List (List ℕ)
  pub rc : ℤ

-- `++g_wcmd_seq` on uint16_t.
abbrev pub next_seq : WcmdGlobals → ℕ
next_seq g = (g.wcmd_seq + 1) % 2 ^ 16

unfoldable pub rc_of : ℕ → List SendResult → ℤ
unfolding last_errno
rc_of copies results =
    let err = last_errno 0 results in
    if ltb 0 copies then pos 0 else if err == 0 then negsuc 0 else pos err

unfoldable pub count_emit : ℕ → WcmdGlobals → WcmdGlobals
count_emit copies g =
    if ltb 0 copies
    then record g {
      emit_total = inc64 g.emit_total;
      emit_frames = (g.emit_frames + copies) % 2 ^ 64;
    }
    else record g { emit_failed = inc64 g.emit_failed }

-- `results` holds one entry for each copy of the burst; `socket_errno` is 0 if the socket opened.
unfoldable pub wcmd_emit : Config → ℕ → List SendResult → ℕ → ℤ → WcmdGlobals → Emitted
unfolding copies_sent rc_of count_emit
wcmd_emit c socket_errno results key value g =
    let seq = next_seq g in
    let copies = copies_sent results in
    if not (c.venc_cmd_enabled && has_uplink c.venc_cmd_uplink c.tunnels)
    then record { globals = g; frames = []; rc = negsuc 0 }
    else if ltb 0 socket_errno
    then record { globals = g; frames = []; rc = pos socket_errno }
    else record {
      globals = count_emit copies (record g { wcmd_seq = seq });
      frames = replicate copies (request_bytes seq key value);
      rc = rc_of copies results;
    }

abbrev pub key_log_sync : ℕ
key_log_sync = 18

abbrev pub key_recovery : ℕ
key_recovery = 64

unfoldable pub logsync_emit : Config → ℕ → List SendResult → ℤ → WcmdGlobals → Emitted
unfolding copies_sent
logsync_emit c socket_errno results unix_s g =
    let seq = next_seq g in
    let copies = copies_sent results in
    let counted = record g { wcmd_seq = seq } in
    if not (c.venc_cmd_enabled && has_uplink c.venc_cmd_uplink c.tunnels) || ltb 0 socket_errno
    then record { globals = g; frames = []; rc = pos 0 }
    else record {
      globals =
          if ltb 0 copies
          then record counted { logsync_total = inc64 g.logsync_total }
          else counted;
      frames = replicate copies (request_bytes seq key_log_sync (to_int32 unix_s));
      rc = pos 0;
    }

unfoldable pub recovery_emit : Config → ℕ → List SendResult → WcmdGlobals → Emitted
unfolding copies_sent rc_of
recovery_emit c socket_errno results g =
    let seq = next_seq g in
    let copies = copies_sent results in
    let counted = record g { wcmd_seq = seq } in
    if not (c.recovery_cmd_enabled && has_uplink c.recovery_cmd_tunnel c.tunnels)
    then record { globals = g; frames = []; rc = negsuc 0 }
    else if ltb 0 socket_errno
    then record { globals = g; frames = []; rc = pos socket_errno }
    else record {
      globals =
          if ltb 0 copies
          then record counted { recovery_total = inc64 g.recovery_total }
          else record counted { recovery_failed = inc64 g.recovery_failed };
      frames = replicate copies (request_bytes seq key_recovery (pos 0));
      rc = rc_of copies results;
    }
