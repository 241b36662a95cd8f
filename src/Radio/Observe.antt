-- ===== src/Radio/Observe.antt =====
-- `radio_apply_observation`, `radio_track_external_fec` and `wfb_stats_handle_datagram` of
-- vehicle/link_controller.c, with `json_get_int`.
use waybeam_wfb_ng.Base.{
  ℕ, ◌-◌, ◌^◌, Bool, true, not, ◌&&◌, ◌||◌, Option, none, some, List, [], ◌∷◌, ◌++◌, length, drop,
  ◌==◌, if◌then◌else◌,
}
use waybeam_wfb_ng.Base.Int.{ℤ, pos, negsuc, ltb_ℤ, leb_ℤ, eqb_ℤ}
use waybeam_wfb_ng.Base.Text.{codes, has_prefix}
use waybeam_wfb_ng.Base.Floating.{Floating}
use waybeam_wfb_ng.Fec.Types.{Controller}
use waybeam_wfb_ng.Fec.Controller.{arm_settle}
use waybeam_wfb_ng.Csa.Json.{strtoll}
use waybeam_wfb_ng.Csa.Machine.{and_then, int_or}
use waybeam_wfb_ng.Radio.Types.{LinkConfig, RadioState, Link, VencWrite}
use waybeam_wfb_ng.Radio.Rate.{phy_mbps}
use waybeam_wfb_ng.Radio.Bitrate.{bitrate_assert}

-- `strstr(s, pat)`, as the text behind the first occurrence.
unfoldable pub behind : List ℕ → List ℕ → Option (List ℕ)
behind pat [] = none
behind pat (c ∷ cs) =
    let rest = behind pat cs in
    if has_prefix pat (c ∷ cs) then some (drop (length pat) (c ∷ cs)) else rest

-- `while (*p == ' ' || *p == '\t' || *p == ':') p++;`
unfoldable pub skip_colon : List ℕ → List ℕ
skip_colon [] = []
skip_colon (c ∷ cs) =
    let rest = skip_colon cs in if c == b' ' || c == 9 || c == b':' then rest else c ∷ cs

-- `strtol` of a 32-bit long, from the 64-bit one: both saturate.
unfoldable pub to_long : ℤ × List ℕ → Option ℤ
to_long (v, rest) =
    let low = negsuc (2 ^ 31 - 1) in
    let high = pos (2 ^ 31 - 1) in
    some (if ltb_ℤ v low then low else if ltb_ℤ high v then high else v)

unfoldable pub json_get_int : List ℕ → List ℕ → Option ℤ
json_get_int s key =
    and_then (behind (b'"' ∷ key ++ (b'"' ∷ [])) s) λ p. and_then (strtoll (skip_colon p)) to_long

-- The seven fields of an observation.
pub record Observation : Type 0 where
  pub mcs : ℤ
  pub bw : ℤ
  pub gi : ℤ
  pub stbc : ℤ
  pub ldpc : ℤ
  pub vht_mode : ℤ
  pub vht_nss : ℤ

module _ (fp : Floating) where
  unfoldable pub observed : Observation → RadioState fp
  observed o = record {
    valid = true;
    short_gi = o.gi;
    bandwidth = o.bw;
    mcs = o.mcs;
    vht_mode = o.vht_mode;
    vht_nss = o.vht_nss;
    stbc = o.stbc;
    ldpc = o.ldpc;
    phy_mbps = phy_mbps fp o.mcs o.bw o.gi o.vht_mode o.vht_nss;
  }

  -- The fields of the rate are the ones of the last observation.
  unfoldable pub same_rate : RadioState fp → Observation → Bool
  same_rate r o =
      eqb_ℤ o.mcs r.mcs
      && eqb_ℤ o.bw r.bandwidth
      && eqb_ℤ o.gi r.short_gi
      && eqb_ℤ o.vht_mode r.vht_mode
      && eqb_ℤ o.vht_nss r.vht_nss

  unfoldable pub radio_apply_observation :
      LinkConfig fp
      → ℕ
      → Observation
      → RadioState fp
      → Controller fp
      → RadioState fp × Controller fp
  radio_apply_observation cfg now o radio ctrl = (
    observed o,
    if radio.valid && not (same_rate radio o) && cfg.fec.enabled
        then arm_settle fp now cfg.fec.mcs_settle_s ctrl
        else ctrl,
  )

-- The pair of sizes last known to be in the radio.
unfoldable pub radio_track_external_fec : ℤ → ℤ → ℤ × ℤ → ℤ × ℤ
radio_track_external_fec obs_k obs_n last =
    if leb_ℤ obs_k (pos 0) || leb_ℤ obs_n (pos 0) then last else (obs_k, obs_n)

-- The required fields of a statistics datagram, in the order in which they are read.
unfoldable pub parse_observation : List ℕ → Option Observation
parse_observation body = and_then (json_get_int body (codes "mcs")) λ mcs.
    and_then (json_get_int body (codes "bw")) λ bw.
      and_then (json_get_int body (codes "short_gi")) λ gi.
        and_then (json_get_int body (codes "stbc")) λ stbc.
          and_then (json_get_int body (codes "ldpc")) λ ldpc.
            and_then (json_get_int body (codes "vht_mode")) λ vht_mode.
              and_then (json_get_int body (codes "vht_nss")) λ vht_nss. some (record {
                mcs = mcs;
                bw = bw;
                gi = gi;
                stbc = stbc;
                ldpc = ldpc;
                vht_mode = vht_mode;
                vht_nss = vht_nss;
              })

-- What a datagram reads and writes.
pub record StatsState (fp : Floating) : Type 0 where
  pub radio : RadioState fp
  pub link : Link fp
  pub last_fec : ℤ × ℤ
  pub last_seq : ℤ

unfoldable pub note_seq : Option ℤ → ℤ → ℤ
note_seq none last = last
note_seq (some seq) last = if ltb_ℤ seq (pos 0) then last else seq

module _ (fp : Floating) (cfg : LinkConfig fp) (venc : VencWrite → Bool) (now : ℕ) where
  -- The datagram once its fields are read, with the request to the encoder.
  unfoldable pub apply_stats :
      List ℕ → Observation → StatsState fp → StatsState fp × Option VencWrite
  apply_stats body o s =
      let (radio, ctrl) = radio_apply_observation fp cfg now o s.radio s.link.ctrl in
      let r = bitrate_assert fp cfg radio venc now (record s.link { ctrl = ctrl }) in
      (
        record {
          radio = radio;
          link = r.link;
          last_fec =
              radio_track_external_fec (int_or (json_get_int body (codes "fec_k")) (negsuc 0))
                (int_or (json_get_int body (codes "fec_n")) (negsuc 0)) s.last_fec;
          last_seq = note_seq (json_get_int body (codes "seq")) s.last_seq;
        },
        r.sent,
      )

  unfoldable pub stats_parsed :
      List ℕ → Option Observation → StatsState fp → Option (StatsState fp × Option VencWrite)
  stats_parsed body none s = none
  stats_parsed body (some o) s = some (apply_stats body o s)

  -- `none` is the result -1, which leaves everything as it was.
  unfoldable pub wfb_stats_handle_datagram :
      List ℕ → StatsState fp → Option (StatsState fp × Option VencWrite)
  wfb_stats_handle_datagram body s =
      and_then (behind (codes "\"tx_stats\"") body)
        λ _. stats_parsed body (parse_observation body) s
