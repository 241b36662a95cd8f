-- ===== src/Radio/Types.antt =====
-- The types of the radio and bitrate code of vehicle/link_controller.c.
use waybeam_wfb_ng.Base.{ℕ, ◌+◌, ◌-◌, ◌%◌, ◌^◌, Bool, Option, List, ◌∷◌, []}
use waybeam_wfb_ng.Base.Int.{ℤ, pos, pos_part, neg_part}
use waybeam_wfb_ng.Base.Floating.{Floating}
use waybeam_wfb_ng.Fec.Types.{FecConfig, Controller}

pub record LinkConfig (fp : Floating) : Type 0 where
  pub fec : FecConfig fp
  pub dry_run : Bool

pub record RadioState (fp : Floating) : Type 0 where
  pub valid : Bool
  pub short_gi : ℤ
  pub bandwidth : ℤ
  pub mcs : ℤ
  pub vht_mode : ℤ
  pub vht_nss : ℤ
  pub stbc : ℤ
  pub ldpc : ℤ
  pub phy_mbps : fp.Float

-- The seven bytes of CMD_SET_RADIO.
pub record RadioBody : Type 0 where
  pub stbc : ℕ
  pub ldpc : ℕ
  pub short_gi : ℕ
  pub bandwidth : ℕ
  pub mcs_index : ℕ
  pub vht_mode : ℕ
  pub vht_nss : ℕ

pub record PayloadTier : Type 0 where
  pub bitrate_lt_kbps : ℤ
  pub payload_bytes : ℤ

abbrev pub tier : ℕ → ℕ → PayloadTier
tier lt bytes = record { bitrate_lt_kbps = pos lt; payload_bytes = pos bytes }

-- LONG_MAX of the vehicle, an armv7l machine whose long has 32 bits.
abbrev pub long_max : ℕ
long_max = 2 ^ 31 - 1

abbrev pub payload_table : List PayloadTier
payload_table =
    tier 2000 800
    ∷ tier 4000 1000
    ∷ tier 8000 1200
    ∷ tier 12000 1400
    ∷ tier 18000 2000
    ∷ tier 25000 2800
    ∷ tier long_max 3200
    ∷ []

-- What `bitrate_assert` reads and writes through its pointers: the FEC controller and the values
-- last written to the encoder, -1 for none yet.
pub record Link (fp : Floating) : Type 0 where
  pub ctrl : Controller fp
  pub last_written_kbps : ℤ
  pub last_written_payload : ℤ

-- One HTTP request to the encoder: the fields that its query sets.
pub record VencWrite : Type 0 where
  pub bitrate : Option ℤ
  pub payload : Option ℤ

-- `(uint8_t)` of an int.
unfoldable pub to_u8 : ℤ → ℕ
to_u8 x = (pos_part x + 256 - neg_part x % 256) % 256
