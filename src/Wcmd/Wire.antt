-- ===== src/Wcmd/Wire.antt =====
-- The demultiplexer of vehicle/link_controller.c's main loop: a datagram that begins with the magic,
-- the version and the type of a request is one, and its fields are in network byte order.
use waybeam_wfb_ng.Base.{ℕ, ◌+◌, ◌*◌, ◌^◌, ◌&&◌, Option, none, some, List, ◌∷◌, ◌==◌, if◌then◌else◌}
use waybeam_wfb_ng.Base.Int.{pos}
use waybeam_wfb_ng.Csa.Machine.{to_int32}
use waybeam_wfb_ng.Wcmd.Types.{WcmdReq}

-- `ntohs` and `ntohl`
abbrev pub ntohs : ℕ → ℕ → ℕ
ntohs a b = a * 256 + b

abbrev pub ntohl : ℕ → ℕ → ℕ → ℕ → ℕ
ntohl a b c d = a * 2 ^ 24 + b * 2 ^ 16 + c * 256 + d

-- A datagram of less than sixteen bytes is no request; further bytes are ignored.
unfoldable pub read_request : List ℕ → Option WcmdReq
read_request
      (m0 ∷ m1 ∷ m2 ∷ m3 ∷ version ∷ type ∷ s0 ∷ s1 ∷ key ∷ flags ∷ p0 ∷ p1 ∷ v0 ∷ v1 ∷ v2 ∷ v3
        ∷ rest) =
    if ntohl m0 m1 m2 m3 == 0x57434d44 && version == 1 && type == 1
    then some (record { key = key; seq = ntohs s0 s1; value = to_int32 (pos (ntohl v0 v1 v2 v3)) })
    else none
read_request _ = none
