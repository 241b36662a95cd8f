-- ===== src/Ground/Wire.antt =====
-- Commands on the wire: names and numbers of keys, and requests that the vehicle reads back.
use waybeam_wfb_ng.Base.{
  ℕ, zero, suc, ◌+◌, ◌*◌, ◌/◌, ◌%◌, ◌^◌, ◌≤◌, ◌<◌, ◌≡◌, ◌≢◌, refl, ap, Bool, true, false, not, ◌&&◌,
  if_cases, inl, inr, ◌⊎◌, Option, some, List, [], ◌∷◌, length, replicate, length-replicate, ltb,
  if◌then◌else◌, arith,
}
use waybeam_wfb_ng.Base.Int.{ℤ, pos, negsuc}
use waybeam_wfb_ng.Base.Text.{bytes_eq, bytes_eq-eq}
use waybeam_wfb_ng.Csa.Machine.{to_int32}
use waybeam_wfb_ng.Wcmd.Types.{WcmdReq}
use waybeam_wfb_ng.Wcmd.Wire.{read_request}
use waybeam_wfb_ng.Ground.Decimal.{IsInt32}
use waybeam_wfb_ng.Ground.Types.{Config, has_uplink}
use waybeam_wfb_ng.Ground.Command.{
  from_str_table, count_emit, rc_of, lookup_text, wcmd_key_from_str, wcmd_key_name, to_u32,
  request_bytes, WcmdGlobals, SendResult, sent, failed, copies_sent, Emitted, next_seq, wcmd_emit,
}

-- A property of every entry of the table of names holds of what is found there.
abbrev pub AllEntries : (List ℕ → ℕ → Type 0) → List (List ℕ × ℕ) → Type 0
AllEntries P [] = Unit
AllEntries P ((name, key) ∷ es) = P name key × AllEntries P es

-- By the test of the first entry.
module _ (s name : List ℕ) (key k : ℕ) (rest : Option ℕ) where
  first_or_rest :
      (b : Bool)
      → (if b then some k else rest) ≡ some key
      → ((b ≡ true) × (k ≡ key)) ⊎ (rest ≡ some key)
  first_or_rest true h = inl (refl, cc)
  first_or_rest false h = inr h

pub lookup_text-AllEntries :
    (P : List ℕ → ℕ → Type 0) (s : List ℕ) (key : ℕ) (es : List (List ℕ × ℕ))
    → AllEntries P es
    → lookup_text s es ≡ some key
    → P s key
unfolding lookup_text
lookup_text-AllEntries P s key [] a h = cc
lookup_text-AllEntries P s key ((name, k) ∷ es) a h =
    elim (first_or_rest s name key k (lookup_text s es) (bytes_eq s name) h) [
      | inl e ↦ rw (bytes_eq-eq s name e.0, ← e.1) a.0
      | inr r ↦ lookup_text-AllEntries P s key es a.1 r
    ]

names_agree : AllEntries (λ name key. wcmd_key_name key ≡ name) from_str_table
unfolding wcmd_key_name
names_agree = (
  refl,
  (
    refl,
    (
      refl,
      (
        refl,
        (
          refl,
          (
            refl,
            (
              refl,
              (refl, (refl, (refl, (refl, (refl, (refl, (refl, (refl, (refl, (refl, tt)))))))))),
            ),
          ),
        ),
      ),
    ),
  ),
)

listed-back :
    AllEntries (λ name key. wcmd_key_from_str (wcmd_key_name key) ≡ some key) from_str_table
unfolding wcmd_key_from_str wcmd_key_name
listed-back = (
  refl,
  (
    refl,
    (
      refl,
      (
        refl,
        (
          refl,
          (
            refl,
            (
              refl,
              (refl, (refl, (refl, (refl, (refl, (refl, (refl, (refl, (refl, (refl, tt)))))))))),
            ),
          ),
        ),
      ),
    ),
  ),
)

-- The number that a name has is printed as that name, and read back from what is printed.
pub wcmd_key_name-wcmd_key_from_str :
    (s : List ℕ) (key : ℕ)
    → wcmd_key_from_str s ≡ some key
    → (wcmd_key_name key ≡ s) × (wcmd_key_from_str (wcmd_key_name key) ≡ some key)
unfolding wcmd_key_from_str
wcmd_key_name-wcmd_key_from_str s key h = (
  lookup_text-AllEntries (λ name k. wcmd_key_name k ≡ name) s key from_str_table names_agree h,
  lookup_text-AllEntries (λ name k. lookup_text (wcmd_key_name k) from_str_table ≡ some k) s key
      from_str_table listed-back h,
)

to_u32_back : (v : ℤ) → IsInt32 v → to_int32 (pos (to_u32 v)) ≡ v
unfolding to_int32
to_u32_back (pos n) h = ground arith
to_u32_back (negsuc n) h = ground arith

byte16 : (n : ℕ) → n < 2 ^ 16 → n / 256 % 256 * 256 + n % 256 ≡ n
byte16 n h = omega arith

byte32 :
    (n : ℕ)
    → n < 2 ^ 32
    → n / 2 ^ 24 % 256 * 2 ^ 24 + n / 2 ^ 16 % 256 * 2 ^ 16 + n / 256 % 256 * 256 + n % 256 ≡ n
byte32 n h = omega arith

to_u32_lt : (v : ℤ) → to_u32 v < 2 ^ 32
to_u32_lt (pos n) = omega arith
to_u32_lt (negsuc n) = omega arith

-- The vehicle reads from the sixteen bytes of a request what the ground station put there.
pub read_request-request_bytes :
    (seq key : ℕ) (value : ℤ)
    → seq < 2 ^ 16
    → key < 256
    → IsInt32 value
    → read_request (request_bytes seq key value)
      ≡ some (record { key = key; seq = seq; value = value })
unfolding read_request request_bytes
read_request-request_bytes seq key value s k v =
    let made : ℕ → Option WcmdReq = λ k'. some (record { key = k'; seq = seq; value = value }) in
    rw (byte16 seq s, byte32 (to_u32 value) (to_u32_lt value), to_u32_back value v)
      (ap made (omega arith))

-- Every datagram of a list is read as the request.
abbrev pub AllRead : WcmdReq → List (List ℕ) → Type 0
AllRead req [] = Unit
AllRead req (f ∷ fs) = (read_request f ≡ some req) × AllRead req fs

AllRead-replicate :
    (req : WcmdReq) (n : ℕ) (f : List ℕ) → read_request f ≡ some req → AllRead req (replicate n f)
AllRead-replicate req zero f h = tt
AllRead-replicate req (suc n) f h = (h, AllRead-replicate req n f h)

copies_sent-le : (rs : List SendResult) → copies_sent rs ≤ length rs
unfolding copies_sent
copies_sent-le [] = omega arith
copies_sent-le (sent ∷ rs) = omega (arith, copies_sent-le rs)
copies_sent-le (failed e ∷ rs) = omega (arith, copies_sent-le rs)

next_seq_lt : (g : WcmdGlobals) → next_seq g < 2 ^ 16
next_seq_lt g = omega arith

error_for_none : (rs : List SendResult) → rc_of 0 rs ≢ pos 0
unfolding rc_of
error_for_none rs e = ground arith

some_or_error :
    (n : ℕ) (rs : List SendResult) (f : List ℕ)
    → (rc_of n rs ≢ pos 0) ⊎ (0 < length (replicate n f))
some_or_error zero rs f = inl (error_for_none rs)
some_or_error (suc n) rs f = inr (omega arith)

errno_not_zero : (n : ℕ) → ltb 0 n ≡ true → pos n ≢ pos 0
errno_not_zero n h e = ground arith

count_emit-seq : (n : ℕ) (g : WcmdGlobals) → (count_emit n g).wcmd_seq ≡ g.wcmd_seq
unfolding count_emit
count_emit-seq n g =
    if_cases (λ (h : WcmdGlobals). h.wcmd_seq ≡ g.wcmd_seq) (ltb 0 n) (λ _. refl) (λ _. refl)

-- What a call of `wcmd_emit` puts on the wire.
pub record IsEmitted (n : ℕ) (g : WcmdGlobals) (req : WcmdReq) (e : Emitted) : Type 0 where
  pub read : AllRead req e.frames
  pub few : length e.frames ≤ n
  pub some_went : (e.rc ≢ pos 0) ⊎ (0 < length e.frames)
  pub counted : (length e.frames ≡ 0) ⊎ (e.globals.wcmd_seq ≡ req.seq)

-- The datagrams that a call of `wcmd_emit` sends are at most as many as the copies it tries; the
-- vehicle reads each of them as the same request: the key, the value, and the next sequence number.
-- If the call reports success, at least one went out, and if one went out the number is used up.
pub wcmd_emit-IsEmitted :
    (c : Config) (socket_errno : ℕ) (results : List SendResult) (key : ℕ) (value : ℤ)
    (g : WcmdGlobals)
    → key < 256
    → IsInt32 value
    → IsEmitted
        (length results)
        g
        (record { key = key; seq = next_seq g; value = value })
        (wcmd_emit c socket_errno results key value g)
unfolding wcmd_emit
wcmd_emit-IsEmitted c socket_errno results key value g k v =
    let req : WcmdReq = record { key = key; seq = next_seq g; value = value } in
    let n = copies_sent results in
    let frame = request_bytes (next_seq g) key value in
    if_cases (IsEmitted (length results) g req)
      (not (c.venc_cmd_enabled && has_uplink c.venc_cmd_uplink c.tunnels))
      (λ _. record { read = tt; few = omega arith; some_went = inl (λ h. cc); counted = inl refl })
      λ _.
        if_cases (IsEmitted (length results) g req) (ltb 0 socket_errno)
          (λ bad. record {
            read = tt;
            few = omega arith;
            some_went = inl (errno_not_zero socket_errno bad);
            counted = inl refl;
          })
          (λ _. record {
            read =
                AllRead-replicate req n frame
                  (read_request-request_bytes (next_seq g) key value (next_seq_lt g) k v);
            few = omega (arith, copies_sent-le results, length-replicate n frame);
            some_went = some_or_error n results frame;
            counted = inr (count_emit-seq n (record g { wcmd_seq = next_seq g }));
          })
