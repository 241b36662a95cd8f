-- ===== src/Ground/Frame.antt =====
-- The text of the csa_commit frame that ground/gs_supervisor_csa.c sends, read back with the
-- vehicle's extractor.
use waybeam_wfb_ng.Base.{
  ℕ, zero, suc, ◌≤◌, ◌<◌, ◌^◌, ◌≡◌, refl, ap, Bool, false, some, List, [], ◌∷◌, ◌++◌, length, ◌==◌,
  arith,
}
use waybeam_wfb_ng.Base.Int.{ℤ}
use waybeam_wfb_ng.Base.Text.{codes, skip_spaces}
use waybeam_wfb_ng.Csa.Json.{
  begins, drop_bytes, find_key_from, find_key, quoted_text, get_str, get_int, strtoll,
}
use waybeam_wfb_ng.Ground.Decimal.{decimal, decimal_int, IsInt32, AllNot}

-- What `csa_send_commit_frame` prints.
pub record Announcement : Type 0 where
  pub sess : ℕ
  pub seq : ℕ
  pub target_chan : ℤ
  pub target_ht : List ℕ
  pub dt_ms : ℤ
  pub t_revert_ms : ℤ
  pub prev_chan : ℤ
  pub prev_ht : List ℕ

-- The format string, cut behind each number or text that it prints.
module _ (a : Announcement) where
  unfoldable pub after_prev_ht : List ℕ
  after_prev_ht = codes "\"}\n"

  unfoldable pub after_prev_chan : List ℕ
  unfolding after_prev_ht
  after_prev_chan = codes ",\"prev_ht\":\"" ++ (a.prev_ht ++ after_prev_ht)

  unfoldable pub after_revert : List ℕ
  unfolding after_prev_chan decimal_int
  after_revert = codes ",\"prev_chan\":" ++ (decimal_int a.prev_chan ++ after_prev_chan)

  unfoldable pub after_dt : List ℕ
  unfolding after_revert decimal_int
  after_dt = codes ",\"t_revert_ms\":" ++ (decimal_int a.t_revert_ms ++ after_revert)

  unfoldable pub after_ht : List ℕ
  unfolding after_dt decimal_int
  after_ht = codes "\",\"dt_to_switch_ms\":" ++ (decimal_int a.dt_ms ++ after_dt)

  unfoldable pub after_chan : List ℕ
  unfolding after_ht
  after_chan = codes ",\"target_ht\":\"" ++ (a.target_ht ++ after_ht)

  unfoldable pub after_seq : List ℕ
  unfolding after_chan decimal_int
  after_seq =
      codes ",\"src\":\"ground\",\"target_chan\":" ++ (decimal_int a.target_chan ++ after_chan)

  unfoldable pub after_sess : List ℕ
  unfolding after_seq decimal
  after_sess = codes ",\"seq\":" ++ (decimal a.seq ++ after_seq)

  unfoldable pub commit_text : List ℕ
  unfolding after_sess decimal
  commit_text =
      codes "{\"type\":\"csa_commit\",\"ver\":1,\"sess\":" ++ (decimal a.sess ++ after_sess)

flip : (c k : ℕ) → (c == k) ≡ false → (k == c) ≡ false
flip c k h = ground arith

-- The search for a key passes over a text without the key's first letter.
pub find_key_from-skip :
    (k : ℕ) (key : List ℕ) (quoted : Bool) (s t : List ℕ)
    → AllNot k s
    → begins k t ≡ false
    → find_key_from (k ∷ key) 0 quoted (s ++ t) ≡ find_key_from (k ∷ key) 0 false t
unfolding find_key_from begins
find_key_from-skip k key quoted [] [] a b = refl
find_key_from-skip k key quoted [] (c ∷ cs) a b = rw (flip c k b)
find_key_from-skip k key quoted (c ∷ cs) t a b =
    rw (flip c k a.0) (find_key_from-skip k key (c == b'"') cs t a.1 b)

pub get_int-found :
    (buf key p rest : List ℕ) (v : ℤ)
    → find_key buf key ≡ some p
    → strtoll (skip_spaces p) ≡ some (v, rest)
    → get_int buf key ≡ some v
unfolding get_int
get_int-found buf key p rest v f h = rw (get_int, f, h)

quoted_text-append :
    (room : ℕ) (s t : List ℕ)
    → AllNot b'"' s
    → length s ≤ room
    → quoted_text room (s ++ b'"' ∷ t) ≡ s
unfolding quoted_text
quoted_text-append zero [] t a h = refl
quoted_text-append zero (c ∷ cs) t a h = absurd (omega arith)
quoted_text-append (suc room) [] t a h = refl
quoted_text-append (suc room) (c ∷ cs) t a h =
    rw a.0 (ap (λ r. c ∷ r) (quoted_text-append room cs t a.1 (omega arith)))

pub get_str-found :
    (buf key s t : List ℕ)
    → find_key buf key ≡ some (b'"' ∷ (s ++ b'"' ∷ t))
    → AllNot b'"' s
    → length s ≤ 7
    → get_str buf key 8 ≡ some s
unfolding get_str skip_spaces begins drop_bytes
get_str-found buf key s t f a h = rw (get_str, f) (ap some (quoted_text-append 7 s t a h))

-- The fields fit the frame: numbers of 32 bits, and texts that hold neither a quote nor the first
-- letter of a key behind them.
pub record IsPlain (a : Announcement) : Type 0 where
  pub sess_fits : a.sess < 2 ^ 32
  pub target_fits : IsInt32 a.target_chan
  pub dt_fits : IsInt32 a.dt_ms
  pub revert_fits : IsInt32 a.t_revert_ms
  pub prev_fits : IsInt32 a.prev_chan
  pub target_short : length a.target_ht ≤ 7
  pub prev_short : length a.prev_ht ≤ 7
  pub target_no_quote : AllNot b'"' a.target_ht
  pub target_no_d : AllNot b'd' a.target_ht
  pub target_no_t : AllNot b't' a.target_ht
  pub target_no_p : AllNot b'p' a.target_ht
  pub prev_no_quote : AllNot b'"' a.prev_ht
