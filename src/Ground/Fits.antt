-- ===== src/Ground/Fits.antt =====
-- The length of a csa_commit frame, and the burst of frames that a session sends.
use waybeam_wfb_ng.Base.{
  ℕ, zero, suc, ◌+◌, ◌/◌, ◌%◌, ◌≤◌, ◌<◌, List, [], ◌∷◌, length, length-append, arith,
}
use waybeam_wfb_ng.Base.Int.{ℤ, pos, negsuc}
use waybeam_wfb_ng.Ground.Decimal.{decimal_from, decimal, decimal_int}
use waybeam_wfb_ng.Ground.Frame.{
  Announcement, after_sess, after_seq, after_chan, after_ht, after_dt, after_revert,
  after_prev_chan, after_prev_ht, commit_text,
}

length-decimal_from :
    (width n : ℕ) (rest : List ℕ) → length (decimal_from width n rest) ≤ width + length rest
unfolding decimal_from
length-decimal_from zero n rest = omega arith
length-decimal_from (suc width) n rest =
    ground (arith, length-decimal_from width (n / 10) ((b'0' + n % 10) ∷ rest))

length-decimal : (n : ℕ) → length (decimal n) ≤ 10
unfolding decimal
length-decimal n = omega (arith, length-decimal_from 10 n [])

length-decimal_int : (v : ℤ) → length (decimal_int v) ≤ 11
unfolding decimal_int
length-decimal_int (pos n) = omega (arith, length-decimal n)
length-decimal_int (negsuc n) = omega (arith, length-decimal (suc n))

module _ (a : Announcement) where
  length-after_prev_chan : length (after_prev_chan a) ≤ 15 + length a.prev_ht
  unfolding after_prev_chan after_prev_ht
  length-after_prev_chan = omega (arith, length-append a.prev_ht (after_prev_ht a))

  length-after_dt : length (after_dt a) ≤ 70 + length a.prev_ht
  unfolding after_dt after_revert
  length-after_dt = omega (
    arith,
    length-after_prev_chan,
    length-decimal_int a.prev_chan,
    length-decimal_int a.t_revert_ms,
    length-append (decimal_int a.t_revert_ms) (after_revert a),
    length-append (decimal_int a.prev_chan) (after_prev_chan a),
  )

  length-after_chan : length (after_chan a) ≤ 130 + length a.target_ht + length a.prev_ht
  unfolding after_chan after_ht
  length-after_chan = omega (
    arith,
    length-after_dt,
    length-decimal_int a.dt_ms,
    length-append a.target_ht (after_ht a),
    length-append (decimal_int a.dt_ms) (after_dt a),
  )

  -- A frame with bandwidths of at most seven bytes fits the buffer of 320 bytes with its NUL.
  pub length-commit_text :
      length a.target_ht ≤ 7 → length a.prev_ht ≤ 7 → length (commit_text a) < 320
  unfolding commit_text after_sess after_seq
  length-commit_text h k = omega (
    arith,
    length-after_chan,
    length-decimal a.sess,
    length-decimal a.seq,
    length-decimal_int a.target_chan,
    length-append (decimal a.sess) (after_sess a),
    length-append (decimal a.seq) (after_seq a),
    length-append (decimal_int a.target_chan) (after_chan a),
  )
