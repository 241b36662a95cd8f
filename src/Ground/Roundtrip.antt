-- ===== src/Ground/Roundtrip.antt =====
-- The vehicle reads back from a csa_commit frame what the ground station printed into it.
use waybeam_wfb_ng.Base.{ℕ, ◌≡◌, refl, ◌∙◌, true, false, some, List, ◌∷◌, ◌++◌, ◌==◌}
use waybeam_wfb_ng.Base.Int.{ℤ, pos}
use waybeam_wfb_ng.Base.Text.{codes, is_digit}
use waybeam_wfb_ng.Csa.Json.{begins, find_key_from, find_key, get_str, get_int, starts_digit}
use waybeam_wfb_ng.Csa.Machine.{
  parse_commit, CsaCfg, CsaState, csa_feed, feed_type, on_commit, on_frame, on_parsed,
}
use waybeam_wfb_ng.Ground.Decimal.{
  decimal, decimal_int, AllNot, AllNot-decimal, AllNot-decimal_int, strtoll-decimal,
  strtoll-decimal_int,
}
use waybeam_wfb_ng.Ground.Frame.{
  Announcement, IsPlain, after_sess, after_seq, after_chan, after_ht, after_dt, after_revert,
  after_prev_chan, after_prev_ht, commit_text, find_key_from-skip, get_int-found, get_str-found,
}

-- Where each key of the frame leads.
module _ (a : Announcement) (plain : IsPlain a) where
  over :
      (k : ℕ) (key : List ℕ) (n : ℕ) (t : List ℕ)
      → is_digit k ≡ false
      → begins k t ≡ false
      → find_key_from (k ∷ key) 0 false (decimal n ++ t) ≡ find_key_from (k ∷ key) 0 false t
  over k key n t d b = find_key_from-skip k key false (decimal n) t (AllNot-decimal k d n) b

  over_int :
      (k : ℕ) (key : List ℕ) (v : ℤ) (t : List ℕ)
      → is_digit k ≡ false
      → (k == b'-') ≡ false
      → begins k t ≡ false
      → find_key_from (k ∷ key) 0 false (decimal_int v ++ t) ≡ find_key_from (k ∷ key) 0 false t
  over_int k key v t d m b =
      find_key_from-skip k key false (decimal_int v) t (AllNot-decimal_int k d v m) b

  find-sess : find_key (commit_text a) (codes "sess") ≡ some (decimal a.sess ++ after_sess a)
  unfolding find_key commit_text
  find-sess = refl

  find-target_chan :
      find_key (commit_text a) (codes "target_chan")
      ≡ some (decimal_int a.target_chan ++ after_chan a)
  unfolding find_key commit_text after_sess after_seq begins
  find-target_chan =
      over b't' (codes "arget_chan") a.sess (after_sess a) refl refl
      ∙ over b't' (codes "arget_chan") a.seq (after_seq a) refl refl

  over_ht :
      (k : ℕ) (key : List ℕ)
      → AllNot k a.target_ht
      → begins k (after_ht a) ≡ false
      → find_key_from (k ∷ key) 0 true (a.target_ht ++ after_ht a)
        ≡ find_key_from (k ∷ key) 0 false (after_ht a)
  over_ht k key h b = find_key_from-skip k key true a.target_ht (after_ht a) h b

  find-target_ht :
      find_key (commit_text a) (codes "target_ht") ≡ some (b'"' ∷ (a.target_ht ++ after_ht a))
  unfolding find_key commit_text after_sess after_seq after_chan begins
  find-target_ht =
      over b't' (codes "arget_ht") a.sess (after_sess a) refl refl
      ∙ over b't' (codes "arget_ht") a.seq (after_seq a) refl refl
      ∙ over_int b't' (codes "arget_ht") a.target_chan (after_chan a) refl refl refl

  find-dt_to_switch_ms :
      find_key (commit_text a) (codes "dt_to_switch_ms") ≡ some (decimal_int a.dt_ms ++ after_dt a)
  unfolding find_key commit_text after_sess after_seq after_chan after_ht begins
  find-dt_to_switch_ms =
      over b'd' (codes "t_to_switch_ms") a.sess (after_sess a) refl refl
      ∙ over b'd' (codes "t_to_switch_ms") a.seq (after_seq a) refl refl
      ∙ over_int b'd' (codes "t_to_switch_ms") a.target_chan (after_chan a) refl refl refl
      ∙ over_ht b'd' (codes "t_to_switch_ms") plain.target_no_d refl

  find-t_revert_ms :
      find_key (commit_text a) (codes "t_revert_ms")
      ≡ some (decimal_int a.t_revert_ms ++ after_revert a)
  unfolding find_key commit_text after_sess after_seq after_chan after_ht after_dt begins
  find-t_revert_ms =
      over b't' (codes "_revert_ms") a.sess (after_sess a) refl refl
      ∙ over b't' (codes "_revert_ms") a.seq (after_seq a) refl refl
      ∙ over_int b't' (codes "_revert_ms") a.target_chan (after_chan a) refl refl refl
      ∙ over_ht b't' (codes "_revert_ms") plain.target_no_t refl
      ∙ over_int b't' (codes "_revert_ms") a.dt_ms (after_dt a) refl refl refl

  find-prev_chan :
      find_key (commit_text a) (codes "prev_chan")
      ≡ some (decimal_int a.prev_chan ++ after_prev_chan a)
  unfolding find_key commit_text after_sess after_seq after_chan after_ht after_dt after_revert
      begins
  find-prev_chan =
      over b'p' (codes "rev_chan") a.sess (after_sess a) refl refl
      ∙ over b'p' (codes "rev_chan") a.seq (after_seq a) refl refl
      ∙ over_int b'p' (codes "rev_chan") a.target_chan (after_chan a) refl refl refl
      ∙ over_ht b'p' (codes "rev_chan") plain.target_no_p refl
      ∙ over_int b'p' (codes "rev_chan") a.dt_ms (after_dt a) refl refl refl
      ∙ over_int b'p' (codes "rev_chan") a.t_revert_ms (after_revert a) refl refl refl

  find-prev_ht :
      find_key (commit_text a) (codes "prev_ht") ≡ some (b'"' ∷ (a.prev_ht ++ after_prev_ht a))
  unfolding find_key commit_text after_sess after_seq after_chan after_ht after_dt after_revert
      after_prev_chan begins
  find-prev_ht =
      over b'p' (codes "rev_ht") a.sess (after_sess a) refl refl
      ∙ over b'p' (codes "rev_ht") a.seq (after_seq a) refl refl
      ∙ over_int b'p' (codes "rev_ht") a.target_chan (after_chan a) refl refl refl
      ∙ over_ht b'p' (codes "rev_ht") plain.target_no_p refl
      ∙ over_int b'p' (codes "rev_ht") a.dt_ms (after_dt a) refl refl refl
      ∙ over_int b'p' (codes "rev_ht") a.t_revert_ms (after_revert a) refl refl refl
      ∙ over_int b'p' (codes "rev_ht") a.prev_chan (after_prev_chan a) refl refl refl

  -- Each field, as the vehicle reads it.
  read-sess : get_int (commit_text a) (codes "sess") ≡ some (pos a.sess)
  unfolding after_sess starts_digit
  read-sess =
      get_int-found (commit_text a) (codes "sess") (decimal a.sess ++ after_sess a) (after_sess a)
        (pos a.sess) find-sess (strtoll-decimal a.sess (after_sess a) plain.sess_fits refl)

  read-target_chan : get_int (commit_text a) (codes "target_chan") ≡ some a.target_chan
  unfolding after_chan starts_digit
  read-target_chan =
      get_int-found (commit_text a) (codes "target_chan")
        (decimal_int a.target_chan ++ after_chan a) (after_chan a) a.target_chan find-target_chan
        (strtoll-decimal_int a.target_chan (after_chan a) plain.target_fits refl)

  read-dt_to_switch_ms : get_int (commit_text a) (codes "dt_to_switch_ms") ≡ some a.dt_ms
  unfolding after_dt starts_digit
  read-dt_to_switch_ms =
      get_int-found (commit_text a) (codes "dt_to_switch_ms") (decimal_int a.dt_ms ++ after_dt a)
        (after_dt a) a.dt_ms find-dt_to_switch_ms
        (strtoll-decimal_int a.dt_ms (after_dt a) plain.dt_fits refl)

  read-t_revert_ms : get_int (commit_text a) (codes "t_revert_ms") ≡ some a.t_revert_ms
  unfolding after_revert starts_digit
  read-t_revert_ms =
      get_int-found (commit_text a) (codes "t_revert_ms")
        (decimal_int a.t_revert_ms ++ after_revert a) (after_revert a) a.t_revert_ms
        find-t_revert_ms (strtoll-decimal_int a.t_revert_ms (after_revert a) plain.revert_fits refl)

  read-prev_chan : get_int (commit_text a) (codes "prev_chan") ≡ some a.prev_chan
  unfolding after_prev_chan starts_digit
  read-prev_chan =
      get_int-found (commit_text a) (codes "prev_chan")
        (decimal_int a.prev_chan ++ after_prev_chan a) (after_prev_chan a) a.prev_chan
        find-prev_chan (strtoll-decimal_int a.prev_chan (after_prev_chan a) plain.prev_fits refl)

  read-target_ht : get_str (commit_text a) (codes "target_ht") 8 ≡ some a.target_ht
  unfolding after_ht
  read-target_ht =
      get_str-found (commit_text a) (codes "target_ht") a.target_ht
        (codes ",\"dt_to_switch_ms\":" ++ (decimal_int a.dt_ms ++ after_dt a)) find-target_ht
        plain.target_no_quote plain.target_short

  read-prev_ht : get_str (commit_text a) (codes "prev_ht") 8 ≡ some a.prev_ht
  unfolding after_prev_ht
  read-prev_ht =
      get_str-found (commit_text a) (codes "prev_ht") a.prev_ht (codes "}\n") find-prev_ht
        plain.prev_no_quote plain.prev_short

  read-type : get_str (commit_text a) (codes "type") 32 ≡ some (codes "csa_commit")
  unfolding commit_text get_str
  read-type = refl

  -- A frame that the ground station printed from plain fields is well formed for the vehicle, which
  -- reads from it the session, the delay, the duration of the verification, both channels and both
  -- bandwidths that the ground station printed.
  pub parse_commit-commit_text :
      parse_commit (commit_text a)
      ≡ some (record {
        sess = pos a.sess;
        dt = a.dt_ms;
        t_revert = a.t_revert_ms;
        target_chan = a.target_chan;
        prev_chan = a.prev_chan;
        target_ht = a.target_ht;
        prev_ht = a.prev_ht;
      })
  unfolding parse_commit
  parse_commit-commit_text = rw (
    parse_commit, read-sess, read-dt_to_switch_ms, read-target_chan, read-t_revert_ms,
    read-prev_chan, read-target_ht, read-prev_ht,
  )

  -- Fed with such a frame, the receiver takes the datagram as its own and handles those fields.
  pub csa_feed-commit_text :
      (cfg : CsaCfg) (now : ℤ) (s : CsaState)
      → csa_feed cfg (commit_text a) now s ≡ (
        on_parsed cfg
            (record {
              sess = pos a.sess;
              dt = a.dt_ms;
              t_revert = a.t_revert_ms;
              target_chan = a.target_chan;
              prev_chan = a.prev_chan;
              target_ht = a.target_ht;
              prev_ht = a.prev_ht;
            })
            now
            s,
        true,
      )
  unfolding csa_feed feed_type on_commit on_frame
  csa_feed-commit_text cfg now s = rw (csa_feed, read-type, on_commit, parse_commit-commit_text)
