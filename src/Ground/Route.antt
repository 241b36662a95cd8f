-- ===== src/Ground/Route.antt =====
-- When the route /api/v1/cmd writes behind the array of the times of its commands.
use waybeam_wfb_ng.Base.{
  ℕ, ◌≡◌, refl, Bool, not, ◌&&◌, if_cases, Option, none, some, List, ◌==◌, ltb,
}
use waybeam_wfb_ng.Base.Int.{ℤ, pos, negsuc, eqb_ℤ}
use waybeam_wfb_ng.Base.Text.{codes, bytes_eq}
use waybeam_wfb_ng.Ground.Query.{qs_get, qs_get_int}
use waybeam_wfb_ng.Ground.Types.{Config}
use waybeam_wfb_ng.Ground.Command.{
  from_str_table, wcmd_key_from_str, WcmdGlobals, SendResult, wcmd_emit,
}
use waybeam_wfb_ng.Ground.Wire.{AllEntries, lookup_text-AllEntries}
use waybeam_wfb_ng.Ground.Operator.{
  wcmd_key_max, Replied, turn_away, value_for, held_back, send_command, command, keyed, named,
  post_cmd,
}

abbrev is_return : List ℕ → Bool
is_return name = bytes_eq name (codes "return_apfpv")

-- Of the keys with a name, only return_apfpv lies behind the array.
keys_in_array : AllEntries (λ name key. ltb wcmd_key_max key ≡ is_return name) from_str_table
keys_in_array = (
  refl,
  (
    refl,
    (
      refl,
      (
        refl,
        (
          refl,
          (
            refl,
            (
              refl,
              (refl, (refl, (refl, (refl, (refl, (refl, (refl, (refl, (refl, (refl, tt)))))))))),
            ),
          ),
        ),
      ),
    ),
  ),
)

module _ (c : Config) (rate_ms : ℤ) (socket_errno : ℕ) (results : List SendResult)
    (now later : ℕ) where
  -- A reply with a stray write is a success for a key behind the array, and the other way round.
  abbrev IsStray : Bool → Replied → Type 0
  IsStray b r = r.stray_write ≡ (r.status == 200) && b

  send_command-IsStray :
      (key : ℕ) (value : ℤ) (g : WcmdGlobals)
      → IsStray
          (ltb wcmd_key_max key)
          (send_command c rate_ms socket_errno results now later key value g)
  unfolding send_command turn_away
  send_command-IsStray key value g =
      let e = wcmd_emit c socket_errno results key value g in
      if_cases (IsStray (ltb wcmd_key_max key)) (eqb_ℤ e.rc (negsuc 0)) (λ _. refl)
        λ _.
          if_cases (IsStray (ltb wcmd_key_max key)) (not (eqb_ℤ e.rc (pos 0))) (λ _. refl) λ _. refl

  command-IsStray :
      (key : ℕ) (value : Option ℤ) (g : WcmdGlobals)
      → IsStray
          (ltb wcmd_key_max key)
          (command c rate_ms socket_errno results now later key value g)
  unfolding command turn_away
  command-IsStray key none g = refl
  command-IsStray key (some value) g =
      if_cases (IsStray (ltb wcmd_key_max key))
        (held_back c rate_ms socket_errno results now later key g) (λ _. refl)
        (λ _. send_command-IsStray key value g)

  keyed-IsStray :
      (q name : List ℕ) (g : WcmdGlobals) (k : Option ℕ)
      → ((key : ℕ) → k ≡ some key → ltb wcmd_key_max key ≡ is_return name)
      → IsStray (is_return name) (keyed c rate_ms socket_errno results now later q k g)
  unfolding keyed turn_away
  keyed-IsStray q name g none f = refl
  keyed-IsStray q name g (some key) f =
      rw (← f key refl) (command-IsStray key (value_for key (qs_get_int q (codes "value"))) g)

  -- A request whose key is `name` writes behind the array of the last times exactly if it is
  -- answered with 200 and the name is return_apfpv.
  pub post_cmd-stray_write :
      (q name : List ℕ) (g : WcmdGlobals)
      → qs_get q (codes "key") ≡ some name
      → let r = post_cmd c rate_ms socket_errno results now later q g in
        r.stray_write ≡ (r.status == 200) && bytes_eq name (codes "return_apfpv")
  unfolding post_cmd named wcmd_key_from_str
  post_cmd-stray_write q name g h =
      rw (post_cmd, h)
        (keyed-IsStray q name g (wcmd_key_from_str name) λ key e.
          lookup_text-AllEntries (λ n k. ltb wcmd_key_max k ≡ is_return n) name key from_str_table
            keys_in_array e)
