-- ===== src/Server/TwoFactor/Tests.antt =====
-- Codes and challenges on a store that is kept in lists.
use gost_webui.Prelude.{◌≡◌, refl, true, [], ◌∷◌, arith, string_eq, sym}
use mathlib.Core.Path.{subst}
use gost_webui.Prelude.Int.{pos, int_ltb}
use gost_webui.Prelude.Maps.{lookup, insert}
use gost_webui.Bolt.Lists.{list_bolt}
use gost_webui.Auth.{counter}
use gost_webui.Auth.Tests.{zero_crypto, verify_at_60, verify_at_120}
use gost_webui.Model.Text.{itoa}
use gost_webui.Model.Text.Decimals.{parse_int64}
use gost_webui.Store.{Store, open_new, get_setting, set_setting}
use gost_webui.Server.Guard.{minute}
use gost_webui.Server.TwoFactor.{
  Challenges, Factors, last_step_key, verify_code, used_step, saved, last_step, parsed_step,
}
use gost_webui.Server.TwoFactor.Replay.{Accepted, verify_code-grows}

abbrev clean : Store list_bolt
clean = open_new list_bolt []

abbrev used_once : Store list_bolt
used_once = (verify_code list_bolt zero_crypto "KEY" "000000" true 60 clean).1

first_use : Accepted list_bolt zero_crypto "KEY" "000000" 60 clean
unfolding verify_code used_step saved last_step parsed_step set_setting get_setting counter lookup
first_use = rw verify_at_60 refl

after_first_use : used_once ≡ (set_setting list_bolt last_step_key "1" clean).0
unfolding verify_code used_step saved last_step parsed_step set_setting get_setting counter lookup
    insert itoa
after_first_use = rw (used_once, verify_at_60) refl

second_use_after :
    Accepted list_bolt zero_crypto "KEY" "000000" 120
      (set_setting list_bolt last_step_key "1" clean).0
unfolding verify_code used_step saved last_step parsed_step set_setting get_setting counter lookup
    insert parse_int64
second_use_after = rw verify_at_120 refl

second_use : Accepted list_bolt zero_crypto "KEY" "000000" 120 used_once
second_use =
    subst (Accepted list_bolt zero_crypto "KEY" "000000" 120) (sym after_first_use) second_use_after

verify_code-grows_example : int_ltb (pos 1) (pos 3) ≡ true
verify_code-grows_example =
    verify_code-grows list_bolt zero_crypto "KEY" "000000" "KEY" "000000" 60 120 clean (pos 1)
      (pos 3) (unfold counter in omega arith) (unfold counter in omega arith)
      (unfold counter in omega arith) verify_at_60 first_use verify_at_120 second_use

abbrev waiting : Challenges
waiting =
    ("t", record { user = "admin"; ip = "10.0.0.1"; ua = "ua"; expires = minute; attempts = 3 })
    ∷ []

abbrev with_codes : Factors list_bolt zero_crypto
with_codes = record { store = clean; recovery = "x" ∷ "abcd" ∷ [] }
