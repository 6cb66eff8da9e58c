-- ===== src/Server/Login/Tests.antt =====
-- Logging in on a panel whose store is kept in lists.
use gost_webui.Prelude.{
  ◌*◌, String, ◌≡◌, refl, true, false, none, some, [], ◌∷◌, arith, eq_iff, ◌==◌, string_eq,
}
use gost_webui.Prelude.Maps.{lookup, insert}
use gost_webui.Model.Text.{trim_space, keep_chars, to_upper, to_lower}
use gost_webui.Bolt.Lists.{list_bolt}
use gost_webui.Auth.{normalize_recovery_code, match_recovery_code, match_from, hash_recovery_code}
use gost_webui.Auth.Tests.{zero_crypto}
use gost_webui.Store.{open_new, get_setting, set_setting}
use gost_webui.Server.Guard.{new_login_guard, blocked, minute}
use gost_webui.Server.Sessions.{unix}
use gost_webui.Server.TwoFactor.{
  Challenge, check_second_factor, two_factor_enabled, lookup_challenge, consume_recovery_code,
}
use gost_webui.Server.TwoFactor.Challenges.{IsUsable}
use gost_webui.Server.Login.{
  Bcrypt, AdminConfig, Request, Panel, admin_user, user_or, check_password, check_hash, store_hash,
  with_store, after_password, handle_login, handle_login_2fa, with_challenge, factor_reply,
}
use gost_webui.Server.Login.Safety.{
  is_refusal, IsPassed, attempt, second_step, IsLoggedIn, handle_login_lem, handle_login_resets,
  handle_login_2fa_lem,
}

abbrev same_hash : Bcrypt
same_hash = record { compare = λ h p. h == p; generate = λ p. some p }

abbrev config : AdminConfig
config = record { username = "admin"; password = "secret" }

abbrev request : Request
request = record {
  ip = "10.0.0.1";
  ua = "ua";
  device = "";
  now = 60 * minute;
  session_token = "s";
  challenge_token = some "c";
}

abbrev panel : Panel list_bolt zero_crypto same_hash config
panel = record {
  factors = record { store = open_new list_bolt []; recovery = [] };
  mem = [];
  chals = [];
  guard = new_login_guard;
}

handle_login_lem_example :
    (is_refusal (attempt list_bolt zero_crypto same_hash config request "admin" "secret" panel).0
        ≡ false
      → IsPassed list_bolt zero_crypto same_hash config request "admin" "secret" panel)
    × (is_refusal (attempt list_bolt zero_crypto same_hash config request "admin" "secret" panel).0
          ≡ true
        → ((attempt list_bolt zero_crypto same_hash config request "admin" "secret" panel).1.mem
            ≡ panel.mem)
          × ((attempt list_bolt zero_crypto same_hash config request "admin" "secret" panel).1.chals
              ≡ panel.chals))
handle_login_lem_example =
    handle_login_lem list_bolt zero_crypto same_hash config request "admin" "secret" panel

passes :
    is_refusal (attempt list_bolt zero_crypto same_hash config request "admin" "secret" panel).0
    ≡ false
unfolding handle_login admin_user user_or check_password check_hash get_setting set_setting blocked
    lookup trim_space after_password two_factor_enabled store_hash with_store insert
passes = refl

handle_login_resets_example :
    blocked
      (61 * minute)
      "10.0.0.1"
      (admin_user list_bolt zero_crypto same_hash config panel.factors.store)
      (attempt list_bolt zero_crypto same_hash config request "admin" "secret" panel).1.guard
    ≡ 0
handle_login_resets_example =
    handle_login_resets list_bolt zero_crypto same_hash config request "admin" "secret" panel
      (61 * minute) passes

-- A panel with a recovery code, whose client has shown the password.
abbrev token : String
token = "c"

abbrev challenged : Panel list_bolt zero_crypto same_hash config
challenged = record panel {
  factors = record { store = open_new list_bolt []; recovery = "abcde12345" ∷ [] };
  chals =
      (
        "c",
        record { user = "admin"; ip = "10.0.0.1"; ua = "ua"; expires = 61 * minute; attempts = 0 },
      )
      ∷ [];
}

enters :
    IsLoggedIn list_bolt zero_crypto same_hash config "admin"
      (second_step list_bolt zero_crypto same_hash config request token "abcde-12345" challenged).0
unfolding handle_login_2fa with_challenge factor_reply lookup_challenge lookup blocked
    check_second_factor trim_space normalize_recovery_code keep_chars to_upper to_lower
    consume_recovery_code match_recovery_code match_from hash_recovery_code
enters = refl

handle_login_2fa_lem_example :
    ((c : Challenge) × IsUsable token "10.0.0.1" "ua" (60 * minute) challenged.chals c
      × (c.user ≡ "admin")
      × (blocked (60 * minute) "10.0.0.1" c.user challenged.guard ≡ 0)
      × ((check_second_factor list_bolt zero_crypto
            (trim_space "abcde-12345")
            (unix (60 * minute))
            challenged.factors).0
          ≡ none))
    × (lookup token
          (second_step list_bolt zero_crypto same_hash config request token "abcde-12345"
            challenged).1.chals
        ≡ none)
handle_login_2fa_lem_example =
    handle_login_2fa_lem list_bolt zero_crypto same_hash config request token "abcde-12345" "admin"
      challenged (ground (arith, eq_iff token "")) enters
