-- ===== src/Server/Account/Tests.antt =====
-- An administrator who enables the second factor, changes the password and disables the factor.
use gost_webui.Prelude.{◌*◌, String, ◌≡◌, refl, true, false, none, some, [], ◌∷◌, ◌==◌, string_eq}
use gost_webui.Prelude.Maps.{lookup, insert, delete}
use gost_webui.Model.Text.{trim_space, to_upper, to_lower, keep_chars}
use gost_webui.Bolt.Lists.{list_bolt}
use gost_webui.Auth.{
  normalize_secret, hash_recovery_code, normalize_recovery_code, match_recovery_code, match_from,
}
use gost_webui.Auth.Tests.{zero_crypto, verify_at_60}
use gost_webui.Store.{open_new, get_setting, set_setting, del_setting}
use gost_webui.Store.Logins.{delete_all_devices}
use gost_webui.Server.Guard.{new_login_guard, blocked, minute}
use gost_webui.Server.TwoFactor.{
  two_factor_enabled, totp_secret, check_manage_code, consume_recovery_code, verify_code,
}
use gost_webui.Server.Login.{Bcrypt, AdminConfig, admin_user, check_password}
use gost_webui.Server.Account.Commits.{Safe}
use gost_webui.Server.Account.Password.{IsChanged, IsAllowed, handle_change_password_lem}
use gost_webui.Server.Account.Enabling.{IsEnabled, IsConfirmed, handle_2fa_enable_lem}
use gost_webui.Server.Account.Disabling.{IsDisabled, handle_2fa_disable_lem}
use gost_webui.Server.Account.{
  Client, PendingSetup, Account, done, new_codes, user_of, waits, check, managed,
  handle_change_password, handle_2fa_enable, handle_2fa_disable, validate_new_password, change,
  change_to, save_hash, set_recovery_hashes, enable_pending, enable, save_codes, switch_on, disable,
  after_clearing, clear_totp, clear_codes, delete_settings,
}

abbrev same_hash : Bcrypt
same_hash = record { compare = λ h p. h == p; generate = λ p. some p }

abbrev config : AdminConfig
config = record { username = "admin"; password = "secret" }

abbrev client : Client
client = record {
  ip = "10.0.0.1";
  cookie = "s";
  now = minute;
  secret = some "KEY";
  codes = some ("ABCDE12345" ∷ []);
  image = true;
}

abbrev setup : PendingSetup
setup = record { secret = "KEY"; expires = 11 * minute }

abbrev fresh : Account list_bolt zero_crypto same_hash config
fresh = record {
  panel = record {
    factors = record { store = open_new list_bolt []; recovery = [] };
    mem = ("s", record { user = "admin"; ua = ""; expires = 60 * minute }) ∷ [];
    chals = [];
    guard = new_login_guard;
  };
  pending = ("admin", setup) ∷ [];
}

changes :
    (handle_change_password list_bolt zero_crypto same_hash config client "secret" "longer-secret"
      "" fresh).0
    ≡ done
unfolding handle_change_password check_password managed change change_to save_hash
    validate_new_password blocked lookup get_setting two_factor_enabled set_setting insert
    admin_user
changes = refl

handle_change_password_lem_example :
    IsAllowed list_bolt zero_crypto same_hash config client "secret" "longer-secret" "" fresh
    × (Safe list_bolt zero_crypto same_hash config fresh
        → (h : String) × (same_hash.generate "longer-secret" ≡ some h)
          × IsChanged list_bolt zero_crypto same_hash config client h
              (handle_change_password list_bolt zero_crypto same_hash config client "secret"
                "longer-secret" "" fresh).1)
handle_change_password_lem_example =
    handle_change_password_lem list_bolt zero_crypto same_hash config client "secret"
      "longer-secret" "" fresh changes

enables :
    (handle_2fa_enable list_bolt zero_crypto same_hash config client "000000" fresh).0
    ≡ new_codes ("ABCDE12345" ∷ [])
unfolding handle_2fa_enable enable_pending enable save_codes lookup admin_user get_setting blocked
    verify_code set_setting set_recovery_hashes switch_on del_setting insert delete
enables = rw verify_at_60 refl

handle_2fa_enable_lem_example :
    (p : PendingSetup) × IsConfirmed list_bolt zero_crypto same_hash config client "000000" fresh p
    × (Safe list_bolt zero_crypto same_hash config fresh
        → IsEnabled list_bolt zero_crypto same_hash config
            (user_of list_bolt zero_crypto same_hash config fresh)
            p.secret
            ("ABCDE12345" ∷ [])
            (handle_2fa_enable list_bolt zero_crypto same_hash config client "000000" fresh).1)
handle_2fa_enable_lem_example =
    handle_2fa_enable_lem list_bolt zero_crypto same_hash config client "000000" fresh
      ("ABCDE12345" ∷ []) enables

-- The second factor enabled, with one recovery code.
abbrev guarded : Account list_bolt zero_crypto same_hash config
guarded =
    let st = (set_setting list_bolt "totp_enabled" "1" (open_new list_bolt [])).0 in
    record fresh {
      panel = record fresh.panel {
        factors = record {
          store = (set_setting list_bolt "totp_secret" "KEY" st).0;
          recovery = "abcde12345" ∷ [];
        };
      };
    }

disables :
    (handle_2fa_disable list_bolt zero_crypto same_hash config client "secret" "abcde-12345"
      guarded).0
    ≡ done
unfolding handle_2fa_disable check_password managed disable after_clearing clear_totp blocked lookup
    get_setting set_setting insert two_factor_enabled totp_secret normalize_secret to_upper to_lower
    keep_chars check_manage_code trim_space normalize_recovery_code consume_recovery_code
    match_recovery_code match_from hash_recovery_code clear_codes delete_settings
    set_recovery_hashes del_setting delete_all_devices admin_user
disables = refl

handle_2fa_disable_lem_example :
    (waits list_bolt zero_crypto same_hash config client guarded ≡ false)
    × ((check list_bolt zero_crypto same_hash config "secret" guarded).0 ≡ true)
    × ((managed list_bolt zero_crypto same_hash config client "abcde-12345"
          (check list_bolt zero_crypto same_hash config "secret" guarded).1).0
        ≡ none)
    × (Safe list_bolt zero_crypto same_hash config guarded
        → IsDisabled list_bolt zero_crypto same_hash config client
            (handle_2fa_disable list_bolt zero_crypto same_hash config client "secret" "abcde-12345"
              guarded).1)
handle_2fa_disable_lem_example =
    handle_2fa_disable_lem list_bolt zero_crypto same_hash config client "secret" "abcde-12345"
      guarded disables
