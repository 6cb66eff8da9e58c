-- ===== src/Server/Account.antt =====
-- internal/server/twofa.go, handlers_misc.go: the handlers by which the administrator sets up, enables and
-- disables the second factor, renews the recovery codes and changes the password. The image of the key, the
-- cookies and the form in which codes are shown are not modelled.
pub mod Commits
pub mod Password
pub mod Enabling
pub mod Disabling
mod Tests
use Prim.Native.String.{count}
use gost_webui.Prelude.{
  ℕ, ◌+◌, ◌*◌, String, Bool, true, false, not, ◌&&◌, Option, none, some, List, [], ◌∷◌, map, ltb,
  ◌==◌, string_eq, if◌then◌else◌,
}
use gost_webui.Prelude.Int.{pos}
use gost_webui.Prelude.Maps.{Map, lookup, insert, delete}
use gost_webui.Model.Text.{trim_space, itoa}
use gost_webui.Bolt.{Bolt}
use gost_webui.Auth.{Crypto, hash_recovery_code}
use gost_webui.Store.{Store, set_setting, del_setting, update}
use gost_webui.Store.Logins.{delete_all_devices}
use gost_webui.Server.Guard.{blocked, fail, success, minute}
use gost_webui.Server.Sessions.{revoke_other_sessions, unix}
use gost_webui.Server.TwoFactor.{
  TotpError, Factors, last_step_key, two_factor_enabled, verify_code, check_manage_code,
}
use gost_webui.Server.Login.{Bcrypt, AdminConfig, Panel, admin_user, check_password}

-- A request of the administrator: the client, the session's cookie, the time in nanoseconds, and what the
-- server draws for it: a key, recovery codes, and whether an image of the key can be made.
pub record Client : Type 0 where
  pub ip : String
  pub cookie : String
  pub now : ℕ
  pub secret : Option String
  pub codes : Option (List String)
  pub image : Bool

-- `pendingSetup`
pub record PendingSetup : Type 0 where
  pub secret : String
  pub expires : ℕ

abbrev pub pending_setup_ttl : ℕ
pending_setup_ttl = 10 * minute

-- `validateNewPassword`
pub data PasswordError : Type 0 where
  too_short too_long like_username like_old : PasswordError

unfoldable pub validate_new_password : String → String → String → Option PasswordError
validate_new_password pass username old =
    if ltb (count pass) 8
    then some too_short
    else if ltb 128 (count pass)
    then some too_long
    else if pass == username
    then some like_username
    else if not (old == "") && pass == old
    then some like_old
    else none

pub data Reply : Type 0 where
  too_many wrong_password already_on not_on pending_gone failed done : Reply
  wrong_code : TotpError → Reply
  weak : PasswordError → Reply
  key : String → Reply
  new_codes : List String → Reply

module _ (bolt : Bolt) (crypto : Crypto) (bcrypt : Bcrypt) (admin : AdminConfig) where
  pub record Account : Type 0 where
    pub panel : Panel bolt crypto bcrypt admin
    -- `pending`
    pub pending : Map String PendingSetup

  abbrev pub Answer : Type 0
  Answer = Reply × Account

  abbrev pub store_of : Account → Store bolt
  store_of a = a.panel.factors.store

  abbrev pub user_of : Account → String
  user_of a = admin_user bolt crypto bcrypt admin (store_of a)

  abbrev pub with_factors : Factors bolt crypto → Account → Account
  with_factors f a = record a { panel = record a.panel { factors = f } }

  abbrev pub with_store : Store bolt → Account → Account
  with_store st a = with_factors (record a.panel.factors { store = st }) a

  abbrev pub note_failure : Client → String → Account → Account
  note_failure c user a = record a {
    panel = record a.panel { guard = fail c.now c.ip user a.panel.guard };
  }

  abbrev pub note_success : Client → String → Account → Account
  note_success c user a = record a {
    panel = record a.panel { guard = success c.ip user a.panel.guard };
  }

  abbrev pub waits : Client → Account → Bool
  waits c a = ltb 0 (blocked c.now c.ip (user_of a) a.panel.guard)

  abbrev pub check : String → Account → Bool × Account
  check password a =
      let (right, st) = check_password bolt crypto bcrypt admin password (store_of a) in
      (right, with_store st a)

  abbrev pub is_on : Account → Bool
  is_on a = two_factor_enabled bolt crypto a.panel.factors

  -- `setRecoveryHashes`
  unfoldable pub set_recovery_hashes : List String → Account → Account × Bool
  set_recovery_hashes hashes a =
      let (st, saved) = update bolt (store_of a) (store_of a).db in
      (
        with_factors
            (record { store = st; recovery = if saved then hashes else a.panel.factors.recovery })
            a,
        saved,
      )

  -- `handle2FASetup`
  draw_key : Client → String → Option String → Account → Answer
  draw_key c user none a = (failed, a)
  draw_key c user (some secret) a =
      let setup : PendingSetup = record { secret = secret; expires = c.now + pending_setup_ttl } in
      (if c.image then key secret else failed, record a { pending = insert user setup a.pending })

  unfoldable pub handle_2fa_setup : Client → String → Account → Answer
  unfolding draw_key
  handle_2fa_setup c password a =
      let user = user_of a in
      let (right, a') = check password a in
      let a'' = note_success c user a' in
      if waits c a
      then (too_many, a)
      else if not right
      then (wrong_password, note_failure c user a')
      else if is_on a''
      then (already_on, a'')
      else draw_key c user c.secret a''

  -- `handle2FAEnable`
  save_codes : Client → String → Option (List String) → Account → Answer
  save_codes c user none a = (failed, a)
  save_codes c user (some codes) a =
      let (a', saved) = set_recovery_hashes (map (hash_recovery_code crypto) codes) a in
      if saved
      then (new_codes codes, note_success c user (record a' { pending = delete user a'.pending }))
      else (failed, a')

  -- The settings whose errors are not looked at.
  switch_on : Client → Store bolt → Store bolt
  switch_on c st =
      let st' = (set_setting bolt "totp_enabled" "1" st).0 in
      let st'' = (set_setting bolt "totp_enabled_at" (itoa (pos (unix c.now))) st').0 in
      (del_setting bolt last_step_key st'').0

  enable : Client → String → String → Option TotpError × Store bolt → Account → Answer
  unfolding save_codes switch_on
  enable c user secret (some e, st) a = (wrong_code e, note_failure c user (with_store st a))
  enable c user secret (none, st) a =
      let (st', saved) = set_setting bolt "totp_secret" secret st in
      if saved
      then save_codes c user c.codes (with_store (switch_on c st') a)
      else (failed, with_store st' a)

  enable_pending : Client → String → String → Option PendingSetup → Account → Answer
  unfolding enable
  enable_pending c user code none a = (pending_gone, a)
  enable_pending c user code (some p) a =
      if ltb p.expires c.now
      then (pending_gone, a)
      else if waits c a
      then (too_many, a)
      else enable c user p.secret
          (verify_code bolt crypto p.secret code false (unix c.now) (store_of a)) a

  unfoldable pub handle_2fa_enable : Client → String → Account → Answer
  unfolding enable_pending
  handle_2fa_enable c code a = enable_pending c (user_of a) code (lookup (user_of a) a.pending) a

  -- What a change of the account asks for once the password is right.
  unfoldable pub managed : Client → String → Account → Option TotpError × Account
  managed c code a =
      let (e, f) = check_manage_code bolt crypto code (unix c.now) a.panel.factors in
      if is_on a then (e, with_factors f a) else (none, a)

  -- `clearTOTP`: the settings in turn, up to the first that cannot be deleted.
  delete_settings : List String → Store bolt → Store bolt × Bool
  delete_settings [] st = (st, true)
  delete_settings (k ∷ ks) st =
      let (st', gone) = del_setting bolt k st in
      let rest = delete_settings ks st' in if gone then rest else (st', false)

  clear_codes : Account → Account × Bool
  clear_codes a =
      let (a', gone) = set_recovery_hashes [] a in
      let a'' = record a' { pending = delete (user_of a') a'.pending } in
      let (st, emptied) = delete_all_devices bolt (store_of a'') in
      if gone then (with_store st a'', emptied) else (a', false)

  unfoldable pub clear_totp : Account → Account × Bool
  unfolding delete_settings clear_codes
  clear_totp a =
      let keys = "totp_secret" ∷ "totp_enabled" ∷ "totp_enabled_at" ∷ last_step_key ∷ [] in
      let (st, gone) = delete_settings keys (store_of a) in
      if gone then clear_codes (with_store st a) else (with_store st a, false)

  -- `revokeOtherSessions`
  unfoldable pub revoke : Client → Account → Account
  revoke c a =
      let s =
        revoke_other_sessions bolt c.cookie (record { mem = a.panel.mem; store = store_of a }) in
      with_store s.store (record a { panel = record a.panel { mem = s.mem } })

  after_clearing : Client → String → Account × Bool → Answer
  after_clearing c user (a, false) = (failed, a)
  after_clearing c user (a, true) = (done, note_success c user (revoke c a))

  disable : Client → String → Option TotpError × Account → Answer
  unfolding after_clearing
  disable c user (some e, a) = (wrong_code e, note_failure c user a)
  disable c user (none, a) = after_clearing c user (clear_totp a)

  unfoldable pub handle_2fa_disable : Client → String → String → Account → Answer
  unfolding disable managed
  handle_2fa_disable c password code a =
      let (right, a') = check password a in
      if waits c a
      then (too_many, a)
      else if not right
      then (wrong_password, note_failure c (user_of a) a')
      else disable c (user_of a) (managed c code a')

  -- `handle2FARecovery`
  replace_codes : Client → String → Option (List String) → Account → Answer
  replace_codes c user none a = (failed, a)
  replace_codes c user (some codes) a =
      let (a', saved) = set_recovery_hashes (map (hash_recovery_code crypto) codes) a in
      if saved then (new_codes codes, note_success c user a') else (failed, a')

  renew : Client → String → Option TotpError × Factors bolt crypto → Account → Answer
  unfolding replace_codes
  renew c user (some e, f) a = (wrong_code e, note_failure c user (with_factors f a))
  renew c user (none, f) a = replace_codes c user c.codes (with_factors f a)

  unfoldable pub handle_2fa_recovery : Client → String → String → Account → Answer
  unfolding renew
  handle_2fa_recovery c password code a =
      let (right, a') = check password a in
      if waits c a
      then (too_many, a)
      else if not (is_on a)
      then (not_on, a)
      else if not right
      then (wrong_password, note_failure c (user_of a) a')
      else renew c (user_of a) (check_manage_code bolt crypto code (unix c.now) a'.panel.factors) a'

  -- `handleChangePassword`
  save_hash : Client → Option String → Account → Answer
  save_hash c none a = (failed, a)
  save_hash c (some h) a =
      let (st, saved) = set_setting bolt "admin_hash" h (store_of a) in
      let a' = revoke c (note_success c (user_of (with_store st a)) (with_store st a)) in
      if saved
      then (done, with_store (delete_all_devices bolt (store_of a')).0 a')
      else (failed, with_store st a)

  change_to : Client → String → Option PasswordError → Account → Answer
  unfolding save_hash
  change_to c pass (some e) a = (weak e, a)
  change_to c pass none a = save_hash c (bcrypt.generate pass) a

  change : Client → String → String → Option TotpError × Account → Answer
  unfolding change_to
  change c old pass (some e, a) = (wrong_code e, note_failure c (user_of a) a)
  change c old pass (none, a) = change_to c pass (validate_new_password pass (user_of a) old) a

  unfoldable pub handle_change_password : Client → String → String → String → Account → Answer
  unfolding change managed
  handle_change_password c old pass code a =
      let (right, a') = check old a in
      if waits c a
      then (too_many, a)
      else if not right
      then (wrong_password, note_failure c (user_of a') a')
      else change c old pass (managed c (trim_space code) a')
