-- ===== src/Server/Account/Password.antt =====
-- A change of the administrator's password.
use gost_webui.Prelude.{
  String, ◌≡◌, refl, ◌∙◌, true, false, Option, none, some, [], ◌∷◌, ◌==◌, string_eq, Bool-cases,
  Option-cases, inl, inr, eq_iff, arith, keep_if,
}
use gost_webui.Prelude.Maps.{Map, lookup}
use gost_webui.Model.Text.{trim_space}
use gost_webui.Bolt.{Bolt}
use gost_webui.Auth.{Crypto}
use gost_webui.Store.{get_setting, set_setting}
use gost_webui.Store.Logins.{get_session, get_device, delete_other_sessions}
use gost_webui.Store.Commits.{
  set_setting-Commits, delete_other_sessions-Commits, get_setting-set_setting,
  get_setting-delete_other_sessions, get_setting-delete_all_devices, get_session-delete_all_devices,
  get_session-delete_other_sessions, get_device-delete_all_devices,
}
use gost_webui.Server.Sessions.{unix, revoke_other_sessions, remove_others}
use gost_webui.Server.TwoFactor.{TotpError, check_manage_code}
use gost_webui.Server.Login.{Bcrypt, AdminConfig, admin_user}
use gost_webui.Server.Account.Commits.{Safe, check-Safe, managed-Safe}
use gost_webui.Server.Account.{
  Client, PasswordError, validate_new_password, weak, wrong_code, failed, too_many, wrong_password,
  done, Account, Answer, store_of, user_of, waits, check, managed, is_on, revoke, save_hash,
  change_to, change, handle_change_password, with_factors,
}

lookup-keep_only :
    {A : Type 0} (keep k : String) (m : Map String A)
    → (k == keep) ≡ false
    → lookup k (keep_if (λ kv. kv.0 == keep) m) ≡ none
unfolding lookup keep_if
lookup-keep_only keep k [] other = refl
lookup-keep_only keep k ((j, v) ∷ m) other =
    ground (arith, lookup-keep_only keep k m other, eq_iff j k, eq_iff j keep, other)

weak-ne-done : (e : PasswordError) → ¬ (weak e ≡ done)
weak-ne-done e q = cc

wrong_code-ne-done : (e : TotpError) → ¬ (wrong_code e ≡ done)
wrong_code-ne-done e q = cc

failed-ne-done : ¬ (failed ≡ done)
failed-ne-done q = cc

too_many-ne-done : ¬ (too_many ≡ done)
too_many-ne-done q = cc

wrong_password-ne-done : ¬ (wrong_password ≡ done)
wrong_password-ne-done q = cc

module _ (bolt : Bolt) (crypto : Crypto) (bcrypt : Bcrypt) (admin : AdminConfig) where
  -- The hash is stored, and the session of the request is the only login that is left.
  pub record IsChanged (c : Client) (h : String) (a : Account bolt crypto bcrypt admin)
      : Type 0 where
    pub hash : get_setting bolt "admin_hash" (store_of bolt crypto bcrypt admin a) ≡ some h
    pub memory : (k : String) → (k == c.cookie) ≡ false → lookup k a.panel.mem ≡ none
    pub sessions :
        (k : String)
        → (k == c.cookie) ≡ false
        → get_session bolt k (store_of bolt crypto bcrypt admin a) ≡ none
    pub devices : (k : String) → get_device bolt k (store_of bolt crypto bcrypt admin a) ≡ none

  save_hash-IsChanged :
      (c : Client) (h : String) (a : Account bolt crypto bcrypt admin)
      → Safe bolt crypto bcrypt admin a
      → let r = save_hash bolt crypto bcrypt admin c (some h) a in (r.0 ≡ done) × IsChanged c h r.1
  unfolding save_hash revoke revoke_other_sessions remove_others
  save_hash-IsChanged c h a safe =
      let st = store_of bolt crypto bcrypt admin a in
      let (saved, safe') = set_setting-Commits bolt "admin_hash" h st safe in
      let st' = (set_setting bolt "admin_hash" h st).0 in
      let st'' = (delete_other_sessions bolt c.cookie st').0 in
      let (_, safe'') = delete_other_sessions-Commits bolt c.cookie st' safe' in
      rw saved (
        refl,
        record {
          hash =
              get_setting-delete_all_devices bolt "admin_hash" st''
              ∙ get_setting-delete_other_sessions bolt "admin_hash" c.cookie st'
              ∙ get_setting-set_setting bolt "admin_hash" "admin_hash" h st safe;
          memory = λ k other. lookup-keep_only c.cookie k a.panel.mem other;
          sessions = λ k other.
              get_session-delete_all_devices bolt k st''
              ∙ get_session-delete_other_sessions bolt k c.cookie st' safe' other;
          devices = λ k. get_device-delete_all_devices bolt k st'' safe'';
        },
      )

  change_to-done :
      (c : Client) (pass : String) (e : Option PasswordError) (a : Account bolt crypto bcrypt admin)
      → (change_to bolt crypto bcrypt admin c pass e a).0 ≡ done
      → (e ≡ none)
        × ((h : String) × (bcrypt.generate pass ≡ some h)
            × (change_to bolt crypto bcrypt admin c pass e a
                ≡ save_hash bolt crypto bcrypt admin c (some h) a))
  unfolding change_to
  change_to-done c pass (some e) a q = absurd (weak-ne-done e q)
  change_to-done c pass none a q = elim (Option-cases (bcrypt.generate pass)) [
    | inl long ↦ absurd (failed-ne-done (rw long at q))
    | inr (h, made) ↦ (refl, (h, made, rw made refl))
  ]

  -- What a request to change the password has to show.
  pub record IsAllowed (c : Client) (old pass code : String) (a : Account bolt crypto bcrypt admin)
      : Type 0 where
    pub free : waits bolt crypto bcrypt admin c a ≡ false
    pub right : (check bolt crypto bcrypt admin old a).0 ≡ true
    pub factor :
        (managed bolt crypto bcrypt admin c
          (trim_space code)
          (check bolt crypto bcrypt admin old a).1).0
        ≡ none
    pub strong :
        validate_new_password pass
          (user_of bolt crypto bcrypt admin
            (managed bolt crypto bcrypt admin c
              (trim_space code)
              (check bolt crypto bcrypt admin old a).1).1)
          old
        ≡ none

  abbrev attempt :
      Client
      → String
      → String
      → String
      → Account bolt crypto bcrypt admin
      → Answer bolt crypto bcrypt admin
  attempt = handle_change_password bolt crypto bcrypt admin

  change-done :
      (c : Client) (old pass : String) (m : Option TotpError × Account bolt crypto bcrypt admin)
      → (change bolt crypto bcrypt admin c old pass m).0 ≡ done
      → (m.0 ≡ none)
        × (validate_new_password pass (user_of bolt crypto bcrypt admin m.1) old ≡ none)
        × ((h : String) × (bcrypt.generate pass ≡ some h)
            × (change bolt crypto bcrypt admin c old pass m
                ≡ save_hash bolt crypto bcrypt admin c (some h) m.1))
  unfolding change
  change-done c old pass (some e, a) q = absurd (wrong_code-ne-done e q)
  change-done c old pass (none, a) q =
      let (valid, h) =
        change_to-done c pass (validate_new_password pass (user_of bolt crypto bcrypt admin a) old)
          a q in
      (refl, valid, h)

  -- Only a client that need not wait and shows the right password, the second factor where it is enabled, and a
  -- new password that passes the checks, changes the password. Then, if all transactions commit, the new hash
  -- is stored, all other sessions are gone from memory and from the store, and there is no trusted device.
  pub handle_change_password_lem :
      (c : Client) (old pass code : String) (a : Account bolt crypto bcrypt admin)
      → (handle_change_password bolt crypto bcrypt admin c old pass code a).0 ≡ done
      → IsAllowed c old pass code a
        × (Safe bolt crypto bcrypt admin a
            → (h : String) × (bcrypt.generate pass ≡ some h)
              × IsChanged c h (handle_change_password bolt crypto bcrypt admin c old pass code a).1)
  unfolding handle_change_password
  handle_change_password_lem c old pass code a q =
      let r = check bolt crypto bcrypt admin old a in
      let m = managed bolt crypto bcrypt admin c (trim_space code) r.1 in
      elim (Bool-cases (waits bolt crypto bcrypt admin c a)) [
        | inl waiting ↦ absurd (too_many-ne-done (rw waiting at q))
        | inr free ↦ elim (Bool-cases r.0) [
          | inr wrong ↦ absurd (wrong_password-ne-done (rw (free, wrong) at q))
          | inl right ↦
              let (passed, strong, (h, made, same)) =
                change-done c old pass m (rw (free, right) at q) in
              (
                record { free = free; right = right; factor = passed; strong = strong },
                λ safe.
                    let safe' =
                      managed-Safe bolt crypto bcrypt admin c (trim_space code) r.1
                        (check-Safe bolt crypto bcrypt admin old a safe) in
                    (h, made, rw (free, right, same) (save_hash-IsChanged c h m.1 safe').1),
              )
        ]
      ]

  -- Where the second factor is enabled, a request whose old password and second factor are right but whose
  -- new password is refused changes nothing but what the check of the second factor changes: a recovery code
  -- that was shown is used up. The client need not wait.
  pub handle_change_password_weak :
      (c : Client) (old pass code : String) (a : Account bolt crypto bcrypt admin)
      (e : PasswordError)
      → waits bolt crypto bcrypt admin c a ≡ false
      → (check bolt crypto bcrypt admin old a).0 ≡ true
      → is_on bolt crypto bcrypt admin (check bolt crypto bcrypt admin old a).1 ≡ true
      → let m =
          check_manage_code bolt crypto
            (trim_space code)
            (unix c.now)
            (check bolt crypto bcrypt admin old a).1.panel.factors in
        m.0 ≡ none
        → validate_new_password pass (admin_user bolt crypto bcrypt admin m.1.store) old ≡ some e
        → handle_change_password bolt crypto bcrypt admin c old pass code a ≡ (
          weak e,
          with_factors bolt crypto bcrypt admin m.1 (check bolt crypto bcrypt admin old a).1,
        )
  unfolding handle_change_password managed change change_to
  handle_change_password_weak c old pass code a e free right on passed refused =
      rw (free, right, on, passed, refused) refl
