-- ===== src/Server/Account/Disabling.antt =====
-- The second factor disabled.
use gost_webui.Prelude.{
  String, ◌≡◌, refl, ◌∙◌, Bool, true, false, ◌||◌, Option, none, some, List, [], ◌∷◌, ◌==◌,
  string_eq, Bool-cases, inl, inr, if◌then◌else◌,
}
use gost_webui.Bolt.{Bolt}
use gost_webui.Auth.{Crypto}
use gost_webui.Store.{Store, get_setting, del_setting}
use gost_webui.Store.Logins.{get_session, get_device}
use gost_webui.Store.Commits.{
  IsSafe, del_setting-Commits, delete_all_devices-Commits, get_setting-del_setting,
  get_setting-delete_all_devices, get_setting-delete_other_sessions,
  get_session-delete_other_sessions, get_device-delete_all_devices,
  get_device-delete_other_sessions,
}
use gost_webui.Server.Sessions.{revoke_other_sessions}
use gost_webui.Server.TwoFactor.{TotpError, last_step_key}
use gost_webui.Server.TwoFactor.Commits.{two_factor_enabled-off}
use gost_webui.Server.Login.{Bcrypt, AdminConfig}
use gost_webui.Server.Account.Commits.{Safe, check-Safe, managed-Safe, set_recovery_hashes-done}
use gost_webui.Server.Account.{
  Client, done, too_many, wrong_code, wrong_password, Account, store_of, user_of, waits, check,
  managed, is_on, delete_settings, clear_codes, clear_totp, revoke, after_clearing, disable,
  handle_2fa_disable, with_store,
}

wrong_code-ne-done : (e : TotpError) → ¬ (wrong_code e ≡ done)
wrong_code-ne-done e q = cc

too_many-ne-done : ¬ (too_many ≡ done)
too_many-ne-done q = cc

wrong_password-ne-done : ¬ (wrong_password ≡ done)
wrong_password-ne-done q = cc

names : String → List String → Bool
names j [] = false
names j (k ∷ ks) = k == j || names j ks

module _ (bolt : Bolt) (crypto : Crypto) (bcrypt : Bcrypt) (admin : AdminConfig) where
  abbrev Acc : Type 0
  Acc = Account bolt crypto bcrypt admin

  abbrev setting : String → Acc → Option String
  setting k a = get_setting bolt k (store_of bolt crypto bcrypt admin a)

  -- The settings that are deleted are gone.
  delete_settings-done :
      (ks : List String) (st : Store bolt)
      → IsSafe bolt st
      → let r = delete_settings bolt crypto bcrypt admin ks st in
        (r.1 ≡ true)
        × IsSafe bolt r.0
        × ((j : String)
            → get_setting bolt j r.0 ≡ (if names j ks then none else get_setting bolt j st))
  unfolding delete_settings names
  delete_settings-done [] st safe = (refl, safe, λ j. refl)
  delete_settings-done (k ∷ ks) st safe =
      let (gone, safe') = del_setting-Commits bolt k st safe in
      let (all, safe'', left) = delete_settings-done ks (del_setting bolt k st).0 safe' in
      rw gone (
        all,
        safe'',
        λ j. left j ∙ elim (Bool-cases (names j ks)) [
          | inl later ↦ elim (Bool-cases (k == j)) [
            | inl same ↦ rw (later, same) refl
            | inr other ↦ rw (later, other) refl
          ]
          | inr not_later ↦
              rw (not_later, get_setting-del_setting bolt j k st safe)
                (elim (Bool-cases (k == j)) [ inl same ↦ rw same refl | inr other ↦ rw other refl ])
        ],
      )

  -- Nothing of the second factor is left, and no other session in the store.
  pub record IsDisabled (c : Client) (a : Acc) : Type 0 where
    pub off : is_on bolt crypto bcrypt admin a ≡ false
    pub secret : setting "totp_secret" a ≡ none
    pub codes : a.panel.factors.recovery ≡ []
    pub devices : (k : String) → get_device bolt k (store_of bolt crypto bcrypt admin a) ≡ none
    pub sessions :
        (k : String)
        → (k == c.cookie) ≡ false
        → get_session bolt k (store_of bolt crypto bcrypt admin a) ≡ none

  -- What `clearTOTP` leaves.
  record IsCleared (r : Acc × Bool) : Type 0 where
    complete : r.1 ≡ true
    safe : Safe bolt crypto bcrypt admin r.0
    on : setting "totp_enabled" r.0 ≡ none
    secret : setting "totp_secret" r.0 ≡ none
    codes : r.0.panel.factors.recovery ≡ []
    devices : (k : String) → get_device bolt k (store_of bolt crypto bcrypt admin r.0) ≡ none

  clear_totp-IsCleared :
      (a : Acc)
      → Safe bolt crypto bcrypt admin a
      → IsCleared (clear_totp bolt crypto bcrypt admin a)
  unfolding clear_totp clear_codes names
  clear_totp-IsCleared a safe =
      let keys = "totp_secret" ∷ "totp_enabled" ∷ "totp_enabled_at" ∷ last_step_key ∷ [] in
      let st =
        (delete_settings bolt crypto bcrypt admin keys (store_of bolt crypto bcrypt admin a)).0 in
      let (gone, safe', left) =
        delete_settings-done keys (store_of bolt crypto bcrypt admin a) safe in
      let a' = with_store bolt crypto bcrypt admin st a in
      let (emptied, safe'') = delete_all_devices-Commits bolt st safe' in
      rw (gone, set_recovery_hashes-done bolt crypto bcrypt admin [] a' safe')
        (record {
          complete = emptied;
          safe = safe'';
          on = get_setting-delete_all_devices bolt "totp_enabled" st ∙ left "totp_enabled";
          secret = get_setting-delete_all_devices bolt "totp_secret" st ∙ left "totp_secret";
          codes = refl;
          devices = λ k. get_device-delete_all_devices bolt k st safe';
        })

  revoke-IsDisabled :
      (c : Client) (a : Acc)
      → IsCleared (a, true)
      → IsDisabled c (revoke bolt crypto bcrypt admin c a)
  unfolding revoke revoke_other_sessions
  revoke-IsDisabled c a r =
      let st = store_of bolt crypto bcrypt admin a in
      record {
        off =
            two_factor_enabled-off bolt crypto _
              (get_setting-delete_other_sessions bolt "totp_enabled" c.cookie st ∙ r.on);
        secret = get_setting-delete_other_sessions bolt "totp_secret" c.cookie st ∙ r.secret;
        codes = r.codes;
        devices = λ k. get_device-delete_other_sessions bolt k c.cookie st ∙ r.devices k;
        sessions = λ k other. get_session-delete_other_sessions bolt k c.cookie st r.safe other;
      }

  after_clearing-IsDisabled :
      (c : Client) (user : String) (r : Acc × Bool)
      → IsCleared r
      → IsDisabled c (after_clearing bolt crypto bcrypt admin c user r).1
  unfolding after_clearing
  after_clearing-IsDisabled c user (a, false) r = absurd (cc (r.complete))
  after_clearing-IsDisabled c user (a, true) r =
      let d = revoke-IsDisabled c a r in
      record {
        off = d.off;
        secret = d.secret;
        codes = d.codes;
        devices = d.devices;
        sessions = d.sessions;
      }

  disable-done :
      (c : Client) (user : String) (m : Option TotpError × Acc)
      → (disable bolt crypto bcrypt admin c user m).0 ≡ done
      → (m.0 ≡ none)
        × (Safe bolt crypto bcrypt admin m.1
            → IsDisabled c (disable bolt crypto bcrypt admin c user m).1)
  unfolding disable
  disable-done c user (some e, a) q = absurd (wrong_code-ne-done e q)
  disable-done c user (none, a) q = (
    refl,
    λ safe.
        after_clearing-IsDisabled c user (clear_totp bolt crypto bcrypt admin a)
          (clear_totp-IsCleared a safe),
  )

  -- Only a client that need not wait and shows the right password and, while the second factor is enabled, a
  -- right code, disables it. Then, if all transactions commit, it is not asked for any more, and its key,
  -- the recovery codes, the trusted devices and all other sessions in the store are gone.
  pub handle_2fa_disable_lem :
      (c : Client) (password code : String) (a : Acc)
      → (handle_2fa_disable bolt crypto bcrypt admin c password code a).0 ≡ done
      → (waits bolt crypto bcrypt admin c a ≡ false)
        × ((check bolt crypto bcrypt admin password a).0 ≡ true)
        × ((managed bolt crypto bcrypt admin c code (check bolt crypto bcrypt admin password a).1).0
            ≡ none)
        × (Safe bolt crypto bcrypt admin a
            → IsDisabled c (handle_2fa_disable bolt crypto bcrypt admin c password code a).1)
  unfolding handle_2fa_disable
  handle_2fa_disable_lem c password code a q =
      let r = check bolt crypto bcrypt admin password a in
      let m = managed bolt crypto bcrypt admin c code r.1 in
      elim (Bool-cases (waits bolt crypto bcrypt admin c a)) [
        | inl waiting ↦ absurd (too_many-ne-done (rw waiting at q))
        | inr free ↦ elim (Bool-cases r.0) [
          | inr wrong ↦ absurd (wrong_password-ne-done (rw (free, wrong) at q))
          | inl right ↦
              let (passed, off) =
                disable-done c (user_of bolt crypto bcrypt admin a) m (rw (free, right) at q) in
              (
                free,
                right,
                passed,
                λ safe.
                    rw (free, right)
                      (off (
                        managed-Safe bolt crypto bcrypt admin c code r.1
                          (check-Safe bolt crypto bcrypt admin password a safe))),
              )
        ]
      ]
