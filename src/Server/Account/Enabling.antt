-- ===== src/Server/Account/Enabling.antt =====
-- The second factor after it was enabled or disabled.
use gost_webui.Prelude.{
  String, ◌≡◌, refl, ap, ◌∙◌, true, false, Option, none, some, List, map, ltb, ◌==◌, string_eq,
  Bool-cases, Option-cases, inl, inr,
}
use gost_webui.Prelude.Int.{pos}
use gost_webui.Prelude.Maps.{lookup, lookup-delete_self}
use gost_webui.Model.Text.{itoa}
use gost_webui.Bolt.{Bolt}
use gost_webui.Auth.{Crypto, normalize_secret, hash_recovery_code}
use gost_webui.Store.{Store, get_setting, set_setting}
use gost_webui.Store.Commits.{
  IsSafe, set_setting-Commits, del_setting-Commits, get_setting-set_setting,
  get_setting-del_setting,
}
use gost_webui.Server.Sessions.{unix}
use gost_webui.Server.TwoFactor.{TotpError, verify_code, last_step_key}
use gost_webui.Server.TwoFactor.Commits.{verify_code-same, two_factor_enabled-on}
use gost_webui.Server.Login.{Bcrypt, AdminConfig}
use gost_webui.Server.Account.Commits.{Safe, set_recovery_hashes-done}
use gost_webui.Server.Account.{
  Client, PendingSetup, new_codes, pending_gone, too_many, wrong_code, failed, Account, store_of,
  user_of, waits, is_on, save_codes, switch_on, enable, enable_pending, handle_2fa_enable,
}

wrong_code-ne-new_codes : (e : TotpError) (cs : List String) → ¬ (wrong_code e ≡ new_codes cs)
wrong_code-ne-new_codes e cs q = cc

failed-ne-new_codes : (cs : List String) → ¬ (failed ≡ new_codes cs)
failed-ne-new_codes cs q = cc

pending_gone-ne-new_codes : (cs : List String) → ¬ (pending_gone ≡ new_codes cs)
pending_gone-ne-new_codes cs q = cc

too_many-ne-new_codes : (cs : List String) → ¬ (too_many ≡ new_codes cs)
too_many-ne-new_codes cs q = cc

new_codes_injective : {a b : List String} → new_codes a ≡ new_codes b → a ≡ b
new_codes_injective q = cc

module _ (bolt : Bolt) (crypto : Crypto) (bcrypt : Bcrypt) (admin : AdminConfig) where
  abbrev Acc : Type 0
  Acc = Account bolt crypto bcrypt admin

  abbrev setting : String → Acc → Option String
  setting k a = get_setting bolt k (store_of bolt crypto bcrypt admin a)

  -- The key is stored and in force, with the recovery codes that were shown.
  pub record IsEnabled (user secret : String) (cs : List String) (a : Acc) : Type 0 where
    pub stored : setting "totp_secret" a ≡ some secret
    pub on : (normalize_secret secret == "") ≡ false → is_on bolt crypto bcrypt admin a ≡ true
    pub codes : a.panel.factors.recovery ≡ map (hash_recovery_code crypto) cs
    pub unused : setting last_step_key a ≡ none
    pub settled : lookup user a.pending ≡ none

  -- The settings that are written.
  record IsSwitched (secret : String) (st : Store bolt) : Type 0 where
    stored : get_setting bolt "totp_secret" st ≡ some secret
    on : get_setting bolt "totp_enabled" st ≡ some "1"
    unused : get_setting bolt last_step_key st ≡ none
    safe : IsSafe bolt st

  switch_on-IsSwitched :
      (c : Client) (secret : String) (st : Store bolt)
      → IsSafe bolt st
      → IsSwitched secret
          (switch_on bolt crypto bcrypt admin c (set_setting bolt "totp_secret" secret st).0)
  unfolding switch_on
  switch_on-IsSwitched c secret st safe =
      let st1 = (set_setting bolt "totp_secret" secret st).0 in
      let safe1 = (set_setting-Commits bolt "totp_secret" secret st safe).1 in
      let st2 = (set_setting bolt "totp_enabled" "1" st1).0 in
      let safe2 = (set_setting-Commits bolt "totp_enabled" "1" st1 safe1).1 in
      let v = itoa (pos (unix c.now)) in
      let st3 = (set_setting bolt "totp_enabled_at" v st2).0 in
      let safe3 = (set_setting-Commits bolt "totp_enabled_at" v st2 safe2).1 in
      record {
        stored =
            get_setting-del_setting bolt "totp_secret" last_step_key st3 safe3
            ∙ get_setting-set_setting bolt "totp_secret" "totp_enabled_at" v st2 safe2
            ∙ get_setting-set_setting bolt "totp_secret" "totp_enabled" "1" st1 safe1
            ∙ get_setting-set_setting bolt "totp_secret" "totp_secret" secret st safe;
        on =
            get_setting-del_setting bolt "totp_enabled" last_step_key st3 safe3
            ∙ get_setting-set_setting bolt "totp_enabled" "totp_enabled_at" v st2 safe2
            ∙ get_setting-set_setting bolt "totp_enabled" "totp_enabled" "1" st1 safe1;
        unused = get_setting-del_setting bolt last_step_key last_step_key st3 safe3;
        safe = (del_setting-Commits bolt last_step_key st3 safe3).1;
      }

  save_codes-IsEnabled :
      (c : Client) (user secret : String) (o : Option (List String)) (a : Acc) (cs : List String)
      → IsSwitched secret (store_of bolt crypto bcrypt admin a)
      → (save_codes bolt crypto bcrypt admin c user o a).0 ≡ new_codes cs
      → IsEnabled user secret cs (save_codes bolt crypto bcrypt admin c user o a).1
  unfolding save_codes
  save_codes-IsEnabled c user secret none a cs s q = absurd (failed-ne-new_codes cs q)
  save_codes-IsEnabled c user secret (some codes) a cs s q =
      let e =
        set_recovery_hashes-done bolt crypto bcrypt admin (map (hash_recovery_code crypto) codes) a
          s.safe in
      let same : codes ≡ cs = new_codes_injective (rw e at q) in
      rw e (record {
        stored = s.stored;
        on = λ given. two_factor_enabled-on bolt crypto secret _ s.on s.stored given;
        codes = ap (λ l. map (hash_recovery_code crypto) l) same;
        unused = s.unused;
        settled = lookup-delete_self user a.pending;
      })

  -- What a request to enable the second factor has to show.
  pub record IsConfirmed (c : Client) (code : String) (a : Acc) (p : PendingSetup) : Type 0 where
    pub pending : lookup (user_of bolt crypto bcrypt admin a) a.pending ≡ some p
    pub fresh : ltb p.expires c.now ≡ false
    pub free : waits bolt crypto bcrypt admin c a ≡ false
    pub right :
        (verify_code bolt crypto p.secret code false
          (unix c.now)
          (store_of bolt crypto bcrypt admin a)).0
        ≡ none

  enable-IsEnabled :
      (c : Client) (user secret : String) (v : Option TotpError × Store bolt) (a : Acc)
      (cs : List String)
      → (enable bolt crypto bcrypt admin c user secret v a).0 ≡ new_codes cs
      → (v.0 ≡ none)
        × (IsSafe bolt v.1
            → IsEnabled user secret cs (enable bolt crypto bcrypt admin c user secret v a).1)
  unfolding enable
  enable-IsEnabled c user secret (some e, st) a cs q = absurd (wrong_code-ne-new_codes e cs q)
  enable-IsEnabled c user secret (none, st) a cs q = (
    refl,
    λ safe.
        let saved = (set_setting-Commits bolt "totp_secret" secret st safe).0 in
        rw saved (
          save_codes-IsEnabled c user secret c.codes _ cs (switch_on-IsSwitched c secret st safe)
            (rw saved at q)),
  )

  -- Recovery codes are answered only to a client that need not wait and shows a code of the key that it was
  -- given not longer than ten minutes ago. Then, if all transactions commit, that key is stored and is in force
  -- if it is not blank, the stored hashes are those of the codes that are answered, no code counts as used,
  -- and the key is not pending any more.
  pub handle_2fa_enable_lem :
      (c : Client) (code : String) (a : Acc) (cs : List String)
      → (handle_2fa_enable bolt crypto bcrypt admin c code a).0 ≡ new_codes cs
      → (p : PendingSetup) × IsConfirmed c code a p
        × (Safe bolt crypto bcrypt admin a
            → IsEnabled
                (user_of bolt crypto bcrypt admin a)
                p.secret
                cs
                (handle_2fa_enable bolt crypto bcrypt admin c code a).1)
  unfolding handle_2fa_enable enable_pending
  handle_2fa_enable_lem c code a cs q =
      let user = user_of bolt crypto bcrypt admin a in
      elim (Option-cases (lookup user a.pending)) [
        | inl gone ↦ absurd (pending_gone-ne-new_codes cs (rw gone at q))
        | inr (p, found) ↦ elim (Bool-cases (ltb p.expires c.now)) [
          | inl late ↦ absurd (pending_gone-ne-new_codes cs (rw (found, late) at q))
          | inr fresh ↦ elim (Bool-cases (waits bolt crypto bcrypt admin c a)) [
            | inl waiting ↦ absurd (too_many-ne-new_codes cs (rw (found, fresh, waiting) at q))
            | inr free ↦
                let v =
                  verify_code bolt crypto p.secret code false (unix c.now)
                    (store_of bolt crypto bcrypt admin a) in
                let (right, on) =
                  enable-IsEnabled c user p.secret v a cs (rw (found, fresh, free) at q) in
                (
                  p,
                  record { pending = found; fresh = fresh; free = free; right = right },
                  λ safe.
                      rw (found, fresh, free)
                        (on (
                          ap (λ st. st.disk)
                            (verify_code-same bolt crypto p.secret code (unix c.now)
                              (store_of bolt crypto bcrypt admin a))
                          ∙ safe)),
                )
          ]
        ]
      ]
