-- ===== src/Server/TwoFactor/Commits.antt =====
-- Where no transaction fails, none fails after a code was checked; and when the second factor is asked for.
use gost_webui.Prelude.{
  ℕ, String, ◌≡◌, refl, Bool, true, false, Option, none, some, ◌==◌, string_eq, Bool-cases, inl,
  inr,
}
use gost_webui.Prelude.Int.{ℤ}
use gost_webui.Model.Text.{trim_space}
use gost_webui.Bolt.{Bolt}
use gost_webui.Auth.{Crypto, normalize_secret, verify, match_recovery_code}
use gost_webui.Store.{Store, get_setting}
use gost_webui.Store.Commits.{IsSafe}
use gost_webui.Server.TwoFactor.{
  Factors, verify_code, used_step, consume_recovery_code, used_recovery, by_recovery,
  check_manage_code, digits_only, is_recovery_form, totp_secret, two_factor_enabled, text_or_empty,
}

module _ (bolt : Bolt) (crypto : Crypto) where
  -- A code that is not to be recorded leaves the store as it is.
  used_step-same :
      (now : ℕ) (st : Store bolt) (s : Option ℤ) → (used_step bolt crypto false now st s).1 ≡ st
  unfolding used_step
  used_step-same now st none = refl
  used_step-same now st (some s) = refl

  pub verify_code-same :
      (secret input : String) (now : ℕ) (st : Store bolt)
      → (verify_code bolt crypto secret input false now st).1 ≡ st
  unfolding verify_code
  verify_code-same secret input now st = elim (Bool-cases (secret == "")) [
    | inl unset ↦ rw unset refl
    | inr given ↦ rw given (used_step-same now st (verify crypto secret input now))
  ]

  used_recovery-IsSafe :
      (f : Factors bolt crypto) (i : Option ℕ)
      → IsSafe bolt f.store
      → IsSafe bolt (used_recovery bolt crypto f i).1.store
  unfolding used_recovery
  used_recovery-IsSafe f none safe = safe
  used_recovery-IsSafe f (some i) safe = rw safe refl

  by_recovery-same : (r : Bool × Factors bolt crypto) → (by_recovery bolt crypto r).1 ≡ r.1
  unfolding by_recovery
  by_recovery-same (true, f) = refl
  by_recovery-same (false, f) = refl

  pub check_manage_code-IsSafe :
      (text : String) (now : ℕ) (f : Factors bolt crypto)
      → IsSafe bolt f.store
      → IsSafe bolt (check_manage_code bolt crypto text now f).1.store
  unfolding check_manage_code consume_recovery_code
  check_manage_code-IsSafe text now f safe =
      let input = trim_space text in
      elim (Bool-cases (input == "")) [
        | inl empty ↦ rw empty safe
        | inr given ↦ elim (Bool-cases (digits_only input)) [
          | inl six ↦
              rw (given, six, verify_code-same (totp_secret bolt crypto f) input now f.store) safe
          | inr other ↦ elim (Bool-cases (is_recovery_form bolt crypto input)) [
            | inr none_ ↦ rw (given, other, none_) safe
            | inl form ↦
                rw
                  (given, other, form, by_recovery-same (consume_recovery_code bolt crypto input f))
                  (used_recovery-IsSafe f (match_recovery_code crypto input f.recovery) safe)
          ]
        ]
      ]

  -- The two settings that decide.
  pub two_factor_enabled-on :
      (secret : String) (f : Factors bolt crypto)
      → get_setting bolt "totp_enabled" f.store ≡ some "1"
      → get_setting bolt "totp_secret" f.store ≡ some secret
      → (normalize_secret secret == "") ≡ false
      → two_factor_enabled bolt crypto f ≡ true
  unfolding two_factor_enabled totp_secret text_or_empty
  two_factor_enabled-on secret f on stored given = rw (on, stored, given) refl

  pub two_factor_enabled-off :
      (f : Factors bolt crypto)
      → get_setting bolt "totp_enabled" f.store ≡ none
      → two_factor_enabled bolt crypto f ≡ false
  unfolding two_factor_enabled text_or_empty
  two_factor_enabled-off f off = rw off refl
