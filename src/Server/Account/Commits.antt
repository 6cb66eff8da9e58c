-- ===== src/Server/Account/Commits.antt =====
-- Where no transaction fails, none fails after the checks that a change of the account begins with.
use gost_webui.Prelude.{String, List, ◌≡◌, refl, true, Bool-cases, inl, inr}
use gost_webui.Bolt.{Bolt}
use gost_webui.Auth.{Crypto}
use gost_webui.Store.Commits.{IsSafe}
use gost_webui.Server.Sessions.{unix}
use gost_webui.Server.TwoFactor.Commits.{check_manage_code-IsSafe}
use gost_webui.Server.Login.{Bcrypt, AdminConfig}
use gost_webui.Server.Login.Commits.{check_password-IsSafe}
use gost_webui.Server.Account.{
  Client, Account, store_of, check, managed, is_on, with_factors, set_recovery_hashes,
}

module _ (bolt : Bolt) (crypto : Crypto) (bcrypt : Bcrypt) (admin : AdminConfig) where
  -- No failure is to come for the account.
  abbrev pub Safe : Account bolt crypto bcrypt admin → Type 0
  Safe a = IsSafe bolt (store_of bolt crypto bcrypt admin a)

  pub check-Safe :
      (pass : String) (a : Account bolt crypto bcrypt admin)
      → Safe a
      → Safe (check bolt crypto bcrypt admin pass a).1
  check-Safe pass a safe =
      check_password-IsSafe bolt crypto bcrypt admin pass (store_of bolt crypto bcrypt admin a) safe

  pub managed-Safe :
      (c : Client) (code : String) (a : Account bolt crypto bcrypt admin)
      → Safe a
      → Safe (managed bolt crypto bcrypt admin c code a).1
  unfolding managed
  managed-Safe c code a safe = elim (Bool-cases (is_on bolt crypto bcrypt admin a)) [
    | inl on ↦ rw on (check_manage_code-IsSafe bolt crypto code (unix c.now) a.panel.factors safe)
    | inr off ↦ rw off safe
  ]

  pub set_recovery_hashes-done :
      (hs : List String) (a : Account bolt crypto bcrypt admin)
      → Safe a
      → set_recovery_hashes bolt crypto bcrypt admin hs a ≡ (
        with_factors bolt crypto bcrypt admin
            (record { store = store_of bolt crypto bcrypt admin a; recovery = hs })
            a,
        true,
      )
  unfolding set_recovery_hashes
  set_recovery_hashes-done hs a safe = rw safe refl
