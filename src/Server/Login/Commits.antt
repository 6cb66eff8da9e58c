-- ===== src/Server/Login/Commits.antt =====
-- Where no transaction fails, none fails after a password was checked.
use gost_webui.Prelude.{String, Option, none, some, ◌==◌, string_eq, Bool-cases, inl, inr}
use gost_webui.Bolt.{Bolt}
use gost_webui.Auth.{Crypto}
use gost_webui.Store.{Store, get_setting}
use gost_webui.Store.Commits.{IsSafe, set_setting-Commits}
use gost_webui.Server.Login.{Bcrypt, AdminConfig, check_password, check_hash, store_hash}

module _ (bolt : Bolt) (crypto : Crypto) (bcrypt : Bcrypt) (admin : AdminConfig) where
  store_hash-IsSafe :
      (h : Option String) (st : Store bolt)
      → IsSafe bolt st
      → IsSafe bolt (store_hash bolt crypto bcrypt admin h st)
  unfolding store_hash
  store_hash-IsSafe none st safe = safe
  store_hash-IsSafe (some h) st safe =
      (set_setting-Commits bolt _ _ _ (set_setting-Commits bolt _ _ st safe).1).1

  check_hash-IsSafe :
      (h : Option String) (pass : String) (st : Store bolt)
      → IsSafe bolt st
      → IsSafe bolt (check_hash bolt crypto bcrypt admin h pass st).1
  unfolding check_hash
  check_hash-IsSafe (some h) pass st safe = safe
  check_hash-IsSafe none pass st safe = elim (Bool-cases (admin.password == "")) [
    | inl unset ↦ rw unset safe
    | inr given ↦ elim (Bool-cases (pass == admin.password)) [
      | inl same ↦ rw (given, same) (store_hash-IsSafe (bcrypt.generate pass) st safe)
      | inr other ↦ rw (given, other) safe
    ]
  ]

  pub check_password-IsSafe :
      (pass : String) (st : Store bolt)
      → IsSafe bolt st
      → IsSafe bolt (check_password bolt crypto bcrypt admin pass st).1
  unfolding check_password
  check_password-IsSafe pass st safe =
      check_hash-IsSafe (get_setting bolt "admin_hash" st) pass st safe
