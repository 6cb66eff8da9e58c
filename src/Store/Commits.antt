-- ===== src/Store/Commits.antt =====
-- Where no transaction fails, none fails after one; and what settings, sessions and devices are after one.
use gost_webui.Prelude.{
  String, ◌≡◌, refl, ◌∙◌, Bool, true, false, none, some, [], ◌==◌, string_eq, if◌then◌else◌,
}
use gost_webui.Bolt.{Bolt}
use gost_webui.Store.{Store, get_setting, set_setting, del_setting, commit_keeps}
use gost_webui.Store.Logins.{
  readable, get_session, get_device, delete_other_sessions, delete_all_devices,
}
use gost_webui.Store.Logins.Pruning.{delete_other_sessions_lem}

module _ (bolt : Bolt) where
  open bolt use {get, put, delete, empty, get-put, get-delete, get-empty}

  -- No failure is to come.
  abbrev pub IsSafe : Store bolt → Type 0
  IsSafe st = st.disk ≡ []

  -- A transaction that commits, with no failure to come.
  abbrev Commits : Store bolt × Bool → Type 0
  Commits r = (r.1 ≡ true) × IsSafe r.0

  pub set_setting-Commits :
      (k v : String) (st : Store bolt) → IsSafe st → Commits (set_setting bolt k v st)
  unfolding set_setting
  set_setting-Commits k v st safe = rw safe (refl, refl)

  pub del_setting-Commits :
      (k : String) (st : Store bolt) → IsSafe st → Commits (del_setting bolt k st)
  unfolding del_setting
  del_setting-Commits k st safe = rw safe (refl, refl)

  pub delete_other_sessions-Commits :
      (keep : String) (st : Store bolt) → IsSafe st → Commits (delete_other_sessions bolt keep st)
  unfolding delete_other_sessions
  delete_other_sessions-Commits keep st safe = rw safe (refl, refl)

  pub delete_all_devices-Commits :
      (st : Store bolt) → IsSafe st → Commits (delete_all_devices bolt st)
  unfolding delete_all_devices
  delete_all_devices-Commits st safe = rw safe (refl, refl)

  pub get_setting-set_setting :
      (j k v : String) (st : Store bolt)
      → IsSafe st
      → get_setting bolt j (set_setting bolt k v st).0
        ≡ (if k == j then some v else get_setting bolt j st)
  unfolding get_setting set_setting
  get_setting-set_setting j k v st safe = rw (safe, get-put) refl

  pub get_setting-del_setting :
      (j k : String) (st : Store bolt)
      → IsSafe st
      → get_setting bolt j (del_setting bolt k st).0
        ≡ (if k == j then none else get_setting bolt j st)
  unfolding get_setting del_setting
  get_setting-del_setting j k st safe = rw (safe, get-delete) refl

  pub get_setting-delete_other_sessions :
      (j keep : String) (st : Store bolt)
      → get_setting bolt j (delete_other_sessions bolt keep st).0 ≡ get_setting bolt j st
  unfolding get_setting delete_other_sessions
  get_setting-delete_other_sessions j keep st =
      commit_keeps bolt (λ db. get db.meta j ≡ get st.db.meta j) st.disk st _ refl refl

  pub get_setting-delete_all_devices :
      (j : String) (st : Store bolt)
      → get_setting bolt j (delete_all_devices bolt st).0 ≡ get_setting bolt j st
  unfolding get_setting delete_all_devices
  get_setting-delete_all_devices j st =
      commit_keeps bolt (λ db. get db.meta j ≡ get st.db.meta j) st.disk st _ refl refl

  pub get_session-delete_all_devices :
      (k : String) (st : Store bolt)
      → get_session bolt k (delete_all_devices bolt st).0 ≡ get_session bolt k st
  unfolding get_session delete_all_devices
  get_session-delete_all_devices k st =
      commit_keeps bolt
        (λ db. readable bolt (get db.sessions k) ≡ readable bolt (get st.db.sessions k)) st.disk st
        _ refl refl

  pub get_device-delete_all_devices :
      (k : String) (st : Store bolt)
      → IsSafe st
      → get_device bolt k (delete_all_devices bolt st).0 ≡ none
  unfolding get_device delete_all_devices
  get_device-delete_all_devices k st safe = rw (safe, get-empty) refl

  pub get_device-delete_other_sessions :
      (k keep : String) (st : Store bolt)
      → get_device bolt k (delete_other_sessions bolt keep st).0 ≡ get_device bolt k st
  unfolding get_device delete_other_sessions
  get_device-delete_other_sessions k keep st =
      commit_keeps bolt
        (λ db. readable bolt (get db.devices k) ≡ readable bolt (get st.db.devices k)) st.disk st _
        refl refl

  pub get_session-delete_other_sessions :
      (k keep : String) (st : Store bolt)
      → IsSafe st
      → (k == keep) ≡ false
      → get_session bolt k (delete_other_sessions bolt keep st).0 ≡ none
  get_session-delete_other_sessions k keep st safe other =
      (delete_other_sessions_lem bolt keep st).0 (delete_other_sessions-Commits keep st safe).0 k
      ∙ rw other refl
