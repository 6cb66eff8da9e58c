-- ===== src/Store/Logins.antt =====
-- internal/store/store.go: login sessions and trusted devices.
pub mod Pruning
use gost_webui.Prelude.{
  ℕ, ◌+◌, ◌-◌, ◌%◌, ◌<◌, String, Bool, true, false, not, ◌&&◌, ◌||◌, Option, none, some, List, [],
  ◌∷◌, ltb, leb, ◌==◌, nat_eq, string_eq, if◌then◌else◌, length, take, drop, keep_if, map, ◌++◌,
}
use gost_webui.Prelude.Maps.{Map, lookup}
use gost_webui.Model.{Node, Point}
use gost_webui.Bolt.{Bolt}
use gost_webui.Store.{
  Blob, json, unreadable, Session, Device, StoreError, Store, Db, update, commit,
}
use gost_webui.Store.Bytes.{ByteString, bytes_eq, u64_mod, put_uint64, uint64, lt_bytes}

module _ (bolt : Bolt) where
  open bolt use {
    Bucket, empty, get, put, delete, entries, Hours, no_hours, hour_put, hour_delete, hours,
  }

  -- Sessions.
  unfoldable pub save_session : String → Session → Store bolt → Store bolt × Bool
  save_session token ses s =
      update bolt s (record s.db { sessions = put s.db.sessions token (json ses) })

  abbrev pub readable : {A : Type 0} → Option (Blob A) → Option A
  readable none = none
  readable (some unreadable) = none
  readable (some (json a)) = some a

  unfoldable pub get_session : String → Store bolt → Option Session
  get_session token s = readable (get s.db.sessions token)

  unfoldable pub delete_session : String → Store bolt → Store bolt × Bool
  delete_session token s = update bolt s (record s.db { sessions = delete s.db.sessions token })

  -- The keys that a loop over a bucket collects, and their deletion.
  collect : {V : Type 0} → (String × V → Bool) → Map String V → List String
  collect p [] = []
  collect p (kv ∷ m) = let rest = collect p m in if p kv then kv.0 ∷ rest else rest

  delete_keys : {V : Type 0} → List String → Bucket V → Bucket V
  delete_keys [] b = b
  delete_keys (k ∷ ks) b = delete_keys ks (delete b k)

  -- `DeleteOtherSessions`
  unfoldable pub delete_other_sessions : String → Store bolt → Store bolt × Bool
  unfolding collect delete_keys
  delete_other_sessions keep s =
      let keys = collect (λ kv. not (kv.0 == keep)) (entries s.db.sessions) in
      update bolt s (record s.db { sessions = delete_keys keys s.db.sessions })

  -- The bucket is deleted and created again.
  unfoldable pub delete_all_sessions : Store bolt → Store bolt × Bool
  delete_all_sessions s = update bolt s (record s.db { sessions = empty })

  abbrev pub session_expired : ℕ → Blob Session → Bool
  session_expired now unreadable = true
  session_expired now (json ses) = ltb ses.expires_at now

  unfoldable pub prune_sessions : ℕ → Store bolt → Store bolt × Bool
  unfolding collect delete_keys
  prune_sessions now s =
      let keys = collect (λ kv. session_expired now kv.1) (entries s.db.sessions) in
      update bolt s (record s.db { sessions = delete_keys keys s.db.sessions })

  -- Trusted devices, by the digest of their token.
  unfoldable pub save_device : String → Device → Store bolt → Store bolt × Bool
  save_device key d s = update bolt s (record s.db { devices = put s.db.devices key (json d) })

  unfoldable pub get_device : String → Store bolt → Option Device
  get_device key s = readable (get s.db.devices key)

  unfoldable pub delete_device : String → Store bolt → Store bolt × Bool
  delete_device key s = update bolt s (record s.db { devices = delete s.db.devices key })

  unfoldable pub delete_all_devices : Store bolt → Store bolt × Bool
  delete_all_devices s = update bolt s (record s.db { devices = empty })

  abbrev pub device_expired : ℕ → Blob Device → Bool
  device_expired now unreadable = true
  device_expired now (json d) = ltb d.expires_at now

  -- The number of devices removed comes back too.
  unfoldable pub prune_devices : ℕ → Store bolt → ℕ × Store bolt × Bool
  unfolding collect delete_keys
  prune_devices now s =
      let keys = collect (λ kv. device_expired now kv.1) (entries s.db.devices) in
      let (s', done) = update bolt s (record s.db { devices = delete_keys keys s.db.devices }) in
      (length keys, s', done)
