-- ===== src/Server/Sessions.antt =====
-- internal/server/server.go: login sessions, in memory and in the store. Times are nanoseconds, and the
-- store keeps whole seconds.
pub mod Access
mod Tests
use gost_webui.Prelude.{
  ℕ, ◌+◌, ◌-◌, ◌*◌, ◌/◌, ◌^◌, String, Bool, true, false, not, ◌&&◌, ◌||◌, Option, none, some, List,
  [], ◌∷◌, ltb, ◌==◌, string_eq, if◌then◌else◌, keep_if, length,
}
use gost_webui.Prelude.Maps.{Map, lookup, insert, delete}
use gost_webui.Bolt.{Bolt}
use gost_webui.Store.{Store, Session}
use gost_webui.Store.Logins.{
  save_session, get_session, delete_session, delete_other_sessions, prune_sessions, prune_devices,
}
use gost_webui.Server.Guard.{second, minute}

pub record MemSession : Type 0 where
  pub user : String
  pub ua : String
  pub expires : ℕ

-- 7 days
abbrev pub session_ttl : ℕ
session_ttl = 7 * 24 * 60 * minute

-- `Unix()`
abbrev pub unix : ℕ → ℕ
unix t = t / second

abbrev pub bound : MemSession → String → Bool
bound ses ua = ses.ua == "" || ua == "" || ses.ua == ua

module _ (bolt : Bolt) where
  pub record Sessions : Type 0 where
    pub mem : Map String MemSession
    pub store : Store bolt

  -- `newSessionStore`; its loop is `sweep`.
  unfoldable pub new_session_store : ℕ → Store bolt → Sessions
  new_session_store now st = record { mem = []; store = (prune_sessions bolt (unix now) st).0 }

  delete_expired : ℕ → Map String MemSession → Store bolt → Store bolt
  delete_expired now [] st = st
  delete_expired now ((k, v) ∷ m) st =
      let st' = if ltb v.expires now then (delete_session bolt k st).0 else st in
      delete_expired now m st'

  -- One round of the loop that runs every ten minutes.
  unfoldable pub sweep : ℕ → Sessions → Sessions
  unfolding delete_expired
  sweep now s = record {
    mem = keep_if (λ kv. not (ltb kv.1.expires now)) s.mem;
    store = (prune_devices bolt (unix now) (delete_expired now s.mem s.store)).1;
  }

  -- `create` with the token that the random bytes give.
  unfoldable pub create : String → String → String → ℕ → Sessions → Sessions
  create user ua token now s =
      let exp = now + session_ttl in
      record {
        mem = insert token (record { user = user; ua = ua; expires = exp }) s.mem;
        store =
            (save_session bolt token (record { user = user; expires_at = unix exp; ua = ua })
              s.store).0;
      }

  from_store : String → String → ℕ → Sessions → Option Session → Option MemSession × Sessions
  from_store token ua now s none = (none, s)
  from_store token ua now s (some ses) =
      let v : MemSession = record {
        user = ses.user;
        ua = ses.ua;
        expires = ses.expires_at * second;
      } in
      if not (ltb (unix now) ses.expires_at)
      then (none, s)
      else if not (bound v ua)
      then (none, record s { store = (delete_session bolt token s.store).0 })
      else (some v, record s { mem = insert token v s.mem })

  in_memory : String → String → ℕ → Sessions → Option MemSession → Option MemSession × Sessions
  unfolding from_store
  in_memory token ua now s none = from_store token ua now s (get_session bolt token s.store)
  in_memory token ua now s (some v) =
      let s' = record s { mem = delete token s.mem } in
      let again = from_store token ua now s' (get_session bolt token s.store) in
      if ltb v.expires now || not (bound v ua) then again else (some v, s)

  -- `get`
  unfoldable pub get : String → String → ℕ → Sessions → Option MemSession × Sessions
  unfolding in_memory
  get token ua now s = in_memory token ua now s (lookup token s.mem)

  unfoldable pub remove : String → Sessions → Sessions
  remove token s = record {
    mem = delete token s.mem;
    store = (delete_session bolt token s.store).0;
  }

  -- The number of sessions that were removed from memory comes back too.
  unfoldable pub remove_others : String → Map String MemSession → ℕ × Map String MemSession
  remove_others keep m = let kept = keep_if (λ kv. kv.0 == keep) m in (length m - length kept, kept)

  -- `revokeOtherSessions`
  unfoldable pub revoke_other_sessions : String → Sessions → Sessions
  unfolding remove_others
  revoke_other_sessions token s = record {
    mem = (remove_others token s.mem).1;
    store = (delete_other_sessions bolt token s.store).0;
  }

  pub data Verdict : Type 0 where
    no_cookie expired account_changed allowed : Verdict

  access_of : String → Option MemSession → Verdict
  access_of admin none = expired
  access_of admin (some v) = if v.user == admin then allowed else account_changed

  -- `auth`: whether the handler behind it runs.
  unfoldable pub auth : String → String → ℕ → String → Sessions → Verdict × Sessions
  unfolding access_of
  auth cookie ua now admin s =
      let (o, s') = get cookie ua now s in
      if cookie == "" then (no_cookie, s) else (access_of admin o, s')
