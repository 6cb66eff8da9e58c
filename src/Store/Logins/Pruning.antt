-- ===== src/Store/Logins/Pruning.antt =====
-- Which sessions and trusted devices the sweeps over a bucket delete.
use gost_webui.Prelude.{
  ℕ, String, ◌≡◌, refl, sym, ◌∙◌, ap, Bool, true, false, not, ◌||◌, Option, none, some, List, [],
  ◌∷◌, arith, ltb, ◌==◌, nat_eq, string_eq, eq_iff, if◌then◌else◌, Bool-cases, Option-cases, inl,
  inr,
}
use gost_webui.Prelude.Maps.{Map, lookup, HasDistinctKeys, lookup_of_Fresh}
use gost_webui.Bolt.{Bolt}
use gost_webui.Store.{
  Blob, json, unreadable, Session, Device, Store, Db, commit_done, commit_failed,
}
use gost_webui.Store.Logins.{
  collect, delete_keys, get_session, get_device, delete_other_sessions, prune_sessions,
  prune_devices, session_expired, device_expired,
}

contains : String → List String → Bool
contains j [] = false
contains j (k ∷ ks) = k == j || contains j ks

picks : {V : Type 0} → (String × V → Bool) → String → Option V → Bool
picks p k none = false
picks p k (some v) = p (k, v)

module _ (bolt : Bolt) where
  open bolt use {Bucket, get, get-delete, get-entries, entries, entries_distinct}

  get-delete_keys :
      {V : Type 0} (j : String) (ks : List String) (b : Bucket V)
      → get (delete_keys bolt ks b) j ≡ (if contains j ks then none else get b j)
  unfolding delete_keys contains
  get-delete_keys j [] b = refl
  get-delete_keys j (k ∷ ks) b =
      ground (arith, get-delete_keys j ks (bolt.delete b k), get-delete b k j)

  contains-collect :
      {V : Type 0} (p : String × V → Bool) (k : String) (m : Map String V)
      → HasDistinctKeys m
      → contains k (collect bolt p m) ≡ picks p k (lookup k m)
  unfolding collect contains picks lookup
  contains-collect p k [] d = refl
  contains-collect p k ((j, v) ∷ m) d = elim (Bool-cases (j == k)) [
    | inl same ↦
        let e : j ≡ k = (eq_iff j k).0 same in
        let gone : lookup k m ≡ none = lookup_of_Fresh k m (rw (← e) d.0) in
        ground (arith, contains-collect p k m d.1, gone, same, e)
    | inr other ↦ ground (arith, contains-collect p k m d.1, other)
  ]

  -- After a sweep a key holds what it held, unless the sweep picked it.
  get-sweep :
      {V : Type 0} (p : String × V → Bool) (b : Bucket V) (k : String)
      → get (delete_keys bolt (collect bolt p (entries b)) b) k
        ≡ (if picks p k (get b k) then none else get b k)
  get-sweep p b k =
      get-delete_keys k (collect bolt p (entries b)) b
      ∙ ap (λ picked. if picked then none else get b k)
          (contains-collect p k (entries b) (entries_distinct b)
            ∙ ap (picks p k) (sym (get-entries b k)))

  -- A new password logs out every other browser: if the transaction commits, the session that is
  -- kept is as it was and no other token has a session; if it fails, nothing has changed.
  pub delete_other_sessions_lem :
      (keep : String) (s : Store bolt)
      → ((delete_other_sessions bolt keep s).1 ≡ true
          → (token : String)
          → get_session bolt token (delete_other_sessions bolt keep s).0
            ≡ (if token == keep then get_session bolt token s else none))
        × ((delete_other_sessions bolt keep s).1 ≡ false
            → (delete_other_sessions bolt keep s).0.db ≡ s.db)
  unfolding delete_other_sessions get_session
  delete_other_sessions_lem keep s =
      let p : String × Blob Session → Bool = λ kv. not (kv.0 == keep) in
      let new : Db bolt = record s.db {
        sessions = delete_keys bolt (collect bolt p (entries s.db.sessions)) s.db.sessions;
      } in
      (
        λ done token.
            rw (commit_done bolt s.disk s new done, get-sweep p s.db.sessions token)
              (elim (Option-cases (get s.db.sessions token)) [
                | inl missing ↦ rw missing (unfold picks in ground arith)
                | inr (v, found) ↦ rw found (unfold picks in ground arith)
              ]),
        commit_failed bolt s.disk s new,
      )

  abbrev pub unexpired : {A : Type 0} → (A → Bool) → Option A → Option A
  unexpired expired none = none
  unexpired expired (some a) = if expired a then none else some a

  -- The hourly sweep: if it commits, the sessions that have expired are gone and all others are as
  -- they were.
  pub prune_sessions_lem :
      (now : ℕ) (s : Store bolt)
      → (prune_sessions bolt now s).1 ≡ true
      → (token : String)
      → get_session bolt token (prune_sessions bolt now s).0
        ≡ unexpired (λ ses. ltb ses.expires_at now) (get_session bolt token s)
  unfolding prune_sessions get_session
  prune_sessions_lem now s done token =
      let p : String × Blob Session → Bool = λ kv. session_expired bolt now kv.1 in
      let new : Db bolt = record s.db {
        sessions = delete_keys bolt (collect bolt p (entries s.db.sessions)) s.db.sessions;
      } in
      rw (commit_done bolt s.disk s new done, get-sweep p s.db.sessions token)
        (elim (Option-cases (get s.db.sessions token)) [
          | inl missing ↦ rw missing (unfold picks in refl)
          | inr (unreadable, found) ↦ rw found (unfold picks in refl)
          | inr (json ses, found) ↦ rw found (unfold picks in ground arith)
        ])

  -- So with the trusted devices.
  pub prune_devices_lem :
      (now : ℕ) (s : Store bolt)
      → (prune_devices bolt now s).2 ≡ true
      → (key : String)
      → get_device bolt key (prune_devices bolt now s).1
        ≡ unexpired (λ d. ltb d.expires_at now) (get_device bolt key s)
  unfolding prune_devices get_device
  prune_devices_lem now s done key =
      let p : String × Blob Device → Bool = λ kv. device_expired bolt now kv.1 in
      let new : Db bolt = record s.db {
        devices = delete_keys bolt (collect bolt p (entries s.db.devices)) s.db.devices;
      } in
      rw (commit_done bolt s.disk s new done, get-sweep p s.db.devices key)
        (elim (Option-cases (get s.db.devices key)) [
          | inl missing ↦ rw missing (unfold picks in refl)
          | inr (unreadable, found) ↦ rw found (unfold picks in refl)
          | inr (json d, found) ↦ rw found (unfold picks in ground arith)
        ])
