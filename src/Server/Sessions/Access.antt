-- ===== src/Server/Sessions/Access.antt =====
-- Who a session lets in.
use gost_webui.Prelude.{
  ℕ, ◌+◌, ◌*◌, ◌≤◌, ◌<◌, String, ◌≡◌, ◌≢◌, refl, true, false, not, ◌||◌, Option, none, some, arith,
  ltb, ◌==◌, string_eq, eq_iff, eq_refl, Bool-cases, inl, inr,
}
use mathlib.Core.Path.{subst}
use gost_webui.Prelude.Maps.{lookup}
use gost_webui.Bolt.{Bolt}
use gost_webui.Store.{Store, Session, Db, json, commit_done}
use gost_webui.Store.Logins.{save_session, get_session, prune_sessions}
use gost_webui.Store.Logins.Pruning.{prune_sessions_lem}
use gost_webui.Server.Guard.{second}
use gost_webui.Server.Sessions.{
  MemSession, Sessions, session_ttl, unix, bound, new_session_store, create, from_store, in_memory,
  get, auth, access_of, allowed,
}

module _ (bolt : Bolt) where
  -- A session is for its client and its time.
  abbrev pub IsGood : String → ℕ → MemSession → Type 0
  IsGood ua now v = (bound v ua ≡ true) × (now ≤ v.expires)

  from_store-IsGood :
      (token ua : String) (now : ℕ) (s : Sessions bolt) (o : Option Session) (v : MemSession)
      → (from_store bolt token ua now s o).0 ≡ some v
      → IsGood ua now v
  unfolding from_store
  from_store-IsGood token ua now s none v q = cc
  from_store-IsGood token ua now s (some ses) v q =
      let w : MemSession = record {
        user = ses.user;
        ua = ses.ua;
        expires = ses.expires_at * second;
      } in
      elim (Bool-cases (ltb (unix now) ses.expires_at)) [
        | inr late ↦ absurd (cc (rw late at q))
        | inl early ↦ elim (Bool-cases (bound w ua)) [
          | inr foreign ↦ absurd (cc (rw (early, foreign) at q))
          | inl own ↦
              let e : some w ≡ some v = rw (early, own) at q in
              let wv : w ≡ v = cc in
              let lt : unix now < ses.expires_at = ground arith in
              subst (IsGood ua now) wv (own, omega (arith, lt))
        ]
      ]

  in_memory-IsGood :
      (token ua : String) (now : ℕ) (s : Sessions bolt) (o : Option MemSession) (v : MemSession)
      → (in_memory bolt token ua now s o).0 ≡ some v
      → IsGood ua now v
  unfolding in_memory
  in_memory-IsGood token ua now s none v q = from_store-IsGood token ua now s _ v q
  in_memory-IsGood token ua now s (some w) v q =
      elim (Bool-cases (ltb w.expires now || not (bound w ua))) [
        | inl stale ↦ from_store-IsGood token ua now _ _ v (rw stale at q)
        | inr good ↦
            let e : some w ≡ some v = rw good at q in
            let wv : w ≡ v = cc in subst (IsGood ua now) wv (ground arith, ground arith)
      ]

  get-IsGood :
      (token ua : String) (now : ℕ) (s : Sessions bolt) (v : MemSession)
      → (get bolt token ua now s).0 ≡ some v
      → IsGood ua now v
  unfolding get
  get-IsGood token ua now s v q = in_memory-IsGood token ua now s (lookup token s.mem) v q

  access_of-allowed :
      (admin : String) (o : Option MemSession)
      → access_of bolt admin o ≡ allowed
      → (v : MemSession) × (o ≡ some v) × (v.user ≡ admin)
  unfolding access_of
  access_of-allowed admin none q = cc
  access_of-allowed admin (some v) q = elim (Bool-cases (v.user == admin)) [
    | inl same ↦ (v, refl, (eq_iff v.user admin).0 same)
    | inr other ↦ absurd (cc (rw other at q))
  ]

  -- A handler behind `auth` runs only for a session of the administrator's account that has not
  -- expired and is bound to the client.
  pub auth-IsGood :
      (cookie ua : String) (now : ℕ) (admin : String) (s : Sessions bolt)
      → (auth bolt cookie ua now admin s).0 ≡ allowed
      → (cookie ≢ "")
        × ((v : MemSession) × ((get bolt cookie ua now s).0 ≡ some v)
            × (v.user ≡ admin)
            × IsGood ua now v)
  unfolding auth
  auth-IsGood cookie ua now admin s q = elim (Bool-cases (cookie == "")) [
    | inl missing ↦ absurd (cc (rw missing at q))
    | inr given ↦
        let (v, found, same) =
          access_of-allowed admin (get bolt cookie ua now s).0 (rw given at q) in
        (
          ground (arith, given, eq_iff cookie ""),
          (v, found, same, get-IsGood cookie ua now s v found),
        )
  ]

  get_session-save_session :
      (token : String) (ses : Session) (st : Store bolt)
      → (save_session bolt token ses st).1 ≡ true
      → get_session bolt token (save_session bolt token ses st).0 ≡ some ses
  unfolding get_session save_session
  get_session-save_session token ses st done =
      let new : Db bolt = record st.db { sessions = bolt.put st.db.sessions token (json ses) } in
      rw (commit_done bolt st.disk st new done, bolt.get-put, eq_refl token) refl

  -- A session outlives a restart of the panel: when it was saved, and the store is pruned as it is at
  -- the start, its cookie still gives the same user.
  pub get-create_after_restart :
      (user ua token : String) (now later : ℕ) (s : Sessions bolt)
      → (save_session bolt token
          (record { user = user; expires_at = unix (now + session_ttl); ua = ua })
          s.store).1
        ≡ true
      → (prune_sessions bolt (unix later) (create bolt user ua token now s).store).1 ≡ true
      → unix later < unix (now + session_ttl)
      → (get bolt token ua later
          (new_session_store bolt later (create bolt user ua token now s).store)).0
        ≡ some (record { user = user; ua = ua; expires = unix (now + session_ttl) * second })
  unfolding get in_memory from_store new_session_store create lookup
  get-create_after_restart user ua token now later s saved pruned early =
      let exp = unix (now + session_ttl) in
      let ses : Session = record { user = user; expires_at = exp; ua = ua } in
      let st = (save_session bolt token ses s.store).0 in
      let kept = prune_sessions_lem bolt (unix later) st pruned token in
      let held = get_session-save_session token ses s.store saved in
      let v : MemSession = record { user = user; ua = ua; expires = exp * second } in
      let alive : ltb exp (unix later) ≡ false = ground arith in
      let young : ltb (unix later) exp ≡ true = ground arith in
      let own : bound v ua ≡ true = ground (arith, eq_refl ua) in
      rw (kept, held, alive, young, own) refl
