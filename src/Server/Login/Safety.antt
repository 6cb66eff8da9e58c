-- ===== src/Server/Login/Safety.antt =====
-- Who gets a session, and what a login that is not refused does to the login guard.
use Prim.Native.String.{len}
use gost_webui.Prelude.{
  ℕ, String, ◌≡◌, ◌≢◌, ◌⊎◌, refl, ap, ◌∙◌, Bool, true, false, ◌||◌, Option, none, some, arith, ltb,
  ◌==◌, string_eq, eq_iff, Bool-cases, Option-cases, inl, inr,
}
use gost_webui.Prelude.Maps.{lookup, lookup-delete_self}
use gost_webui.Model.Text.{trim_space}
use gost_webui.Bolt.{Bolt}
use gost_webui.Auth.{Crypto}
use gost_webui.Store.{Store}
use gost_webui.Server.Guard.{blocked, success}
use gost_webui.Server.Guard.Waits.{blocked-success}
use gost_webui.Server.Sessions.{unix}
use gost_webui.Server.TwoFactor.{
  TotpError, Challenge, Challenges, Factors, check_second_factor, two_factor_enabled,
  fail_challenge, lookup_challenge,
}
use gost_webui.Server.TwoFactor.Challenges.{IsUsable, lookup_challenge_lem}
use gost_webui.Server.Login.{
  Bcrypt, AdminConfig, Request, Reply, bad_length, too_many, refused, logged_in, Panel, admin_user,
  check_password, with_store, start_session, challenge_reply, by_device, after_password,
  handle_login, handle_login_2fa, with_challenge, factor_reply, wrong_code_reply,
}

abbrev pub is_refusal : Reply → Bool
is_refusal bad_length = true
is_refusal too_many = true
is_refusal refused = true
is_refusal _ = false

module _ (bolt : Bolt) (crypto : Crypto) (bcrypt : Bcrypt) (admin : AdminConfig) where
  -- The administrator's name and password, from a client that does not have to wait.
  pub record IsPassed (req : Request) (username password : String)
      (p : Panel bolt crypto bcrypt admin) : Type 0 where
    pub named : trim_space username ≡ admin_user bolt crypto bcrypt admin p.factors.store
    pub right : (check_password bolt crypto bcrypt admin password p.factors.store).0 ≡ true
    pub free :
        blocked req.now req.ip (admin_user bolt crypto bcrypt admin p.factors.store) p.guard ≡ 0

  abbrev Outcome : Type 0
  Outcome = Reply × Panel bolt crypto bcrypt admin

  -- It is no refusal, and leaves the guard as it is.
  abbrev Passes : Outcome → Panel bolt crypto bcrypt admin → Type 0
  Passes r p = (is_refusal r.0 ≡ false) × (r.1.guard ≡ p.guard)

  challenge_reply-Passes :
      (r : Option String × Challenges) (p : Panel bolt crypto bcrypt admin)
      → Passes (challenge_reply bolt crypto bcrypt admin r p) p
  unfolding challenge_reply
  challenge_reply-Passes (none, chals) p = (refl, refl)
  challenge_reply-Passes (some token, chals) p = (refl, refl)

  by_device-Passes :
      (req : Request) (user : String) (r : Option String × Store bolt)
      (p : Panel bolt crypto bcrypt admin)
      → Passes (by_device bolt crypto bcrypt admin req user r p) p
  unfolding by_device with_store start_session
  by_device-Passes req user (none, st) p = challenge_reply-Passes _ _
  by_device-Passes req user (some owner, st) p = elim (Bool-cases (owner == user)) [
    | inl same ↦ rw same (refl, refl)
    | inr other ↦ rw other (challenge_reply-Passes _ _)
  ]

  after_password-Passes :
      (req : Request) (user : String) (p : Panel bolt crypto bcrypt admin)
      → Passes (after_password bolt crypto bcrypt admin req user p) p
  unfolding after_password with_store start_session
  after_password-Passes req user p = elim (Bool-cases (two_factor_enabled bolt crypto p.factors)) [
    | inl enabled ↦ rw enabled (by_device-Passes req user _ p)
    | inr disabled ↦ rw disabled (refl, refl)
  ]

  abbrev pub attempt : Request → String → String → Panel bolt crypto bcrypt admin → Outcome
  attempt = handle_login bolt crypto bcrypt admin

  -- The panel when the password is found right.
  abbrev let_in : Request → String → Panel bolt crypto bcrypt admin → Panel bolt crypto bcrypt admin
  let_in req password p =
      record (with_store bolt crypto bcrypt admin
        (check_password bolt crypto bcrypt admin password p.factors.store).1 p) {
          guard = success req.ip (admin_user bolt crypto bcrypt admin p.factors.store) p.guard;
        }

  abbrev IsTurnedAway : Outcome → Panel bolt crypto bcrypt admin → Type 0
  IsTurnedAway r p = (is_refusal r.0 ≡ true) × (r.1.mem ≡ p.mem) × (r.1.chals ≡ p.chals)

  -- A request is turned away, or its password is right.
  handle_login-cases :
      (req : Request) (username password : String) (p : Panel bolt crypto bcrypt admin)
      → IsTurnedAway (attempt req username password p) p
        ⊎ (IsPassed req username password p
            × (attempt req username password p
                ≡ after_password bolt crypto bcrypt admin req
                    (admin_user bolt crypto bcrypt admin p.factors.store)
                    (let_in req password p)))
  unfolding handle_login with_store
  handle_login-cases req username password p =
      let name = trim_space username in
      let user = admin_user bolt crypto bcrypt admin p.factors.store in
      let right = (check_password bolt crypto bcrypt admin password p.factors.store).0 in
      elim (Bool-cases (ltb 64 (len name) || ltb 256 (len password))) [
        | inl long ↦ inl (rw long (refl, refl, refl))
        | inr short ↦ elim (Bool-cases (name == user)) [
          | inr other ↦ elim (Bool-cases (ltb 0 (blocked req.now req.ip "" p.guard))) [
            | inl waits ↦ inl (rw (short, other, waits) (refl, refl, refl))
            | inr free ↦ inl (rw (short, other, free) (refl, refl, refl))
          ]
          | inl same ↦ elim (Bool-cases (ltb 0 (blocked req.now req.ip user p.guard))) [
            | inl waits ↦ inl (rw (short, same, waits) (refl, refl, refl))
            | inr free ↦ elim (Bool-cases right) [
              | inr wrong ↦ inl (rw (short, same, free, wrong) (refl, refl, refl))
              | inl good ↦ inr (
                record { named = (eq_iff name user).0 same; right = good; free = ground arith },
                rw (short, same, free, good) refl,
              )
            ]
          ]
        ]
      ]

  not_both : {b : Bool} → b ≡ true → b ≡ false → ⊥
  not_both h k = cc

  -- Only the right name and password of a client that need not wait get past the first step; whoever is
  -- refused there has started no session and got no challenge.
  pub handle_login_lem :
      (req : Request) (username password : String) (p : Panel bolt crypto bcrypt admin)
      → (is_refusal (attempt req username password p).0 ≡ false → IsPassed req username password p)
        × (is_refusal (attempt req username password p).0 ≡ true
            → ((attempt req username password p).1.mem ≡ p.mem)
              × ((attempt req username password p).1.chals ≡ p.chals))
  handle_login_lem req username password p = elim (handle_login-cases req username password p) [
    | inl away ↦ (λ q. absurd (not_both away.0 q), λ q. (away.1, away.2))
    | inr (passed, e) ↦ (
      λ q. passed,
      λ q.
          absurd (
            not_both q
              (ap (λ (r : Outcome). is_refusal r.0) e ∙ (after_password-Passes req _ _).0)),
    )
  ]

  -- A request to log in that is not refused leaves its address and the administrator's account without any
  -- wait, also where a second factor is still to be shown.
  pub handle_login_resets :
      (req : Request) (username password : String) (p : Panel bolt crypto bcrypt admin) (t : ℕ)
      → is_refusal (attempt req username password p).0 ≡ false
      → blocked t req.ip
          (admin_user bolt crypto bcrypt admin p.factors.store)
          (attempt req username password p).1.guard
        ≡ 0
  handle_login_resets req username password p t h =
      let user = admin_user bolt crypto bcrypt admin p.factors.store in
      elim (handle_login-cases req username password p) [
        | inl away ↦ absurd (not_both away.0 h)
        | inr (passed, e) ↦
            ap (λ (r : Outcome). blocked t req.ip user r.1.guard) e
            ∙ ap (λ g. blocked t req.ip user g)
                (after_password-Passes req user (let_in req password p)).1
            ∙ (blocked-success t req.ip user p.guard).0
      ]

  -- The reply gives a session to the user.
  abbrev pub IsLoggedIn : String → Reply → Type 0
  IsLoggedIn user reply = reply ≡ logged_in user

  abbrev pub second_step : Request → String → String → Panel bolt crypto bcrypt admin → Outcome
  second_step = handle_login_2fa bolt crypto bcrypt admin

  factor_reply-logged_in :
      (req : Request) (token user user' : String) (r : Option TotpError × Factors bolt crypto)
      (p : Panel bolt crypto bcrypt admin)
      → (factor_reply bolt crypto bcrypt admin req token user r p).0 ≡ logged_in user'
      → (r.0 ≡ none)
        × (user ≡ user')
        × (lookup token (factor_reply bolt crypto bcrypt admin req token user r p).1.chals ≡ none)
  unfolding factor_reply wrong_code_reply start_session with_store
  factor_reply-logged_in req token user user' (none, f) p q =
      (refl, cc, lookup-delete_self token p.chals)
  factor_reply-logged_in req token user user' (some e, f) p q =
      elim (Bool-cases (fail_challenge token p.chals).0) [
        | inl alive ↦ absurd (cc (rw alive at q))
        | inr used ↦ absurd (cc (rw used at q))
      ]

  -- A session after the second step takes a challenge that was made for this client, has not expired
  -- and has tries left, no wait, and a second factor that is right; the challenge is gone with it.
  pub handle_login_2fa_lem :
      (req : Request) (token input user : String) (p : Panel bolt crypto bcrypt admin)
      → token ≢ ""
      → IsLoggedIn user (second_step req token input p).0
      → ((c : Challenge) × IsUsable token req.ip req.ua req.now p.chals c
          × (c.user ≡ user)
          × (blocked req.now req.ip c.user p.guard ≡ 0)
          × ((check_second_factor bolt crypto (trim_space input) (unix req.now) p.factors).0
              ≡ none))
        × (lookup token (second_step req token input p).1.chals ≡ none)
  unfolding handle_login_2fa with_challenge
  handle_login_2fa_lem req token input user p named q =
      let found = lookup_challenge token req.ip req.ua req.now p.chals in
      let usable = lookup_challenge_lem token req.ip req.ua req.now p.chals named in
      elim (Option-cases found.0) [
        | inl gone ↦ absurd (cc (rw gone at q))
        | inr (c, held) ↦ elim (Bool-cases (ltb 0 (blocked req.now req.ip c.user p.guard))) [
          | inl waits ↦ absurd (cc (rw (held, waits) at q))
          | inr free ↦
              let checked =
                check_second_factor bolt crypto (trim_space input) (unix req.now) p.factors in
              let (right, same, gone) =
                factor_reply-logged_in req token c.user user checked (record p { chals = found.1 })
                  (rw (held, free) at q) in
              ((c, (usable.0 c held).0, same, ground arith, right), rw (held, free) gone)
        ]
      ]
