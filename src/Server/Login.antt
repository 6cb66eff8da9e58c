-- ===== src/Server/Login.antt =====
-- internal/server/server.go, twofa.go: logging in with a password and, where it is enabled, a second
-- factor. golang.org/x/crypto/bcrypt is an argument; so are the random tokens, the time in nanoseconds
-- and what `clientIP`, `uaHash` and the device's cookie give for the request.
pub mod Commits
pub mod Safety
mod Tests
use Prim.Native.String.{count, len}
use gost_webui.Prelude.{
  ℕ, ◌+◌, ◌/◌, String, Bool, true, false, not, ◌&&◌, ◌||◌, Option, none, some, List, [], ◌∷◌, ltb,
  ◌==◌, string_eq, if◌then◌else◌,
}
use gost_webui.Prelude.Maps.{Map, lookup}
use gost_webui.Model.Text.{trim_space}
use gost_webui.Bolt.{Bolt}
use gost_webui.Auth.{Crypto}
use gost_webui.Store.{Store, get_setting, set_setting}
use gost_webui.Server.Guard.{LoginGuard, blocked, fail, success}
use gost_webui.Server.Sessions.{MemSession, Sessions, create, unix}
use gost_webui.Server.TwoFactor.{
  TotpError, Challenge, Challenges, Factors, two_factor_enabled, known_device, create_challenge,
  lookup_challenge, fail_challenge, drop_challenge, check_second_factor,
}

-- The functions of bcrypt: a comparison of a hash and a password, and a new hash.
pub record Bcrypt : Type 0 where
  pub compare : String → String → Bool
  pub generate : String → Option String

-- `cfg.Admin`
pub record AdminConfig : Type 0 where
  pub username : String
  pub password : String

-- A request from a client, with the time and the tokens that the server draws for it.
pub record Request : Type 0 where
  pub ip : String
  pub ua : String
  pub device : String
  pub now : ℕ
  pub session_token : String
  pub challenge_token : Option String

pub data Reply : Type 0 where
  bad_length too_many refused no_challenge challenge_gone tries_used : Reply
  wrong_factor : TotpError → Reply
  second_factor : String → Reply
  logged_in : String → Reply

module _ (bolt : Bolt) (crypto : Crypto) (bcrypt : Bcrypt) (admin : AdminConfig) where
  pub record Panel : Type 0 where
    pub factors : Factors bolt crypto
    pub mem : Map String MemSession
    pub chals : Challenges
    pub guard : LoginGuard

  user_or : String → Option String → String
  user_or d none = d
  user_or d (some v) = if v == "" then d else v

  unfoldable pub admin_user : Store bolt → String
  unfolding user_or
  admin_user st = user_or admin.username (get_setting bolt "admin_user" st)

  -- The password of the configuration is kept as a hash when it is first used.
  store_hash : Option String → Store bolt → Store bolt
  store_hash none st = st
  store_hash (some h) st =
      (set_setting bolt "admin_user" admin.username (set_setting bolt "admin_hash" h st).0).0

  check_hash : Option String → String → Store bolt → Bool × Store bolt
  unfolding store_hash
  check_hash (some h) pass st = (bcrypt.compare h pass, st)
  check_hash none pass st =
      if admin.password == ""
      then (false, st)
      else if pass == admin.password
      then (true, store_hash (bcrypt.generate pass) st)
      else (false, st)

  unfoldable pub check_password : String → Store bolt → Bool × Store bolt
  unfolding check_hash
  check_password pass st = check_hash (get_setting bolt "admin_hash" st) pass st

  with_store : Store bolt → Panel → Panel
  with_store st p = record p { factors = record p.factors { store = st } }

  -- `startSession`
  unfoldable pub start_session : Request → String → Panel → Panel
  unfolding with_store
  start_session req user p =
      let s =
        create bolt user req.ua req.session_token req.now
          (record { mem = p.mem; store = p.factors.store }) in
      with_store s.store (record p { mem = s.mem })

  challenge_reply : Option String × Challenges → Panel → Reply × Panel
  challenge_reply (none, chals) p = (no_challenge, record p { chals = chals })
  challenge_reply (some token, chals) p = (second_factor token, record p { chals = chals })

  by_device : Request → String → Option String × Store bolt → Panel → Reply × Panel
  unfolding challenge_reply with_store
  by_device req user (none, st) p =
      challenge_reply (create_challenge req.challenge_token user req.ip req.ua req.now p.chals)
        (with_store st p)
  by_device req user (some owner, st) p =
      let again =
        challenge_reply (create_challenge req.challenge_token user req.ip req.ua req.now p.chals)
          (with_store st p) in
      if owner == user then (logged_in user, start_session req user (with_store st p)) else again

  -- What follows a password that is right.
  after_password : Request → String → Panel → Reply × Panel
  unfolding by_device
  after_password req user p =
      let device =
        known_device bolt crypto req.device req.ua (admin_user p.factors.store) (unix req.now)
          p.factors.store in
      if two_factor_enabled bolt crypto p.factors
      then by_device req user device p
      else (logged_in user, start_session req user p)

  -- `handleLogin` on a request that decodes. The account counts in the guard only where the name is
  -- the administrator's.
  unfoldable pub handle_login : Request → String → String → Panel → Reply × Panel
  unfolding after_password with_store
  handle_login req username password p =
      let name = trim_space username in
      let user = admin_user p.factors.store in
      let is_admin = name == user in
      let acct = if is_admin then user else "" in
      let (right, st) =
        if is_admin then check_password password p.factors.store else (false, p.factors.store) in
      let p' = with_store st p in
      if ltb 64 (len name) || ltb 256 (len password)
      then (bad_length, p)
      else if ltb 0 (blocked req.now req.ip acct p.guard)
      then (too_many, p)
      else if not right
      then (refused, record p' { guard = fail req.now req.ip acct p.guard })
      else after_password req user (record p' { guard = success req.ip acct p.guard })

  -- The challenge counts a wrong code, and so does the guard.
  wrong_code_reply : Request → String → String → TotpError → Panel → Reply × Panel
  wrong_code_reply req token user e p =
      let (alive, chals) = fail_challenge token p.chals in
      let p' = record p { chals = chals; guard = fail req.now req.ip user p.guard } in
      if alive then (wrong_factor e, p') else (tries_used, p')

  factor_reply :
      Request → String → String → Option TotpError × Factors bolt crypto → Panel → Reply × Panel
  unfolding wrong_code_reply
  factor_reply req token user (some e, f) p =
      wrong_code_reply req token user e (record p { factors = f })
  factor_reply req token user (none, f) p = (
    logged_in user,
    start_session req user (record p {
      factors = f;
      chals = drop_challenge token p.chals;
      guard = success req.ip user p.guard;
    }),
  )

  with_challenge : Request → String → String → Option Challenge → Panel → Reply × Panel
  unfolding factor_reply
  with_challenge req token code none p = (challenge_gone, p)
  with_challenge req token code (some c) p =
      let checked = check_second_factor bolt crypto code (unix req.now) p.factors in
      if ltb 0 (blocked req.now req.ip c.user p.guard)
      then (too_many, p)
      else factor_reply req token c.user checked p

  -- `handleLogin2FA` on a request that decodes, with a code of at most 32 bytes, which the handler cuts
  -- a longer one to. The device's cookie that it may issue is not modelled.
  unfoldable pub handle_login_2fa : Request → String → String → Panel → Reply × Panel
  unfolding with_challenge
  handle_login_2fa req token code p =
      let (o, chals) = lookup_challenge token req.ip req.ua req.now p.chals in
      with_challenge req token (trim_space code) o (record p { chals = chals })
