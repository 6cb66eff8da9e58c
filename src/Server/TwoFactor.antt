-- ===== src/Server/TwoFactor.antt =====
-- internal/server/twofa.go: codes that are used once, recovery codes, login challenges, trusted devices.
-- The list of the hashes of recovery codes, which the setting `totp_recovery_codes` holds as JSON, is a
-- field beside the store; it is written by a transaction as the other settings are. Codes and devices
-- use Unix seconds, challenges nanoseconds.
pub mod Commits
pub mod Replay
pub mod Challenges
pub mod Codes
mod Tests
use Prim.Native.String.{count}
use gost_webui.Prelude.{
  ℕ, zero, suc, ◌+◌, ◌*◌, String, Bool, true, false, not, ◌&&◌, ◌||◌, Option, none, some, List, [],
  ◌∷◌, ◌++◌, ltb, leb, ◌==◌, nat_eq, string_eq, if◌then◌else◌, take, drop, keep_if,
}
use gost_webui.Prelude.Int.{ℤ, pos, negsuc, int_ltb}
use gost_webui.Prelude.Maps.{Map, lookup, insert, delete}
use gost_webui.Model.Text.{trim_space, itoa, all_digits}
use gost_webui.Model.Text.Decimals.{parse_int64}
use gost_webui.Bolt.{Bolt}
use gost_webui.Auth.{
  Crypto, digits, recovery_code_len, normalize_secret, normalize_recovery_code, counter, verify,
  match_recovery_code,
}
use gost_webui.Store.{Store, Device, get_setting, set_setting, update}
use gost_webui.Store.Logins.{get_device, delete_device}
use gost_webui.Server.Guard.{minute}

pub data TotpError : Type 0 where
  not_setup wrong_code code_reused not_saved : TotpError

-- Challenges.
pub record Challenge : Type 0 where
  pub user : String
  pub ip : String
  pub ua : String
  pub expires : ℕ
  pub attempts : ℕ

abbrev pub Challenges : Type 0
Challenges = Map String Challenge

abbrev pub challenge_ttl : ℕ
challenge_ttl = 5 * minute

abbrev pub challenge_max_tries : ℕ
challenge_max_tries = 5

-- `createChallenge` with the token that `NewToken` gives, or its error.
unfoldable pub create_challenge :
    Option String → String → String → String → ℕ → Challenges → Option String × Challenges
create_challenge none user ip ua now chals = (none, chals)
create_challenge (some token) user ip ua now chals = (
  some token,
  insert token
      (record { user = user; ip = ip; ua = ua; expires = now + challenge_ttl; attempts = 0 })
      (keep_if (λ kv. not (ltb kv.1.expires now)) chals),
)

abbrev is_stale : String → String → ℕ → Challenge → Bool
is_stale ip ua now c =
    ltb c.expires now || not (c.ip == ip) || not (c.ua == ua) || leb challenge_max_tries c.attempts

found_challenge :
    String → String → String → ℕ → Challenges → Option Challenge → Option Challenge × Challenges
found_challenge token ip ua now chals none = (none, chals)
found_challenge token ip ua now chals (some c) =
    if is_stale ip ua now c then (none, delete token chals) else (some c, chals)

unfoldable pub lookup_challenge :
    String → String → String → ℕ → Challenges → Option Challenge × Challenges
unfolding found_challenge
lookup_challenge token ip ua now chals =
    if token == ""
    then (none, chals)
    else found_challenge token ip ua now chals (lookup token chals)

failed_challenge : String → Challenges → Option Challenge → Bool × Challenges
failed_challenge token chals none = (false, chals)
failed_challenge token chals (some c) =
    if leb challenge_max_tries (c.attempts + 1)
    then (false, delete token chals)
    else (true, insert token (record c { attempts = c.attempts + 1 }) chals)

-- Whether the challenge may be tried again comes back with the challenges.
unfoldable pub fail_challenge : String → Challenges → Bool × Challenges
unfolding failed_challenge
fail_challenge token chals = failed_challenge token chals (lookup token chals)

abbrev pub drop_challenge : String → Challenges → Challenges
drop_challenge token chals = delete token chals

-- `digitsOnly`
abbrev pub digits_only : String → Bool
digits_only s = count s == digits && all_digits s

abbrev pub last_step_key : String
last_step_key = "totp_last_step"

module _ (bolt : Bolt) (crypto : Crypto) where
  pub record Factors : Type 0 where
    pub store : Store bolt
    -- `recoveryHashes`
    pub recovery : List String

  text_or_empty : Option String → String
  text_or_empty none = ""
  text_or_empty (some v) = v

  unfoldable pub totp_secret : Factors → String
  unfolding text_or_empty
  totp_secret f = normalize_secret (text_or_empty (get_setting bolt "totp_secret" f.store))

  unfoldable pub two_factor_enabled : Factors → Bool
  unfolding text_or_empty
  two_factor_enabled f =
      text_or_empty (get_setting bolt "totp_enabled" f.store) == "1" && not (totp_secret f == "")

  parsed_step : Option String → ℤ
  parsed_step none = pos 0
  parsed_step (some v) = parse_int64 v

  -- The last step that was used; after the clock was set back it is not trusted.
  unfoldable pub last_step : ℕ → Store bolt → ℤ
  unfolding parsed_step
  last_step now st =
      let last = parsed_step (get_setting bolt last_step_key st) in
      if int_ltb (pos (counter now + 2)) last then pos 0 else last

  saved : Store bolt × Bool → Option TotpError × Store bolt
  saved (st, true) = (none, st)
  saved (st, false) = (some not_saved, st)

  used_step : Bool → ℕ → Store bolt → Option ℤ → Option TotpError × Store bolt
  unfolding saved last_step
  used_step rec now st none = (some wrong_code, st)
  used_step rec now st (some step) =
      if not rec
      then (none, st)
      else if not (int_ltb (last_step now st) step)
      then (some code_reused, st)
      else saved (set_setting bolt last_step_key (itoa step) st)

  -- `verifyCode`; `none` is Go's nil.
  unfoldable pub verify_code :
      String → String → Bool → ℕ → Store bolt → Option TotpError × Store bolt
  unfolding used_step
  verify_code secret input rec now st =
      if secret == ""
      then (some not_setup, st)
      else used_step rec now st (verify crypto secret input now)

  used_recovery : Factors → Option ℕ → Bool × Factors
  used_recovery f none = (false, f)
  used_recovery f (some i) =
      let (st, done) = update bolt f.store f.store.db in
      let rest = take i f.recovery ++ drop (suc i) f.recovery in
      if done
      then (true, record { store = st; recovery = rest })
      else (false, record f { store = st })

  -- `consumeRecoveryCode`
  unfoldable pub consume_recovery_code : String → Factors → Bool × Factors
  unfolding used_recovery
  consume_recovery_code input f = used_recovery f (match_recovery_code crypto input f.recovery)

  by_recovery : Bool × Factors → Option TotpError × Factors
  by_recovery (true, f) = (none, f)
  by_recovery (false, f) = (some wrong_code, f)

  abbrev is_recovery_form : String → Bool
  is_recovery_form input = count (normalize_recovery_code input) == recovery_code_len

  -- `checkSecondFactor`: a code of six digits, or a recovery code.
  unfoldable pub check_second_factor : String → ℕ → Factors → Option TotpError × Factors
  unfolding by_recovery
  check_second_factor input now f =
      let (e, st) = verify_code (totp_secret f) input true now f.store in
      if trim_space input == ""
      then (some wrong_code, f)
      else if digits_only input
      then (e, record f { store = st })
      else if is_recovery_form input
      then by_recovery (consume_recovery_code input f)
      else (some wrong_code, f)

  -- `checkManageCode`: the code is not recorded as used.
  unfoldable pub check_manage_code : String → ℕ → Factors → Option TotpError × Factors
  unfolding by_recovery
  check_manage_code text now f =
      let input = trim_space text in
      let (e, st) = verify_code (totp_secret f) input false now f.store in
      if input == ""
      then (some wrong_code, f)
      else if digits_only input
      then (e, record f { store = st })
      else if is_recovery_form input
      then by_recovery (consume_recovery_code input f)
      else (some wrong_code, f)

  -- A device that does not pass is deleted.
  known : String → String → String → ℕ → Store bolt → Option Device → Option String × Store bolt
  known key ua admin now st none = (none, st)
  known key ua admin now st (some d) =
      if leb d.expires_at now
        || not (d.user == admin)
        || not (d.ua == "") && not (ua == "") && not (d.ua == ua)
      then (none, (delete_device bolt key st).0)
      else (some d.user, st)

  -- `knownDevice` with the value of the cookie, and the digest of the token as its key.
  unfoldable pub known_device :
      String → String → String → ℕ → Store bolt → Option String × Store bolt
  unfolding known
  known_device cookie ua admin now st =
      let key = crypto.sha256_hex cookie in
      if cookie == "" then (none, st) else known key ua admin now st (get_device bolt key st)
