-- ===== src/Server/Guard/Tests.antt =====
-- The login guard on concrete clients.
use gost_webui.Prelude.{
  ◌+◌, ◌-◌, ◌≤◌, ◌≡◌, refl, none, some, [], ◌∷◌, arith, eq_iff, string_eq, inl,
}
use gost_webui.Prelude.Maps.{lookup, insert}
use gost_webui.Server.Guard.{
  GuardEntry, LoginGuard, minute, second, new_login_guard, blocked, cooldown, fail, cleanup,
  count_failure, sweep_if_large, bump, counted, restarted,
}
use gost_webui.Server.Guard.Size.{IsBounded, IsBounded-new, fail-IsBounded}
use gost_webui.Server.Guard.Waits.{HasRoom, blocked-cleanup, fail_blocks, fail_other}
use gost_webui.Server.Guard.Lockout.{Reach, failed, start, next, guarded_tiers}

fail-IsBounded_example : IsBounded (fail minute "10.0.0.1" "admin" new_login_guard)
fail-IsBounded_example = fail-IsBounded minute "10.0.0.1" "admin" IsBounded-new

-- Four failures from one address, of one account.
abbrev four : GuardEntry
four = record { fails = 4; until = none; seen = minute }

abbrev tried : LoginGuard
tried = record { by_ip = ("10.0.0.1", four) ∷ []; by_user = ("admin", four) ∷ [] }

tried-HasRoom : HasRoom tried
tried-HasRoom = record { ips = omega arith; users = omega arith }

found : lookup "10.0.0.1" tried.by_ip ≡ some four
unfolding lookup
found = refl

fail_blocks_example :
    cooldown (four.fails + 1)
    ≤ blocked (minute + second) "10.0.0.1" "root" (fail minute "10.0.0.1" "admin" tried)
      + ((minute + second) - minute)
fail_blocks_example =
    fail_blocks minute (minute + second) "10.0.0.1" "admin" "root" tried four
      (ground (arith, eq_iff "10.0.0.1" "")) tried-HasRoom found (omega arith) (inl refl)

fail_other_example :
    blocked minute "10.0.0.2" "root" (fail minute "10.0.0.1" "admin" tried)
    ≡ blocked minute "10.0.0.2" "root" tried
fail_other_example =
    fail_other minute minute "10.0.0.1" "admin" "10.0.0.2" "root" tried tried-HasRoom
      (ground (arith, eq_iff "10.0.0.1" "10.0.0.2")) (ground (arith, eq_iff "admin" "root"))

blocked-cleanup_example :
    blocked
      (minute + second)
      "10.0.0.1"
      "admin"
      (cleanup minute (fail minute "10.0.0.1" "admin" new_login_guard))
    ≡ blocked (minute + second) "10.0.0.1" "admin" (fail minute "10.0.0.1" "admin" new_login_guard)
blocked-cleanup_example =
    blocked-cleanup minute (minute + second) "10.0.0.1" "admin"
      (fail-IsBounded minute "10.0.0.1" "admin" IsBounded-new) (omega arith)

abbrev once : GuardEntry
once = record { fails = 1; until = none; seen = minute }

abbrev after_one : LoginGuard
after_one = fail minute "10.0.0.1" "admin" new_login_guard

one_failure : Reach after_one
unfolding blocked lookup
one_failure =
    next start
      (failed minute "10.0.0.1" "admin" refl (record { ips = λ e q. cc; users = λ e q. cc }) refl)

counted_once : lookup "10.0.0.1" after_one.by_ip ≡ some once
unfolding fail count_failure sweep_if_large bump counted restarted cooldown lookup insert
counted_once = refl

guarded_tiers_example : (once.fails ≤ 5) × (cooldown once.fails ≤ minute)
guarded_tiers_example = guarded_tiers "10.0.0.1" once one_failure counted_once
