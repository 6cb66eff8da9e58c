-- ===== src/Server/Guard.antt =====
-- internal/server/security.go: the login guard, which slows down guessing by client address and by
-- account. Times and durations are nanoseconds; `none` for `until` is Go's zero time.
mod Size
pub mod Waits
pub mod Lockout
mod Tests
use gost_webui.Prelude.{
  ℕ, zero, suc, ◌+◌, ◌-◌, ◌*◌, ◌^◌, String, Bool, true, false, not, ◌&&◌, ◌||◌, Option, none, some,
  List, [], ◌∷◌, ltb, leb, ◌==◌, string_eq, if◌then◌else◌, length, take, keep_if,
}
use gost_webui.Prelude.Maps.{Map, lookup, insert, delete}

pub record GuardEntry : Type 0 where
  pub fails : ℕ
  pub until : Option ℕ
  pub seen : ℕ

pub record LoginGuard : Type 0 where
  pub by_ip : Map String GuardEntry
  pub by_user : Map String GuardEntry

abbrev pub second : ℕ
second = 10 ^ 9

abbrev pub minute : ℕ
minute = 60 * second

abbrev pub guard_free_attempts : ℕ
guard_free_attempts = 5

abbrev pub guard_max_entries : ℕ
guard_max_entries = 8192

abbrev pub guard_retention : ℕ
guard_retention = 60 * minute

abbrev pub new_login_guard : LoginGuard
new_login_guard = record { by_ip = []; by_user = [] }

-- One round of the loop in `blocked`. A wait that is over counts as 0 here and as a negative number
-- in Go; neither is above `wait`, which starts at 0.
pub longer_wait : ℕ → ℕ → Option GuardEntry → ℕ
longer_wait now wait none = wait
longer_wait now wait (some e) = elim e.until [
  | none ↦ wait
  | some u ↦ let d = u - now in if ltb wait d then d else wait
]

unfoldable pub blocked : ℕ → String → String → LoginGuard → ℕ
unfolding longer_wait
blocked now ip user g =
    longer_wait now (longer_wait now 0 (lookup ip g.by_ip)) (lookup user g.by_user)

unfoldable pub cooldown : ℕ → ℕ
cooldown fails =
    if leb 20 fails
    then 30 * minute
    else if leb 10 fails
    then 5 * minute
    else if leb guard_free_attempts fails
    then minute
    else 0

-- `now.After(until)`; every time is after the zero time.
abbrev pub is_after : ℕ → Option ℕ → Bool
is_after now none = true
is_after now (some u) = ltb u now

abbrev pub is_set : Option ℕ → Bool
is_set none = false
is_set (some u) = true

abbrev new_entry : GuardEntry
new_entry = record { fails = 0; until = none; seen = 0 }

abbrev entry_of : Option GuardEntry → GuardEntry
entry_of none = new_entry
entry_of (some e) = e

-- The count starts again once the cooldown is over.
restarted : ℕ → GuardEntry → GuardEntry
restarted now e =
    if is_set e.until && is_after now e.until then record e { fails = 0; until = none } else e

counted : ℕ → GuardEntry → GuardEntry
unfolding cooldown
counted now e =
    let d = cooldown (e.fails + 1) in
    record { fails = e.fails + 1; until = if ltb 0 d then some (now + d) else e.until; seen = now }

bump : Map String GuardEntry → String → ℕ → Map String GuardEntry
unfolding restarted counted
bump m key now =
    if key == "" then m else insert key (counted now (restarted now (entry_of (lookup key m)))) m

-- An entry that `cleanupLocked` keeps in its first pass.
is_live : ℕ → String × GuardEntry → Bool
is_live now (k, e) = not (is_after now e.until && ltb guard_retention (now - e.seen))

-- `sort.Slice` by the time of the last failure; Go leaves the order of equal times open.
place : String × GuardEntry → List (String × GuardEntry) → List (String × GuardEntry)
place kv [] = kv ∷ []
place kv (x ∷ xs) = if ltb x.1.seen kv.1.seen then x ∷ place kv xs else kv ∷ x ∷ xs

by_seen : List (String × GuardEntry) → List (String × GuardEntry)
unfolding place
by_seen [] = []
by_seen (x ∷ xs) = place x (by_seen xs)

delete_all : List (String × GuardEntry) → Map String GuardEntry → Map String GuardEntry
delete_all [] m = m
delete_all ((k, e) ∷ ks) m = delete_all ks (delete k m)

evict : Map String GuardEntry → Map String GuardEntry
unfolding by_seen delete_all
evict m =
    if leb (length m) guard_max_entries
    then m
    else delete_all (take (length m - guard_max_entries) (by_seen m)) m

cleanup_map : ℕ → Map String GuardEntry → Map String GuardEntry
unfolding is_live evict
cleanup_map now m = evict (keep_if (is_live now) m)

pub cleanup : ℕ → LoginGuard → LoginGuard
unfolding cleanup_map
cleanup now g = record { by_ip = cleanup_map now g.by_ip; by_user = cleanup_map now g.by_user }

-- The two counts of `fail`.
count_failure : ℕ → String → String → LoginGuard → LoginGuard
unfolding bump
count_failure now ip user g = record {
  by_ip = bump g.by_ip ip now;
  by_user = if user == "" then g.by_user else bump g.by_user user now;
}

sweep_if_large : ℕ → LoginGuard → LoginGuard
unfolding cleanup
sweep_if_large now g =
    if ltb guard_max_entries (length g.by_ip) || ltb guard_max_entries (length g.by_user)
    then cleanup now g
    else g

pub fail : ℕ → String → String → LoginGuard → LoginGuard
unfolding count_failure sweep_if_large
fail now ip user g = sweep_if_large now (count_failure now ip user g)

pub success : String → String → LoginGuard → LoginGuard
success ip user g = record { by_ip = delete ip g.by_ip; by_user = delete user g.by_user }
