-- ===== src/Server/Guard/Waits.antt =====
-- How long the login guard makes a client wait.
use gost_webui.Prelude.{
  ℕ, suc, ◌+◌, ◌-◌, ◌≤◌, ◌<◌, String, ◌≡◌, refl, ◌≢◌, ◌⊎◌, false, Option, none, some, arith, eq_iff,
  string_eq, length, keep_if, length-keep_if, inl, inr,
}
use gost_webui.Prelude.Maps.{
  Map, lookup, map_laws, filtered, lookup-keep_if, lookup-insert, length-insert, lookup-insert_self,
  lookup-delete,
}
use gost_webui.Server.Guard.{
  GuardEntry, LoginGuard, guard_max_entries, evict, cleanup_map, cleanup, longer_wait, blocked,
  cooldown, is_after, is_set, bump, count_failure, sweep_if_large, fail, success, is_live, counted,
  restarted, entry_of,
}
use gost_webui.Server.Guard.Size.{IsBounded, IsWithin}

longer_wait-filtered :
    (now t w : ℕ) (k : String) (o : Option GuardEntry)
    → now ≤ t
    → longer_wait t w (filtered (is_live now) k o) ≡ longer_wait t w o
unfolding longer_wait is_live
longer_wait-filtered now t w k none h = refl
longer_wait-filtered now t w k (some e) h = ground arith

cleanup_map-eq :
    (now : ℕ) (m : Map String GuardEntry) → IsWithin m → cleanup_map now m ≡ keep_if (is_live now) m
unfolding cleanup_map evict
cleanup_map-eq now m w = ground (arith, w.size, length-keep_if (is_live now) m)

longer_wait-cleanup_map :
    (now t w : ℕ) (k : String) (m : Map String GuardEntry)
    → IsWithin m
    → now ≤ t
    → longer_wait t w (lookup k (cleanup_map now m)) ≡ longer_wait t w (lookup k m)
longer_wait-cleanup_map now t w k m b h =
    rw (cleanup_map-eq now m b, lookup-keep_if (is_live now) k m b.distinct)
      (longer_wait-filtered now t w k (lookup k m) h)

-- The periodic clean-up forgets nobody who still has to wait: from then on every client waits as
-- long as it would have without it, while the tables are within their limit.
pub blocked-cleanup :
    (now t : ℕ) (ip user : String) {g : LoginGuard}
    → IsBounded g
    → now ≤ t
    → blocked t ip user (cleanup now g) ≡ blocked t ip user g
unfolding blocked cleanup
blocked-cleanup now t ip user {g} b h =
    rw (longer_wait-cleanup_map now t 0 ip g.by_ip b.ips h)
      (longer_wait-cleanup_map now t (longer_wait t 0 (lookup ip g.by_ip)) user g.by_user b.users h)

-- Both tables have room for one more entry, so that a failure evicts nobody.
pub record HasRoom (g : LoginGuard) : Type 0 where
  pub ips : length g.by_ip < guard_max_entries
  pub users : length g.by_user < guard_max_entries

length-bump :
    (m : Map String GuardEntry) (key : String) (now : ℕ) → length (bump m key now) ≤ suc (length m)
unfolding bump
length-bump m key now =
    ground (arith, length-insert key (counted now (restarted now (entry_of (lookup key m)))) m)

lookup-bump_self :
    (m : Map String GuardEntry) (key : String) (now : ℕ)
    → key ≢ ""
    → lookup key (bump m key now) ≡ some (counted now (restarted now (entry_of (lookup key m))))
unfolding bump
lookup-bump_self m key now h = ground (
  arith,
  eq_iff key "",
  lookup-insert_self key (counted now (restarted now (entry_of (lookup key m)))) m,
)

lookup-bump_ne :
    (m : Map String GuardEntry) (key j : String) (now : ℕ)
    → key ≢ j
    → lookup j (bump m key now) ≡ lookup j m
unfolding bump
lookup-bump_ne m key j now h = ground (
  arith,
  eq_iff key j,
  lookup-insert key j (counted now (restarted now (entry_of (lookup key m)))) m,
)

fail_with_room :
    (now : ℕ) (ip user : String) (g : LoginGuard)
    → HasRoom g
    → fail now ip user g ≡ count_failure now ip user g
unfolding fail sweep_if_large count_failure
fail_with_room now ip user g r =
    ground (arith, length-bump g.by_ip ip now, length-bump g.by_user user now)

pub longer_wait-grows : (t w : ℕ) (o : Option GuardEntry) → w ≤ longer_wait t w o
unfolding longer_wait
longer_wait-grows t w none = omega arith
longer_wait-grows t w (some e) = ground arith

-- The wait that `bump` sets from a count that it does not start again.
longer_wait-counted :
    (now t : ℕ) (e : GuardEntry)
    → 4 ≤ e.fails
    → restarted now e ≡ e
    → cooldown (e.fails + 1) ≤ longer_wait t 0 (some (counted now (restarted now e))) + (t - now)
unfolding longer_wait counted
longer_wait-counted now t e h r = rw r (ground arith)

restarted_self : (now : ℕ) (e : GuardEntry) → is_after now e.until ≡ false → restarted now e ≡ e
unfolding restarted
restarted_self now e h = ground arith

restarted_unset : (now : ℕ) (e : GuardEntry) → is_set e.until ≡ false → restarted now e ≡ e
unfolding restarted
restarted_unset now e h = ground arith

-- A count that is still running: no cooldown was set, or it is not over.
abbrev pub Running : ℕ → GuardEntry → Type 0
Running now e = (is_set e.until ≡ false) ⊎ (is_after now e.until ≡ false)

Running-restarted : (now : ℕ) (e : GuardEntry) → Running now e → restarted now e ≡ e
Running-restarted now e (inl unset) = restarted_unset now e unset
Running-restarted now e (inr ahead) = restarted_self now e ahead

-- From the fifth failure of an address on, nobody logs in from it for the cooldown of the new
-- count, whatever account is tried: at any later time the wait that is left and the time that has
-- passed make up that cooldown. (The count is still running, and no entry has to be evicted.)
pub fail_blocks :
    (now t : ℕ) (ip user user' : String) (g : LoginGuard) (e : GuardEntry)
    → ip ≢ ""
    → HasRoom g
    → lookup ip g.by_ip ≡ some e
    → 4 ≤ e.fails
    → Running now e
    → cooldown (e.fails + 1) ≤ blocked t ip user' (fail now ip user g) + (t - now)
unfolding blocked count_failure
fail_blocks now t ip user user' g e named room found many running =
    let e' = counted now (restarted now e) in
    let held : lookup ip (fail now ip user g).by_ip ≡ some e' =
      rw (fail_with_room now ip user g room, lookup-bump_self g.by_ip ip now named, found) refl in
    rw held (
      omega (
        arith,
        longer_wait-counted now t e many (Running-restarted now e running),
        longer_wait-grows t (longer_wait t 0 (some e')) (lookup user' (fail now ip user g).by_user),
      ))

-- A failure changes the wait of no client that shares neither its address nor its account.
pub fail_other :
    (now t : ℕ) (ip user ip' user' : String) (g : LoginGuard)
    → HasRoom g
    → ip ≢ ip'
    → user ≢ user'
    → blocked t ip' user' (fail now ip user g) ≡ blocked t ip' user' g
unfolding blocked count_failure
fail_other now t ip user ip' user' g room ne ne' = rw (fail_with_room now ip user g room) (
    ground
      (arith, lookup-bump_ne g.by_ip ip ip' now ne, lookup-bump_ne g.by_user user user' now ne'))

-- A successful login lets its address and account in at once, and changes no one else's wait.
pub blocked-success :
    (t : ℕ) (ip user : String) (g : LoginGuard)
    → (blocked t ip user (success ip user g) ≡ 0)
      × ((ip' user' : String)
          → ip ≢ ip'
          → user ≢ user'
          → blocked t ip' user' (success ip user g) ≡ blocked t ip' user' g)
unfolding blocked success longer_wait
blocked-success t ip user g = (
  simp map_laws,
  λ ip' user' h h'. simp lookup-delete (ground (arith, eq_iff ip ip', eq_iff user user')),
)
