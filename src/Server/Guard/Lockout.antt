-- ===== src/Server/Guard/Lockout.antt =====
-- The tiers of the login guard's cooldown that guarded attempts can reach.
use gost_webui.Prelude.{
  ℕ, ◌-◌, ◌≤◌, String, ◌≡◌, refl, ◌≢◌, true, ◌||◌, Option, none, some, [], ◌∷◌, arith, ltb, ◌==◌,
  string_eq, length, take, All, Bool-cases, Option-cases, inl, inr,
}
use gost_webui.Prelude.Maps.{Map, lookup, delete, All-insert, All-delete, All-keep_if, All-lookup}
use gost_webui.Server.Guard.{
  GuardEntry, LoginGuard, guard_max_entries, by_seen, delete_all, evict, cleanup_map, cleanup,
  longer_wait, blocked, cooldown, minute, is_set, bump, count_failure, sweep_if_large, fail,
  success, new_login_guard, is_live, counted, restarted, entry_of,
}
use gost_webui.Server.Guard.Waits.{longer_wait-grows}

-- No key that the attempt is counted under has its cooldown end at the instant of the attempt.
pub record OffExpiry (now : ℕ) (ip user : String) (g : LoginGuard) : Type 0 where
  pub ips : (e : GuardEntry) → lookup ip g.by_ip ≡ some e → e.until ≢ some now
  pub users : (e : GuardEntry) → lookup user g.by_user ≡ some e → e.until ≢ some now

-- What the panel does with the guard: a guarded attempt that fails (its handler has seen `blocked`
-- answer 0), one that succeeds, and the periodic clean-up.
pub data Step (g : LoginGuard) (g' : LoginGuard) : Type 0 where
  failed :
      (now : ℕ) (ip user : String)
      → blocked now ip user g ≡ 0
      → OffExpiry now ip user g
      → g' ≡ fail now ip user g
      → Step g g'
  succeeded : (ip user : String) → g' ≡ success ip user g → Step g g'
  swept : (now : ℕ) → g' ≡ cleanup now g → Step g g'

pub data Reach : LoginGuard → Type 0 where
  start : Reach new_login_guard
  next : {g g' : LoginGuard} → Reach g → Step g g' → Reach g'

-- At most five failures, and with five of them a cooldown.
abbrev IsCapped : String × GuardEntry → Type 0
IsCapped kv = (kv.1.fails ≤ 5) × ((kv.1.fails ≡ 5) → is_set kv.1.until ≡ true)

abbrev AllCapped : LoginGuard → Type 0
AllCapped g = All IsCapped g.by_ip × All IsCapped g.by_user

IsCapped-counted :
    (now : ℕ) (k : String) (e : GuardEntry)
    → IsCapped (k, e)
    → longer_wait now 0 (some e) ≡ 0
    → e.until ≢ some now
    → IsCapped (k, counted now (restarted now e))
unfolding longer_wait counted restarted cooldown
IsCapped-counted now k e (few, locked) free off = ground arith

IsCapped-entry_of :
    (k : String) (m : Map String GuardEntry) → All IsCapped m → IsCapped (k, entry_of (lookup k m))
IsCapped-entry_of k m h = elim (Option-cases (lookup k m)) [
  | inl missing ↦ rw missing (ground arith)
  | inr (e, found) ↦ rw found (All-lookup IsCapped k e m h found)
]

off_entry_of :
    (now : ℕ) (o : Option GuardEntry)
    → ((e : GuardEntry) → o ≡ some e → e.until ≢ some now)
    → (entry_of o).until ≢ some now
off_entry_of now none off = ground arith
off_entry_of now (some e) off = off e refl

free_entry_of :
    (now : ℕ) (o : Option GuardEntry)
    → longer_wait now 0 o ≡ 0
    → longer_wait now 0 (some (entry_of o)) ≡ 0
unfolding longer_wait
free_entry_of now none free = refl
free_entry_of now (some e) free = free

AllCapped-bump :
    (m : Map String GuardEntry) (k : String) (now : ℕ)
    → All IsCapped m
    → longer_wait now 0 (lookup k m) ≡ 0
    → ((e : GuardEntry) → lookup k m ≡ some e → e.until ≢ some now)
    → All IsCapped (bump m k now)
unfolding bump
AllCapped-bump m k now h free off =
    let e = entry_of (lookup k m) in
    let e' = counted now (restarted now e) in
    let capped : IsCapped (k, e') =
      IsCapped-counted now k e (IsCapped-entry_of k m h) (free_entry_of now (lookup k m) free)
        (off_entry_of now (lookup k m) off) in
    elim (Bool-cases (k == "")) [
      | inl unnamed ↦ rw unnamed h
      | inr named ↦ rw named (All-insert IsCapped k e' m capped h)
    ]

delete_all-AllCapped :
    (ks m : Map String GuardEntry) → All IsCapped m → All IsCapped (delete_all ks m)
unfolding delete_all
delete_all-AllCapped [] m h = h
delete_all-AllCapped (x ∷ ks) m h =
    delete_all-AllCapped ks (delete x.0 m) (All-delete IsCapped x.0 m h)

evict-AllCapped : (m : Map String GuardEntry) → All IsCapped m → All IsCapped (evict m)
unfolding evict
evict-AllCapped m h =
    ground (arith, delete_all-AllCapped (take (length m - guard_max_entries) (by_seen m)) m h)

cleanup-AllCapped : (now : ℕ) (g : LoginGuard) → AllCapped g → AllCapped (cleanup now g)
unfolding cleanup cleanup_map
cleanup-AllCapped now g h = (
  evict-AllCapped _ (All-keep_if IsCapped (is_live now) g.by_ip h.0),
  evict-AllCapped _ (All-keep_if IsCapped (is_live now) g.by_user h.1),
)

sweep_if_large-AllCapped :
    (now : ℕ) (g : LoginGuard) → AllCapped g → AllCapped (sweep_if_large now g)
unfolding sweep_if_large
sweep_if_large-AllCapped now g h =
    elim (Bool-cases
      (ltb guard_max_entries (length g.by_ip) || ltb guard_max_entries (length g.by_user))) [
        | inl large ↦ rw large (cleanup-AllCapped now g h)
        | inr fits ↦ rw fits h
      ]

-- Where nobody has to wait, neither table asks to.
free_both :
    (now : ℕ) (o o' : Option GuardEntry)
    → longer_wait now (longer_wait now 0 o) o' ≡ 0
    → (longer_wait now 0 o ≡ 0) × (longer_wait now 0 o' ≡ 0)
free_both now o o' h =
    let first : longer_wait now 0 o ≡ 0 =
      omega (arith, longer_wait-grows now (longer_wait now 0 o) o', h) in
    (first, rw first at h)

fail-AllCapped :
    (now : ℕ) (ip user : String) (g : LoginGuard)
    → blocked now ip user g ≡ 0
    → OffExpiry now ip user g
    → AllCapped g
    → AllCapped (fail now ip user g)
unfolding fail count_failure blocked
fail-AllCapped now ip user g free off h =
    let (free_ip, free_user) = free_both now (lookup ip g.by_ip) (lookup user g.by_user) free in
    let users = AllCapped-bump g.by_user user now h.1 free_user off.users in
    sweep_if_large-AllCapped now _
      (AllCapped-bump g.by_ip ip now h.0 free_ip off.ips, ground (arith, users, h.1))

Step-AllCapped : {g g' : LoginGuard} → Step g g' → AllCapped g → AllCapped g'
unfolding success
Step-AllCapped {g} (failed now ip user free off e) h =
    rw e (fail-AllCapped now ip user g free off h)
Step-AllCapped {g} (succeeded ip user e) h =
    rw e (All-delete IsCapped ip g.by_ip h.0, All-delete IsCapped user g.by_user h.1)
Step-AllCapped {g} (swept now e) h = rw e (cleanup-AllCapped now g h)

Reach-AllCapped : {g : LoginGuard} → Reach g → AllCapped g
Reach-AllCapped start = (tt, tt)
Reach-AllCapped (next r s) = Step-AllCapped s (Reach-AllCapped r)

cooldown-le-minute : (fails : ℕ) → fails ≤ 5 → cooldown fails ≤ minute
unfolding cooldown
cooldown-le-minute fails h = ground arith

-- However many guarded attempts fail, no address counts more than five failures, and the cooldown of
-- its count is never above one minute: the tiers of five and of thirty minutes are not reached by
-- attempts that each follow a check of the guard, except at the very instant a cooldown ends.
pub guarded_tiers :
    {g : LoginGuard} (ip : String) (e : GuardEntry)
    → Reach g
    → lookup ip g.by_ip ≡ some e
    → (e.fails ≤ 5) × (cooldown e.fails ≤ minute)
guarded_tiers {g} ip e r found =
    let capped = All-lookup IsCapped ip e g.by_ip (Reach-AllCapped r).0 found in
    (capped.0, cooldown-le-minute e.fails capped.0)
