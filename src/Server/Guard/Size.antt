-- ===== src/Server/Guard/Size.antt =====
-- The sizes of the login guard's tables.
use gost_webui.Prelude.{
  ℕ, zero, suc, ◌+◌, ◌-◌, ◌≤◌, String, ◌≡◌, refl, ◌≢◌, ◌||◌, none, [], ◌∷◌, arith, eq_iff, ltb,
  string_eq, length, take, keep_if, All, Bool-cases, inl, inr, sym,
}
use gost_webui.Prelude.Maps.{
  Map, lookup, delete, Fresh, HasDistinctKeys, keep_if-HasDistinctKeys, insert-HasDistinctKeys,
  delete-HasDistinctKeys, length-delete_present, lookup-delete, length-delete,
}
use gost_webui.Server.Guard.{
  GuardEntry, LoginGuard, guard_max_entries, place, by_seen, delete_all, evict, cleanup_map,
  cleanup, bump, count_failure, sweep_if_large, fail, success, new_login_guard, is_live, counted,
  restarted, entry_of,
}

abbrev Table : Type 0
Table = Map String GuardEntry

abbrev Held : Table → String × GuardEntry → Type 0
Held m kv = lookup kv.0 m ≢ none

module _ (P : String × GuardEntry → Type 0) where
  All-place : (kv : String × GuardEntry) (xs : Table) → P kv → All P xs → All P (place kv xs)
  unfolding place
  All-place kv [] h hs = (h, tt)
  All-place kv (x ∷ xs) h hs = ground (arith, All-place kv xs h hs.1)

  All-by_seen : (xs : Table) → All P xs → All P (by_seen xs)
  unfolding by_seen
  All-by_seen [] h = tt
  All-by_seen (x ∷ xs) h = All-place x (by_seen xs) h.0 (All-by_seen xs h.1)

  All-take : (n : ℕ) (xs : Table) → All P xs → All P (take n xs)
  All-take zero xs h = tt
  All-take (suc n) [] h = tt
  All-take (suc n) (x ∷ xs) h = (h.0, All-take n xs h.1)

place-HasDistinctKeys :
    (kv : String × GuardEntry) (xs : Table)
    → Fresh kv.0 xs
    → HasDistinctKeys xs
    → HasDistinctKeys (place kv xs)
unfolding place
place-HasDistinctKeys kv [] h d = (tt, tt)
place-HasDistinctKeys kv (x ∷ xs) h d = elim (Bool-cases (ltb x.1.seen kv.1.seen)) [
  | inl later ↦
      rw later (
        All-place (λ y. y.0 ≢ x.0) kv xs (λ q. h.0 (sym q)) d.0,
        place-HasDistinctKeys kv xs h.1 d.1,
      )
  | inr earlier ↦ rw earlier (h, d)
]

by_seen-HasDistinctKeys : (xs : Table) → HasDistinctKeys xs → HasDistinctKeys (by_seen xs)
unfolding by_seen
by_seen-HasDistinctKeys [] h = tt
by_seen-HasDistinctKeys (x ∷ xs) h =
    place-HasDistinctKeys x (by_seen xs) (All-by_seen (λ y. y.0 ≢ x.0) xs h.0)
      (by_seen-HasDistinctKeys xs h.1)

take-HasDistinctKeys : (n : ℕ) (xs : Table) → HasDistinctKeys xs → HasDistinctKeys (take n xs)
take-HasDistinctKeys zero xs h = tt
take-HasDistinctKeys (suc n) [] h = tt
take-HasDistinctKeys (suc n) (x ∷ xs) h =
    (All-take (λ y. y.0 ≢ x.0) n xs h.0, take-HasDistinctKeys n xs h.1)

length-place : (kv : String × GuardEntry) (xs : Table) → length (place kv xs) ≡ suc (length xs)
unfolding place
length-place kv [] = refl
length-place kv (x ∷ xs) = ground (arith, length-place kv xs)

length-by_seen : (xs : Table) → length (by_seen xs) ≡ length xs
unfolding by_seen
length-by_seen [] = refl
length-by_seen (x ∷ xs) = omega (arith, length-place x (by_seen xs), length-by_seen xs)

length-take_le : (n : ℕ) (xs : Table) → n ≤ length xs → length (take n xs) ≡ n
length-take_le zero xs h = refl
length-take_le (suc n) [] h = elim h [ ]
length-take_le (suc n) (x ∷ xs) h = omega (arith, length-take_le n xs)

-- What is held stays held when another key is deleted.
Held-delete :
    (k : String) (m : Table) (ks : Table)
    → Fresh k ks
    → All (Held m) ks
    → All (Held (delete k m)) ks
Held-delete k m [] f h = tt
Held-delete k m (x ∷ ks) f h =
    (rw lookup-delete (ground (arith, eq_iff k x.0)), Held-delete k m ks f.1 h.1)

length-delete_all :
    (ks m : Table)
    → HasDistinctKeys ks
    → All (Held m) ks
    → length (delete_all ks m) + length ks ≤ length m
unfolding delete_all
length-delete_all [] m d h = omega arith
length-delete_all (x ∷ ks) m d h = omega (
  arith,
  length-delete_present x.0 m h.0,
  length-delete_all ks (delete x.0 m) d.1 (Held-delete x.0 m ks d.0 h.1),
)

Held-cons :
    (x : String × GuardEntry) (m : Table) (ks : Table) → All (Held m) ks → All (Held (x ∷ m)) ks
unfolding lookup
Held-cons x m [] h = tt
Held-cons x m (k ∷ ks) h = (ground arith, Held-cons x m ks h.1)

Held-refl : (m : Table) → All (Held m) m
unfolding lookup
Held-refl [] = tt
Held-refl (x ∷ m) = (ground (arith, eq_iff x.0 x.0), Held-cons x m m (Held-refl m))

length-evict : (m : Table) → HasDistinctKeys m → length (evict m) ≤ guard_max_entries
unfolding evict
length-evict m d =
    let n = length m - guard_max_entries in
    let over = take n (by_seen m) in
    ground (
      arith,
      length-delete_all over m (take-HasDistinctKeys n (by_seen m) (by_seen-HasDistinctKeys m d))
          (All-take (Held m) n (by_seen m) (All-by_seen (Held m) m (Held-refl m))),
      length-take_le n (by_seen m),
      length-by_seen m,
    )

delete_all-HasDistinctKeys : (ks m : Table) → HasDistinctKeys m → HasDistinctKeys (delete_all ks m)
unfolding delete_all
delete_all-HasDistinctKeys [] m d = d
delete_all-HasDistinctKeys (x ∷ ks) m d =
    delete_all-HasDistinctKeys ks (delete x.0 m) (delete-HasDistinctKeys x.0 m d)

-- A table that a Go map can be, within the limit.
pub record IsWithin (m : Table) : Type 0 where
  pub distinct : HasDistinctKeys m
  pub size : length m ≤ guard_max_entries

cleanup_map-IsWithin : (now : ℕ) (m : Table) → HasDistinctKeys m → IsWithin (cleanup_map now m)
unfolding cleanup_map is_live
cleanup_map-IsWithin now m d =
    let kept = keep_if-HasDistinctKeys (is_live now) m d in
    record {
      distinct =
          unfold evict in
          ground (
            arith,
            kept,
            delete_all-HasDistinctKeys
                (take (length (keep_if (is_live now) m) - guard_max_entries)
                  (by_seen (keep_if (is_live now) m)))
                (keep_if (is_live now) m) kept,
          );
      size = length-evict (keep_if (is_live now) m) kept;
    }

bump-HasDistinctKeys :
    (m : Table) (key : String) (now : ℕ) → HasDistinctKeys m → HasDistinctKeys (bump m key now)
unfolding bump
bump-HasDistinctKeys m key now d =
    ground (
      arith,
      insert-HasDistinctKeys key (counted now (restarted now (entry_of (lookup key m)))) m d,
    )

delete-IsWithin : (k : String) (m : Table) → IsWithin m → IsWithin (delete k m)
delete-IsWithin k m w = record {
  distinct = delete-HasDistinctKeys k m w.distinct;
  size = omega (arith, length-delete k m, w.size);
}

pub record IsBounded (g : LoginGuard) : Type 0 where
  pub ips : IsWithin g.by_ip
  pub users : IsWithin g.by_user

pub IsBounded-new : IsBounded new_login_guard
IsBounded-new = record {
  ips = record { distinct = tt; size = omega arith };
  users = record { distinct = tt; size = omega arith };
}

pub cleanup-IsBounded : (now : ℕ) {g : LoginGuard} → IsBounded g → IsBounded (cleanup now g)
unfolding cleanup
cleanup-IsBounded now {g} b = record {
  ips = cleanup_map-IsWithin now g.by_ip b.ips.distinct;
  users = cleanup_map-IsWithin now g.by_user b.users.distinct;
}

pub success-IsBounded :
    (ip user : String) {g : LoginGuard} → IsBounded g → IsBounded (success ip user g)
unfolding success
success-IsBounded ip user {g} b = record {
  ips = delete-IsWithin ip g.by_ip b.ips;
  users = delete-IsWithin user g.by_user b.users;
}

sweep_if_large-IsBounded :
    (now : ℕ) (g : LoginGuard)
    → HasDistinctKeys g.by_ip
    → HasDistinctKeys g.by_user
    → IsBounded (sweep_if_large now g)
unfolding sweep_if_large
sweep_if_large-IsBounded now g dip duser =
    let large =
      ltb guard_max_entries (length g.by_ip) || ltb guard_max_entries (length g.by_user) in
    elim (Bool-cases large) [
      | inl over ↦ rw over (
          unfold cleanup in
          record {
            ips = cleanup_map-IsWithin now g.by_ip dip;
            users = cleanup_map-IsWithin now g.by_user duser;
          })
      | inr fits ↦ rw fits (record {
        ips = record { distinct = dip; size = ground arith };
        users = record { distinct = duser; size = ground arith };
      })
    ]

-- Whoever fails to log in, and however often, neither table passes 8192 entries and no key stands
-- twice in a table.
pub fail-IsBounded :
    (now : ℕ) (ip user : String) {g : LoginGuard} → IsBounded g → IsBounded (fail now ip user g)
unfolding fail
fail-IsBounded now ip user {g} b =
    sweep_if_large-IsBounded now (count_failure now ip user g)
      (unfold count_failure in bump-HasDistinctKeys g.by_ip ip now b.ips.distinct)
      (unfold count_failure in
        ground (arith, b.users.distinct, bump-HasDistinctKeys g.by_user user now b.users.distinct))
