-- ===== src/Store/Hours/Form.antt =====
-- The form of the hours that the panel keeps, and what `RangeTraffic` returns of them.
use gost_webui.Prelude.{
  ℕ, ◌<◌, ◌^◌, String, ◌≡◌, refl, Bool, true, ◌&&◌, none, some, List, [], ◌∷◌, arith, ltb, leb,
  ◌==◌, nat_eq, string_eq, keep_if, map, ◌++◌, All, Bool-cases, Option-cases, inl, inr,
}
use gost_webui.Prelude.Maps.{Map, lookup, All-lookup}
use mathlib.Core.Path.{subst}
use gost_webui.Bolt.{Bolt, IsAscending}
use gost_webui.Store.{Store, open_new, Db, commit_keeps}
use gost_webui.Store.Bytes.{
  ByteString, bytes_eq, bytes_beq, bytes_beq_iff, u64_mod, put_uint64, uint64, lt_bytes,
  lt_bytes_irrefl, uint64-put_uint64, put_uint64-AreBytes, length-put_uint64,
}
use gost_webui.Store.Hours.{
  hour_key, sub_bucket, add_hour, add_traffic, local_hour_start, range_traffic, point_of,
}
use gost_webui.Store.Hours.Scan.{IsHour, points_in-eq-filter}
use gost_webui.Store.Hours.Totals.{halves}

All-of_lookup :
    (P : ByteString × ByteString → Type 0) (m : Map ByteString ByteString)
    → IsAscending m
    → ((k v : ByteString) → lookup k m ≡ some v → P (k, v))
    → All P m
unfolding lookup
All-of_lookup P [] a h = tt
All-of_lookup P ((j, w) ∷ m) a h = (
  h j w (ground (arith, bytes_beq_iff j j)),
  All-of_lookup P m a.1 (λ k v q. h k v (
      ground (
        arith,
        bytes_beq_iff j k,
        lt_bytes_irrefl j,
        All-lookup (λ kv. lt_bytes j kv.0 ≡ true) k v m a.0 q,
      ))),
)

module _ (bolt : Bolt) where
  open bolt use {
    Bucket, Hours, hours, hour_put, hour_delete, get, get-put, get-entries, entries,
    entries_distinct, lookup-hour_put, lookup-hour_delete, hours-no_hours, hours_ascend,
  }

  abbrev pub IsHourly : Hours → Type 0
  IsHourly b = All IsHour (hours b)

  -- Every sub-bucket holds hours only.
  abbrev pub AllHourly : Db bolt → Type 0
  AllHourly db = (id : String) (b : Hours) → get db.traffic id ≡ some b → IsHourly b

  -- A new database holds no hours.
  pub AllHourly-open_new : (disk : List Bool) → AllHourly (open_new bolt disk).db
  AllHourly-open_new disk id b q =
      let e : get (bolt.empty {V = Hours}) id ≡ none = bolt.get-empty id in cc

  put-IsHourly :
      (b : Hours) (k v : ByteString) → IsHour (k, v) → IsHourly b → IsHourly (hour_put b k v)
  put-IsHourly b k v h hb =
      All-of_lookup IsHour (hours (hour_put b k v)) (hours_ascend (hour_put b k v)) λ j w q.
        elim (Bool-cases (bytes_beq k j)) [
          | inl same ↦
              let e : some v ≡ some w = rw (lookup-hour_put, same) at q in
              let vw : v ≡ w = cc in
              subst (λ y. IsHour (j, y)) vw
                (subst (λ x. IsHour (x, v)) ((bytes_beq_iff k j).0 same) h)
          | inr other ↦
              let e : lookup j (hours b) ≡ some w = rw (lookup-hour_put, other) at q in
              All-lookup IsHour j w (hours b) hb e
        ]

  no_hours-IsHourly : IsHourly bolt.no_hours
  no_hours-IsHourly = rw hours-no_hours tt

  sub_bucket-IsHourly :
      (db : Db bolt) (id : String) → AllHourly db → IsHourly (sub_bucket bolt (get db.traffic id))
  sub_bucket-IsHourly db id h = elim (Option-cases (get db.traffic id)) [
    | inl missing ↦ rw missing no_hours-IsHourly
    | inr (b, found) ↦ rw found (h id b found)
  ]

  put-AllHourly :
      (db : Db bolt) (id : String) (b : Hours)
      → IsHourly b
      → AllHourly db
      → AllHourly (record db { traffic = bolt.put db.traffic id b })
  put-AllHourly db id b hb h k c q = elim (Bool-cases (id == k)) [
    | inl same ↦
        let e : some b ≡ some c = rw (get-put, same) at q in
        let bc : b ≡ c = cc in subst IsHourly bc hb
    | inr other ↦ h k c (rw (get-put, other) at q)
  ]

  put_uint64_pair-IsHour :
      (h a b : ℕ) → h < 2 ^ 63 → IsHour (hour_key h, put_uint64 a ++ put_uint64 b)
  put_uint64_pair-IsHour h a b early = record {
    key_length = length-put_uint64 h;
    key_bytes = put_uint64-AreBytes h;
    value_length = (halves a b).0;
    since_1970 = rw (uint64-put_uint64 h (omega arith)) early;
  }

  add_hour-IsHourly :
      (h inb outb : ℕ) (b : Hours) → h < 2 ^ 63 → IsHourly b → IsHourly (add_hour bolt h inb outb b)
  unfolding add_hour
  add_hour-IsHourly h inb outb b early hb =
      put-IsHourly b (hour_key h) _ (put_uint64_pair-IsHour h _ _ early) hb

  -- The hours that `AddTraffic` leaves for an hour that is not before 1970 have the form that it writes, if
  -- they had it before.
  pub add_traffic-AllHourly :
      (id : String) (h inb outb : ℕ) (s : Store bolt)
      → h < 2 ^ 63
      → AllHourly s.db
      → AllHourly (add_traffic bolt id h inb outb s).0.db
  unfolding add_traffic
  add_traffic-AllHourly id h inb outb s early all =
      let b = add_hour bolt h inb outb (sub_bucket bolt (get s.db.traffic id)) in
      elim (Bool-cases (inb == 0 && outb == 0)) [
        | inl idle ↦ rw idle all
        | inr busy ↦ rw busy (
            commit_keeps bolt AllHourly s.disk s
              (record s.db { traffic = bolt.put s.db.traffic id b }) all
              (put-AllHourly s.db id b
                (add_hour-IsHourly h inb outb _ early (sub_bucket-IsHourly s.db id all)) all))
      ]

  -- `RangeTraffic` returns exactly the hours of the node that start in the interval (its start rounded
  -- down to the hour), in the order of time; nothing, where the node has no sub-bucket. Every hour has the
  -- form that `AddTraffic` writes for a time that is not before 1970.
  pub range_traffic-eq-filter :
      (id : String) (from to : ℕ) (s : Store bolt)
      → local_hour_start from < u64_mod
      → AllHourly s.db
      → range_traffic bolt id from to s
        ≡ map
            (λ kv. point_of kv.0 kv.1)
            (keep_if
              (λ kv. leb (local_hour_start from) (uint64 kv.0) && ltb (uint64 kv.0) to)
              (hours (sub_bucket bolt (get s.db.traffic id))))
  unfolding range_traffic
  range_traffic-eq-filter id from to s small all = elim (Option-cases (get s.db.traffic id)) [
    | inl missing ↦ rw (missing, hours-no_hours) (unfold keep_if in refl)
    | inr (b, found) ↦ rw found (points_in-eq-filter bolt from to b small (all id b found))
  ]
