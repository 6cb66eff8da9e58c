-- ===== src/Store/Hours.antt =====
-- internal/store/store.go: the traffic of each node by the hour. A sub-bucket of a node holds, under the
-- eight bytes of an hour's first second, the sixteen bytes of two counters.
pub mod Form
pub mod Pruning
pub mod Scan
pub mod Totals
use gost_webui.Prelude.{
  ℕ, ◌+◌, ◌-◌, ◌%◌, ◌<◌, String, Bool, true, not, ◌&&◌, ◌||◌, Option, none, some, List, [], ◌∷◌,
  ◌==◌, nat_eq, string_eq, if◌then◌else◌, length, take, drop, ◌++◌,
}
use gost_webui.Prelude.Maps.{Map, lookup}
use gost_webui.Model.{Point}
use gost_webui.Bolt.{Bolt}
use gost_webui.Store.{Store, update}
use gost_webui.Prelude.Int.{pos, int_ltb}
use gost_webui.Store.Bytes.{ByteString, bytes_eq, u64_mod, put_uint64, uint64, signed, lt_bytes}

unfoldable pub local_hour_start : ℕ → ℕ
local_hour_start ts = ts - ts % 3600

abbrev pub hour_key : ℕ → ByteString
hour_key ts = put_uint64 ts

-- What an hour's value holds: two counters of eight bytes, and nothing where the length is not 16.
unfoldable pub counters : Option ByteString → ℕ × ℕ
counters none = (0, 0)
counters (some v) = if length v == 16 then (uint64 (take 8 v), uint64 (drop 8 v)) else (0, 0)

-- `c.Seek`
seek : ByteString → Map ByteString ByteString → Map ByteString ByteString
seek k [] = []
seek k ((j, v) ∷ m) = let rest = seek k m in if lt_bytes j k then rest else (j, v) ∷ m

abbrev pub point_of : ByteString → ByteString → Point
point_of k v = record {
  ts = signed (uint64 k);
  in_bytes = uint64 (take 8 v);
  out_bytes = uint64 (drop 8 v);
}

-- The loop of `RangeTraffic` from where the cursor stands.
scan : ℕ → Map ByteString ByteString → List Point
scan to [] = []
scan to ((k, v) ∷ m) =
    let rest = scan to m in
    if not (length k == 8) || not (length v == 16)
    then rest
    else if not (int_ltb (signed (uint64 k)) (pos to))
    then []
    else point_of k v ∷ rest

-- The keys that one sub-bucket's loop in `PruneTraffic` collects.
old_keys : ℕ → Map ByteString ByteString → List ByteString
old_keys before [] = []
old_keys before ((k, v) ∷ m) =
    let rest = old_keys before m in
    if not (length k == 8)
    then rest
    else if not (int_ltb (signed (uint64 k)) (pos before))
    then []
    else k ∷ rest

module _ (bolt : Bolt) where
  open bolt use {
    Bucket, empty, get, put, delete, entries, Hours, no_hours, hour_put, hour_delete, hours,
  }

  -- Traffic by the hour.
  abbrev pub sub_bucket : Option Hours → Hours
  sub_bucket none = no_hours
  sub_bucket (some b) = b

  unfoldable pub add_hour : ℕ → ℕ → ℕ → Hours → Hours
  add_hour hour_ts inb outb b =
      let (in_sum, out_sum) = counters (lookup (hour_key hour_ts) (hours b)) in
      hour_put b (hour_key hour_ts)
        (put_uint64 ((in_sum + inb) % u64_mod) ++ put_uint64 ((out_sum + outb) % u64_mod))

  unfoldable pub add_traffic : String → ℕ → ℕ → ℕ → Store bolt → Store bolt × Bool
  unfolding add_hour
  add_traffic id hour_ts inb outb s =
      if inb == 0 && outb == 0
      then (s, true)
      else update bolt s (record s.db {
        traffic =
            put s.db.traffic id (add_hour hour_ts inb outb (sub_bucket (get s.db.traffic id)));
      })

  unfoldable pub points_in : ℕ → ℕ → Option Hours → List Point
  unfolding seek scan
  points_in from to none = []
  points_in from to (some b) = scan to (seek (hour_key (local_hour_start from)) (hours b))

  unfoldable pub range_traffic : String → ℕ → ℕ → Store bolt → List Point
  unfolding points_in
  range_traffic id from to s = points_in from to (get s.db.traffic id)

  delete_hours : List ByteString → Hours → Hours
  delete_hours [] b = b
  delete_hours (k ∷ ks) b = delete_hours ks (hour_delete b k)

  prune_hours : ℕ → Hours → Hours
  unfolding old_keys delete_hours
  prune_hours before b = delete_hours (old_keys before (hours b)) b

  prune_all : ℕ → Map String Hours → Bucket Hours → Bucket Hours
  unfolding prune_hours
  prune_all before [] root = root
  prune_all before ((id, b) ∷ m) root = prune_all before m (put root id (prune_hours before b))

  unfoldable pub prune_traffic : ℕ → Store bolt → Store bolt × Bool
  unfolding prune_all
  prune_traffic before s =
      update bolt s (record s.db { traffic = prune_all before (entries s.db.traffic) s.db.traffic })
