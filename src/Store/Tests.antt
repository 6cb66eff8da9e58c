-- ===== src/Store/Tests.antt =====
-- The store on a database that is kept in lists.
use gost_webui.Prelude.{
  ℕ, ◌<◌, String, ◌≡◌, refl, true, false, ◌&&◌, [], map, arith, ltb, leb, ◌==◌, nat_eq, string_eq,
  if◌then◌else◌, keep_if,
}
use gost_webui.Model.{Node, zero_node}
use gost_webui.Bolt.Lists.{list_bolt}
use gost_webui.Store.{Session, Device, Store, open_new}
use gost_webui.Store.Bytes.{u64_mod, put_uint64, uint64, uint64-put_uint64}
use gost_webui.Store.Hours.{
  sub_bucket, add_traffic, range_traffic, prune_traffic, point_of, local_hour_start,
}
use gost_webui.Store.Hours.Totals.{traffic_at, added, add_traffic_lem}
use gost_webui.Store.Hours.Form.{
  AllHourly, AllHourly-open_new, add_traffic-AllHourly, range_traffic-eq-filter,
}
use gost_webui.Store.Hours.Pruning.{prune_traffic_lem}
use gost_webui.Store.Logins.{save_session, prune_sessions, save_device, prune_devices}

abbrev young : Node
young = record zero_node { id = "young"; created_at = 20 }

abbrev old_node : Node
old_node = record zero_node { id = "old"; created_at = 10 }

uint64-put_uint64_example : uint64 (put_uint64 70000) ≡ 70000
uint64-put_uint64_example = uint64-put_uint64 70000 (omega arith)

abbrev fresh : Store list_bolt
fresh = open_new list_bolt []

add_traffic_lem_example :
    ((add_traffic list_bolt "a" 3600 5 7 fresh).1 ≡ true
      → (k : String) (j : ℕ) → j < u64_mod
      → traffic_at list_bolt k j (add_traffic list_bolt "a" 3600 5 7 fresh).0 ≡ (
          if "a" == k && 3600 == j
          then added list_bolt 5 7 (traffic_at list_bolt k j fresh)
          else traffic_at list_bolt k j fresh))
    × ((add_traffic list_bolt "a" 3600 5 7 fresh).1 ≡ false
        → (add_traffic list_bolt "a" 3600 5 7 fresh).0.db ≡ fresh.db)
add_traffic_lem_example = add_traffic_lem list_bolt "a" 3600 5 7 fresh (omega arith) (omega arith)

abbrev used : Store list_bolt
used = (add_traffic list_bolt "a" 3600 5 7 fresh).0

used-AllHourly : AllHourly list_bolt used.db
used-AllHourly =
    add_traffic-AllHourly list_bolt "a" 3600 5 7 fresh (omega arith)
      (AllHourly-open_new list_bolt [])

range_traffic-eq-filter_example :
    range_traffic list_bolt "a" 4000 9000 used
    ≡ map
        (λ kv. point_of kv.0 kv.1)
        (keep_if
          (λ kv. leb (local_hour_start 4000) (uint64 kv.0) && ltb (uint64 kv.0) 9000)
          (list_bolt.hours (sub_bucket list_bolt (list_bolt.get used.db.traffic "a"))))
range_traffic-eq-filter_example =
    range_traffic-eq-filter list_bolt "a" 4000 9000 used (unfold local_hour_start in omega arith)
      used-AllHourly

prune_traffic_lem_example :
    ((prune_traffic list_bolt 7200 used).1 ≡ true
      → (id : String) (j : ℕ) → j < u64_mod
      → traffic_at list_bolt id j (prune_traffic list_bolt 7200 used).0
        ≡ (if ltb j 7200 then (0, 0) else traffic_at list_bolt id j used))
    × ((prune_traffic list_bolt 7200 used).1 ≡ false
        → (prune_traffic list_bolt 7200 used).0.db ≡ used.db)
prune_traffic_lem_example = prune_traffic_lem list_bolt 7200 used used-AllHourly

abbrev a_session : Session
a_session = record { user = "admin"; expires_at = 100; ua = "ua" }

abbrev logged_in : Store list_bolt
logged_in = (save_session list_bolt "token" a_session fresh).0

sessions_pruned : (prune_sessions list_bolt 200 logged_in).1 ≡ true
unfolding prune_sessions save_session
sessions_pruned = refl

abbrev a_device : Device
a_device = record { user = "admin"; ua = "ua"; created_at = 0; expires_at = 100 }

abbrev trusted : Store list_bolt
trusted = (save_device list_bolt "key" a_device fresh).0

devices_pruned : (prune_devices list_bolt 200 trusted).2 ≡ true
unfolding prune_devices save_device
devices_pruned = refl
