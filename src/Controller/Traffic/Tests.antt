-- ===== src/Controller/Traffic/Tests.antt =====
-- A node that is reset, and sampled again.
use gost_webui.Prelude.{String, ℕ, ◌-◌, arith, some, ◌≡◌, refl, true, false, [], ◌∷◌, string_eq}
use gost_webui.Prelude.Maps.{Map, lookup, insert}
use gost_webui.Prelude.Int.{pos}
use gost_webui.Model.{Node, zero_node}
use gost_webui.Bolt.Lists.{list_bolt, insert_sorted}
use gost_webui.Store.{open_new, save_node}
use gost_webui.Controller.Sampler.{add64, Item, QuotaStatus, Sampler, sample_node}
use gost_webui.Controller.Sampler.Totals.{reading}
use gost_webui.Controller.Sampler.Reality.{Clock, EngineStats, sample_reality_node, quota_used}
use gost_webui.Controller.Sampler.Reality.Directions.{towards, quota_used-out}
use gost_webui.Controller.Traffic.{
  reset_node_traffic, restore_quota_usage, window_used, starts_at_of, sum_window,
}
use gost_webui.Store.Hours.{
  add_traffic, range_traffic, points_in, add_hour, counters, local_hour_start,
}
use gost_webui.Store.Bytes.{signed, put_uint64, uint64_from, lt_bytes}
use gost_webui.Controller.Traffic.Resets.{sample_node_after_reset, sample_reality_node_after_reset}

abbrev used : Node
used = record zero_node {
  id = "a";
  total_in = 700;
  total_out = 300;
  counter_in = 700;
  counter_out = 300;
}

abbrev sampled_once : Sampler list_bolt
sampled_once = record {
  store = (save_node list_bolt used (open_new list_bolt [])).0;
  last = ("a", record { inb = 700; outb = 300 }) ∷ [];
  live = [];
  engine = [];
}

abbrev counted : Map String Item
counted =
    (
      "node-a-tcp",
      record { inb = 710; outb = 305; cur_conns = 1; total_conns = 2; errs = 0; state = "running" },
    )
    ∷ []

abbrev no_engine : EngineStats
no_engine = record { pid = pos 0; running = false; ready = false; up = 0; down = 0; conns = 0 }

sample_node_after_reset_example :
    let r = reset_node_traffic list_bolt false false no_engine used sampled_once in
    let n' = (sample_node list_bolt counted [] 3600 r.0 r.1).0 in
    (n'.total_in ≡ add64 0 (reading list_bolt counted used).inb)
    × (n'.total_out ≡ add64 0 (reading list_bolt counted used).outb)
sample_node_after_reset_example =
    sample_node_after_reset list_bolt counted [] 3600 false false no_engine used sampled_once refl
      refl

abbrev sing : Node
sing = record used { mode = "reality" }

abbrev running : ℕ → ℕ → EngineStats
running up down = record {
  pid = pos 42;
  running = true;
  ready = true;
  up = up;
  down = down;
  conns = 1;
}

abbrev a_clock : Clock
a_clock = record { now = 7000; day_start = 3600; month_start = 3600 }

sample_reality_node_after_reset_example :
    let r = reset_node_traffic list_bolt false true (running 700 300) sing sampled_once in
    let n' = (sample_reality_node list_bolt a_clock 3600 (running 710 305) r.0 r.1).0 in
    (n'.total_in ≡ 710 - 700) × (n'.total_out ≡ 305 - 300)
sample_reality_node_after_reset_example =
    sample_reality_node_after_reset list_bolt a_clock 3600 false (running 700 300) (running 710 305)
      sing sampled_once refl refl refl refl (omega arith) (omega arith) (omega arith) (omega arith)

quota_used-out_example :
    quota_used list_bolt a_clock (towards "out" sing) sampled_once.store
    ≡ quota_used list_bolt a_clock (towards "total" sing) sampled_once.store
quota_used-out_example = quota_used-out list_bolt a_clock sing sampled_once.store

abbrev metered : Node
metered = record used {
  quota = record { enabled = true; period = "monthly"; bytes = pos 500; direction = "out" };
}

abbrev forgotten : QuotaStatus
forgotten = record {
  used = 10;
  limit = 500;
  starts_at = 3600;
  expires_at = 0;
  active = true;
  expired = false;
  blocked = false;
}

told_40 :
    restore_quota_usage list_bolt 7000 metered
      (some forgotten)
      (add_traffic list_bolt "a" 3600 70 40 sampled_once.store).0
    ≡ some 40
unfolding restore_quota_usage window_used starts_at_of sum_window range_traffic points_in
    add_traffic add_hour counters put_uint64 uint64_from lt_bytes lookup insert insert_sorted
    save_node local_hour_start signed
told_40 = refl
