-- ===== src/Controller/Sampler/Tests.antt =====
-- Rounds of sampling on a node with one service.
use gost_webui.Prelude.{
  ◌≢◌, ℕ, String, ◌≡◌, refl, true, false, not, ◌&&◌, some, [], ◌∷◌, ◌++◌, arith, if◌then◌else◌,
  string_eq,
}
use gost_webui.Prelude.Int.{pos}
use gost_webui.Prelude.Maps.{Map, lookup, insert}
use gost_webui.Model.{Node, Live, zero_node, tcp_name, service_names}
use gost_webui.Bolt.Lists.{list_bolt}
use gost_webui.Store.{open_new, save_node, get_node}
use gost_webui.Controller.Sampler.{
  Item, apply, Sampler, sample_node, node_sums, sum_services, add_item,
}
use gost_webui.Controller.Sampler.Reality.{Clock, EngineStats, enforce}
use gost_webui.Controller.Sampler.Quotas.{IsOver, enforce_lem}
use gost_webui.Controller.Sampler.Falls.{sample_node_after_fall}
use gost_webui.Controller.Sampler.Totals.{
  reading, IsSynced, sampled, restarted, run, Rises, IsExact, run-IsExact,
}

-- A node that has counted 70 and 30 bytes.
abbrev a_node : Node
a_node = record zero_node {
  id = "a";
  total_in = 700;
  total_out = 300;
  counter_in = 70;
  counter_out = 30;
}

abbrev begun : Sampler list_bolt
begun = record {
  store = (save_node list_bolt a_node (open_new list_bolt [])).0;
  last = [];
  live = [];
  engine = [];
}

abbrev reported : ℕ → ℕ → Map String Item
reported i o =
    (
      "node-a-tcp",
      record { inb = i; outb = o; cur_conns = 1; total_conns = 2; errs = 0; state = "running" },
    )
    ∷ []

begun-IsSynced : IsSynced list_bolt a_node begun
unfolding save_node get_node lookup insert
begun-IsSynced = record {
  disk = refl;
  base = refl;
  saved = refl;
  small_in = omega arith;
  small_out = omega arith;
}

reads : reading list_bolt (reported 100 40) a_node ≡ record { inb = 100; outb = 40 }
unfolding node_sums sum_services add_item service_names lookup tcp_name
reads = refl

rising : Rises list_bolt (restarted ∷ sampled (reported 100 40) [] 3600 ∷ []) a_node begun
rising = (rw reads (omega arith), rw reads (omega arith), tt)

run-IsExact_example :
    IsExact list_bolt a_node
      (run list_bolt (restarted ∷ sampled (reported 100 40) [] 3600 ∷ []) a_node begun).0
run-IsExact_example =
    run-IsExact list_bolt (restarted ∷ sampled (reported 100 40) [] 3600 ∷ []) a_node begun
      begun-IsSynced rising

abbrev watched : Sampler list_bolt
watched = record begun { last = ("a", record { inb = 200; outb = 90 }) ∷ [] }

last_seen : lookup "a" watched.last ≡ some (record { inb = 200; outb = 90 })
unfolding lookup
last_seen = refl

sample_node_after_fall_example :
    ((sample_node list_bolt (reported 100 40) [] 3600 a_node watched).0 ≡ a_node)
    × (lookup "a" (sample_node list_bolt (reported 100 40) [] 3600 a_node watched).1.last
        ≡ some (reading list_bolt (reported 100 40) a_node))
    × ((sample_node list_bolt (reported 100 40) [] 3600 a_node watched).1.store ≡ watched.store)
sample_node_after_fall_example =
    sample_node_after_fall list_bolt (reported 100 40) [] 3600 a_node watched
      (record { inb = 200; outb = 90 }) last_seen (rw (reads) (omega arith))
      (rw (reads) (omega arith))

abbrev a_clock : Clock
a_clock = record { now = 7000; day_start = 3600; month_start = 3600 }

abbrev capped : Node
capped = record a_node {
  mode = "reality";
  enabled = true;
  quota = record { enabled = true; period = "total"; bytes = pos 500; direction = "total" };
}

abbrev an_engine : EngineStats
an_engine = record { pid = pos 42; running = true; ready = true; up = 70; down = 30; conns = 1 }

enforce_lem_example :
    (IsOver list_bolt a_clock capped begun
      → ((lv : Live) × (lookup "a" (enforce list_bolt a_clock an_engine capped begun).live
            ≡ some lv)
          × (lv.quota_blocked ≡ true)
          × (lv.running ≡ false))
        × ((enforce list_bolt a_clock an_engine capped begun).engine
            ≡ [] ++ (if true then apply "a" false ∷ [] else [])))
    × (¬ IsOver list_bolt a_clock capped begun
        → ((lv : Live) × (lookup "a" (enforce list_bolt a_clock an_engine capped begun).live
              ≡ some lv)
            × (lv.quota_blocked ≡ false)
            × (lv.running ≡ true))
          × ((enforce list_bolt a_clock an_engine capped begun).engine
              ≡ [] ++ (if true && not true then apply "a" true ∷ [] else [])))
enforce_lem_example = enforce_lem list_bolt a_clock an_engine capped begun

forty_two : pos 0 ≢ pos 42
forty_two q = ground (arith, q)
