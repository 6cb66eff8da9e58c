-- ===== src/Controller/Sampler/Reality.antt =====
-- internal/controller/sampler.go, sampleReality: a round of sampling for the nodes that sing-box carries,
-- and their quotas. What sing-box answers and the clock are arguments.
pub mod Directions
pub mod Engines
use gost_webui.Prelude.{
  ℕ, ◌+◌, ◌-◌, ◌%◌, String, Bool, true, false, not, ◌&&◌, ◌||◌, Option, none, some, List, [], ◌∷◌,
  ◌++◌, ltb, leb, ◌==◌, nat_eq, string_eq, if◌then◌else◌,
}
use gost_webui.Prelude.Int.{ℤ, pos, negsuc, positive, pos_part, int_eq}
use gost_webui.Prelude.Maps.{Map, lookup, insert}
use gost_webui.Model.{Node, Point, Live, is_reality, zero_live}
use gost_webui.Bolt.{Bolt}
use gost_webui.Store.{Store, save_node}
use gost_webui.Store.Hours.{range_traffic}
use gost_webui.Controller.Sampler.{
  Counters, EngineCall, apply, Sampler, add64, baseline, is_some, record_sample,
}

-- What sing-box reports of an instance.
pub record EngineStats : Type 0 where
  pub pid : ℤ
  pub running : Bool
  pub ready : Bool
  pub up : ℕ
  pub down : ℕ
  pub conns : ℕ

-- The clock of a round, in Unix seconds: now, and the starts of the local day and month.
pub record Clock : Type 0 where
  pub now : ℕ
  pub day_start : ℕ
  pub month_start : ℕ

unfoldable pub period_start : Clock → String → ℕ
period_start clock period =
    if period == "daily"
    then clock.day_start
    else if period == "monthly"
    then clock.month_start
    else 0

unfoldable sum_points : String → List Point → ℕ → ℕ
sum_points direction [] used = used
sum_points direction (p ∷ ps) used =
    sum_points direction ps (
      if direction == "in"
      then add64 used p.in_bytes
      else add64 (add64 used p.in_bytes) p.out_bytes)

abbrev pub has_quota : Node → Bool
has_quota n = n.quota.enabled && positive n.quota.bytes

module _ (bolt : Bolt) where
  -- The bytes that count towards a sing-box node's quota in its current period.
  unfoldable pub quota_used : Clock → Node → Store bolt → ℕ
  unfolding period_start sum_points
  quota_used clock n st =
      let start = period_start clock n.quota.period in
      if ltb 0 start
      then sum_points n.quota.direction (range_traffic bolt n.id start (clock.now + 1) st) 0
      else if n.quota.direction == "in"
      then n.total_in
      else add64 n.total_in n.total_out

  -- The quota's verdict on a sing-box node: used, limit, blocked.
  unfoldable pub quota_verdict : Clock → Node → Store bolt → ℕ × ℕ × Bool
  unfolding quota_used
  quota_verdict clock n st =
      let used = quota_used clock n st in
      let limit = pos_part n.quota.bytes in
      if has_quota n then (used, limit, leb limit used) else (0, 0, false)

  -- The last part of a round of `sampleReality`: stop what is over its quota, start what may run.
  unfoldable pub enforce : Clock → EngineStats → Node → Sampler bolt → Sampler bolt
  unfolding quota_verdict
  enforce clock st n s =
      let (used, limit, blocked) = quota_verdict clock n s.store in
      let stop = blocked && st.running in
      let start = not blocked && n.enabled && not st.running in
      let running = st.running && not stop in
      let calls =
        if stop then apply n.id false ∷ [] else if start then apply n.id true ∷ [] else [] in
      let lv : Live = record zero_live {
        current_conns = st.conns;
        total_conns = st.conns;
        running = running && not blocked;
        quota_used = used;
        quota_limit = limit;
        quota_blocked = blocked;
        quota_active = has_quota n;
      } in
      record s { engine = s.engine ++ calls; live = insert n.id lv s.live }

  -- A node whose traffic was reset while its engine could not be reached: its counters become the new
  -- baseline, and nothing is added.
  rebase : EngineStats → Node → Sampler bolt → Node × Sampler bolt
  rebase st n s =
      let cur : Counters = record { inb = st.up; outb = st.down } in
      let n' = record n { counter_in = st.up; counter_out = st.down; counter_pid = st.pid } in
      (
        n',
        record s {
          store = (save_node bolt n' s.store).0;
          last = insert n.id cur s.last;
          live = insert n.id (record zero_live { running = st.running }) s.live;
        },
      )

  -- A new engine process counts from 0.
  unfoldable pub reality_baseline : EngineStats → Node → Sampler bolt → Counters
  reality_baseline st n s =
      if positive st.pid && not (n.counter_pid == st.pid)
      then record { inb = 0; outb = 0 }
      else baseline s.last n

  unfoldable pub sample_reality_node :
      Clock → ℕ → EngineStats → Node → Sampler bolt → Node × Sampler bolt
  unfolding record_sample enforce rebase reality_baseline
  sample_reality_node clock hour st n s =
      if n.counter_pid == negsuc 0
      then rebase st n s
      else let cur : Counters = record { inb = st.up; outb = st.down } in
        let (n', s') =
          record_sample bolt hour (reality_baseline st n s) cur (is_some (lookup n.id s.last))
            st.pid n s in
        (n', enforce clock st n' s')

  unfoldable pub sample_reality :
      Clock → ℕ → (String → EngineStats) → List Node → Sampler bolt → List Node × Sampler bolt
  unfolding sample_reality_node
  sample_reality clock hour stats [] s = ([], s)
  sample_reality clock hour stats (n ∷ ns) s =
      let (n', s') =
        if is_reality n then sample_reality_node clock hour (stats n.id) n s else (n, s) in
      let (ns', s'') = sample_reality clock hour stats ns s' in (n' ∷ ns', s'')
